-- ===== src/Libft.antt =====
-- libft, the C library below the shell: the interface that the models take, and one instance.
mod Interface
mod Concrete
pub use Interface.{Libft}
pub use Concrete.{concrete}
