-- ===== src/Os.antt =====
-- The operating system below the shell: the interface that the models take, and one instance.
mod Interface
mod Concrete
pub use Interface.{Os, OpenMode, read_only, truncating, appending}
pub use Interface.{WaitStatus, exited, signaled, Waited, reaped, eintr, echild, wait_failed}
pub use Interface.{Executed, ran, no_entry, exec_failed}
pub use Concrete.{Machine, machine}
