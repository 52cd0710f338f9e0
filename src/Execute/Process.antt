-- ===== src/Execute/Process.antt =====
-- The shell as a process: its context with io_fd, pipe_fd, is_pipe and pid_to_wait of t_ctx and the
-- world of the system, and the closing of descriptors, srcs/error_handling/close_fds.c. A child is
-- given its part of the code as a function of its own world; what is freed and closed before an exit
-- is left out. A descriptor of -1 is `none`.
use minishell.Base.{ℕ, ◌%◌, Bool, true, false, Option, none, some, Bytes, ℤ, pos, negsuc}
use minishell.Ctx.{Ctx}
use minishell.Libft.{Libft}
use minishell.Os.{Os, WaitStatus, exited}

pub record Process (lib : Libft) (os : Os) : Type 0 where
  pub ctx : Ctx lib
  pub world : os.World
  -- AT_FIELDS, from which expanded redirections are read
  pub fields : Bytes
  pub io_in : Option ℕ
  pub io_out : Option ℕ
  pub pipe_in : Option ℕ
  pub pipe_out : Option ℕ
  pub is_pipe : Bool
  pub pid_to_wait : Option ℕ

-- What a call comes to: it returns, or the process ends with a status; `unfinished` where the fuel
-- of an expansion runs out.
pub data Run (A : Type 0) : Type 0 where
  returned : A → Run A
  ended : ℕ → Run A
  unfinished : Run A

infixl 5 ◌>>=ᵣ◌
abbrev pub ◌>>=ᵣ◌ : {A B : Type 0} → Run A → (A → Run B) → Run B
returned a >>=ᵣ f = f a
ended status >>=ᵣ f = ended status
unfinished >>=ᵣ f = unfinished

-- where `none` is the end of the fuel
abbrev pub or_unfinished : {A : Type 0} → Option A → Run A
or_unfinished none = unfinished
or_unfinished (some a) = returned a

-- what the parent sees of exit(status)
abbrev pub exit : ℕ → WaitStatus
exit status = exited (status % 256)

abbrev pub is_some : Option ℕ → Bool
is_some none = false
is_some (some n) = true

-- a descriptor as the nodes store it
abbrev pub descriptor : ℤ → Option ℕ
descriptor (pos n) = some n
descriptor (negsuc n) = none

module _ (lib : Libft) (os : Os) where
  unfoldable pub ft_close_fd : os.World → Option ℕ → os.World × Option ℕ
  ft_close_fd w none = (w, none)
  ft_close_fd w (some n) = (os.close w n, none)

  unfoldable pub close_in : Process lib os → Process lib os
  unfolding ft_close_fd
  close_in p = let (w, fd) = ft_close_fd p.world p.io_in in record p { world = w; io_in = fd }

  unfoldable pub close_out : Process lib os → Process lib os
  unfolding ft_close_fd
  close_out p = let (w, fd) = ft_close_fd p.world p.io_out in record p { world = w; io_out = fd }

  unfoldable pub close_io : Process lib os → Process lib os
  unfolding close_in close_out
  close_io p = close_out (close_in p)

  unfoldable pub close_all_fds : Process lib os → Process lib os
  unfolding close_io ft_close_fd
  close_all_fds p =
      let p1 = close_io p in
      let (w2, in_fd) = ft_close_fd p1.world p1.pipe_in in
      let (w3, out_fd) = ft_close_fd w2 p1.pipe_out in
      record p1 { world = w3; pipe_in = in_fd; pipe_out = out_fd }

  -- the parent's side of a fork; the status 1 is that of msh_error
  unfoldable pub spawn : Process lib os → (os.World → WaitStatus) → Process lib os × ℕ
  unfolding close_io
  spawn p child =
      let (w, pid) = os.fork p.world child in
      let forked = record p { world = w } in
      elim pid [
        | none ↦ (forked, 1)
        | some n ↦ (close_io (record forked { pid_to_wait = some n }), 0)
      ]
