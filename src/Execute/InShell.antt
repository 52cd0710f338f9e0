-- ===== src/Execute/InShell.antt =====
-- A builtin in the shell itself: srcs/builtin/execute_builtin.c. A failing dup ends the process.
use minishell.Base.{ℕ, Option, none, some, List, Bytes, if◌then◌else◌}
use minishell.Execute.Child.{CommandFunction, Callees, execute_builtin_in_subshell}
use minishell.Execute.Process.{
  Process, Run, returned, ended, ◌>>=ᵣ◌, is_some, ft_close_fd, close_io,
}
use minishell.Execute.Redirect.{process_redirection}
use minishell.Libft.{Libft}
use minishell.Os.{Os}

module _ (lib : Libft) (os : Os) where
  -- one of the two descriptors of save_fds
  unfoldable pub save_fd : os.World → Option ℕ → ℕ → Run (os.World × Option ℕ)
  save_fd w none n = returned (w, none)
  save_fd w (some fd) n =
      let (w', saved) = os.dup w n in if is_some saved then returned (w', saved) else ended 1

  unfoldable pub save_fds : Process lib os → Run (Process lib os × Option ℕ × Option ℕ)
  unfolding save_fd
  save_fds p = save_fd p.world p.io_in 0 >>=ᵣ λ (w1, saved_in).
      save_fd w1 p.io_out 1 >>=ᵣ λ (w2, saved_out).
      returned (record p { world = w2 }, saved_in, saved_out)

  -- a dup2, if there is a descriptor
  unfoldable pub dup_or_end : os.World → Option ℕ → ℕ → Run os.World
  dup_or_end w none n = returned w
  dup_or_end w (some fd) n =
      let (w', done) = os.dup2 w fd n in if done then returned w' else ended 1

  unfoldable pub reset_to_saved_fd : os.World → Option ℕ → Option ℕ → Run os.World
  unfolding dup_or_end ft_close_fd
  reset_to_saved_fd w saved_in saved_out = dup_or_end w saved_in 0 >>=ᵣ λ w1.
      dup_or_end w1 saved_out 1 >>=ᵣ λ w2.
      returned (ft_close_fd lib os (ft_close_fd lib os w2 saved_in).0 saved_out).0

  -- io_fd onto 0 and 1
  unfoldable pub replace_io : Process lib os → Run (Process lib os)
  unfolding dup_or_end ft_close_fd
  replace_io p = dup_or_end p.world p.io_in 0 >>=ᵣ λ w1.
      let (w2, in_fd) = ft_close_fd lib os w1 p.io_in in
      dup_or_end w2 p.io_out 1 >>=ᵣ λ w3.
      let (w4, out_fd) = ft_close_fd lib os w3 p.io_out in
      returned (record p { world = w4; io_in = in_fd; io_out = out_fd })

  module _ (callees : Callees lib os) where
    -- the call of the builtin
    unfoldable pub call : Process lib os → CommandFunction → List Bytes → Run (Process lib os × ℕ)
    call p command argv =
        let (c, w, result_code, exits) = callees.builtin command p.ctx p.world argv in
        if exits then ended result_code else returned (record p { ctx = c; world = w }, result_code)

    unfoldable pub execute :
        Process lib os → CommandFunction → List Bytes → Run (Process lib os × ℕ)
    unfolding save_fds replace_io call reset_to_saved_fd
    execute p command argv = save_fds p >>=ᵣ λ (p1, saved_in, saved_out). replace_io p1 >>=ᵣ λ p2.
        call p2 command argv >>=ᵣ λ (p3, result_code).
        reset_to_saved_fd p3.world saved_in saved_out >>=ᵣ λ w.
        returned (record p3 { world = w }, result_code)

    unfoldable pub execute_builtin :
        Process lib os → CommandFunction → List Bytes → ℕ → Run (Process lib os × ℕ)
    unfolding execute
    execute_builtin p command argv redir_idx =
        let (p1, redirected) = process_redirection lib os p redir_idx in
        if p.is_pipe
        then returned (execute_builtin_in_subshell lib os callees p command argv redir_idx)
        else if redirected
        then (execute p1 command argv >>=ᵣ λ (p2, result). returned (close_io lib os p2, result))
        else returned (p1, 1)
