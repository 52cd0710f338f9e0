-- ===== src/Execute/Wait.antt =====
-- The wait for the children: srcs/execute/wait_return_status.c. g_signal is left out.
use minishell.Base.{ℕ, zero, suc, ◌+◌, Bool, true, false, Option, none, some, ◌==◌, if◌then◌else◌}
use minishell.Execute.Process.{Process}
use minishell.Libft.{Libft}
use minishell.Os.{Os, WaitStatus, exited, signaled, Waited, reaped, eintr, echild, wait_failed}

-- the status of a command by the status of its process
unfoldable pub status_of : WaitStatus → ℕ
status_of (exited status) = status
status_of (signaled signal) = 128 + signal

-- `wpid == pid_to_wait`
abbrev pub is_awaited : Option ℕ → ℕ → Bool
is_awaited none pid = false
is_awaited (some awaited) pid = pid == awaited

module _ (lib : Libft) (os : Os) where
  -- one round behind its waitpid, before the further ones
  unfoldable pub wait_round :
      os.World → Waited → Option ℕ → ℕ → (ℕ → os.World × ℕ × Bool) → os.World × ℕ × Bool
  unfolding status_of
  wait_round w (reaped pid status) pid_to_wait result further =
      further (if is_awaited pid_to_wait pid then status_of status else result)
  wait_round w eintr pid_to_wait result further = further result
  wait_round w echild pid_to_wait result further = (w, result, true)
  wait_round w wait_failed pid_to_wait result further = (w, result, false)

  -- the loop, on fuel: the world, the result, and whether no child is left
  unfoldable pub wait_loop : ℕ → os.World → Option ℕ → ℕ → os.World × ℕ × Bool
  unfolding wait_round
  wait_loop zero w pid_to_wait result = (w, result, true)
  wait_loop (suc fuel) w pid_to_wait result =
      let (w', waited) = os.waitpid w in
      wait_round w' waited pid_to_wait result (wait_loop fuel w' pid_to_wait)

  unfoldable pub wait_return_status : Process lib os → Process lib os × ℕ
  unfolding wait_loop
  wait_return_status p =
      let (w, result, none_left) = wait_loop (suc (os.pending p.world)) p.world p.pid_to_wait 1 in
      (record p { world = w; pid_to_wait = if none_left then none else p.pid_to_wait }, result)
