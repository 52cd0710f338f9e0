-- ===== src/Execute/Reaps.antt =====
-- The children that are waited for, in the order in which they end: srcs/execute/wait_return_status.c.
use minishell.Base.{
  ℕ, zero, suc, ◌<◌, ◌≡◌, refl, ap, Bool, true, Option, none, List, [], ◌∷◌, if◌then◌else◌, arith,
}
use minishell.Execute.Process.{Process}
use minishell.Execute.Wait.{is_awaited, status_of, wait_round, wait_loop, wait_return_status}
use minishell.Libft.{Libft}
use minishell.Os.{Os, WaitStatus, reaped, eintr, echild}

-- the children that waitpid gives from a world on, until there is none left
pub data Reaps (os : Os) : os.World → List (ℕ × WaitStatus) → os.World → Type 0 where
  finished : (w w' : os.World) → os.waitpid w ≡ (w', echild) → Reaps os w [] w'
  interrupted :
      (w w1 w' : os.World) (children : List (ℕ × WaitStatus))
      → os.waitpid w ≡ (w1, eintr)
      → Reaps os w1 children w'
      → Reaps os w children w'
  child :
      (w w1 w' : os.World) (pid : ℕ) (status : WaitStatus) (children : List (ℕ × WaitStatus))
      → os.waitpid w ≡ (w1, reaped pid status)
      → Reaps os w1 children w'
      → Reaps os w ((pid, status) ∷ children) w'

-- the status of the last child that has this process number
abbrev pub last_status : List (ℕ × WaitStatus) → Option ℕ → ℕ → ℕ
unfolding status_of
last_status [] pid_to_wait result = result
last_status ((pid, status) ∷ children) pid_to_wait result =
    last_status children pid_to_wait
      (if is_awaited pid_to_wait pid then status_of status else result)

module _ (lib : Libft) (os : Os) where
  wait_loop-Reaps :
      (fuel : ℕ) (w w' : os.World) (children : List (ℕ × WaitStatus)) (pid : Option ℕ) (result : ℕ)
      → Reaps os w children w'
      → os.pending w < fuel
      → wait_loop lib os fuel w pid result ≡ (w', last_status children pid result, true)
  unfolding wait_loop wait_round status_of
  wait_loop-Reaps zero w w' children pid result r h = absurd (omega arith)
  wait_loop-Reaps (suc fuel) w w' _ pid result (finished _ _ e) h = rw e refl
  wait_loop-Reaps (suc fuel) w w' _ pid result (interrupted _ w1 _ children e r) h =
      rw e
        (wait_loop-Reaps fuel w1 w' children pid result r (omega (arith, os.pending-eintr w w1 e)))
  wait_loop-Reaps (suc fuel) w w' _ pid result (child _ w1 _ pid1 status children e r) h = rw e (
      wait_loop-Reaps fuel w1 w' children pid _ r
        (omega (arith, os.pending-reaped w w1 pid1 status e)))

  -- Where waitpid gives these children from the shell's world on, interrupted or not, and then
  -- ECHILD: wait_return_status returns behind them, waits for none any more, and its status is that
  -- of the last child that has the awaited process number (128 and the signal, if a signal ended
  -- it), or 1 if there is none.
  pub wait_return_status-Reaps :
      (p : Process lib os) (w' : os.World) (children : List (ℕ × WaitStatus))
      → Reaps os p.world children w'
      → wait_return_status lib os p
        ≡ (record p { world = w'; pid_to_wait = none }, last_status children p.pid_to_wait 1)
  unfolding wait_return_status
  wait_return_status-Reaps p w' children r =
      ap
        (λ (l : os.World × ℕ × Bool).
          (record p { world = l.0; pid_to_wait = if l.2 then none else p.pid_to_wait }, l.1))
        (wait_loop-Reaps (suc (os.pending p.world)) p.world w' children p.pid_to_wait 1 r
          (omega arith))
