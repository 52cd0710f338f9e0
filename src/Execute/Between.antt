-- ===== src/Execute/Between.antt =====
-- The descriptors of a pipeline between its commands: srcs/execute/execute_pipeline.c.
use minishell.Base.{ℕ, zero, suc, ◌+◌, ◌≡◌, refl, ap, ◌∙◌, Bool, Option, none, some, arith}
use minishell.Execute.Held.{holders, Held, Held-change, close_io-Held}
use minishell.Execute.Leaves.{close_io-IsEmpty}
use minishell.Execute.Nodes.{Shape}
use minishell.Execute.Owns.{held_at, Owns-equal, Owns-same, pipe-Owns}
use minishell.Execute.Pipeline.{next_input}
use minishell.Execute.Process.{Process, close_io}
use minishell.Execute.Wait.{wait_round, wait_loop, wait_return_status}
use minishell.Libft.{Libft}
use minishell.Os.{Os, Waited, reaped, eintr, echild, wait_failed}

module _ (lib : Libft) (os : Os) where
  file_at-wait_round :
      (w : os.World) (waited : Waited) (pid : Option ℕ) (result j : ℕ)
      (further : ℕ → os.World × ℕ × Bool)
      → ((result' : ℕ) → os.file_at (further result').0 j ≡ os.file_at w j)
      → os.file_at (wait_round lib os w waited pid result further).0 j ≡ os.file_at w j
  unfolding wait_round
  file_at-wait_round w (reaped child status) pid result j further h = h _
  file_at-wait_round w eintr pid result j further h = h result
  file_at-wait_round w echild pid result j further h = refl
  file_at-wait_round w wait_failed pid result j further h = refl

  file_at-wait_loop :
      (fuel : ℕ) (w : os.World) (pid : Option ℕ) (result : ℕ) (j : ℕ)
      → os.file_at (wait_loop lib os fuel w pid result).0 j ≡ os.file_at w j
  unfolding wait_loop
  file_at-wait_loop zero w pid result j = refl
  file_at-wait_loop (suc fuel) w pid result j =
      let (w', waited) = os.waitpid w in
      file_at-wait_round w' waited pid result j (wait_loop lib os fuel w' pid)
        (λ result'. file_at-wait_loop fuel w' pid result' j)
      ∙ os.file_at-waitpid w j

  module _ (base : ℕ → Option os.File) (n : Shape) where
    pub wait-Held :
        (p : Process lib os)
        → Held lib os base n none p
        → Held lib os base n none (wait_return_status lib os p).0
    unfolding wait_return_status
    wait-Held p h =
        let w = wait_loop lib os (suc (os.pending p.world)) p.world p.pid_to_wait 1 in
        let same =
          Owns-same os base (holders lib os p) p.world w.0
            (file_at-wait_loop (suc (os.pending p.world)) p.world p.pid_to_wait 1) h.owned in
        Held-change lib os base n none p _ refl refl refl same h

    pub next_input-Held :
        (p : Process lib os) (reading : Option ℕ)
        → Held lib os base n reading p
        → Held lib os base n none (next_input lib os p)
    unfolding next_input
    next_input-Held p reading h =
        let p1 = close_io lib os p in
        let h1 = close_io-Held lib os base n reading p h in
        let p2 = record p1 { io_in = p1.pipe_in; pipe_in = none } in
        let moved : (j : ℕ) → holders lib os p1 j ≡ holders lib os p2 j =
          λ j. omega (arith, ap (λ fd. held_at fd j) (close_io-IsEmpty lib os base p).0) in
        record {
          owned =
              Owns-equal os base (holders lib os p1) (holders lib os p2) p1.world moved h1.owned;
          leads = h1.leads;
          size = h1.size;
          reads = refl;
          writes = h1.writes;
        }

    pub piped-Held :
        (p : Process lib os) (w : os.World) (r s : ℕ)
        → os.pipe p.world ≡ (w, some (r, s))
        → p.io_out ≡ none
        → Held lib os base n none p
        → Held lib os base n
            (some r)
            (record p { world = w; io_out = some s; pipe_in = some r; pipe_out = none })
    piped-Held p w r s e empty h =
        let p' = record p { world = w; io_out = some s; pipe_in = some r; pipe_out = none } in
        let both = pipe-Owns os base (holders lib os p) p.world w r s e h.owned in
        let moved : (j : ℕ)
            → held_at (some r) j + (held_at (some s) j + holders lib os p j) ≡ holders lib os p' j =
          λ j. omega (
            arith,
            ap (λ fd. held_at fd j) empty,
            ap (λ fd. held_at fd j) h.reads,
            ap (λ fd. held_at fd j) h.writes,
          ) in
        record {
          owned = Owns-equal os base _ (holders lib os p') w moved both;
          leads = h.leads;
          size = h.size;
          reads = refl;
          writes = refl;
        }
