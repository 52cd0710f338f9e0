-- ===== src/Execute/Restored.antt =====
-- The table of descriptors around a builtin in the shell: execute of srcs/builtin/execute_builtin.c
-- puts the files behind 0 and 1 back.
use minishell.Base.{ℕ, ◌≡◌, ◌≢◌, refl, ap, ◌∙◌, Option, none, List, Bytes, Bool-cases, inl, inr}
use minishell.Execute.Child.{CommandFunction, Callees}
use minishell.Execute.InShell.{save_fds, replace_io, reset_to_saved_fd, call, execute}
use minishell.Execute.Process.{Process, returned, ◌>>=ᵣ◌}
use minishell.Execute.Returns.{Returns, Returns-bind, Returns-weaken}
use minishell.Execute.Saved.{
  behind, around_lem, save_fds-Saved, replace_io-HasTable, reset_to_saved_fd-HasTable,
}
use minishell.Libft.{Libft}
use minishell.Os.{Os}
use minishell.Execute.Tables.{with_file?, HasTable, doubled, IsHigh, AreApart}

module _ (lib : Libft) (os : Os) (callees : Callees lib os) where
  -- what a builtin leaves as it is
  abbrev Called : Process lib os → Process lib os × ℕ → Type 0
  Called p (p', result) =
      (p' ≡ record p { ctx = p'.ctx; world = p'.world })
      × (p'.ctx.commands ≡ p.ctx.commands)
      × ((j : ℕ) → os.file_at p'.world j ≡ os.file_at p.world j)

  call-Called :
      (p : Process lib os) (command : CommandFunction) (argv : List Bytes)
      → Returns (Called p) (call lib os callees p command argv)
  unfolding call
  call-Called p command argv =
      let (c, w, result, exits) = callees.builtin command p.ctx p.world argv in
      elim (Bool-cases exits) [
        | inl e ↦ rw e tt
        | inr e ↦ rw e (
          refl,
          callees.same_nodes command p.ctx p.world argv,
          callees.same_files command p.ctx p.world argv,
        )
      ]

  -- io_fd are closed, and nothing else that the shell holds is changed
  pub record Finished (p : Process lib os) (table : ℕ → Option os.File) (r : Process lib os × ℕ)
      : Type 0 where
    pub empty_in : r.0.io_in ≡ none
    pub empty_out : r.0.io_out ≡ none
    pub nodes : r.0.ctx.commands ≡ p.ctx.commands
    pub reads : r.0.pipe_in ≡ p.pipe_in
    pub writes : r.0.pipe_out ≡ p.pipe_out
    pub files : HasTable lib os table r.0.world

  -- execute behind save_fds
  execute_saved :
      (t2 : ℕ → Option os.File) (p : Process lib os) (command : CommandFunction) (argv : List Bytes)
      (s0 s1 : Option ℕ)
      → HasTable lib os t2 p.world
      → Returns (Finished p (behind lib os t2 p.io_in p.io_out s0 s1)) (
          replace_io lib os p >>=ᵣ λ p2.
          call lib os callees p2 command argv >>=ᵣ λ (p3, result_code).
          reset_to_saved_fd lib os p3.world s0 s1 >>=ᵣ λ w.
          returned (record p3 { world = w }, result_code))
  execute_saved t2 p command argv s0 s1 h =
      Returns-bind _ _ (replace_io lib os p) _ (replace_io-HasTable lib os t2 p h) λ p2 (e2, h2).
        Returns-bind (Called p2) _ (call lib os callees p2 command argv) _
          (call-Called p2 command argv)
          λ (p3, result) (e3, nodes, same).
            let t3 = with_file? (doubled lib os t2 p.io_in 0) p.io_in none in
            let t4 = with_file? (doubled lib os t3 p.io_out 1) p.io_out none in
            let h3 : HasTable lib os t4 p3.world = λ j. same j ∙ h2 j in
            Returns-bind _ _ (reset_to_saved_fd lib os p3.world s0 s1) _
              (reset_to_saved_fd-HasTable lib os t4 s0 s1 p3.world h3)
              λ w h4. record {
                empty_in = ap (λ q. q.io_in) e3 ∙ ap (λ q. q.io_in) e2;
                empty_out = ap (λ q. q.io_out) e3 ∙ ap (λ q. q.io_out) e2;
                nodes = nodes ∙ ap (λ q. q.ctx.commands) e2;
                reads = ap (λ q. q.pipe_in) e3 ∙ ap (λ q. q.pipe_in) e2;
                writes = ap (λ q. q.pipe_out) e3 ∙ ap (λ q. q.pipe_out) e2;
                files = h4;
              }

  -- Where 1 is open, and io_fd are open descriptors other than 0 and 1 and than each other, and
  -- execute returns: io_fd are closed and every other descriptor has the file that it had, 0 and 1
  -- included, although the builtin ran with 0 and 1 replaced; the nodes and pipe_fd are the same.
  pub execute-Finished :
      (table : ℕ → Option os.File) (p : Process lib os) (command : CommandFunction)
      (argv : List Bytes)
      → HasTable lib os table p.world
      → table 1 ≢ none
      → IsHigh lib os table p.io_in
      → IsHigh lib os table p.io_out
      → AreApart lib os p.io_in p.io_out
      → Returns
          (Finished p (with_file? (with_file? table p.io_in none) p.io_out none))
          (execute lib os callees p command argv)
  unfolding execute
  execute-Finished table p command argv h open1 high_in high_out d =
      Returns-bind _ _ (save_fds lib os p) _ (save_fds-Saved lib os table p h)
        λ (p1, s0, s1) (e1, fits1, fits2, h1).
          let t1 = with_file? table s0 (table 0) in
          let t2 = with_file? t1 s1 (t1 1) in
          Returns-weaken (Finished p1 (behind lib os t2 p1.io_in p1.io_out s0 s1)) _ _
            (λ r done. record {
              empty_in = done.empty_in;
              empty_out = done.empty_out;
              nodes = done.nodes ∙ ap (λ q. q.ctx.commands) e1;
              reads = done.reads ∙ ap (λ q. q.pipe_in) e1;
              writes = done.writes ∙ ap (λ q. q.pipe_out) e1;
              files = λ j.
                  done.files j
                  ∙ ap (λ q. behind lib os t2 q.io_in q.io_out s0 s1 j) e1
                  ∙ around_lem lib os table p.io_in p.io_out s0 s1 j open1 fits1 fits2 high_in
                      high_out d;
            })
            (execute_saved t2 p1 command argv s0 s1 h1)
