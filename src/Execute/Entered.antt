-- ===== src/Execute/Entered.antt =====
-- The descriptors with which a child starts its program: execute_in_child and run_subshell.
use minishell.Base.{
  ℕ, zero, suc, ◌+◌, ◌<◌, ◌≡◌, ◌≢◌, refl, sym, subst, ap, ◌∙◌, Bool, true, ◌&&◌, Option, none, some,
  ◌==◌, if_rule, and-eq-true, arith, Bool-cases, inl, inr,
}
use minishell.Execute.Child.{dup_onto, move_io, enter_child}
use minishell.Execute.Held.{holders, Held, process_redirection-Held}
use minishell.Execute.Leaves.{held-IsHigh, Counted-with_file?}
use minishell.Execute.Nodes.{Shape, heres}
use minishell.Execute.Owns.{held_at, Counted, Owns, Owns-equal}
use minishell.Execute.Process.{Process, ft_close_fd, close_in, close_out, close_io, close_all_fds}
use minishell.Execute.Redirect.{process_redirection}
use minishell.Execute.Tables.{
  with_file, with_file?, HasTable, doubled, ft_close_fd-HasTable, IsHigh,
}
use minishell.Libft.{Libft}
use minishell.Os.{Os}

-- the file of another descriptor behind this one, if there is another
abbrev pub moved_to : {A : Type 0} → (ℕ → Option A) → (ℕ → Option A) → Option ℕ → ℕ → ℕ → Option A
moved_to base table none n j = base j
moved_to base table (some fd) n j = with_file base n (table fd) j

Counted-zero :
    {A : Type 0} (n : ℕ) (before now : Option A) → Counted n before now → before ≢ none → n ≡ 0
Counted-zero zero before now h there = refl
Counted-zero (suc zero) before now (b, f) there = absurd (there b)
Counted-zero (suc (suc n)) before now h there = absurd h

Counted-with_file :
    {A : Type 0} (held : ℕ → ℕ) (base table : ℕ → Option A) (n : ℕ) (file : Option A)
    → ((j : ℕ) → Counted (held j) (base j) (table j))
    → base n ≢ none
    → (j : ℕ) → Counted (held j) (with_file base n file j) (with_file table n file j)
Counted-with_file held base table n file h there j = elim (Bool-cases (j == n)) [
  | inl e ↦
      let same : j ≡ n = ground arith in
      let zero_held : held j ≡ 0 = rw same (Counted-zero (held n) (base n) (table n) (h n) there) in
      rw e (subst (λ k. Counted k file file) (sym zero_held) refl)
  | inr e ↦ rw e (h j)
]

module _ (lib : Libft) (os : Os) where
  dup_onto-HasTable :
      (t : ℕ → Option os.File) (w : os.World) (fd : Option ℕ) (n : ℕ)
      → HasTable lib os t w
      → (dup_onto lib os w fd n).1 ≡ true
      → HasTable lib os (doubled lib os t fd n) (dup_onto lib os w fd n).0
  unfolding dup_onto
  dup_onto-HasTable t w none n h done = h
  dup_onto-HasTable t w (some fd) n h done =
      let (w', ok) = os.dup2 w fd n in
      let pair : os.dup2 w fd n ≡ (w', true) = ap (λ (b : Bool). (w', b)) done in
      let (there, copied) = os.dup2-true w w' fd n pair in λ j. copied j ∙ rw (h fd, h j) refl

  Counted-doubled :
      (held : ℕ → ℕ) (base t : ℕ → Option os.File) (fd : Option ℕ) (n : ℕ)
      → ((j : ℕ) → Counted (held j) (base j) (t j))
      → base n ≢ none
      → (j : ℕ) → Counted (held j) (moved_to base t fd n j) (doubled lib os t fd n j)
  Counted-doubled held base t none n h there = h
  Counted-doubled held base t (some fd) n h there = Counted-with_file held base t n (t fd) h there

  moved_to-doubled :
      (base t : ℕ → Option os.File) (a b : Option ℕ) (j : ℕ)
      → IsHigh lib os t b
      → moved_to base (doubled lib os t a 0) b 1 j ≡ moved_to base t b 1 j
  moved_to-doubled base t a none j high = refl
  moved_to-doubled base t none (some o) j high = refl
  moved_to-doubled base t (some i) (some o) j (_, o0, _) = rw o0 refl

  moved_to-there :
      (base t : ℕ → Option os.File) (fd : Option ℕ) → base 1 ≢ none → moved_to base t fd 0 1 ≢ none
  moved_to-there base t none there = there
  moved_to-there base t (some fd) there = there

  close_all_fds-Owns :
      (base t : ℕ → Option os.File) (p : Process lib os)
      → HasTable lib os t p.world
      → ((j : ℕ) → Counted (holders lib os p j) (base j) (t j))
      → Owns os base (heres lib p.ctx.commands) (close_all_fds lib os p).world
  unfolding close_all_fds close_io close_in close_out
  close_all_fds-Owns base t p h counted =
      let s = heres lib p.ctx.commands in
      let outs : ℕ → ℕ = λ j. held_at p.pipe_out j + s j in
      let ins : ℕ → ℕ = λ j. held_at p.pipe_in j + outs j in
      let t1 = with_file? t p.io_in none in
      let t2 = with_file? t1 p.io_out none in
      let t3 = with_file? t2 p.pipe_in none in
      let w1 = (ft_close_fd lib os p.world p.io_in).0 in
      let w2 = (ft_close_fd lib os w1 p.io_out).0 in
      let w3 = (ft_close_fd lib os w2 p.pipe_in).0 in
      let w4 = (ft_close_fd lib os w3 p.pipe_out).0 in
      let c1 = Counted-with_file? lib os base p.io_in (λ j. held_at p.io_out j + ins j) t counted in
      let c2 = Counted-with_file? lib os base p.io_out ins t1 c1 in
      let c3 = Counted-with_file? lib os base p.pipe_in outs t2 c2 in
      let c4 = Counted-with_file? lib os base p.pipe_out s t3 c3 in
      let h1 = ft_close_fd-HasTable lib os t p.io_in p.world h in
      let h2 = ft_close_fd-HasTable lib os t1 p.io_out w1 h1 in
      let h3 = ft_close_fd-HasTable lib os t2 p.pipe_in w2 h2 in
      let h4 : HasTable lib os (with_file? t3 p.pipe_out none) w4 =
        ft_close_fd-HasTable lib os t3 p.pipe_out w3 h3 in
      λ j. subst (λ f. Counted (s j) (base j) f) (sym (h4 j)) (c4 j)

  module _ (base : ℕ → Option os.File) (n : Shape) (reading : Option ℕ) where
    -- the table that a child is to have
    abbrev pub child_table : Process lib os → ℕ → Option os.File
    child_table p = let t = os.file_at p.world in moved_to (moved_to base t p.io_in 0) t p.io_out 1

    move_io-Owns :
        (p : Process lib os)
        → base 0 ≢ none
        → base 1 ≢ none
        → Held lib os base n reading p
        → (move_io lib os p).1 ≡ true
        → Owns os (child_table p) (heres lib p.ctx.commands) (move_io lib os p).0.world
    unfolding move_io
    move_io-Owns p open0 open1 h =
        let t = os.file_at p.world in
        let (w1, ok1) = dup_onto lib os p.world p.io_in 0 in
        let (w2, ok2) = dup_onto lib os w1 p.io_out 1 in
        let s = heres lib p.ctx.commands in
        let pipes : ℕ → ℕ = λ j. held_at p.pipe_in j + (held_at p.pipe_out j + s j) in
        let t1 = doubled lib os t p.io_in 0 in
        let t2 = doubled lib os t1 p.io_out 1 in
        let base1 = moved_to base t p.io_in 0 in
        let rest_out : ℕ → ℕ = λ j. held_at p.io_in j + pipes j in
        let swapped =
          Owns-equal os base (holders lib os p) (λ j. held_at p.io_out j + rest_out j) p.world
            (λ j. omega arith) h.owned in
        let high = held-IsHigh lib os base p.io_out rest_out p.world swapped open0 open1 in
        if_rule (λ (r : Process lib os × Bool). r.1 ≡ true → Owns os (child_table p) s r.0.world)
          (ok1 && ok2) _ _
          (λ both _.
            let (done1, done2) = and-eq-true ok1 ok2 both in
            let h1 = dup_onto-HasTable t p.world p.io_in 0 (λ j. refl) done1 in
            let h2 = dup_onto-HasTable t1 w1 p.io_out 1 h1 done2 in
            let c1 = Counted-doubled (holders lib os p) base t p.io_in 0 h.owned open0 in
            let c2 =
              Counted-doubled (holders lib os p) base1 t1 p.io_out 1 c1
                (moved_to-there base t p.io_in open1) in
            let q = record p { world = w2 } in
            λ j.
              subst (λ f. Counted (s j) f (os.file_at (close_all_fds lib os q).world j))
                (moved_to-doubled base1 t p.io_in p.io_out j high)
                (close_all_fds-Owns (moved_to base1 t1 p.io_out 1) t2 q h2 c2 j))
          (λ _ e. cc)

    -- Where 0 and 1 are open and the child's world is that of the shell: if enter_child goes on, then
    -- 0 and 1 have the files of io_fd behind the redirections, if there are such, and every
    -- descriptor that the shell did not hold has the file that it had. Of what the shell held, io_fd
    -- and both ends of the pipe are closed, and what nodes of here-documents hold stays open.
    pub enter_child-Owns :
        (p : Process lib os) (redir_idx : ℕ)
        → base 0 ≢ none
        → base 1 ≢ none
        → redir_idx < n.size
        → Held lib os base n reading p
        → (enter_child lib os p redir_idx p.world).1 ≡ true
        → (let p1 = (process_redirection lib os p redir_idx).0 in
            Owns os
              (child_table p1)
              (heres lib p1.ctx.commands)
              (enter_child lib os p redir_idx p.world).0.world)
    unfolding enter_child
    enter_child-Owns p redir_idx open0 open1 valid h =
        let (p1, redirected) = process_redirection lib os p redir_idx in
        let h1 = process_redirection-Held lib os base n reading p redir_idx valid h in
        if_rule
          (λ (r : Process lib os × Bool).
            r.1 ≡ true → Owns os (child_table p1) (heres lib p1.ctx.commands) r.0.world)
          redirected _ _ (λ _ entered. move_io-Owns p1 open0 open1 h1 entered) (λ _ e. cc)
