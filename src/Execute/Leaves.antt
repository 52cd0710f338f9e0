-- ===== src/Execute/Leaves.antt =====
-- What a command leaves behind: the descriptors are as before, and io_fd are empty unless the status
-- is 1. For srcs/builtin/execute_builtin.c, execute_non_builtin.c and build_command.c.
use minishell.Base.{
  ℕ, zero, suc, ◌+◌, ◌<◌, ◌≡◌, ◌≢◌, ◌⊎◌, refl, sym, subst, ap, ◌∙◌, Option, none, some, List, Bytes,
  ◌==◌, if_rule, arith, Bool-cases, inl, inr,
}
use minishell.Execute.Child.{CommandFunction, Callees, execute_builtin_in_subshell}
use minishell.Execute.Held.{
  holders, Held, Held-change, close_io-Held, process_redirection-Held, ft_close_fd-none,
}
use minishell.Execute.InShell.{execute, execute_builtin}
use minishell.Execute.Nodes.{Shape, heres}
use minishell.Execute.Owns.{held_at, Counted, Counted-closed, Owns, Owns-equal, Owns-same}
use minishell.Execute.Process.{Process, returned, ◌>>=ᵣ◌, close_in, close_out, close_io, spawn}
use minishell.Execute.Redirect.{process_redirection}
use minishell.Execute.Restored.{Finished, execute-Finished}
use minishell.Execute.Tables.{with_file?, IsHigh, AreApart, apart}
use minishell.Execute.Returns.{Returns, Returns-bind}
use minishell.Libft.{Libft}
use minishell.Os.{Os, WaitStatus}

Counted-suc :
    {A : Type 0} (n : ℕ) (before now : Option A)
    → Counted (suc n) before now
    → (before ≡ none) × (now ≢ none) × (n ≡ 0)
Counted-suc zero before now (b, f) = (b, f, refl)
Counted-suc (suc n) before now h = absurd h

Counted-open :
    {A : Type 0} (n : ℕ) (before now : Option A) → Counted n before now → before ≢ none → now ≢ none
Counted-open zero before now same there gone = there (sym same ∙ gone)
Counted-open (suc zero) before now (b, f) there gone = f gone
Counted-open (suc (suc n)) before now h there gone = h

module _ (lib : Libft) (os : Os) (base : ℕ → Option os.File) where
  held-open :
      (rest : ℕ → ℕ) (w : os.World) (m : ℕ)
      → Owns os base (λ j. held_at (some m) j + rest j) w
      → (base m ≡ none) × (os.file_at w m ≢ none) × (rest m ≡ 0)
  held-open rest w m h =
      let self : held_at (some m) m + rest m ≡ suc (rest m) = ground arith in
      let all = subst (λ k. Counted k (base m) (os.file_at w m)) self (h m) in
      Counted-suc (rest m) (base m) (os.file_at w m) all

  pub held-IsHigh :
      (fd : Option ℕ) (rest : ℕ → ℕ) (w : os.World)
      → Owns os base (λ j. held_at fd j + rest j) w
      → base 0 ≢ none
      → base 1 ≢ none
      → IsHigh lib os (os.file_at w) fd
  held-IsHigh none rest w h open0 open1 = tt
  held-IsHigh (some m) rest w h open0 open1 =
      let (free, is_open, _) = held-open rest w m h in
      (is_open, apart lib os base m 0 free open0, apart lib os base m 1 free open1)

  held-AreApart :
      (a b : Option ℕ) (rest : ℕ → ℕ) (w : os.World)
      → Owns os base (λ j. held_at a j + (held_at b j + rest j)) w
      → AreApart lib os a b
  held-AreApart none b rest w h = tt
  held-AreApart (some i) none rest w h = tt
  held-AreApart (some i) (some o) rest w h =
      let (_, _, alone) = held-open (λ j. held_at (some o) j + rest j) w i h in
      elim (Bool-cases (i == o)) [ inl e ↦ ground arith | inr e ↦ e ]

  pub Counted-with_file? :
      (a : Option ℕ) (rest : ℕ → ℕ) (table : ℕ → Option os.File)
      → ((j : ℕ) → Counted (held_at a j + rest j) (base j) (table j))
      → (j : ℕ) → Counted (rest j) (base j) (with_file? table a none j)
  Counted-with_file? none rest table h j =
      let same : held_at none j + rest j ≡ rest j = omega arith in
      subst (λ k. Counted k (base j) (table j)) same (h j)
  Counted-with_file? (some m) rest table h j = elim (Bool-cases (j == m)) [
    | inl e ↦
        let one : held_at (some m) j + rest j ≡ suc (rest j) = rw e (omega arith) in
        let all = subst (λ k. Counted k (base j) (table j)) one (h j) in
        rw e (Counted-closed (rest j) (base j) (table j) all)
    | inr e ↦
        let same : held_at (some m) j + rest j ≡ rest j = rw e (omega arith) in
        rw e (subst (λ k. Counted k (base j) (table j)) same (h j))
  ]

  abbrev pub IsEmpty : Process lib os → Type 0
  IsEmpty p = (p.io_in ≡ none) × (p.io_out ≡ none)

  pub close_io-IsEmpty : (p : Process lib os) → IsEmpty (close_io lib os p)
  unfolding close_io close_in close_out
  close_io-IsEmpty p =
      let p1 = close_in lib os p in
      (ft_close_fd-none lib os p.world p.io_in, ft_close_fd-none lib os p1.world p1.io_out)

  module _ (n : Shape) (reading : Option ℕ) where
    -- the descriptors are kept, and only behind status 1 is something left in io_fd
    abbrev pub Leaves : Process lib os × ℕ → Type 0
    Leaves (p, status) = Held lib os base n reading p × (IsEmpty p ⊎ (status ≡ 1))

    spawned :
        (p : Process lib os) (pid : Option ℕ)
        → Held lib os base n reading p
        → Leaves (elim pid [
          | none ↦ (p, 1)
          | some m ↦ (close_io lib os (record p { pid_to_wait = some m }), 0)
        ])
    spawned p none h = (h, inr refl)
    spawned p (some m) h =
        let p' = record p { pid_to_wait = some m } in
        let h' = Held-change lib os base n reading p p' refl refl refl h.owned h in
        (close_io-Held lib os base n reading p' h', inl (close_io-IsEmpty p'))

    pub spawn-Leaves :
        (p : Process lib os) (child : os.World → WaitStatus)
        → Held lib os base n reading p
        → Leaves (spawn lib os p child)
    unfolding spawn
    spawn-Leaves p child h =
        let (w, pid) = os.fork p.world child in
        let forked = record p { world = w } in
        let same =
          Owns-same os base (holders lib os p) p.world w (os.file_at-fork p.world child) h.owned in
        spawned forked pid (Held-change lib os base n reading p forked refl refl refl same h)

    Finished-Held :
        (callees : Callees lib os) (p : Process lib os) (r : Process lib os × ℕ)
        → Finished lib os callees p
            (with_file? (with_file? (os.file_at p.world) p.io_in none) p.io_out none)
            r
        → Held lib os base n reading p
        → Held lib os base n reading r.0
    Finished-Held callees p r done h =
        let t = os.file_at p.world in
        let pipes : ℕ → ℕ =
          λ j. held_at p.pipe_in j + (held_at p.pipe_out j + heres lib p.ctx.commands j) in
        let closed =
          Counted-with_file? p.io_out pipes (with_file? t p.io_in none)
            (Counted-with_file? p.io_in (λ j. held_at p.io_out j + pipes j) t h.owned) in
        let same : (j : ℕ) → pipes j ≡ holders lib os r.0 j = λ j. omega (
          arith,
          ap (λ fd. held_at fd j) done.empty_in,
          ap (λ fd. held_at fd j) done.empty_out,
          ap (λ fd. held_at fd j) done.reads,
          ap (λ fd. held_at fd j) done.writes,
          ap (λ s. heres lib s j) done.nodes,
        ) in
        let owned : Owns os base pipes r.0.world =
          λ j. subst (λ f. Counted (pipes j) (base j) f) (sym (done.files j)) (closed j) in
        Held-change lib os base n reading p r.0 done.nodes done.reads done.writes
          (Owns-equal os base pipes (holders lib os r.0) r.0.world same owned) h

    module _ (callees : Callees lib os) (open0 : base 0 ≢ none) (open1 : base 1 ≢ none) where
      stdout-open :
          (p : Process lib os) → Held lib os base n reading p → os.file_at p.world 1 ≢ none
      stdout-open p h =
          Counted-open (holders lib os p 1) (base 1) (os.file_at p.world 1) (h.owned 1) open1

      execute-Leaves :
          (p : Process lib os) (command : CommandFunction) (argv : List Bytes)
          → Held lib os base n reading p
          → Returns Leaves (
              execute lib os callees p command argv >>=ᵣ λ (p2, result).
              returned (close_io lib os p2, result))
      execute-Leaves p command argv h =
          let rest_in : ℕ → ℕ = λ j.
            held_at p.io_out j
            + (held_at p.pipe_in j + (held_at p.pipe_out j + heres lib p.ctx.commands j)) in
          let rest_out : ℕ → ℕ = λ j.
            held_at p.io_in j
            + (held_at p.pipe_in j + (held_at p.pipe_out j + heres lib p.ctx.commands j)) in
          let swapped =
            Owns-equal os base (holders lib os p) (λ j. held_at p.io_out j + rest_out j) p.world
              (λ j. omega arith) h.owned in
          let pipes : ℕ → ℕ =
            λ j. held_at p.pipe_in j + (held_at p.pipe_out j + heres lib p.ctx.commands j) in
          Returns-bind _ _ (execute lib os callees p command argv) _
            (execute-Finished lib os callees (os.file_at p.world) p command argv (λ j. refl)
              (stdout-open p h) (held-IsHigh p.io_in rest_in p.world h.owned open0 open1)
              (held-IsHigh p.io_out rest_out p.world swapped open0 open1)
              (held-AreApart p.io_in p.io_out pipes p.world h.owned))
            λ r done. (
              close_io-Held lib os base n reading r.0 (Finished-Held callees p r done h),
              inl (close_io-IsEmpty r.0),
            )

      pub execute_builtin-Leaves :
          (p : Process lib os) (command : CommandFunction) (argv : List Bytes) (idx : ℕ)
          → idx < n.size
          → Held lib os base n reading p
          → Returns Leaves (execute_builtin lib os callees p command argv idx)
      unfolding execute_builtin execute_builtin_in_subshell
      execute_builtin-Leaves p command argv idx valid h =
          let (p1, redirected) = process_redirection lib os p idx in
          let h1 = process_redirection-Held lib os base n reading p idx valid h in
          if_rule (Returns Leaves) p.is_pipe _ _ (λ _. spawn-Leaves p _ h)
            (λ _.
              if_rule (Returns Leaves) redirected _ _ (λ _. execute-Leaves p1 command argv h1)
                (λ _. (h1, inr refl)))
