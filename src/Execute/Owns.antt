-- ===== src/Execute/Owns.antt =====
-- The descriptors that the shell holds, counted, against its table of descriptors: which of the
-- open ones are its own and which are to stay as they were.
use minishell.Base.{
  ℕ, zero, suc, ◌+◌, ◌≡◌, ◌≢◌, sym, subst, ◌∙◌, false, Option, none, some, List, ◌==◌,
  if◌then◌else◌, arith, Bool-cases, inl, inr,
}
use minishell.Execute.Process.{ft_close_fd}
use minishell.Libft.{Libft}
use minishell.Os.{Os, OpenMode}

-- how often a descriptor is held in this place
abbrev pub held_at : Option ℕ → ℕ → ℕ
held_at none j = 0
held_at (some n) j = if j == n then 1 else 0

-- A descriptor that is held nowhere is as it was, one that is held was closed and is open, and none
-- is held twice.
abbrev pub Counted : {A : Type 0} → ℕ → Option A → Option A → Type 0
Counted zero before now = now ≡ before
Counted (suc zero) before now = (before ≡ none) × (now ≢ none)
Counted (suc (suc n)) before now = ⊥

pub Counted-closed :
    {A : Type 0} (n : ℕ) (before now : Option A)
    → Counted (suc n) before now
    → Counted {A = A} n before none
Counted-closed zero before now (b, f) = sym b
Counted-closed (suc n) before now h = absurd h

Counted-opened :
    {A : Type 0} (n : ℕ) (before now now' : Option A)
    → Counted n before now
    → now ≡ none
    → now' ≢ none
    → Counted (suc n) before now'
Counted-opened zero before now now' h closed is_open = (sym h ∙ closed, is_open)
Counted-opened (suc zero) before now now' (b, f) closed is_open = absurd (f closed)
Counted-opened (suc (suc n)) before now now' h closed is_open = absurd h

module _ (os : Os) where
  -- base is the table without the descriptors that are held
  abbrev pub Owns : (ℕ → Option os.File) → (ℕ → ℕ) → os.World → Type 0
  Owns base held w = (j : ℕ) → Counted (held j) (base j) (os.file_at w j)

  module _ (base : ℕ → Option os.File) where
    pub Owns-equal :
        (held held' : ℕ → ℕ) (w : os.World)
        → ((j : ℕ) → held j ≡ held' j)
        → Owns base held w
        → Owns base held' w
    Owns-equal held held' w e h j = subst (λ n. Counted n (base j) (os.file_at w j)) (e j) (h j)

    pub Owns-same :
        (held : ℕ → ℕ) (w w' : os.World)
        → ((j : ℕ) → os.file_at w' j ≡ os.file_at w j)
        → Owns base held w
        → Owns base held w'
    Owns-same held w w' e h j = subst (λ f. Counted (held j) (base j) f) (sym (e j)) (h j)

    pub Owns-close :
        (held : ℕ → ℕ) (w : os.World) (n : ℕ)
        → Owns base (λ j. held_at (some n) j + held j) w
        → Owns base held (os.close w n)
    Owns-close held w n h j =
        subst (λ f. Counted (held j) (base j) f) (sym (os.file_at-close w n j))
          (elim (Bool-cases (j == n)) [
            | inl e ↦
                let one : held_at (some n) j + held j ≡ suc (held j) = rw e (omega arith) in
                let all = subst (λ k. Counted k (base j) (os.file_at w j)) one (h j) in
                rw e (Counted-closed (held j) (base j) (os.file_at w j) all)
            | inr e ↦
                let same : held_at (some n) j + held j ≡ held j = rw e (omega arith) in
                rw e (subst (λ k. Counted k (base j) (os.file_at w j)) same (h j))
          ])

    pub Owns-opened :
        (held : ℕ → ℕ) (w w' : os.World) (n : ℕ)
        → os.file_at w n ≡ none
        → os.file_at w' n ≢ none
        → ((j : ℕ) → (j == n) ≡ false → os.file_at w' j ≡ os.file_at w j)
        → Owns base held w
        → Owns base (λ j. held_at (some n) j + held j) w'
    Owns-opened held w w' n closed is_open others h j = elim (Bool-cases (j == n)) [
      | inl e ↦
          let same : j ≡ n = ground arith in
          let one : suc (held j) ≡ held_at (some n) j + held j = rw e (omega arith) in
          subst (λ k. Counted k (base j) (os.file_at w' j)) one
            (Counted-opened (held j) (base j) (os.file_at w j) (os.file_at w' j) (h j)
              (rw same closed) (rw same is_open))
      | inr e ↦
          let same : held j ≡ held_at (some n) j + held j = rw e (omega arith) in
          subst (λ k. Counted k (base j) (os.file_at w' j)) same
            (subst (λ f. Counted (held j) (base j) f) (sym (others j e)) (h j))
    ]

    -- a closed descriptor is held no more
    pub ft_close_fd-Owns :
        (lib : Libft) (held : ℕ → ℕ) (w : os.World) (fd : Option ℕ)
        → Owns base (λ j. held_at fd j + held j) w
        → Owns base held (ft_close_fd lib os w fd).0
    unfolding ft_close_fd
    ft_close_fd-Owns lib held w none h =
        Owns-equal (λ j. held_at none j + held j) held w (λ j. omega arith) h
    ft_close_fd-Owns lib held w (some n) h = Owns-close held w n h

    -- an opened file is held by the descriptor that is returned
    pub open_file-Owns :
        (held : ℕ → ℕ) (w w' : os.World) (path : List ℕ) (mode : OpenMode) (fd : Option ℕ)
        → os.open_file w path mode ≡ (w', fd)
        → Owns base held w
        → Owns base (λ j. held_at fd j + held j) w'
    open_file-Owns held w w' path mode none e h =
        Owns-equal held (λ j. held_at none j + held j) w' (λ j. omega arith)
          (Owns-same held w w' (os.open_file-none w w' path mode e) h)
    open_file-Owns held w w' path mode (some n) e h =
        let (closed, is_open, others) = os.open_file-some w w' path mode n e in
        Owns-opened held w w' n closed is_open others h

    -- both ends of a pipe
    pub pipe-Owns :
        (held : ℕ → ℕ) (w w' : os.World) (r s : ℕ)
        → os.pipe w ≡ (w', some (r, s))
        → Owns base held w
        → Owns base (λ j. held_at (some r) j + (held_at (some s) j + held j)) w'
    pipe-Owns held w w' r s e h j =
        let (apart, r_closed, s_closed, r_open, s_open, others) = os.pipe-some w w' r s e in
        elim (Bool-cases (j == r)) [
          | inl jr ↦
              let same : j ≡ r = ground arith in
              let js : (j == s) ≡ false = ground arith in
              let one : suc (held j) ≡ held_at (some r) j + (held_at (some s) j + held j) =
                rw (jr, js) (omega arith) in
              subst (λ k. Counted k (base j) (os.file_at w' j)) one
                (Counted-opened (held j) (base j) (os.file_at w j) (os.file_at w' j) (h j)
                  (rw same r_closed) (rw same r_open))
          | inr jr ↦ elim (Bool-cases (j == s)) [
            | inl js ↦
                let same : j ≡ s = ground arith in
                let one : suc (held j) ≡ held_at (some r) j + (held_at (some s) j + held j) =
                  rw (jr, js) (omega arith) in
                subst (λ k. Counted k (base j) (os.file_at w' j)) one
                  (Counted-opened (held j) (base j) (os.file_at w j) (os.file_at w' j) (h j)
                    (rw same s_closed) (rw same s_open))
            | inr js ↦
                let none_new : held j ≡ held_at (some r) j + (held_at (some s) j + held j) =
                  rw (jr, js) (omega arith) in
                subst (λ k. Counted k (base j) (os.file_at w' j)) none_new
                  (subst (λ f. Counted (held j) (base j) f) (sym (others j jr js)) (h j))
          ]
        ]
