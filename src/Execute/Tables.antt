-- ===== src/Execute/Tables.antt =====
-- Tables of descriptors, and what the steps of execute (srcs/builtin/execute_builtin.c) make of them.
use minishell.Base.{
  ℕ, ◌≡◌, ◌≢◌, refl, sym, ◌∙◌, Bool, true, false, Option, none, some, ◌==◌, if◌then◌else◌, arith,
  Bool-cases, inl, inr,
}
use minishell.Execute.InShell.{save_fd, dup_or_end}
use minishell.Execute.Process.{returned, ended, is_some, ft_close_fd}
use minishell.Execute.Returns.{Returns}
use minishell.Libft.{Libft}
use minishell.Os.{Os}

-- a table with another file behind a descriptor
abbrev pub with_file : {A : Type 0} → (ℕ → Option A) → ℕ → Option A → ℕ → Option A
with_file table n file j = if j == n then file else table j

-- behind a descriptor, if there is one
abbrev pub with_file? : {A : Type 0} → (ℕ → Option A) → Option ℕ → Option A → ℕ → Option A
with_file? table none file j = table j
with_file? table (some n) file j = with_file table n file j

module _ (lib : Libft) (os : Os) where
  abbrev pub HasTable : (ℕ → Option os.File) → os.World → Type 0
  HasTable table w = (j : ℕ) → os.file_at w j ≡ table j

  -- what save_fd has saved
  abbrev pub Fits : (ℕ → Option os.File) → Option ℕ → ℕ → Option ℕ → Type 0
  Fits table none n saved = saved ≡ none
  Fits table (some fd) n saved = (m : ℕ) × (saved ≡ some m) × (table m ≡ none) × (table n ≢ none)

  abbrev pub Saved : (ℕ → Option os.File) → Option ℕ → ℕ → os.World × Option ℕ → Type 0
  Saved table fd n (w, saved) =
      Fits table fd n saved × HasTable (with_file? table saved (table n)) w

  dup_case :
      (table : ℕ → Option os.File) (fd n : ℕ) (w w' : os.World) (o : Option ℕ)
      → HasTable table w
      → os.dup w n ≡ (w', o)
      → Returns (Saved table (some fd) n) (if is_some o then returned (w', o) else ended 1)
  dup_case table fd n w w' none h e = tt
  dup_case table fd n w w' (some m) h e =
      let (there, free, copied) = os.dup-some w w' n m e in
      ((m, refl, sym (h m) ∙ free, λ gone. there (h n ∙ gone)), λ j. copied j ∙ rw (h n, h j) refl)

  pub save_fd-Saved :
      (table : ℕ → Option os.File) (fd : Option ℕ) (n : ℕ) (w : os.World)
      → HasTable table w
      → Returns (Saved table fd n) (save_fd lib os w fd n)
  unfolding save_fd
  save_fd-Saved table none n w h = (refl, h)
  save_fd-Saved table (some fd) n w h =
      let (w', o) = os.dup w n in dup_case table fd n w w' o h refl

  -- the table behind a dup2
  abbrev pub doubled : (ℕ → Option os.File) → Option ℕ → ℕ → ℕ → Option os.File
  doubled table none n j = table j
  doubled table (some fd) n j = with_file table n (table fd) j

  dup2_case :
      (table : ℕ → Option os.File) (fd n : ℕ) (w w' : os.World) (done : Bool)
      → HasTable table w
      → os.dup2 w fd n ≡ (w', done)
      → Returns (HasTable (doubled table (some fd) n)) (if done then returned w' else ended 1)
  dup2_case table fd n w w' false h e = tt
  dup2_case table fd n w w' true h e =
      let (there, copied) = os.dup2-true w w' fd n e in λ j. copied j ∙ rw (h fd, h j) refl

  pub dup_or_end-HasTable :
      (table : ℕ → Option os.File) (fd : Option ℕ) (n : ℕ) (w : os.World)
      → HasTable table w
      → Returns (HasTable (doubled table fd n)) (dup_or_end lib os w fd n)
  unfolding dup_or_end
  dup_or_end-HasTable table none n w h = h
  dup_or_end-HasTable table (some fd) n w h =
      let (w', done) = os.dup2 w fd n in dup2_case table fd n w w' done h refl

  pub ft_close_fd-HasTable :
      (table : ℕ → Option os.File) (fd : Option ℕ) (w : os.World)
      → HasTable table w
      → HasTable (with_file? table fd none) (ft_close_fd lib os w fd).0
  unfolding ft_close_fd
  ft_close_fd-HasTable table none w h = h
  ft_close_fd-HasTable table (some n) w h = λ j. os.file_at-close w n j ∙ rw (h j) refl

  pub apart :
      (table : ℕ → Option os.File) (m n : ℕ) → table m ≡ none → table n ≢ none → (m == n) ≡ false
  apart table m n free there = elim (Bool-cases (m == n)) [
    | inl e ↦ let same : n ≡ m = ground arith in absurd (there (rw same free))
    | inr e ↦ e
  ]

  -- the descriptor is open, and is neither 0 nor 1
  abbrev pub IsHigh : (ℕ → Option os.File) → Option ℕ → Type 0
  IsHigh table none = Unit
  IsHigh table (some fd) = (table fd ≢ none) × ((fd == 0) ≡ false) × ((fd == 1) ≡ false)

  abbrev pub AreApart : Option ℕ → Option ℕ → Type 0
  AreApart none b = Unit
  AreApart (some i) none = Unit
  AreApart (some i) (some o) = (i == o) ≡ false
