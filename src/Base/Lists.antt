-- ===== src/Base/Lists.antt =====
-- Lists measured and indexed by native numbers, under the library's names.
use Prim.Native.Nat.{ℕ, zero, suc, ◌+◌, ◌-◌, ◌≤◌, ◌<◌, min}
use mathlib.Core.Path.{◌≡◌, refl, ap, sym, ◌∙◌}
use mathlib.Core.Bool.{Bool, true, false, ◌&&◌, ◌||◌}
use mathlib.Core.Option.{Option, none, some}
use mathlib.Core.List.{List, [], ◌∷◌, ◌++◌}
use native.Mathlib.Omega.{arith}
use minishell.Base.Tests.{◌==◌}

module _ {ℓ} {A : Type ℓ} where
  abbrev pub length : List A → ℕ
  length [] = 0
  length (x ∷ xs) = suc (length xs)

  abbrev pub get_elem? : List A → ℕ → Option A
  get_elem? [] i = none
  get_elem? (x ∷ xs) zero = some x
  get_elem? (x ∷ xs) (suc i) = get_elem? xs i

  abbrev pub get_or : List A → ℕ → A → A
  get_or [] i d = d
  get_or (x ∷ xs) zero d = x
  get_or (x ∷ xs) (suc i) d = get_or xs i d

  abbrev pub take : ℕ → List A → List A
  take zero xs = []
  take (suc n) [] = []
  take (suc n) (x ∷ xs) = x ∷ take n xs

  abbrev pub drop : ℕ → List A → List A
  drop zero xs = xs
  drop (suc n) [] = []
  drop (suc n) (x ∷ xs) = drop n xs

module _ {ℓ} {A : Type ℓ} where
  pub length-append : (xs ys : List A) → length (xs ++ ys) ≡ length xs + length ys
  length-append [] ys = omega arith
  length-append (x ∷ xs) ys = omega (arith, length-append xs ys)

  pub length-take : (n : ℕ) (xs : List A) → length (take n xs) ≡ min n (length xs)
  length-take zero xs = omega arith
  length-take (suc n) [] = omega arith
  length-take (suc n) (x ∷ xs) = omega (arith, length-take n xs)

  pub length-drop : (n : ℕ) (xs : List A) → length (drop n xs) ≡ length xs - n
  length-drop zero xs = omega arith
  length-drop (suc n) [] = omega arith
  length-drop (suc n) (x ∷ xs) = omega (arith, length-drop n xs)

module _ {ℓ} {A : Type ℓ} where
  pub drop_suc :
      (s : List A) (i : ℕ) (x : A) (rest : List A) → drop i s ≡ x ∷ rest → drop (i + 1) s ≡ rest
  drop_suc [] zero x rest h = cc
  drop_suc [] (suc i) x rest h = cc
  drop_suc (y ∷ s) zero x rest h = cc
  drop_suc (y ∷ s) (suc i) x rest h =
      let e : suc i + 1 ≡ suc (i + 1) = omega arith in rw e (drop_suc s i x rest h)

  pub take_snoc :
      (s : List A) (k : ℕ) (x : A) (rest : List A)
      → drop k s ≡ x ∷ rest
      → take (k + 1) s ≡ take k s ++ (x ∷ [])
  take_snoc [] zero x rest h = cc
  take_snoc [] (suc k) x rest h = cc
  take_snoc (y ∷ s) zero x rest h = cc
  take_snoc (y ∷ s) (suc k) x rest h =
      let e : suc k + 1 ≡ suc (k + 1) = omega arith in
      rw e (ap (λ t. y ∷ t) (take_snoc s k x rest h))

  drop_nil : (k : ℕ) → drop {A = A} k [] ≡ []
  drop_nil zero = refl
  drop_nil (suc k) = refl

  pub drop-drop : (s : List A) (start k : ℕ) → drop k (drop start s) ≡ drop (start + k) s
  drop-drop s zero k = let e : 0 + k ≡ k = omega arith in rw e
  drop-drop [] (suc start) k = drop_nil k ∙ sym (drop_nil (suc start + k))
  drop-drop (y ∷ s) (suc start) k =
      let e : suc start + k ≡ suc (start + k) = omega arith in rw e (drop-drop s start k)

  -- within the first list
  pub drop-append : (s t : List A) (i : ℕ) → i ≤ length s → drop i (s ++ t) ≡ drop i s ++ t
  drop-append s t zero h = refl
  drop-append [] t (suc i) h = absurd (omega arith)
  drop-append (x ∷ s) t (suc i) h = drop-append s t i (omega arith)

  pub take-append : (s t : List A) (i : ℕ) → i ≤ length s → take i (s ++ t) ≡ take i s
  take-append s t zero h = refl
  take-append [] t (suc i) h = absurd (omega arith)
  take-append (x ∷ s) t (suc i) h = ap (λ l. x ∷ l) (take-append s t i (omega arith))

  pub take_all : (s : List A) (i : ℕ) → length s ≤ i → take i s ≡ s
  take_all [] zero h = refl
  take_all [] (suc i) h = refl
  take_all (x ∷ s) zero h = absurd (omega arith)
  take_all (x ∷ s) (suc i) h = ap (λ l. x ∷ l) (take_all s i (omega arith))

  -- an entry that is there
  pub drop_entry : (s : List A) (i : ℕ) → i < length s → (x : A) × (drop i s ≡ x ∷ drop (i + 1) s)
  drop_entry [] i h = absurd (omega arith)
  drop_entry (y ∷ s) zero h = (y, refl)
  drop_entry (y ∷ s) (suc i) h =
      let (x, e) = drop_entry s i (omega arith) in
      (x, let e' : suc i + 1 ≡ suc (i + 1) = omega arith in rw e' e)

-- Equality of C strings.
abbrev pub bytes_eq : List ℕ → List ℕ → Bool
bytes_eq [] [] = true
bytes_eq [] (y ∷ ys) = false
bytes_eq (x ∷ xs) [] = false
bytes_eq (x ∷ xs) (y ∷ ys) = (x == y) && bytes_eq xs ys

-- The byte occurs in the string.
abbrev pub has_byte : List ℕ → ℕ → Bool
has_byte [] x = false
has_byte (c ∷ cs) x = (c == x) || has_byte cs x

pub eq_of_bytes_eq : (xs ys : List ℕ) → bytes_eq xs ys ≡ true → xs ≡ ys
eq_of_bytes_eq [] [] h = refl
eq_of_bytes_eq [] (y ∷ ys) h = cc
eq_of_bytes_eq (x ∷ xs) [] h = cc
eq_of_bytes_eq (x ∷ xs) (y ∷ ys) h = ground (arith, eq_of_bytes_eq xs ys)

pub bytes_eq_self : (xs : List ℕ) → bytes_eq xs xs ≡ true
bytes_eq_self [] = refl
bytes_eq_self (x ∷ xs) = ground (arith, bytes_eq_self xs)
