-- ===== src/Execute/Split.antt =====
-- ft_split_with_empty of srcs/execute/ft_split_with_empty.c, which cuts PATH at every colon.
-- Allocation is taken to succeed.
use minishell.Base.{
  ℕ, zero, suc, ◌+◌, ◌-◌, ◌<◌, ◌≤◌, ◌≡◌, refl, sym, ap, ◌∙◌, false, List, [], ◌∷◌, ◌++◌, Bytes,
  ◌==◌, if◌then◌else◌, length, take, drop, drop_suc, take_snoc, drop-drop, get_or, has_byte, arith,
  Bool-cases, inl, inr, ==_iff, ◌||◌,
}
use minishell.Libft.{Libft}
use mathlib.Core.List.{append-nil, append_assoc}

-- from the position on; a byte that is no separator is passed over
number_loop : Bytes → ℕ → ℕ → ℕ
number_loop [] c result = result
number_loop (x ∷ s) c result = number_loop s c (if x == c then result + 1 else result)

unfoldable pub ft_number_of_element : Bytes → ℕ → ℕ
unfolding number_loop
ft_number_of_element s c = number_loop s c 1

module _ (lib : Libft) where
  -- `rest` is the string from `i` on
  substring_loop : Bytes → ℕ → ℕ → Bytes → ℕ → ℕ → ℕ → Bytes
  substring_loop s c n [] i start substr_index =
      if substr_index == n then lib.substr s start (i - start) else []
  substring_loop s c n (x ∷ rest) i start substr_index =
      let cut = substring_loop s c n rest (i + 1) (i + 1) (substr_index + 1) in
      let same = substring_loop s c n rest (i + 1) start substr_index in
      if x == c then (if substr_index == n then lib.substr s start (i - start) else cut) else same

  unfoldable pub get_substring : Bytes → ℕ → ℕ → Bytes
  unfolding substring_loop
  get_substring s c n = substring_loop s c n s 0 0 0

  split_loop : Bytes → ℕ → ℕ → ℕ → List Bytes
  unfolding get_substring
  split_loop s c zero i = []
  split_loop s c (suc left) i = get_substring s c i ∷ split_loop s c left (i + 1)

  unfoldable pub ft_split_with_empty : Bytes → ℕ → List Bytes
  unfolding split_loop ft_number_of_element
  ft_split_with_empty s c = split_loop s c (ft_number_of_element s c) 0

-- The fields of a string behind `acc`, the bytes of the first field so far.
abbrev fields : Bytes → Bytes → ℕ → List Bytes
fields acc [] c = acc ∷ []
fields acc (x ∷ s) c = if x == c then acc ∷ fields [] s c else fields (acc ++ (x ∷ [])) s c

abbrev pub join : ℕ → List Bytes → Bytes
join c [] = []
join c (f ∷ []) = f
join c (f ∷ g ∷ fs) = f ++ (c ∷ join c (g ∷ fs))

abbrev pub AllLack : ℕ → List Bytes → Type 0
AllLack c [] = Unit
AllLack c (f ∷ fs) = (has_byte f c ≡ false) × AllLack c fs

number_loop-fields :
    (s acc : Bytes) (c result : ℕ) → number_loop s c result + 1 ≡ result + length (fields acc s c)
unfolding number_loop
number_loop-fields [] acc c result = omega arith
number_loop-fields (x ∷ s) acc c result =
    ground (
      arith,
      number_loop-fields s [] c (result + 1),
      number_loop-fields s (acc ++ (x ∷ [])) c result,
    )

drop-length : (fs : List Bytes) (i : ℕ) → i ≡ length fs → drop i fs ≡ []
drop-length [] zero h = refl
drop-length [] (suc i) h = refl
drop-length (f ∷ fs) zero h = absurd (omega arith)
drop-length (f ∷ fs) (suc i) h = drop-length fs i (omega arith)

drop_entry :
    (fs : List Bytes) (i : ℕ) → i < length fs → drop i fs ≡ get_or fs i [] ∷ drop (i + 1) fs
drop_entry [] i h = absurd (omega arith)
drop_entry (f ∷ fs) zero h = refl
drop_entry (f ∷ fs) (suc i) h =
    let e : suc i + 1 ≡ suc (i + 1) = omega arith in rw e (drop_entry fs i (omega arith))

join_behind :
    (s acc a : Bytes) (c : ℕ) → join c (a ∷ fields acc s c) ≡ a ++ (c ∷ join c (fields acc s c))
join_behind [] acc a c = refl
join_behind (x ∷ s) acc a c = elim (Bool-cases (x == c)) [
  | inl e ↦ rw e refl
  | inr e ↦ rw e (join_behind s (acc ++ (x ∷ [])) a c)
]

join-fields : (s acc : Bytes) (c : ℕ) → join c (fields acc s c) ≡ acc ++ s
join-fields [] acc c = sym (append-nil acc)
join-fields (x ∷ s) acc c = elim (Bool-cases (x == c)) [
  | inl e ↦ rw e (
      join_behind s [] acc c
      ∙ rw (join-fields s [] c) (ap (λ y. acc ++ (y ∷ s)) (sym ((==_iff _ _).0 e))))
  | inr e ↦ rw e (join-fields s (acc ++ (x ∷ [])) c ∙ append_assoc acc (x ∷ []) s)
]

-- The field that is asked for, or one behind it.
pick :
    (index n : ℕ) (v o acc : Bytes) (fs : List Bytes)
    → index ≤ n
    → v ≡ acc
    → (index < n → o ≡ get_or fs (n - (index + 1)) [])
    → (if index == n then v else o) ≡ get_or (acc ∷ fs) (n - index) []
pick index n v o acc fs le e f = elim (Bool-cases (index == n)) [
  | inl q ↦ let z : n - index ≡ 0 = ground arith in rw (q, z) e
  | inr q ↦ let z : n - index ≡ suc (n - (index + 1)) = ground arith in rw (q, z) (f (ground arith))
]

has_byte-append : (a : Bytes) (x c : ℕ) → has_byte (a ++ (x ∷ [])) c ≡ (has_byte a c || x == c)
has_byte-append [] x c = ground arith
has_byte-append (y ∷ a) x c = ground (arith, has_byte-append a x c)

fields-AllLack : (s acc : Bytes) (c : ℕ) → has_byte acc c ≡ false → AllLack c (fields acc s c)
fields-AllLack [] acc c h = (h, tt)
fields-AllLack (x ∷ s) acc c h = elim (Bool-cases (x == c)) [
  | inl e ↦ rw e (h, fields-AllLack s [] c refl)
  | inr e ↦ rw e (fields-AllLack s (acc ++ (x ∷ [])) c (has_byte-append acc x c ∙ rw h e))
]

module _ (lib : Libft) where
  substring_loop-fields :
      (s : Bytes) (c n : ℕ) (rest : Bytes) (i start index : ℕ) (acc : Bytes)
      → start ≤ i
      → index ≤ n
      → drop i s ≡ rest
      → take (i - start) (drop start s) ≡ acc
      → substring_loop lib s c n rest i start index ≡ get_or (fields acc rest c) (n - index) []
  unfolding substring_loop
  substring_loop-fields s c n [] i start index acc h le d t =
      pick index n _ [] acc [] le (lib.substr_lem s start (i - start) ∙ t) (λ _. refl)
  substring_loop-fields s c n (x ∷ rest) i start index acc h le d t =
      let here : drop (i - start) (drop start s) ≡ x ∷ rest =
        let e : start + (i - start) ≡ i = omega arith in drop-drop s start (i - start) ∙ rw e d in
      let grown : take (i + 1 - start) (drop start s) ≡ acc ++ (x ∷ []) =
        let e : i + 1 - start ≡ i - start + 1 = omega arith in
        rw e (take_snoc (drop start s) (i - start) x rest here ∙ ap (λ u. u ++ (x ∷ [])) t) in
      let later = drop_suc s i x rest d in
      elim (Bool-cases (x == c)) [
        | inl e ↦ rw e (
            pick index n _ _ acc (fields [] rest c) le (lib.substr_lem s start (i - start) ∙ t)
              (λ lt.
                substring_loop-fields s c n rest (i + 1) (i + 1) (index + 1) [] (omega arith)
                  (omega arith) later (let z : i + 1 - (i + 1) ≡ 0 = omega arith in rw z refl)))
        | inr e ↦ rw e (
            substring_loop-fields s c n rest (i + 1) start index (acc ++ (x ∷ [])) (omega arith) le
              later grown)
      ]

  split_loop-fields :
      (s : Bytes) (c left i : ℕ)
      → left + i ≡ length (fields [] s c)
      → split_loop lib s c left i ≡ drop i (fields [] s c)
  unfolding split_loop get_substring
  split_loop-fields s c zero i h = sym (drop-length (fields [] s c) i (omega arith))
  split_loop-fields s c (suc left) i h =
      let field = substring_loop-fields s c i s 0 0 0 [] (omega arith) (omega arith) refl refl in
      let e : i - 0 ≡ i = omega arith in
      let rest = split_loop-fields s c left (i + 1) (omega arith) in
      rw (drop_entry (fields [] s c) i (omega arith), rest)
        (ap (λ f. f ∷ drop (i + 1) (fields [] s c)) (rw e at field))

  -- The elements joined again by the separator are the string, and no element has it.
  pub ft_split_with_empty_lem :
      (s : Bytes) (c : ℕ)
      → (join c (ft_split_with_empty lib s c) ≡ s) × AllLack c (ft_split_with_empty lib s c)
  unfolding ft_split_with_empty ft_number_of_element
  ft_split_with_empty_lem s c =
      let same : ft_split_with_empty lib s c ≡ fields [] s c =
        split_loop-fields s c (number_loop s c 1) 0 (omega (arith, number_loop-fields s [] c 1)) in
      rw same (join-fields s [] c, fields-AllLack s [] c refl)
