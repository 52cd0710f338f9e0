-- ===== src/Builtin/Number.antt =====
-- What ft_isnumber of srcs/builtin/builtin_exit.c takes for a number.
use minishell.Base.{
  ℕ, ◌≡◌, ◌↔◌, ◌⊎◌, refl, sym, ap, ◌∙◌, subst, Bool, true, false, ◌||◌, [], ◌∷◌, ◌++◌, Bytes, ◌==◌,
  ==_iff, if◌then◌else◌, Bool-cases, inl, inr,
}
use minishell.Builtin.Exit.{skip_while, is_end, is_sign, skip_sign, ft_isnumber}
use minishell.Libft.{Libft}
use minishell.Utils.{char_at}

abbrev pub AllOf : (ℕ → Bool) → Bytes → Type 0
AllOf p [] = Unit
AllOf p (x ∷ s) = (p x ≡ true) × AllOf p s

skip_while-append :
    (p : ℕ → Bool) (front s : Bytes) → AllOf p front → skip_while p (front ++ s) ≡ skip_while p s
unfolding skip_while
skip_while-append p [] s h = refl
skip_while-append p (x ∷ front) s (h, hs) = rw h (skip_while-append p front s hs)

skip_while_stops : (p : ℕ → Bool) (x : ℕ) (s : Bytes) → p x ≡ false → skip_while p (x ∷ s) ≡ x ∷ s
unfolding skip_while
skip_while_stops p x s h = rw h refl

-- what is skipped, all of which is so
skip_while-AllOf :
    (p : ℕ → Bool) (s : Bytes) → (front : Bytes) × AllOf p front × (s ≡ front ++ skip_while p s)
unfolding skip_while
skip_while-AllOf p [] = ([], tt, refl)
skip_while-AllOf p (x ∷ s) = elim (Bool-cases (p x)) [
  | inl h ↦
      let (front, all, e) = skip_while-AllOf p s in (x ∷ front, (h, all), rw h (ap (λ l. x ∷ l) e))
  | inr h ↦ ([], tt, rw h refl)
]

nil_of_is_end : (s : Bytes) → is_end s ≡ true → s ≡ []
nil_of_is_end [] h = refl
nil_of_is_end (x ∷ s) h = cc

abbrev pub IsSign : Bytes → Type 0
IsSign s = (s ≡ []) ⊎ ((s ≡ b'-' ∷ []) ⊎ (s ≡ b'+' ∷ []))

skip_sign-IsSign : (s : Bytes) → (sign : Bytes) × IsSign sign × (s ≡ sign ++ skip_sign s)
unfolding skip_sign
skip_sign-IsSign [] = ([], inl refl, refl)
skip_sign-IsSign (x ∷ s) = elim (Bool-cases (x == b'-')) [
  | inl h ↦ let same : x ≡ b'-' = (==_iff x b'-').0 h in (b'-' ∷ [], inr (inl refl), rw same refl)
  | inr h ↦ elim (Bool-cases (x == b'+')) [
    | inl h' ↦
        let same : x ≡ b'+' = (==_iff x b'+').0 h' in (b'+' ∷ [], inr (inr refl), rw same refl)
    | inr h' ↦ ([], inl refl, rw (h, h') refl)
  ]
]

module _ (lib : Libft) where
  -- blanks, a sign or none, at least one digit, blanks
  pub record IsNumber (str : Bytes) : Type 0 where
    pub lead : Bytes
    pub sign : Bytes
    pub digit : ℕ
    pub digits : Bytes
    pub trail : Bytes
    pub splits : str ≡ lead ++ (sign ++ ((digit ∷ digits) ++ trail))
    pub lead_so : AllOf lib.isspace lead
    pub sign_so : IsSign sign
    pub digits_so : AllOf lib.isdigit (digit ∷ digits)
    pub trail_so : AllOf lib.isspace trail

  -- what stands behind the sign
  abbrev tail_test : Bytes → Bool
  tail_test signed =
      let rest = skip_while lib.isdigit signed in
      if is_end signed || lib.isspace (char_at signed 0)
      then false
      else if is_end rest
      then true
      else is_end (skip_while lib.isspace rest)

  abbrev Tail : Bytes → Type 0
  Tail signed =
      (digit : ℕ) × (digits : Bytes) × (trail : Bytes) × (signed ≡ (digit ∷ digits) ++ trail)
      × AllOf lib.isdigit (digit ∷ digits)
      × AllOf lib.isspace trail

  only_space : (s : Bytes) → is_end (skip_while lib.isspace s) ≡ true → AllOf lib.isspace s
  unfolding skip_while
  only_space [] h = tt
  only_space (x ∷ s) h = elim (Bool-cases (lib.isspace x)) [
    | inl e ↦ (e, only_space s (rw e at h))
    | inr e ↦ cc (rw e at h)
  ]

  digits_then :
      (s : Bytes)
      → is_end (skip_while lib.isspace (skip_while lib.isdigit s)) ≡ true
      → (digits : Bytes) × (trail : Bytes) × (s ≡ digits ++ trail)
        × AllOf lib.isdigit digits
        × AllOf lib.isspace trail
  digits_then s h =
      let (digits, all, e) = skip_while-AllOf lib.isdigit s in
      (digits, skip_while lib.isdigit s, e, all, only_space (skip_while lib.isdigit s) h)

  end_of_end :
      (rest : Bytes)
      → (if is_end rest then true else is_end (skip_while lib.isspace rest)) ≡ true
      → is_end (skip_while lib.isspace rest) ≡ true
  unfolding skip_while
  end_of_end [] h = refl
  end_of_end (x ∷ rest) h = h

  tail_test-Tail : (signed : Bytes) → tail_test signed ≡ true → Tail signed
  unfolding skip_while
  tail_test-Tail [] h = cc
  tail_test-Tail (x ∷ s) h = elim (Bool-cases (lib.isspace x)) [
    | inl e ↦ cc (rw e at h)
    | inr e ↦ elim (Bool-cases (lib.isdigit x)) [
      | inl d ↦
          let h1 = end_of_end (skip_while lib.isdigit (x ∷ s)) (rw e at h) in
          let (digits, trail, splits, all, spaces) = digits_then s (rw d at h1) in
          (x, digits, trail, ap (λ l. x ∷ l) splits, (d, all), spaces)
      | inr d ↦ cc (rw (e, d) at h)
    ]
  ]

  ft_isnumber-IsNumber : (str : Bytes) → ft_isnumber lib str ≡ true → IsNumber str
  unfolding ft_isnumber
  ft_isnumber-IsNumber str h =
      let body = skip_while lib.isspace str in
      let (lead, lead_so, e1) = skip_while-AllOf lib.isspace str in
      let (sign, sign_so, e2) = skip_sign-IsSign body in
      elim (Bool-cases (is_end body)) [
        | inl e ↦ cc (rw e at h)
        | inr e ↦
            let (digit, digits, trail, e3, digits_so, trail_so) =
              tail_test-Tail (skip_sign body) (rw e at h) in
            record {
              lead = lead;
              sign = sign;
              digit = digit;
              digits = digits;
              trail = trail;
              splits = e1 ∙ ap (λ l. lead ++ l) (e2 ∙ ap (λ l. sign ++ l) e3);
              lead_so = lead_so;
              sign_so = sign_so;
              digits_so = digits_so;
              trail_so = trail_so;
            }
      ]

  no_digit : (x : ℕ) → lib.isspace x ≡ true → lib.isdigit x ≡ false
  no_digit x h = elim (Bool-cases (lib.isdigit x)) [
    | inl d ↦ cc (lib.isspace_digit x d)
    | inr d ↦ d
  ]

  spaces_end : (s : Bytes) → AllOf lib.isspace s → is_end (skip_while lib.isspace s) ≡ true
  unfolding skip_while
  spaces_end [] h = refl
  spaces_end (x ∷ s) (h, hs) = rw h (spaces_end s hs)

  trail_test :
      (trail : Bytes)
      → AllOf lib.isspace trail
      → (let rest = skip_while lib.isdigit trail in
          (if is_end rest then true else is_end (skip_while lib.isspace rest)) ≡ true)
  unfolding skip_while
  trail_test [] h = refl
  trail_test (x ∷ s) (h, hs) = rw (no_digit x h, h) (spaces_end s hs)

  digits_test :
      (d : ℕ) (digits trail : Bytes)
      → AllOf lib.isdigit (d ∷ digits)
      → AllOf lib.isspace trail
      → tail_test ((d ∷ digits) ++ trail) ≡ true
  digits_test d digits trail all spaces =
      rw (lib.isspace_digit d all.0, skip_while-append lib.isdigit (d ∷ digits) trail all)
        (trail_test trail spaces)

  no_sign : (d : ℕ) → lib.isdigit d ≡ true → is_sign d ≡ false
  no_sign d h = elim (Bool-cases (d == b'-')) [
    | inl e ↦ let same : d ≡ b'-' = (==_iff d b'-').0 e in cc (rw same at h, lib.isdigit_minus)
    | inr e ↦ elim (Bool-cases (d == b'+')) [
      | inl e' ↦ let same : d ≡ b'+' = (==_iff d b'+').0 e' in cc (rw same at h, lib.isdigit_plus)
      | inr e' ↦ rw (e, e') refl
    ]
  ]

  -- the part behind the blanks
  signed_test :
      (sign s : Bytes) (d : ℕ)
      → IsSign sign
      → lib.isdigit d ≡ true
      → tail_test (d ∷ s) ≡ true
      → (let body = skip_while lib.isspace (sign ++ (d ∷ s)) in
          (if is_end body then false else tail_test (skip_sign body)) ≡ true)
  unfolding skip_sign
  signed_test sign s d (inl e) digit h =
      rw (e, skip_while_stops lib.isspace d s (lib.isspace_digit d digit), no_sign d digit) h
  signed_test sign s d (inr (inl e)) digit h =
      rw (e, skip_while_stops lib.isspace b'-' (d ∷ s) lib.isspace_minus) h
  signed_test sign s d (inr (inr e)) digit h =
      rw (e, skip_while_stops lib.isspace b'+' (d ∷ s) lib.isspace_plus) h

  -- exit takes an argument for a number exactly when it is made of blanks, at most one sign, at least
  -- one digit, and blanks.
  pub ft_isnumber_iff : (str : Bytes) → (ft_isnumber lib str ≡ true) ↔ IsNumber str
  unfolding ft_isnumber
  ft_isnumber_iff str = (
    ft_isnumber-IsNumber str,
    λ n.
        subst (λ t. ft_isnumber lib t ≡ true) (sym n.splits)
          (rw
            (skip_while-append lib.isspace n.lead (n.sign ++ ((n.digit ∷ n.digits) ++ n.trail))
              n.lead_so)
            (signed_test n.sign (n.digits ++ n.trail) n.digit n.sign_so n.digits_so.0
              (digits_test n.digit n.digits n.trail n.digits_so n.trail_so))),
  )
