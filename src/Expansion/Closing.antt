-- ===== src/Expansion/Closing.antt =====
-- The closing quote of a quoted part stands in the text that is left.
use minishell.Base.{
  ℕ, suc, ◌+◌, ◌≡◌, sym, subst, Bool, true, false, ◌||◌, [], ◌∷◌, Bytes, ◌==◌, ==_iff, if_rule,
  drop, has_byte, arith, and-eq-true, Bool-cases, inl, inr,
}
use minishell.Expansion.Scan.{run, has_closing_quote}
use minishell.Expansion.Text.{Quote, unquoted, squoted, dquoted}
use minishell.Lexer.Scan.{is_expansion_start, get_expansion_len, name_len}
use minishell.Libft.{Libft}
use minishell.Utils.{is_char_in_set, special_param_set, is_name_start, is_name_body}

abbrev pub Closes : Quote → Bytes → Type 0
Closes unquoted s = Unit
Closes squoted s = has_byte s b'\'' ≡ true
Closes dquoted s = has_byte s b'"' ≡ true

-- the byte is not the first one
pub has_byte-behind :
    (y q : ℕ) (r : Bytes) → (y == q) ≡ false → has_byte (y ∷ r) q ≡ true → has_byte r q ≡ true
has_byte-behind y q r h k = rw h at k

-- a loop that stops at each closing quote does not run over it
pub run-Closes :
    (q : Quote) (stop : Bytes → Bool)
    → ((y : ℕ) (r : Bytes) → stop (y ∷ r) ≡ false → Closes q (y ∷ r) → Closes q r)
    → (s : Bytes) → Closes q s
    → Closes q (drop (run stop s) s)
run-Closes q stop step [] c = c
run-Closes q stop step (y ∷ r) c = elim (Bool-cases (stop (y ∷ r))) [
  | inl e ↦ rw e c
  | inr e ↦ rw e (run-Closes q stop step r (step y r e c))
]

pub opened-Closes :
    (x : ℕ) (s : Bytes)
    → has_closing_quote (x ∷ s) ≡ true
    → ((x == b'\'') ≡ true → Closes squoted s) × ((x == b'\'') ≡ false → Closes dquoted s)
unfolding has_closing_quote
opened-Closes x s h =
    let (quote, there) = and-eq-true (x == b'\'' || x == b'"') (has_byte s x) h in
    (
      λ e. subst (λ c. has_byte s c ≡ true) ((==_iff x b'\'').0 e) there,
      λ e. subst (λ c. has_byte s c ≡ true) ((==_iff x b'"').0 (rw e at quote)) there,
    )

module _ (lib : Libft) where
  name_body_other : (x : ℕ) → is_name_body lib x ≡ true → (x == b'"') ≡ false
  unfolding is_name_body
  name_body_other x h = elim (Bool-cases (x == b'"')) [
    | inr e ↦ e
    | inl e ↦
        let no : is_name_body lib b'"' ≡ true =
          subst (λ c. is_name_body lib c ≡ true) ((==_iff x b'"').0 e) h in
        ground (arith, no, lib.isalnum-dquote)
  ]

  name_start_other :
      (y : ℕ)
      → (is_name_start lib y || is_char_in_set y special_param_set) ≡ true
      → (y == b'"') ≡ false
  unfolding is_name_start is_char_in_set
  name_start_other y h = elim (Bool-cases (y == b'"')) [
    | inr e ↦ e
    | inl e ↦
        let no : (is_name_start lib b'"' || is_char_in_set b'"' special_param_set) ≡ true =
          subst (λ c. (is_name_start lib c || is_char_in_set c special_param_set) ≡ true)
            ((==_iff y b'"').0 e) h in
        ground (arith, no, lib.isalnum-dquote, lib.isalnum_of_isalpha b'"')
  ]

  name_len-Closes : (s : Bytes) → Closes dquoted s → Closes dquoted (drop (name_len lib s) s)
  unfolding name_len is_name_body
  name_len-Closes [] c = c
  name_len-Closes (x ∷ s) c = elim (Bool-cases (is_name_body lib x)) [
    | inl e ↦
        let other : (x == b'"') ≡ false = name_body_other x e in
        let n : 1 + name_len lib s ≡ suc (name_len lib s) = omega arith in
        rw (e, n) (name_len-Closes s (has_byte-behind x b'"' s other c))
    | inr e ↦ rw e c
  ]

  pub expansion-Closes :
      (s : Bytes)
      → is_expansion_start lib s 0 ≡ true
      → Closes dquoted s
      → Closes dquoted (drop (get_expansion_len lib s) s)
  unfolding is_expansion_start get_expansion_len is_char_in_set name_len
  expansion-Closes [] e c = c
  expansion-Closes (x ∷ []) e c = ground (arith, (and-eq-true (x == b'$') _ e).0)
  expansion-Closes (x ∷ y ∷ r) e c =
      let (dollar, start) =
        and-eq-true (x == b'$') (is_name_start lib y || is_char_in_set y special_param_set) e in
      let no_quote : (x == b'"') ≡ false = ground (arith, dollar) in
      let rest =
        has_byte-behind y b'"' r (name_start_other y start)
          (has_byte-behind x b'"' (y ∷ r) no_quote c) in
      if_rule (λ n. Closes dquoted (drop n (x ∷ y ∷ r))) (is_char_in_set y special_param_set) 2
        (2 + name_len lib r) (λ _. rest)
        (λ _.
          let n : 2 + name_len lib r ≡ suc (suc (name_len lib r)) = omega arith in
          subst (λ k. Closes dquoted (drop k (x ∷ y ∷ r))) (sym n) (name_len-Closes r rest))
