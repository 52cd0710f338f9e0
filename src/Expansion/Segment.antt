-- ===== src/Expansion/Segment.antt =====
-- append_segment (srcs/expansions/expand_helpers.c) on a value without blanks, and the other values.
use minishell.Base.{
  ℕ, zero, suc, ◌+◌, ◌-◌, ◌<◌, ◌≤◌, ◌≡◌, ◌≢◌, refl, sym, ap, ◌∙◌, subst, Bool, true, false, not,
  ◌&&◌, Option, none, some, List, [], ◌∷◌, ◌++◌, Bytes, ◌==◌, ltb, ltb→lt, if◌then◌else◌, if_rule,
  length, drop, take_all, arith, and-eq-true, Bool-cases, inl, inr,
}
use minishell.Environment.Defs.{Env}
use minishell.Expansion.Appends.{
  IsBuilding, append_field-IsBuilding, arena_itoa_cat-IsBuilding, joined-or_empty, or_empty,
}
use minishell.Expansion.Fields.{FieldArena, FieldRef, Expanding, append_field}
use minishell.Expansion.Scan.{
  segment_loop, append_segment, get_env_from_slice, append_value, expand_var,
}
use minishell.Expansion.Text.{
  Quote, unquoted, squoted, dquoted, joined, joined-none, value_part, expansion,
}
use minishell.Lexer.Scan.{get_expansion_len}
use minishell.Libft.{Libft}
use minishell.Utils.{char_at, is_char_in_set, ifs, strn_eq}

abbrev pub no_ifs : Bytes → Bool
no_ifs [] = true
no_ifs (x ∷ s) = not (is_char_in_set x ifs) && no_ifs s

-- no value of a variable has a byte of IFS
abbrev pub plain_values : Env → Bool
plain_values [] = true
plain_values (node ∷ vals) =
    (elim node.val [ none ↦ true | some val ↦ no_ifs val ]) && plain_values vals

no_ifs-char_at :
    (s : Bytes) (i : ℕ) → no_ifs s ≡ true → i < length s → is_char_in_set (char_at s i) ifs ≡ false
no_ifs-char_at [] i h lt = absurd (omega arith)
no_ifs-char_at (x ∷ s) zero h lt = ground arith
no_ifs-char_at (x ∷ s) (suc i) h lt =
    no_ifs-char_at s i (and-eq-true (not (is_char_in_set x ifs)) (no_ifs s) h).1 (omega arith)

module _ (base : Bytes) (refs : List FieldRef) (arena : FieldArena) where
  segment_loop-IsBuilding :
      (fuel : ℕ) (t : Bytes) (q : Quote) (e : Expanding) (val : Bytes) (span i : ℕ)
      → span ≤ i
      → no_ifs val ≡ true
      → IsBuilding base refs (some t) q e
      → IsBuilding base refs (some t) q (segment_loop fuel e val span i)
  unfolding segment_loop
  segment_loop-IsBuilding zero t q e val span i h n b = b
  segment_loop-IsBuilding (suc fuel) t q e val span i h n b =
      let grown = record e {
        exp = record (e.exp) { flags = record (e.exp.flags) { has_field = true } };
      } in
      let (_, same, at, size) = b.holding in
      let building : IsBuilding base refs (some t) q grown = record {
        same_refs = b.same_refs;
        squote = b.squote;
        dquote = b.dquote;
        holding = (refl, same, at, size);
      } in
      if_rule (IsBuilding base refs (some t) q) (ltb i (span + length val)) _ _
        (λ lt.
          rw (no_ifs-char_at val (i - span) n (omega (arith, ltb→lt i (span + length val) lt)))
            (segment_loop-IsBuilding fuel t q grown val span (i + 1) (omega arith) n building))
        (λ _. b)

  append_segment-IsBuilding :
      (text : Option Bytes) (q : Quote) (e : Expanding) (val : Bytes)
      → no_ifs val ≡ true
      → IsBuilding base refs text q e
      → IsBuilding base refs
          (joined text (value_part unquoted (some val)))
          q
          (append_segment arena e val)
  unfolding append_segment
  append_segment-IsBuilding text q e [] n b =
      subst (λ u. IsBuilding base refs u q e) (sym (joined-none text)) b
  append_segment-IsBuilding text q e (x ∷ s) n b =
      let val = x ∷ s in
      let more : (length val == 0) ≡ false = ground arith in
      let whole = take_all val (length val) (omega arith) in
      let e1 = append_field arena e val (length val) in
      let b1 =
        subst (λ u. IsBuilding base refs u q e1)
          (ap (λ u. joined text (some u)) whole ∙ sym (joined-or_empty base refs arena text val))
          (append_field-IsBuilding base refs arena text q e val (length val) (omega arith) b) in
      let span = e1.exp.field.pos + e1.exp.field.len - length val in
      rw more (
        subst (λ u. IsBuilding base refs u q (segment_loop (length val) e1 val span span))
          (joined-or_empty base refs arena text val)
          (segment_loop-IsBuilding (length val) (or_empty text ++ val) q e1 val span span
            (omega arith) n b1))

  module _ (lib : Libft) (all_vals : Env) (return_status : ℕ) where
    abbrev value_of : Env → Bytes → ℕ → Option Bytes
    value_of = get_env_from_slice arena lib all_vals return_status

    abbrev IsPlain : Option Bytes → Type 0
    IsPlain none = Unit
    IsPlain (some val) = no_ifs val ≡ true

    get_env_from_slice-IsPlain :
        (vals : Env) (key : Bytes) (len : ℕ)
        → plain_values vals ≡ true
        → IsPlain (value_of vals key len)
    unfolding get_env_from_slice
    get_env_from_slice-IsPlain [] key len h = tt
    get_env_from_slice-IsPlain (node ∷ vals) key len h =
        let (here, rest) =
          and-eq-true (elim node.val [ none ↦ true | some val ↦ no_ifs val ]) (plain_values vals)
            h in
        if_rule IsPlain (strn_eq lib node.key key len && char_at node.key len == 0) _ _
          (λ _.
            elim node.val
                as (λ o. ((elim o [ none ↦ true | some val ↦ no_ifs val ]) ≡ true) → IsPlain o) [
                  | none ↦ λ _. tt
                  | some val ↦ λ k. k
                ]
              here)
          (λ _. get_env_from_slice-IsPlain vals key len rest)

    -- both branches of the test for double quotes
    abbrev Choosing : Option Bytes → Quote → Expanding → Bytes → Bool → Type 0
    Choosing text q e val in_dquote =
        IsBuilding base refs (joined text (value_part q (some val))) q
          (if in_dquote then append_field arena e val (length val) else append_segment arena e val)

    append_value-IsBuilding :
        (text : Option Bytes) (q : Quote) (e : Expanding) (o : Option Bytes)
        → q ≢ squoted
        → IsPlain o
        → IsBuilding base refs text q e
        → IsBuilding base refs
            (joined text (value_part q o))
            q
            (append_value arena lib all_vals return_status e o)
    append_value-IsBuilding text unquoted e none ne p b =
        subst (λ u. IsBuilding base refs u unquoted e) (sym (joined-none text)) b
    append_value-IsBuilding text dquoted e none ne p b =
        subst (λ u. IsBuilding base refs u dquoted e) (sym (joined-none text)) b
    append_value-IsBuilding text squoted e o ne p b = absurd (ne refl)
    append_value-IsBuilding text unquoted e (some val) ne p b =
        subst (Choosing text unquoted e val) (sym b.dquote)
          (append_segment-IsBuilding text unquoted e val p b)
    append_value-IsBuilding text dquoted e (some val) ne p b =
        subst (Choosing text dquoted e val) (sym b.dquote) (
          subst
            (λ u.
              IsBuilding base refs (joined text (some u)) dquoted
                (append_field arena e val (length val)))
            (take_all val (length val) (omega arith))
            (append_field-IsBuilding base refs arena text dquoted e val (length val) (omega arith)
              b))

    pub expand_var-IsBuilding :
        (text : Option Bytes) (q : Quote) (e : Expanding) (src : Bytes)
        → q ≢ squoted
        → plain_values all_vals ≡ true
        → IsBuilding base refs text q e
        → IsBuilding base refs
            (joined text (expansion arena lib all_vals return_status q src))
            q
            (expand_var arena lib all_vals return_status e src).0
    unfolding expand_var expansion
    expand_var-IsBuilding text q e src ne p b =
        let len = get_expansion_len lib src in
        let value = value_of all_vals (drop 1 src) (len - 1) in
        elim (Bool-cases (len == 2 && char_at src 1 == b'?')) [
          | inl s ↦ rw s (arena_itoa_cat-IsBuilding base refs arena text q e return_status b)
          | inr s ↦ rw s (
              append_value-IsBuilding text q e value ne
                (get_env_from_slice-IsPlain all_vals (drop 1 src) (len - 1) p) b)
        ]
