-- ===== src/Expansion/Round.antt =====
-- The rounds of scan_word: handle_squote, handle_dquote and handle_unquoted
-- (srcs/expansions/expand_quote.c) against the text of the word's field.
use minishell.Base.{
  ℕ, zero, suc, ◌+◌, ◌-◌, ◌≤◌, ◌≡◌, ◌≢◌, refl, sym, ap, ◌∙◌, subst, Bool, true, false, Option, none,
  some, List, [], ◌∷◌, Bytes, ◌==◌, if◌then◌else◌, if_rule, length, length-drop, take, drop, arith,
  Bool-cases, inl, inr,
}
use mathlib.Core.List.{append-nil}
use minishell.Environment.Defs.{Env}
use minishell.Expansion.Appends.{
  IsBuilding, append_field-IsBuilding, started-IsBuilding, joined-or_empty, or_empty,
}
use minishell.Expansion.Closing.{
  Closes, has_byte-behind, run-Closes, opened-Closes, expansion-Closes,
}
use minishell.Expansion.Fields.{FieldArena, FieldRef, Expanding, append_field}
use minishell.Expansion.Scan.{
  run, is_squote, dquote_stop, unquoted_stop, has_closing_quote, handle_squote, handle_dquote,
  handle_unquoted, open_quote, expand_var, scan_round,
}
use minishell.Expansion.Segment.{plain_values, expand_var-IsBuilding}
use minishell.Expansion.Text.{
  Quote, unquoted, squoted, dquoted, joined, joined-none, expansion, word_text,
}
use minishell.Lexer.Scan.{is_expansion_start, get_expansion_len, name_len}
use minishell.Libft.{Libft}
use minishell.Utils.{char_at, is_char_in_set, special_param_set}
use minishell.Expansion.Runs.{
  or-eq-false, run_le, joined-run, with_flags, quoted, requoted-IsBuilding,
}

module _ (base : Bytes) (refs : List FieldRef) (arena : FieldArena) where
  module _ (lib : Libft) (vals : Env) (return_status : ℕ) where
    abbrev pub text_from : Quote → Bytes → Option Bytes
    text_from q s = word_text arena lib vals return_status q s 0

    -- What one round makes of the text `s`: a part of it is in the field.
    pub record Round (text : Option Bytes) (q : Quote) (x : ℕ) (s : Bytes) (r : Expanding × Bytes)
        : Type 0 where
      pub part : Option Bytes
      pub next : Quote
      pub building : IsBuilding base refs (joined text part) next r.0
      pub splits : text_from q (x ∷ s) ≡ joined part (text_from next r.1)
      pub shorter : length r.1 ≤ length s
      pub closes : Closes q (x ∷ s) → Closes next r.1

    run-Round :
        (text : Option Bytes) (q : Quote) (e : Expanding) (x : ℕ) (s : Bytes) (stop : Bytes → Bool)
        → ((y : ℕ) (r : Bytes)
            → stop (y ∷ r) ≡ false
            → text_from q (y ∷ r) ≡ joined (some (y ∷ [])) (text_from q r))
        → ((y : ℕ) (r : Bytes) → stop (y ∷ r) ≡ false → Closes q (y ∷ r) → Closes q r)
        → stop (x ∷ s) ≡ false
        → IsBuilding base refs text q e
        → Round text q x s
            (append_field arena e (x ∷ s) (run stop (x ∷ s)), drop (run stop (x ∷ s)) (x ∷ s))
    run-Round text q e x s stop step keeps h b = rw h (record {
      part = some (x ∷ take (run stop s) s);
      next = q;
      building =
          append_field-IsBuilding base refs arena text q e (x ∷ s) (suc (run stop s))
            (omega (arith, run_le stop s)) b;
      splits = step x s h ∙ joined-run stop (text_from q) step (x ∷ []) s;
      shorter = omega (arith, length-drop (run stop s) s);
      closes = λ c. run-Closes q stop keeps s (keeps x s h c);
    })

    squoted-Round :
        (text : Option Bytes) (e : Expanding) (x : ℕ) (s : Bytes)
        → IsBuilding base refs text squoted e
        → Round text squoted x s (handle_squote arena e (x ∷ s))
    unfolding handle_squote word_text
    squoted-Round text e x s b =
        if_rule (Round text squoted x s) (x == b'\'') _ _
          (λ h. record {
            part = none;
            next = unquoted;
            building =
                subst
                  (λ u.
                    IsBuilding base refs u unquoted
                      (with_flags base refs arena e false e.exp.flags.in_dquote))
                  (sym (joined-none text))
                  (requoted-IsBuilding base refs arena text squoted unquoted e false
                    e.exp.flags.in_dquote refl b.dquote b);
            splits = rw h refl;
            shorter = omega arith;
            closes = λ c. tt;
          })
          (λ h.
            run-Round text squoted e x s (is_squote arena) (λ y r k. rw k refl)
              (λ y r k. has_byte-behind y b'\'' r k) h b)

    word_text-skip :
        (q : Quote) (s : Bytes) (k : ℕ)
        → word_text arena lib vals return_status q s k ≡ text_from q (drop k s)
    unfolding word_text
    word_text-skip q s zero = refl
    word_text-skip q [] (suc k) = refl
    word_text-skip q (x ∷ s) (suc k) = word_text-skip q s k

    get_expansion_len_two : (s : Bytes) → 2 ≤ get_expansion_len lib s
    unfolding get_expansion_len
    get_expansion_len_two s =
        if_rule (λ n. 2 ≤ n) (is_char_in_set (char_at s 1) special_param_set) 2
          (2 + name_len lib (drop 2 s)) (λ _. omega arith) (λ _. omega arith)

    behind_expansion :
        (x : ℕ) (s : Bytes)
        → drop (get_expansion_len lib (x ∷ s)) (x ∷ s) ≡ drop (get_expansion_len lib (x ∷ s) - 1) s
    behind_expansion x s =
        let len = get_expansion_len lib (x ∷ s) in
        let e : len ≡ suc (len - 1) = omega (arith, get_expansion_len_two (x ∷ s)) in
        ap (λ n. drop n (x ∷ s)) e

    expansion-Round :
        (text : Option Bytes) (q : Quote) (e : Expanding) (x : ℕ) (s : Bytes)
        → q ≢ squoted
        → plain_values vals ≡ true
        → IsBuilding base refs text q e
        → text_from q (x ∷ s)
          ≡ joined
              (expansion arena lib vals return_status q (x ∷ s))
              (word_text arena lib vals return_status q s (get_expansion_len lib (x ∷ s) - 1))
        → (Closes q (x ∷ s) → Closes q (drop (get_expansion_len lib (x ∷ s)) (x ∷ s)))
        → Round text q x s (expand_var arena lib vals return_status e (x ∷ s))
    unfolding expand_var
    expansion-Round text q e x s ne plain b starts closes =
        let part = expansion arena lib vals return_status q (x ∷ s) in
        let len = get_expansion_len lib (x ∷ s) in
        record {
          part = part;
          next = q;
          building =
              expand_var-IsBuilding base refs arena lib vals return_status text q e (x ∷ s) ne plain
                b;
          splits =
              starts
              ∙ ap (joined part)
                  (word_text-skip q s (len - 1) ∙ ap (text_from q) (sym (behind_expansion x s)));
          shorter = omega (arith, ap length (behind_expansion x s), length-drop (len - 1) s);
          closes = closes;
        }

    dquoted-Round :
        (text : Option Bytes) (e : Expanding) (x : ℕ) (s : Bytes)
        → plain_values vals ≡ true
        → IsBuilding base refs text dquoted e
        → Round text dquoted x s (handle_dquote arena lib vals return_status e (x ∷ s))
    unfolding handle_dquote word_text
    dquoted-Round text e x s plain b =
        let Here = Round text dquoted x s in
        if_rule Here (x == b'"') _ _
          (λ h. record {
            part = none;
            next = unquoted;
            building =
                subst
                  (λ u.
                    IsBuilding base refs u unquoted
                      (with_flags base refs arena e e.exp.flags.in_squote false))
                  (sym (joined-none text))
                  (requoted-IsBuilding base refs arena text dquoted unquoted e e.exp.flags.in_squote
                    false b.squote refl b);
            splits = rw h refl;
            shorter = omega arith;
            closes = λ c. tt;
          })
          (λ h.
            if_rule Here (is_expansion_start lib (x ∷ s) 0) _ _
              (λ k.
                expansion-Round text dquoted e x s (λ eq. cc) plain b (rw (h, k) refl)
                  (expansion-Closes lib (x ∷ s) k))
              (λ k.
                run-Round text dquoted e x s (dquote_stop arena lib vals return_status)
                  (λ y r m.
                    let (no_quote, no_start) = or-eq-false (y == b'"') _ m in
                    rw (no_quote, no_start) refl)
                  (λ y r m. has_byte-behind y b'"' r (or-eq-false (y == b'"') _ m).0)
                  (rw (h, k) refl) b))

    unquoted-Round :
        (text : Option Bytes) (e : Expanding) (x : ℕ) (s : Bytes)
        → plain_values vals ≡ true
        → IsBuilding base refs text unquoted e
        → Round text unquoted x s (handle_unquoted arena lib vals return_status e (x ∷ s))
    unfolding handle_unquoted open_quote word_text
    unquoted-Round text e x s plain b =
        let Here = Round text unquoted x s in
        let started = if e.exp.flags.has_field then e else append_field arena e [] 0 in
        let begun = started-IsBuilding base refs arena text unquoted e b in
        let empty : some (or_empty text) ≡ joined text (some []) =
          ap (λ t. some t) (sym (append-nil (or_empty text)))
          ∙ joined-or_empty base refs arena text [] in
        if_rule Here (has_closing_quote (x ∷ s)) _ _
          (λ h. elim (Bool-cases (x == b'\'')) [
            | inl k ↦ record {
              part = some [];
              next = squoted;
              building =
                  subst (λ u. IsBuilding base refs u squoted (open_quote arena e x)) empty
                    (subst
                      (λ (t : Bool).
                        IsBuilding base refs (some (or_empty text)) squoted
                          (quoted base refs arena started t))
                      (sym k)
                      (requoted-IsBuilding base refs arena (some (or_empty text)) unquoted squoted
                        started true started.exp.flags.in_dquote refl begun.dquote begun));
              splits = rw (h, k) refl;
              shorter = omega arith;
              closes = λ c. (opened-Closes x s h).0 k;
            }
            | inr k ↦ record {
              part = some [];
              next = dquoted;
              building =
                  subst (λ u. IsBuilding base refs u dquoted (open_quote arena e x)) empty
                    (subst
                      (λ (t : Bool).
                        IsBuilding base refs (some (or_empty text)) dquoted
                          (quoted base refs arena started t))
                      (sym k)
                      (requoted-IsBuilding base refs arena (some (or_empty text)) unquoted dquoted
                        started started.exp.flags.in_squote true begun.squote refl begun));
              splits = rw (h, k) refl;
              shorter = omega arith;
              closes = λ c. (opened-Closes x s h).1 k;
            }
          ])
          (λ h.
            if_rule Here (is_expansion_start lib (x ∷ s) 0) _ _
              (λ k.
                expansion-Round text unquoted e x s (λ eq. cc) plain b (rw (h, k) refl) (λ c. tt))
              (λ k.
                run-Round text unquoted e x s (unquoted_stop arena lib vals return_status)
                  (λ y r m.
                    let (no_quote, no_start) = or-eq-false (has_closing_quote (y ∷ r)) _ m in
                    rw (no_quote, no_start) refl)
                  (λ y r m c. tt) (rw (h, k) refl) b))

    pub scan_round-Round :
        (text : Option Bytes) (q : Quote) (e : Expanding) (x : ℕ) (s : Bytes)
        → plain_values vals ≡ true
        → IsBuilding base refs text q e
        → Round text q x s (scan_round arena lib vals return_status e (x ∷ s))
    unfolding scan_round
    scan_round-Round text squoted e x s plain b =
        if_rule (Round text squoted x s) e.exp.flags.in_squote _ _ (λ _. squoted-Round text e x s b)
          (λ h. cc (h, b.squote))
    scan_round-Round text dquoted e x s plain b =
        if_rule (Round text dquoted x s) e.exp.flags.in_squote _ _ (λ h. cc (h, b.squote))
          (λ _.
            if_rule (Round text dquoted x s) e.exp.flags.in_dquote _ _
              (λ _. dquoted-Round text e x s plain b) (λ h. cc (h, b.dquote)))
    scan_round-Round text unquoted e x s plain b =
        if_rule (Round text unquoted x s) e.exp.flags.in_squote _ _ (λ h. cc (h, b.squote))
          (λ _.
            if_rule (Round text unquoted x s) e.exp.flags.in_dquote _ _ (λ h. cc (h, b.dquote))
              (λ _. unquoted-Round text e x s plain b))
