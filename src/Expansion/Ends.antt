-- ===== src/Expansion/Ends.antt =====
-- The loops of srcs/expansions end, whatever the words and the variables are.
use minishell.Base.{
  ℕ, zero, suc, ◌≤◌, ◌≡◌, refl, ap, Bool, true, false, some, [], ◌∷◌, Bytes, ◌==◌, if◌then◌else◌,
  if_rule, length, length-drop, drop, arith,
}
use minishell.Environment.Defs.{Env}
use minishell.Expansion.Fields.{FieldArena, Expanding, delimit_field}
use minishell.Expansion.Scan.{
  run, is_squote, dquote_stop, unquoted_stop, has_closing_quote, handle_squote, handle_dquote,
  handle_unquoted, expand_var, scan_round, scan_loop, last_field, scan_word,
}
use minishell.Lexer.Scan.{is_expansion_start, get_expansion_len}
use minishell.Lexer.Valid.{get_expansion_len_bounds}
use minishell.Libft.{Libft}
use minishell.Utils.{char_at}

-- what is left behind a drop of at least one byte
length-drop_behind : (n x : ℕ) (s : Bytes) → 1 ≤ n → length (drop n (x ∷ s)) ≤ length s
length-drop_behind n x s h = omega (arith, length-drop n (x ∷ s))

run_positive :
    (stop : Bytes → Bool) (x : ℕ) (s : Bytes) → stop (x ∷ s) ≡ false → 1 ≤ run stop (x ∷ s)
run_positive stop x s h = rw h (omega arith)

module _ (arena : FieldArena) (lib : Libft) (vals : Env) (return_status : ℕ) where
  -- a round leaves less of the word
  abbrev Shorter : Bytes → Expanding × Bytes → Type 0
  Shorter s (e, rest) = length rest ≤ length s

  handle_squote-Shorter :
      (e : Expanding) (x : ℕ) (s : Bytes) → Shorter s (handle_squote arena e (x ∷ s))
  unfolding handle_squote
  handle_squote-Shorter e x s =
      if_rule (Shorter s) (is_squote arena (x ∷ s)) _ _
        (λ _. length-drop_behind 1 x s (omega arith))
        (λ other. length-drop_behind _ x s (run_positive (is_squote arena) x s other))

  expand_var-Shorter :
      (e : Expanding) (x : ℕ) (s : Bytes)
      → is_expansion_start lib (x ∷ s) 0 ≡ true
      → Shorter s (expand_var arena lib vals return_status e (x ∷ s))
  unfolding expand_var
  expand_var-Shorter e x s h =
      length-drop_behind (get_expansion_len lib (x ∷ s)) x s
        (omega (arith, get_expansion_len_bounds lib (x ∷ s) 0 h))

  handle_dquote-Shorter :
      (e : Expanding) (x : ℕ) (s : Bytes)
      → Shorter s (handle_dquote arena lib vals return_status e (x ∷ s))
  unfolding handle_dquote
  handle_dquote-Shorter e x s =
      if_rule (Shorter s) (char_at (x ∷ s) 0 == b'"') _ _
        (λ _. length-drop_behind 1 x s (omega arith))
        (λ no_quote.
          if_rule (Shorter s) (is_expansion_start lib (x ∷ s) 0) _ _
            (λ h. expand_var-Shorter e x s h)
            (λ no_start. length-drop_behind _ x s (
              run_positive (dquote_stop arena lib vals return_status) x s
                (rw (no_quote, no_start) refl))))

  handle_unquoted-Shorter :
      (e : Expanding) (x : ℕ) (s : Bytes)
      → Shorter s (handle_unquoted arena lib vals return_status e (x ∷ s))
  unfolding handle_unquoted
  handle_unquoted-Shorter e x s =
      if_rule (Shorter s) (has_closing_quote (x ∷ s)) _ _
        (λ _. length-drop_behind 1 x s (omega arith))
        (λ no_quote.
          if_rule (Shorter s) (is_expansion_start lib (x ∷ s) 0) _ _
            (λ h. expand_var-Shorter e x s h)
            (λ no_start. length-drop_behind _ x s (
              run_positive (unquoted_stop arena lib vals return_status) x s
                (rw (no_quote, no_start) refl))))

  scan_round-Shorter :
      (e : Expanding) (x : ℕ) (s : Bytes)
      → Shorter s (scan_round arena lib vals return_status e (x ∷ s))
  unfolding scan_round
  scan_round-Shorter e x s =
      if_rule (Shorter s) e.exp.flags.in_squote _ _ (λ _. handle_squote-Shorter e x s)
        (λ _.
          if_rule (Shorter s) e.exp.flags.in_dquote _ _ (λ _. handle_dquote-Shorter e x s)
            (λ _. handle_unquoted-Shorter e x s))

  scan_loop_ends :
      (fuel : ℕ) (e : Expanding) (word : Bytes)
      → length word ≤ fuel
      → (e' : Expanding) × (scan_loop arena lib vals return_status fuel e word ≡ some e')
  unfolding scan_loop
  scan_loop_ends zero e [] h = (e, refl)
  scan_loop_ends (suc fuel) e [] h = (e, refl)
  scan_loop_ends zero e (x ∷ word) h = absurd (omega arith)
  scan_loop_ends (suc fuel) e (x ∷ word) h =
      let (e', rest) = scan_round arena lib vals return_status e (x ∷ word) in
      scan_loop_ends fuel e' rest (omega (arith, scan_round-Shorter e x word))

  -- With as much fuel as the word has bytes, scan_word ends, whatever the word, the variables and
  -- the state are.
  pub scan_word_ends :
      (fuel : ℕ) (e : Expanding) (word : Bytes)
      → length word ≤ fuel
      → (e' : Expanding) × (scan_word arena lib vals return_status fuel e word ≡ some e')
  unfolding scan_word
  scan_word_ends fuel e word h =
      let (e', ends) = scan_loop_ends fuel e word h in
      (
        if e'.exp.flags.has_field then delimit_field e' else e',
        ap (last_field arena lib vals return_status) ends,
      )
