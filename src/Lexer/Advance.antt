-- ===== src/Lexer/Advance.antt =====
-- The invariant and the measure of the tokenizer over lex_token (srcs/lexer/lookahead.c) and its
-- rules.
use minishell.Base.{
  ◌-◌, ◌≤◌, ◌<◌, ◌≡◌, ◌≢◌, inl, inr, true, false, [], ◌∷◌, Bytes, ◌==◌, drop, length, arith,
  length-drop, Bool-cases, if_rule, ==_iff, subst,
}
use minishell.Ctx.{Ctx}
use minishell.Libft.{Libft}
use minishell.Lexer.Rules.{
  Step, delimit_lex_token, apply_rule_2, apply_rule_3, apply_rule_4, apply_rule_5, apply_rule_6,
  apply_rule_7, apply_rule_8, apply_rule_9, apply_rule_10, comment_len, starts_operator, lex_plain,
  lex_token, is_operator_token, is_word_token,
}
use minishell.Lexer.Scan.{
  consume_char, grow_lex_token, start_lex_token, get_operator_strs, is_expansion_start,
}
use minishell.Lexer.Valid.{
  IsValid, measure, lt-length_of_char_at, char_at-drop, get_expansion_len_bounds, quoted-Quoted,
}
use minishell.Types.{LexerState, word_token, operator_token}
use minishell.Utils.{char_at, is_char_in_set, is_str_in_set, blank_set, quote_set}

comment_len-le : (lib : Libft) (rest : Bytes) → comment_len lib rest ≤ length rest
unfolding comment_len
comment_len-le lib [] = omega arith
comment_len-le lib (x ∷ rest) = ground (arith, comment_len-le lib rest)

-- A comment has at least its first byte.
comment_len-pos : (lib : Libft) (rest : Bytes) → char_at rest 0 ≡ b'#' → 0 < comment_len lib rest
unfolding comment_len
comment_len-pos lib [] h = absurd (omega arith)
comment_len-pos lib (x ∷ rest) h = ground arith

module _ (lib : Libft) (c : Ctx lib) (lex : LexerState) where
  -- A step over the line that leaves it as it is, from a position before its end.
  pub record Advances (r : Step lib) : Type 0 where
    pub same_line : r.0.read_line ≡ c.read_line
    pub valid : IsValid c.read_line r.1
    pub progress : measure c.read_line r.1 < measure c.read_line lex
    pub same_eoi : lex.flags.at_eoi ≡ false → r.1.flags.at_eoi ≡ false
    pub found_idle : r.2 ≡ true → r.1.flags.is_building ≡ false

  module _ (v : IsValid c.read_line lex) (inside : lex.char_idx < length c.read_line) where
    apply_rule_2-Advances : lex.flags.is_building ≡ true → Advances (apply_rule_2 lib c lex)
    unfolding apply_rule_2 delimit_lex_token consume_char grow_lex_token
    apply_rule_2-Advances h = ground arith

    apply_rule_3-Advances : lex.flags.is_building ≡ true → Advances (apply_rule_3 lib c lex)
    unfolding apply_rule_3 delimit_lex_token
    apply_rule_3-Advances h = ground arith

    apply_rule_4-Advances : lex.type ≢ operator_token → Advances (apply_rule_4 lib c lex)
    unfolding apply_rule_4 consume_char grow_lex_token start_lex_token
    apply_rule_4-Advances h =
        let ch = char_at c.read_line lex.char_idx in
        elim (Bool-cases lex.flags.is_building) [
          | inl e ↦
              rw e (ground (arith, quoted-Quoted lib c.read_line (grow_lex_token lex 1) ch inside))
          | inr e ↦ rw e (
              ground
                (arith, quoted-Quoted lib c.read_line (start_lex_token lex word_token) ch inside))
        ]

    apply_rule_5-Advances :
        lex.type ≢ operator_token
        → is_expansion_start lib c.read_line lex.char_idx ≡ true
        → Advances (apply_rule_5 lib c lex)
    unfolding apply_rule_5 consume_char grow_lex_token start_lex_token
    apply_rule_5-Advances h e =
        ground (arith, get_expansion_len_bounds lib c.read_line lex.char_idx e)

    apply_rule_6-Advances : Advances (apply_rule_6 lib c lex)
    unfolding apply_rule_6 delimit_lex_token consume_char start_lex_token
    apply_rule_6-Advances = ground arith

    apply_rule_7-Advances : Advances (apply_rule_7 lib c lex)
    unfolding apply_rule_7 delimit_lex_token consume_char
    apply_rule_7-Advances = ground arith

    apply_rule_8-Advances : lex.type ≡ word_token → Advances (apply_rule_8 lib c lex)
    unfolding apply_rule_8 consume_char grow_lex_token
    apply_rule_8-Advances h = ground arith

    apply_rule_9-Advances :
        lex.type ≢ operator_token
        → lex.type ≢ word_token
        → char_at c.read_line lex.char_idx ≡ b'#'
        → Advances (apply_rule_9 lib c lex)
    unfolding apply_rule_9 consume_char
    apply_rule_9-Advances no_op no_word h = ground (
      arith,
      comment_len-le lib (drop lex.char_idx c.read_line),
      comment_len-pos lib (drop lex.char_idx c.read_line),
      char_at-drop c.read_line lex.char_idx 0,
      length-drop lex.char_idx c.read_line,
    )

    apply_rule_10-Advances :
        lex.type ≢ operator_token → lex.type ≢ word_token → Advances (apply_rule_10 lib c lex)
    unfolding apply_rule_10 consume_char start_lex_token
    apply_rule_10-Advances no_op no_word = ground arith

    not_operator : is_operator_token lib lex.type ≡ false → lex.type ≢ operator_token
    not_operator e h = cc (subst (λ t. is_operator_token lib t ≡ false) h e)

    not_word : is_word_token lib lex.type ≡ false → lex.type ≢ word_token
    not_word e h = cc (subst (λ t. is_word_token lib t ≡ false) h e)

    lex_plain-Advances : lex.type ≢ operator_token → Advances (lex_plain lib c lex)
    unfolding lex_plain
    lex_plain-Advances no_op =
        let ch = char_at c.read_line lex.char_idx in
        if_rule Advances (is_char_in_set ch quote_set) _ _ (λ _. apply_rule_4-Advances no_op)
          λ _.
            if_rule Advances (is_expansion_start lib c.read_line lex.char_idx) _ _
              (λ e. apply_rule_5-Advances no_op e)
              λ _.
                if_rule Advances (starts_operator lib c.read_line lex.char_idx) _ _
                  (λ _. apply_rule_6-Advances)
                  λ _.
                    if_rule Advances (is_char_in_set ch blank_set) _ _ (λ _. apply_rule_7-Advances)
                      λ _.
                        if_rule Advances (is_word_token lib lex.type) _ _
                          (λ w. apply_rule_8-Advances (ground arith))
                          λ w.
                            if_rule Advances (ch == b'#') _ _
                              (λ h. apply_rule_9-Advances no_op (not_word w) ((==_iff _ _).0 h))
                              (λ _. apply_rule_10-Advances no_op (not_word w))

    operator_building : lex.type ≡ operator_token → lex.flags.is_building ≡ true
    operator_building h = ground arith

  -- From a valid state before the end of the line, lex_token keeps the line and gives a valid state
  -- of a smaller measure; it does not set the flag for the end of the input, and where it completes
  -- a token none is in the making.
  pub lex_token-Advances :
      IsValid c.read_line lex
      → char_at c.read_line lex.char_idx ≢ 0
      → Advances (lex_token lib c lex)
  unfolding lex_token
  lex_token-Advances v h =
      let inside = lt-length_of_char_at c.read_line lex.char_idx h in
      if_rule Advances (char_at c.read_line lex.char_idx == 0) _ _
        (λ e. absurd (h ((==_iff _ _).0 e)))
        λ _.
          if_rule Advances (is_operator_token lib lex.type) _ _
            (λ o.
              let building = operator_building v inside (ground arith) in
              if_rule Advances
                (is_str_in_set lib (drop (lex.char_idx - 1) c.read_line) get_operator_strs) _ _
                (λ _. apply_rule_2-Advances v inside building)
                (λ _. apply_rule_3-Advances v inside building))
            (λ o. lex_plain-Advances v inside (not_operator v inside o))
