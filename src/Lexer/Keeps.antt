-- ===== src/Lexer/Keeps.antt =====
-- lex_token (srcs/lexer/lookahead.c) and the parser's stack.
use minishell.Base.{◌≡◌, refl, ◌==◌, if_rule, arith}
use minishell.Ctx.{Ctx}
use minishell.Lexer.Rules.{
  Step, delimit_lex_token, apply_rule_1, apply_rule_2, apply_rule_3, apply_rule_4, apply_rule_5,
  apply_rule_6, apply_rule_7, apply_rule_8, apply_rule_9, apply_rule_10, starts_operator, lex_plain,
  lex_token, is_operator_token, is_word_token,
}
use minishell.Lexer.Scan.{is_expansion_start}
use minishell.Libft.{Libft}
use minishell.Types.{LexerState}
use minishell.Utils.{char_at, is_char_in_set, blank_set, quote_set}

module _ (lib : Libft) (c : Ctx lib) (lex : LexerState) where
  abbrev KeepsStack : Step lib → Type 0
  KeepsStack r = r.0.stack ≡ c.stack

  lex_plain-KeepsStack : KeepsStack (lex_plain lib c lex)
  unfolding lex_plain apply_rule_4 apply_rule_5 apply_rule_6 apply_rule_7 apply_rule_8 apply_rule_9
      apply_rule_10 delimit_lex_token
  lex_plain-KeepsStack =
      let ch = char_at c.read_line lex.char_idx in
      if_rule KeepsStack (is_char_in_set ch quote_set) _ _ (λ _. refl)
        λ _.
          if_rule KeepsStack (is_expansion_start lib c.read_line lex.char_idx) _ _ (λ _. refl)
            λ _.
              if_rule KeepsStack (starts_operator lib c.read_line lex.char_idx) _ _
                (λ _. ground arith)
                λ _.
                  if_rule KeepsStack (is_char_in_set ch blank_set) _ _ (λ _. ground arith)
                    λ _.
                      if_rule KeepsStack (is_word_token lib lex.type) _ _ (λ _. refl)
                        λ _. if_rule KeepsStack (ch == b'#') _ _ (λ _. refl) (λ _. refl)

  pub lex_token-stack : (lex_token lib c lex).0.stack ≡ c.stack
  unfolding lex_token apply_rule_1 apply_rule_2 apply_rule_3 delimit_lex_token
  lex_token-stack =
      if_rule KeepsStack (char_at c.read_line lex.char_idx == 0) _ _ (λ _. ground arith)
        λ _.
          if_rule KeepsStack (is_operator_token lib lex.type) _ _ (λ _. ground arith)
            (λ _. lex_plain-KeepsStack)
