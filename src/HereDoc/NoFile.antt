-- ===== src/HereDoc/NoFile.antt =====
-- The loop of get_here_doc (srcs/lexer/here_body_read.c) where create_here_temp fails.
use minishell.Base.{ℕ, zero, suc, ◌≡◌, refl, false, none, Bytes, ◌==◌, ltb, if_rule, length}
use minishell.Ctx.{Ctx}
use minishell.HereDoc.Read.{is_delim_line, here_line_ends, fetch_line, here_loop}
use minishell.Libft.{Libft}
use minishell.Types.{LexerState, Node}
use minishell.Utils.{char_at}

module _ (lib : Libft) (here_end : Bytes) (node : Node) where
  -- Without a file for the text, where the rest of the line is neither empty nor the delimiter's
  -- line, the loop gives no result with any fuel: nothing is consumed, and it never ends.
  pub here_loop-no_file :
      (fuel : ℕ) (c : Ctx lib) (lex : LexerState) (written : Bytes)
      → (char_at c.read_line lex.char_idx == 0) ≡ false
      → is_delim_line lib c lex here_end ≡ false
      → here_loop lib fuel false here_end node c lex written ≡ none
  unfolding here_loop fetch_line here_line_ends
  here_loop-no_file zero c lex written h d = refl
  here_loop-no_file (suc fuel) c lex written h d =
      let again = here_loop-no_file fuel c lex written h d in
      rw (h, d, again)
        (if_rule (λ o. o ≡ none) (ltb (length c.read_line) lex.char_idx) _ _ (λ _. refl)
          (λ _. refl))
