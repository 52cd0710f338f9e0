-- ===== src/HereDoc/Keeps.antt =====
-- Here-documents (srcs/lexer/here_body_read.c, lex_heredoc.c) and the parser's stack.
use minishell.Base.{
  ℕ, zero, suc, ◌≡◌, refl, ◌∙◌, Bool, Option, none, some, [], Bytes, ltb, if◌then◌else◌, if_rule,
  length, arith, ℤ, ◌++◌, Ensures, Ensures-bind,
}
use minishell.Ctx.{Ctx}
use minishell.HereDoc.Doc.{get_here_doc, handle_here_body}
use minishell.HereDoc.Read.{get_user_input, read_here_line, fetch_line, here_loop, here_line_ends}
use minishell.HereDoc.Write.{write_here_line}
use minishell.Libft.{Libft}
use minishell.Parser.Nodes.{put_node}
use minishell.Types.{LexerState, Node, ParserState}

module _ (lib : Libft) where
  fetch_line-stack : (c : Ctx lib) (lex : LexerState) → (fetch_line lib c lex).0.stack ≡ c.stack
  unfolding fetch_line read_here_line get_user_input
  fetch_line-stack c lex = ground arith

  abbrev HereKeeps : Ctx lib → Option (Ctx lib × LexerState × Bytes) → Type 0
  HereKeeps c o = Ensures (λ r. r.0.stack ≡ c.stack) o

  HereKeeps-later :
      (c c' : Ctx lib) (o : Option (Ctx lib × LexerState × Bytes))
      → c'.stack ≡ c.stack
      → HereKeeps c' o
      → HereKeeps c o
  HereKeeps-later c c' none e h = tt
  HereKeeps-later c c' (some r) e h = h ∙ e

  here_loop-HereKeeps :
      (fuel : ℕ) (has_file : Bool) (here_end : Bytes) (node : Node) (c : Ctx lib) (lex : LexerState)
      (written : Bytes)
      → HereKeeps c (here_loop lib fuel has_file here_end node c lex written)
  unfolding here_loop
  here_loop-HereKeeps zero has_file here_end node c lex written = tt
  here_loop-HereKeeps (suc fuel) has_file here_end node c lex written =
      let (c', lex', more) = fetch_line lib c lex in
      let same = fetch_line-stack c lex in
      let (behind, ends) = here_line_ends lib c' lex' here_end in
      let (text, next) = write_here_line lib c' lex' node in
      if_rule (HereKeeps c) (ltb (length c.read_line) lex.char_idx) _ _ (λ _. tt)
        λ _.
          if_rule (HereKeeps c) more _ _
            (λ _.
              if_rule (HereKeeps c) ends _ _ (λ _. same)
                λ _. HereKeeps-later c c' _ same (
                  here_loop-HereKeeps fuel has_file here_end node c'
                    (if has_file then next else lex')
                    (if has_file then written ++ text else written)))
            (λ _. same)

  get_here_doc-stack :
      (create_here_temp : Ctx lib → ℤ × ℤ) (fuel : ℕ) (c : Ctx lib) (lex : LexerState)
      → Ensures (λ r. r.0.stack ≡ c.stack) (get_here_doc lib create_here_temp fuel c lex)
  unfolding get_here_doc put_node
  get_here_doc-stack create_here_temp fuel c lex =
      Ensures-bind (λ r. r.0.stack ≡ c.stack) _ (here_loop lib fuel _ _ _ c lex []) _
        (here_loop-HereKeeps fuel _ _ _ c lex []) (λ r h. h)

  pub handle_here_body-stack :
      (create_here_temp : Ctx lib → ℤ × ℤ) (fuel : ℕ) (c : Ctx lib) (parse : ParserState)
      (lex : LexerState)
      → Ensures
          (λ r.
            (r.0.stack ≡ c.stack)
            × (r.1.stack_idx ≡ parse.stack_idx)
            × (r.1.state ≡ parse.state)
            × (r.1.lookahead_type ≡ parse.lookahead_type))
          (handle_here_body lib create_here_temp fuel c parse lex)
  unfolding handle_here_body
  handle_here_body-stack create_here_temp fuel c parse lex =
      Ensures-bind (λ r. r.0.stack ≡ c.stack) _ (get_here_doc lib create_here_temp fuel c lex) _
        (get_here_doc-stack create_here_temp fuel c lex) (λ r h. (h, refl, refl, refl))
