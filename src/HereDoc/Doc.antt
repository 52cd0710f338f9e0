-- ===== src/HereDoc/Doc.antt =====
-- A here-document in the parser: get_here_doc of srcs/lexer/here_body_read.c, and
-- srcs/lexer/lex_heredoc.c. The descriptors that create_here_temp opens, the one to read first, are
-- a parameter; what is written to the file is kept in `bodies`.
use minishell.Base.{
  ℕ, ◌+◌, Bool, true, false, not, Option, some, ◌>>=◌, [], ◌∷◌, ◌++◌, Bytes, ◌==◌, if◌then◌else◌, ℤ,
  pos, negsuc,
}
use minishell.Ctx.{Ctx}
use minishell.HereDoc.Read.{here_loop}
use minishell.Libft.{Libft}
use minishell.Parser.Nodes.{get_node_from_idx, put_node}
use minishell.Parser.Stack.{get_symbol_from_top, get_token_from_idx, get_token_body}
use minishell.Types.{LexerState, ParserState}
use minishell.Utils.{char_at}

-- `fd != -1`
abbrev pub is_open : ℤ → Bool
is_open (pos n) = true
is_open (negsuc n) = not (n == 0)

module _ (lib : Libft) (create_here_temp : Ctx lib → ℤ × ℤ) where
  -- the writes behind the loop
  abbrev pub store_here : ℕ → ℤ → Bool → Ctx lib × LexerState × Bytes → Ctx lib × LexerState
  store_here idx rfd has_file (c, lex, text) =
      let node = get_node_from_idx lib c idx in
      let fd = if lex.flags.interrupted then negsuc 0 else rfd in
      let c' = put_node lib c idx (record node { content = record (node.content) { fd = fd } }) in
      (record c' { bodies = if has_file then c'.bodies ++ (text ∷ []) else c'.bodies }, lex)

  unfoldable pub get_here_doc : ℕ → Ctx lib → LexerState → Option (Ctx lib × LexerState)
  get_here_doc fuel c lex =
      let idx = (get_symbol_from_top lib c 1).node_idx in
      let node = get_node_from_idx lib c idx in
      let here_end = lib.get_str c.strings node.content.arena_offset in
      let (rfd, wfd) = create_here_temp c in
      here_loop lib fuel (is_open wfd) here_end node c lex [] >>= λ result.
      some (store_here idx rfd (is_open wfd) result)

  -- the flag and the token, after get_here_doc
  abbrev pub resume_tokens : ParserState → Ctx lib × LexerState → Ctx lib × ParserState × LexerState
  resume_tokens parse (c, lex) = (
    c,
    record parse {
      flags = record (parse.flags) { here_body = false };
      token_idx = (get_symbol_from_top lib c 1).token_idx;
    },
    lex,
  )

  unfoldable pub handle_here_body :
      ℕ → Ctx lib → ParserState → LexerState → Option (Ctx lib × ParserState × LexerState)
  unfolding get_here_doc
  handle_here_body fuel c parse lex =
      get_here_doc fuel c lex >>= λ result. some (resume_tokens parse result)

module _ (lib : Libft) where
  unfoldable pub handle_saved_tokens : Ctx lib → ParserState → ParserState
  handle_saved_tokens c parse =
      let next = get_token_from_idx lib c (parse.token_idx + 1) in
      let is_newline = char_at (get_token_body lib c next) 0 == b'\n' in
      record parse {
        flags =
            if is_newline then record (parse.flags) { has_saved_tokens = false } else parse.flags;
        token_idx = parse.token_idx + 1;
      }
