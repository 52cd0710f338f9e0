-- ===== src/Parser/Flow.antt =====
-- The next token and the lookahead: srcs/parser/parse_token_flow.c. `none` says that the fuel ran
-- out, or that a here-document read behind its line.
use minishell.Base.{
  ℕ, zero, suc, ◌+◌, Bool, true, false, not, ◌&&◌, ◌||◌, Option, none, some, ◌>>=◌, ◌==◌,
  if◌then◌else◌, ℤ,
}
use minishell.Ctx.{Ctx}
use minishell.HereDoc.Doc.{handle_here_body, handle_saved_tokens}
use minishell.Lexer.Rules.{lex_token}
use minishell.Libft.{Libft}
use minishell.Parser.Classify.{classify_token}
use minishell.Parser.Stack.{get_token_from_idx, get_token_body}
use minishell.Types.{LexerState, ParserState, zero_lexer}
use minishell.Utils.{char_at}

unfoldable pub start_here_body : ParserState → ParserState
start_here_body parse = record parse {
  flags = record (parse.flags) { save_tokens = false; has_saved_tokens = true; here_body = true };
}

-- report_parse_error, without its message
unfoldable pub report_parse_error : ParserState → ParserState
report_parse_error parse = record parse { flags = record (parse.flags) { error = true } }

module _ (lib : Libft) where
  -- the parser's and the lexer's state, and what the function returns
  abbrev pub Flow : Type 0
  Flow = Ctx lib × ParserState × LexerState × Bool

  unfoldable pub handle_here_doc : Ctx lib → ParserState → ParserState
  unfolding start_here_body
  handle_here_doc c parse =
      let body = get_token_body lib c (get_token_from_idx lib c parse.token_idx) in
      if char_at body 0 == b'\n' then start_here_body parse else parse

  module _ (create_here_temp : Ctx lib → ℤ × ℤ) where
    -- the first test of the loop of get_next_token
    unfoldable pub pending_body :
        ℕ → Ctx lib → ParserState → LexerState → Option (Ctx lib × ParserState × LexerState)
    unfolding handle_here_body
    pending_body fuel c parse lex =
        if parse.flags.here_body
        then handle_here_body lib create_here_temp fuel c parse lex
        else some (c, parse, lex)

    -- the rest of the round; `none` where the loop goes on, from the context and the state given
    unfoldable pub token_round :
        Bool → Ctx lib → ParserState → LexerState → Option Flow × Ctx lib × LexerState
    unfolding handle_saved_tokens
    token_round read_body c parse lex =
        let (c', lex', found) = lex_token lib c lex in
        (
          if read_body && lex.flags.interrupted
              then some (c, parse, lex, false)
              else if parse.flags.has_saved_tokens
              then some (c, handle_saved_tokens lib c parse, lex, true)
              else if lex.flags.at_eoi
              then some (c, parse, zero_lexer, false)
              else if found
              then some (c', record parse { token_idx = parse.token_idx + 1 }, lex', true)
              else none,
          c',
          lex',
        )

    abbrev pub or_again : Option Flow → Option Flow → Option Flow
    or_again none again = again
    or_again (some flow) again = some flow

    unfoldable pub get_next_token : ℕ → Ctx lib → ParserState → LexerState → Option Flow
    unfolding pending_body token_round
    get_next_token zero c parse lex = none
    get_next_token (suc fuel) c parse lex = pending_body fuel c parse lex >>= λ (c1, parse1, lex1).
        let (result, c2, lex2) = token_round parse.flags.here_body c1 parse1 lex1 in
        or_again result (get_next_token fuel c2 parse1 lex2)

    -- the token as the lookahead
    abbrev pub look_at : Ctx lib → ParserState → ParserState
    look_at c parse = record parse {
      lookahead_type = classify_token lib c (get_token_from_idx lib c parse.token_idx);
      flags = record (parse.flags) { has_lookahead = true };
    }

    unfoldable pub get_lookahead : ℕ → Ctx lib → ParserState → LexerState → Option Flow
    unfolding get_next_token start_here_body
    get_lookahead zero c parse lex = none
    get_lookahead (suc fuel) c parse lex =
        get_next_token fuel c parse lex >>= λ (c1, parse1, lex1, got).
        let again = get_lookahead fuel c1 (start_here_body parse1) lex1 in
        if got
        then some (c1, look_at c1 parse1, lex1, true)
        else if lex1.flags.interrupted || not parse1.flags.save_tokens
        then some (c1, parse1, lex1, false)
        else again
