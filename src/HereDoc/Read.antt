-- ===== src/HereDoc/Read.antt =====
-- Reading the lines of a here-document: get_user_input of srcs/input.c, srcs/lexer/here_read_line.c
-- and the loop of get_here_doc in srcs/lexer/here_body_read.c.
use minishell.Base.{
  ℕ, zero, suc, ◌+◌, Bool, true, false, ◌&&◌, Option, none, some, List, [], ◌∷◌, ◌++◌, Bytes, ◌==◌,
  ltb, if◌then◌else◌, length, drop,
}
use minishell.Ctx.{Ctx}
use minishell.HereDoc.Write.{write_here_line}
use minishell.Lexer.Scan.{consume_char}
use minishell.Libft.{Libft}
use minishell.Types.{
  Reading, line_read, input_ended, input_interrupted, LexerState, Node, zero_lexer,
}
use minishell.Utils.{char_at, strn_eq}

abbrev pub next_reading : List Reading → Reading × List Reading
next_reading [] = (input_ended, [])
next_reading (r ∷ rest) = (r, rest)

-- a NULL line is empty
abbrev pub line_of : Reading → Bytes
line_of (line_read line) = line
line_of input_ended = []
line_of input_interrupted = []

module _ (lib : Libft) where
  unfoldable pub get_user_input : Ctx lib → Ctx lib × Reading
  get_user_input c =
      let (r, rest) = next_reading c.input in (record c { read_line = line_of r; input = rest }, r)

  abbrev pub read_result : LexerState → Reading → LexerState × Bool
  read_result lex (line_read line) = (zero_lexer, true)
  read_result lex input_ended = (record lex { flags = record (lex.flags) { at_eoi = true } }, false)
  read_result lex input_interrupted =
      (record lex { flags = record (lex.flags) { at_eoi = true; interrupted = true } }, false)

  unfoldable pub read_here_line : Ctx lib → LexerState → Ctx lib × LexerState × Bool
  unfolding get_user_input
  read_here_line c lex =
      let (c', r) = get_user_input c in let (lex', more) = read_result lex r in (c', lex', more)

  unfoldable pub is_delim_line : Ctx lib → LexerState → Bytes → Bool
  is_delim_line c lex here_end =
      let line = drop lex.char_idx c.read_line in
      let len = length here_end in strn_eq lib line here_end len && char_at line len == b'\n'

  unfoldable pub here_line_ends : Ctx lib → LexerState → Bytes → LexerState × Bool
  unfolding is_delim_line
  here_line_ends c lex here_end =
      if is_delim_line c lex here_end
      then (consume_char lex (length here_end + 1), true)
      else (lex, false)

  -- the first part of the loop's test, and whether there is a line
  unfoldable pub fetch_line : Ctx lib → LexerState → Ctx lib × LexerState × Bool
  unfolding read_here_line
  fetch_line c lex =
      if char_at c.read_line lex.char_idx == 0 then read_here_line c lex else (c, lex, true)

  -- The loop of get_here_doc, with what it has written; without a file nothing is written, and
  -- nothing consumed. `none` is a read behind the NUL of the line, or the end of the fuel.
  unfoldable pub here_loop :
      ℕ → Bool → Bytes → Node → Ctx lib → LexerState → Bytes → Option (Ctx lib × LexerState × Bytes)
  unfolding fetch_line here_line_ends
  here_loop zero has_file here_end node c lex written = none
  here_loop (suc fuel) has_file here_end node c lex written =
      let (c', lex', more) = fetch_line c lex in
      let (behind, ends) = here_line_ends c' lex' here_end in
      let (text, next) = write_here_line lib c' lex' node in
      let rest =
        here_loop fuel has_file here_end node c' (if has_file then next else lex')
          (if has_file then written ++ text else written) in
      if ltb (length c.read_line) lex.char_idx
      then none
      else if more
      then (if ends then some (c', behind, written) else rest)
      else some (c', lex', written)
