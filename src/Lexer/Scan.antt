-- ===== src/Lexer/Scan.antt =====
-- Moves of the lexer over the line: srcs/lexer/lex_utils.c, expand_utils.c and pair_utils.c, and
-- the builders of a token in lex_tokens.c.
use minishell.Base.{
  ℕ, ◌+◌, Bool, true, false, not, ◌&&◌, ◌||◌, [], ◌∷◌, Bytes, ◌==◌, if◌then◌else◌, drop, List,
}
use minishell.Libft.{Libft}
use minishell.Types.{Slice, LexerState, TokenType, no_lex_flags}
use minishell.Utils.{char_at, is_char_in_set, special_param_set, is_name_start, is_name_body}

unfoldable pub consume_char : LexerState → ℕ → LexerState
consume_char lex len = record lex { char_idx = lex.char_idx + len }

unfoldable pub grow_lex_token : LexerState → ℕ → LexerState
grow_lex_token lex len = record lex {
  token = record { pos = lex.token.pos; len = lex.token.len + len };
}

unfoldable pub save_lex_token_slice : LexerState → Slice
save_lex_token_slice lex = record { pos = lex.char_idx; len = lex.token.len }

unfoldable pub restore_lex_token_slice : LexerState → Slice → LexerState
restore_lex_token_slice lex saved = record lex {
  char_idx = saved.pos;
  token = record { pos = lex.token.pos; len = saved.len };
}

unfoldable pub start_lex_token : LexerState → TokenType → LexerState
start_lex_token lex type = record lex {
  token = record { pos = lex.char_idx; len = 1 };
  type = type;
  flags = record no_lex_flags { is_building = true };
}

unfoldable pub get_operator_strs : List Bytes
get_operator_strs =
    (b'<' ∷ b'<' ∷ []) ∷ (b'>' ∷ b'>' ∷ []) ∷ (b'&' ∷ b'&' ∷ []) ∷ (b'|' ∷ b'|' ∷ []) ∷ []

unfoldable pub matching_close : ℕ → ℕ
matching_close open_char = if open_char == b'(' then b')' else open_char

module _ (lib : Libft) where
  unfoldable pub is_expansion_start : Bytes → ℕ → Bool
  is_expansion_start buf idx =
      (char_at buf idx == b'$')
      && (is_name_start lib (char_at buf (idx + 1))
          || is_char_in_set (char_at buf (idx + 1)) special_param_set)

  -- the rounds of the loop of get_expansion_len
  unfoldable pub name_len : Bytes → ℕ
  name_len [] = 0
  name_len (c ∷ rest) = if is_name_body lib c then 1 + name_len rest else 0

  unfoldable pub get_expansion_len : Bytes → ℕ
  get_expansion_len expansion =
      if is_char_in_set (char_at expansion 1) special_param_set
      then 2
      else 2 + name_len (drop 2 expansion)

  unfoldable pub mark_expansion : Bytes → Bool → LexerState → LexerState
  mark_expansion line is_dquote lex =
      if is_dquote && not lex.flags.has_expansion && is_expansion_start line lex.char_idx
      then record lex { flags = record (lex.flags) { has_expansion = true } }
      else lex

  -- the loop of find_matched_pair, over the line from char_idx on
  unfoldable pub pair_loop : Bytes → ℕ → Bool → Bytes → LexerState → LexerState
  unfolding mark_expansion
  pair_loop line close is_dquote [] lex = lex
  pair_loop line close is_dquote (c ∷ rest) lex =
      let more =
        pair_loop line close is_dquote rest
          (consume_char (grow_lex_token (mark_expansion line is_dquote lex) 1) 1) in
      if c == close then lex else more

  close_pair : Bytes → Slice → LexerState → LexerState × Bool
  close_pair line save lex =
      if char_at line lex.char_idx == 0
      then (restore_lex_token_slice lex save, false)
      else let closed = consume_char (grow_lex_token lex 1) 1 in
        (record closed { flags = record (closed.flags) { has_quotes = true } }, true)

  unfoldable pub find_matched_pair : Bytes → LexerState → ℕ → LexerState × Bool
  unfolding pair_loop close_pair
  find_matched_pair line lex open_char =
      let started = consume_char lex 1 in
      close_pair line (save_lex_token_slice lex) (
        pair_loop line (matching_close open_char) (open_char == b'"') (drop started.char_idx line)
          started)
