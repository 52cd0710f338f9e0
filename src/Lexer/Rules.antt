-- ===== src/Lexer/Rules.antt =====
-- The ten rules of the tokenizer: srcs/lexer/lookahead.c, lookahead_rules1.c and
-- lookahead_rules2.c, and delimit_lex_token of lex_tokens.c. A rule returns the context, the lexer
-- state, and whether a token is complete.
use minishell.Base.{
  ℕ, ◌+◌, ◌-◌, Bool, true, false, not, ◌&&◌, ◌||◌, [], ◌∷◌, Bytes, ◌==◌, if◌then◌else◌, drop, take,
}
use minishell.Ctx.{Ctx}
use minishell.Libft.{Libft}
use minishell.Lexer.Scan.{
  consume_char, grow_lex_token, start_lex_token, get_operator_strs, is_expansion_start,
  get_expansion_len, find_matched_pair,
}
use minishell.Types.{Token, LexerState, TokenType, no_token, word_token, operator_token}
use minishell.Utils.{char_at, is_char_in_set, is_str_in_set, operator_set, blank_set, quote_set}

module _ (lib : Libft) where
  -- alloc_token: the index of a new entry of AT_TOKENS
  unfoldable pub alloc_token : Ctx lib → Ctx lib × ℕ
  alloc_token c = (record c { tokens = lib.alloc Token c.tokens }, lib.count Token c.tokens)

  -- the token's text in the line
  abbrev pub lex_body : Bytes → LexerState → Bytes
  lex_body line lex = take lex.token.len (drop lex.token.pos line)

  unfoldable pub delimit_lex_token : Ctx lib → LexerState → Ctx lib × LexerState
  unfolding alloc_token
  delimit_lex_token c lex =
      let (c', token_idx) = alloc_token c in
      let token : Token = record {
        offset = lib.offset c.strings;
        type = lex.type;
        flags = record (lex.flags) { is_building = false; at_eoi = false };
      } in
      (
        record c' {
          tokens = lib.set Token c'.tokens token_idx token;
          strings = lib.strlcpy c'.strings (lex_body c.read_line lex);
        },
        record lex { type = no_token; flags = record (lex.flags) { is_building = false } },
      )

  abbrev pub Step : Type 0
  Step = Ctx lib × LexerState × Bool

  abbrev delimit : Ctx lib → LexerState → Step
  delimit c lex = let (c', lex') = delimit_lex_token c lex in (c', lex', true)

  unfoldable pub apply_rule_1 : Ctx lib → LexerState → Step
  apply_rule_1 c lex =
      let lex' = record lex { flags = record (lex.flags) { at_eoi = true } } in
      if lex'.flags.is_building then delimit c lex' else (c, lex', false)

  unfoldable pub apply_rule_2 : Ctx lib → LexerState → Step
  apply_rule_2 c lex =
      if lex.flags.is_building
      then delimit c (grow_lex_token (consume_char lex 1) 1)
      else (c, lex, false)

  unfoldable pub apply_rule_3 : Ctx lib → LexerState → Step
  apply_rule_3 c lex = delimit c lex

  abbrev begin_quote : LexerState → LexerState
  begin_quote lex =
      if lex.flags.is_building then grow_lex_token lex 1 else start_lex_token lex word_token

  unfoldable pub apply_rule_4 : Ctx lib → LexerState → Step
  apply_rule_4 c lex =
      let (lex', paired) =
        find_matched_pair lib c.read_line (begin_quote lex) (char_at c.read_line lex.char_idx) in
      (c, if paired then lex' else consume_char lex' 1, false)

  abbrev begin_expansion : LexerState → ℕ → LexerState
  begin_expansion lex len =
      if not lex.flags.is_building
      then grow_lex_token (start_lex_token lex word_token) (len - 1)
      else grow_lex_token lex len

  unfoldable pub apply_rule_5 : Ctx lib → LexerState → Step
  apply_rule_5 c lex =
      let len = get_expansion_len lib (drop lex.char_idx c.read_line) in
      let lex' = consume_char (begin_expansion lex len) len in
      (c, record lex' { flags = record (lex'.flags) { has_expansion = true } }, false)

  unfoldable pub apply_rule_6 : Ctx lib → LexerState → Step
  apply_rule_6 c lex =
      if lex.flags.is_building
      then delimit c lex
      else (c, consume_char (start_lex_token lex operator_token) 1, false)

  unfoldable pub apply_rule_7 : Ctx lib → LexerState → Step
  apply_rule_7 c lex =
      let lex' = consume_char lex 1 in
      if lex'.flags.is_building then delimit c lex' else (c, lex', false)

  unfoldable pub apply_rule_8 : Ctx lib → LexerState → Step
  apply_rule_8 c lex = (c, consume_char (grow_lex_token lex 1) 1, false)

  -- the loop of rule 9: the bytes before the end of the line
  unfoldable pub comment_len : Bytes → ℕ
  comment_len [] = 0
  comment_len (x ∷ rest) = if x == b'\n' then 0 else 1 + comment_len rest

  unfoldable pub apply_rule_9 : Ctx lib → LexerState → Step
  apply_rule_9 c lex = (c, consume_char lex (comment_len (drop lex.char_idx c.read_line)), false)

  unfoldable pub apply_rule_10 : Ctx lib → LexerState → Step
  apply_rule_10 c lex = (c, consume_char (start_lex_token lex word_token) 1, false)

  abbrev pub is_operator_token : TokenType → Bool
  is_operator_token operator_token = true
  is_operator_token _ = false

  abbrev pub is_word_token : TokenType → Bool
  is_word_token word_token = true
  is_word_token _ = false

  unfoldable pub starts_operator : Bytes → ℕ → Bool
  starts_operator line idx =
      is_char_in_set (char_at line idx) operator_set
      && (not (char_at line idx == b'&') || (char_at line (idx + 1) == b'&'))

  -- the dispatch past rules 1 to 3
  unfoldable pub lex_plain : Ctx lib → LexerState → Step
  unfolding starts_operator
  lex_plain c lex =
      if is_char_in_set (char_at c.read_line lex.char_idx) quote_set
      then apply_rule_4 c lex
      else if is_expansion_start lib c.read_line lex.char_idx
      then apply_rule_5 c lex
      else if starts_operator c.read_line lex.char_idx
      then apply_rule_6 c lex
      else if is_char_in_set (char_at c.read_line lex.char_idx) blank_set
      then apply_rule_7 c lex
      else if is_word_token lex.type
      then apply_rule_8 c lex
      else if char_at c.read_line lex.char_idx == b'#'
      then apply_rule_9 c lex
      else apply_rule_10 c lex

  unfoldable pub lex_token : Ctx lib → LexerState → Step
  lex_token c lex =
      if char_at c.read_line lex.char_idx == 0
      then apply_rule_1 c lex
      else if is_operator_token lex.type
      then (if is_str_in_set lib (drop (lex.char_idx - 1) c.read_line) get_operator_strs
          then apply_rule_2 c lex
          else apply_rule_3 c lex)
      else lex_plain c lex
