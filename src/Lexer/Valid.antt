-- ===== src/Lexer/Valid.antt =====
-- The lexer state over a line: what holds between two calls of lex_token.
use minishell.Base.{
  ℕ, zero, suc, ◌+◌, ◌-◌, ◌*◌, ◌≤◌, ◌<◌, ◌≡◌, ◌≢◌, ◌⊎◌, refl, Bool, true, false, [], ◌∷◌, Bytes,
  ◌==◌, if◌then◌else◌, drop, length, arith, length-drop,
}
use minishell.Libft.{Libft}
use minishell.Lexer.Scan.{
  consume_char, grow_lex_token, is_expansion_start, name_len, get_expansion_len, mark_expansion,
  pair_loop, find_matched_pair, matching_close, save_lex_token_slice, restore_lex_token_slice,
}
use minishell.Types.{LexerState, no_token, word_token, operator_token}
use minishell.Utils.{char_at, is_char_in_set, is_name_start}

-- The position is in the line; a token in the making has a type and is the text that ends there.
pub record IsValid (line : Bytes) (lex : LexerState) : Type 0 where
  pub in_line : lex.char_idx ≤ length line
  pub idle : lex.flags.is_building ≡ false → lex.type ≡ no_token
  pub active : lex.flags.is_building ≡ true → (lex.type ≡ word_token) ⊎ (lex.type ≡ operator_token)
  pub spans : lex.flags.is_building ≡ true → lex.token.pos + lex.token.len ≡ lex.char_idx
  pub nonempty : lex.flags.is_building ≡ true → 0 < lex.token.len
  pub operator_one : lex.type ≡ operator_token → lex.token.len ≡ 1

-- Twice the bytes left, and one for a token in the making.
abbrev pub measure : Bytes → LexerState → ℕ
measure line lex = 2 * (length line - lex.char_idx) + (if lex.flags.is_building then 1 else 0)

pub lt-length_of_char_at : (line : Bytes) (i : ℕ) → char_at line i ≢ 0 → i < length line
lt-length_of_char_at [] i h = absurd (h refl)
lt-length_of_char_at (c ∷ line) zero h = omega arith
lt-length_of_char_at (c ∷ line) (suc i) h = omega (arith, lt-length_of_char_at line i h)

pub char_at-drop : (line : Bytes) (i j : ℕ) → char_at (drop i line) j ≡ char_at line (i + j)
char_at-drop line zero j = let e : 0 + j ≡ j = omega arith in rw e
char_at-drop [] (suc i) j = refl
char_at-drop (c ∷ line) (suc i) j =
    let e : suc i + j ≡ suc (i + j) = omega arith in rw e (char_at-drop line i j)

module _ (lib : Libft) where
  name_len-le : (rest : Bytes) → name_len lib rest ≤ length rest
  unfolding name_len
  name_len-le [] = omega arith
  name_len-le (c ∷ rest) = ground (arith, name_len-le rest)

  -- Where an expansion starts, it is at least a dollar and one more byte, and lies in the line.
  pub get_expansion_len_bounds :
      (line : Bytes) (i : ℕ)
      → is_expansion_start lib line i ≡ true
      → (2 ≤ get_expansion_len lib (drop i line))
        × (i + get_expansion_len lib (drop i line) ≤ length line)
  unfolding is_expansion_start get_expansion_len is_name_start is_char_in_set
  get_expansion_len_bounds line i h = ground (
    arith,
    lib.isalpha-nul,
    lt-length_of_char_at line (i + 1),
    char_at-drop line i 1,
    name_len-le (drop 2 (drop i line)),
    length-drop 2 (drop i line),
    length-drop i line,
  )

-- What the loop for a quoted part keeps: it moves on by what it adds to the token.
record Moved (line : Bytes) (lex lex' : LexerState) : Type 0 where
  pub forward : lex.char_idx ≤ lex'.char_idx
  pub in_line : lex'.char_idx ≤ length line
  pub same_pos : lex'.token.pos ≡ lex.token.pos
  pub same_type : lex'.type ≡ lex.type
  pub same_building : lex'.flags.is_building ≡ lex.flags.is_building
  pub grown : lex.char_idx + lex'.token.len ≡ lex'.char_idx + lex.token.len
  pub same_eoi : lex'.flags.at_eoi ≡ lex.flags.at_eoi

module _ (lib : Libft) where
  pair_loop-Moved :
      (line : Bytes) (close : ℕ) (dq : Bool) (rest : Bytes) (lex : LexerState)
      → lex.char_idx + length rest ≤ length line
      → Moved line lex (pair_loop lib line close dq rest lex)
  unfolding pair_loop mark_expansion consume_char grow_lex_token
  pair_loop-Moved line close dq [] lex h = ground arith
  pair_loop-Moved line close dq (c ∷ rest) lex h =
      let next = consume_char (grow_lex_token (mark_expansion lib line dq lex) 1) 1 in
      ground (arith, pair_loop-Moved line close dq rest next)

  -- What rule 4 makes of a quote at the position: the quoted part, or the quote alone.
  abbrev pub quoted : Bytes → LexerState → ℕ → LexerState
  quoted line lex open_char =
      let (lex', paired) = find_matched_pair lib line lex open_char in
      if paired then lex' else consume_char lex' 1

  pub record Quoted (line : Bytes) (lex lex' : LexerState) : Type 0 where
    pub forward : lex.char_idx < lex'.char_idx
    pub in_line : lex'.char_idx ≤ length line
    pub same_pos : lex'.token.pos ≡ lex.token.pos
    pub same_type : lex'.type ≡ lex.type
    pub same_building : lex'.flags.is_building ≡ lex.flags.is_building
    pub grown : lex.char_idx + 1 + lex'.token.len ≡ lex'.char_idx + lex.token.len
    pub same_eoi : lex'.flags.at_eoi ≡ lex.flags.at_eoi

  pub quoted-Quoted :
      (line : Bytes) (lex : LexerState) (open_char : ℕ)
      → lex.char_idx < length line
      → Quoted line lex (quoted line lex open_char)
  unfolding find_matched_pair consume_char grow_lex_token save_lex_token_slice
      restore_lex_token_slice
  quoted-Quoted line lex open_char h =
      let started = consume_char lex 1 in
      let moved =
        pair_loop-Moved line (matching_close open_char) (open_char == b'"')
          (drop started.char_idx line) started
          (ground (arith, length-drop started.char_idx line)) in
      ground (
        arith,
        lt-length_of_char_at line
            (pair_loop lib line (matching_close open_char) (open_char == b'"')
              (drop started.char_idx line) started).char_idx,
      )
