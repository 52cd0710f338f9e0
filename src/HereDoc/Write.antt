-- ===== src/HereDoc/Write.antt =====
-- What is written for a line of a here-document: srcs/lexer/here_write_line.c. Writes and
-- allocation are taken to succeed. The bytes of a C string are followed by a NUL.
use minishell.Base.{
  ℕ, zero, suc, ◌+◌, ◌-◌, Option, none, some, [], ◌∷◌, ◌++◌, Bytes, ◌==◌, ltb, if◌then◌else◌, take,
  drop, pos,
}
use minishell.Ctx.{Ctx}
use minishell.Environment.Defs.{Env, env_get, word_len}
use minishell.Lexer.Scan.{is_expansion_start, get_expansion_len, consume_char}
use minishell.Libft.{Libft}
use minishell.Types.{Node, LexerState}
use minishell.Utils.{char_at}

-- `len` bytes of memory from `start` on
abbrev pub memory : Bytes → ℕ → ℕ → Bytes
memory line start len = take len (drop start (line ++ (0 ∷ [])))

abbrev pub value_bytes : Option Bytes → Bytes
value_bytes none = []
value_bytes (some val) = val

module _ (lib : Libft) (vals : Env) (return_status : ℕ) where
  unfoldable pub get_expansion_value : Bytes → Option Bytes
  get_expansion_value name =
      if char_at name 0 == b'?' then some (lib.itoa (pos return_status)) else env_get lib vals name

  -- what expand_here_var writes for the expansion at `i`
  unfoldable pub expand_here_var : Bytes → ℕ → Bytes
  unfolding get_expansion_value
  expand_here_var line i =
      let len = get_expansion_len lib (drop i line) in
      value_bytes (get_expansion_value (lib.substr (drop (i + 1) line) 0 (len - 1)))

  -- The loop of expand_here_line, and the write behind it; each round moves on, so that `len` rounds
  -- are enough.
  unfoldable pub expand_loop : ℕ → Bytes → ℕ → ℕ → ℕ → Bytes
  unfolding expand_here_var
  expand_loop zero line len i start = memory line start (len - start + 1)
  expand_loop (suc fuel) line len i start =
      let behind = i + get_expansion_len lib (drop i line) in
      let expanded =
        memory line start (i - start)
        ++ (expand_here_var line i ++ expand_loop fuel line len behind behind) in
      let further = expand_loop fuel line len (i + 1) start in
      if ltb i len
      then (if is_expansion_start lib line i then expanded else further)
      else memory line start (len - start + 1)

  unfoldable pub expand_here_line : Bytes → ℕ → Bytes
  unfolding expand_loop
  expand_here_line line len = expand_loop len line len 0 0

  -- The text with its variables replaced: `skip` bytes still belong to an expansion.
  unfoldable pub expanded : Bytes → ℕ → Bytes
  expanded [] skip = []
  expanded (x ∷ rest) (suc skip) = expanded rest skip
  expanded (x ∷ rest) zero =
      let text = x ∷ rest in
      let behind = expanded rest (get_expansion_len lib text - 1) in
      let plain = x ∷ expanded rest 0 in
      if is_expansion_start lib text 0
      then value_bytes (get_expansion_value (take (get_expansion_len lib text - 1) rest)) ++ behind
      else plain

module _ (lib : Libft) where
  -- what is written, and the lexer behind the line
  unfoldable pub write_here_line : Ctx lib → LexerState → Node → Bytes × LexerState
  unfolding expand_here_line
  write_here_line c lex node =
      let line = drop lex.char_idx c.read_line in
      let len = word_len line b'\n' in
      (
        if node.flags.redir_has_quotes
            then memory line 0 (len + 1)
            else expand_here_line lib c.vals c.return_status line len,
        consume_char lex (len + 1),
      )
