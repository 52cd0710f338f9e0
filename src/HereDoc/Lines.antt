-- ===== src/HereDoc/Lines.antt =====
-- One line of a here-document: how it is fetched, compared with the delimiter and written
-- (srcs/lexer/here_read_line.c, here_write_line.c).
use minishell.Base.{
  ℕ, zero, suc, ◌+◌, ◌≡◌, refl, ap, ◌∙◌, subst, Bool, true, false, ◌&&◌, List, [], ◌∷◌, ◌++◌, Bytes,
  ◌==◌, if◌then◌else◌, length, length-append, take, drop, has_byte, bytes_eq, eq_of_bytes_eq,
  bytes_eq_self, arith, ==_iff, eq_ℕ_zero, Bool_eq_of_iff, take-append, take_all, and-eq-true,
}
use minishell.Ctx.{Ctx}
use minishell.Environment.Defs.{Env}
use minishell.Environment.Exported.{word_len-append}
use minishell.HereDoc.Expand.{ended, memory_within, expand_here_line-expanded}
use minishell.HereDoc.Read.{
  next_reading, line_of, get_user_input, read_here_line, is_delim_line, here_line_ends, fetch_line,
  read_result,
}
use minishell.HereDoc.Write.{memory, expanded, write_here_line}
use minishell.Lexer.Scan.{consume_char}
use minishell.Libft.{Libft}
use minishell.Types.{
  Reading, line_read, input_ended, input_interrupted, LexerState, Node, zero_lexer,
}
use minishell.Utils.{char_at, strn_eq}

abbrev pub NoNewline : List Bytes → Type 0
NoNewline [] = Unit
NoNewline (s ∷ ss) = (has_byte s b'\n' ≡ false) × NoNewline ss

-- the reads that give these lines, and those behind
abbrev pub readings : List Bytes → List Reading → List Reading
readings [] tail = tail
readings (s ∷ ss) tail = line_read (ended s) ∷ readings ss tail

abbrev pub is_line : Reading → Bool
is_line (line_read line) = true
is_line input_ended = false
is_line input_interrupted = false

char_at_end : (s : Bytes) (i : ℕ) → i ≡ length s → char_at s i ≡ 0
char_at_end [] i h = refl
char_at_end (x ∷ s) zero h = absurd (omega arith)
char_at_end (x ∷ s) (suc i) h = char_at_end s i (omega arith)

delim_only :
    (s e : Bytes)
    → has_byte s b'\n' ≡ false
    → has_byte e b'\n' ≡ false
    → take (length e) (ended s) ≡ e
    → char_at (ended s) (length e) ≡ b'\n'
    → s ≡ e
delim_only [] [] hs he t a = refl
delim_only [] (y ∷ e) hs he t a = ground (arith, ap (λ l. char_at l 0) t)
delim_only (x ∷ s) [] hs he t a = ground arith
delim_only (x ∷ s) (y ∷ e) hs he t a =
    let tails = ap (drop 1) t in ground (arith, ap (λ l. char_at l 0) t, delim_only s e)

char_at-delim : (s : Bytes) → char_at (ended s) (length s) ≡ b'\n'
char_at-delim [] = refl
char_at-delim (x ∷ s) = char_at-delim s

module _ (lib : Libft) where
  delim_line_self :
      (s : Bytes)
      → (strn_eq lib (ended s) s (length s) && char_at (ended s) (length s) == b'\n') ≡ true
  delim_line_self s =
      let prefix = lib.strncmp_prefix (ended s) s (length s) (omega arith) in
      let zero_iff = eq_ℕ_zero (lib.strncmp (ended s) s (length s)) in
      let same : strn_eq lib (ended s) s (length s) ≡ true =
        zero_iff.1 (prefix.1 (take-append s (b'\n' ∷ []) (length s) (omega arith))) in
      rw (same, char_at-delim s) refl

  -- The delimiter's line is the delimiter and a newline.
  delim_line-bytes_eq :
      (s e : Bytes)
      → has_byte s b'\n' ≡ false
      → has_byte e b'\n' ≡ false
      → (strn_eq lib (ended s) e (length e) && char_at (ended s) (length e) == b'\n') ≡ bytes_eq s e
  delim_line-bytes_eq s e hs he =
      let prefix = lib.strncmp_prefix (ended s) e (length e) (omega arith) in
      let zero_iff = eq_ℕ_zero (lib.strncmp (ended s) e (length e)) in
      let whole = take_all e (length e) (omega arith) in
      Bool_eq_of_iff _ (bytes_eq s e)
        (λ h.
          let (p, q) = and-eq-true (strn_eq lib (ended s) e (length e)) _ h in
          subst (λ x. bytes_eq s x ≡ true)
            (delim_only s e hs he (prefix.0 (zero_iff.0 p) ∙ whole) ((==_iff _ _).0 q))
            (bytes_eq_self s))
        (λ h.
          subst
            (λ x.
              (strn_eq lib (ended s) x (length x) && char_at (ended s) (length x) == b'\n') ≡ true)
            (eq_of_bytes_eq s e h) (delim_line_self s))

  -- the text of one line
  abbrev pub line_text : Env → ℕ → Bool → Bytes → Bytes
  line_text vals status quoted s = if quoted then ended s else expanded lib vals status (ended s) 0

  -- The text before the delimiter's line, the lines behind it, and whether it is there.
  abbrev pub here_text : Env → ℕ → Bool → Bytes → List Bytes → Bytes × List Bytes × Bool
  here_text vals status quoted here_end [] = ([], [], false)
  here_text vals status quoted here_end (s ∷ ss) =
      let (text, rest, found) = here_text vals status quoted here_end ss in
      if bytes_eq s here_end
      then ([], ss, true)
      else (line_text vals status quoted s ++ text, rest, found)

  pub write_here_line-ended :
      (c : Ctx lib) (node : Node) (s : Bytes)
      → has_byte s b'\n' ≡ false
      → c.read_line ≡ ended s
      → write_here_line lib c zero_lexer node ≡ (
        line_text c.vals c.return_status node.flags.redir_has_quotes s,
        consume_char zero_lexer (length s + 1),
      )
  unfolding write_here_line
  write_here_line-ended c node s h e =
      let len = word_len-append s [] b'\n' h in
      let size = length-append s (b'\n' ∷ []) in
      let whole : memory (ended s) 0 (length s + 1) ≡ ended s =
        memory_within (ended s) 0 (length s + 1) (omega (arith, size))
        ∙ take_all (ended s) (length s + 1) (omega (arith, size)) in
      rw (e, len, whole, expand_here_line-expanded lib c.vals c.return_status s) refl

  pub fetch_line-read :
      (c : Ctx lib) (lex : LexerState) (r : Reading) (rest : List Reading)
      → lex.char_idx ≡ length c.read_line
      → next_reading c.input ≡ (r, rest)
      → fetch_line lib c lex ≡ (
        record c { read_line = line_of r; input = rest },
        (read_result lib lex r).0,
        (read_result lib lex r).1,
      )
  unfolding fetch_line read_here_line get_user_input
  fetch_line-read c lex r rest at e =
      let z = char_at_end c.read_line lex.char_idx at in rw (z, e) refl

  pub here_line_ends-ended :
      (c : Ctx lib) (s here_end : Bytes)
      → has_byte s b'\n' ≡ false
      → has_byte here_end b'\n' ≡ false
      → here_line_ends lib (record c { read_line = ended s }) zero_lexer here_end ≡ (
          if bytes_eq s here_end
          then (consume_char zero_lexer (length here_end + 1), true)
          else (zero_lexer, false))
  unfolding here_line_ends is_delim_line
  here_line_ends-ended c s here_end hs he = rw (delim_line-bytes_eq s here_end hs he) refl

  pub read_result_stop :
      (lex : LexerState) (r : Reading)
      → is_line r ≡ false
      → ((read_result lib lex r).1 ≡ false) × ((read_result lib lex r).0.flags.at_eoi ≡ true)
  read_result_stop lex (line_read line) h = cc
  read_result_stop lex input_ended h = (refl, refl)
  read_result_stop lex input_interrupted h = (refl, refl)
