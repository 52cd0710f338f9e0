-- ===== src/HereDoc/Body.antt =====
-- The loop of get_here_doc (srcs/lexer/here_body_read.c) over the lines that follow.
use minishell.Base.{
  ℕ, zero, suc, ◌+◌, ◌<◌, ◌≡◌, refl, sym, ap, ◌∙◌, Bool, true, false, Option, some, List, [], ◌∷◌,
  ◌++◌, Bytes, ltb, if◌then◌else◌, length, length-append, has_byte, bytes_eq, eq_of_bytes_eq, arith,
  Bool-cases, inl, inr,
}
use mathlib.Core.List.{append-nil, append_assoc}
use minishell.Ctx.{Ctx}
use minishell.HereDoc.Expand.{ended}
use minishell.HereDoc.Read.{next_reading, line_of, here_loop, read_result}
use minishell.Lexer.Scan.{consume_char}
use minishell.Libft.{Libft}
use minishell.Types.{Reading, line_read, LexerState, Node, zero_lexer}
use minishell.HereDoc.Lines.{
  NoNewline, readings, is_line, here_text, line_text, write_here_line-ended, fetch_line-read,
  here_line_ends-ended, read_result_stop,
}

module _ (lib : Libft) where
  module _ (here_end : Bytes) (node : Node) (tail : List Reading) where
    abbrev text_of : Ctx lib → List Bytes → Bytes × List Bytes × Bool
    text_of c ss = here_text lib c.vals c.return_status node.flags.redir_has_quotes here_end ss

    -- What is left of the input where the lines end, and where the delimiter is found.
    abbrev pub left_input : Bool → List Bytes → List Reading
    left_input found rest = if found then readings rest tail else (next_reading tail).1

    -- The loop has ended: the text is written, only the line and the input are changed, and the
    -- lexer stands behind the delimiter's line, or at the end of the input.
    abbrev pub Ended : Ctx lib → List Bytes → Bytes → Option (Ctx lib × LexerState × Bytes) → Type 0
    Ended c ss written o =
        let (text, rest, found) = text_of c ss in
        (line : Bytes) × (lex : LexerState) × (o
          ≡ some
              (record c { read_line = line; input = left_input found rest }, lex, written ++ text))
        × (found ≡ true → (lex.char_idx ≡ length line) × (lex.flags.at_eoi ≡ false))
        × (found ≡ false → lex.flags.at_eoi ≡ true)

    behind :
        (s : Bytes)
        → ((consume_char zero_lexer (length s + 1)).char_idx ≡ length (ended s))
          × ((consume_char zero_lexer (length s + 1)).flags.at_eoi ≡ false)
    unfolding consume_char
    behind s = (omega (arith, length-append s (b'\n' ∷ [])), refl)

    here_loop-end :
        (fuel : ℕ) (c : Ctx lib) (lex : LexerState) (written : Bytes)
        → lex.char_idx ≡ length c.read_line
        → c.input ≡ tail
        → is_line (next_reading tail).0 ≡ false
        → Ended c [] written (here_loop lib (suc fuel) true here_end node c lex written)
    unfolding here_loop
    here_loop-end fuel c lex written at e stop =
        let over : ltb (length c.read_line) lex.char_idx ≡ false = ground arith in
        let (r, rest) = next_reading tail in
        let fetched = fetch_line-read lib c lex r rest at (ap next_reading e) in
        let (last, at_eoi) = read_result_stop lib lex r stop in
        (
          line_of r,
          (read_result lib lex r).0,
          rw (over, fetched, last, append-nil written) refl,
          λ h. cc,
          λ _. at_eoi,
        )

    here_loop-line :
        (fuel : ℕ) (c : Ctx lib) (lex : LexerState) (s : Bytes) (input : List Reading)
        (written : Bytes)
        → has_byte s b'\n' ≡ false
        → has_byte here_end b'\n' ≡ false
        → lex.char_idx ≡ length c.read_line
        → c.input ≡ line_read (ended s) ∷ input
        → here_loop lib (suc fuel) true here_end node c lex written ≡ (
            let c' : Ctx lib = record c { read_line = ended s; input = input } in
            if bytes_eq s here_end
            then some (c', consume_char zero_lexer (length here_end + 1), written)
            else here_loop lib fuel true here_end node c'
                (consume_char zero_lexer (length s + 1))
                (written ++ line_text lib c.vals c.return_status node.flags.redir_has_quotes s))
    unfolding here_loop
    here_loop-line fuel c lex s input written hs he at e =
        let over : ltb (length c.read_line) lex.char_idx ≡ false = ground arith in
        let c' : Ctx lib = record c { read_line = ended s; input = input } in
        let fetched =
          fetch_line-read lib c lex (line_read (ended s)) input at (ap next_reading e) in
        let ends = here_line_ends-ended lib (record c { input = input }) s here_end hs he in
        let write = write_here_line-ended lib c' node s hs refl in
        elim (Bool-cases (bytes_eq s here_end)) [
          | inl b ↦ rw (over, fetched, ends, b) refl
          | inr b ↦ rw (over, fetched, ends, b, write) refl
        ]

    -- From the end of a line, and with more fuel than there are lines to come, the loop writes the
    -- text of the lines before the delimiter's, replaces their variables where the delimiter has no
    -- quotes, and leaves the lines behind it unread; without the delimiter it reads to the end of
    -- the input. It ends in either case, and of the context only the line and the input change.
    pub here_loop-Ended :
        (ss : List Bytes) (fuel : ℕ) (c : Ctx lib) (lex : LexerState) (written : Bytes)
        → NoNewline ss
        → has_byte here_end b'\n' ≡ false
        → lex.char_idx ≡ length c.read_line
        → c.input ≡ readings ss tail
        → is_line (next_reading tail).0 ≡ false
        → length ss < fuel
        → Ended c ss written (here_loop lib fuel true here_end node c lex written)
    here_loop-Ended [] zero c lex written hs he at e stop f = absurd (omega arith)
    here_loop-Ended (s ∷ ss) zero c lex written hs he at e stop f = absurd (omega arith)
    here_loop-Ended [] (suc fuel) c lex written hs he at e stop f =
        here_loop-end fuel c lex written at e stop
    here_loop-Ended (s ∷ ss) (suc fuel) c lex written hs he at e stop f =
        let c' : Ctx lib = record c { read_line = ended s; input = readings ss tail } in
        let line = here_loop-line fuel c lex s (readings ss tail) written hs.0 he at e in
        let next = consume_char zero_lexer (length s + 1) in
        let text = line_text lib c.vals c.return_status node.flags.redir_has_quotes s in
        let size = length-append s (b'\n' ∷ []) in
        elim (Bool-cases (bytes_eq s here_end)) [
          | inl b ↦
              let same = eq_of_bytes_eq s here_end b in
              let next_end = consume_char zero_lexer (length here_end + 1) in
              rw b (
                ended s,
                next_end,
                (rw b at line) ∙ ap (λ w. some (c', next_end, w)) (sym (append-nil written)),
                λ _. (
                  (behind here_end).0 ∙ ap (λ t. length (ended t)) (sym same),
                  (behind here_end).1,
                ),
                λ g. cc,
              )
          | inr b ↦
              let (l, x, r, found, missing) =
                here_loop-Ended ss fuel c' next (written ++ text) hs.1 he (behind s).0 refl stop
                  (omega arith) in
              let (rest_text, rest, is_found) = text_of c ss in
              rw b (
                l,
                x,
                (rw b at line)
                    ∙ r
                    ∙ ap
                        (λ w.
                          some (record c { read_line = l; input = left_input is_found rest }, x, w))
                        (append_assoc written text rest_text),
                found,
                missing,
              )
        ]
