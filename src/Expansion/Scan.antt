-- ===== src/Expansion/Scan.antt =====
-- The scan of a word: expand_helpers.c, expand_var.c and expand_quote.c of srcs/expansions. A
-- pointer into the word is the text from there on.
use minishell.Base.{
  ℕ, zero, suc, ◌+◌, ◌-◌, Bool, true, false, not, ◌&&◌, ◌||◌, Option, none, some, [], ◌∷◌, Bytes,
  ◌==◌, ltb, if◌then◌else◌, length, take, drop, has_byte, pos,
}
use minishell.Environment.Defs.{Env}
use minishell.Expansion.Fields.{FieldArena, Expanding, append_field, delimit_field}
use minishell.Lexer.Scan.{is_expansion_start, get_expansion_len}
use minishell.Libft.{Libft}
use minishell.Types.{Slice}
use minishell.Utils.{char_at, is_char_in_set, ifs, strn_eq}

-- a loop over the text up to its end or the stop
abbrev pub run : (Bytes → Bool) → Bytes → ℕ
run stop [] = 0
run stop (x ∷ s) = if stop (x ∷ s) then 0 else suc (run stop s)

unfoldable pub get_ifs_end_idx : Bytes → ℕ → ℕ
get_ifs_end_idx s i =
    i + run (λ t. char_at t 0 == 0 || not (is_char_in_set (char_at t 0) ifs)) (drop i s)

-- fields->buf[i] = '\0'
abbrev pub put_nul : Bytes → ℕ → Bytes
put_nul [] i = []
put_nul (x ∷ s) zero = 0 ∷ s
put_nul (x ∷ s) (suc i) = x ∷ put_nul s i

unfoldable pub delimit_segment : Expanding → ℕ → Expanding × ℕ
unfolding delimit_field get_ifs_end_idx
delimit_segment e i =
    let ended = record e { fields = put_nul e.fields i } in
    let field : Slice = record { pos = e.exp.field.pos; len = i - e.exp.field.pos } in
    let e' =
      if ltb e.exp.field.pos i
      then delimit_field (record ended { exp = record (e.exp) { field = field } })
      else record ended {
        exp = record (e.exp) { flags = record (e.exp.flags) { has_field = false } };
      } in
    let next = get_ifs_end_idx e'.fields (i + 1) in
    (
      record e' { exp = record (e'.exp) { field = record { pos = next; len = e'.exp.field.len } } },
      next,
    )

-- The loop of append_segment; each round moves on, so that as many rounds as the value has bytes
-- are enough.
unfoldable pub segment_loop : ℕ → Expanding → Bytes → ℕ → ℕ → Expanding
unfolding delimit_segment
segment_loop zero e val span i = e
segment_loop (suc fuel) e val span i =
    let (split, next) = delimit_segment e i in
    let behind = segment_loop fuel split val span next in
    let grown = record e {
      exp = record (e.exp) { flags = record (e.exp.flags) { has_field = true } };
    } in
    let on = segment_loop fuel grown val span (i + 1) in
    if ltb i (span + length val)
    then (if is_char_in_set (char_at val (i - span)) ifs then behind else on)
    else e

-- the word has its closing quote
unfoldable pub has_closing_quote : Bytes → Bool
has_closing_quote [] = false
has_closing_quote (quote ∷ word) = (quote == b'\'' || quote == b'"') && has_byte word quote

module _ (arena : FieldArena) where
  unfoldable pub append_segment : Expanding → Bytes → Expanding
  unfolding append_field segment_loop
  append_segment e val =
      let vlen = length val in
      let appended = append_field arena e val vlen in
      let span = appended.exp.field.pos + appended.exp.field.len - vlen in
      if vlen == 0 then e else segment_loop vlen appended val span span

  unfoldable pub arena_itoa_cat : Expanding → ℕ → Expanding
  unfolding append_field
  arena_itoa_cat e status =
      let started = if e.exp.flags.has_field then e else append_field arena e [] 0 in
      let offset = length started.fields - 1 in
      let printed = arena.itoa (take offset started.fields) (pos status) in
      record started {
        fields = printed;
        exp = record {
          field = record {
            pos = started.exp.field.pos;
            len = started.exp.field.len + (length printed - offset - 1);
          };
          flags = record (started.exp.flags) { has_field = true };
        };
      }

  unfoldable pub open_quote : Expanding → ℕ → Expanding
  unfolding append_field
  open_quote e quote =
      let started = if e.exp.flags.has_field then e else append_field arena e [] 0 in
      let flags = started.exp.flags in
      record started {
        exp = record (started.exp) {
          flags =
              if quote == b'\''
              then record flags { in_squote = true }
              else record flags { in_dquote = true };
        };
      }

  abbrev pub is_squote : Bytes → Bool
  is_squote s = char_at s 0 == b'\''

  unfoldable pub handle_squote : Expanding → Bytes → Expanding × Bytes
  unfolding append_field
  handle_squote e src =
      let i = run is_squote src in
      let closed = record e {
        exp = record (e.exp) { flags = record (e.exp.flags) { in_squote = false } };
      } in
      if is_squote src then (closed, drop 1 src) else (append_field arena e src i, drop i src)

  module _ (lib : Libft) (vals : Env) (return_status : ℕ) where
    unfoldable pub get_env_from_slice : Env → Bytes → ℕ → Option Bytes
    get_env_from_slice [] key len = none
    get_env_from_slice (node ∷ rest) key len =
        if strn_eq lib node.key key len && char_at node.key len == 0
        then node.val
        else get_env_from_slice rest key len

    abbrev pub append_value : Expanding → Option Bytes → Expanding
    append_value e none = e
    append_value e (some ref) =
        if e.exp.flags.in_dquote
        then append_field arena e ref (length ref)
        else append_segment e ref

    unfoldable pub expand_var : Expanding → Bytes → Expanding × Bytes
    unfolding get_env_from_slice arena_itoa_cat
    expand_var e src =
        let len = get_expansion_len lib src in
        (
          if len == 2 && char_at src 1 == b'?'
              then arena_itoa_cat e return_status
              else append_value e (get_env_from_slice vals (drop 1 src) (len - 1)),
          drop len src,
        )

    abbrev pub dquote_stop : Bytes → Bool
    dquote_stop s = char_at s 0 == b'"' || is_expansion_start lib s 0

    unfoldable pub handle_dquote : Expanding → Bytes → Expanding × Bytes
    unfolding append_field expand_var
    handle_dquote e src =
        let i = run dquote_stop src in
        let closed = record e {
          exp = record (e.exp) { flags = record (e.exp.flags) { in_dquote = false } };
        } in
        if char_at src 0 == b'"'
        then (closed, drop 1 src)
        else if is_expansion_start lib src 0
        then expand_var e src
        else (append_field arena e src i, drop i src)

    abbrev pub unquoted_stop : Bytes → Bool
    unquoted_stop s = has_closing_quote s || is_expansion_start lib s 0

    unfoldable pub handle_unquoted : Expanding → Bytes → Expanding × Bytes
    unfolding append_field expand_var open_quote
    handle_unquoted e src =
        let i = run unquoted_stop src in
        if has_closing_quote src
        then (open_quote e (char_at src 0), drop 1 src)
        else if is_expansion_start lib src 0
        then expand_var e src
        else (append_field arena e src i, drop i src)

    -- one round of the loop of scan_word
    unfoldable pub scan_round : Expanding → Bytes → Expanding × Bytes
    unfolding handle_squote handle_dquote handle_unquoted
    scan_round e src =
        if e.exp.flags.in_squote
        then handle_squote e src
        else if e.exp.flags.in_dquote
        then handle_dquote e src
        else handle_unquoted e src

    -- `none` is the end of the fuel
    unfoldable pub scan_loop : ℕ → Expanding → Bytes → Option Expanding
    unfolding scan_round
    scan_loop fuel e [] = some e
    scan_loop zero e (x ∷ src) = none
    scan_loop (suc fuel) e (x ∷ src) =
        let (e', rest) = scan_round e (x ∷ src) in scan_loop fuel e' rest

    -- what scan_word does behind the loop
    abbrev pub last_field : Option Expanding → Option Expanding
    last_field none = none
    last_field (some e) = some (if e.exp.flags.has_field then delimit_field e else e)

    unfoldable pub scan_word : ℕ → Expanding → Bytes → Option Expanding
    unfolding scan_loop
    scan_word fuel e word = last_field (scan_loop fuel e word)
