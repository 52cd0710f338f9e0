-- ===== src/Parser/Init.antt =====
-- init_parser of srcs/parser/reduce_helpers.c, and runs of the parser from there.
use minishell.Base.{ℕ, ◌≡◌, refl, true, some, List, [], ◌∷◌, ◌++◌, subst, sym, ap}
use minishell.Ctx.{Ctx}
use minishell.Libft.{Libft}
use minishell.Parser.Accepts.{Outcome, shift_reduce-Outcome}
use minishell.Parser.Grammar.{Derives, is_terminal}
use minishell.Parser.ShiftReduce.{Acted, shift_reduce}
use minishell.Parser.Sound.{IsParsing}
use minishell.Parser.Stacked.{empty}
use minishell.Types.{
  SymbolType, Token, Symbol, Node, ParserState, LexerState, zero_token, zero_symbol, zero_node,
  zero_parser, zero_lexer, lalr_shift, lalr_reduce, lalr_accept,
}

-- a parser that is given its next terminal, at the token with this index
abbrev pub look : ParserState → SymbolType → ℕ → ParserState
look parse t idx = record parse { lookahead_type = t; token_idx = idx }

module _ (lib : Libft) where
  unfoldable pub init_parser : Ctx lib → Ctx lib × ParserState × LexerState
  init_parser c = (
    record c {
      strings = lib.clear_strings;
      tokens = lib.clear Token zero_token;
      stack = lib.clear Symbol zero_symbol;
      commands = lib.clear Node zero_node;
    },
    zero_parser,
    zero_lexer,
  )

  pub init_parser-IsParsing :
      (c : Ctx lib) (t : SymbolType) (idx : ℕ)
      → (let (c', parse, lex) = init_parser c in IsParsing lib c' (look parse t idx) [])
  unfolding init_parser
  init_parser-IsParsing c t idx = record {
    symbols = [];
    agrees = record {
      held = ap (λ (s : Symbol). s.entry_state) (lib.get-clear Symbol zero_symbol);
      size = refl;
      count = lib.count-clear Symbol zero_symbol;
    };
    state = refl;
    linked = tt;
    stacked = empty;
  }

  -- Calls of shift_reduce from init_parser on; after a shift the next terminal is whatever comes.
  pub data Run : Ctx lib → ParserState → List SymbolType → Type 0 where
    start :
        (c : Ctx lib) (t : SymbolType) (idx : ℕ)
        → is_terminal t ≡ true
        → Run (init_parser c).0 (look (init_parser c).1 t idx) []
    reduced :
        {c c' : Ctx lib} {p p' : ParserState} {w : List SymbolType}
        → Run c p w
        → shift_reduce lib c p ≡ some (c', p', lalr_reduce)
        → Run c' p' w
    shifted :
        {c c' : Ctx lib} {p p' : ParserState} {w w' : List SymbolType} (t : SymbolType) (idx : ℕ)
        → Run c p w
        → shift_reduce lib c p ≡ some (c', p', lalr_shift)
        → is_terminal t ≡ true
        → w' ≡ w ++ p.lookahead_type ∷ []
        → Run c' (look p' t idx) w'

  abbrev InRun : Ctx lib → ParserState → List SymbolType → Type 0
  InRun c p w = IsParsing lib c p w × (is_terminal p.lookahead_type ≡ true)

  -- the outcome of a call whose result is known
  known-Outcome :
      (c : Ctx lib) (p : ParserState) (w : List SymbolType) (r : Acted lib)
      → InRun c p w
      → shift_reduce lib c p ≡ some r
      → Outcome lib c p w r.0 r.1 r.2
  known-Outcome c p w r (i, t) e =
      let (s, e', o) = shift_reduce-Outcome lib c p w i t in
      let same : s ≡ r = cc (e', e) in
      subst (λ (q : Acted lib). Outcome lib c p w q.0 q.1 q.2) same o

  look-IsParsing :
      (c : Ctx lib) (p : ParserState) (w : List SymbolType) (t : SymbolType) (idx : ℕ)
      → IsParsing lib c p w
      → IsParsing lib c (look p t idx) w
  look-IsParsing c p w t idx i = record {
    symbols = i.symbols;
    agrees = record { held = i.agrees.held; size = i.agrees.size; count = i.agrees.count };
    state = i.state;
    linked = i.linked;
    stacked = i.stacked;
  }

  Run-InRun : {c : Ctx lib} {p : ParserState} {w : List SymbolType} → Run c p w → InRun c p w
  Run-InRun (start c t idx h) = (init_parser-IsParsing c t idx, h)
  Run-InRun (reduced {c} {c'} {p} {p'} {w} r e) =
      let i = Run-InRun r in
      let (parsing, same, _) = known-Outcome c p w (c', p', lalr_reduce) i e in
      (parsing, subst (λ t. is_terminal t ≡ true) (sym same) i.1)
  Run-InRun (shifted {c} {c'} {p} {p'} {w} {w'} t idx r e h same_w) =
      let (parsing, _, _) = known-Outcome c p w (c', p', lalr_shift) (Run-InRun r) e in
      (look-IsParsing c' p' w' t idx (subst (IsParsing lib c' p') (sym same_w) parsing), h)

  -- In a run shift_reduce stays inside its tables and above the bottom of its stack. Where it
  -- accepts, the input ends there, and the grammar derives what was read from `program`.
  pub Run-shift_reduce :
      {c : Ctx lib} {p : ParserState} {w : List SymbolType}
      → Run c p w
      → (r : Acted lib) × (shift_reduce lib c p ≡ some r)
        × (r.2 ≡ lalr_accept → (p.lookahead_type ≡ SymbolType.eof) × Derives SymbolType.program w)
  Run-shift_reduce {c} {p} {w} run =
      let (i, t) = Run-InRun run in
      let (r, e, o) = shift_reduce-Outcome lib c p w i t in
      (r, e, λ act. subst (Outcome lib c p w r.0 r.1) act o)
