-- ===== src/Parser/Accepts.antt =====
-- The outcome of shift_reduce on every branch, and of whole runs of it.
use minishell.Base.{
  Bool, not, ◌||◌, ◌&&◌, ℕ, zero, suc, ◌<◌, ◌≡◌, ◌≢◌, refl, sym, ap, ◌∙◌, true, false, Option, none,
  some, ◌>>=◌, List, [], ◌∷◌, ◌++◌, arith, and-eq-true, Bool-cases, inl, inr, subst, ◌==◌, ==_iff,
  get_elem?, length,
}
use minishell.Ctx.{Ctx}
use minishell.Libft.{Libft}
use minishell.Parser.Action.{Action, shift_to, reduce_by, get_action, yyfinal}
use minishell.Parser.Automaton.{linked, linked-lt, accessing, predecessors, has_state}
use minishell.Parser.Check.{action_fits, rule_fits, get_action_fits}
use minishell.Parser.Dispatch.{get_rule}
use minishell.Parser.Grammar.{Derives, leaf, productions, is_terminal}
use minishell.Parser.Holds.{Holds, Agrees, push_symbol-Agrees}
use minishell.Parser.Keeps.{reduce_compute_result-Keeps}
use minishell.Parser.Potential.{action_drops, get_action_drops}
use minishell.Parser.ShiftReduce.{
  Acted, reduce_compute_result, result_token, get_exec_root, reduce, reduce_or_error, shift,
  perform, shift_reduce,
}
use minishell.Parser.Sound.{
  IsParsing, Applies, potential, potential-weigh, rule_fits-Applies, replace_rhs-IsParsing,
}
use minishell.Parser.Stack.{push_symbol}
use minishell.Parser.Stacked.{top, types, IsLinked, top-lt, Stacked, empty, push}
use minishell.Types.{
  SymbolType, same, code, eq_of_same, Symbol, ParserState, LalrAction, lalr_shift, lalr_reduce,
  lalr_accept, lalr_error,
}

linked_two : (p : ℕ) (x : SymbolType) → linked p x 2 ≡ true → (x ≡ SymbolType.program) × (p ≡ 0)
unfolding linked accessing predecessors
linked_two p x h =
    let (enters, way) = and-eq-true (same x SymbolType.program) _ h in
    (eq_of_same x SymbolType.program enters, ground arith)

not-linked_zero : (p : ℕ) (x : SymbolType) → linked p x 0 ≡ true → ⊥
unfolding linked accessing predecessors
not-linked_zero p x h = cc ((and-eq-true (same x (accessing 0)) _ h).1)

-- The end of the input enters no state but the final one.
eof_enters : ℕ → Bool
eof_enters zero = true
eof_enters (suc s) = (not (same SymbolType.eof (accessing s)) || s == yyfinal) && eof_enters s

eof_enters_final : eof_enters 61 ≡ true
unfolding eof_enters accessing code
eof_enters_final = refl

eof_enters_sound :
    (n s : ℕ) → eof_enters n ≡ true → s < n → same SymbolType.eof (accessing s) ≡ true → s ≡ yyfinal
unfolding eof_enters
eof_enters_sound zero s h lt e = absurd (omega arith)
eof_enters_sound (suc n) s h lt e = ground (arith, eof_enters_sound n s)

linked-eof : (p s : ℕ) → linked p SymbolType.eof s ≡ true → s ≡ yyfinal
linked-eof p s h = eof_enters_sound 61 s eof_enters_final (linked-lt p SymbolType.eof s h) (
    (and-eq-true (same SymbolType.eof (accessing s)) (has_state p (predecessors s))
      (unfold linked in h)).0)

-- In state 2 a program is all that is on the stack.
accepting :
    (xs : List Symbol) {w : List SymbolType}
    → top xs ≡ 2
    → IsLinked xs
    → Stacked (types xs) w
    → Derives SymbolType.program w
accepting [] e l st = absurd (omega arith)
accepting (x ∷ []) {w} e l (push empty d same_w) =
    let two = linked_two 0 x.type (subst (λ s. linked 0 x.type s ≡ true) e l.0) in
    subst (λ t. Derives t w) two.0 (subst (Derives x.type) (sym same_w) d)
accepting (x ∷ y ∷ ys) e l st =
    let two =
      linked_two y.entry_state x.type (subst (λ s. linked y.entry_state x.type s ≡ true) e l.0) in
    absurd
      (not-linked_zero (top ys) y.type (subst (λ s. linked (top ys) y.type s ≡ true) two.1 l.2.0))

module _ (lib : Libft) where
  -- What each action makes of a parser that has read `w`.
  abbrev pub Outcome :
      (c : Ctx lib) (parse : ParserState) (w : List SymbolType)
      → Ctx lib
      → ParserState
      → LalrAction
      → Type 0
  Outcome c parse w c' parse' lalr_shift =
      IsParsing lib c' parse' (w ++ parse.lookahead_type ∷ [])
      × (parse'.lookahead_type ≡ parse.lookahead_type)
      × (parse.lookahead_type ≢ SymbolType.eof)
  Outcome c parse w c' parse' lalr_reduce =
      IsParsing lib c' parse' w
      × (parse'.lookahead_type ≡ parse.lookahead_type)
      × (potential lib c' parse' < potential lib c parse)
  Outcome c parse w c' parse' lalr_accept =
      (parse.lookahead_type ≡ SymbolType.eof) × Derives SymbolType.program w
  Outcome c parse w c' parse' lalr_error = (c' ≡ c) × (parse' ≡ parse)

  module _ (c : Ctx lib) (parse : ParserState) (w : List SymbolType) where
    abbrev Ends : Option (Acted lib) → Type 0
    Ends o = (r : Acted lib) × (o ≡ some r) × Outcome c parse w r.0 r.1 r.2

    reduce-Ends :
        (p : IsParsing lib c parse w) (k : ℕ)
        → Applies lib k p.symbols
        → action_drops (top p.symbols) (some (reduce_by (suc k))) ≡ true
        → Ends (reduce lib c parse (suc k))
    unfolding reduce action_drops
    reduce-Ends p k a d =
        let result = reduce_compute_result lib c parse a.rule in
        let keeps = reduce_compute_result-Keeps lib c parse a.rule in
        let parse' = record (result.1) { exec_root_idx = get_exec_root lib result.0 a.rule } in
        let src : Symbol = record {
          node_idx = result.2;
          token_idx = result_token lib c parse a.rule;
          entry_state = 0;
          type = a.rule.lhs_type;
        } in
        let agrees : Agrees lib result.0 parse' p.symbols = record {
          held = subst (λ st. Holds lib st p.symbols) (sym keeps.stack) p.agrees.held;
          size = keeps.stack_idx ∙ p.agrees.size;
          count =
              subst (λ st. lib.count Symbol st ≡ suc (length p.symbols)) (sym keeps.stack)
                p.agrees.count;
        } in
        let (r, e, act, same_lookahead, falls, parsing) =
          replace_rhs-IsParsing lib result.0 parse' p.symbols w k a src agrees p.stacked refl
            p.linked (rw a.is_rule at d) in
        let weighs = potential-weigh lib c parse p.symbols p.agrees p.state in
        (
          r,
          rw a.is_rule e,
          subst (Outcome c parse w r.0 r.1) (sym act)
              (parsing, same_lookahead ∙ keeps.lookahead, omega (arith, weighs, falls)),
        )

    shift_on-Ends :
        (p : IsParsing lib c parse w) (next : ℕ)
        → is_terminal parse.lookahead_type ≡ true
        → next ≢ yyfinal
        → linked (top p.symbols) parse.lookahead_type next ≡ true
        → Ends (shift lib c parse next)
    unfolding shift
    shift_on-Ends p next t ne way =
        let parse' = record parse { state = next } in
        let src : Symbol = record {
          node_idx = 0;
          token_idx = parse.token_idx;
          entry_state = 0;
          type = parse.lookahead_type;
        } in
        let agrees : Agrees lib c parse' p.symbols = record {
          held = p.agrees.held;
          size = p.agrees.size;
          count = p.agrees.count;
        } in
        let pushed = push_symbol lib c parse' src in
        let (agrees', same_parse) = push_symbol-Agrees lib c parse' p.symbols src agrees in
        let going : (next == yyfinal) ≡ false = ground arith in
        (
          (pushed.0, pushed.1, lalr_shift),
          rw going refl,
          (
            record {
              symbols = record src { entry_state = next } ∷ p.symbols;
              agrees = agrees';
              state = ap (λ (q : ParserState). q.state) same_parse;
              linked = (way, ne, p.linked);
              stacked = push p.stacked (leaf parse.lookahead_type t) refl;
            },
            ap (λ (q : ParserState). q.lookahead_type) same_parse,
            λ e. ne (
                linked-eof (top p.symbols) next
                  (subst (λ t. linked (top p.symbols) t next ≡ true) e way)),
          ),
        )

    shift-Ends :
        (p : IsParsing lib c parse w) (next : ℕ)
        → is_terminal parse.lookahead_type ≡ true
        → action_fits parse.state parse.lookahead_type (some (shift_to next)) ≡ true
        → Ends (shift lib c parse next)
    unfolding shift action_fits
    shift-Ends p next t h = elim (Bool-cases (next == yyfinal)) [
      | inl last ↦
          let (ends, two) =
            and-eq-true (same parse.lookahead_type SymbolType.eof) (parse.state == 2)
              (rw last at h) in
          (
            (c, record parse { state = next }, lalr_accept),
            rw last refl,
            (
              eq_of_same parse.lookahead_type SymbolType.eof ends,
              accepting p.symbols (sym p.state ∙ (==_iff _ _).0 two) p.linked p.stacked,
            ),
          )
      | inr going ↦
          shift_on-Ends p next t (λ e. cc (going, (==_iff _ _).1 e))
            (subst (λ s. linked s parse.lookahead_type next ≡ true) p.state (rw going at h))
    ]

    perform-Ends :
        (p : IsParsing lib c parse w) (a : Action)
        → is_terminal parse.lookahead_type ≡ true
        → action_fits parse.state parse.lookahead_type (some a) ≡ true
        → action_drops parse.state (some a) ≡ true
        → Ends (perform lib c parse a)
    unfolding perform reduce_or_error
    perform-Ends p (shift_to next) t h d = shift-Ends p next t h
    perform-Ends p (reduce_by zero) t h d = ((c, parse, lalr_error), refl, (refl, refl))
    perform-Ends p (reduce_by (suc k)) t h d =
        reduce-Ends p k
          (rule_fits-Applies lib k p.symbols (get_rule (suc k)) (get_elem? productions k) refl refl
            p.linked
            (subst (λ s. rule_fits s (get_rule (suc k)) (get_elem? productions k) ≡ true) p.state
              (unfold action_fits in h)))
          (subst (λ s. action_drops s (some (reduce_by (suc k))) ≡ true) p.state d)

    perform_decided :
        (p : IsParsing lib c parse w) (o : Option Action)
        → is_terminal parse.lookahead_type ≡ true
        → action_fits parse.state parse.lookahead_type o ≡ true
        → action_drops parse.state o ≡ true
        → Ends (o >>= perform lib c parse)
    unfolding action_fits
    perform_decided p none t h d = cc
    perform_decided p (some a) t h d = perform-Ends p a t h d

    -- For a parser whose stack is a path through the states and holds symbols from which the
    -- grammar derives the terminals `w` read so far, and with a terminal ahead, shift_reduce gives
    -- a result. After a shift, of a terminal other than the end, the stack holds `w` and
    -- that terminal in the same way, after a
    -- reduction `w`, with the same terminal ahead and a smaller weight of its states; where it accepts, the end of the input is ahead
    -- and the grammar derives `w` from `program`; an error leaves everything as it is.
    pub shift_reduce-Outcome :
        IsParsing lib c parse w
        → is_terminal parse.lookahead_type ≡ true
        → (r : Acted lib) × (shift_reduce lib c parse ≡ some r) × Outcome c parse w r.0 r.1 r.2
    unfolding shift_reduce
    shift_reduce-Outcome p t =
        let (lt, ne) = top-lt p.symbols p.linked in
        let in_range = subst (λ s. s < 61) (sym p.state) lt in
        let running = subst (λ s. s ≢ yyfinal) (sym p.state) ne in
        perform_decided p (get_action parse.state parse.lookahead_type) t
          (get_action_fits parse.state parse.lookahead_type in_range running t)
          (get_action_drops parse.state parse.lookahead_type in_range running t)
