-- ===== src/Parser/Stacked.antt =====
-- Lists of symbols, the top first, as the parser's stack: their way through the automaton and the
-- terminals that they stand for.
use mathlib.Core.List.{append-nil, append_assoc, reverse_aux}
use minishell.Base.{
  ℕ, suc, ◌<◌, ◌≡◌, ◌≢◌, refl, sym, ap, ◌∙◌, true, not, ◌&&◌, Option, none, some, List, [], ◌∷◌,
  ◌++◌, reverse, length, arith, and-eq-true, subst, ◌==◌,
}
use minishell.Parser.Action.{get_goto, yyfinal}
use minishell.Parser.Automaton.{accessing, predecessors, has_state, linked, linked-lt}
use minishell.Parser.Check.{all_states_sound, goes, returns}
use minishell.Parser.Grammar.{Derives, DerivesAll, nil, cons}
use minishell.Types.{SymbolType, same, eq_of_same, Symbol}

-- the parser's state on top of these symbols
abbrev pub top : List Symbol → ℕ
top [] = 0
top (x ∷ xs) = x.entry_state

abbrev pub types : List Symbol → List SymbolType
types [] = []
types (x ∷ xs) = x.type ∷ types xs

-- Each symbol leads the automaton from the state below it to its own, which is not the final one.
abbrev pub IsLinked : List Symbol → Type 0
IsLinked [] = Unit
IsLinked (x ∷ xs) =
    (linked (top xs) x.type x.entry_state ≡ true) × (x.entry_state ≢ yyfinal) × IsLinked xs

pub top-lt : (xs : List Symbol) → IsLinked xs → (top xs < 61) × (top xs ≢ yyfinal)
top-lt [] h = omega arith
top-lt (x ∷ xs) h = (linked-lt (top xs) x.type x.entry_state h.0, h.1)

-- What a reduction by the symbols `rs` finds: they stand on top, and behind them the automaton
-- goes on with `lhs`.
pub record Returns (xs : List Symbol) (rs : List SymbolType) (lhs : SymbolType) : Type 0 where
  pub popped : List Symbol
  pub left : List Symbol
  pub splits : xs ≡ popped ++ left
  pub handle : types popped ≡ rs
  pub count : length popped ≡ length rs
  pub left_linked : IsLinked left
  pub next : ℕ
  pub goes_to : get_goto lhs (top left) ≡ some next
  pub next_linked : linked (top left) lhs next ≡ true
  pub next_ne : next ≢ yyfinal

goes_lem :
    (p : ℕ) (lhs : SymbolType) (o : Option ℕ)
    → goes p lhs o ≡ true
    → (s : ℕ) × (o ≡ some s) × (linked p lhs s ≡ true) × (s ≢ yyfinal)
unfolding goes
goes_lem p lhs none h = cc
goes_lem p lhs (some s) h = (s, refl, (and-eq-true _ _ h).0, ground arith)

pub linked_lem :
    (p : ℕ) (x : SymbolType) (s : ℕ)
    → linked p x s ≡ true
    → (x ≡ accessing s) × (has_state p (predecessors s) ≡ true)
unfolding linked
linked_lem p x s h =
    let (a, b) = and-eq-true (same x (accessing s)) _ h in (eq_of_same x (accessing s) a, b)

Returns-cons :
    (x : Symbol) (xs : List Symbol) (r : SymbolType) (rs : List SymbolType) (lhs : SymbolType)
    → x.type ≡ r
    → Returns xs rs lhs
    → Returns (x ∷ xs) (r ∷ rs) lhs
Returns-cons x xs r rs lhs e b = record {
  popped = x ∷ b.popped;
  left = b.left;
  splits = ap (λ l. x ∷ l) b.splits;
  handle = cc (e, b.handle);
  count = ap suc b.count;
  left_linked = b.left_linked;
  next = b.next;
  goes_to = b.goes_to;
  next_linked = b.next_linked;
  next_ne = b.next_ne;
}

pub returns-Returns :
    (rs : List SymbolType) (xs : List Symbol) (lhs : SymbolType)
    → IsLinked xs
    → returns (top xs) rs lhs ≡ true
    → Returns xs rs lhs
unfolding returns
returns-Returns [] xs lhs l h =
    let (s, e, k, ne) = goes_lem (top xs) lhs (get_goto lhs (top xs)) h in
    record {
      popped = [];
      left = xs;
      splits = refl;
      handle = refl;
      count = refl;
      left_linked = l;
      next = s;
      goes_to = e;
      next_linked = k;
      next_ne = ne;
    }
returns-Returns (r ∷ rs) [] lhs l h = cc
returns-Returns (r ∷ rs) (x ∷ xs) lhs l h =
    let s = x.entry_state in
    let (h', ways) = and-eq-true (not (s == 0) && same r (accessing s)) _ h in
    let (_, enters) = and-eq-true (not (s == 0)) (same r (accessing s)) h' in
    let (enters', way) = linked_lem (top xs) x.type s l.0 in
    let below = all_states_sound (λ p. returns p rs lhs) (predecessors s) (top xs) ways way in
    Returns-cons x xs r rs lhs (enters' ∙ sym (eq_of_same r (accessing s) enters))
      (returns-Returns rs xs lhs l.2 below)

-- The symbols stand for these terminals, in the order of the input.
pub data Stacked : List SymbolType → List SymbolType → Type 0 where
  empty : Stacked [] []
  push :
      {s : SymbolType} {ss u v w : List SymbolType}
      → Stacked ss u
      → Derives s v
      → w ≡ u ++ v
      → Stacked (s ∷ ss) w

-- The symbols on top stand for the terminals at the end.
pub record Popped (ss rs : List SymbolType) (w : List SymbolType) : Type 0 where
  pub front : List SymbolType
  pub back : List SymbolType
  pub splits : w ≡ front ++ back
  pub below : Stacked ss front
  pub above : Stacked rs back

pub Stacked-append :
    (rs ss : List SymbolType) {w : List SymbolType} → Stacked (rs ++ ss) w → Popped ss rs w
Stacked-append [] ss {w} h = record {
  front = w;
  back = [];
  splits = sym (append-nil w);
  below = h;
  above = empty;
}
Stacked-append (r ∷ rs) ss (push {v} h d e) =
    let p = Stacked-append rs ss h in
    record {
      front = p.front;
      back = p.back ++ v;
      splits = e ∙ ap (λ l. l ++ v) p.splits ∙ append_assoc p.front p.back v;
      below = p.below;
      above = push p.above d refl;
    }

DerivesAll-reverse_aux :
    {rs ss u v : List SymbolType}
    → Stacked rs u
    → DerivesAll ss v
    → DerivesAll (reverse_aux rs ss) (u ++ v)
DerivesAll-reverse_aux empty h = h
DerivesAll-reverse_aux {v} (push {u} {v = v'} st d e) h =
    let e' = sym (append_assoc u v' v) ∙ ap (λ l. l ++ v) (sym e) in
    subst (DerivesAll _) e' (DerivesAll-reverse_aux st (cons d h refl))

-- Read from the bottom, stacked symbols derive what they stand for.
pub DerivesAll-reverse : {rs w : List SymbolType} → Stacked rs w → DerivesAll (reverse rs) w
DerivesAll-reverse {w} st = subst (DerivesAll _) (append-nil w) (DerivesAll-reverse_aux st nil)
