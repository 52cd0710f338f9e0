-- ===== src/Parser/Potential.antt =====
-- A weight for each state of the automaton, under which every reduction of the tables makes the
-- stack lighter: a check of every state and lookahead, and what it shows.
use minishell.Base.{
  ℕ, zero, suc, ◌+◌, ◌<◌, ◌≤◌, ◌≡◌, ◌≢◌, refl, subst, Bool, true, ◌&&◌, ◌||◌, Option, none, some,
  List, [], ◌∷◌, ◌++◌, ◌==◌, ltb, ltb→lt, leb, length, get_or, arith, and-eq-true,
}
use minishell.Parser.Action.{Action, shift_to, reduce_by, get_action, get_goto, yyfinal}
use minishell.Parser.Automaton.{predecessors}
use minishell.Parser.Check.{all_states, all_states_sound}
use minishell.Parser.Dispatch.{Rule, get_rule}
use minishell.Parser.Grammar.{is_terminal}
use minishell.Parser.Stacked.{top, IsLinked, linked_lem}
use minishell.Types.{
  SymbolType, Symbol, code, eof, word, newline, pipe, less, great, dless, dgreat, and_if, or_if,
  opar, cpar,
}

abbrev weights : List ℕ
weights =
    1 ∷ 4 ∷ 1 ∷ 3 ∷ 2 ∷ 1 ∷ 1 ∷ 9 ∷ 1 ∷ 1 ∷ 1 ∷ 1 ∷ 1 ∷ 1 ∷ 4 ∷ 5 ∷ 6 ∷ 7 ∷ 7 ∷ 8 ∷ 8 ∷ 9 ∷ 10 ∷ 10
    ∷ 11 ∷ 10 ∷ 10 ∷ 11 ∷ 10 ∷ 10 ∷ 1 ∷ 1 ∷ 2 ∷ 1 ∷ 1 ∷ 1 ∷ 1 ∷ 1 ∷ 2 ∷ 3 ∷ 2 ∷ 3 ∷ 3 ∷ 2 ∷ 1 ∷ 6
    ∷ 2 ∷ 1 ∷ 1 ∷ 1 ∷ 1 ∷ 1 ∷ 1 ∷ 1 ∷ 1 ∷ 1 ∷ 1 ∷ 1 ∷ 1 ∷ 1 ∷ 1 ∷ []

-- for the states in which an empty right-hand side can be reduced
abbrev extras : List ℕ
extras =
    3 ∷ 0 ∷ 0 ∷ 0 ∷ 0 ∷ 0 ∷ 0 ∷ 0 ∷ 0 ∷ 0 ∷ 0 ∷ 0 ∷ 2 ∷ 2 ∷ 0 ∷ 0 ∷ 0 ∷ 0 ∷ 0 ∷ 0 ∷ 0 ∷ 0 ∷ 0 ∷ 0
    ∷ 0 ∷ 0 ∷ 0 ∷ 0 ∷ 0 ∷ 0 ∷ 0 ∷ 0 ∷ 0 ∷ 0 ∷ 2 ∷ 2 ∷ 2 ∷ 0 ∷ 0 ∷ 0 ∷ 0 ∷ 0 ∷ 0 ∷ 0 ∷ 0 ∷ 0 ∷ 0 ∷ 0
    ∷ 0 ∷ 0 ∷ 0 ∷ 0 ∷ 0 ∷ 0 ∷ 0 ∷ 0 ∷ 0 ∷ 0 ∷ 0 ∷ 0 ∷ 0 ∷ []

unfoldable pub weight : ℕ → ℕ
weight state = get_or weights state 0

unfoldable pub extra : ℕ → ℕ
extra state = get_or extras state 0

abbrev pub weigh : List Symbol → ℕ
weigh [] = 0
weigh (x ∷ xs) = weight x.entry_state + weigh xs

-- the state behind a reduction weighs less than what was popped
lighter : ℕ → Option ℕ → Bool
lighter popped none = true
lighter popped (some next) = ltb (weight next + extra next) popped

-- on every way back from `s` by `n` symbols
drops : ℕ → ℕ → SymbolType → ℕ → Bool
unfolding lighter
drops s zero lhs popped = lighter popped (get_goto lhs s)
drops s (suc n) lhs popped = all_states (λ p. drops p n lhs (popped + weight s)) (predecessors s)

unfoldable pub rule_drops : ℕ → Option Rule → Bool
unfolding drops
rule_drops s none = true
rule_drops s (some rule) = drops s rule.rhs_len rule.lhs_type (extra s)

unfoldable pub action_drops : ℕ → Option Action → Bool
unfolding rule_drops
action_drops s none = true
action_drops s (some (shift_to next)) = true
action_drops s (some (reduce_by zero)) = true
action_drops s (some (reduce_by (suc k))) = rule_drops s (get_rule (suc k))

abbrev terminals : List SymbolType
terminals =
    eof ∷ word ∷ newline ∷ pipe ∷ less ∷ great ∷ dless ∷ dgreat ∷ and_if ∷ or_if ∷ opar ∷ cpar ∷ []

state_drops : ℕ → List SymbolType → Bool
state_drops s [] = true
state_drops s (t ∷ ts) = action_drops s (get_action s t) && state_drops s ts

states_drop : ℕ → Bool
unfolding state_drops
states_drop zero = true
states_drop (suc n) = ((n == yyfinal) || state_drops n terminals) && states_drop n

-- By evaluation.
tables_drop : states_drop 61 ≡ true
unfolding states_drop state_drops action_drops rule_drops drops lighter all_states get_action
    get_goto get_rule predecessors weight extra
tables_drop = refl

states_drop_sound :
    (n s : ℕ) → states_drop n ≡ true → s < n → s ≢ yyfinal → state_drops s terminals ≡ true
unfolding states_drop
states_drop_sound zero s h lt ne = absurd (omega arith)
states_drop_sound (suc n) s h lt ne = ground (arith, states_drop_sound n s)

state_drops_sound :
    (s : ℕ) (t : SymbolType)
    → state_drops s terminals ≡ true
    → is_terminal t ≡ true
    → action_drops s (get_action s t) ≡ true
unfolding state_drops code
state_drops_sound s eof h k = ground arith
state_drops_sound s _ h k = ground arith

pub get_action_drops :
    (s : ℕ) (t : SymbolType)
    → s < 61
    → s ≢ yyfinal
    → is_terminal t ≡ true
    → action_drops s (get_action s t) ≡ true
get_action_drops s t lt ne k = state_drops_sound s t (states_drop_sound 61 s tables_drop lt ne) k

drops_sound :
    (ps left : List Symbol) (lhs : SymbolType) (next popped : ℕ)
    → IsLinked (ps ++ left)
    → drops (top (ps ++ left)) (length ps) lhs popped ≡ true
    → get_goto lhs (top left) ≡ some next
    → weight next + extra next < popped + weigh ps
unfolding drops lighter
drops_sound [] left lhs next popped l h e =
    omega (arith, ltb→lt (weight next + extra next) popped (rw e at h))
drops_sound (x ∷ ps) left lhs next popped l h e =
    let s = x.entry_state in
    let (_, way) = linked_lem (top (ps ++ left)) x.type s l.0 in
    let below =
      all_states_sound (λ p. drops p (length ps) lhs (popped + weight s)) (predecessors s)
        (top (ps ++ left)) h way in
    omega (arith, drops_sound ps left lhs next (popped + weight s) l.2 below e)

weigh-append : (xs ys : List Symbol) → weigh (xs ++ ys) ≡ weigh xs + weigh ys
weigh-append [] ys = omega arith
weigh-append (x ∷ xs) ys = omega (arith, weigh-append xs ys)

-- A reduction by a rule of the tables makes the stack lighter.
pub rule_drops_sound :
    (rule : Rule) (ps left : List Symbol) (next : ℕ)
    → rule_drops (top (ps ++ left)) (some rule) ≡ true
    → rule.rhs_len ≡ length ps
    → IsLinked (ps ++ left)
    → get_goto rule.lhs_type (top left) ≡ some next
    → weight next + extra next + weigh left < weigh (ps ++ left) + extra (top (ps ++ left))
unfolding rule_drops
rule_drops_sound rule ps left next h len l e =
    let h' =
      subst (λ n. drops (top (ps ++ left)) n rule.lhs_type (extra (top (ps ++ left))) ≡ true) len
        h in
    omega (
      arith,
      weigh-append ps left,
      drops_sound ps left rule.lhs_type next (extra (top (ps ++ left))) l h' e,
    )

all_leb : ℕ → List ℕ → Bool
all_leb n [] = true
all_leb n (x ∷ xs) = leb x n && all_leb n xs

get_or-le : (n i : ℕ) (xs : List ℕ) → all_leb n xs ≡ true → get_or xs i 0 ≤ n
unfolding all_leb
get_or-le n i [] h = omega arith
get_or-le n zero (x ∷ xs) h = ground arith
get_or-le n (suc i) (x ∷ xs) h = get_or-le n i xs (and-eq-true (leb x n) _ h).1

pub weight-le : (state : ℕ) → weight state ≤ 11
unfolding weight all_leb
weight-le state = get_or-le 11 state weights refl

pub extra-le : (state : ℕ) → extra state ≤ 3
unfolding extra all_leb
extra-le state = get_or-le 3 state extras refl
