-- ===== src/Parser/Check.antt =====
-- The tables against the automaton: a check of every state and lookahead, and what it shows.
use minishell.Base.{
  ℕ, zero, suc, ◌<◌, ◌≡◌, ◌≢◌, refl, Bool, true, false, not, ◌&&◌, ◌||◌, Option, none, some, List,
  [], ◌∷◌, reverse, ◌==◌, if◌then◌else◌, length, get_elem?, arith,
}
use minishell.Parser.Action.{Action, shift_to, reduce_by, get_action, get_goto, yyfinal}
use minishell.Parser.Automaton.{accessing, predecessors, has_state, linked}
use minishell.Parser.Dispatch.{Rule, get_rule}
use minishell.Parser.Grammar.{Production, productions, is_terminal}
use minishell.Types.{
  SymbolType, code, same, eof, word, newline, pipe, less, great, dless, dgreat, and_if, or_if, opar,
  cpar,
}

unfoldable pub all_states : (ℕ → Bool) → List ℕ → Bool
all_states p [] = true
all_states p (x ∷ xs) = p x && all_states p xs

pub all_states_sound :
    (p : ℕ → Bool) (xs : List ℕ) (x : ℕ)
    → all_states p xs ≡ true
    → has_state x xs ≡ true
    → p x ≡ true
unfolding all_states
all_states_sound p [] x h m = cc
all_states_sound p (y ∷ ys) x h m = ground (arith, all_states_sound p ys x)

unfoldable pub goes : ℕ → SymbolType → Option ℕ → Bool
goes p lhs none = false
goes p lhs (some s) = linked p lhs s && not (s == yyfinal)

-- Behind every way into `s` by the symbols `rs`, last first, the table has a state to go to.
unfoldable pub returns : ℕ → List SymbolType → SymbolType → Bool
unfolding goes
returns s [] lhs = goes s lhs (get_goto lhs s)
returns s (x ∷ rs) lhs =
    not (s == 0) && same x (accessing s) && all_states (λ p. returns p rs lhs) (predecessors s)

unfoldable pub rule_fits : ℕ → Option Rule → Option Production → Bool
rule_fits s none _ = false
rule_fits s (some rule) none = false
rule_fits s (some rule) (some (lhs, rhs)) =
    same rule.lhs_type lhs && (rule.rhs_len == length rhs) && returns s (reverse rhs) lhs

-- A shift follows the automaton, or is the last one, of the end of the input in state 2.
unfoldable pub action_fits : ℕ → SymbolType → Option Action → Bool
unfolding rule_fits
action_fits s t none = false
action_fits s t (some (shift_to next)) =
    if next == yyfinal then same t eof && (s == 2) else linked s t next
action_fits s t (some (reduce_by zero)) = true
action_fits s t (some (reduce_by (suc k))) =
    rule_fits s (get_rule (suc k)) (get_elem? productions k)

abbrev terminals : List SymbolType
terminals =
    eof ∷ word ∷ newline ∷ pipe ∷ less ∷ great ∷ dless ∷ dgreat ∷ and_if ∷ or_if ∷ opar ∷ cpar ∷ []

state_fits : ℕ → List SymbolType → Bool
state_fits s [] = true
state_fits s (t ∷ ts) = action_fits s t (get_action s t) && state_fits s ts

states_fit : ℕ → Bool
unfolding state_fits
states_fit zero = true
states_fit (suc n) = ((n == yyfinal) || state_fits n terminals) && states_fit n

-- By evaluation: 61 states, without the final one, which the parser does not stay in.
tables_fit : states_fit 61 ≡ true
unfolding states_fit action_fits returns all_states get_action get_goto get_rule accessing
    predecessors linked
tables_fit = refl

states_fit_sound :
    (n s : ℕ) → states_fit n ≡ true → s < n → s ≢ yyfinal → state_fits s terminals ≡ true
unfolding states_fit
states_fit_sound zero s h lt ne = absurd (omega arith)
states_fit_sound (suc n) s h lt ne = ground (arith, states_fit_sound n s)

state_fits_sound :
    (s : ℕ) (t : SymbolType)
    → state_fits s terminals ≡ true
    → is_terminal t ≡ true
    → action_fits s t (get_action s t) ≡ true
unfolding state_fits code
state_fits_sound s eof h k = ground arith
state_fits_sound s _ h k = ground arith

pub get_action_fits :
    (s : ℕ) (t : SymbolType)
    → s < 61
    → s ≢ yyfinal
    → is_terminal t ≡ true
    → action_fits s t (get_action s t) ≡ true
get_action_fits s t lt ne k = state_fits_sound s t (states_fit_sound 61 s tables_fit lt ne) k
