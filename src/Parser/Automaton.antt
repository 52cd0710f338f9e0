-- ===== src/Parser/Automaton.antt =====
-- The automaton of notes/shni_grammar_reduced.output: for each state the symbol that enters it and
-- the states before it. State 0 is entered by none, which `accept` says.
use minishell.Base.{
  ℕ, zero, suc, ◌<◌, ◌≡◌, true, length, arith, and-eq-true, Bool, false, ◌&&◌, ◌||◌, List, [], ◌∷◌,
  ◌==◌, get_or,
}
use minishell.Types.{
  SymbolType, same, eof, word, newline, pipe, less, great, dless, dgreat, and_if, or_if, opar, cpar,
  accept, program, complete_commands, and_or, pipeline, command, subshell, compound_list, term,
  simple_command, cmd_name, cmd_word, cmd_prefix, cmd_suffix, redirect_list, io_redirect, io_file,
  filename, io_here, here_end, newline_list, linebreak,
}

abbrev accessing_symbols : List SymbolType
accessing_symbols =
    accept ∷ newline ∷ program ∷ newline_list ∷ linebreak ∷ eof ∷ newline ∷ word ∷ less ∷ great
    ∷ dless ∷ dgreat ∷ opar ∷ complete_commands ∷ and_or ∷ pipeline ∷ command ∷ subshell
    ∷ simple_command ∷ cmd_name ∷ cmd_prefix ∷ io_redirect ∷ io_file ∷ io_here ∷ word ∷ filename
    ∷ filename ∷ word ∷ here_end ∷ filename ∷ compound_list ∷ linebreak ∷ newline_list ∷ linebreak
    ∷ and_if ∷ or_if ∷ pipe ∷ redirect_list ∷ io_redirect ∷ word ∷ cmd_suffix ∷ io_redirect ∷ word
    ∷ cmd_word ∷ io_redirect ∷ cpar ∷ and_or ∷ term ∷ and_or ∷ linebreak ∷ linebreak ∷ linebreak
    ∷ io_redirect ∷ word ∷ io_redirect ∷ cmd_suffix ∷ newline_list ∷ pipeline ∷ pipeline ∷ command
    ∷ and_or ∷ []

abbrev predecessor_lists : List (List ℕ)
predecessor_lists =
    ([])
    ∷ (0 ∷ 12 ∷ 13 ∷ 34 ∷ 35 ∷ 36 ∷ 47 ∷ [])
    ∷ (0 ∷ [])
    ∷ (0 ∷ 12 ∷ 34 ∷ 35 ∷ 36 ∷ [])
    ∷ (0 ∷ [])
    ∷ (2 ∷ [])
    ∷ (3 ∷ 32 ∷ 56 ∷ [])
    ∷ (4 ∷ 31 ∷ 32 ∷ 49 ∷ 50 ∷ 51 ∷ 56 ∷ [])
    ∷ (4 ∷ 17 ∷ 19 ∷ 20 ∷ 31 ∷ 32 ∷ 37 ∷ 40 ∷ 43 ∷ 49 ∷ 50 ∷ 51 ∷ 55 ∷ 56 ∷ [])
    ∷ (4 ∷ 17 ∷ 19 ∷ 20 ∷ 31 ∷ 32 ∷ 37 ∷ 40 ∷ 43 ∷ 49 ∷ 50 ∷ 51 ∷ 55 ∷ 56 ∷ [])
    ∷ (4 ∷ 17 ∷ 19 ∷ 20 ∷ 31 ∷ 32 ∷ 37 ∷ 40 ∷ 43 ∷ 49 ∷ 50 ∷ 51 ∷ 55 ∷ 56 ∷ [])
    ∷ (4 ∷ 17 ∷ 19 ∷ 20 ∷ 31 ∷ 32 ∷ 37 ∷ 40 ∷ 43 ∷ 49 ∷ 50 ∷ 51 ∷ 55 ∷ 56 ∷ [])
    ∷ (4 ∷ 31 ∷ 32 ∷ 49 ∷ 50 ∷ 51 ∷ 56 ∷ [])
    ∷ (4 ∷ [])
    ∷ (4 ∷ [])
    ∷ (4 ∷ 31 ∷ 32 ∷ 56 ∷ [])
    ∷ (4 ∷ 31 ∷ 32 ∷ 49 ∷ 50 ∷ 56 ∷ [])
    ∷ (4 ∷ 31 ∷ 32 ∷ 49 ∷ 50 ∷ 51 ∷ 56 ∷ [])
    ∷ (4 ∷ 31 ∷ 32 ∷ 49 ∷ 50 ∷ 51 ∷ 56 ∷ [])
    ∷ (4 ∷ 31 ∷ 32 ∷ 49 ∷ 50 ∷ 51 ∷ 56 ∷ [])
    ∷ (4 ∷ 31 ∷ 32 ∷ 49 ∷ 50 ∷ 51 ∷ 56 ∷ [])
    ∷ (4 ∷ 31 ∷ 32 ∷ 49 ∷ 50 ∷ 51 ∷ 56 ∷ [])
    ∷ (4 ∷ 17 ∷ 19 ∷ 20 ∷ 31 ∷ 32 ∷ 37 ∷ 40 ∷ 43 ∷ 49 ∷ 50 ∷ 51 ∷ 55 ∷ 56 ∷ [])
    ∷ (4 ∷ 17 ∷ 19 ∷ 20 ∷ 31 ∷ 32 ∷ 37 ∷ 40 ∷ 43 ∷ 49 ∷ 50 ∷ 51 ∷ 55 ∷ 56 ∷ [])
    ∷ (8 ∷ 9 ∷ 11 ∷ [])
    ∷ (8 ∷ [])
    ∷ (9 ∷ [])
    ∷ (10 ∷ [])
    ∷ (10 ∷ [])
    ∷ (11 ∷ [])
    ∷ (12 ∷ [])
    ∷ (12 ∷ [])
    ∷ (13 ∷ [])
    ∷ (13 ∷ [])
    ∷ (14 ∷ 46 ∷ 48 ∷ 60 ∷ [])
    ∷ (14 ∷ 46 ∷ 48 ∷ 60 ∷ [])
    ∷ (15 ∷ 57 ∷ 58 ∷ [])
    ∷ (17 ∷ [])
    ∷ (17 ∷ [])
    ∷ (19 ∷ 43 ∷ [])
    ∷ (19 ∷ [])
    ∷ (19 ∷ 43 ∷ [])
    ∷ (20 ∷ [])
    ∷ (20 ∷ [])
    ∷ (20 ∷ [])
    ∷ (30 ∷ [])
    ∷ (31 ∷ [])
    ∷ (31 ∷ [])
    ∷ (32 ∷ [])
    ∷ (34 ∷ [])
    ∷ (35 ∷ [])
    ∷ (36 ∷ [])
    ∷ (37 ∷ [])
    ∷ (40 ∷ 55 ∷ [])
    ∷ (40 ∷ 55 ∷ [])
    ∷ (43 ∷ [])
    ∷ (47 ∷ [])
    ∷ (49 ∷ [])
    ∷ (50 ∷ [])
    ∷ (51 ∷ [])
    ∷ (56 ∷ [])
    ∷ []

unfoldable pub accessing : ℕ → SymbolType
accessing state = get_or accessing_symbols state accept

unfoldable pub predecessors : ℕ → List ℕ
predecessors state = get_or predecessor_lists state []

abbrev pub has_state : ℕ → List ℕ → Bool
has_state p [] = false
has_state p (x ∷ xs) = (p == x) || has_state p xs

-- The automaton goes from `p` to `s` by the symbol `x`.
unfoldable pub linked : ℕ → SymbolType → ℕ → Bool
unfolding accessing predecessors
linked p x s = same x (accessing s) && has_state p (predecessors s)

has_state-get_or :
    (ls : List (List ℕ)) (s p : ℕ) → has_state p (get_or ls s []) ≡ true → s < length ls
has_state-get_or [] s p h = cc
has_state-get_or (l ∷ ls) zero p h = omega arith
has_state-get_or (l ∷ ls) (suc s) p h = omega (arith, has_state-get_or ls s p h)

-- The automaton has 61 states.
pub linked-lt : (p : ℕ) (x : SymbolType) (s : ℕ) → linked p x s ≡ true → s < 61
unfolding linked
linked-lt p x s h =
    has_state-get_or predecessor_lists s p (and-eq-true (same x (accessing s)) _ h).1
