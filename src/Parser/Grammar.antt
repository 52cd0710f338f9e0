-- ===== src/Parser/Grammar.antt =====
-- The grammar of notes/shni_grammar_reduced.y, in its order, and what it derives. Production 0 is
-- the one that bison adds for the end of the input.
use minishell.Base.{ℕ, ◌≡◌, Bool, true, some, List, [], ◌∷◌, ◌++◌, leb, get_elem?}
use minishell.Types.{
  SymbolType, code, eof, word, newline, pipe, less, great, dless, dgreat, and_if, or_if, opar, cpar,
  accept, program, complete_commands, and_or, pipeline, command, subshell, compound_list, term,
  simple_command, cmd_name, cmd_word, cmd_prefix, cmd_suffix, redirect_list, io_redirect, io_file,
  filename, io_here, here_end, newline_list, linebreak,
}

abbrev pub Production : Type 0
Production = SymbolType × List SymbolType

abbrev productions_list : List Production
productions_list =
    (accept, program ∷ eof ∷ [])
    ∷ (program, linebreak ∷ complete_commands ∷ linebreak ∷ [])
    ∷ (program, linebreak ∷ [])
    ∷ (complete_commands, complete_commands ∷ newline_list ∷ and_or ∷ [])
    ∷ (complete_commands, and_or ∷ [])
    ∷ (and_or, pipeline ∷ [])
    ∷ (and_or, and_or ∷ and_if ∷ linebreak ∷ pipeline ∷ [])
    ∷ (and_or, and_or ∷ or_if ∷ linebreak ∷ pipeline ∷ [])
    ∷ (pipeline, command ∷ [])
    ∷ (pipeline, pipeline ∷ pipe ∷ linebreak ∷ command ∷ [])
    ∷ []

abbrev productions_command : List Production
productions_command =
    (command, simple_command ∷ [])
    ∷ (command, subshell ∷ [])
    ∷ (command, subshell ∷ redirect_list ∷ [])
    ∷ (subshell, opar ∷ compound_list ∷ cpar ∷ [])
    ∷ (compound_list, linebreak ∷ term ∷ [])
    ∷ (compound_list, linebreak ∷ term ∷ newline_list ∷ [])
    ∷ (term, term ∷ newline_list ∷ and_or ∷ [])
    ∷ (term, and_or ∷ [])
    ∷ (simple_command, cmd_prefix ∷ cmd_word ∷ cmd_suffix ∷ [])
    ∷ (simple_command, cmd_prefix ∷ cmd_word ∷ [])
    ∷ (simple_command, cmd_prefix ∷ [])
    ∷ (simple_command, cmd_name ∷ cmd_suffix ∷ [])
    ∷ (simple_command, cmd_name ∷ [])
    ∷ []

abbrev productions_word : List Production
productions_word =
    (cmd_name, word ∷ [])
    ∷ (cmd_word, word ∷ [])
    ∷ (cmd_prefix, io_redirect ∷ [])
    ∷ (cmd_prefix, cmd_prefix ∷ io_redirect ∷ [])
    ∷ (cmd_suffix, io_redirect ∷ [])
    ∷ (cmd_suffix, cmd_suffix ∷ io_redirect ∷ [])
    ∷ (cmd_suffix, word ∷ [])
    ∷ (cmd_suffix, cmd_suffix ∷ word ∷ [])
    ∷ (redirect_list, io_redirect ∷ [])
    ∷ (redirect_list, redirect_list ∷ io_redirect ∷ [])
    ∷ (io_redirect, io_file ∷ [])
    ∷ (io_redirect, io_here ∷ [])
    ∷ (io_file, less ∷ filename ∷ [])
    ∷ (io_file, great ∷ filename ∷ [])
    ∷ (io_file, dgreat ∷ filename ∷ [])
    ∷ (filename, word ∷ [])
    ∷ (io_here, dless ∷ here_end ∷ [])
    ∷ (here_end, word ∷ [])
    ∷ (newline_list, newline ∷ [])
    ∷ (newline_list, newline_list ∷ newline ∷ [])
    ∷ (linebreak, newline_list ∷ [])
    ∷ (linebreak, [])
    ∷ []

abbrev pub productions : List Production
productions = productions_list ++ (productions_command ++ productions_word)

abbrev pub is_terminal : SymbolType → Bool
unfolding code
is_terminal s = leb (code s) 13

-- A symbol derives a list of terminals, and a list of symbols does.
mutual
  pub data Derives : SymbolType → List SymbolType → Type 0 where
    leaf : (t : SymbolType) → is_terminal t ≡ true → Derives t (t ∷ [])
    node :
        {lhs : SymbolType} {rhs w : List SymbolType} (k : ℕ)
        → get_elem? productions k ≡ some (lhs, rhs)
        → DerivesAll rhs w
        → Derives lhs w

  pub data DerivesAll : List SymbolType → List SymbolType → Type 0 where
    nil : DerivesAll [] []
    cons :
        {s : SymbolType} {ss u v w : List SymbolType}
        → Derives s u
        → DerivesAll ss v
        → w ≡ u ++ v
        → DerivesAll (s ∷ ss) w
