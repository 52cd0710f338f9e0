-- ===== src/Parser/Dispatch.antt =====
-- The reductions by bison rule number: srcs/parser/rule_dispatch.c and t_rule of inc/types.h. A
-- handler's address is its name; NULL is `none`.
use minishell.Base.{ℕ, ◌-◌, Option, none, some, List, [], ◌∷◌, get_elem?, ltb, if◌then◌else◌}
use minishell.Types.{
  SymbolType, eof, accept, and_or, cmd_name, cmd_prefix, cmd_suffix, cmd_word, command,
  complete_commands, compound_list, filename, here_end, io_file, io_here, io_redirect, linebreak,
  newline_list, pipeline, program, redirect_list, simple_command, subshell, term,
}

pub data Handler : Type 0 where
  by_program : Handler
  by_list_append : Handler
  by_and_or_conditional : Handler
  by_pipeline_create : Handler
  by_pipeline_append : Handler
  by_subshell_redirects : Handler
  by_subshell : Handler
  by_compound_list : Handler
  by_simple_command_from_suffix : Handler
  by_simple_command : Handler
  by_from_term : Handler
  by_redir_append : Handler
  by_cmd_suffix : Handler
  by_io_file : Handler
  by_io_here : Handler

pub record Rule : Type 0 where
  pub handler : Option Handler
  pub rhs_len : ℕ
  pub lhs_type : SymbolType

abbrev entry : Option Handler → ℕ → SymbolType → Rule
entry h n lhs = record { handler = h; rhs_len = n; lhs_type = lhs }

abbrev rules_first : List Rule
rules_first =
    entry none 0 eof
    ∷ entry none 2 accept
    ∷ entry (some by_program) 3 program
    ∷ entry none 1 program
    ∷ entry (some by_list_append) 3 complete_commands
    ∷ entry none 1 complete_commands
    ∷ entry none 1 and_or
    ∷ entry (some by_and_or_conditional) 4 and_or
    ∷ entry (some by_and_or_conditional) 4 and_or
    ∷ entry (some by_pipeline_create) 1 pipeline
    ∷ entry (some by_pipeline_append) 4 pipeline
    ∷ entry none 1 command
    ∷ entry none 1 command
    ∷ entry (some by_subshell_redirects) 2 command
    ∷ entry (some by_subshell) 3 subshell
    ∷ entry (some by_compound_list) 2 compound_list
    ∷ []

abbrev rules_second : List Rule
rules_second =
    entry (some by_compound_list) 3 compound_list
    ∷ entry (some by_list_append) 3 term
    ∷ entry none 1 term
    ∷ entry (some by_simple_command_from_suffix) 3 simple_command
    ∷ entry (some by_simple_command) 2 simple_command
    ∷ entry (some by_simple_command) 1 simple_command
    ∷ entry (some by_simple_command_from_suffix) 2 simple_command
    ∷ entry (some by_simple_command) 1 simple_command
    ∷ entry (some by_from_term) 1 cmd_name
    ∷ entry (some by_from_term) 1 cmd_word
    ∷ entry none 1 cmd_prefix
    ∷ entry (some by_redir_append) 2 cmd_prefix
    ∷ entry (some by_cmd_suffix) 1 cmd_suffix
    ∷ entry (some by_cmd_suffix) 2 cmd_suffix
    ∷ entry (some by_cmd_suffix) 1 cmd_suffix
    ∷ entry (some by_cmd_suffix) 2 cmd_suffix
    ∷ []

abbrev rules_third : List Rule
rules_third =
    entry none 1 redirect_list
    ∷ entry (some by_redir_append) 2 redirect_list
    ∷ entry none 1 io_redirect
    ∷ entry none 1 io_redirect
    ∷ entry (some by_io_file) 2 io_file
    ∷ entry (some by_io_file) 2 io_file
    ∷ entry (some by_io_file) 2 io_file
    ∷ entry (some by_from_term) 1 filename
    ∷ entry (some by_io_here) 2 io_here
    ∷ entry none 1 here_end
    ∷ entry none 1 newline_list
    ∷ entry none 2 newline_list
    ∷ entry none 1 linebreak
    ∷ entry none 0 linebreak
    ∷ []

unfoldable pub rule_dispatch_first : ℕ → Option Rule
rule_dispatch_first action = get_elem? rules_first action

unfoldable pub rule_dispatch_second : ℕ → Option Rule
rule_dispatch_second action = get_elem? rules_second (action - 16)

unfoldable pub rule_dispatch_third : ℕ → Option Rule
rule_dispatch_third action = get_elem? rules_third (action - 32)

unfoldable pub get_rule : ℕ → Option Rule
unfolding rule_dispatch_first rule_dispatch_second rule_dispatch_third
get_rule action =
    if ltb action 16
    then rule_dispatch_first action
    else if ltb action 32
    then rule_dispatch_second action
    else rule_dispatch_third action
