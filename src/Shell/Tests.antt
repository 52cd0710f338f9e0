-- ===== src/Shell/Tests.antt =====
-- Runs of the shell's loop over concrete input.
use minishell.Base.{◌≡◌, ap, some, [], ◌∷◌, ℤ, negsuc, refl}
use minishell.Ctx.{Ctx}
use minishell.Libft.{concrete}
use minishell.Parser.Input.{Result, Executor, returned}
use minishell.Samples.{codes, ctx}
use minishell.Shell.{shell_loop, main}
use minishell.Shell.Session.{Session, shell_loop-Session}
use minishell.Types.{line_read, input_interrupted}

same_ctx : (a b : Ctx concrete) → some a ≡ some b → b ≡ a
same_ctx a b e = cc

-- commands that do nothing
abbrev idle : Executor concrete
idle = record {
  execute_list = λ c head_idx. some c;
  same_stack = λ c head_idx c' e. ap (λ (d : Ctx concrete). d.stack) (same_ctx c c' e);
}

abbrev no_files : Ctx concrete → ℤ × ℤ
no_files c = (negsuc 0, negsuc 0)

abbrev start : Ctx concrete
start = record (ctx "" []) {
  input = input_interrupted ∷ line_read (codes "ls | wc\n") ∷ line_read (codes "| x\n") ∷ [];
}

-- what a run returns, or else the first argument
abbrev outcome : {A : Type 0} → A → Result A → A
outcome a (Result.returned r) = r
outcome a Result.unfinished = a
outcome a Result.outside = a

abbrev last : Ctx concrete
last = outcome start (shell_loop concrete idle no_files 60 start)

-- an interrupted read, a line, a line with an error, and the end
session_returned :
    (shell_loop concrete idle no_files 60 start ≡ returned last) × (last.return_status ≡ 2)
unfolding minishell.Shell.main minishell.Utils.is_char_in_set minishell.Utils.is_str_in_set
    minishell.Lexer.Rules.delimit_lex_token minishell.Lexer.Rules.apply_rule_1
    minishell.Lexer.Rules.apply_rule_3 minishell.Lexer.Rules.apply_rule_6
    minishell.Lexer.Rules.apply_rule_7 minishell.Lexer.Rules.apply_rule_8
    minishell.Lexer.Rules.apply_rule_10 minishell.Lexer.Rules.lex_plain
    minishell.Lexer.Rules.lex_token minishell.Lexer.Scan.consume_char
    minishell.Lexer.Scan.grow_lex_token minishell.Lexer.Scan.start_lex_token
    minishell.Lexer.Scan.get_operator_strs minishell.Lexer.Scan.is_expansion_start
    minishell.Parser.Action.get_action minishell.Parser.Action.get_goto
    minishell.Parser.Dispatch.get_rule minishell.Parser.Flow.get_lookahead
    minishell.Parser.Classify.classify_token minishell.Parser.Stack.get_symbol_from_rhs
    minishell.Parser.Stack.get_token_from_idx minishell.Parser.Stack.get_token_body
    minishell.Parser.Stack.push_symbol minishell.Parser.Stack.pop_symbols
    minishell.Parser.Reduce.reduce_program minishell.Parser.Reduce.reduce_pipeline_create
    minishell.Parser.Reduce.reduce_pipeline_append minishell.Parser.Reduce.reduce_from_term
    minishell.Parser.Reduce.reduce_simple_command minishell.Parser.Reduce.run_handler
    minishell.Parser.Init.init_parser minishell.Parser.ShiftReduce.shift_reduce
    minishell.Parser.Input.parse_advance minishell.Parser.Input.parse_input
    minishell.Parser.Nodes.alloc_node minishell.Parser.Nodes.append_node_to_tail
session_returned = (refl, refl)

shell_loop-Session_example : Session concrete idle no_files start last
unfolding minishell.Shell.main minishell.Utils.is_char_in_set minishell.Utils.is_str_in_set
    minishell.Lexer.Rules.delimit_lex_token minishell.Lexer.Rules.apply_rule_1
    minishell.Lexer.Rules.apply_rule_3 minishell.Lexer.Rules.apply_rule_6
    minishell.Lexer.Rules.apply_rule_7 minishell.Lexer.Rules.apply_rule_8
    minishell.Lexer.Rules.apply_rule_10 minishell.Lexer.Rules.lex_plain
    minishell.Lexer.Rules.lex_token minishell.Lexer.Scan.consume_char
    minishell.Lexer.Scan.grow_lex_token minishell.Lexer.Scan.start_lex_token
    minishell.Lexer.Scan.get_operator_strs minishell.Lexer.Scan.is_expansion_start
    minishell.Parser.Action.get_action minishell.Parser.Action.get_goto
    minishell.Parser.Dispatch.get_rule minishell.Parser.Flow.get_lookahead
    minishell.Parser.Classify.classify_token minishell.Parser.Stack.get_symbol_from_rhs
    minishell.Parser.Stack.get_token_from_idx minishell.Parser.Stack.get_token_body
    minishell.Parser.Stack.push_symbol minishell.Parser.Stack.pop_symbols
    minishell.Parser.Reduce.reduce_program minishell.Parser.Reduce.reduce_pipeline_create
    minishell.Parser.Reduce.reduce_pipeline_append minishell.Parser.Reduce.reduce_from_term
    minishell.Parser.Reduce.reduce_simple_command minishell.Parser.Reduce.run_handler
    minishell.Parser.Init.init_parser minishell.Parser.ShiftReduce.shift_reduce
    minishell.Parser.Input.parse_advance minishell.Parser.Input.parse_input
    minishell.Parser.Nodes.alloc_node minishell.Parser.Nodes.append_node_to_tail
shell_loop-Session_example = shell_loop-Session concrete idle no_files 60 start

-- at an interruption and the end of the input the shell ends with 130
interrupted_run :
    main concrete idle no_files (codes "/") 2 [] (input_interrupted ∷ []) ≡ returned 130
unfolding main
interrupted_run = refl
