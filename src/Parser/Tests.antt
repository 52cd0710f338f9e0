-- ===== src/Parser/Tests.antt =====
-- Runs of the parser over concrete terminals, and of its loop with an executor that only counts.
use minishell.Base.{◌+◌, ◌≡◌, refl, sym, ap, true, ◌||◌, Option, none, some, [], arith, ℤ, negsuc}
use minishell.Ctx.{Ctx}
use minishell.Libft.{concrete}
use minishell.Parser.Accepts.{Outcome, shift_reduce-Outcome}
use minishell.Parser.Action.{get_action, get_goto}
use minishell.Parser.Classify.{classify_token, Classified, classify_token-Classified}
use minishell.Parser.Dispatch.{get_rule}
use minishell.Parser.Input.{Result, returned, Executor, final_pass, parse_input}
use minishell.Parser.Progress.{final_pass_ends}
use minishell.Parser.Whole.{is_over, parse_input_over}
use minishell.Parser.Grammar.{Derives}
use minishell.Parser.Init.{
  init_parser, look, init_parser-IsParsing, start, reduced, Run-shift_reduce,
}
use minishell.Parser.ShiftReduce.{Acted, shift_reduce}
use minishell.Parser.Stack.{push_symbol, pop_symbols, get_symbol_from_rhs, get_token_body}
use minishell.Samples.{ctx, codes}
use minishell.Types.{
  ParserState, Token, zero_token, code, SymbolType, lalr_reduce, lalr_error, lalr_accept,
  zero_parser,
}

abbrev sample : Ctx concrete
sample = ctx "ls\n" []

shift_reduce-Outcome_example :
    (let (c, parse, lex) = init_parser concrete sample in
      let parse' = look parse SymbolType.word 1 in
      (r : Acted concrete) × (shift_reduce concrete c parse' ≡ some r)
      × Outcome concrete c parse' [] r.0 r.1 r.2)
unfolding code
shift_reduce-Outcome_example =
    let (c, parse, lex) = init_parser concrete sample in
    shift_reduce-Outcome concrete c (look parse SymbolType.word 1) []
      (init_parser-IsParsing concrete sample SymbolType.word 1) refl

abbrev result : Option (Acted concrete) → Acted concrete
result none = (sample, zero_parser, lalr_error)
result (some r) = r

abbrev first : Acted concrete
first = result (
    shift_reduce concrete (init_parser concrete sample).0
      (look (init_parser concrete sample).1 SymbolType.eof 1))

abbrev second : Acted concrete
second = result (shift_reduce concrete first.0 first.1)

first_lem :
    shift_reduce concrete
      (init_parser concrete sample).0
      (look (init_parser concrete sample).1 SymbolType.eof 1)
    ≡ some (first.0, first.1, lalr_reduce)
unfolding shift_reduce get_action get_goto get_rule push_symbol pop_symbols init_parser
first_lem = refl

second_lem : shift_reduce concrete first.0 first.1 ≡ some (second.0, second.1, lalr_reduce)
unfolding shift_reduce get_action get_goto get_rule push_symbol pop_symbols init_parser
    get_symbol_from_rhs
second_lem = refl

-- the empty input: linebreak, program, and the end is accepted
Run-shift_reduce_example :
    (r : Acted concrete) × (shift_reduce concrete second.0 second.1 ≡ some r)
    × (r.2 ≡ lalr_accept
        → (second.1.lookahead_type ≡ SymbolType.eof) × Derives SymbolType.program [])
unfolding code
Run-shift_reduce_example =
    Run-shift_reduce concrete
      (reduced (reduced (start sample SymbolType.eof 1 refl) first_lem) second_lem)

abbrev with_text : Ctx concrete
with_text = record sample { strings = concrete.strlcpy concrete.clear_strings (codes "<<") }

abbrev text_token : Token
text_token = record zero_token { offset = concrete.offset concrete.clear_strings }

classify_token-Classified_example :
    Classified concrete
      (get_token_body concrete with_text text_token)
      (classify_token concrete with_text text_token)
classify_token-Classified_example = classify_token-Classified concrete with_text text_token

unwrap-some : {A : Type 0} (a b : A) → some a ≡ some b → a ≡ b
unwrap-some a b e = cc

-- an executor that adds one to the status
abbrev counting : Executor concrete
counting = record {
  execute_list = λ c head_idx. some (record c { return_status = c.return_status + 1 });
  same_stack = λ c head_idx c' e.
      ap (λ (d : Ctx concrete). d.stack)
        (sym (unwrap-some (record c { return_status = c.return_status + 1 }) c' e));
}

abbrev no_files : Ctx concrete → ℤ × ℤ
no_files c = (negsuc 0, negsuc 0)

abbrev at_end : Ctx concrete × ParserState
at_end = ((init_parser concrete sample).0, look (init_parser concrete sample).1 SymbolType.eof 0)

final_pass_ends_example :
    (r : Ctx concrete × ParserState) × (final_pass concrete counting 4 at_end.0 at_end.1
      ≡ returned r)
    × ((r.1.flags.done || r.1.flags.error) ≡ true)
unfolding code init_parser
final_pass_ends_example =
    final_pass_ends concrete counting 4 at_end.0 at_end.1 (λ c head_idx e. cc)
      (record {
        read = [];
        parsing = init_parser-IsParsing concrete sample SymbolType.eof 0;
        terminal = refl;
      })
      refl (omega arith)

-- what a run returns, or else the first argument
abbrev outcome : {A : Type 0} → A → Result A → A
outcome a (Result.returned r) = r
outcome a Result.unfinished = a
outcome a Result.outside = a

abbrev parsed : Result (Ctx concrete × ParserState)
parsed = parse_input concrete counting no_files 60 (ctx "ls | wc && (cd)\n" [])

abbrev parsed_state : Ctx concrete × ParserState
parsed_state = outcome (sample, zero_parser) parsed

-- the line is parsed to its end, and one list is executed
parsed_returned :
    (parsed ≡ returned parsed_state)
    × (parsed_state.1.flags.done ≡ true)
    × (parsed_state.0.return_status ≡ 1)
unfolding minishell.Utils.is_char_in_set minishell.Utils.is_str_in_set
    minishell.Lexer.Rules.delimit_lex_token minishell.Lexer.Rules.apply_rule_1
    minishell.Lexer.Rules.apply_rule_2 minishell.Lexer.Rules.apply_rule_3
    minishell.Lexer.Rules.apply_rule_6 minishell.Lexer.Rules.apply_rule_7
    minishell.Lexer.Rules.apply_rule_8 minishell.Lexer.Rules.apply_rule_10
    minishell.Lexer.Rules.lex_plain minishell.Lexer.Rules.lex_token
    minishell.Lexer.Scan.consume_char minishell.Lexer.Scan.grow_lex_token
    minishell.Lexer.Scan.start_lex_token minishell.Lexer.Scan.get_operator_strs
    minishell.Lexer.Scan.is_expansion_start minishell.Parser.Action.get_action
    minishell.Parser.Action.get_goto minishell.Parser.Dispatch.get_rule
    minishell.Parser.Flow.get_lookahead minishell.Parser.Classify.classify_token
    minishell.Parser.Stack.get_symbol_from_rhs minishell.Parser.Stack.get_token_from_idx
    minishell.Parser.Stack.get_token_body minishell.Parser.Stack.push_symbol
    minishell.Parser.Stack.pop_symbols minishell.Parser.Reduce.reduce_program
    minishell.Parser.Reduce.reduce_and_or_conditional minishell.Parser.Reduce.reduce_pipeline_create
    minishell.Parser.Reduce.reduce_pipeline_append minishell.Parser.Reduce.reduce_from_term
    minishell.Parser.Reduce.reduce_simple_command minishell.Parser.Reduce.reduce_compound_list
    minishell.Parser.Reduce.reduce_subshell minishell.Parser.Reduce.run_handler
    minishell.Parser.Init.init_parser minishell.Parser.ShiftReduce.shift_reduce
    minishell.Parser.Input.parse_advance minishell.Parser.Input.parse_input
    minishell.Parser.Nodes.alloc_node minishell.Parser.Nodes.append_node_to_tail
parsed_returned = (refl, refl, refl)

parse_input_over_example : is_over concrete counting no_files parsed_state.1 ≡ true
unfolding minishell.Utils.is_char_in_set minishell.Utils.is_str_in_set
    minishell.Lexer.Rules.delimit_lex_token minishell.Lexer.Rules.apply_rule_1
    minishell.Lexer.Rules.apply_rule_2 minishell.Lexer.Rules.apply_rule_3
    minishell.Lexer.Rules.apply_rule_6 minishell.Lexer.Rules.apply_rule_7
    minishell.Lexer.Rules.apply_rule_8 minishell.Lexer.Rules.apply_rule_10
    minishell.Lexer.Rules.lex_plain minishell.Lexer.Rules.lex_token
    minishell.Lexer.Scan.consume_char minishell.Lexer.Scan.grow_lex_token
    minishell.Lexer.Scan.start_lex_token minishell.Lexer.Scan.get_operator_strs
    minishell.Lexer.Scan.is_expansion_start minishell.Parser.Action.get_action
    minishell.Parser.Action.get_goto minishell.Parser.Dispatch.get_rule
    minishell.Parser.Flow.get_lookahead minishell.Parser.Classify.classify_token
    minishell.Parser.Stack.get_symbol_from_rhs minishell.Parser.Stack.get_token_from_idx
    minishell.Parser.Stack.get_token_body minishell.Parser.Stack.push_symbol
    minishell.Parser.Stack.pop_symbols minishell.Parser.Reduce.reduce_program
    minishell.Parser.Reduce.reduce_and_or_conditional minishell.Parser.Reduce.reduce_pipeline_create
    minishell.Parser.Reduce.reduce_pipeline_append minishell.Parser.Reduce.reduce_from_term
    minishell.Parser.Reduce.reduce_simple_command minishell.Parser.Reduce.reduce_compound_list
    minishell.Parser.Reduce.reduce_subshell minishell.Parser.Reduce.run_handler
    minishell.Parser.Init.init_parser minishell.Parser.ShiftReduce.shift_reduce
    minishell.Parser.Input.parse_advance minishell.Parser.Input.parse_input
    minishell.Parser.Nodes.alloc_node minishell.Parser.Nodes.append_node_to_tail
parse_input_over_example =
    parse_input_over concrete counting no_files 60 (ctx "ls | wc && (cd)\n" [])
