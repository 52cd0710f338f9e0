-- ===== src/Parser/ShiftReduce.antt =====
-- One action of the parser: srcs/parser/shift_reduce.c, with reduce_compute_result and
-- get_exec_root of reduce_helpers.c. `none` is a read outside a table or below the stack.
use minishell.Base.{ℕ, zero, suc, ◌-◌, Option, none, some, ◌>>=◌, ◌==◌, if◌then◌else◌}
use minishell.Ctx.{Ctx}
use minishell.Libft.{Libft}
use minishell.Parser.Action.{Action, shift_to, reduce_by, get_action, get_goto, yyfinal}
use minishell.Parser.Dispatch.{Handler, Rule, get_rule}
use minishell.Parser.Reduce.{Reduced, run_handler}
use minishell.Parser.Stack.{push_symbol, pop_symbols, get_symbol_from_rhs}
use minishell.Types.{
  SymbolType, same, Symbol, ParserState, LalrAction, lalr_shift, lalr_reduce, lalr_accept,
  lalr_error,
}

module _ (lib : Libft) where
  -- the node of the result; the handler is called for a rule with a right-hand side
  unfoldable pub result_node : Ctx lib → ParserState → Rule → Option Handler → Reduced lib
  result_node c parse rule none = (c, parse, (get_symbol_from_rhs lib c rule 0).node_idx)
  result_node c parse rule (some handler) = run_handler lib handler c parse rule

  unfoldable pub reduce_compute_result : Ctx lib → ParserState → Rule → Reduced lib
  unfolding result_node
  reduce_compute_result c parse rule =
      if rule.rhs_len == 0 then (c, parse, 0) else result_node c parse rule rule.handler

  -- the token that reduce_compute_result stores through its last argument
  unfoldable pub result_token : Ctx lib → ParserState → Rule → ℕ
  result_token c parse rule =
      if rule.rhs_len == 0
      then parse.token_idx
      else (get_symbol_from_rhs lib c rule (rule.rhs_len - 1)).token_idx

  unfoldable pub get_exec_root : Ctx lib → Rule → ℕ
  get_exec_root c rule =
      if same rule.lhs_type SymbolType.complete_commands
      then (get_symbol_from_rhs lib c rule (rule.rhs_len - 1)).node_idx
      else 0

  abbrev pub Acted : Type 0
  Acted = Ctx lib × ParserState × LalrAction

  unfoldable pub reduce_apply_goto : ParserState → Rule → Option ParserState
  reduce_apply_goto parse rule =
      get_goto rule.lhs_type parse.state >>= λ state. some (record parse { state = state })

  -- the part of `reduce` behind the handler: the left-hand side takes the place of the right
  unfoldable pub replace_rhs : Ctx lib → ParserState → Rule → Symbol → Option Acted
  unfolding reduce_apply_goto
  replace_rhs c parse rule sym = do
    (c1, parse1) ← pop_symbols lib c parse rule.rhs_len
    parse2 ← reduce_apply_goto parse1 rule
    let pushed = push_symbol lib c1 parse2 sym
    some (pushed.0, pushed.1, if pushed.1.state == yyfinal then lalr_accept else lalr_reduce)

  unfoldable pub reduce : Ctx lib → ParserState → ℕ → Option Acted
  unfolding reduce_compute_result result_token get_exec_root replace_rhs
  reduce c parse action = do
    rule ← get_rule action
    let result = reduce_compute_result c parse rule
    let sym : Symbol = record {
      node_idx = result.2;
      token_idx = result_token c parse rule;
      entry_state = 0;
      type = rule.lhs_type;
    }
    let parse' = record (result.1) { exec_root_idx = get_exec_root result.0 rule }
    replace_rhs result.0 parse' rule sym

  unfoldable pub reduce_or_error : Ctx lib → ParserState → ℕ → Option Acted
  unfolding reduce
  reduce_or_error c parse zero = some (c, parse, lalr_error)
  reduce_or_error c parse (suc action) = reduce c parse (suc action)

  unfoldable pub shift : Ctx lib → ParserState → ℕ → Option Acted
  shift c parse action =
      let parse' = record parse { state = action } in
      let sym : Symbol = record {
        node_idx = 0;
        token_idx = parse'.token_idx;
        entry_state = 0;
        type = parse'.lookahead_type;
      } in
      let (c2, parse2) = push_symbol lib c parse' sym in
      some (if action == yyfinal then (c, parse', lalr_accept) else (c2, parse2, lalr_shift))

  unfoldable pub perform : Ctx lib → ParserState → Action → Option Acted
  unfolding reduce_or_error shift
  perform c parse (shift_to state) = shift c parse state
  perform c parse (reduce_by rule) = reduce_or_error c parse rule

  unfoldable pub shift_reduce : Ctx lib → ParserState → Option Acted
  unfolding perform
  shift_reduce c parse = get_action parse.state parse.lookahead_type >>= perform c parse
