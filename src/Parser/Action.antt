-- ===== src/Parser/Action.antt =====
-- What the tables say: the action for a state and a lookahead (the first part of shift_reduce in
-- srcs/parser/shift_reduce.c), and the state after a reduction (reduce_apply_goto of stack_ops.c).
-- `none` is a read outside a table.
use minishell.Base.{
  ℕ, zero, suc, ◌-◌, Bool, false, Option, none, some, ◌>>=◌, ◌==◌, leb, ltb, if◌then◌else◌, ℤ, pos,
  negsuc, ◌+ℕ◌, eq_ℕ,
}
use minishell.Parser.Tables.{
  get_yypact, get_yydefact, get_yypgoto, get_yydefgoto, get_yytable, get_yycheck,
}
use minishell.Types.{SymbolType, code}

abbrev pub yyfinal : ℕ
yyfinal = 5

abbrev pub yylast : ℕ
yylast = 67

abbrev pub nterm_offset : ℕ
nterm_offset = 14

-- `index == YYPACT_NINF`, that is -44
abbrev is_ninf : ℤ → Bool
is_ninf (pos n) = false
is_ninf (negsuc n) = n == 43

-- A shift to a state, a reduction by a rule, and rule 0 for an error.
pub data Action : Type 0 where
  shift_to : ℕ → Action
  reduce_by : ℕ → Action

abbrev entry_action : ℕ → Action
entry_action zero = reduce_by 0
entry_action (suc n) = shift_to (suc n)

abbrev default_action : ℕ → Option Action
default_action state = get_yydefact state >>= λ rule. some (reduce_by rule)

-- `index` is the sum of yypact and the lookahead
indexed_action : ℤ → ℕ → ℕ → Option Action
indexed_action (negsuc _) state lookahead = default_action state
indexed_action (pos index) state lookahead =
    if ltb yylast index
    then default_action state
    else get_yycheck index >>= λ check.
        if eq_ℕ check lookahead
        then get_yytable index >>= (λ entry. some (entry_action entry))
        else default_action state

unfoldable pub get_action : ℕ → SymbolType → Option Action
unfolding get_yypact get_yydefact get_yytable get_yycheck indexed_action code
get_action state lookahead = get_yypact state >>= λ index.
    if is_ninf index
    then default_action state
    else indexed_action (index +ℕ code lookahead) state (code lookahead)

indexed_goto : ℤ → ℕ → ℕ → Option ℕ
indexed_goto (negsuc _) lhs state = get_yydefgoto lhs
indexed_goto (pos index) lhs state =
    if leb index yylast
    then get_yycheck index
      >>= (λ check. if eq_ℕ check state then get_yytable index else get_yydefgoto lhs)
    else get_yydefgoto lhs

-- a terminal on the left would index below the table
unfoldable pub get_goto : SymbolType → ℕ → Option ℕ
unfolding get_yypgoto get_yydefgoto get_yytable get_yycheck indexed_goto code
get_goto lhs_type state =
    if ltb (code lhs_type) nterm_offset
    then none
    else let lhs = code lhs_type - nterm_offset in
      get_yypgoto lhs >>= λ offset. indexed_goto (offset +ℕ state) lhs state
