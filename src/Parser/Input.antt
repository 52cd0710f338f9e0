-- ===== src/Parser/Input.antt =====
-- The parser's loop: srcs/parser/parse_input.c, and close_heredoc_fds of
-- srcs/error_handling/close_fds.c. What execute_list does, and the files of here-documents, are
-- parameters.
use minishell.Base.{
  ℕ, zero, suc, ◌+◌, ◌-◌, ◌≡◌, Bool, true, false, not, ◌&&◌, ◌||◌, Option, none, some, ◌>>=◌, ◌==◌,
  if◌then◌else◌, ℤ, negsuc,
}
use minishell.Ctx.{Ctx}
use minishell.Libft.{Libft}
use minishell.Parser.Flow.{Flow, get_lookahead, handle_here_doc, report_parse_error}
use minishell.Parser.Init.{init_parser}
use minishell.Parser.Nodes.{get_node_from_idx, put_node}
use minishell.Parser.ShiftReduce.{Acted, shift_reduce}
use minishell.Parser.Stack.{get_symbol_from_idx}
use minishell.Types.{
  LexerState, ParserState, Symbol, Node, NodeType, redir_node, zero_node, SymbolType, LalrAction,
  lalr_shift, lalr_reduce, lalr_accept, lalr_error,
}

-- A result; `unfinished` where the fuel runs out or a here-document reads behind its line, `outside`
-- for a read outside the tables or below the stack.
pub data Result (A : Type 0) : Type 0 where
  returned : A → Result A
  unfinished : Result A
  outside : Result A

infixl 5 ◌>>=ᵣ◌
abbrev pub ◌>>=ᵣ◌ : {A B : Type 0} → Result A → (A → Result B) → Result B
returned a >>=ᵣ f = f a
unfinished >>=ᵣ f = unfinished
outside >>=ᵣ f = outside

-- where `none` is the end of the fuel
abbrev pub or_unfinished : {A : Type 0} → Option A → Result A
or_unfinished none = unfinished
or_unfinished (some a) = returned a

abbrev pub or_outside : {A : Type 0} → Option A → Result A
or_outside none = outside
or_outside (some a) = returned a

abbrev pub is_redir : NodeType → Bool
is_redir redir_node = true
is_redir _ = false

-- execute_list; `none` where the commands do not end. It leaves the parser's stack as it is.
pub record Executor (lib : Libft) : Type 0 where
  pub execute_list : Ctx lib → ℕ → Option (Ctx lib)
  pub same_stack :
      (c : Ctx lib) (head_idx : ℕ) (c' : Ctx lib)
      → execute_list c head_idx ≡ some c'
      → c'.stack ≡ c.stack

unfoldable pub parse_advance : ParserState → LalrAction → ParserState × Bool
unfolding report_parse_error
parse_advance parse lalr_reduce = (parse, true)
parse_advance parse lalr_shift =
    (record parse { flags = record (parse.flags) { has_lookahead = false } }, true)
parse_advance parse lalr_accept =
    (record parse { flags = record (parse.flags) { has_lookahead = false; done = true } }, false)
parse_advance parse lalr_error = (
  report_parse_error (record parse { flags = record (parse.flags) { has_lookahead = false } }),
  false,
)

module _ (lib : Libft) where
  unfoldable pub close_loop : ℕ → ℕ → Ctx lib → Ctx lib
  close_loop zero i c = c
  close_loop (suc left) i c =
      let node = get_node_from_idx lib c i in
      let closed = record node { content = record (node.content) { fd = negsuc 0 } } in
      close_loop left (i + 1)
        (if is_redir node.type && node.flags.redir_here then put_node lib c i closed else c)

  -- the descriptors of here-documents in the nodes from 1 on
  unfoldable pub close_heredoc_fds : Ctx lib → Ctx lib
  unfolding close_loop
  close_heredoc_fds c = close_loop (lib.count Node c.commands - 1) 1 c

  module _ (executor : Executor lib) where
    -- what follows a call of execute_list
    abbrev pub reclaim : ParserState → Ctx lib → Ctx lib × ParserState
    reclaim parse c =
        let c' = close_heredoc_fds c in
        let symbol = get_symbol_from_idx lib c' parse.stack_idx in
        (
          record c' {
            commands = lib.clear Node zero_node;
            stack = lib.set Symbol c'.stack parse.stack_idx (record symbol { node_idx = 0 });
          },
          record parse { exec_root_idx = 0 },
        )

    unfoldable pub check_and_run_pending_exec :
        Ctx lib → ParserState → Option (Ctx lib × ParserState)
    check_and_run_pending_exec c parse =
        if parse.exec_root_idx == 0
        then some (c, parse)
        else executor.execute_list c parse.exec_root_idx >>= λ c'. some (reclaim parse c')

    -- one action and the execution behind it
    unfoldable pub act : Ctx lib → ParserState → Result (Acted lib)
    unfolding check_and_run_pending_exec
    act c parse = or_outside (shift_reduce lib c parse) >>=ᵣ λ (c1, parse1, action).
        or_unfinished (check_and_run_pending_exec c1 parse1) >>=ᵣ λ (c2, parse2).
        returned (c2, parse2, action)

    unfoldable pub final_pass : ℕ → Ctx lib → ParserState → Result (Ctx lib × ParserState)
    unfolding act report_parse_error
    final_pass zero c parse = unfinished
    final_pass (suc fuel) c parse = act c parse >>=ᵣ λ (c', parse', action). elim action [
      | lalr_accept ↦ returned (c', record parse' { flags = record (parse'.flags) { done = true } })
      | lalr_error ↦ returned (c', report_parse_error parse')
      | lalr_shift ↦ final_pass fuel c' parse'
      | lalr_reduce ↦ final_pass fuel c' parse'
    ]

    module _ (create_here_temp : Ctx lib → ℤ × ℤ) where
      -- the first test of run_parse_iteration
      unfoldable pub lookahead_or_old : ℕ → Ctx lib → ParserState → LexerState → Option (Flow lib)
      lookahead_or_old fuel c parse lex =
          if not parse.flags.has_lookahead
          then get_lookahead lib create_here_temp fuel c parse lex
          else some (c, parse, lex, true)

      unfoldable pub run_parse_iteration :
          ℕ → Ctx lib → ParserState → LexerState → Result (Flow lib)
      unfolding lookahead_or_old act
      run_parse_iteration fuel c parse lex =
          or_unfinished (lookahead_or_old fuel c parse lex) >>=ᵣ λ (c1, parse1, lex1, got).
          let saved = record parse1 { flags = record (parse1.flags) { has_lookahead = false } } in
          if not got
          then returned (c1, parse1, lex1, false)
          else if parse1.flags.save_tokens
          then returned (c1, handle_here_doc lib c1 saved, lex1, true)
          else act c1 parse1 >>=ᵣ λ (c2, parse2, action).
              let (parse3, more) = parse_advance parse2 action in returned (c2, parse3, lex1, more)

      unfoldable pub parse_loop :
          ℕ → Ctx lib → ParserState → LexerState → Result (Ctx lib × ParserState × LexerState)
      unfolding run_parse_iteration
      parse_loop zero c parse lex = unfinished
      parse_loop (suc fuel) c parse lex =
          run_parse_iteration fuel c parse lex >>=ᵣ λ (c', parse', lex', more).
          let rest = parse_loop fuel c' parse' lex' in
          if more then rest else returned (c', parse', lex')

      abbrev pub is_open_parse : ParserState → Bool
      is_open_parse parse =
          not parse.flags.error && not parse.flags.done && not parse.flags.interrupted

      -- what parse_input does behind the loop
      unfoldable pub finish :
          ℕ → Ctx lib × ParserState × LexerState → Result (Ctx lib × ParserState)
      unfolding final_pass close_heredoc_fds
      finish fuel (c, parse, lex) =
          let interrupted = record parse { flags = record (parse.flags) { interrupted = true } } in
          let parse1 = if lex.flags.interrupted then interrupted else parse in
          let final = final_pass fuel c (record parse1 { lookahead_type = SymbolType.eof }) in
          (if is_open_parse parse1 then final else returned (c, parse1)) >>=ᵣ λ (c', parse').
          let closes = parse'.flags.error || parse'.flags.interrupted in
          returned (if closes then close_heredoc_fds c' else c', parse')

      unfoldable pub parse_input : ℕ → Ctx lib → Result (Ctx lib × ParserState)
      unfolding parse_loop finish
      parse_input fuel c =
          let (c', parse, lex) = init_parser lib c in parse_loop fuel c' parse lex >>=ᵣ finish fuel
