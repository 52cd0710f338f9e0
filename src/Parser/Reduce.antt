-- ===== src/Parser/Reduce.antt =====
-- The handlers that build nodes at a reduction: srcs/parser/reduce_command.c, reduce_compound.c,
-- reduce_from_term.c, reduce_pipeline.c and reduce_redir.c, and quote_remove.c. A handler returns
-- the context, the parser state and the index of its node.
use minishell.Base.{
  ℕ, zero, suc, ◌+◌, ◌-◌, true, [], ◌∷◌, ◌++◌, Bytes, ◌==◌, if◌then◌else◌, pos, negsuc, length,
  take, drop,
}
use minishell.Ctx.{Ctx}
use minishell.Libft.{Libft}
use minishell.Parser.Dispatch.{Rule, Handler}
use minishell.Parser.Nodes.{alloc_node, get_node_from_idx, put_node, append_node_to_tail}
use minishell.Parser.Stack.{get_symbol_from_rhs, get_token_from_idx, get_token_body}
use minishell.Types.{
  SymbolType, same, Token, NodeFlags, no_node_flags, pipeline_node, command_node, arg_node,
  redir_node, ParserState,
}
use minishell.Utils.{is_char_in_set, quote_set}

module _ (lib : Libft) where
  -- The text from the reading position on, as it is rewritten: the writes stay behind the reads.
  -- The fuel is the length of the text, and each round reads a byte.
  unfoldable pub quote_remove_loop : ℕ → Bytes → Bytes
  quote_remove_loop zero s = []
  quote_remove_loop (suc fuel) [] = []
  quote_remove_loop (suc fuel) (x ∷ rest) =
      elim (if is_char_in_set x quote_set then lib.indchr rest x else negsuc 0) [
        | negsuc _ ↦ x ∷ quote_remove_loop fuel rest
        | pos end ↦ take end rest ++ quote_remove_loop fuel (drop (end + 1) rest)
      ]

  unfoldable pub quote_remove_inplace : Bytes → Bytes
  unfolding quote_remove_loop
  quote_remove_inplace s = quote_remove_loop (length s) s

  abbrev pub Reduced : Type 0
  Reduced = Ctx lib × ParserState × ℕ

  -- the node of the i-th symbol of the right-hand side
  abbrev rhs_node : Ctx lib → Rule → ℕ → ℕ
  rhs_node c rule i = (get_symbol_from_rhs lib c rule i).node_idx

  abbrev rhs_type : Ctx lib → Rule → ℕ → SymbolType
  rhs_type c rule i = (get_symbol_from_rhs lib c rule i).type

  -- a call of append_node_to_tail whose result is the handler's
  abbrev append_result : Ctx lib → ParserState → ℕ → ℕ → Reduced
  append_result c parse head new =
      let (c', idx) = append_node_to_tail lib c head new in (c', parse, idx)

  unfoldable pub reduce_program : Ctx lib → ParserState → Rule → Reduced
  reduce_program c parse rule = (c, parse, rhs_node c rule 1)

  unfoldable pub reduce_list_append : Ctx lib → ParserState → Rule → Reduced
  reduce_list_append c parse rule =
      append_result c parse (rhs_node c rule 0) (rhs_node c rule (rule.rhs_len - 1))

  unfoldable pub reduce_and_or_conditional : Ctx lib → ParserState → Rule → Reduced
  unfolding reduce_list_append
  reduce_and_or_conditional c parse rule =
      let idx = rhs_node c rule 3 in
      let node = get_node_from_idx lib c idx in
      let flags =
        if same (rhs_type c rule 1) SymbolType.and_if
        then record (node.flags) { and_if = true }
        else record (node.flags) { or_if = true } in
      reduce_list_append (put_node lib c idx (record node { flags = flags })) parse rule

  unfoldable pub reduce_pipeline_create : Ctx lib → ParserState → Rule → Reduced
  reduce_pipeline_create c parse rule =
      let (c', idx) = alloc_node lib c pipeline_node in
      let node = get_node_from_idx lib c' idx in
      let content = record (node.content) { command_head_idx = rhs_node c rule 0 } in
      (put_node lib c' idx (record node { content = content }), parse, idx)

  unfoldable pub reduce_pipeline_append : Ctx lib → ParserState → Rule → Reduced
  reduce_pipeline_append c parse rule =
      let idx = rhs_node c rule 0 in
      let head = (get_node_from_idx lib c idx).content.command_head_idx in
      let (c', head') = append_node_to_tail lib c head (rhs_node c rule 3) in
      let node = get_node_from_idx lib c' idx in
      let content = record (node.content) { command_head_idx = head' } in
      (put_node lib c' idx (record node { content = content }), parse, idx)

  -- A word of the line as a node: a file name of a redirection, or an argument.
  unfoldable pub reduce_from_term : Ctx lib → ParserState → Rule → Reduced
  reduce_from_term c parse rule =
      let symbol = get_symbol_from_rhs lib c rule (rule.rhs_len - 1) in
      let token = get_token_from_idx lib c symbol.token_idx in
      let type = if same rule.lhs_type SymbolType.filename then redir_node else arg_node in
      let (c', idx) = alloc_node lib c type in
      let node = get_node_from_idx lib c' idx in
      let content = record (node.content) {
        arena_offset = token.offset;
        has_quotes = token.flags.has_quotes;
        has_expansion = token.flags.has_expansion;
      } in
      (put_node lib c' idx (record node { content = content }), parse, idx)

  -- the write of a command's redir_head_idx, after append_node_to_tail where that is called
  abbrev put_redirs : Ctx lib → ℕ → ℕ → Ctx lib
  put_redirs c idx head =
      let node = get_node_from_idx lib c idx in
      put_node lib c idx (record node { content = record (node.content) { redir_head_idx = head } })

  abbrev put_args : Ctx lib → ℕ → ℕ → Ctx lib
  put_args c idx head =
      let node = get_node_from_idx lib c idx in
      put_node lib c idx (record node { content = record (node.content) { arg_head_idx = head } })

  unfoldable pub reduce_simple_command_from_suffix : Ctx lib → ParserState → Rule → Reduced
  reduce_simple_command_from_suffix c parse rule =
      let cmd = rhs_node c rule (rule.rhs_len - 1) in
      let args = (get_node_from_idx lib c cmd).content.arg_head_idx in
      let (c1, head) = append_node_to_tail lib c (rhs_node c rule (rule.rhs_len - 2)) args in
      let c2 = put_args c1 cmd head in
      let redirs = (get_node_from_idx lib c2 cmd).content.redir_head_idx in
      let (c3, redir_head) = append_node_to_tail lib c2 (rhs_node c rule 0) redirs in
      (if rule.rhs_len == 3 then put_redirs c3 cmd redir_head else c2, parse, cmd)

  unfoldable pub reduce_simple_command : Ctx lib → ParserState → Rule → Reduced
  reduce_simple_command c parse rule =
      let (c', cmd) = alloc_node lib c command_node in
      let lead = rhs_node c rule 0 in
      let c2 =
        if same (rhs_type c rule 0) SymbolType.cmd_prefix
        then put_redirs c' cmd lead
        else put_args c' cmd lead in
      (if rule.rhs_len == 2 then put_args c2 cmd (rhs_node c rule 1) else c2, parse, cmd)

  suffix_attach_last : Ctx lib → ParserState → Rule → ℕ → Reduced
  unfolding reduce_from_term
  suffix_attach_last c parse rule cmd =
      let last = rule.rhs_len - 1 in
      let is_redir = same (rhs_type c rule last) SymbolType.io_redirect in
      let (c1, parse', child) =
        let from_redir : Reduced = (c, parse, rhs_node c rule last) in
        if is_redir then from_redir else reduce_from_term c parse rule in
      let content = (get_node_from_idx lib c1 cmd).content in
      let old = if is_redir then content.redir_head_idx else content.arg_head_idx in
      let (c2, head) = append_node_to_tail lib c1 old child in
      (if is_redir then put_redirs c2 cmd head else put_args c2 cmd head, parse', cmd)

  unfoldable pub reduce_cmd_suffix : Ctx lib → ParserState → Rule → Reduced
  unfolding suffix_attach_last
  reduce_cmd_suffix c parse rule =
      let (c1, fresh) = alloc_node lib c command_node in
      if rule.rhs_len == 1
      then suffix_attach_last c1 parse rule fresh
      else suffix_attach_last c parse rule (rhs_node c rule 0)

  unfoldable pub reduce_subshell_redirects : Ctx lib → ParserState → Rule → Reduced
  reduce_subshell_redirects c parse rule =
      let cmd = rhs_node c rule 0 in (put_redirs c cmd (rhs_node c rule 1), parse, cmd)

  unfoldable pub reduce_compound_list : Ctx lib → ParserState → Rule → Reduced
  reduce_compound_list c parse rule = (c, parse, rhs_node c rule 1)

  unfoldable pub reduce_subshell : Ctx lib → ParserState → Rule → Reduced
  reduce_subshell c parse rule =
      let (c', cmd) = alloc_node lib c command_node in
      let node = get_node_from_idx lib c' cmd in
      let c2 =
        put_node lib c' cmd (record node { flags = record (node.flags) { subshell = true } }) in
      (put_args c2 cmd (rhs_node c rule 1), parse, cmd)

  unfoldable pub reduce_redir_append : Ctx lib → ParserState → Rule → Reduced
  reduce_redir_append c parse rule = append_result c parse (rhs_node c rule 0) (rhs_node c rule 1)

  abbrev redir_flags : SymbolType → NodeFlags → NodeFlags
  redir_flags op flags =
      if same op SymbolType.less
      then record flags { redir_in = true }
      else if same op SymbolType.great
      then record flags { redir_out = true }
      else record flags { redir_append = true }

  unfoldable pub reduce_io_file : Ctx lib → ParserState → Rule → Reduced
  reduce_io_file c parse rule =
      let idx = rhs_node c rule 1 in
      let node = get_node_from_idx lib c idx in
      let flags = redir_flags (rhs_type c rule 0) node.flags in
      (put_node lib c idx (record node { flags = flags }), parse, idx)

  -- The delimiter loses its quotes in place; a quoted delimiter is remembered in the flags.
  set_here_delim : Ctx lib → Token → Ctx lib × NodeFlags
  set_here_delim c token =
      let body = quote_remove_inplace (get_token_body lib c token) in
      (
        record c { strings = lib.put_str c.strings token.offset body },
        record no_node_flags { redir_here = true; redir_has_quotes = token.flags.has_quotes },
      )

  unfoldable pub reduce_io_here : Ctx lib → ParserState → Rule → Reduced
  unfolding set_here_delim
  reduce_io_here c parse rule =
      let token = get_token_from_idx lib c (get_symbol_from_rhs lib c rule 1).token_idx in
      let (c1, flags) = set_here_delim c token in
      let parse' = record parse { flags = record (parse.flags) { save_tokens = true } } in
      let (c2, idx) = alloc_node lib c1 redir_node in
      let node = get_node_from_idx lib c2 idx in
      let content = record (node.content) { arena_offset = token.offset } in
      (put_node lib c2 idx (record node { flags = flags; content = content }), parse', idx)

  -- the call through the pointer `rule->handler`
  unfoldable pub run_handler : Handler → Ctx lib → ParserState → Rule → Reduced
  run_handler Handler.by_program = reduce_program
  run_handler Handler.by_list_append = reduce_list_append
  run_handler Handler.by_and_or_conditional = reduce_and_or_conditional
  run_handler Handler.by_pipeline_create = reduce_pipeline_create
  run_handler Handler.by_pipeline_append = reduce_pipeline_append
  run_handler Handler.by_subshell_redirects = reduce_subshell_redirects
  run_handler Handler.by_subshell = reduce_subshell
  run_handler Handler.by_compound_list = reduce_compound_list
  run_handler Handler.by_simple_command_from_suffix = reduce_simple_command_from_suffix
  run_handler Handler.by_simple_command = reduce_simple_command
  run_handler Handler.by_from_term = reduce_from_term
  run_handler Handler.by_redir_append = reduce_redir_append
  run_handler Handler.by_cmd_suffix = reduce_cmd_suffix
  run_handler Handler.by_io_file = reduce_io_file
  run_handler Handler.by_io_here = reduce_io_here
