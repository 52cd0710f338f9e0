-- ===== src/Parser/Keeps.antt =====
-- The handlers of a reduction leave the stack and the parser's place on it alone.
use minishell.Base.{ℕ, ◌≡◌, refl, if_rule, ◌==◌, Option, none, some, arith}
use minishell.Ctx.{Ctx}
use minishell.Libft.{Libft}
use minishell.Parser.Dispatch.{Rule, Handler}
use minishell.Parser.Nodes.{alloc_node, put_node, append_node_to_tail}
use minishell.Parser.Reduce.{
  Reduced, run_handler, reduce_program, reduce_list_append, reduce_and_or_conditional,
  reduce_pipeline_create, reduce_pipeline_append, reduce_from_term,
  reduce_simple_command_from_suffix, reduce_simple_command, reduce_cmd_suffix,
  reduce_subshell_redirects, reduce_compound_list, reduce_subshell, reduce_redir_append,
  reduce_io_file, reduce_io_here,
}
use minishell.Parser.ShiftReduce.{result_node, reduce_compute_result}
use minishell.Types.{NodeType, Node, ParserState}

module _ (lib : Libft) where
  pub record Keeps (c : Ctx lib) (parse : ParserState) (r : Reduced lib) : Type 0 where
    pub stack : r.0.stack ≡ c.stack
    pub stack_idx : r.1.stack_idx ≡ parse.stack_idx
    pub state : r.1.state ≡ parse.state
    pub lookahead : r.1.lookahead_type ≡ parse.lookahead_type

  append_node_to_tail-stack :
      (c : Ctx lib) (head new : ℕ) → (append_node_to_tail lib c head new).0.stack ≡ c.stack
  unfolding append_node_to_tail
  append_node_to_tail-stack c head new = ground arith

  alloc_node-stack : (c : Ctx lib) (type : NodeType) → (alloc_node lib c type).0.stack ≡ c.stack
  unfolding alloc_node
  alloc_node-stack c type = refl

  put_node-stack : (c : Ctx lib) (i : ℕ) (node : Node) → (put_node lib c i node).stack ≡ c.stack
  unfolding put_node
  put_node-stack c i node = refl

  module _ (c : Ctx lib) (parse : ParserState) (rule : Rule) where
    run_handler-Keeps : (h : Handler) → Keeps c parse (run_handler lib h c parse rule)
    unfolding run_handler reduce_program reduce_list_append reduce_and_or_conditional
        reduce_pipeline_create reduce_pipeline_append reduce_from_term
        reduce_simple_command_from_suffix reduce_simple_command reduce_cmd_suffix
        reduce_subshell_redirects reduce_compound_list reduce_subshell reduce_redir_append
        reduce_io_file reduce_io_here
    run_handler-Keeps Handler.by_program =
        grind (arith, append_node_to_tail-stack, alloc_node-stack, put_node-stack)
    run_handler-Keeps _ = grind (arith, append_node_to_tail-stack, alloc_node-stack, put_node-stack)

    result_node-Keeps : (h : Option Handler) → Keeps c parse (result_node lib c parse rule h)
    unfolding result_node
    result_node-Keeps none = record {
      stack = refl;
      stack_idx = refl;
      state = refl;
      lookahead = refl;
    }
    result_node-Keeps (some h) = run_handler-Keeps h

    pub reduce_compute_result-Keeps : Keeps c parse (reduce_compute_result lib c parse rule)
    unfolding reduce_compute_result
    reduce_compute_result-Keeps =
        if_rule (Keeps c parse) (rule.rhs_len == 0) _ _
          (λ _. record { stack = refl; stack_idx = refl; state = refl; lookahead = refl })
          (λ _. result_node-Keeps rule.handler)
