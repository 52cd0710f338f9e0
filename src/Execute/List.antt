-- ===== src/Execute/List.antt =====
-- The pipelines of a list, joined by && and ||: srcs/execute/execute_list.c. What one pipeline
-- does is a parameter. `none` says that the fuel ran out.
use minishell.Base.{
  ℕ, zero, suc, Bool, true, false, not, ◌&&◌, ◌||◌, ◌≡◌, Option, none, some, ◌>>=◌, ◌==◌,
  if◌then◌else◌,
}
use minishell.Ctx.{Ctx}
use minishell.Libft.{Libft}
use minishell.Parser.Nodes.{get_node_from_idx}
use minishell.Types.{Node, NodeType, NodeFlags, pipeline_node}

abbrev pub is_pipeline : NodeType → Bool
is_pipeline pipeline_node = true
is_pipeline _ = false

-- execute_pipeline: the context after it and the status. It keeps the nodes of pipelines and makes
-- no other node one, while it may rewrite redirections: process_redirection.c closes a
-- here-document in the node, and build_command.c puts the expanded name there.
pub record Pipelines (lib : Libft) : Type 0 where
  pub execute_pipeline : Ctx lib → Node → Ctx lib × ℕ
  pub same_pipelines :
      (c : Ctx lib) (node : Node) (i : ℕ)
      → is_pipeline (lib.get Node c.commands i).type ≡ true
      → lib.get Node (execute_pipeline c node).0.commands i ≡ lib.get Node c.commands i
  pub no_more_pipelines :
      (c : Ctx lib) (node : Node) (i : ℕ)
      → is_pipeline (lib.get Node c.commands i).type ≡ false
      → is_pipeline (lib.get Node (execute_pipeline c node).0.commands i).type ≡ false

module _ (lib : Libft) where
  -- get_ptr_from_idx of the next node
  abbrev pub next_node : Ctx lib → Node → Node
  next_node c node = get_node_from_idx lib c node.next_idx

  -- the loop of get_next_with_or and get_next_with_and, until a pipeline with this flag
  unfoldable pub next_loop : (NodeFlags → Bool) → ℕ → Ctx lib → Node → Option Node
  next_loop flag zero c node = none
  next_loop flag (suc fuel) c node =
      let rest = next_loop flag fuel c (next_node c node) in
      if is_pipeline node.type && not (flag node.flags) then rest else some node

  unfoldable pub get_next_with_or : ℕ → Ctx lib → Node → Option Node
  unfolding next_loop
  get_next_with_or fuel c current = next_loop (λ f. f.or_if) fuel c (next_node c current)

  unfoldable pub get_next_with_and : ℕ → Ctx lib → Node → Option Node
  unfolding next_loop
  get_next_with_and fuel c current = next_loop (λ f. f.and_if) fuel c (next_node c current)

  -- get_next, of the node that the current one leads to
  unfoldable pub choose_next : ℕ → Ctx lib → Node → Option Node
  unfolding get_next_with_or get_next_with_and
  choose_next fuel c node =
      let flags = node.flags in
      let succeeded = c.return_status == 0 in
      if not (is_pipeline node.type)
        || (not flags.and_if && not flags.or_if)
        || (flags.and_if && succeeded)
        || (flags.or_if && not succeeded)
      then some node
      else if flags.and_if
      then get_next_with_or fuel c node
      else get_next_with_and fuel c node

  unfoldable pub get_next : ℕ → Ctx lib → Node → Option Node
  unfolding choose_next
  get_next fuel c current = choose_next fuel c (next_node c current)

  module _ (pipelines : Pipelines lib) where
    -- the assignment of the status
    abbrev pub run_pipeline : Ctx lib → Node → Ctx lib
    run_pipeline c node =
        let (c', status) = pipelines.execute_pipeline c node in record c' { return_status = status }

    unfoldable pub list_loop : ℕ → Ctx lib → Node → Option (Ctx lib)
    unfolding get_next
    list_loop zero c node = none
    list_loop (suc fuel) c node =
        let c' = run_pipeline c node in
        let rest = get_next fuel c' node >>= list_loop fuel c' in
        if is_pipeline node.type then (if c'.should_exit then some c' else rest) else some c

    unfoldable pub execute_list : ℕ → Ctx lib → ℕ → Option (Ctx lib)
    unfolding list_loop
    execute_list fuel c head_idx = list_loop fuel c (get_node_from_idx lib c head_idx)
