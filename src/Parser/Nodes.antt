-- ===== src/Parser/Nodes.antt =====
-- The nodes of AT_COMMAND and their sibling lists: srcs/parser/node_utils.c.
use minishell.Base.{ℕ, zero, suc, ◌==◌, if◌then◌else◌}
use minishell.Ctx.{Ctx}
use minishell.Libft.{Libft}
use minishell.Types.{Node, NodeType, zero_node}

module _ (lib : Libft) where
  unfoldable pub alloc_node : Ctx lib → NodeType → Ctx lib × ℕ
  alloc_node c type =
      let idx = lib.count Node c.commands in
      (
        record c {
          commands =
              lib.set Node (lib.alloc Node c.commands) idx (record zero_node { type = type });
        },
        idx,
      )

  unfoldable pub get_node_from_idx : Ctx lib → ℕ → Node
  get_node_from_idx c idx = lib.get Node c.commands idx

  -- a write through the pointer that get_node_from_idx returns
  unfoldable pub put_node : Ctx lib → ℕ → Node → Ctx lib
  put_node c idx node = record c { commands = lib.set Node c.commands idx node }

  -- The loop of get_node_tail_idx, on fuel: each round goes to a sibling.
  unfoldable pub tail_loop : ℕ → Ctx lib → ℕ → ℕ
  unfolding get_node_from_idx
  tail_loop zero c idx = idx
  tail_loop (suc fuel) c idx =
      let rest = tail_loop fuel c (get_node_from_idx c idx).next_idx in
      if (get_node_from_idx c idx).next_idx == 0 then idx else rest

  -- Siblings stand at growing indices, so there are fewer than nodes.
  unfoldable pub get_node_tail_idx : Ctx lib → ℕ → ℕ
  unfolding tail_loop
  get_node_tail_idx c head_idx = tail_loop (lib.count Node c.commands) c head_idx

  unfoldable pub append_node_to_tail : Ctx lib → ℕ → ℕ → Ctx lib × ℕ
  unfolding get_node_tail_idx put_node get_node_from_idx
  append_node_to_tail c head_idx new_idx =
      if head_idx == 0
      then (c, new_idx)
      else let tail_idx = get_node_tail_idx c head_idx in
        let tail = get_node_from_idx c tail_idx in
        (put_node c tail_idx (record tail { next_idx = new_idx }), head_idx)
