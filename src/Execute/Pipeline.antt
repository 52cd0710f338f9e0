-- ===== src/Execute/Pipeline.antt =====
-- Pipelines: srcs/execute/execute_pipeline.c.
use minishell.Base.{ℕ, zero, suc, Bool, true, false, Option, none, some, ◌==◌, if◌then◌else◌}
use minishell.Execute.Child.{Callees}
use minishell.Execute.Command.{execute_simple_command}
use minishell.Execute.Pathname.{Files}
use minishell.Execute.Process.{Process, Run, returned, ended, ◌>>=ᵣ◌, close_io}
use minishell.Execute.Wait.{wait_return_status}
use minishell.Expansion.Fields.{FieldArena}
use minishell.Libft.{Libft}
use minishell.Os.{Os}
use minishell.Parser.Nodes.{get_node_from_idx}
use minishell.Types.{Node, NodeType, command_node}

abbrev pub is_command : NodeType → Bool
is_command command_node = true
is_command _ = false

module _ (lib : Libft) (os : Os) where
  -- between the commands: the end to read becomes the next input
  unfoldable pub next_input : Process lib os → Process lib os
  next_input p = let p1 = close_io lib os p in record p1 { io_in = p1.pipe_in; pipe_in = none }

  -- what execute_pipeline does behind the loop
  unfoldable pub wait_if : Process lib os → ℕ → Option ℕ → Process lib os × ℕ
  wait_if p result none = (p, result)
  wait_if p result (some pid) =
      let (p', status) = wait_return_status lib os p in (p', if result == 0 then status else result)

  unfoldable pub finish_pipeline : Process lib os × ℕ × Bool → Process lib os × ℕ
  unfolding wait_if
  finish_pipeline (p, result, true) = (p, result)
  finish_pipeline (p, result, false) = wait_if (record p { is_pipe = false }) result p.pid_to_wait

module _ (lib : Libft) (arena : FieldArena) (os : Os) (callees : Callees lib os)
    (files : Files) where
  -- behind the call of pipe; handle_pipe_error ends the process
  unfoldable pub piped_with :
      Process lib os → Node → os.World → Option (ℕ × ℕ) → Run (Process lib os × ℕ)
  unfolding next_input
  piped_with p node w none = ended 1
  piped_with p node w (some (read_end, write_end)) =
      let piped = record p {
        world = w;
        io_out = some write_end;
        pipe_in = some read_end;
        pipe_out = none;
      } in
      execute_simple_command lib arena os callees files piped node >>=ᵣ λ (p1, result).
      returned (next_input lib os p1, result)

  unfoldable pub pipe_and_execute_simple_command : Process lib os → Node → Run (Process lib os × ℕ)
  unfolding piped_with
  pipe_and_execute_simple_command p node =
      let (w, pipe_fd) = os.pipe p.world in piped_with p node w pipe_fd

  -- one command of the loop
  unfoldable pub execute_command : Process lib os → Node → Run (Process lib os × ℕ)
  unfolding pipe_and_execute_simple_command
  execute_command p node =
      if node.next_idx == 0
      then execute_simple_command lib arena os callees files p node
      else pipe_and_execute_simple_command (record p { is_pipe = true }) node

  -- the loop, on fuel; `true` where the shell is to exit
  unfoldable pub pipeline_loop : ℕ → Process lib os → ℕ → ℕ → Run (Process lib os × ℕ × Bool)
  unfolding execute_command get_node_from_idx
  pipeline_loop zero p command_idx result = returned (p, result, false)
  pipeline_loop (suc fuel) p command_idx result =
      let node = get_node_from_idx lib p.ctx command_idx in
      let executed = execute_command p node >>=ᵣ λ (p1, result1).
      let next_idx = (get_node_from_idx lib p1.ctx command_idx).next_idx in
      let rest = pipeline_loop fuel p1 next_idx result1 in
      if p1.ctx.should_exit
      then returned ((wait_return_status lib os p1).0, result1, true)
      else rest in
      if is_command node.type then executed else returned (p, result, false)

  -- Siblings stand at growing indices, so there are fewer than nodes.
  unfoldable pub execute_pipeline : Process lib os → Node → Run (Process lib os × ℕ)
  unfolding pipeline_loop finish_pipeline
  execute_pipeline p pipeline_node =
      let nodes = lib.count Node p.ctx.commands in
      pipeline_loop nodes p pipeline_node.content.command_head_idx 0 >>=ᵣ λ r.
      returned (finish_pipeline lib os r)
