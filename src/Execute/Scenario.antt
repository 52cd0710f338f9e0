-- ===== src/Execute/Scenario.antt =====
-- A pipeline of two commands, the second with a redirection, on a concrete system.
use minishell.Base.{
  ℕ, zero, suc, ◌<◌, ◌≡◌, ◌⊎◌, refl, inl, inr, true, false, none, some, [], ◌∷◌, ◌==◌,
  if◌then◌else◌, arith,
}
use minishell.Execute.Child.{echo, Callees, enter_child}
use minishell.Execute.Entered.{child_table, enter_child-Owns}
use minishell.Execute.Held.{Held}
use minishell.Execute.InShell.{execute}
use minishell.Execute.Kept.{execute_pipeline-Held}
use minishell.Execute.Leaves.{IsEmpty}
use minishell.Execute.Nodes.{Shape, IsChain, Leads, heres}
use minishell.Execute.Owns.{Owns}
use minishell.Execute.Pathname.{Files}
use minishell.Execute.Pipeline.{is_command, execute_pipeline}
use minishell.Execute.Process.{Process, ft_close_fd, close_in, close_out, close_io, close_all_fds}
use minishell.Execute.Redirect.{process_redirection}
use minishell.Execute.Reaps.{Reaps, finished, child, wait_return_status-Reaps}
use minishell.Execute.Restored.{Finished, execute-Finished}
use minishell.Execute.Returns.{Returns}
use minishell.Execute.Tables.{with_file?}
use minishell.Execute.Wait.{status_of, wait_return_status}
use minishell.Expansion.Args.{is_arg}
use minishell.Libft.{concrete}
use minishell.Os.{Machine, machine, exited}
use minishell.Samples.{codes, ctx, arena}
use minishell.Utils.{is_empty_str}
use minishell.Types.{
  Node, zero_node, zero_data, no_node_flags, pipeline_node, command_node, redir_node,
}

-- 1 the pipeline, 2 and 3 its commands, 4 the redirection `> f` of the second
abbrev node_at : ℕ → Node
node_at i =
    if i == 1
    then record zero_node {
      type = pipeline_node;
      content = record zero_data { command_head_idx = 2 };
    }
    else if i == 2
    then record zero_node { type = command_node; next_idx = 3 }
    else if i == 3
    then record zero_node { type = command_node; content = record zero_data { redir_head_idx = 4 } }
    else if i == 4
    then record zero_node {
      type = redir_node;
      flags = record no_node_flags { redir_out = true };
      content = record zero_data { arena_offset = concrete.offset concrete.clear_strings };
    }
    else zero_node

abbrev world : Machine
world = record {
  table = λ j. if j == 0 then some (codes "tty") else if j == 1 then some (codes "tty") else none;
  missing = λ path. false;
  children = [];
  next_pid = 100;
}

abbrev shell : Process concrete machine
shell = record {
  ctx = record (ctx "" []) {
    commands = (5, node_at);
    strings = concrete.strlcpy concrete.clear_strings (codes "f");
  };
  world = world;
  fields = [];
  io_in = none;
  io_out = none;
  pipe_in = none;
  pipe_out = none;
  is_pipe = false;
  pid_to_wait = none;
}

abbrev shape : Shape
shape = record {
  size = 5;
  next = λ i. (node_at i).next_idx;
  is_command = λ i. is_command (node_at i).type;
  is_arg = λ i. is_arg (node_at i).type;
}

abbrev callees : Callees concrete machine
callees = record {
  builtin = λ f c w argv. (c, w, 0, false);
  execute_list = λ p i. 0;
  same_files = λ f c w argv j. refl;
  same_nodes = λ f c w argv. refl;
}

abbrev files : Files
files = record { exists = λ p. true; is_regular = λ p. true; is_executable = λ p. false }

node_at-Leads : (i : ℕ) → i < 5 → Leads shape i (node_at i)
node_at-Leads zero h = ground arith
node_at-Leads (suc zero) h = ground arith
node_at-Leads (suc (suc zero)) h = ground arith
node_at-Leads (suc (suc (suc zero))) h = ground arith
node_at-Leads (suc (suc (suc (suc zero)))) h = ground arith
node_at-Leads (suc (suc (suc (suc (suc i))))) h = absurd (omega arith)

shape_follows :
    (i : ℕ)
    → i < 5
    → shape.is_command i ≡ true
    → (shape.next i ≡ 0) ⊎ ((i < shape.next i) × (shape.is_command (shape.next i) ≡ true))
shape_follows zero h c = inl refl
shape_follows (suc zero) h c = inl refl
shape_follows (suc (suc zero)) h c = inr (omega arith, refl)
shape_follows (suc (suc (suc zero))) h c = inl refl
shape_follows (suc (suc (suc (suc zero)))) h c = inl refl
shape_follows (suc (suc (suc (suc (suc i))))) h c = absurd (omega arith)

args_follow : (i : ℕ) → i < 5 → shape.is_arg i ≡ true → (shape.next i ≡ 0) ⊎ (i < shape.next i)
args_follow zero h c = inl refl
args_follow (suc zero) h c = inl refl
args_follow (suc (suc zero)) h c = inr (omega arith)
args_follow (suc (suc (suc zero))) h c = inl refl
args_follow (suc (suc (suc (suc zero)))) h c = inl refl
args_follow (suc (suc (suc (suc (suc i))))) h c = absurd (omega arith)

shape-IsChain : IsChain shape
shape-IsChain = record {
  bottom = refl;
  arg_bottom = refl;
  follows = shape_follows;
  arg_follows = args_follow;
}

shell-Held : Held concrete machine world.table shape none shell
shell-Held = record {
  owned = λ j. refl;
  leads = node_at-Leads;
  size = refl;
  reads = refl;
  writes = refl;
}

execute_pipeline-Held_example :
    Returns
      (λ (r : Process concrete machine × ℕ).
        let (p', status) = r in
        Held concrete machine world.table shape none p'
        × (p'.ctx.should_exit ≡ false → IsEmpty concrete machine world.table p' ⊎ (status ≡ 1)))
      (execute_pipeline concrete arena machine callees files shell (node_at 1))
execute_pipeline-Held_example =
    execute_pipeline-Held concrete machine world.table shape arena callees files (λ e. cc) (λ e. cc)
      shell (node_at 1) shape-IsChain (omega arith) refl refl shell-Held

-- the second command of the pipeline runs in a child
shell_enters : (enter_child concrete machine shell 4 world).1 ≡ true
unfolding enter_child process_redirection close_in close_out close_io close_all_fds ft_close_fd
    is_empty_str
shell_enters = refl

enter_child-Owns_example :
    (let p1 = (process_redirection concrete machine shell 4).0 in
      Owns machine
        (child_table concrete machine world.table shape none p1)
        (heres concrete p1.ctx.commands)
        (enter_child concrete machine shell 4 world).0.world)
enter_child-Owns_example =
    enter_child-Owns concrete machine world.table shape none shell 4 (λ e. cc) (λ e. cc)
      (omega arith) shell-Held shell_enters

-- echo > f
abbrev redirected : Process concrete machine
redirected = record shell {
  world = record world { table = λ j. if j == 3 then some (codes "f") else world.table j };
  io_out = some 3;
}

execute-Finished_example :
    Returns
      (Finished concrete machine callees redirected
        (with_file? (with_file? redirected.world.table none none) (some 3) none))
      (execute concrete machine callees redirected echo [])
execute-Finished_example =
    execute-Finished concrete machine callees redirected.world.table redirected echo [] (λ j. refl)
      (λ e. cc) tt (λ e. cc, refl, refl) tt

abbrev waiting : Process concrete machine
waiting = record shell {
  world = record world { children = (100, exited 3) ∷ (101, exited 5) ∷ [] };
  pid_to_wait = some 101;
}

waiting-Reaps : Reaps machine waiting.world ((100, exited 3) ∷ (101, exited 5) ∷ []) world
waiting-Reaps =
    child waiting.world _ world 100 (exited 3) ((101, exited 5) ∷ []) refl
      (child _ world world 101 (exited 5) [] refl (finished world world refl))

wait_return_status-Reaps_example :
    wait_return_status concrete machine waiting
    ≡ (record waiting { world = world; pid_to_wait = none }, 5)
unfolding status_of
wait_return_status-Reaps_example =
    wait_return_status-Reaps concrete machine waiting world ((100, exited 3) ∷ (101, exited 5) ∷ [])
      waiting-Reaps
