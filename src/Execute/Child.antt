-- ===== src/Execute/Child.antt =====
-- What a child does before its program: execute_in_child of srcs/execute/execute_non_builtin.c and of
-- srcs/builtin/execute_builtin_in_subshell.c, and run_subshell of
-- srcs/execute/execute_simple_command.c. The builtins and the list of a subshell are parameters.
use minishell.Base.{ℕ, ◌≡◌, Bool, true, false, ◌&&◌, Option, none, some, List, Bytes, if◌then◌else◌}
use minishell.Ctx.{Ctx}
use minishell.Environment.Defs.{env_to_envp}
use minishell.Execute.Process.{Process, exit, close_all_fds, spawn}
use minishell.Execute.Redirect.{process_redirection}
use minishell.Libft.{Libft}
use minishell.Os.{Os, WaitStatus, ran, no_entry, exec_failed}
use minishell.Types.{Node}

-- t_command_function: the functions that execute_builtin is given
pub data CommandFunction : Type 0 where
  env pwd builtin_exit cd builtin_export unset echo builtin_noop : CommandFunction

-- The builtins: the context, the world, the status, and whether exit was called; they leave the
-- descriptors and the nodes alone. execute_list in a subshell: the status that it exits with.
pub record Callees (lib : Libft) (os : Os) : Type 0 where
  pub builtin : CommandFunction → Ctx lib → os.World → List Bytes → Ctx lib × os.World × ℕ × Bool
  pub execute_list : Process lib os → ℕ → ℕ
  pub same_files :
      (f : CommandFunction) (c : Ctx lib) (w : os.World) (argv : List Bytes) (j : ℕ)
      → os.file_at (builtin f c w argv).1 j ≡ os.file_at w j
  pub same_nodes :
      (f : CommandFunction) (c : Ctx lib) (w : os.World) (argv : List Bytes)
      → (builtin f c w argv).0.commands ≡ c.commands

module _ (lib : Libft) (os : Os) where
  -- a dup2, if there is a descriptor; `false` where it fails
  unfoldable pub dup_onto : os.World → Option ℕ → ℕ → os.World × Bool
  dup_onto w none onto = (w, true)
  dup_onto w (some fd) onto = os.dup2 w fd onto

  -- io_fd onto 0 and 1, and then no descriptor is kept; `false` where msh_exit follows
  unfoldable pub move_io : Process lib os → Process lib os × Bool
  unfolding dup_onto
  move_io p =
      let (w1, moved_in) = dup_onto p.world p.io_in 0 in
      let (w2, moved_out) = dup_onto w1 p.io_out 1 in
      if moved_in && moved_out
      then (close_all_fds lib os (record p { world = w2 }), true)
      else (p, false)

  -- the start of every child
  unfoldable pub enter_child : Process lib os → ℕ → os.World → Process lib os × Bool
  unfolding move_io
  enter_child p redir_idx w =
      let (p1, redirected) = process_redirection lib os (record p { world = w }) redir_idx in
      if redirected then move_io p1 else (p1, false)

  unfoldable pub execute_in_child : Process lib os → Bytes → List Bytes → ℕ → os.World → WaitStatus
  unfolding enter_child
  execute_in_child p pathname argv redir_idx w =
      let (p1, entered) = enter_child p redir_idx w in
      if entered
      then elim (os.execve p1.world pathname argv (env_to_envp p1.ctx.vals)) [
        | ran status ↦ status
        | no_entry ↦ exit 127
        | exec_failed ↦ exit 126
      ]
      else exit 1

  unfoldable pub execute_non_builtin : Process lib os → Bytes → List Bytes → ℕ → Process lib os × ℕ
  unfolding execute_in_child
  execute_non_builtin p pathname argv redir_idx =
      spawn lib os p (execute_in_child p pathname argv redir_idx)

  module _ (callees : Callees lib os) where
    unfoldable pub execute_builtin_in_child :
        Process lib os → CommandFunction → List Bytes → ℕ → os.World → WaitStatus
    unfolding enter_child
    execute_builtin_in_child p command argv redir_idx w =
        let (p1, entered) = enter_child p redir_idx w in
        let (_, _, result_code, _) = callees.builtin command p1.ctx p1.world argv in
        if entered then exit result_code else exit 1

    unfoldable pub execute_builtin_in_subshell :
        Process lib os → CommandFunction → List Bytes → ℕ → Process lib os × ℕ
    unfolding execute_builtin_in_child
    execute_builtin_in_subshell p command argv redir_idx =
        spawn lib os p (execute_builtin_in_child p command argv redir_idx)

    unfoldable pub run_subshell : Process lib os → Node → ℕ → os.World → WaitStatus
    unfolding enter_child
    run_subshell p cmd_node redir_idx w =
        let (p1, entered) = enter_child p redir_idx w in
        let shell = record p1 { pid_to_wait = none } in
        if entered then exit (callees.execute_list shell cmd_node.content.arg_head_idx) else exit 1

    unfoldable pub execute_subshell : Process lib os → Node → ℕ → Process lib os × ℕ
    unfolding run_subshell
    execute_subshell p cmd_node redir_idx = spawn lib os p (run_subshell p cmd_node redir_idx)
