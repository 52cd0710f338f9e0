-- ===== src/Execute/Redirect.antt =====
-- Redirections: srcs/execute/process_redirection.c. EXIT_SUCCESS is `true`; messages are left out.
use minishell.Base.{ℕ, zero, suc, Bool, true, false, not, ◌||◌, Bytes, if◌then◌else◌, negsuc}
use minishell.Execute.Process.{Process, is_some, descriptor, close_in, close_out}
use minishell.Expansion.Args.{needs_scan}
use minishell.Expansion.Argv.{string_at}
use minishell.Libft.{Libft}
use minishell.Os.{Os, OpenMode, read_only, truncating, appending}
use minishell.Parser.Input.{is_redir}
use minishell.Parser.Nodes.{get_node_from_idx, put_node}
use minishell.Types.{Node}
use minishell.Utils.{is_empty_str}

module _ (lib : Libft) (os : Os) where
  unfoldable pub resolve_redir : Process lib os → Node → Bytes
  resolve_redir p redir_node =
      let offset = redir_node.content.arena_offset in
      if needs_scan redir_node then string_at p.fields offset else lib.get_str p.ctx.strings offset

  abbrev pub has_name : Process lib os → Node → Bool
  has_name p redir_node = not (is_empty_str (resolve_redir p redir_node) || p.ctx.should_exit)

  unfoldable pub open_in_file : Process lib os → Node → Process lib os × Bool
  unfolding resolve_redir
  open_in_file p redir_node =
      let p1 = close_in lib os p in
      let (w, fd) = os.open_file p1.world (resolve_redir p1 redir_node) read_only in
      if has_name p1 redir_node
      then (record p1 { world = w; io_in = fd }, is_some fd)
      else (p1, false)

  -- the descriptor moves out of the node
  unfoldable pub open_here_file : Process lib os → ℕ → Node → Process lib os × Bool
  unfolding put_node
  open_here_file p redir_idx redir_node =
      let p1 = close_in lib os p in
      let fd = descriptor redir_node.content.fd in
      let taken = record redir_node { content = record (redir_node.content) { fd = negsuc 0 } } in
      (record p1 { ctx = put_node lib p1.ctx redir_idx taken; io_in = fd }, is_some fd)

  unfoldable pub open_out_file : Process lib os → Node → OpenMode → Process lib os × Bool
  unfolding resolve_redir
  open_out_file p redir_node oflag =
      let p1 = close_out lib os p in
      let (w, fd) = os.open_file p1.world (resolve_redir p1 redir_node) oflag in
      if has_name p1 redir_node
      then (record p1 { world = w; io_out = fd }, is_some fd)
      else (p1, false)

  unfoldable pub open_based_on_flag : Process lib os → ℕ → Node → Process lib os × Bool
  unfolding open_in_file open_here_file open_out_file
  open_based_on_flag p redir_idx redir_node =
      if redir_node.flags.redir_in
      then open_in_file p redir_node
      else if redir_node.flags.redir_out
      then open_out_file p redir_node truncating
      else if redir_node.flags.redir_here
      then open_here_file p redir_idx redir_node
      else if redir_node.flags.redir_append
      then open_out_file p redir_node appending
      else (p, true)

  -- the loop of process_redirection, on fuel
  unfoldable pub redirection_loop : ℕ → Process lib os → ℕ → Process lib os × Bool
  unfolding open_based_on_flag get_node_from_idx
  redirection_loop zero p redir_idx = (p, true)
  redirection_loop (suc fuel) p redir_idx =
      let redir_node = get_node_from_idx lib p.ctx redir_idx in
      let (p1, opened) = open_based_on_flag p redir_idx redir_node in
      let rest = redirection_loop fuel p1 (get_node_from_idx lib p1.ctx redir_idx).next_idx in
      if is_redir redir_node.type then (if opened then rest else (p1, false)) else (p, true)

  -- Siblings stand at growing indices, so there are fewer than nodes.
  unfoldable pub process_redirection : Process lib os → ℕ → Process lib os × Bool
  unfolding redirection_loop
  process_redirection p redir_idx = redirection_loop (lib.count Node p.ctx.commands) p redir_idx
