-- ===== src/Execute/Simple.antt =====
-- What a simple command leaves behind: srcs/execute/build_command.c,
-- command_search_and_execution.c and execute_simple_command.c.
use minishell.Base.{
  ℕ, ◌<◌, ◌≢◌, refl, Bool, ◌&&◌, Option, none, List, [], Bytes, ◌==◌, ltb, length, get_or, if_rule,
  arith, Option-cases, inl, inr,
}
use minishell.Ctx.{Ctx}
use minishell.Execute.Child.{
  Callees, execute_non_builtin, execute_builtin_in_subshell, execute_subshell,
}
use minishell.Execute.Command.{
  CommandCtx, cleared, expand_redirs, build_command, match_builtin, only_redirect,
  command_search_and_execution, run_command, execute_simple_command,
}
use minishell.Execute.Held.{holders, Held, close_io-Held, process_redirection-Held}
use minishell.Execute.Leaves.{Leaves, close_io-IsEmpty, spawn-Leaves, execute_builtin-Leaves}
use minishell.Execute.Nodes.{Shape, IsChain, Leads}
use minishell.Execute.Owns.{Owns-equal}
use minishell.Execute.Pathname.{Files, get_pathname}
use minishell.Execute.Process.{Process, or_unfinished}
use minishell.Execute.Redirect.{process_redirection}
use minishell.Execute.Returns.{Returns, Returns-bind, Returns-or_unfinished}
use minishell.Execute.Rewritten.{Keeps, expand_args_ends, expand_redirs-Keeps}
use minishell.Expansion.Args.{expand_args}
use minishell.Expansion.Fields.{FieldArena, Expanding}
use minishell.Libft.{Libft}
use minishell.Os.{Os}
use minishell.Parser.Nodes.{get_node_from_idx}
use minishell.Types.{Node}
use minishell.Utils.{is_empty_str}

module _ (lib : Libft) (arena : FieldArena) (os : Os) (base : ℕ → Option os.File) (n : Shape)
    (reading : Option ℕ) where
  pub build_command-Held :
      (p : Process lib os) (arg_idx redir_idx : ℕ)
      → IsChain n
      → arg_idx < n.size
      → redir_idx < n.size
      → Held lib os base n reading p
      → Returns
          (λ (r : Process lib os × Option CommandCtx). Held lib os base n reading r.0)
          (build_command lib arena p arg_idx redir_idx)
  unfolding build_command get_node_from_idx
  build_command-Held p arg_idx redir_idx chain arg_valid valid h =
      let s = p.ctx.commands in
      let nodes = lib.count Node s in
      let (e0, ends) =
        expand_args_ends lib arena n p.ctx nodes arg_idx cleared chain h.leads arg_valid
          (λ _. omega (arith, h.size)) in
      Returns-bind (λ _. Unit) _
        (or_unfinished (expand_args arena lib p.ctx nodes cleared (lib.get Node s arg_idx))) _
        (Returns-or_unfinished _ _ e0 ends tt)
        λ e _.
          Returns-bind (λ (r : Ctx lib × Expanding × Bool). Keeps lib arena n s r.0.commands) _
            (expand_redirs lib arena nodes p.ctx e redir_idx) _
            (expand_redirs-Keeps lib arena n nodes p.ctx e redir_idx valid h.leads h.size)
            λ (c, e', refer) (here, all, size). record {
              owned =
                  Owns-equal os base (holders lib os p) _ p.world (λ j. omega (arith, here j))
                    h.owned;
              leads = all;
              size = size;
              reads = h.reads;
              writes = h.writes;
            }

  module _ (callees : Callees lib os) (files : Files) (open0 : base 0 ≢ none)
      (open1 : base 1 ≢ none) where
    abbrev Left : Process lib os × ℕ → Type 0
    Left = Leaves lib os base n reading

    only_redirect-Leaves :
        (p : Process lib os) (idx status : ℕ)
        → idx < n.size
        → Held lib os base n reading p
        → Left (only_redirect lib arena os callees files p idx status)
    unfolding only_redirect
    only_redirect-Leaves p idx status valid h =
        let p1 = (process_redirection lib os p idx).0 in
        let h1 = process_redirection-Held lib os base n reading p idx valid h in
        (close_io-Held lib os base n reading p1 h1, inl (close_io-IsEmpty lib os base p1))

    command_search_and_execution-Leaves :
        (p : Process lib os) (pathname : Bytes) (argv : List Bytes) (idx : ℕ)
        → idx < n.size
        → Held lib os base n reading p
        → Returns Left (command_search_and_execution lib arena os callees files p pathname argv idx)
    unfolding command_search_and_execution execute_non_builtin
    command_search_and_execution-Leaves p pathname argv idx valid h =
        if_rule (Returns Left) (lib.strchr pathname b'/') _ _
          (λ _. spawn-Leaves lib os base n reading p _ h)
          (λ _. elim (Option-cases (match_builtin lib pathname)) [
            | inl e ↦ rw e (elim (Option-cases (get_pathname lib files p.ctx.vals pathname)) [
              | inl e' ↦ rw e' (only_redirect-Leaves p idx 127 valid h)
              | inr (found, e') ↦ rw e' (spawn-Leaves lib os base n reading p _ h)
            ])
            | inr (command, e) ↦ rw e (
                execute_builtin-Leaves lib os base n reading callees open0 open1 p command argv idx
                  valid h)
          ])

    run_command-Leaves :
        (p : Process lib os) (command : CommandCtx) (idx : ℕ)
        → idx < n.size
        → Held lib os base n reading p
        → Returns Left (run_command lib arena os callees files p command idx)
    unfolding run_command execute_builtin_in_subshell
    run_command-Leaves p command idx valid h =
        if_rule (Returns Left)
          (ltb 0 (length command.argv) && is_empty_str (get_or command.argv 0 [])) _ _
          (λ _. only_redirect-Leaves p idx 127 valid h)
          (λ _. elim (Option-cases command.pathname) [
            | inl e ↦ rw e (
                if_rule Left (p.is_pipe && (length command.argv == 0)) _ _
                  (λ _. spawn-Leaves lib os base n reading p _ h)
                  (λ _. only_redirect-Leaves p idx 0 valid h))
            | inr (pathname, e) ↦
                rw e (command_search_and_execution-Leaves p pathname command.argv idx valid h)
          ])

    pub execute_simple_command-Leaves :
        (p : Process lib os) (i : ℕ) (node : Node)
        → IsChain n
        → Leads n i node
        → Held lib os base n reading p
        → Returns Left (execute_simple_command lib arena os callees files p node)
    unfolding execute_simple_command execute_subshell
    execute_simple_command-Leaves p i node chain leads h =
        let idx = node.content.redir_head_idx in
        if_rule (Returns Left) node.flags.subshell _ _
          (λ _. spawn-Leaves lib os base n reading p _ h)
          (λ _.
            Returns-bind
              (λ (r : Process lib os × Option CommandCtx). Held lib os base n reading r.0) Left
              (build_command lib arena p node.content.arg_head_idx idx) _
              (build_command-Held p node.content.arg_head_idx idx chain leads.arg_head
                leads.redir_head h)
              λ (p1, built) h1. elim (Option-cases built) [
                | inl e ↦ rw e (h1, inr refl)
                | inr (command, e) ↦ rw e (run_command-Leaves p1 command idx leads.redir_head h1)
              ])
