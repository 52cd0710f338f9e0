-- ===== src/Execute/Command.antt =====
-- One command: srcs/execute/build_command.c, command_search_and_execution.c and
-- execute_simple_command.c. Allocation is taken to succeed.
use minishell.Base.{
  ℕ, zero, suc, Bool, true, false, ◌&&◌, Option, none, some, List, [], ◌∷◌, Bytes, if◌then◌else◌,
  length, ◌==◌, ltb, get_or,
}
use minishell.Ctx.{Ctx}
use minishell.Execute.Child.{
  CommandFunction, env, pwd, builtin_exit, cd, builtin_export, unset, echo, builtin_noop, Callees,
  execute_non_builtin, execute_builtin_in_subshell, execute_subshell,
}
use minishell.Execute.InShell.{execute_builtin}
use minishell.Execute.Pathname.{Files, get_pathname}
use minishell.Execute.Process.{Process, Run, returned, or_unfinished, ◌>>=ᵣ◌, close_io}
use minishell.Execute.Redirect.{process_redirection}
use minishell.Expansion.Args.{expand_args}
use minishell.Expansion.Argv.{finish_args}
use minishell.Expansion.Fields.{FieldArena, Expanding}
use minishell.Expansion.Redir.{expand_redir}
use minishell.Libft.{Libft}
use minishell.Os.{Os}
use minishell.Parser.Input.{is_redir}
use minishell.Parser.Nodes.{get_node_from_idx, put_node}
use minishell.Types.{Node}
use minishell.Utils.{is_empty_str, strn_eq}

pub record CommandCtx : Type 0 where
  pub argv : List Bytes
  pub pathname : Option Bytes

-- init_command
abbrev pub cleared : Expanding
cleared = record {
  fields = [];
  refs = [];
  exp = record {
    field = record { pos = 0; len = 0 };
    flags = record { has_field = false; in_squote = false; in_dquote = false };
  };
}

unfoldable pub set_command_pathname : List Bytes → CommandCtx
set_command_pathname [] = record { argv = []; pathname = none }
set_command_pathname (name ∷ args) = record {
  argv = name ∷ args;
  pathname = if is_empty_str name then none else some name;
}

module _ (lib : Libft) where
  unfoldable pub match_builtin : Bytes → Option CommandFunction
  match_builtin name =
      if strn_eq lib name (b'e' ∷ b'n' ∷ b'v' ∷ []) 4
      then some env
      else if strn_eq lib name (b'p' ∷ b'w' ∷ b'd' ∷ []) 4
      then some pwd
      else if strn_eq lib name (b'e' ∷ b'x' ∷ b'i' ∷ b't' ∷ []) 5
      then some builtin_exit
      else if strn_eq lib name (b'c' ∷ b'd' ∷ []) 3
      then some cd
      else if strn_eq lib name (b'e' ∷ b'x' ∷ b'p' ∷ b'o' ∷ b'r' ∷ b't' ∷ []) 7
      then some builtin_export
      else if strn_eq lib name (b'u' ∷ b'n' ∷ b's' ∷ b'e' ∷ b't' ∷ []) 6
      then some unset
      else if strn_eq lib name (b'e' ∷ b'c' ∷ b'h' ∷ b'o' ∷ []) 7
      then some echo
      else none

  module _ (arena : FieldArena) where
    -- the loop of build_command over the redirections, on fuel
    unfoldable pub expand_redirs : ℕ → Ctx lib → Expanding → ℕ → Run (Ctx lib × Expanding × Bool)
    unfolding get_node_from_idx put_node
    expand_redirs zero c e redir_idx = returned (c, e, true)
    expand_redirs (suc fuel) c e redir_idx =
        let redir_node = get_node_from_idx lib c redir_idx in
        let expanded =
          or_unfinished (expand_redir arena lib c e redir_node) >>=ᵣ λ (e', redir_node', refers).
          let c' = put_node lib c redir_idx redir_node' in
          let rest = expand_redirs fuel c' e' redir_node.next_idx in
          if refers then rest else returned (c', e', false) in
        if is_redir redir_node.type then expanded else returned (c, e, true)

    -- the command; `none` is EXIT_FAILURE
    unfoldable pub build_command :
        {os : Os} → Process lib os → ℕ → ℕ → Run (Process lib os × Option CommandCtx)
    unfolding expand_redirs get_node_from_idx set_command_pathname
    build_command p arg_idx redir_idx =
        let nodes = lib.count Node p.ctx.commands in
        let arg = get_node_from_idx lib p.ctx arg_idx in
        or_unfinished (expand_args arena lib p.ctx nodes cleared arg) >>=ᵣ λ e.
        expand_redirs nodes p.ctx e redir_idx >>=ᵣ λ (c, e', refer). returned (
          record p { ctx = c; fields = e'.fields },
          if refer then some (set_command_pathname (finish_args arena lib c e')) else none,
        )

    module _ (os : Os) (callees : Callees lib os) (files : Files) where
      -- a command that is not run: only its redirections are made
      unfoldable pub only_redirect : Process lib os → ℕ → ℕ → Process lib os × ℕ
      only_redirect p redir_idx status =
          let (p1, redirected) = process_redirection lib os p redir_idx in
          (close_io lib os p1, if redirected then status else 1)

      unfoldable pub command_search_and_execution :
          Process lib os → Bytes → List Bytes → ℕ → Run (Process lib os × ℕ)
      unfolding match_builtin only_redirect
      command_search_and_execution p pathname argv redir_idx =
          if lib.strchr pathname b'/'
          then returned (execute_non_builtin lib os p pathname argv redir_idx)
          else elim (match_builtin pathname) [
            | some command ↦ execute_builtin lib os callees p command argv redir_idx
            | none ↦ elim (get_pathname lib files p.ctx.vals pathname) [
              | some found ↦ returned (execute_non_builtin lib os p found argv redir_idx)
              | none ↦ returned (only_redirect p redir_idx 127)
            ]
          ]

      -- execute_simple_command behind build_command
      unfoldable pub run_command : Process lib os → CommandCtx → ℕ → Run (Process lib os × ℕ)
      unfolding command_search_and_execution only_redirect
      run_command p command redir_idx =
          let argc = length command.argv in
          if ltb 0 argc && is_empty_str (get_or command.argv 0 [])
          then returned (only_redirect p redir_idx 127)
          else elim command.pathname [
            | none ↦ returned (
                if p.is_pipe && (argc == 0)
                then execute_builtin_in_subshell lib os callees p builtin_noop command.argv
                    redir_idx
                else only_redirect p redir_idx 0)
            | some pathname ↦ command_search_and_execution p pathname command.argv redir_idx
          ]

      unfoldable pub execute_simple_command : Process lib os → Node → Run (Process lib os × ℕ)
      unfolding build_command run_command
      execute_simple_command p command_node =
          let redir_idx = command_node.content.redir_head_idx in
          if command_node.flags.subshell
          then returned (execute_subshell lib os callees p command_node redir_idx)
          else build_command p command_node.content.arg_head_idx redir_idx >>=ᵣ λ (p1, built).
              elim built [
                | none ↦ returned (p1, 1)
                | some command ↦ run_command p1 command redir_idx
              ]
