-- ===== src/Shell.antt =====
-- The shell's loop: srcs/main.c, with sig_consume_sigint of srcs/signals/signal_helpers.c. What is
-- printed and freed is left out; g_signal is SIGINT where a read or the parser was interrupted.
pub mod Session
mod Tests
use minishell.Base.{
  ℕ, zero, suc, ◌+◌, Bool, true, false, not, Option, none, some, List, [], ◌∷◌, Bytes, ◌==◌,
  if◌then◌else◌, ℤ,
}
use minishell.Ctx.{Ctx}
use minishell.Environment.Defaults.{init_env}
use minishell.HereDoc.Read.{get_user_input}
use minishell.Libft.{Libft}
use minishell.Parser.Input.{Result, returned, unfinished, outside, ◌>>=ᵣ◌, Executor, parse_input}
use minishell.Types.{
  ParserState, Reading, line_read, input_ended, input_interrupted, zero_token, zero_symbol,
  zero_node,
}
use minishell.Utils.{char_at}

module _ (lib : Libft) where
  -- where g_signal is SIGINT
  unfoldable pub sig_consume_sigint : Ctx lib → Ctx lib
  sig_consume_sigint c = record c { return_status = 130 }

  -- the status behind parse_input
  unfoldable pub settle : Ctx lib → ParserState → Ctx lib
  unfolding sig_consume_sigint
  settle c parse =
      if parse.flags.interrupted
      then sig_consume_sigint c
      else if parse.flags.error
      then record c { return_status = 2 }
      else c

  module _ (executor : Executor lib) (create_here_temp : Ctx lib → ℤ × ℤ) where
    -- a round behind the read; `true` where another follows
    unfoldable pub shell_turn : ℕ → Ctx lib → Reading → Result (Ctx lib × Bool)
    unfolding settle sig_consume_sigint
    shell_turn fuel c input_ended = returned (c, false)
    shell_turn fuel c input_interrupted = returned (sig_consume_sigint c, true)
    shell_turn fuel c (line_read line) =
        let parsed = parse_input lib executor create_here_temp fuel c >>=ᵣ λ (c1, parse).
        let c2 = record (settle c1 parse) { read_line = [] } in returned (c2, not c2.should_exit) in
        if char_at line 0 == 0 then returned (record c { read_line = [] }, true) else parsed

    -- on fuel, which also bounds each call of parse_input
    unfoldable pub shell_loop : ℕ → Ctx lib → Result (Ctx lib)
    unfolding shell_turn get_user_input
    shell_loop zero c = unfinished
    shell_loop (suc fuel) c =
        let (c1, r) = get_user_input lib c in
        shell_turn fuel c1 r >>=ᵣ λ (c2, more).
        let rest = shell_loop fuel c2 in if more then rest else returned c2

    module _ (cwd : Bytes) where
      unfoldable pub init_ctx : List Bytes → List Reading → Ctx lib
      unfolding init_env
      init_ctx envp input = record {
        vals = init_env lib cwd envp;
        read_line = [];
        return_status = 0;
        should_exit = false;
        input = input;
        bodies = [];
        strings = lib.clear_strings;
        tokens = lib.clear _ zero_token;
        stack = lib.clear _ zero_symbol;
        commands = lib.clear _ zero_node;
      }

      -- the status with which the shell ends
      unfoldable pub main : ℕ → List Bytes → List Reading → Result ℕ
      unfolding init_ctx shell_loop
      main fuel envp input =
          shell_loop fuel (init_ctx envp input) >>=ᵣ λ c. returned c.return_status
