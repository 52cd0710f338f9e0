-- ===== src/Ctx.antt =====
-- The fields of t_ctx (inc/types.h) that the modelled parts read and write: the environment, the
-- input line, the last status, the wish to exit, and the arenas; and the
-- world around it as far as it is read and written there.
use minishell.Base.{ℕ, Bool, List, Bytes}
use minishell.Libft.{Libft}
use minishell.Types.{Token, Symbol, Node, EnvContent, Reading}

pub record Ctx (lib : Libft) : Type 0 where
  pub vals : List EnvContent
  pub read_line : Bytes
  pub return_status : ℕ
  pub should_exit : Bool
  -- what read_handler will return, in order, and then the end of the input
  pub input : List Reading
  -- the bytes written to the temporary files of here-documents, in order
  pub bodies : List Bytes
  pub strings : lib.Strings
  pub tokens : lib.Arena Token
  pub stack : lib.Arena Symbol
  pub commands : lib.Arena Node
