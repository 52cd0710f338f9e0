-- ===== src/Parser/Stack.antt =====
-- The symbol stack: srcs/parser/stack_ops.c and node_getters.c. Slot 0 of AT_STACK is the zeroed
-- entry below the bottom; the symbols stand in the slots 1 to stack_idx.
use minishell.Base.{ℕ, ◌-◌, Option, none, some, Bytes, leb, if◌then◌else◌}
use minishell.Ctx.{Ctx}
use minishell.Libft.{Libft}
use minishell.Parser.Dispatch.{Rule}
use minishell.Types.{Token, Symbol, ParserState}

module _ (lib : Libft) where
  unfoldable pub get_symbol_from_idx : Ctx lib → ℕ → Symbol
  get_symbol_from_idx c idx = lib.get Symbol c.stack idx

  unfoldable pub get_symbol_from_top : Ctx lib → ℕ → Symbol
  get_symbol_from_top c depth = lib.get Symbol c.stack (lib.count Symbol c.stack - depth)

  unfoldable pub get_symbol_from_rhs : Ctx lib → Rule → ℕ → Symbol
  unfolding get_symbol_from_top
  get_symbol_from_rhs c rule rhs_pos = get_symbol_from_top c (rule.rhs_len - rhs_pos)

  unfoldable pub get_token_from_idx : Ctx lib → ℕ → Token
  get_token_from_idx c idx = lib.get Token c.tokens idx

  unfoldable pub get_token_body : Ctx lib → Token → Bytes
  get_token_body c token = lib.get_str c.strings token.offset

  unfoldable pub alloc_symbol : Ctx lib → Ctx lib × ℕ
  alloc_symbol c = (record c { stack = lib.alloc Symbol c.stack }, lib.count Symbol c.stack)

  unfoldable pub push_symbol : Ctx lib → ParserState → Symbol → Ctx lib × ParserState
  unfolding alloc_symbol
  push_symbol c parse src =
      let (c', idx) = alloc_symbol c in
      (
        record c' {
          stack = lib.set Symbol c'.stack idx (record src { entry_state = parse.state });
        },
        record parse { stack_idx = idx },
      )

  -- `none` where stack_idx would fall below 0
  unfoldable pub pop_symbols : Ctx lib → ParserState → ℕ → Option (Ctx lib × ParserState)
  unfolding get_symbol_from_idx
  pop_symbols c parse len =
      let idx = parse.stack_idx - len in
      let c' : Ctx lib = record c {
        stack = lib.set_count Symbol c.stack (lib.count Symbol c.stack - len);
      } in
      if leb len parse.stack_idx
      then some
          (c', record parse { stack_idx = idx; state = (get_symbol_from_idx c' idx).entry_state })
      else none
