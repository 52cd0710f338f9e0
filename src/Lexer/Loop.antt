-- ===== src/Lexer/Loop.antt =====
-- The loop of get_next_token (srcs/parser/parse_token_flow.c) while no here-document is pending:
-- lex_token is called until a token is complete or the end of the input has been met.
use minishell.Base.{
  ℕ, zero, suc, ◌+◌, ◌<◌, ◌≡◌, inl, inr, refl, true, false, Option, none, some, ◌==◌, if◌then◌else◌,
  arith, Bool-cases, ==_iff, ◌∙◌, sym, subst,
}
use minishell.Ctx.{Ctx}
use minishell.Libft.{Libft}
use minishell.Lexer.Advance.{Advances, lex_token-Advances}
use minishell.Lexer.Rules.{Step, delimit_lex_token, apply_rule_1, lex_token}
use minishell.Lexer.Valid.{IsValid, measure}
use minishell.Types.{LexerState, zero_lexer}
use minishell.Utils.{char_at}

module _ (lib : Libft) where
  -- the last two statements of the loop body; `none` says that the fuel ran out
  unfoldable pub lex_next : ℕ → Ctx lib → LexerState → Option (Step lib)
  lex_next zero c lex = none
  lex_next (suc fuel) c lex =
      let (c', lex', found) = lex_token lib c lex in
      let rest = lex_next fuel c' lex' in
      if lex.flags.at_eoi
      then some (c, zero_lexer, false)
      else if found
      then some (c', lex', true)
      else rest

  -- At the end of the line a token in the making is complete, and the flag is set.
  lex_token_end :
      (c : Ctx lib) (lex : LexerState)
      → char_at c.read_line lex.char_idx ≡ 0
      → ((lex_token lib c lex).1.flags.at_eoi ≡ true)
        × ((lex_token lib c lex).2 ≡ lex.flags.is_building)
        × ((lex_token lib c lex).1.flags.is_building ≡ false)
        × ((lex_token lib c lex).1.char_idx ≡ lex.char_idx)
        × ((lex_token lib c lex).0.read_line ≡ c.read_line)
        × (IsValid c.read_line lex → IsValid c.read_line (lex_token lib c lex).1)
  unfolding lex_token apply_rule_1 delimit_lex_token
  lex_token_end c lex h = ground arith

  -- The result of the loop: a complete token and a valid state further on in the same line, or
  -- the end of the input and a cleared state.
  pub record Lexed (c : Ctx lib) (lex : LexerState) (s : Step lib) : Type 0 where
    pub same_line : s.0.read_line ≡ c.read_line
    pub found :
        s.2 ≡ true
        → (IsValid c.read_line s.1)
          × (measure c.read_line s.1 < measure c.read_line lex)
          × (s.1.flags.is_building ≡ false)
    pub ended : s.2 ≡ false → s.1 ≡ zero_lexer

  lex_next-at_eoi :
      (fuel : ℕ) (c : Ctx lib) (lex : LexerState)
      → 0 < fuel
      → lex.flags.at_eoi ≡ true
      → lex_next fuel c lex ≡ some (c, zero_lexer, false)
  unfolding lex_next
  lex_next-at_eoi zero c lex h e = absurd (omega arith)
  lex_next-at_eoi (suc fuel) c lex h e = rw e

  -- One more round, from a state of the same line that is not further on.
  Lexed-later :
      (c c' : Ctx lib) (lex lex' : LexerState) (s : Step lib)
      → c'.read_line ≡ c.read_line
      → measure c.read_line lex' < measure c.read_line lex
      → Lexed c' lex' s
      → Lexed c lex s
  Lexed-later c c' lex lex' s e m l =
      let found =
        subst
          (λ line.
            s.2 ≡ true
            → (IsValid line s.1)
              × (measure line s.1 < measure line lex')
              × (s.1.flags.is_building ≡ false))
          e l.found in
      record {
        same_line = l.same_line ∙ e;
        found = λ f. ((found f).0, omega (arith, (found f).1), (found f).2);
        ended = l.ended;
      }

  abbrev Ends : ℕ → Ctx lib → LexerState → Type 0
  Ends fuel c lex = (s : Step lib) × (lex_next fuel c lex ≡ some s) × Lexed c lex s

  lex_next_last :
      (fuel : ℕ) (c : Ctx lib) (lex : LexerState)
      → IsValid c.read_line lex
      → 0 < fuel
      → lex.flags.at_eoi ≡ false
      → char_at c.read_line lex.char_idx ≡ 0
      → Ends (suc fuel) c lex
  unfolding lex_next
  lex_next_last fuel c lex v h e z =
      let s = lex_token lib c lex in
      let end = lex_token_end c lex z in
      elim (Bool-cases lex.flags.is_building) [
        | inl b ↦ (
          (s.0, s.1, true),
          ground arith,
          record {
            same_line = end.4;
            found = λ _. (end.5 v, ground (arith, end.2, end.3), end.2);
            ended = λ f. cc;
          },
        )
        | inr b ↦ (
          (s.0, zero_lexer, false),
          ground (arith, lex_next-at_eoi fuel s.0 s.1 h end.0),
          record { same_line = end.4; found = λ f. cc; ended = λ _. refl },
        )
      ]

  lex_next_more :
      (fuel : ℕ) (c : Ctx lib) (lex : LexerState)
      → IsValid c.read_line lex
      → measure c.read_line lex + 1 < suc fuel
      → lex.flags.at_eoi ≡ false
      → Advances lib c lex (lex_token lib c lex)
      → (measure (lex_token lib c lex).0.read_line (lex_token lib c lex).1 + 1 < fuel
          → Ends fuel (lex_token lib c lex).0 (lex_token lib c lex).1)
      → Ends (suc fuel) c lex
  unfolding lex_next
  lex_next_more fuel c lex v h e adv rec =
      let s = lex_token lib c lex in
      elim (Bool-cases s.2) [
        | inl f ↦ (
          (s.0, s.1, true),
          ground arith,
          record {
            same_line = adv.same_line;
            found = λ _. (adv.valid, adv.progress, adv.found_idle f);
            ended = λ g. cc;
          },
        )
        | inr f ↦
            let fits =
              subst (λ line. measure line s.1 + 1 < fuel) (sym adv.same_line)
                (omega (arith, adv.progress)) in
            let (r, same, lexed) = rec fits in
            (r, ground arith, Lexed-later c s.0 lex s.1 r adv.same_line adv.progress lexed)
      ]

  -- From a valid state, with more fuel than its measure and one, the loop ends, on the same line:
  -- with a complete token, in a valid state of a smaller measure where no token is in the making,
  -- or without a token, in the cleared state.
  pub lex_next-Lexed :
      (fuel : ℕ) (c : Ctx lib) (lex : LexerState)
      → IsValid c.read_line lex
      → measure c.read_line lex + 1 < fuel
      → (s : Step lib) × (lex_next fuel c lex ≡ some s) × Lexed c lex s
  lex_next-Lexed zero c lex v h = absurd (omega arith)
  lex_next-Lexed (suc fuel) c lex v h = elim (Bool-cases lex.flags.at_eoi) [
    | inl e ↦ (
      (c, zero_lexer, false),
      lex_next-at_eoi (suc fuel) c lex (omega arith) e,
      record { same_line = refl; found = λ f. cc; ended = λ _. refl },
    )
    | inr e ↦ elim (Bool-cases (char_at c.read_line lex.char_idx == 0)) [
      | inl z ↦ lex_next_last fuel c lex v (omega arith) e ((==_iff _ _).0 z)
      | inr more ↦
          let s = lex_token lib c lex in
          let adv = lex_token-Advances lib c lex v (λ z. cc (more, (==_iff _ _).1 z)) in
          lex_next_more fuel c lex v h e adv (λ t.
            lex_next-Lexed fuel s.0 s.1
              (subst (λ line. IsValid line s.1) (sym adv.same_line) adv.valid) t)
    ]
  ]
