-- ===== src/Parser/Progress.antt =====
-- One action of the parser with the execution behind it, and the pass at the end of the input
-- (srcs/parser/parse_input.c).
use minishell.Base.{
  ℕ, zero, suc, ◌+◌, ◌*◌, ◌<◌, ◌≤◌, ◌≡◌, ◌≢◌, refl, sym, ap, ◌∙◌, subst, Bool, true, ◌||◌, none,
  List, ◌++◌, [], ◌∷◌, ◌==◌, if_rule, arith, Option-cases, Bool-cases, inl, inr,
}
use minishell.Ctx.{Ctx}
use minishell.Libft.{Libft}
use minishell.Parser.Accepts.{Outcome, shift_reduce-Outcome}
use minishell.Parser.Flow.{report_parse_error}
use minishell.Parser.Grammar.{is_terminal}
use minishell.Parser.Input.{
  Result, returned, or_unfinished, Executor, close_heredoc_fds, reclaim, check_and_run_pending_exec,
  act, final_pass,
}
use minishell.Parser.Running.{IsRunning, IsParsing-same}
use minishell.Parser.Safety.{
  Gives, Gives-bind, Gives-value, close_heredoc_fds-stack, reset_top, reset-IsParsing,
}
use minishell.Parser.ShiftReduce.{Acted}
use minishell.Parser.Sound.{IsParsing, potential, potential-le}
use minishell.Types.{
  ParserState, SymbolType, LalrAction, lalr_shift, lalr_reduce, lalr_accept, lalr_error,
}

abbrev pub is_closed : ParserState → Bool
is_closed parse = parse.flags.done || parse.flags.error

module _ (lib : Libft) (executor : Executor lib) where
  -- `U` holds where a command does not end.
  abbrev pub Unless : Type 0 → Type 0
  Unless U = (c : Ctx lib) (head_idx : ℕ) → (executor.execute_list c head_idx ≡ none → U)

  -- execution keeps what the parser knows
  record Kept (c : Ctx lib) (parse : ParserState) (w : List SymbolType) (r : Ctx lib × ParserState)
      : Type 0 where
    pub parsing : IsParsing lib r.0 r.1 w
    pub lookahead : r.1.lookahead_type ≡ parse.lookahead_type
    pub same_potential : potential lib r.0 r.1 ≡ potential lib c parse

  reclaim-Kept :
      (c c' : Ctx lib) (parse : ParserState) (w : List SymbolType)
      → IsParsing lib c parse w
      → c'.stack ≡ c.stack
      → Kept c parse w (reclaim lib executor parse c')
  unfolding potential
  reclaim-Kept c c' parse w p st =
      let closed = close_heredoc_fds lib c' in
      let same = close_heredoc_fds-stack lib c' ∙ st in
      let (parsing, falls) =
        reset-IsParsing lib closed parse w
          (IsParsing-same lib c closed parse parse w same refl refl p) in
      let (c2, parse2) = reclaim lib executor parse c' in
      record {
        parsing =
            IsParsing-same lib (reset_top lib closed parse.stack_idx) c2 parse parse2 w refl refl
              refl parsing;
        lookahead = refl;
        same_potential = falls ∙ ap (λ s. potential lib (record c { stack = s }) parse) same;
      }

  abbrev Keeps : Ctx lib → ParserState → Ctx lib × ParserState → Type 0
  Keeps c parse r = (w : List SymbolType) → IsParsing lib c parse w → Kept c parse w r

  run-Keeps :
      (U : Type 0) (c : Ctx lib) (parse : ParserState)
      → Unless U
      → Gives U (Keeps c parse) (or_unfinished (check_and_run_pending_exec lib executor c parse))
  unfolding check_and_run_pending_exec
  run-Keeps U c parse u =
      if_rule (λ o. Gives U (Keeps c parse) (or_unfinished o)) (parse.exec_root_idx == 0) _ _
        (λ _ w p. record { parsing = p; lookahead = refl; same_potential = refl })
        (λ _. elim (Option-cases (executor.execute_list c parse.exec_root_idx)) [
          | inl e ↦ rw e (u c parse.exec_root_idx e)
          | inr (c', e) ↦
              rw e
                λ w p. reclaim-Kept c c' parse w p (executor.same_stack c parse.exec_root_idx c' e)
        ])

  -- What an action leaves behind.
  abbrev pub Progress : Ctx lib → ParserState → Acted lib → Type 0
  Progress c parse (c', parse', lalr_shift) =
      IsRunning lib c' parse' × (parse.lookahead_type ≢ SymbolType.eof)
  Progress c parse (c', parse', lalr_reduce) =
      IsRunning lib c' parse'
      × (parse'.lookahead_type ≡ parse.lookahead_type)
      × (potential lib c' parse' < potential lib c parse)
  Progress c parse (c', parse', lalr_accept) = parse.lookahead_type ≡ SymbolType.eof
  Progress c parse (c', parse', lalr_error) = Unit

  -- from the outcome of shift_reduce to what execution keeps of it
  kept-Progress :
      (c : Ctx lib) (parse : ParserState) (w : List SymbolType) (a : Acted lib)
      (r : Ctx lib × ParserState)
      → is_terminal parse.lookahead_type ≡ true
      → Outcome lib c parse w a.0 a.1 a.2
      → Keeps a.0 a.1 r
      → Progress c parse (r.0, r.1, a.2)
  kept-Progress c parse w (c1, p1, lalr_shift) r t (parsing, same, ne) k =
      let kept = k (w ++ parse.lookahead_type ∷ []) parsing in
      (
        record {
          read = w ++ parse.lookahead_type ∷ [];
          parsing = kept.parsing;
          terminal = subst (λ x. is_terminal x ≡ true) (sym (kept.lookahead ∙ same)) t;
        },
        ne,
      )
  kept-Progress c parse w (c1, p1, lalr_reduce) r t (parsing, same, falls) k =
      let kept = k w parsing in
      (
        record {
          read = w;
          parsing = kept.parsing;
          terminal = subst (λ x. is_terminal x ≡ true) (sym (kept.lookahead ∙ same)) t;
        },
        kept.lookahead ∙ same,
        omega (arith, kept.same_potential, falls),
      )
  kept-Progress c parse w (c1, p1, lalr_accept) r t (ends, _) k = ends
  kept-Progress c parse w (c1, p1, lalr_error) r t o k = tt

  pub act-Progress :
      (U : Type 0) (c : Ctx lib) (parse : ParserState)
      → Unless U
      → IsRunning lib c parse
      → Gives U (Progress c parse) (act lib executor c parse)
  unfolding act
  act-Progress U c parse u r =
      let (a, e, outcome) = shift_reduce-Outcome lib c parse r.read r.parsing r.terminal in
      rw e (
        Gives-bind U (Keeps a.0 a.1) (Progress c parse)
          (or_unfinished (check_and_run_pending_exec lib executor a.0 a.1)) _
          (run-Keeps U a.0 a.1 u) (λ q k. kept-Progress c parse r.read a q r.terminal outcome k))

  pub closed_by_error : (parse : ParserState) → is_closed (report_parse_error parse) ≡ true
  unfolding report_parse_error
  closed_by_error parse = elim (Bool-cases parse.flags.done) [
    | inl e ↦ rw e refl
    | inr e ↦ rw e refl
  ]

  abbrev ClosedOr : Type 0 → Result (Ctx lib × ParserState) → Type 0
  ClosedOr U r = Gives U (λ q. is_closed q.1 ≡ true) r

  after_act :
      (U : Type 0) (fuel : ℕ) (c : Ctx lib) (parse : ParserState) (c' : Ctx lib)
      (parse' : ParserState) (action : LalrAction)
      → parse.lookahead_type ≡ SymbolType.eof
      → Progress c parse (c', parse', action)
      → (IsRunning lib c' parse'
          → parse'.lookahead_type ≡ SymbolType.eof
          → potential lib c' parse' < potential lib c parse
          → ClosedOr U (final_pass lib executor fuel c' parse'))
      → ClosedOr U (elim action [
        | lalr_accept ↦
            returned (c', record parse' { flags = record (parse'.flags) { done = true } })
        | lalr_error ↦ returned (c', report_parse_error parse')
        | lalr_shift ↦ final_pass lib executor fuel c' parse'
        | lalr_reduce ↦ final_pass lib executor fuel c' parse'
      ])
  after_act U fuel c parse c' parse' lalr_shift e (_, ne) again = absurd (ne e)
  after_act U fuel c parse c' parse' lalr_reduce e (running, same, falls) again =
      again running (same ∙ e) falls
  after_act U fuel c parse c' parse' lalr_accept e h again = refl
  after_act U fuel c parse c' parse' lalr_error e h again = closed_by_error parse'

  -- the pass at the end of the input, with any fuel
  pub final_pass-Gives :
      (U : Type 0) (fuel : ℕ) (c : Ctx lib) (parse : ParserState)
      → Unless U
      → (fuel ≤ potential lib c parse → U)
      → IsRunning lib c parse
      → parse.lookahead_type ≡ SymbolType.eof
      → ClosedOr U (final_pass lib executor fuel c parse)
  unfolding final_pass
  final_pass-Gives U zero c parse u enough r e = enough (omega arith)
  final_pass-Gives U (suc fuel) c parse u enough r e =
      Gives-bind U (Progress c parse) (λ q. is_closed q.1 ≡ true) (act lib executor c parse) _
        (act-Progress U c parse u r)
        (λ a p. after_act U fuel c parse a.0 a.1 a.2 e p (λ running eof falls.
          final_pass-Gives U fuel a.0 a.1 u (λ k. enough (omega (arith, k, falls))) running eof))

  -- For a parser whose stack is a path through the states that holds symbols for the terminals read
  -- so far, with the end of the input ahead, where every list of commands that is executed ends:
  -- in at most eleven actions for each symbol on the stack, and four more, final_pass returns, and
  -- the parser has accepted or has an error.
  pub final_pass_ends :
      (fuel : ℕ) (c : Ctx lib) (parse : ParserState)
      → ((c1 : Ctx lib) (head_idx : ℕ) → executor.execute_list c1 head_idx ≢ none)
      → IsRunning lib c parse
      → parse.lookahead_type ≡ SymbolType.eof
      → 11 * parse.stack_idx + 3 < fuel
      → (r : Ctx lib × ParserState) × (final_pass lib executor fuel c parse ≡ returned r)
        × ((r.1.flags.done || r.1.flags.error) ≡ true)
  final_pass_ends fuel c parse ends r e enough =
      Gives-value (λ (q : Ctx lib × ParserState). is_closed q.1 ≡ true)
        (final_pass lib executor fuel c parse)
        (final_pass-Gives ⊥ fuel c parse ends
          (λ k. omega (arith, k, enough, potential-le lib c parse)) r e)
