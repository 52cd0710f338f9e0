-- ===== src/Parser/Whole.antt =====
-- The parser's loop from init_parser on: parse_input of srcs/parser/parse_input.c.
use minishell.Base.{
  ℕ, zero, suc, ◌≡◌, refl, Bool, true, false, not, ◌||◌, arith, [], if_rule, if◌then◌else◌, ◌⊎◌,
  inl, inr, ℤ,
}
use minishell.Ctx.{Ctx}
use minishell.Libft.{Libft}
use minishell.Parser.Flow.{Flow, handle_here_doc, start_here_body}
use minishell.Parser.Init.{look, init_parser, init_parser-IsParsing}
use minishell.Parser.Input.{
  returned, or_unfinished, Executor, parse_advance, act, final_pass, lookahead_or_old,
  run_parse_iteration, parse_loop, is_open_parse, finish, parse_input,
}
use minishell.Parser.Progress.{Progress, act-Progress, is_closed, closed_by_error, final_pass-Gives}
use minishell.Parser.Running.{
  IsRunning, IsParsing-same, IsRunning-same, FlowRuns, get_lookahead-FlowRuns,
}
use minishell.Parser.Safety.{Gives, Gives-bind, Gives-weaken, Gives-or_unfinished}
use minishell.Types.{
  LexerState, ParserState, SymbolType, code, LalrAction, lalr_shift, lalr_reduce, lalr_accept,
  lalr_error,
}

module _ (lib : Libft) (executor : Executor lib) (create_here_temp : Ctx lib → ℤ × ℤ) where
  -- the parser goes on from here, or the parse is over
  abbrev Goes : Ctx lib → ParserState → Type 0
  Goes c parse = (is_closed parse ≡ true) ⊎ IsRunning lib c parse

  -- what one round makes: where there is more, the parser goes on
  abbrev Round : Flow lib → Type 0
  Round flow = (flow.3 ≡ true → IsRunning lib flow.0 flow.1) × Goes flow.0 flow.1

  handle_here_doc-IsRunning :
      (c : Ctx lib) (parse : ParserState)
      → IsRunning lib c parse
      → IsRunning lib c (handle_here_doc lib c parse)
  unfolding handle_here_doc start_here_body
  handle_here_doc-IsRunning c parse r =
      if_rule (IsRunning lib c) _ _ _
        (λ _. IsRunning-same lib c c parse (start_here_body parse) refl refl refl r.terminal r)
        (λ _. r)

  parse_advance-Round :
      (c c' : Ctx lib) (parse parse' : ParserState) (lex : LexerState) (action : LalrAction)
      → Progress lib executor c parse (c', parse', action)
      → (let (parse3, more) = parse_advance parse' action in Round (c', parse3, lex, more))
  unfolding parse_advance
  parse_advance-Round c c' parse parse' lex lalr_shift (r, _) =
      let running = IsRunning-same lib c' c' parse' _ refl refl refl r.terminal r in
      (λ _. running, inr running)
  parse_advance-Round c c' parse parse' lex lalr_reduce (r, _, _) = (λ _. r, inr r)
  parse_advance-Round c c' parse parse' lex lalr_accept h = (λ e. cc, inl refl)
  parse_advance-Round c c' parse parse' lex lalr_error h = (
    λ e. cc,
    inl (
        closed_by_error lib executor
          (record parse' { flags = record (parse'.flags) { has_lookahead = false } })),
  )

  run_parse_iteration-Round :
      (fuel : ℕ) (c : Ctx lib) (parse : ParserState) (lex : LexerState)
      → IsRunning lib c parse
      → Gives Unit Round (run_parse_iteration lib executor create_here_temp fuel c parse lex)
  unfolding run_parse_iteration lookahead_or_old
  run_parse_iteration-Round fuel c parse lex r =
      let first = lookahead_or_old lib executor create_here_temp fuel c parse lex in
      Gives-bind Unit (λ flow. IsRunning lib flow.0 flow.1) Round (or_unfinished first) _
        (Gives-or_unfinished (λ flow. IsRunning lib flow.0 flow.1) first
          (if_rule (FlowRuns lib) (not parse.flags.has_lookahead) _ _
            (λ _. get_lookahead-FlowRuns lib create_here_temp fuel c parse lex r) (λ _. r)))
        (λ (c1, parse1, lex1, got) r1.
          let saved = record parse1 { flags = record (parse1.flags) { has_lookahead = false } } in
          let saved_runs = IsRunning-same lib c1 c1 parse1 saved refl refl refl r1.terminal r1 in
          let here = handle_here_doc-IsRunning c1 saved saved_runs in
          if_rule (Gives Unit Round) (not got) _ _ (λ _. (λ e. cc, inr r1))
            λ _.
              if_rule (Gives Unit Round) parse1.flags.save_tokens _ _ (λ _. (λ _. here, inr here))
                λ _.
                  Gives-bind Unit (Progress lib executor c1 parse1) Round
                    (act lib executor c1 parse1) _
                    (act-Progress lib executor Unit c1 parse1 (λ _ _ _. tt) r1)
                    (λ a p. parse_advance-Round c1 a.0 parse1 a.1 lex1 a.2 p))

  parse_loop-Goes :
      (fuel : ℕ) (c : Ctx lib) (parse : ParserState) (lex : LexerState)
      → IsRunning lib c parse
      → Gives Unit (λ r. Goes r.0 r.1) (parse_loop lib executor create_here_temp fuel c parse lex)
  unfolding parse_loop
  parse_loop-Goes zero c parse lex r = tt
  parse_loop-Goes (suc fuel) c parse lex r =
      Gives-bind Unit Round (λ q. Goes q.0 q.1)
        (run_parse_iteration lib executor create_here_temp fuel c parse lex) _
        (run_parse_iteration-Round fuel c parse lex r)
        (λ (c', parse', lex', more) (goes_on, goes).
          if_rule (Gives Unit (λ q. Goes q.0 q.1)) more _ _
            (λ e. parse_loop-Goes fuel c' parse' lex' (goes_on e)) (λ _. goes))

  abbrev pub is_over : ParserState → Bool
  is_over parse = is_closed parse || parse.flags.interrupted

  over_of_closed : (parse : ParserState) → is_closed parse ≡ true → is_over parse ≡ true
  over_of_closed parse h = rw h refl

  over_of_not_open :
      (parse : ParserState)
      → is_open_parse lib executor create_here_temp parse ≡ false
      → is_over parse ≡ true
  over_of_not_open parse h = ground arith

  closed_not_open :
      (parse : ParserState)
      → is_open_parse lib executor create_here_temp parse ≡ true
      → is_closed parse ≡ true
      → ⊥
  closed_not_open parse h k = ground arith

  -- the last pass, where there is one
  last_pass :
      (fuel : ℕ) (c : Ctx lib) (parse : ParserState)
      → Goes c parse
      → is_open_parse lib executor create_here_temp parse ≡ true
      → Gives Unit
          (λ r. is_over r.1 ≡ true)
          (final_pass lib executor fuel c (record parse { lookahead_type = SymbolType.eof }))
  unfolding code
  last_pass fuel c parse (inl closed) still = absurd (closed_not_open parse still closed)
  last_pass fuel c parse (inr r) still =
      let at_end = record parse { lookahead_type = SymbolType.eof } in
      let passed =
        final_pass-Gives lib executor Unit fuel c at_end (λ _ _ _. tt) (λ _. tt)
          (IsRunning-same lib c c parse at_end refl refl refl refl r) refl in
      Gives-weaken Unit _ _ (final_pass lib executor fuel c at_end)
        (λ q closed. over_of_closed q.1 closed) passed

  finish_over :
      (fuel : ℕ) (c : Ctx lib) (parse : ParserState) (lex : LexerState)
      → Goes c parse
      → Gives Unit
          (λ r. is_over r.1 ≡ true)
          (finish lib executor create_here_temp fuel (c, parse, lex))
  unfolding finish
  finish_over fuel c parse lex g =
      let interrupted = record parse { flags = record (parse.flags) { interrupted = true } } in
      let parse1 = if lex.flags.interrupted then interrupted else parse in
      let goes : Goes c parse1 =
        if_rule (Goes c) lex.flags.interrupted interrupted parse
          (λ _. elim g [
            | inl closed ↦ inl closed
            | inr r ↦ inr (IsRunning-same lib c c parse interrupted refl refl refl r.terminal r)
          ])
          (λ _. g) in
      Gives-bind Unit (λ r. is_over r.1 ≡ true) (λ r. is_over r.1 ≡ true)
        (if is_open_parse lib executor create_here_temp parse1
          then final_pass lib executor fuel c (record parse1 { lookahead_type = SymbolType.eof })
          else returned (c, parse1))
        _
        (if_rule (Gives Unit (λ r. is_over r.1 ≡ true))
          (is_open_parse lib executor create_here_temp parse1) _ _
          (λ still. last_pass fuel c parse1 goes still) (λ over. over_of_not_open parse1 over))
        (λ q over. over)

  -- From any context, parse_input never reads outside its tables or below its stack, whatever the
  -- input, the here-documents and the executed commands are, and where it returns, the parser has
  -- accepted, has an error or was interrupted.
  pub parse_input_over :
      (fuel : ℕ) (c : Ctx lib)
      → Gives Unit (λ r. is_over r.1 ≡ true) (parse_input lib executor create_here_temp fuel c)
  unfolding parse_input init_parser code
  parse_input_over fuel c =
      let start = init_parser lib c in
      let r : IsRunning lib start.0 start.1 = record {
        read = [];
        parsing =
            IsParsing-same lib start.0 start.0 (look start.1 SymbolType.eof 0) start.1 [] refl refl
              refl (init_parser-IsParsing lib c SymbolType.eof 0);
        terminal = refl;
      } in
      Gives-bind Unit (λ q. Goes q.0 q.1) (λ q. is_over q.1 ≡ true)
        (parse_loop lib executor create_here_temp fuel start.0 start.1 start.2) _
        (parse_loop-Goes fuel start.0 start.1 start.2 r)
        (λ q goes. finish_over fuel q.0 q.1 q.2 goes)
