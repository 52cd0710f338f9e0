-- ===== src/Parser/Running.antt =====
-- The invariant of the parser's loop: the stack is a path through the automaton, and the lookahead a
-- terminal. It rests on the stack and two fields of the parser's state.
use minishell.Base.{
  ℕ, zero, suc, ◌+◌, ◌≡◌, refl, sym, ◌∙◌, subst, Bool, true, not, ◌&&◌, ◌||◌, Option, none, some,
  List, if_rule, length, Ensures, Ensures-bind, Ensures-weaken, ℤ,
}
use minishell.Ctx.{Ctx}
use minishell.HereDoc.Doc.{handle_here_body, handle_saved_tokens}
use minishell.HereDoc.Keeps.{handle_here_body-stack}
use minishell.Lexer.Keeps.{lex_token-stack}
use minishell.Lexer.Rules.{lex_token}
use minishell.Libft.{Libft}
use minishell.Parser.Classify.{classify_token-Classified}
use minishell.Parser.Flow.{
  Flow, start_here_body, pending_body, token_round, or_again, get_next_token, look_at,
  get_lookahead,
}
use minishell.Parser.Grammar.{is_terminal}
use minishell.Parser.Holds.{Holds}
use minishell.Parser.Sound.{IsParsing}
use minishell.Parser.Stack.{get_token_from_idx}
use minishell.Types.{LexerState, ParserState, Symbol, SymbolType}

module _ (lib : Libft) where
  pub record IsRunning (c : Ctx lib) (parse : ParserState) : Type 0 where
    pub read : List SymbolType
    pub parsing : IsParsing lib c parse read
    pub terminal : is_terminal parse.lookahead_type ≡ true

  pub IsParsing-same :
      (c c' : Ctx lib) (parse parse' : ParserState) (w : List SymbolType)
      → c'.stack ≡ c.stack
      → parse'.stack_idx ≡ parse.stack_idx
      → parse'.state ≡ parse.state
      → IsParsing lib c parse w
      → IsParsing lib c' parse' w
  IsParsing-same c c' parse parse' w st idx state p = record {
    symbols = p.symbols;
    agrees = record {
      held = subst (λ s. Holds lib s p.symbols) (sym st) p.agrees.held;
      size = idx ∙ p.agrees.size;
      count = subst (λ s. lib.count Symbol s ≡ suc (length p.symbols)) (sym st) p.agrees.count;
    };
    state = state ∙ p.state;
    linked = p.linked;
    stacked = p.stacked;
  }

  pub IsRunning-same :
      (c c' : Ctx lib) (parse parse' : ParserState)
      → c'.stack ≡ c.stack
      → parse'.stack_idx ≡ parse.stack_idx
      → parse'.state ≡ parse.state
      → is_terminal parse'.lookahead_type ≡ true
      → IsRunning c parse
      → IsRunning c' parse'
  IsRunning-same c c' parse parse' st idx state t r = record {
    read = r.read;
    parsing = IsParsing-same c c' parse parse' r.read st idx state r.parsing;
    terminal = t;
  }

  -- a result of a part that reads tokens
  abbrev pub FlowRuns : Option (Flow lib) → Type 0
  FlowRuns o = Ensures (λ flow. IsRunning flow.0 flow.1) o

  module _ (create_here_temp : Ctx lib → ℤ × ℤ) where
    pending_body-IsRunning :
        (fuel : ℕ) (c : Ctx lib) (parse : ParserState) (lex : LexerState)
        → IsRunning c parse
        → Ensures (λ r. IsRunning r.0 r.1) (pending_body lib create_here_temp fuel c parse lex)
    unfolding pending_body
    pending_body-IsRunning fuel c parse lex r =
        let body = handle_here_body lib create_here_temp fuel c parse lex in
        if_rule (Ensures (λ q. IsRunning q.0 q.1)) parse.flags.here_body body (some (c, parse, lex))
          (λ _.
            Ensures-weaken _ _ body
              (λ q k.
                IsRunning-same c q.0 parse q.1 k.0 k.1 k.2
                  (subst (λ t. is_terminal t ≡ true) (sym k.3) r.terminal) r)
              (handle_here_body-stack lib create_here_temp fuel c parse lex))
          (λ _. r)

    token_round-IsRunning :
        (read_body : Bool) (c : Ctx lib) (parse : ParserState) (lex : LexerState)
        → IsRunning c parse
        → (let (result, c', lex') = token_round lib create_here_temp read_body c parse lex in
            FlowRuns result × IsRunning c' parse)
    unfolding token_round handle_saved_tokens
    token_round-IsRunning read_body c parse lex r =
        let after = lex_token-stack lib c lex in
        let (c', lex', found) = lex_token lib c lex in
        (
          if_rule FlowRuns (read_body && lex.flags.interrupted) _ _ (λ _. r)
              λ _.
                if_rule FlowRuns parse.flags.has_saved_tokens _ _
                  (λ _.
                    IsRunning-same c c parse (handle_saved_tokens lib c parse) refl refl refl
                      r.terminal r)
                  λ _.
                    if_rule FlowRuns lex.flags.at_eoi _ _ (λ _. r)
                      λ _.
                        if_rule FlowRuns found _ _
                          (λ _.
                            IsRunning-same c c' parse
                              (record parse { token_idx = parse.token_idx + 1 }) after refl refl
                              r.terminal r)
                          (λ _. tt),
          IsRunning-same c c' parse parse after refl refl r.terminal r,
        )

    or_again-FlowRuns :
        (result again : Option (Flow lib))
        → FlowRuns result
        → FlowRuns again
        → FlowRuns (or_again lib create_here_temp result again)
    or_again-FlowRuns none again h k = k
    or_again-FlowRuns (some flow) again h k = h

    get_next_token-FlowRuns :
        (fuel : ℕ) (c : Ctx lib) (parse : ParserState) (lex : LexerState)
        → IsRunning c parse
        → FlowRuns (get_next_token lib create_here_temp fuel c parse lex)
    unfolding get_next_token
    get_next_token-FlowRuns zero c parse lex r = tt
    get_next_token-FlowRuns (suc fuel) c parse lex r =
        Ensures-bind (λ q. IsRunning q.0 q.1) (λ flow. IsRunning flow.0 flow.1)
          (pending_body lib create_here_temp fuel c parse lex) _
          (pending_body-IsRunning fuel c parse lex r)
          (λ q k.
            let (result, more) = token_round-IsRunning parse.flags.here_body q.0 q.1 q.2 k in
            or_again-FlowRuns _ _ result (get_next_token-FlowRuns fuel _ q.1 _ more))

    pub get_lookahead-FlowRuns :
        (fuel : ℕ) (c : Ctx lib) (parse : ParserState) (lex : LexerState)
        → IsRunning c parse
        → FlowRuns (get_lookahead lib create_here_temp fuel c parse lex)
    unfolding get_lookahead start_here_body
    get_lookahead-FlowRuns zero c parse lex r = tt
    get_lookahead-FlowRuns (suc fuel) c parse lex r =
        Ensures-bind (λ flow. IsRunning flow.0 flow.1) (λ flow. IsRunning flow.0 flow.1)
          (get_next_token lib create_here_temp fuel c parse lex) _
          (get_next_token-FlowRuns fuel c parse lex r)
          (λ q k.
            let token = get_token_from_idx lib q.0 q.1.token_idx in
            if_rule FlowRuns q.3 _ _
              (λ _.
                IsRunning-same q.0 q.0 q.1 (look_at lib create_here_temp q.0 q.1) refl refl refl
                  (classify_token-Classified lib q.0 token).0 k)
              λ _.
                if_rule FlowRuns (q.2.flags.interrupted || not q.1.flags.save_tokens) _ _ (λ _. k)
                  (λ _.
                    get_lookahead-FlowRuns fuel q.0 (start_here_body q.1) q.2 (
                      IsRunning-same q.0 q.0 q.1 (start_here_body q.1) refl refl refl k.terminal
                        k)))
