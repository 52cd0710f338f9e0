-- ===== src/Shell/Session.antt =====
-- A session of the shell as a relation between contexts, one read at a time, against shell_loop of
-- srcs/main.c.
use minishell.Base.{
  ℕ, zero, suc, ◌≡◌, ◌≢◌, refl, Bool, true, false, not, ◌==◌, ==_iff, if_rule, ℤ, [], arith,
  Bool-cases, inl, inr, Bytes,
}
use minishell.Ctx.{Ctx}
use minishell.HereDoc.Read.{get_user_input}
use minishell.Libft.{Libft}
use minishell.Parser.Input.{Result, returned, unfinished, outside, Executor, parse_input}
use minishell.Parser.Safety.{Gives, Gives-bind, Gives-weaken}
use minishell.Parser.Whole.{is_over, parse_input_over}
use minishell.Shell.{sig_consume_sigint, settle, shell_turn, shell_loop}
use minishell.Types.{ParserState, Reading, line_read, input_ended, input_interrupted}
use minishell.Utils.{char_at}

false_of_not : (b : Bool) → not b ≡ true → b ≡ false
false_of_not true h = cc
false_of_not false h = refl

true_of_not : (b : Bool) → not b ≡ false → b ≡ true
true_of_not true h = refl
true_of_not false h = cc

Gives-known :
    {A : Type 0} (P : A → Type 0) (r : Result A)
    → Gives Unit P r
    → Gives Unit (λ a. P a × (r ≡ returned a)) r
Gives-known P (returned a) h = (h, refl)
Gives-known P unfinished h = h
Gives-known P outside h = h

module _ (lib : Libft) (executor : Executor lib) (create_here_temp : Ctx lib → ℤ × ℤ) where
  -- What a line leaves behind: an interrupted one 130, one with an error 2, and every other was
  -- accepted and leaves the status of its last command. Besides, only the line is forgotten.
  pub record Settled (c : Ctx lib) (parse : ParserState) (c' : Ctx lib) : Type 0 where
    pub interrupted : parse.flags.interrupted ≡ true → c'.return_status ≡ 130
    pub refused : parse.flags.interrupted ≡ false → parse.flags.error ≡ true → c'.return_status ≡ 2
    pub accepted :
        parse.flags.interrupted ≡ false
        → parse.flags.error ≡ false
        → (parse.flags.done ≡ true) × (c'.return_status ≡ c.return_status)
    pub rest : c' ≡ record c { return_status = c'.return_status; read_line = [] }

  -- From the first context the shell comes to its end in the second: at the end of the input, or
  -- behind a line that asks to exit. An interrupted read, an empty line and any other line go on.
  pub data Session : Ctx lib → Ctx lib → Type 0 where
    at_end : {c c' : Ctx lib} → get_user_input lib c ≡ (c', input_ended) → Session c c'
    at_interrupt :
        {c c1 c' : Ctx lib}
        → get_user_input lib c ≡ (c1, input_interrupted)
        → Session (record c1 { return_status = 130 }) c'
        → Session c c'
    at_empty :
        {c c1 c' : Ctx lib} (line : Bytes)
        → get_user_input lib c ≡ (c1, line_read line)
        → char_at line 0 ≡ 0
        → Session (record c1 { read_line = [] }) c'
        → Session c c'
    at_line :
        {c c1 c2 c3 c' : Ctx lib} (line : Bytes) (parse : ParserState) (fuel : ℕ)
        → get_user_input lib c ≡ (c1, line_read line)
        → char_at line 0 ≢ 0
        → parse_input lib executor create_here_temp fuel c1 ≡ returned (c2, parse)
        → Settled c2 parse c3
        → c3.should_exit ≡ false
        → Session c3 c'
        → Session c c'
    at_exit :
        {c c1 c2 c' : Ctx lib} (line : Bytes) (parse : ParserState) (fuel : ℕ)
        → get_user_input lib c ≡ (c1, line_read line)
        → char_at line 0 ≢ 0
        → parse_input lib executor create_here_temp fuel c1 ≡ returned (c2, parse)
        → Settled c2 parse c'
        → c'.should_exit ≡ true
        → Session c c'

  settle-Settled :
      (c : Ctx lib) (parse : ParserState)
      → is_over lib executor create_here_temp parse ≡ true
      → Settled c parse (record (settle lib c parse) { read_line = [] })
  unfolding settle sig_consume_sigint
  settle-Settled c parse over =
      let flags = parse.flags in
      elim (Bool-cases flags.interrupted) [
        | inl i ↦
            rw i (record {
              interrupted = λ _. refl;
              refused = λ e. cc;
              accepted = λ e. cc;
              rest = refl;
            })
        | inr i ↦ elim (Bool-cases flags.error) [
          | inl e ↦
              rw (i, e)
                (record {
                  interrupted = λ h. cc;
                  refused = λ _ _. refl;
                  accepted = λ _ h. cc;
                  rest = refl;
                })
          | inr e ↦
              rw (i, e)
                (record {
                  interrupted = λ h. cc;
                  refused = λ _ h. cc;
                  accepted = λ _ _. (ground arith, refl);
                  rest = refl;
                })
        ]
      ]

  -- what a round makes of the sessions that follow it
  abbrev Turned : Ctx lib → Ctx lib × Bool → Type 0
  Turned c (c', more) =
      (more ≡ true → (d : Ctx lib) → Session c' d → Session c d) × (more ≡ false → Session c c')

  shell_turn-Turned :
      (fuel : ℕ) (c c1 : Ctx lib) (r : Reading)
      → get_user_input lib c ≡ (c1, r)
      → Gives Unit (Turned c) (shell_turn lib executor create_here_temp fuel c1 r)
  unfolding shell_turn sig_consume_sigint
  shell_turn-Turned fuel c c1 input_ended e = (λ h. cc, λ _. at_end e)
  shell_turn-Turned fuel c c1 input_interrupted e = (λ _ d s. at_interrupt e s, λ h. cc)
  shell_turn-Turned fuel c c1 (line_read line) e =
      if_rule (Gives Unit (Turned c)) (char_at line 0 == 0) _ _
        (λ empty. (λ _ d s. at_empty line e ((==_iff (char_at line 0) 0).0 empty) s, λ h. cc))
        (λ full.
          let there : char_at line 0 ≢ 0 = λ same. ground arith in
          let over = parse_input_over lib executor create_here_temp fuel c1 in
          Gives-bind Unit _ (Turned c) (parse_input lib executor create_here_temp fuel c1) _
            (Gives-known (λ r. is_over lib executor create_here_temp r.1 ≡ true) _ over)
            λ (c2, parse) (closed, run).
              let settled = settle-Settled c2 parse closed in
              (
                λ h d s. at_line line parse fuel e there run settled (false_of_not _ h) s,
                λ h. at_exit line parse fuel e there run settled (true_of_not _ h),
              ))

  -- From any context, whatever the input, the commands and the here-documents are, shell_loop never
  -- reads outside the parser's tables or below its stack; and if it returns, it does so in a context
  -- in which a session from there ends: each interrupted read sets the status to 130 and goes on,
  -- each empty line goes on, each other line is parsed until it is interrupted, refused or accepted,
  -- with the status that belongs to it, and goes on unless the shell is to exit; and the last read
  -- finds the end of the input or a line behind which the shell is to exit.
  pub shell_loop-Session :
      (fuel : ℕ) (c : Ctx lib)
      → Gives Unit (Session c) (shell_loop lib executor create_here_temp fuel c)
  unfolding shell_loop
  shell_loop-Session zero c = tt
  shell_loop-Session (suc fuel) c =
      let (c1, r) = get_user_input lib c in
      Gives-bind Unit (Turned c) (Session c) (shell_turn lib executor create_here_temp fuel c1 r) _
        (shell_turn-Turned fuel c c1 r refl)
        λ (c2, more) (goes_on, ends).
          if_rule (Gives Unit (Session c)) more _ _
            (λ e.
              Gives-weaken Unit (Session c2) (Session c)
                (shell_loop lib executor create_here_temp fuel c2) (goes_on e)
                (shell_loop-Session fuel c2))
            (λ last. ends last)
