-- ===== src/Parser/Sound.antt =====
-- shift_reduce follows the grammar: it never reads outside its tables or below its stack, the stack
-- stands for the terminals read so far, and acceptance means that they are a program.
use minishell.Base.{
  ℕ, zero, suc, ◌+◌, ◌*◌, ◌<◌, ◌≤◌, ◌≡◌, refl, sym, ap, ◌∙◌, true, false, ◌&&◌, Option, none, some,
  List, [], ◌∷◌, ◌++◌, reverse, length, arith, and-eq-true, subst, ◌==◌, ==_iff, get_elem?,
}
use mathlib.Core.List.{reverse_aux, reverse-reverse}
use minishell.Ctx.{Ctx}
use minishell.Libft.{Libft}
use minishell.Parser.Action.{yyfinal}
use minishell.Parser.Automaton.{linked}
use minishell.Parser.Check.{rule_fits, returns}
use minishell.Parser.Dispatch.{Rule, get_rule}
use minishell.Parser.Grammar.{DerivesAll, node, Production, productions}
use minishell.Parser.Potential.{
  weight, extra, weight-le, extra-le, weigh, rule_drops, rule_drops_sound,
}
use minishell.Parser.Holds.{Stack, Holds, Agrees, push_symbol-Agrees, pop_symbols-Agrees}
use minishell.Parser.ShiftReduce.{Acted, reduce_apply_goto, replace_rhs}
use minishell.Parser.Stack.{push_symbol}
use minishell.Parser.Stacked.{
  top, types, IsLinked, Returns, returns-Returns, Stacked, push, Stacked-append, DerivesAll-reverse,
}
use minishell.Types.{SymbolType, same, eq_of_same, Symbol, ParserState, lalr_reduce}

length-reverse_aux {ℓ} :
    {A : Type ℓ} (xs ys : List A) → length (reverse_aux xs ys) ≡ length xs + length ys
length-reverse_aux [] ys = omega arith
length-reverse_aux (x ∷ xs) ys = omega (arith, length-reverse_aux xs (x ∷ ys))

types-append : (xs ys : List Symbol) → types (xs ++ ys) ≡ types xs ++ types ys
types-append [] ys = refl
types-append (x ∷ xs) ys = ap (λ l. x.type ∷ l) (types-append xs ys)

module _ (lib : Libft) where
  -- The parser has shifted the terminals `w`, and reduced some of them.
  pub record IsParsing (c : Ctx lib) (parse : ParserState) (w : List SymbolType) : Type 0 where
    pub symbols : List Symbol
    pub agrees : Agrees lib c parse symbols
    pub state : parse.state ≡ top symbols
    pub linked : IsLinked symbols
    pub stacked : Stacked (types symbols) w

  stack_weight : Stack lib → ℕ → ℕ
  stack_weight st zero = 0
  stack_weight st (suc i) = weight (lib.get Symbol st (suc i)).entry_state + stack_weight st i

  -- the weight of the states on the stack, and the extra of the state that the parser is in
  unfoldable pub potential : Ctx lib → ParserState → ℕ
  unfolding stack_weight
  potential c parse = stack_weight c.stack parse.stack_idx + extra parse.state

  stack_weight-le : (st : Stack lib) (n : ℕ) → stack_weight st n ≤ 11 * n
  unfolding stack_weight
  stack_weight-le st zero = omega arith
  stack_weight-le st (suc i) =
      omega (arith, weight-le (lib.get Symbol st (suc i)).entry_state, stack_weight-le st i)

  pub potential-le :
      (c : Ctx lib) (parse : ParserState) → potential c parse ≤ 11 * parse.stack_idx + 3
  unfolding potential
  potential-le c parse =
      omega (arith, stack_weight-le c.stack parse.stack_idx, extra-le parse.state)

  stack_weight-weigh :
      (st : Stack lib) (xs : List Symbol) → Holds lib st xs → stack_weight st (length xs) ≡ weigh xs
  unfolding stack_weight
  stack_weight-weigh st [] h = refl
  stack_weight-weigh st (x ∷ xs) (h, t) = rw (h, stack_weight-weigh st xs t) refl

  pub potential-weigh :
      (c : Ctx lib) (parse : ParserState) (xs : List Symbol)
      → Agrees lib c parse xs
      → parse.state ≡ top xs
      → potential c parse ≡ weigh xs + extra (top xs)
  unfolding potential
  potential-weigh c parse xs ag s = rw (ag.size, s, stack_weight-weigh c.stack xs ag.held) refl

  -- A rule of the tables is a production of the grammar, and can be applied to the stack.
  pub record Applies (k : ℕ) (xs : List Symbol) : Type 0 where
    pub rule : Rule
    pub rhs : List SymbolType
    pub is_rule : get_rule (suc k) ≡ some rule
    pub is_production : get_elem? productions k ≡ some (rule.lhs_type, rhs)
    pub rhs_len : rule.rhs_len ≡ length rhs
    pub returns : Returns xs (reverse rhs) rule.lhs_type

  pub rule_fits-Applies :
      (k : ℕ) (xs : List Symbol) (r : Option Rule) (p : Option Production)
      → get_rule (suc k) ≡ r
      → get_elem? productions k ≡ p
      → IsLinked xs
      → rule_fits (top xs) r p ≡ true
      → Applies k xs
  unfolding rule_fits
  rule_fits-Applies k xs none p er ep l h = cc
  rule_fits-Applies k xs (some rule) none er ep l h = cc
  rule_fits-Applies k xs (some rule) (some (lhs, rhs)) er ep l h =
      let (h', back) = and-eq-true (same rule.lhs_type lhs && (rule.rhs_len == length rhs)) _ h in
      let (left, len) = and-eq-true (same rule.lhs_type lhs) (rule.rhs_len == length rhs) h' in
      let e = eq_of_same rule.lhs_type lhs left in
      record {
        rule = rule;
        rhs = rhs;
        is_rule = er;
        is_production = ep ∙ ap (λ s. some (s, rhs)) (sym e);
        rhs_len = (==_iff _ _).0 len;
        returns =
            returns-Returns (reverse rhs) xs rule.lhs_type l
              (subst (λ s. returns (top xs) (reverse rhs) s ≡ true) (sym e) back);
      }

  rule_len :
      (k : ℕ) (xs : List Symbol) (a : Applies k xs) → a.rule.rhs_len ≡ length a.returns.popped
  rule_len k xs a = omega (arith, a.rhs_len, a.returns.count, length-reverse_aux a.rhs [])

  -- The left-hand side stands for what the right-hand side stood for.
  reduced-Stacked :
      (k : ℕ) (xs : List Symbol) (w : List SymbolType) (a : Applies k xs)
      → Stacked (types xs) w
      → Stacked (a.rule.lhs_type ∷ types a.returns.left) w
  reduced-Stacked k xs w a st =
      let b = a.returns in
      let split =
        ap types b.splits ∙ types-append b.popped b.left ∙ ap (λ l. l ++ types b.left) b.handle in
      let p = Stacked-append (reverse a.rhs) (types b.left) (subst (λ l. Stacked l w) split st) in
      let derived =
        subst (λ l. DerivesAll l p.back) (reverse-reverse a.rhs) (DerivesAll-reverse p.above) in
      push p.below (node k a.is_production derived) p.splits

  -- The left-hand side takes the place of the right: the stack stands for the same terminals.
  pub replace_rhs-IsParsing :
      (c : Ctx lib) (parse : ParserState) (xs : List Symbol) (w : List SymbolType) (k : ℕ)
      (a : Applies k xs) (src : Symbol)
      → Agrees lib c parse xs
      → Stacked (types xs) w
      → src.type ≡ a.rule.lhs_type
      → IsLinked xs
      → rule_drops (top xs) (some a.rule) ≡ true
      → (r : Acted lib) × (replace_rhs lib c parse a.rule src ≡ some r)
        × (r.2 ≡ lalr_reduce)
        × (r.1.lookahead_type ≡ parse.lookahead_type)
        × (potential r.0 r.1 < weigh xs + extra (top xs))
        × IsParsing r.0 r.1 w
  unfolding replace_rhs reduce_apply_goto
  replace_rhs-IsParsing c parse xs w k a src ag st e l d =
      let b = a.returns in
      let (c1, popped, ag1) =
        pop_symbols-Agrees lib c parse b.popped b.left (subst (Agrees lib c parse) b.splits ag) in
      let parse2 = record parse { stack_idx = length b.left; state = b.next } in
      let ag2 : Agrees lib c1 parse2 b.left = record {
        held = ag1.held;
        size = ag1.size;
        count = ag1.count;
      } in
      let pushed = push_symbol lib c1 parse2 src in
      let (ag3, same_parse) = push_symbol-Agrees lib c1 parse2 b.left src ag2 in
      let going : (b.next == yyfinal) ≡ false = ground arith in
      let at_top = ap (λ (q : ParserState). q.state) same_parse in
      let falls =
        subst (λ ys. weight b.next + extra b.next + weigh b.left < weigh ys + extra (top ys))
          (sym b.splits)
          (rule_drops_sound a.rule b.popped b.left b.next
            (subst (λ ys. rule_drops (top ys) (some a.rule) ≡ true) b.splits d) (rule_len k xs a)
            (subst IsLinked b.splits l) b.goes_to) in
      let weighs =
        potential-weigh pushed.0 pushed.1 (record src { entry_state = b.next } ∷ b.left) ag3
          at_top in
      let result : Acted lib = (pushed.0, pushed.1, lalr_reduce) in
      (
        result,
        rw (rule_len k xs a, popped, b.goes_to, same_parse, going) refl,
        refl,
        ap (λ (q : ParserState). q.lookahead_type) same_parse,
        omega (arith, weighs, falls),
        record {
          symbols = record src { entry_state = b.next } ∷ b.left;
          agrees = ag3;
          state = at_top;
          linked = (
            subst (λ t. linked (top b.left) t b.next ≡ true) (sym e) b.next_linked,
            b.next_ne,
            b.left_linked,
          );
          stacked = subst (λ t. Stacked (t ∷ types b.left) w) (sym e) (reduced-Stacked k xs w a st);
        },
      )
