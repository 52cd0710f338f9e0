-- ===== src/Parser/Safety.antt =====
-- The results of the parser's loop, and what execution leaves of the stack
-- (srcs/parser/parse_input.c).
use minishell.Base.{
  ℕ, zero, suc, ◌+◌, ◌-◌, ◌≡◌, refl, sym, ap, ◌∙◌, subst, ◌&&◌, Option, none, some, List, [], ◌∷◌,
  if_rule, length, Ensures, arith,
}
use minishell.Ctx.{Ctx}
use minishell.Libft.{Libft}
use minishell.Parser.Holds.{Holds, Holds-agree, Agrees}
use minishell.Parser.Input.{
  Result, returned, unfinished, outside, ◌>>=ᵣ◌, or_unfinished, is_redir, close_heredoc_fds,
  close_loop,
}
use minishell.Parser.Nodes.{get_node_from_idx, put_node}
use minishell.Parser.Potential.{weigh}
use minishell.Parser.Sound.{IsParsing, potential, potential-weigh}
use minishell.Parser.Stack.{get_symbol_from_idx}
use minishell.Parser.Stacked.{top, types, IsLinked, Stacked}
use minishell.Types.{ParserState, Symbol, SymbolType}

-- Nothing outside the tables or the stack is read, a result that is returned has the property, and
-- `U` holds where none is.
abbrev pub Gives : {A : Type 0} → Type 0 → (A → Type 0) → Result A → Type 0
Gives U P (returned a) = P a
Gives U P unfinished = U
Gives U P outside = ⊥

pub Gives-bind :
    {A B : Type 0} (U : Type 0) (P : A → Type 0) (Q : B → Type 0) (r : Result A) (f : A → Result B)
    → Gives U P r
    → ((a : A) → P a → Gives U Q (f a))
    → Gives U Q (r >>=ᵣ f)
Gives-bind U P Q (returned a) f h k = k a h
Gives-bind U P Q unfinished f h k = h
Gives-bind U P Q outside f h k = absurd h

pub Gives-weaken :
    {A : Type 0} (U : Type 0) (P Q : A → Type 0) (r : Result A)
    → ((a : A) → P a → Q a)
    → Gives U P r
    → Gives U Q r
Gives-weaken U P Q (returned a) k h = k a h
Gives-weaken U P Q unfinished k h = h
Gives-weaken U P Q outside k h = h

pub Gives-or_unfinished :
    {A : Type 0} (P : A → Type 0) (o : Option A) → Ensures P o → Gives Unit P (or_unfinished o)
Gives-or_unfinished P none h = tt
Gives-or_unfinished P (some a) h = h

pub Gives-value :
    {A : Type 0} (P : A → Type 0) (r : Result A) → Gives ⊥ P r → (a : A) × (r ≡ returned a) × P a
Gives-value P (returned a) h = (a, refl, h)
Gives-value P unfinished h = absurd h
Gives-value P outside h = absurd h

module _ (lib : Libft) where
  close_loop-stack : (left i : ℕ) (c : Ctx lib) → (close_loop lib left i c).stack ≡ c.stack
  unfolding close_loop put_node
  close_loop-stack zero i c = refl
  close_loop-stack (suc left) i c =
      let node = get_node_from_idx lib c i in
      close_loop-stack left (i + 1) _
      ∙ if_rule (λ (d : Ctx lib). d.stack ≡ c.stack) (is_redir node.type && node.flags.redir_here) _
          _ (λ _. refl) (λ _. refl)

  pub close_heredoc_fds-stack : (c : Ctx lib) → (close_heredoc_fds lib c).stack ≡ c.stack
  unfolding close_heredoc_fds
  close_heredoc_fds-stack c = close_loop-stack (lib.count _ c.commands - 1) 1 c

  -- the same stack, but for the node of the symbol on top
  abbrev pub reset_top : Ctx lib → ℕ → Ctx lib
  reset_top c idx = record c {
    stack = lib.set Symbol c.stack idx (record (get_symbol_from_idx lib c idx) { node_idx = 0 });
  }

  record TopReset (c : Ctx lib) (parse : ParserState) (xs : List Symbol) : Type 0 where
    pub symbols : List Symbol
    pub agrees : Agrees lib (reset_top c parse.stack_idx) parse symbols
    pub same_top : top symbols ≡ top xs
    pub same_types : types symbols ≡ types xs
    pub same_weight : weigh symbols ≡ weigh xs
    pub linked : IsLinked xs → IsLinked symbols

  reset_top-TopReset :
      (c : Ctx lib) (parse : ParserState) (xs : List Symbol)
      → Agrees lib c parse xs
      → TopReset c parse xs
  unfolding get_symbol_from_idx
  reset_top-TopReset c parse [] a =
      let zeroed = record (lib.get Symbol c.stack 0) { node_idx = 0 } in
      record {
        symbols = [];
        agrees = record {
          held = rw a.size (
              ap (λ (s : Symbol). s.entry_state)
                (lib.get-set_self Symbol c.stack 0 zeroed (omega (arith, a.count)))
              ∙ a.held);
          size = a.size;
          count = lib.count-set Symbol c.stack parse.stack_idx _ ∙ a.count;
        };
        same_top = refl;
        same_types = refl;
        same_weight = refl;
        linked = λ l. l;
      }
  reset_top-TopReset c parse (x ∷ xs) a =
      let n = suc (length xs) in
      let y = record x { node_idx = 0 } in
      let st = lib.set Symbol c.stack n y in
      record {
        symbols = y ∷ xs;
        agrees = record {
          held =
              subst (λ s. Holds lib s (y ∷ xs))
                (ap
                  (λ i.
                    lib.set Symbol c.stack i (record (lib.get Symbol c.stack i) { node_idx = 0 }))
                  (sym a.size))
                (subst
                  (λ z. Holds lib (lib.set Symbol c.stack n (record z { node_idx = 0 })) (y ∷ xs))
                  (sym a.held.0)
                  (
                    lib.get-set_self Symbol c.stack n y (omega (arith, a.count)),
                    Holds-agree lib c.stack st xs
                        (λ i k. lib.get-set_ne Symbol c.stack n i y (omega arith)) a.held.1,
                  ));
          size = a.size;
          count = lib.count-set Symbol c.stack parse.stack_idx _ ∙ a.count;
        };
        same_top = refl;
        same_types = refl;
        same_weight = refl;
        linked = λ l. l;
      }

  pub reset-IsParsing :
      (c : Ctx lib) (parse : ParserState) (w : List SymbolType)
      → IsParsing lib c parse w
      → IsParsing lib (reset_top c parse.stack_idx) parse w
        × (potential lib (reset_top c parse.stack_idx) parse ≡ potential lib c parse)
  reset-IsParsing c parse w p =
      let r = reset_top-TopReset c parse p.symbols p.agrees in
      let at_top = p.state ∙ sym r.same_top in
      (
        record {
          symbols = r.symbols;
          agrees = r.agrees;
          state = at_top;
          linked = r.linked p.linked;
          stacked = subst (λ ts. Stacked ts w) (sym r.same_types) p.stacked;
        },
        potential-weigh lib _ parse r.symbols r.agrees at_top
            ∙ rw (r.same_weight, r.same_top) refl
            ∙ sym (potential-weigh lib c parse p.symbols p.agrees p.state),
      )
