-- ===== src/Parser/Holds.antt =====
-- The symbols that AT_STACK holds, and the two moves of the stack on them.
use minishell.Base.{
  ℕ, suc, ◌-◌, ◌≤◌, ◌≡◌, refl, ap, ◌∙◌, true, some, List, [], ◌∷◌, ◌++◌, length, leb, arith,
  length-append,
}
use minishell.Ctx.{Ctx}
use minishell.Libft.{Libft}
use minishell.Parser.Stack.{push_symbol, pop_symbols}
use minishell.Parser.Stacked.{top}
use minishell.Types.{Symbol, ParserState}

module _ (lib : Libft) where
  abbrev pub Stack : Type 0
  Stack = lib.Arena Symbol

  -- Slot 0 is the state below the bottom, and the symbols stand above it in order.
  abbrev pub Holds : Stack → List Symbol → Type 0
  Holds st [] = (lib.get Symbol st 0).entry_state ≡ 0
  Holds st (x ∷ xs) = (lib.get Symbol st (suc (length xs)) ≡ x) × Holds st xs

  pub Holds-agree :
      (st st' : Stack) (xs : List Symbol)
      → ((i : ℕ) → i ≤ length xs → lib.get Symbol st' i ≡ lib.get Symbol st i)
      → Holds st xs
      → Holds st' xs
  Holds-agree st st' [] e h = ap (λ (s : Symbol). s.entry_state) (e 0 (omega arith)) ∙ h
  Holds-agree st st' (x ∷ xs) e (h, t) =
      (e (suc (length xs)) (omega arith) ∙ h, Holds-agree st st' xs (λ i k. e i (omega arith)) t)

  Holds-push :
      (st : Stack) (xs : List Symbol) (x : Symbol)
      → lib.count Symbol st ≡ suc (length xs)
      → Holds st xs
      → Holds (lib.set Symbol (lib.alloc Symbol st) (suc (length xs)) x) (x ∷ xs)
  Holds-push st xs x n h =
      let new = lib.alloc Symbol st in
      (
        lib.get-set_self Symbol new (suc (length xs)) x (omega (arith, lib.count-alloc Symbol st)),
        Holds-agree st (lib.set Symbol new (suc (length xs)) x) xs
            (λ i k.
              lib.get-set_ne Symbol new (suc (length xs)) i x (omega arith)
              ∙ lib.get-alloc Symbol st i (omega arith))
            h,
      )

  Holds-append : (st : Stack) (ys zs : List Symbol) → Holds st (ys ++ zs) → Holds st zs
  Holds-append st [] zs h = h
  Holds-append st (y ∷ ys) zs (_, h) = Holds-append st ys zs h

  Holds-top :
      (st : Stack) (xs : List Symbol)
      → Holds st xs
      → (lib.get Symbol st (length xs)).entry_state ≡ top xs
  Holds-top st [] h = h
  Holds-top st (x ∷ xs) (h, _) = ap (λ (s : Symbol). s.entry_state) h

  -- The arena and the parser's view of it agree on these symbols.
  pub record Agrees (c : Ctx lib) (parse : ParserState) (xs : List Symbol) : Type 0 where
    pub held : Holds c.stack xs
    pub size : parse.stack_idx ≡ length xs
    pub count : lib.count Symbol c.stack ≡ suc (length xs)

  pub push_symbol-Agrees :
      (c : Ctx lib) (parse : ParserState) (xs : List Symbol) (x : Symbol)
      → Agrees c parse xs
      → (let pushed = push_symbol lib c parse x in
          Agrees pushed.0 pushed.1 (record x { entry_state = parse.state } ∷ xs)
          × (pushed.1 ≡ record parse { stack_idx = suc (length xs) }))
  unfolding push_symbol
  push_symbol-Agrees c parse xs x a =
      let src = record x { entry_state = parse.state } in
      rw a.count (
        record {
          held = Holds-push c.stack xs src a.count a.held;
          size = refl;
          count =
              lib.count-set Symbol (lib.alloc Symbol c.stack) (suc (length xs)) src
              ∙ lib.count-alloc Symbol c.stack
              ∙ ap suc a.count;
        },
        refl,
      )

  pub pop_symbols-Agrees :
      (c : Ctx lib) (parse : ParserState) (ys zs : List Symbol)
      → Agrees c parse (ys ++ zs)
      → (c' : Ctx lib) × (pop_symbols lib c parse (length ys)
          ≡ some (c', record parse { stack_idx = length zs; state = top zs }))
        × Agrees c' (record parse { stack_idx = length zs; state = top zs }) zs
  unfolding pop_symbols
  pop_symbols-Agrees c parse ys zs a =
      let st = lib.set_count Symbol c.stack (suc (length zs)) in
      let both = length-append ys zs in
      let level : lib.count Symbol c.stack - length ys ≡ suc (length zs) =
        omega (arith, a.count, both) in
      let idx : parse.stack_idx - length ys ≡ length zs = omega (arith, a.size, both) in
      let enough : leb (length ys) parse.stack_idx ≡ true = ground (arith, a.size, both) in
      let held =
        Holds-agree c.stack st zs
          (λ i k. lib.get-set_count Symbol c.stack (suc (length zs)) i (omega arith))
          (Holds-append c.stack ys zs a.held) in
      (
        record c { stack = st },
        rw (level, idx, enough, Holds-top st zs held) refl,
        record {
          held = held;
          size = refl;
          count = lib.count-set_count Symbol c.stack (suc (length zs));
        },
      )
