-- ===== src/Parser/Classify.antt =====
-- The symbol of a token, by its text: srcs/parser/classify_token.c.
use minishell.Base.{
  eq_ℕ_zero, ◌+◌, ◌≡◌, ◌≢◌, refl, sym, subst, Bool, true, ◌&&◌, List, [], ◌∷◌, Bytes, if◌then◌else◌,
  length, bytes_eq, eq_of_bytes_eq, bytes_eq_self, take, arith, Bool-cases, inl, inr, ◌⊎◌,
  and-eq-true, if_rule,
}
use minishell.Ctx.{Ctx}
use minishell.Environment.Defs.{key_eq}
use minishell.Environment.Lookup.{key_eq-bytes_eq}
use minishell.Libft.{Libft}
use minishell.Parser.Grammar.{is_terminal}
use minishell.Parser.Stack.{get_token_body}
use minishell.Types.{SymbolType, Token, code}
use minishell.Utils.{strn_eq}

-- an operator by its spelling
abbrev pub Operator : Type 0
Operator = Bytes × SymbolType

abbrev pub operators : List Operator
operators =
    (b'<' ∷ b'<' ∷ [], SymbolType.dless)
    ∷ (b'>' ∷ b'>' ∷ [], SymbolType.dgreat)
    ∷ (b'&' ∷ b'&' ∷ [], SymbolType.and_if)
    ∷ (b'|' ∷ b'|' ∷ [], SymbolType.or_if)
    ∷ (b'|' ∷ [], SymbolType.pipe)
    ∷ (b'<' ∷ [], SymbolType.less)
    ∷ (b'>' ∷ [], SymbolType.great)
    ∷ (b'(' ∷ [], SymbolType.opar)
    ∷ (b')' ∷ [], SymbolType.cpar)
    ∷ []

abbrev pub newline_text : Bytes
newline_text = b'\n' ∷ []

module _ (lib : Libft) where
  -- `!ft_strncmp(token_body, op, ft_strlen(op) + 1)`
  abbrev is_text : Bytes → Bytes → Bool
  is_text token_body op = strn_eq lib token_body op (length op + 1)

  -- the tests of classify_token on the text of the token
  unfoldable pub classify_text : Bytes → SymbolType
  classify_text s =
      if strn_eq lib s newline_text (length newline_text)
      then SymbolType.newline
      else if is_text s (b'<' ∷ b'<' ∷ [])
      then SymbolType.dless
      else if is_text s (b'>' ∷ b'>' ∷ [])
      then SymbolType.dgreat
      else if is_text s (b'&' ∷ b'&' ∷ [])
      then SymbolType.and_if
      else if is_text s (b'|' ∷ b'|' ∷ [])
      then SymbolType.or_if
      else if is_text s (b'|' ∷ [])
      then SymbolType.pipe
      else if is_text s (b'<' ∷ [])
      then SymbolType.less
      else if is_text s (b'>' ∷ [])
      then SymbolType.great
      else if is_text s (b'(' ∷ [])
      then SymbolType.opar
      else if is_text s (b')' ∷ [])
      then SymbolType.cpar
      else SymbolType.word

  unfoldable pub classify_token : Ctx lib → Token → SymbolType
  unfolding classify_text
  classify_token c token = classify_text (get_token_body lib c token)

  -- the first operator that is spelled so, or a word
  abbrev find : List Operator → Bytes → SymbolType
  find [] s = SymbolType.word
  find ((op, type) ∷ ops) s = let rest = find ops s in if bytes_eq s op then type else rest

  is_text-bytes_eq : (s op : Bytes) → is_text s op ≡ bytes_eq s op
  unfolding key_eq
  is_text-bytes_eq s op = key_eq-bytes_eq lib s op

  classify_text-find :
      (s : Bytes)
      → classify_text s
        ≡ (if strn_eq lib s newline_text 1 then SymbolType.newline else find operators s)
  unfolding classify_text
  classify_text-find s =
      rw
        (
          is_text-bytes_eq s (b'<' ∷ b'<' ∷ []),
          is_text-bytes_eq s (b'>' ∷ b'>' ∷ []),
          is_text-bytes_eq s (b'&' ∷ b'&' ∷ []),
          is_text-bytes_eq s (b'|' ∷ b'|' ∷ []),
          is_text-bytes_eq s (b'|' ∷ []),
          is_text-bytes_eq s (b'<' ∷ []),
          is_text-bytes_eq s (b'>' ∷ []),
          is_text-bytes_eq s (b'(' ∷ []),
          is_text-bytes_eq s (b')' ∷ []),
        )
        refl

  -- the string spells this operator
  abbrev pub Spells : List Operator → SymbolType → Bytes → Type 0
  Spells [] t s = ⊥
  Spells ((op, type) ∷ ops) t s = ((t ≡ type) × (s ≡ op)) ⊎ Spells ops t s

  -- what a symbol other than newline says of the string
  abbrev pub Found : List Operator → Bytes → SymbolType → Type 0
  Found ops s t = Spells ops t s ⊎ ((t ≡ SymbolType.word) × ((u : SymbolType) → Spells ops u s → ⊥))

  find-Found : (ops : List Operator) (s : Bytes) → Found ops s (find ops s)
  find-Found [] s = inr (refl, λ u h. h)
  find-Found ((op, type) ∷ ops) s = elim (Bool-cases (bytes_eq s op)) [
    | inl e ↦ rw e (inl (inl (refl, eq_of_bytes_eq s op e)))
    | inr e ↦ rw e (elim (find-Found ops s) [
      | inl h ↦ inl (inr h)
      | inr w ↦ inr (
        w.0,
        λ u h. elim h [
          | inl q ↦ cc (e, subst (λ x. bytes_eq s x ≡ true) q.1 (bytes_eq_self s))
          | inr q ↦ w.1 u q
        ],
      )
    ])
  ]

  abbrev all_terminal : List Operator → Bool
  all_terminal [] = true
  all_terminal ((op, type) ∷ ops) = is_terminal type && all_terminal ops

  is_terminal-find :
      (ops : List Operator) (s : Bytes) → all_terminal ops ≡ true → is_terminal (find ops s) ≡ true
  unfolding code
  is_terminal-find [] s h = refl
  is_terminal-find ((op, type) ∷ ops) s h =
      let (here, later) = and-eq-true (is_terminal type) (all_terminal ops) h in
      if_rule (λ t. is_terminal t ≡ true) (bytes_eq s op) type (find ops s) (λ _. here)
        (λ _. is_terminal-find ops s later)

  -- A text that starts with a newline, or an operator or a word.
  abbrev pub Classified : Bytes → SymbolType → Type 0
  Classified s t =
      (is_terminal t ≡ true)
      × (((t ≡ SymbolType.newline) × (take 1 s ≡ newline_text))
          ⊎ ((take 1 s ≢ newline_text) × Found operators s t))

  -- The symbol of a token is a terminal: newline for a text that starts with one; otherwise an
  -- operator whose spelling the text is, or word for a text that no operator is spelled as.
  pub classify_token-Classified :
      (c : Ctx lib) (token : Token)
      → Classified (get_token_body lib c token) (classify_token c token)
  unfolding classify_token code
  classify_token-Classified c token =
      let s = get_token_body lib c token in
      let prefix = lib.strncmp_prefix s newline_text 1 (omega arith) in
      let zero = eq_ℕ_zero (lib.strncmp s newline_text 1) in
      subst (Classified s) (sym (classify_text-find s)) (
        if_rule (Classified s) (strn_eq lib s newline_text 1) SymbolType.newline (find operators s)
          (λ e. (refl, inl (refl, prefix.0 (zero.0 e))))
          (λ e. (
            is_terminal-find operators s refl,
            inr (λ h. cc (e, zero.1 (prefix.1 h)), find-Found operators s),
          )))
