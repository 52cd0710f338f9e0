-- ===== src/Expansion/Argv.antt =====
-- The argument vector: finish_args of srcs/expansions/expansion.c, behind expand_args.
use minishell.Base.{
  ℕ, ◌+◌, ◌≤◌, ◌≡◌, refl, sym, ap, ◌∙◌, true, false, Option, none, some, List, [], ◌∷◌, ◌++◌, Bytes,
  if◌then◌else◌, map, length, length-append, take, take-append, take_all, drop, has_byte, arith,
  Bool-cases, inl, inr,
}
use mathlib.Core.List.{append_assoc}
use minishell.Ctx.{Ctx}
use minishell.Environment.Defs.{word_len}
use minishell.Environment.Exported.{word_len-append}
use minishell.Expansion.Args.{
  needs_scan, word_of, expand_args, AreArgs, arg_bytes, arg_refs, args_bytes, args_refs,
  expand_args-args_refs,
}
use minishell.Expansion.Fields.{FieldArena, FieldRef, at_string, at_fields, Expanding}
use minishell.Expansion.Segment.{plain_values}
use minishell.Expansion.Text.{unquoted, word_text}
use minishell.Expansion.Word.{field_bytes, field_refs, AtRest}
use minishell.Libft.{Libft}
use minishell.Types.{Node}

-- the C string at an address of the arena
abbrev pub string_at : Bytes → ℕ → Bytes
string_at fields offset = let rest = drop offset fields in take (word_len rest 0) rest

drop-length : (pre rest : Bytes) → drop (length pre) (pre ++ rest) ≡ rest
drop-length [] rest = refl
drop-length (x ∷ pre) rest = drop-length pre rest

-- a field behind others reads back
string_at-append :
    (pre t rest : Bytes)
    → has_byte t 0 ≡ false
    → string_at (pre ++ ((t ++ (0 ∷ [])) ++ rest)) (length pre) ≡ t
string_at-append pre t rest h =
    let field : drop (length pre) (pre ++ ((t ++ (0 ∷ [])) ++ rest)) ≡ t ++ (0 ∷ rest) =
      drop-length pre ((t ++ (0 ∷ [])) ++ rest) ∙ append_assoc t (0 ∷ []) rest in
    rw (field, word_len-append t rest 0 h)
      (take-append t (0 ∷ rest) (length t) (omega arith) ∙ take_all t (length t) (omega arith))

map-append :
    (f : FieldRef → Bytes) (xs ys : List FieldRef) → map f (xs ++ ys) ≡ map f xs ++ map f ys
map-append f [] ys = refl
map-append f (x ∷ xs) ys = ap (λ l. f x ∷ l) (map-append f xs ys)

module _ (arena : FieldArena) (lib : Libft) (c : Ctx lib) where
  unfoldable pub resolve : Bytes → FieldRef → Bytes
  resolve fields ref = elim ref.arena [
    | at_string ↦ lib.get_str c.strings ref.offset
    | at_fields ↦ string_at fields ref.offset
  ]

  -- argv without its NULL
  unfoldable pub finish_args : Expanding → List Bytes
  unfolding resolve
  finish_args e = map (resolve e.fields) e.refs

  abbrev text_of : Node → Option Bytes
  text_of node = word_text arena lib c.vals c.return_status unquoted (word_of arena lib c node) 0

  abbrev pub as_list : Option Bytes → List Bytes
  as_list none = []
  as_list (some t) = t ∷ []

  -- the arguments as text
  abbrev pub arg_text : Node → List Bytes
  arg_text node = if needs_scan node then as_list (text_of node) else word_of arena lib c node ∷ []

  abbrev pub args_text : List Node → List Bytes
  args_text [] = []
  args_text (n ∷ ns) = arg_text n ++ args_text ns

  abbrev pub HasNoNul : Option Bytes → Type 0
  HasNoNul none = Unit
  HasNoNul (some t) = has_byte t 0 ≡ false

  abbrev pub HaveNoNul : List Node → Type 0
  HaveNoNul [] = Unit
  HaveNoNul (n ∷ ns) = HasNoNul (text_of n) × HaveNoNul ns

  resolve-text :
      (pre rest : Bytes) (o : Option Bytes)
      → HasNoNul o
      → map (resolve (pre ++ (field_bytes o ++ rest))) (field_refs (length pre) o) ≡ as_list o
  unfolding resolve
  resolve-text pre rest none h = refl
  resolve-text pre rest (some t) h = ap (λ s. s ∷ []) (string_at-append pre t rest h)

  resolve-arg :
      (pre rest : Bytes) (n : Node)
      → HasNoNul (text_of n)
      → map
          (resolve (pre ++ (arg_bytes arena lib c n ++ rest)))
          (arg_refs arena lib c (length pre) n)
        ≡ arg_text n
  unfolding resolve
  resolve-arg pre rest n h = elim (Bool-cases (needs_scan n)) [
    | inl k ↦ rw k (resolve-text pre rest (text_of n) h)
    | inr k ↦ rw k refl
  ]

  resolve-args :
      (pre : Bytes) (ns : List Node)
      → HaveNoNul ns
      → map (resolve (pre ++ args_bytes arena lib c ns)) (args_refs arena lib c (length pre) ns)
        ≡ args_text ns
  resolve-args pre [] h = refl
  resolve-args pre (n ∷ ns) (h, hs) =
      let here = arg_bytes arena lib c n in
      let rest = args_bytes arena lib c ns in
      let all = pre ++ (here ++ rest) in
      let offset : length (pre ++ here) ≡ length pre + length here = length-append pre here in
      map-append (resolve all) (arg_refs arena lib c (length pre) n)
        (args_refs arena lib c (length pre + length here) ns)
      ∙ ap (λ l. l ++ map (resolve all) (args_refs arena lib c (length pre + length here) ns))
          (resolve-arg pre rest n h)
      ∙ ap (λ l. arg_text n ++ l)
          (ap (λ o. map (resolve all) (args_refs arena lib c o ns)) (sym offset)
            ∙ ap (λ f. map (resolve f) (args_refs arena lib c (length (pre ++ here)) ns))
                (sym (append_assoc pre here rest))
            ∙ resolve-args (pre ++ here) ns hs)

  -- For a chain of arguments, from a state outside quotes and fields and without references, where
  -- no variable's value holds a blank, a tab or a newline, and no word's text a NUL: expand_args
  -- ends within as many rounds as there are arguments, and finish_args makes the arguments of the
  -- words' texts, in order; a word that has neither text nor quotes gives none.
  pub finish_args-args_text :
      (ns : List Node) (fuel : ℕ) (e : Expanding) (node : Node)
      → AreArgs arena lib c node ns
      → length ns ≤ fuel
      → AtRest e
      → e.refs ≡ []
      → plain_values c.vals ≡ true
      → HaveNoNul ns
      → (e' : Expanding) × (expand_args arena lib c fuel e node ≡ some e')
        × (finish_args e' ≡ args_text ns)
  unfolding finish_args
  finish_args-args_text ns fuel e node chain f rest none_yet plain h =
      let (e', ends, fields, refs, _) =
        expand_args-args_refs arena lib c ns fuel e node chain f rest plain in
      let all = refs ∙ ap (λ r. r ++ args_refs arena lib c (length e.fields) ns) none_yet in
      (
        e',
        ends,
        ap (λ f. map (resolve f) e'.refs) fields
            ∙ ap (map (resolve (e.fields ++ args_bytes arena lib c ns))) all
            ∙ resolve-args e.fields ns h,
      )
