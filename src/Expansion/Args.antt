-- ===== src/Expansion/Args.antt =====
-- The walk over the arguments of a command: expand_args of srcs/expansions/expansion.c.
use minishell.Base.{
  ℕ, zero, suc, ◌+◌, ◌≤◌, ◌≡◌, refl, sym, ap, ◌∙◌, subst, Bool, true, false, ◌||◌, Option, none,
  some, ◌>>=◌, List, [], ◌∷◌, ◌++◌, Bytes, if◌then◌else◌, length, length-append, arith, Bool-cases,
  inl, inr,
}
use mathlib.Core.List.{append-nil, append_assoc}
use minishell.Ctx.{Ctx}
use minishell.Expansion.Fields.{FieldArena, FieldRef, at_string, Expanding, record_reference}
use minishell.Expansion.Scan.{scan_word}
use minishell.Expansion.Segment.{plain_values}
use minishell.Expansion.Text.{unquoted, word_text}
use minishell.Expansion.Word.{field_bytes, field_refs, AtRest, scan_word-word_text}
use minishell.Libft.{Libft}
use minishell.Types.{Node, NodeType, arg_node}

abbrev pub is_arg : NodeType → Bool
is_arg arg_node = true
is_arg _ = false

abbrev pub needs_scan : Node → Bool
needs_scan node = node.content.has_quotes || node.content.has_expansion

module _ (arena : FieldArena) (lib : Libft) (c : Ctx lib) where
  abbrev pub word_of : Node → Bytes
  word_of node = lib.get_str c.strings node.content.arena_offset

  -- one round of the loop
  unfoldable pub expand_arg : Expanding → Node → Option Expanding
  unfolding scan_word record_reference
  expand_arg e node =
      if needs_scan node
      then scan_word arena lib c.vals c.return_status (length (word_of node)) e (word_of node)
      else some (record_reference e at_string node.content.arena_offset)

  -- the loop; `none` is the end of the fuel
  unfoldable pub expand_args : ℕ → Expanding → Node → Option Expanding
  unfolding expand_arg
  expand_args zero e node = if is_arg node.type then none else some e
  expand_args (suc fuel) e node =
      let next = lib.get Node c.commands node.next_idx in
      if is_arg node.type then (expand_arg e node >>= λ e'. expand_args fuel e' next) else some e

  -- the arguments from this node on
  abbrev pub AreArgs : Node → List Node → Type 0
  AreArgs node [] = is_arg node.type ≡ false
  AreArgs node (n ∷ ns) =
      (node ≡ n) × (is_arg n.type ≡ true) × AreArgs (lib.get Node c.commands n.next_idx) ns

  abbrev text_of : Node → Option Bytes
  text_of node = word_text arena lib c.vals c.return_status unquoted (word_of node) 0

  -- What an argument adds behind `offset` bytes of fields: a word without quotes and variables is
  -- left where it is.
  abbrev pub arg_bytes : Node → Bytes
  arg_bytes node = if needs_scan node then field_bytes (text_of node) else []

  abbrev pub arg_refs : ℕ → Node → List FieldRef
  arg_refs offset node =
      if needs_scan node
      then field_refs offset (text_of node)
      else record { arena = at_string; offset = node.content.arena_offset } ∷ []

  abbrev pub args_bytes : List Node → Bytes
  args_bytes [] = []
  args_bytes (n ∷ ns) = arg_bytes n ++ args_bytes ns

  abbrev pub args_refs : ℕ → List Node → List FieldRef
  args_refs offset [] = []
  args_refs offset (n ∷ ns) = arg_refs offset n ++ args_refs (offset + length (arg_bytes n)) ns

  expand_arg-arg_refs :
      (e : Expanding) (node : Node)
      → AtRest e
      → plain_values c.vals ≡ true
      → (e' : Expanding) × (expand_arg e node ≡ some e')
        × (e'.fields ≡ e.fields ++ arg_bytes node)
        × (e'.refs ≡ e.refs ++ arg_refs (length e.fields) node)
        × AtRest e'
  unfolding expand_arg record_reference
  expand_arg-arg_refs e node rest plain = elim (Bool-cases (needs_scan node)) [
    | inl h ↦ rw h (
        scan_word-word_text arena lib c.vals c.return_status (length (word_of node)) e
          (word_of node) rest plain (omega arith))
    | inr h ↦ rw h (
      record_reference e at_string node.content.arena_offset,
      refl,
      sym (append-nil e.fields),
      refl,
      rest,
    )
  ]

  -- For a chain of arguments, from a state outside quotes and fields, where no variable's value
  -- holds a blank, a tab or a newline, expand_args ends within as many rounds as there are
  -- arguments: for each, in order, it adds the word's field and a reference to it, or a reference to
  -- the word itself where the word has neither quotes nor variables.
  pub expand_args-args_refs :
      (ns : List Node) (fuel : ℕ) (e : Expanding) (node : Node)
      → AreArgs node ns
      → length ns ≤ fuel
      → AtRest e
      → plain_values c.vals ≡ true
      → (e' : Expanding) × (expand_args fuel e node ≡ some e')
        × (e'.fields ≡ e.fields ++ args_bytes ns)
        × (e'.refs ≡ e.refs ++ args_refs (length e.fields) ns)
        × AtRest e'
  unfolding expand_args
  expand_args-args_refs [] zero e node last f rest plain =
      (e, rw last refl, sym (append-nil e.fields), sym (append-nil e.refs), rest)
  expand_args-args_refs [] (suc fuel) e node last f rest plain =
      (e, rw last refl, sym (append-nil e.fields), sym (append-nil e.refs), rest)
  expand_args-args_refs (n ∷ ns) zero e node chain f rest plain = absurd (omega arith)
  expand_args-args_refs (n ∷ ns) (suc fuel) e node (same, arg, chain) f rest plain =
      let (e1, first, fields, refs, rest1) = expand_arg-arg_refs e n rest plain in
      let next = lib.get Node c.commands n.next_idx in
      let (e2, others, fields2, refs2, rest2) =
        expand_args-args_refs ns fuel e1 next chain (omega arith) rest1 plain in
      let offset : length e1.fields ≡ length e.fields + length (arg_bytes n) =
        ap length fields ∙ length-append e.fields (arg_bytes n) in
      (
        e2,
        subst (λ m. expand_args (suc fuel) e m ≡ some e2) (sym same) (rw (arg, first) others),
        fields2
            ∙ ap (λ f. f ++ args_bytes ns) fields
            ∙ append_assoc e.fields (arg_bytes n) (args_bytes ns),
        refs2
            ∙ ap (λ o. e1.refs ++ args_refs o ns) offset
            ∙ ap (λ r. r ++ args_refs (length e.fields + length (arg_bytes n)) ns) refs
            ∙ append_assoc e.refs (arg_refs (length e.fields) n)
                (args_refs (length e.fields + length (arg_bytes n)) ns),
        rest2,
      )
