-- ===== src/Expansion/Redir.antt =====
-- The word of a redirection: expand_redir of srcs/expansions/expansion.c.
use minishell.Base.{
  ℕ, ◌-◌, ◌≡◌, refl, ap, ◌∙◌, Bool, true, false, not, ◌&&◌, Option, none, some, ◌>>=◌, List, [],
  ◌∷◌, ◌++◌, Bytes, ◌==◌, if◌then◌else◌, length, length-append, get_or, arith, Option-cases, inl,
  inr,
}
use mathlib.Core.List.{append-nil}
use minishell.Ctx.{Ctx}
use minishell.Expansion.Args.{needs_scan, word_of}
use minishell.Expansion.Fields.{FieldArena, FieldRef, at_string, Expanding}
use minishell.Expansion.Scan.{scan_word}
use minishell.Expansion.Segment.{plain_values}
use minishell.Expansion.Text.{unquoted, word_text}
use minishell.Expansion.Word.{field_bytes, field_refs, AtRest, scan_word-word_text}
use minishell.Libft.{Libft}
use minishell.Types.{Node}

get_or-append : (xs : List FieldRef) (y d : FieldRef) → get_or (xs ++ (y ∷ [])) (length xs) d ≡ y
get_or-append [] y d = refl
get_or-append (x ∷ xs) y d = get_or-append xs y d

module _ (arena : FieldArena) (lib : Libft) (c : Ctx lib) where
  unfoldable pub redir_needs_scan : Node → Bool
  redir_needs_scan redir_node = not redir_node.flags.redir_here && needs_scan redir_node

  -- the slot at redir_base takes the place of the word, and AT_ARGV is restored
  unfoldable pub resolve_redir_field : List FieldRef → ℕ → Node → Node
  resolve_redir_field refs redir_base redir_node =
      let slot = get_or refs redir_base (record { arena = at_string; offset = 0 }) in
      record redir_node { content = record (redir_node.content) { arena_offset = slot.offset } }

  -- what is left behind, the node, and whether it is EXIT_SUCCESS
  unfoldable pub expand_redir : Expanding → Node → Option (Expanding × Node × Bool)
  unfolding redir_needs_scan resolve_redir_field
  expand_redir e redir_node =
      let word = word_of arena lib c redir_node in
      let redir_base = length e.refs in
      if redir_needs_scan redir_node
      then (scan_word arena lib c.vals c.return_status (length word) e word >>= λ e'.
          let restored = record e' { refs = e.refs } in
          let resolved = resolve_redir_field e'.refs redir_base redir_node in
          some (
            if length e'.refs - redir_base == 1
            then (restored, resolved, true)
            else (restored, redir_node, false)))
      else some (e, redir_node, true)

  abbrev text_of : Node → Option Bytes
  text_of node = word_text arena lib c.vals c.return_status unquoted (word_of arena lib c node) 0

  abbrev pub with_offset : Node → ℕ → Node
  with_offset node offset = record node {
    content = record (node.content) { arena_offset = offset };
  }

  -- the node, and whether there is one field
  abbrev pub resolved : Expanding → Node → Option Bytes → Node × Bool
  resolved e node none = (node, false)
  resolved e node (some t) = (with_offset node (length e.fields), true)

  -- For a redirection whose word has quotes or variables and is no here-document's, from a state
  -- outside quotes and fields, where no variable's value holds a blank, a tab or a newline:
  -- expand_redir ends, adds the word's field and leaves the references as they were. If there is a
  -- field, the node then points at it, behind the fields that were there; if there is none, the node
  -- stays and the redirection is refused.
  pub expand_redir-word_text :
      (e : Expanding) (redir_node : Node)
      → redir_needs_scan redir_node ≡ true
      → AtRest e
      → plain_values c.vals ≡ true
      → (let text = text_of redir_node in
          (e' : Expanding) × (expand_redir e redir_node
            ≡ some (e', (resolved e redir_node text).0, (resolved e redir_node text).1))
          × (e'.fields ≡ e.fields ++ field_bytes text)
          × (e'.refs ≡ e.refs)
          × AtRest e')
  unfolding expand_redir resolve_redir_field
  expand_redir-word_text e node needs rest plain =
      let word = word_of arena lib c node in
      let (e1, scans, fields, refs, rest1) =
        scan_word-word_text arena lib c.vals c.return_status (length word) e word rest plain
          (omega arith) in
      elim (Option-cases (text_of node)) [
        | inl h ↦
            let same : e1.refs ≡ e.refs =
              refs ∙ ap (λ t. e.refs ++ field_refs (length e.fields) t) h ∙ append-nil e.refs in
            let count : (length e1.refs - length e.refs == 1) ≡ false =
              ground (arith, ap length same) in
            (record e1 { refs = e.refs }, rw (needs, scans, count, h) refl, fields, refl, rest1)
        | inr (t, h) ↦
            let one = refs ∙ ap (λ u. e.refs ++ field_refs (length e.fields) u) h in
            let count : (length e1.refs - length e.refs == 1) ≡ true = ground (
              arith,
              ap length one,
              length-append e.refs (field_refs (length e.fields) (some t)),
            ) in
            let slot =
              ap (λ r. get_or r (length e.refs) (record { arena = at_string; offset = 0 })) one
              ∙ get_or-append e.refs _ _ in
            (
              record e1 { refs = e.refs },
              rw (needs, scans, count, h, slot) refl,
              fields,
              refl,
              rest1,
            )
      ]
