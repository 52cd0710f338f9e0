-- ===== src/Expansion/Word.antt =====
-- scan_word (srcs/expansions/expand_helpers.c) against the text of the word's field.
use minishell.Base.{
  ℕ, zero, suc, ◌≤◌, ◌≡◌, refl, sym, ap, ◌∙◌, subst, Bool, true, false, Option, none, some, List,
  [], ◌∷◌, ◌++◌, Bytes, if◌then◌else◌, length, arith,
}
use mathlib.Core.List.{append-nil}
use minishell.Environment.Defs.{Env}
use minishell.Expansion.Appends.{IsBuilding}
use minishell.Expansion.Closing.{Closes}
use minishell.Expansion.Fields.{
  FieldArena, FieldRef, at_fields, Expanding, record_reference, delimit_field,
}
use minishell.Expansion.Round.{text_from, scan_round-Round}
use minishell.Expansion.Scan.{scan_round, scan_loop, last_field, scan_word}
use minishell.Expansion.Segment.{plain_values}
use minishell.Expansion.Text.{
  Quote, unquoted, squoted, dquoted, joined, joined-none, joined_assoc, word_text,
}
use minishell.Libft.{Libft}

-- the bytes of the field, and the reference to it
abbrev pub field_bytes : Option Bytes → Bytes
field_bytes none = []
field_bytes (some t) = t ++ (0 ∷ [])

abbrev pub field_refs : ℕ → Option Bytes → List FieldRef
field_refs offset none = []
field_refs offset (some t) = record { arena = at_fields; offset = offset } ∷ []

-- outside fields and quotes
abbrev pub AtRest : Expanding → Type 0
AtRest e =
    (e.exp.flags.has_field ≡ false)
    × (e.exp.flags.in_squote ≡ false)
    × (e.exp.flags.in_dquote ≡ false)

module _ (arena : FieldArena) (lib : Libft) (vals : Env) (return_status : ℕ) where
  module _ (base : Bytes) (refs : List FieldRef) where
    at_end : (q : Quote) → Closes q [] → q ≡ unquoted
    at_end unquoted c = refl
    at_end squoted c = cc
    at_end dquoted c = cc

    -- the field behind the whole text
    record Scanned (text : Option Bytes) (q : Quote) (s : Bytes) (o : Option Expanding)
        : Type 0 where
      pub last : Expanding
      pub is_some : o ≡ some last
      pub building :
          IsBuilding base refs
            (joined text (text_from base refs arena lib vals return_status q s))
            unquoted
            last

    scan_loop-Scanned :
        (fuel : ℕ) (text : Option Bytes) (q : Quote) (e : Expanding) (s : Bytes)
        → plain_values vals ≡ true
        → length s ≤ fuel
        → Closes q s
        → IsBuilding base refs text q e
        → Scanned text q s (scan_loop arena lib vals return_status fuel e s)
    unfolding scan_loop word_text
    scan_loop-Scanned fuel text q e [] plain f c b = record {
      last = e;
      is_some = refl;
      building =
          subst (λ u. IsBuilding base refs u unquoted e) (sym (joined-none text))
            (subst (λ k. IsBuilding base refs text k e) (at_end q c) b);
    }
    scan_loop-Scanned zero text q e (x ∷ s) plain f c b = absurd (omega arith)
    scan_loop-Scanned (suc fuel) text q e (x ∷ s) plain f c b =
        let (e', rest) = scan_round arena lib vals return_status e (x ∷ s) in
        let r = scan_round-Round base refs arena lib vals return_status text q e x s plain b in
        let loop =
          scan_loop-Scanned fuel (joined text r.part) r.next e' rest plain
            (omega (arith, r.shorter)) (r.closes c) r.building in
        record {
          last = loop.last;
          is_some = loop.is_some;
          building =
              subst (λ u. IsBuilding base refs u unquoted loop.last)
                (joined_assoc text r.part
                    (text_from base refs arena lib vals return_status r.next rest)
                  ∙ ap (joined text) (sym r.splits))
                loop.building;
        }

    -- the fields and references of a word
    abbrev Fielded : Option Bytes → Expanding → Type 0
    Fielded text e =
        (e.fields ≡ base ++ field_bytes text)
        × (e.refs ≡ refs ++ field_refs (length base) text)
        × AtRest e

    delimited :
        (text : Option Bytes) (e : Expanding)
        → IsBuilding base refs text unquoted e
        → Fielded text (if e.exp.flags.has_field then delimit_field e else e)
    unfolding delimit_field record_reference
    delimited none e b =
        let (has, same) = b.holding in
        subst (λ (h : Bool). Fielded none (if h then delimit_field e else e)) (sym has)
          (
            same ∙ sym (append-nil base),
            b.same_refs ∙ sym (append-nil refs),
            (has, b.squote, b.dquote),
          )
    delimited (some t) e b =
        let (has, same, at, _) = b.holding in
        subst (λ (h : Bool). Fielded (some t) (if h then delimit_field e else e)) (sym has)
          (
            same,
            ap (λ rs. rs ++ field_refs e.exp.field.pos (some t)) b.same_refs
                ∙ ap (λ n. refs ++ field_refs n (some t)) at,
            (refl, b.squote, b.dquote),
          )

  -- From a state outside quotes and fields, to which it comes back, where no variable's value holds a blank, a tab or a newline,
  -- scan_word ends within as many rounds as the word has bytes, and makes one field of the word's
  -- text, without its quotes and with its variables replaced, behind the fields that are there, and
  -- one reference to it; it makes none of a word that has neither text nor quotes.
  pub scan_word-word_text :
      (fuel : ℕ) (e : Expanding) (word : Bytes)
      → AtRest e
      → plain_values vals ≡ true
      → length word ≤ fuel
      → (let text = word_text arena lib vals return_status unquoted word 0 in
          (e' : Expanding) × (scan_word arena lib vals return_status fuel e word ≡ some e')
          × (e'.fields ≡ e.fields ++ field_bytes text)
          × (e'.refs ≡ e.refs ++ field_refs (length e.fields) text)
          × AtRest e')
  unfolding scan_word
  scan_word-word_text fuel e word (has, single, double) plain f =
      let start : IsBuilding e.fields e.refs none unquoted e = record {
        same_refs = refl;
        squote = single;
        dquote = double;
        holding = (has, refl);
      } in
      let r = scan_loop-Scanned e.fields e.refs fuel none unquoted e word plain f tt start in
      let text = word_text arena lib vals return_status unquoted word 0 in
      let (fields, refs, done) = delimited e.fields e.refs (joined none text) r.last r.building in
      (
        if r.last.exp.flags.has_field then delimit_field r.last else r.last,
        ap (last_field arena lib vals return_status) r.is_some,
        fields,
        refs,
        done,
      )
