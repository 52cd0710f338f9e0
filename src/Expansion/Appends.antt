-- ===== src/Expansion/Appends.antt =====
-- A field under construction, and how append_field and arena_itoa_cat make it longer.
use minishell.Base.{
  ℕ, zero, suc, ◌+◌, ◌-◌, ◌≤◌, ◌≡◌, refl, sym, ap, ◌∙◌, subst, Bool, true, false, Option, none,
  some, List, [], ◌∷◌, ◌++◌, Bytes, ltb, if◌then◌else◌, length, length-append, length-take, take,
  take-append, take_all, arith, pos, if_rule,
}
use mathlib.Core.List.{append-nil, append_assoc}
use minishell.Expansion.Fields.{FieldArena, FieldRef, Expanding, append_field}
use minishell.Expansion.Scan.{arena_itoa_cat}
use minishell.Expansion.Text.{Quote, squoted, dquoted, joined}

abbrev pub single : Quote → Bool
single squoted = true
single _ = false

abbrev pub double : Quote → Bool
double dquoted = true
double _ = false

-- the field that is there, or an empty one
abbrev pub or_empty : Option Bytes → Bytes
or_empty none = []
or_empty (some t) = t

module _ (base : Bytes) (refs : List FieldRef) where
  -- the field in the arena
  abbrev pub Holding : Option Bytes → Expanding → Type 0
  Holding none e = (e.exp.flags.has_field ≡ false) × (e.fields ≡ base)
  Holding (some t) e =
      (e.exp.flags.has_field ≡ true)
      × (e.fields ≡ base ++ (t ++ (0 ∷ [])))
      × (e.exp.field.pos ≡ length base)
      × (e.exp.field.len ≡ length t)

  -- Behind `base` stands the field `text`, and the scan is in this kind of quotes.
  pub record IsBuilding (text : Option Bytes) (q : Quote) (e : Expanding) : Type 0 where
    pub same_refs : e.refs ≡ refs
    pub squote : e.exp.flags.in_squote ≡ single q
    pub dquote : e.exp.flags.in_dquote ≡ double q
    pub holding : Holding text e

  module _ (arena : FieldArena) where
    pub joined-or_empty :
        (text : Option Bytes) (u : Bytes) → some (or_empty text ++ u) ≡ joined text (some u)
    joined-or_empty none u = refl
    joined-or_empty (some t) u = refl

    longer :
        (t src : Bytes) (size : ℕ)
        → arena.strlcat (base ++ (t ++ (0 ∷ []))) src (size + 1)
          ≡ base ++ ((t ++ take size src) ++ (0 ∷ []))
    longer t src size =
        ap (λ f. arena.strlcat f src (size + 1)) (sym (append_assoc base t (0 ∷ [])))
        ∙ arena.strlcat_lem (base ++ t) src size
        ∙ append_assoc base t (take size src ++ (0 ∷ []))
        ∙ ap (λ r. base ++ r) (sym (append_assoc t (take size src) (0 ∷ [])))

    append_field-Holding :
        (text : Option Bytes) (e : Expanding) (src : Bytes) (len : ℕ)
        → len ≤ length src
        → Holding text e
        → Holding (joined text (some (take len src))) (append_field arena e src len)
    unfolding append_field
    append_field-Holding none e src len h (has, same) = rw has (
      refl,
      arena.strlcpy_lem e.fields src len ∙ ap (λ f. f ++ (take len src ++ (0 ∷ []))) same,
      ap length same,
      omega (arith, length-take len src),
    )
    append_field-Holding (some t) e src zero h (has, same, at, size) = rw has (
      refl,
      same ∙ ap (λ u. base ++ (u ++ (0 ∷ []))) (sym (append-nil t)),
      at,
      size ∙ ap length (sym (append-nil t)),
    )
    append_field-Holding (some t) e src (suc len) h (has, same, at, size) =
        let more : ltb 0 (suc len) ≡ true = ground arith in
        rw (has, more)
          (
            refl,
            ap (λ f. arena.strlcat f src (suc len + 1)) same ∙ longer t src (suc len),
            at,
            omega (arith, size, length-append t (take (suc len) src), length-take (suc len) src),
          )

    abbrev Kept : Expanding → Expanding → Type 0
    Kept e e' =
        (e'.refs ≡ e.refs)
        × (e'.exp.flags.in_squote ≡ e.exp.flags.in_squote)
        × (e'.exp.flags.in_dquote ≡ e.exp.flags.in_dquote)

    append_field-Kept :
        (e : Expanding) (src : Bytes) (len : ℕ) → Kept e (append_field arena e src len)
    unfolding append_field
    append_field-Kept e src len =
        if_rule (Kept e) e.exp.flags.has_field _ _
          (λ _.
            if_rule (Kept e) (ltb 0 len) _ _ (λ _. (refl, refl, refl)) (λ _. (refl, refl, refl)))
          (λ _. (refl, refl, refl))

    pub append_field-IsBuilding :
        (text : Option Bytes) (q : Quote) (e : Expanding) (src : Bytes) (len : ℕ)
        → len ≤ length src
        → IsBuilding text q e
        → IsBuilding (joined text (some (take len src))) q (append_field arena e src len)
    append_field-IsBuilding text q e src len h b =
        let (r, s, d) = append_field-Kept e src len in
        record {
          same_refs = r ∙ b.same_refs;
          squote = s ∙ b.squote;
          dquote = d ∙ b.dquote;
          holding = append_field-Holding text e src len h b.holding;
        }

    pub started-IsBuilding :
        (text : Option Bytes) (q : Quote) (e : Expanding)
        → IsBuilding text q e
        → IsBuilding
            (some (or_empty text))
            q
            (if e.exp.flags.has_field then e else append_field arena e [] 0)
    started-IsBuilding none q e b =
        let (has, _) = b.holding in
        subst (λ (h : Bool). IsBuilding (some []) q (if h then e else append_field arena e [] 0))
          (sym has) (append_field-IsBuilding none q e [] 0 (omega arith) b)
    started-IsBuilding (some t) q e b =
        let (has, _, _, _) = b.holding in
        subst (λ (h : Bool). IsBuilding (some t) q (if h then e else append_field arena e [] 0))
          (sym has) b

    pub arena_itoa_cat-IsBuilding :
        (text : Option Bytes) (q : Quote) (e : Expanding) (status : ℕ)
        → IsBuilding text q e
        → IsBuilding
            (joined text (some (arena.printed (pos status))))
            q
            (arena_itoa_cat arena e status)
    unfolding arena_itoa_cat
    arena_itoa_cat-IsBuilding text q e status b =
        let started = if e.exp.flags.has_field then e else append_field arena e [] 0 in
        let s = started-IsBuilding text q e b in
        let t = or_empty text in
        let digits = arena.printed (pos status) in
        let (has, same, at, size) = s.holding in
        let fields = same ∙ sym (append_assoc base t (0 ∷ [])) in
        let offset : length started.fields - 1 ≡ length (base ++ t) =
          omega (arith, ap length fields, length-append (base ++ t) (0 ∷ [])) in
        let front : take (length started.fields - 1) started.fields ≡ base ++ t =
          ap (λ n. take n started.fields) offset
          ∙ ap (take (length (base ++ t))) fields
          ∙ take-append (base ++ t) (0 ∷ []) (length (base ++ t)) (omega arith)
          ∙ take_all (base ++ t) (length (base ++ t)) (omega arith) in
        let printed : arena.itoa (take (length started.fields - 1) started.fields) (pos status)
            ≡ base ++ ((t ++ digits) ++ (0 ∷ [])) =
          ap (λ f. arena.itoa f (pos status)) front
          ∙ arena.itoa_lem (base ++ t) (pos status)
          ∙ append_assoc base t (digits ++ (0 ∷ []))
          ∙ ap (λ r. base ++ r) (sym (append_assoc t digits (0 ∷ []))) in
        let held : IsBuilding (some (t ++ digits)) q (arena_itoa_cat arena e status) = record {
          same_refs = s.same_refs;
          squote = s.squote;
          dquote = s.dquote;
          holding = (
            refl,
            printed,
            at,
            omega (
              arith,
              size,
              ap length printed,
              offset,
              length-append base t,
              length-append base ((t ++ digits) ++ (0 ∷ [])),
              length-append t digits,
              length-append (t ++ digits) (0 ∷ []),
            ),
          );
        } in
        subst (λ u. IsBuilding u q (arena_itoa_cat arena e status)) (joined-or_empty text digits)
          held
