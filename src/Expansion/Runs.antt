-- ===== src/Expansion/Runs.antt =====
-- Runs of a word's bytes, and a field in other quotes.
use minishell.Base.{
  ℕ, ◌≤◌, ◌≡◌, refl, sym, ap, ◌∙◌, Bool, true, false, ◌||◌, Option, none, some, List, [], ◌∷◌, ◌++◌,
  Bytes, if◌then◌else◌, if_rule, length, take, drop, arith, Bool-cases, inl, inr,
}
use mathlib.Core.List.{append-nil, append_assoc}
use minishell.Expansion.Appends.{IsBuilding, Holding, single, double}
use minishell.Expansion.Fields.{FieldArena, FieldRef, Expanding}
use minishell.Expansion.Scan.{run}
use minishell.Expansion.Text.{Quote, joined, joined_assoc}

pub or-eq-false : (a b : Bool) → (a || b) ≡ false → (a ≡ false) × (b ≡ false)
or-eq-false true b h = cc
or-eq-false false b h = (refl, h)

pub run_le : (stop : Bytes → Bool) (s : Bytes) → run stop s ≤ length s
run_le stop [] = omega arith
run_le stop (x ∷ s) =
    if_rule (λ n. n ≤ length (x ∷ s)) (stop (x ∷ s)) _ _ (λ _. omega arith)
      (λ _. omega (arith, run_le stop s))

-- a text that goes on byte by byte goes on by whole runs
pub joined-run :
    (stop : Bytes → Bool) (f : Bytes → Option Bytes)
    → ((y : ℕ) (r : Bytes) → stop (y ∷ r) ≡ false → f (y ∷ r) ≡ joined (some (y ∷ [])) (f r))
    → (t s : Bytes)
    → joined (some t) (f s) ≡ joined (some (t ++ take (run stop s) s)) (f (drop (run stop s) s))
joined-run stop f step t [] = ap (λ u. joined (some u) (f [])) (sym (append-nil t))
joined-run stop f step t (y ∷ r) = elim (Bool-cases (stop (y ∷ r))) [
  | inl e ↦ rw e (ap (λ u. joined (some u) (f (y ∷ r))) (sym (append-nil t)))
  | inr e ↦ rw e (
      ap (joined (some t)) (step y r e)
      ∙ sym (joined_assoc (some t) (some (y ∷ [])) (f r))
      ∙ joined-run stop f step (t ++ (y ∷ [])) r
      ∙ ap (λ u. joined (some u) (f (drop (run stop r) r)))
          (append_assoc t (y ∷ []) (take (run stop r) r)))
]

module _ (base : Bytes) (refs : List FieldRef) (arena : FieldArena) where
  abbrev pub with_flags : Expanding → Bool → Bool → Expanding
  with_flags e in_squote in_dquote = record e {
    exp = record (e.exp) {
      flags = record (e.exp.flags) { in_squote = in_squote; in_dquote = in_dquote };
    };
  }

  -- behind a single quote, or a double one
  abbrev pub quoted : Expanding → Bool → Expanding
  quoted e is_single = record e {
    exp = record (e.exp) {
      flags =
          if is_single
          then record (e.exp.flags) { in_squote = true }
          else record (e.exp.flags) { in_dquote = true };
    };
  }

  requoted :
      (text : Option Bytes) (e : Expanding) (a b : Bool)
      → Holding base refs text e
      → Holding base refs text (with_flags e a b)
  requoted none e a b h = h
  requoted (some t) e a b h = h

  -- the same field in other quotes
  pub requoted-IsBuilding :
      (text : Option Bytes) (q q' : Quote) (e : Expanding) (a b : Bool)
      → a ≡ single q'
      → b ≡ double q'
      → IsBuilding base refs text q e
      → IsBuilding base refs text q' (with_flags e a b)
  requoted-IsBuilding text q q' e a b s d building = record {
    same_refs = building.same_refs;
    squote = s;
    dquote = d;
    holding = requoted text e a b building.holding;
  }
