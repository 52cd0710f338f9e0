-- ===== src/Execute/Returns.antt =====
-- A property of what a call returns; the process may end instead, but the fuel does not run out.
use minishell.Base.{◌≡◌, sym, subst, Option, some}
use minishell.Execute.Process.{Run, returned, ended, unfinished, or_unfinished, ◌>>=ᵣ◌}

abbrev pub Returns : {A : Type 0} → (A → Type 0) → Run A → Type 0
Returns P (returned a) = P a
Returns P (ended status) = Unit
Returns P unfinished = ⊥

pub Returns-bind :
    {A B : Type 0} (P : A → Type 0) (Q : B → Type 0) (r : Run A) (f : A → Run B)
    → Returns P r
    → ((a : A) → P a → Returns Q (f a))
    → Returns Q (r >>=ᵣ f)
Returns-bind P Q (returned a) f h k = k a h
Returns-bind P Q (ended status) f h k = tt
Returns-bind P Q unfinished f h k = h

pub Returns-weaken :
    {A : Type 0} (P Q : A → Type 0) (r : Run A) → ((a : A) → P a → Q a) → Returns P r → Returns Q r
Returns-weaken P Q (returned a) k h = k a h
Returns-weaken P Q (ended status) k h = tt
Returns-weaken P Q unfinished k h = h

pub Returns-or_unfinished :
    {A : Type 0} (P : A → Type 0) (o : Option A) (a : A)
    → o ≡ some a
    → P a
    → Returns P (or_unfinished o)
Returns-or_unfinished P o a e h = subst (λ x. Returns P (or_unfinished x)) (sym e) h
