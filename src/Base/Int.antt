-- ===== src/Base/Int.antt =====
-- The integers: values of C `int` in the parser's tables. `negsuc n` is -(n + 1).
use Prim.Native.Nat.{ℕ, suc, ◌+◌, ◌-◌}
use mathlib.Core.Bool.{Bool, true, false}
use mathlib.Core.Path.{◌≡◌}
use mathlib.Core.Logic.{◌↔◌}
use native.Mathlib.Omega.{arith}
use minishell.Base.Tests.{leb, ◌==◌, if◌then◌else◌}

pub data ℤ : Type 0 where
  pos : ℕ → ℤ
  negsuc : ℕ → ℤ

-- a - b, as an integer.
abbrev pub sub_ℕ : ℕ → ℕ → ℤ
sub_ℕ a b = if leb b a then pos (a - b) else negsuc (b - a - 1)

-- Plus a number that is not negative.
infixl 65 ◌+ℕ◌
abbrev pub ◌+ℕ◌ : ℤ → ℕ → ℤ
pos a +ℕ n = pos (a + n)
negsuc a +ℕ n = sub_ℕ n (suc a)

abbrev pub eq_ℕ : ℤ → ℕ → Bool
eq_ℕ (pos a) n = a == n
eq_ℕ (negsuc a) n = false

pub eq_ℕ_zero : (z : ℤ) → (eq_ℕ z 0 ≡ true) ↔ (z ≡ pos 0)
eq_ℕ_zero (pos n) = (λ h. ground arith, λ h. ground arith)
eq_ℕ_zero (negsuc n) = (λ h. cc, λ h. cc)
