-- ===== src/Builtin/Exit.antt =====
-- The exit builtin: srcs/builtin/builtin_exit.c. Messages and the clean-up before the exit are left
-- out.
use minishell.Base.{
  ℕ, ◌-◌, ◌%◌, Bool, true, false, not, ◌&&◌, ◌||◌, List, [], ◌∷◌, Bytes, ◌==◌, if◌then◌else◌, ℤ,
  pos, negsuc, eq_ℕ,
}
use minishell.Ctx.{Ctx}
use minishell.Libft.{Libft}
use minishell.Utils.{char_at}

-- the bytes behind those that are so
unfoldable pub skip_while : (ℕ → Bool) → Bytes → Bytes
skip_while p [] = []
skip_while p (x ∷ s) = if p x then skip_while p s else x ∷ s

abbrev pub is_end : Bytes → Bool
is_end [] = true
is_end (x ∷ s) = false

abbrev pub is_sign : ℕ → Bool
is_sign x = x == b'-' || x == b'+'

unfoldable pub skip_sign : Bytes → Bytes
skip_sign [] = []
skip_sign (x ∷ s) = if is_sign x then s else x ∷ s

-- the low byte of what exit is given
abbrev pub low_byte : ℤ → ℕ
low_byte (pos n) = n % 256
low_byte (negsuc n) = 255 - n % 256

-- return, or exit with a status
pub data Exiting (lib : Libft) : Type 0 where
  goes_on : Ctx lib → ℕ → Exiting lib
  exits : ℕ → Exiting lib

module _ (lib : Libft) where
  unfoldable pub ft_isnumber : Bytes → Bool
  unfolding skip_while skip_sign
  ft_isnumber str =
      let body = skip_while lib.isspace str in
      let signed = skip_sign body in
      let rest = skip_while lib.isdigit signed in
      if is_end body
      then false
      else if is_end signed || lib.isspace (char_at signed 0)
      then false
      else if is_end rest
      then true
      else is_end (skip_while lib.isspace rest)

  -- on the arguments behind the name
  unfoldable pub builtin_exit : Ctx lib → List Bytes → Exiting lib
  unfolding ft_isnumber
  builtin_exit c [] = exits (c.return_status % 256)
  builtin_exit c (number ∷ more) =
      let (value, invalid) = lib.atol number in
      if not (ft_isnumber number) || (eq_ℕ value 0 && invalid)
      then goes_on (record c { should_exit = true }) 2
      else elim more [ [] ↦ exits (low_byte value) | other ∷ others ↦ goes_on c 1 ]
