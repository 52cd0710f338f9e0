-- ===== src/Utils.antt =====
-- srcs/utils: character sets (str_utils.c) and variable names (var_utils.c); the macros of
-- inc/minishell.h for these sets.
use minishell.Base.{ℕ, Bool, true, false, ◌&&◌, ◌||◌, List, [], ◌∷◌, ◌==◌, Bytes, eq_ℕ, get_or}
use minishell.Libft.{Libft}

-- s[i], where the terminator is the 0 behind the last byte
abbrev pub char_at : Bytes → ℕ → ℕ
char_at s i = get_or s i 0

unfoldable pub is_char_in_set : ℕ → Bytes → Bool
is_char_in_set c [] = false
is_char_in_set c (x ∷ set) = (c == x) || is_char_in_set c set

-- OPERATOR_SET "<>&|()\n", BLANK_SET " \t", QUOTE_SET "\"'", SPECIAL_PARAM_SET "?", IFS " \t\n"
abbrev pub operator_set : Bytes
operator_set = b'<' ∷ b'>' ∷ b'&' ∷ b'|' ∷ b'(' ∷ b')' ∷ b'\n' ∷ []

abbrev pub blank_set : Bytes
blank_set = b' ' ∷ b'\t' ∷ []

abbrev pub quote_set : Bytes
quote_set = b'"' ∷ b'\'' ∷ []

abbrev pub special_param_set : Bytes
special_param_set = b'?' ∷ []

abbrev pub ifs : Bytes
ifs = b' ' ∷ b'\t' ∷ b'\n' ∷ []

-- a NULL string is `none`
unfoldable pub is_empty_str : Bytes → Bool
is_empty_str s = char_at s 0 == 0

module _ (lib : Libft) where
  -- `!ft_strncmp(a, b, n)`
  abbrev pub strn_eq : Bytes → Bytes → ℕ → Bool
  strn_eq a b n = eq_ℕ (lib.strncmp a b n) 0

  unfoldable pub is_str_in_set : Bytes → List Bytes → Bool
  is_str_in_set c [] = false
  is_str_in_set c (x ∷ set) = strn_eq c x 2 || is_str_in_set c set

  unfoldable pub is_name_start : ℕ → Bool
  is_name_start c = lib.isalpha c || c == b'_'

  unfoldable pub is_name_body : ℕ → Bool
  is_name_body c = lib.isalnum c || c == b'_'

  all_name_body : Bytes → Bool
  all_name_body [] = true
  all_name_body (c ∷ name) = is_name_body c && all_name_body name

  unfoldable pub is_valid_var_name : Bytes → Bool
  unfolding all_name_body
  is_valid_var_name [] = is_name_start 0
  is_valid_var_name (c ∷ name) = is_name_start c && all_name_body name
