-- ===== src/Libft/Interface.antt =====
-- What the shell takes from libft, a library of its own (libs/libft, not in this repository): a
-- parameter of every definition that calls it. The laws state what its callers rely on.
-- A C string is the list of its bytes before the first NUL. An arena holds entries of one type at
-- indices; index 0 is a zeroed entry that is never handed out (notes/journal.md), so that 0 says
-- "no entry". A string arena holds C strings at offsets.
use minishell.Base.{
  ℕ, suc, ◌≤◌, ◌<◌, ◌≡◌, ◌≢◌, ◌↔◌, Bool, true, false, List, [], ◌∷◌, ◌++◌, Bytes, ℤ, pos, negsuc,
  length, take, drop, get_or, has_byte,
}

pub record Libft : Type 1 where
  -- ft_isalpha, ft_isalnum, as truth values; a NUL is no letter, and
  -- a newline and a double quote are neither letters nor digits
  pub isalpha : ℕ → Bool
  pub isalnum : ℕ → Bool
  pub isalpha-nul : isalpha 0 ≡ false
  pub isalnum_of_isalpha : (c : ℕ) → isalpha c ≡ true → isalnum c ≡ true
  pub isalnum-newline : isalnum b'\n' ≡ false
  pub isalnum-dquote : isalnum b'"' ≡ false
  -- ft_isdigit and ft_isspace, as truth values; a sign is neither, and no digit is a space
  pub isdigit : ℕ → Bool
  pub isspace : ℕ → Bool
  pub isspace_digit : (c : ℕ) → isdigit c ≡ true → isspace c ≡ false
  pub isspace_minus : isspace b'-' ≡ false
  pub isspace_plus : isspace b'+' ≡ false
  pub isdigit_minus : isdigit b'-' ≡ false
  pub isdigit_plus : isdigit b'+' ≡ false
  -- ft_atol: the value, and whether errno is EINVAL
  pub atol : Bytes → ℤ × Bool
  -- ft_strncmp: 0 means that the first `n` bytes agree, or the whole strings if they are shorter
  pub strncmp : Bytes → Bytes → ℕ → ℤ
  pub strncmp_whole : (a b : Bytes) (n : ℕ) → length b < n → (strncmp a b n ≡ pos 0) ↔ (a ≡ b)
  pub strncmp_prefix :
      (a b : Bytes) (n : ℕ) → n ≤ length b → (strncmp a b n ≡ pos 0) ↔ (take n a ≡ take n b)
  -- ft_indchr: the index of the first such byte, negative if there is none
  pub indchr : Bytes → ℕ → ℤ
  pub indchr-pos :
      (s : Bytes) (x i : ℕ)
      → indchr s x ≡ pos i
      → (i < length s) × (get_or s i 0 ≡ x) × (has_byte (take i s) x ≡ false)
  pub indchr-negsuc : (s : Bytes) (x i : ℕ) → indchr s x ≡ negsuc i → has_byte s x ≡ false
  -- ft_strchr, as a truth value: whether there is such a byte
  pub strchr : Bytes → ℕ → Bool
  pub strchr_lem : (s : Bytes) (x : ℕ) → strchr s x ≡ has_byte s x
  -- ft_substr: a new string of at most `len` bytes from `start` on
  pub substr : Bytes → ℕ → ℕ → Bytes
  pub substr_lem : (s : Bytes) (start len : ℕ) → substr s start len ≡ take len (drop start s)
  -- ft_strjoin
  pub strjoin : Bytes → Bytes → Bytes
  pub strjoin_lem : (a b : Bytes) → strjoin a b ≡ a ++ b
  -- ft_atoi and ft_itoa
  pub atoi : Bytes → ℤ
  pub itoa : ℤ → Bytes
  -- ft_lstadd_back
  pub lstadd_back : (A : Type 0) → List A → A → List A
  pub lstadd_back_lem : (A : Type 0) (l : List A) (a : A) → lstadd_back A l a ≡ l ++ (a ∷ [])
  -- arenas of entries: arena_clear, arena_alloc, arena->offset / arena->stride, and the reads and
  -- writes through get_ptr_from_idx
  pub Arena : Type 0 → Type 0
  pub clear : (A : Type 0) → A → Arena A
  pub count : (A : Type 0) → Arena A → ℕ
  pub alloc : (A : Type 0) → Arena A → Arena A
  pub set_count : (A : Type 0) → Arena A → ℕ → Arena A
  pub get : (A : Type 0) → Arena A → ℕ → A
  pub set : (A : Type 0) → Arena A → ℕ → A → Arena A
  pub count-clear : (A : Type 0) (z : A) → count A (clear A z) ≡ 1
  pub get-clear : (A : Type 0) (z : A) → get A (clear A z) 0 ≡ z
  pub count-alloc : (A : Type 0) (s : Arena A) → count A (alloc A s) ≡ suc (count A s)
  pub get-alloc :
      (A : Type 0) (s : Arena A) (i : ℕ) → i < count A s → get A (alloc A s) i ≡ get A s i
  pub count-set_count : (A : Type 0) (s : Arena A) (n : ℕ) → count A (set_count A s n) ≡ n
  pub get-set_count :
      (A : Type 0) (s : Arena A) (n i : ℕ) → i < n → get A (set_count A s n) i ≡ get A s i
  pub count-set : (A : Type 0) (s : Arena A) (i : ℕ) (a : A) → count A (set A s i a) ≡ count A s
  pub get-set_self :
      (A : Type 0) (s : Arena A) (i : ℕ) (a : A) → i < count A s → get A (set A s i a) i ≡ a
  pub get-set_ne :
      (A : Type 0) (s : Arena A) (i j : ℕ) (a : A) → i ≢ j → get A (set A s i a) j ≡ get A s j
  -- a string arena: arena_clear, arena->offset, arena_strlcpy of a whole string, and the reads and
  -- writes of a string through get_ptr_from_offset
  pub Strings : Type 0
  pub clear_strings : Strings
  pub offset : Strings → ℕ
  pub strlcpy : Strings → Bytes → Strings
  pub get_str : Strings → ℕ → Bytes
  pub put_str : Strings → ℕ → Bytes → Strings
  pub offset-strlcpy : (s : Strings) (b : Bytes) → offset s < offset (strlcpy s b)
  pub get_str-strlcpy_self : (s : Strings) (b : Bytes) → get_str (strlcpy s b) (offset s) ≡ b
  pub get_str-strlcpy_old :
      (s : Strings) (b : Bytes) (o : ℕ) → o < offset s → get_str (strlcpy s b) o ≡ get_str s o
  pub get_str-put_str_self :
      (s : Strings) (o : ℕ) (b : Bytes)
      → length b ≤ length (get_str s o)
      → get_str (put_str s o b) o ≡ b
