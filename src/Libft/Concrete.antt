-- ===== src/Libft/Concrete.antt =====
-- A libft that meets the laws: an arena is a fill level and a function, and so is a string arena.
use minishell.Base.{
  ℕ, suc, ◌+◌, ◌*◌, ◌/◌, ◌%◌, drop, ◌-◌, ◌≤◌, ◌<◌, ◌≡◌, ◌≢◌, ◌↔◌, refl, Bool, true, false, ◌&&◌,
  ◌||◌, [], ◌∷◌, ◌++◌, Bytes, ℤ, pos, negsuc, length, take, get_or, has_byte, zero, leb, ltb, ◌==◌,
  if◌then◌else◌, bytes_eq, eq_of_bytes_eq, bytes_eq_self, subst, arith, Bool-cases, inl, inr,
}
use minishell.Libft.Interface.{Libft}

abbrev letter : ℕ → Bool
letter c = (leb b'a' c && leb c b'z') || (leb b'A' c && leb c b'Z')

abbrev letter_or_digit : ℕ → Bool
letter_or_digit c = letter c || (leb b'0' c && leb c b'9')

pub letter_or_digit_of_letter : (c : ℕ) → letter c ≡ true → letter_or_digit c ≡ true
letter_or_digit_of_letter c h = ground arith

abbrev compare_bytes : Bytes → Bytes → ℤ
compare_bytes a b = if bytes_eq a b then pos 0 else negsuc 0

compare_bytes_iff : (a b : Bytes) → (compare_bytes a b ≡ pos 0) ↔ (a ≡ b)
compare_bytes_iff a b = elim (Bool-cases (bytes_eq a b)) [
  | inl e ↦ (λ _. eq_of_bytes_eq a b e, λ _. rw e)
  | inr e ↦ (λ h. cc (rw e at h), λ h. cc (e, subst (λ x. bytes_eq a x ≡ true) h (bytes_eq_self a)))
]

abbrev compare_prefix : Bytes → Bytes → ℕ → ℤ
compare_prefix a b n =
    if ltb (length b) n then compare_bytes a b else compare_bytes (take n a) (take n b)

pub compare_prefix_whole :
    (a b : Bytes) (n : ℕ) → length b < n → (compare_prefix a b n ≡ pos 0) ↔ (a ≡ b)
compare_prefix_whole a b n h =
    let e : ltb (length b) n ≡ true = ground arith in rw e (compare_bytes_iff a b)

pub compare_prefix_part :
    (a b : Bytes) (n : ℕ) → n ≤ length b → (compare_prefix a b n ≡ pos 0) ↔ (take n a ≡ take n b)
compare_prefix_part a b n h =
    let e : ltb (length b) n ≡ false = ground arith in
    rw e (compare_bytes_iff (take n a) (take n b))

abbrev next_index : ℤ → ℤ
next_index (pos i) = pos (suc i)
next_index (negsuc i) = negsuc i

abbrev index_of : Bytes → ℕ → ℤ
index_of [] x = negsuc 0
index_of (c ∷ cs) x = if c == x then pos 0 else next_index (index_of cs x)

pub index_of-pos :
    (s : Bytes) (x i : ℕ)
    → index_of s x ≡ pos i
    → (i < length s) × (get_or s i 0 ≡ x) × (has_byte (take i s) x ≡ false)
index_of-pos [] x i h = cc
index_of-pos (c ∷ cs) x zero h = ground arith
index_of-pos (c ∷ cs) x (suc i) h = ground (arith, index_of-pos cs x i)

pub index_of-negsuc : (s : Bytes) (x i : ℕ) → index_of s x ≡ negsuc i → has_byte s x ≡ false
index_of-negsuc [] x i h = refl
index_of-negsuc (c ∷ cs) x i h = ground (arith, index_of-negsuc cs x i)

abbrev Slots : Type 0 → Type 0
Slots A = ℕ × (ℕ → A)

module _ {A : Type 0} where
  abbrev write : Slots A → ℕ → A → Slots A
  write s i a = (s.0, λ j. if i == j then a else s.1 j)

  pub write_self : (s : Slots A) (i : ℕ) (a : A) → (write s i a).1 i ≡ a
  write_self s i a = ground arith

  pub write_ne : (s : Slots A) (i j : ℕ) (a : A) → i ≢ j → (write s i a).1 j ≡ s.1 j
  write_ne s i j a h = ground arith

-- a copy goes to the end, and the level grows by the string and its terminator
abbrev copy : Slots Bytes → Bytes → Slots Bytes
copy s b = (s.0 + suc (length b), (write s s.0 b).1)

pub copy_grows : (s : Slots Bytes) (b : Bytes) → s.0 < (copy s b).0
copy_grows s b = omega arith

pub copy_old : (s : Slots Bytes) (b : Bytes) (o : ℕ) → o < s.0 → (copy s b).1 o ≡ s.1 o
copy_old s b o h = write_ne s s.0 o b (omega arith)

-- the decimal number that a string starts with, behind an optional sign
abbrev decimal : Bytes → ℕ → ℕ
decimal [] n = n
decimal (c ∷ s) n = if leb b'0' c && leb c b'9' then decimal s (n * 10 + (c - b'0')) else n

abbrev negate : ℕ → ℤ
negate zero = pos zero
negate (suc n) = negsuc n

abbrev signed : Bytes → ℤ
signed [] = pos 0
signed (c ∷ s) =
    if c == b'-'
    then negate (decimal s 0)
    else if c == b'+'
    then pos (decimal s 0)
    else pos (decimal (c ∷ s) 0)

abbrev digits : ℕ → ℕ → Bytes
digits zero n = []
digits (suc fuel) n =
    let front = digits fuel (n / 10) in
    (if n / 10 == 0 then [] else front) ++ ((b'0' + n % 10) ∷ [])

abbrev printed : ℤ → Bytes
printed (pos n) = digits (n + 1) n
printed (negsuc n) = b'-' ∷ digits (n + 2) (suc n)

abbrev decimal_digit : ℕ → Bool
decimal_digit c = leb b'0' c && leb c b'9'

abbrev white_space : ℕ → Bool
white_space c = (c == b' ') || (leb b'\t' c && leb c 13)

pub white_space_digit : (c : ℕ) → decimal_digit c ≡ true → white_space c ≡ false
white_space_digit c h = ground arith

abbrev pub concrete : Libft
concrete = record {
  isalpha = letter;
  isalnum = letter_or_digit;
  isalpha-nul = refl;
  isalnum_of_isalpha = letter_or_digit_of_letter;
  isalnum-newline = refl;
  isalnum-dquote = refl;
  isdigit = decimal_digit;
  isspace = white_space;
  isspace_digit = white_space_digit;
  isspace_minus = refl;
  isspace_plus = refl;
  isdigit_minus = refl;
  isdigit_plus = refl;
  atol = λ s. (signed s, false);
  strncmp = compare_prefix;
  strncmp_whole = compare_prefix_whole;
  strncmp_prefix = compare_prefix_part;
  indchr = index_of;
  indchr-pos = index_of-pos;
  indchr-negsuc = index_of-negsuc;
  strchr = has_byte;
  strchr_lem = λ s x. refl;
  substr = λ s start len. take len (drop start s);
  substr_lem = λ s start len. refl;
  strjoin = λ a b. a ++ b;
  strjoin_lem = λ a b. refl;
  atoi = signed;
  itoa = printed;
  lstadd_back = λ A l a. l ++ (a ∷ []);
  lstadd_back_lem = λ A l a. refl;
  Arena = Slots;
  clear = λ A z. (1, λ _. z);
  count = λ A s. s.0;
  alloc = λ A s. (suc s.0, s.1);
  set_count = λ A s n. (n, s.1);
  get = λ A s. s.1;
  set = λ A. write {A = A};
  count-clear = λ A z. refl;
  get-clear = λ A z. refl;
  count-alloc = λ A s. refl;
  get-alloc = λ A s i h. refl;
  count-set_count = λ A s n. refl;
  get-set_count = λ A s n i h. refl;
  count-set = λ A s i a. refl;
  get-set_self = λ A s i a h. write_self s i a;
  get-set_ne = λ A s i j a h. write_ne s i j a h;
  Strings = Slots Bytes;
  clear_strings = (1, λ _. []);
  offset = λ s. s.0;
  strlcpy = copy;
  get_str = λ s. s.1;
  put_str = write;
  offset-strlcpy = copy_grows;
  get_str-strlcpy_self = λ s b. write_self s s.0 b;
  get_str-strlcpy_old = copy_old;
  get_str-put_str_self = λ s o b h. write_self s o b;
}
