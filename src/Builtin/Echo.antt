-- ===== src/Builtin/Echo.antt =====
-- echo: srcs/builtin/echo.c. The result is what it writes to the standard output.
use minishell.Base.{
  ℕ, suc, ◌+◌, ◌≡◌, refl, ap, ◌∙◌, Bool, true, false, not, ◌&&◌, List, [], ◌∷◌, ◌++◌, Bytes, ◌==◌,
  ltb, if◌then◌else◌, length, length-append, drop, ℤ, pos, negsuc, arith,
}
use mathlib.Core.List.{append-nil}
use minishell.Execute.Split.{join}
use minishell.Utils.{char_at}

-- the bytes behind the n's
skip_n : Bytes → Bytes
skip_n [] = []
skip_n (c ∷ s) = if c == b'n' then skip_n s else c ∷ s

-- from argument `i` on
find_n_loop : List Bytes → ℕ → ℤ → ℤ
unfolding skip_n
find_n_loop [] i found_at = found_at
find_n_loop (arg ∷ args) i found_at =
    let found = if char_at (skip_n (drop 1 arg)) 0 == 0 then pos i else found_at in
    let rest = find_n_loop args (i + 1) found in
    if char_at arg 0 == b'-' then (if char_at arg 1 == b'n' then rest else found_at) else found_at

unfoldable pub find_n_flag : List Bytes → ℤ
unfolding find_n_loop
find_n_flag argv = find_n_loop (drop 1 argv) 1 (negsuc 0)

print_loop : List Bytes → ℕ → ℕ → Bytes
print_loop [] i argc = []
print_loop (arg ∷ args) i argc =
    arg ++ ((if ltb (i + 1) argc then b' ' ∷ [] else []) ++ print_loop args (i + 1) argc)

-- the index of the first argument to print
abbrev first_arg : ℤ → ℕ
first_arg (pos n) = n + 1
first_arg (negsuc n) = 1

abbrev line_end : ℤ → Bytes
line_end (pos n) = []
line_end (negsuc n) = b'\n' ∷ []

unfoldable pub echo : List Bytes → Bytes
unfolding find_n_flag print_loop
echo argv =
    let argc = length argv in
    let n_flag_found_at = find_n_flag argv in
    let i = first_arg n_flag_found_at in
    if argc == 1 then b'\n' ∷ [] else print_loop (drop i argv) i argc ++ line_end n_flag_found_at

abbrev all_n : Bytes → Bool
all_n [] = true
all_n (c ∷ s) = c == b'n' && all_n s

-- a dash and n's, at least one
abbrev pub is_n_flag : Bytes → Bool
is_n_flag [] = false
is_n_flag (c ∷ s) = c == b'-' && (char_at s 0 == b'n' && all_n s)

abbrev pub AreFlags : List Bytes → Type 0
AreFlags [] = Unit
AreFlags (f ∷ fs) = (is_n_flag f ≡ true) × AreFlags fs

-- no word, or a first word that does not start with -n
abbrev pub starts_plain : List Bytes → Bool
starts_plain [] = true
starts_plain (w ∷ ws) = not (char_at w 0 == b'-' && char_at w 1 == b'n')

skip_n-all_n : (s : Bytes) → all_n s ≡ true → skip_n s ≡ []
unfolding skip_n
skip_n-all_n [] h = refl
skip_n-all_n (c ∷ s) h = ground (arith, skip_n-all_n s)

-- the index of the last flag
abbrev last_index : List Bytes → ℕ → ℤ → ℤ
last_index [] i found_at = found_at
last_index (f ∷ fs) i found_at = last_index fs (i + 1) (pos i)

find_n_loop-plain :
    (words : List Bytes) (i : ℕ) (found_at : ℤ)
    → starts_plain words ≡ true
    → find_n_loop words i found_at ≡ found_at
unfolding find_n_loop
find_n_loop-plain [] i found_at h = refl
find_n_loop-plain (w ∷ ws) i found_at h = ground arith

find_n_loop-flags :
    (flags words : List Bytes) (i : ℕ) (found_at : ℤ)
    → AreFlags flags
    → starts_plain words ≡ true
    → find_n_loop (flags ++ words) i found_at ≡ last_index flags i found_at
unfolding find_n_loop
find_n_loop-flags [] words i found_at a h = find_n_loop-plain words i found_at h
find_n_loop-flags ([] ∷ fs) words i found_at a h = cc
find_n_loop-flags ((c ∷ s) ∷ fs) words i found_at a h =
    ground (arith, find_n_loop-flags fs words (i + 1) (pos i) a.1 h, skip_n-all_n s)

print_loop-join :
    (args : List Bytes) (i argc : ℕ)
    → i + length args ≡ argc
    → print_loop args i argc ≡ join b' ' args
unfolding print_loop
print_loop-join [] i argc h = refl
print_loop-join (a ∷ []) i argc h =
    let last : ltb (i + 1) argc ≡ false = ground arith in rw last (append-nil a)
print_loop-join (a ∷ b ∷ args) i argc h =
    let more : ltb (i + 1) argc ≡ true = ground arith in
    rw more (ap (λ r. a ++ (b' ' ∷ r)) (print_loop-join (b ∷ args) (i + 1) argc (omega arith)))

last_index_lem :
    (f : Bytes) (fs : List Bytes) (i : ℕ) (found_at : ℤ)
    → last_index (f ∷ fs) i found_at ≡ pos (i + length fs)
last_index_lem f [] i found_at = ap pos (omega arith)
last_index_lem f (g ∷ fs) i found_at = last_index_lem g fs (i + 1) (pos i) ∙ ap pos (omega arith)

drop_front : (xs ys : List Bytes) → drop (length xs) (xs ++ ys) ≡ ys
drop_front [] ys = refl
drop_front (x ∷ xs) ys = drop_front xs ys

abbrev pub newline_unless : List Bytes → Bytes
newline_unless [] = b'\n' ∷ []
newline_unless (f ∷ fs) = []

-- Behind flags of a dash and n's, up to a first word that does not start with -n, echo writes the
-- words with one space between two, and a newline where there was no flag.
pub echo_lem :
    (name : Bytes) (flags words : List Bytes)
    → AreFlags flags
    → starts_plain words ≡ true
    → echo (name ∷ flags ++ words) ≡ join b' ' words ++ newline_unless flags
unfolding echo find_n_flag
echo_lem name [] [] a h = refl
echo_lem name [] (w ∷ ws) a h =
    let none_found = find_n_loop-plain (w ∷ ws) 1 (negsuc 0) h in
    let many : (length (name ∷ w ∷ ws) == 1) ≡ false = ground arith in
    rw (none_found, many)
      (ap (λ r. r ++ (b'\n' ∷ []))
        (print_loop-join (w ∷ ws) 1 (length (name ∷ w ∷ ws)) (omega arith)))
echo_lem name (f ∷ fs) words a h =
    let argv = name ∷ (f ∷ fs) ++ words in
    let found =
      find_n_loop-flags (f ∷ fs) words 1 (negsuc 0) a h ∙ last_index_lem f fs 1 (negsuc 0) in
    let many : (length argv == 1) ≡ false = ground arith in
    let behind : drop (1 + length fs + 1) argv ≡ words =
      let e : 1 + length fs + 1 ≡ suc (suc (length fs)) = omega arith in
      rw e (drop_front fs words) in
    let size : 1 + length fs + 1 + length words ≡ length argv =
      omega (arith, length-append fs words) in
    rw (found, many, behind)
      (ap (λ r. r ++ []) (print_loop-join words (1 + length fs + 1) (length argv) size))
