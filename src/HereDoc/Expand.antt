-- ===== src/HereDoc/Expand.antt =====
-- expand_here_line (srcs/lexer/here_write_line.c) against a replacement of variables by recursion on
-- the text.
use minishell.Base.{
  ℕ, zero, suc, ◌+◌, ◌-◌, ◌≤◌, ◌<◌, ◌≡◌, refl, sym, ap, ◌∙◌, subst, true, false, [], ◌∷◌, ◌++◌,
  Bytes, ◌==◌, ltb, length, length-append, length-drop, take, drop, take_snoc, drop-drop,
  drop-append, take-append, drop_entry, arith, Bool-cases, inl, inr, ==_iff,
}
use mathlib.Core.List.{append_assoc}
use minishell.Environment.Defs.{Env}
use minishell.HereDoc.Write.{
  memory, expand_here_var, get_expansion_value, value_bytes, expand_loop, expand_here_line,
  expanded,
}
use minishell.Lexer.Scan.{is_expansion_start, get_expansion_len, name_len}
use minishell.Lexer.Valid.{char_at-drop}
use minishell.Libft.{Libft}
use minishell.Utils.{char_at, is_name_body, is_name_start, is_char_in_set}

abbrev pub ended : Bytes → Bytes
ended s = s ++ (b'\n' ∷ [])

char_at-ended : (s : Bytes) → char_at (ended s) (length s) ≡ b'\n'
char_at-ended [] = refl
char_at-ended (x ∷ s) = char_at-ended s

pub memory_within :
    (line : Bytes) (start len : ℕ)
    → start + len ≤ length line
    → memory line start len ≡ take len (drop start line)
memory_within line start len h =
    ap (take len) (drop-append line (0 ∷ []) start (omega arith))
    ∙ take-append (drop start line) (0 ∷ []) len (omega (arith, length-drop start line))

module _ (lib : Libft) where
  name_len-ended : (s : Bytes) → name_len lib (ended s) ≤ length s
  unfolding name_len is_name_body
  name_len-ended [] = ground (arith, lib.isalnum-newline)
  name_len-ended (x ∷ s) = ground (arith, name_len-ended s)

  is_expansion_start-drop :
      (line : Bytes) (i : ℕ)
      → is_expansion_start lib line i ≡ is_expansion_start lib (drop i line) 0
  unfolding is_expansion_start
  is_expansion_start-drop line i =
      let e : i + 0 ≡ i = omega arith in rw (char_at-drop line i 0, char_at-drop line i 1, e) refl

  -- An expansion ends before the newline.
  get_expansion_len-ended :
      (s : Bytes) (i : ℕ)
      → i < length s
      → is_expansion_start lib (ended s) i ≡ true
      → (2 ≤ get_expansion_len lib (drop i (ended s)))
        × (i + get_expansion_len lib (drop i (ended s)) ≤ length s)
  unfolding is_expansion_start get_expansion_len is_name_start is_char_in_set
  get_expansion_len-ended s i lt h = elim (Bool-cases (i + 1 == length s)) [
    | inl e ↦
        let at =
          subst (λ n. char_at (ended s) n ≡ b'\n') (sym ((==_iff _ _).0 e)) (char_at-ended s) in
        let no_letter : lib.isalpha b'\n' ≡ false =
          ground (arith, lib.isalnum_of_isalpha b'\n', lib.isalnum-newline) in
        ground (arith, at, no_letter)
    | inr ne ↦
        let fits : i + 2 ≤ length s = ground arith in
        let rest : drop 2 (drop i (ended s)) ≡ ended (drop (i + 2) s) =
          drop-drop (ended s) i 2 ∙ drop-append s (b'\n' ∷ []) (i + 2) fits in
        rw rest (ground (arith, name_len-ended (drop (i + 2) s), length-drop (i + 2) s))
  ]

  module _ (vals : Env) (status : ℕ) where
    expanded-skip :
        (s : Bytes) (k : ℕ) → expanded lib vals status s k ≡ expanded lib vals status (drop k s) 0
    unfolding expanded
    expanded-skip s zero = refl
    expanded-skip [] (suc k) = refl
    expanded-skip (x ∷ s) (suc k) = expanded-skip s k

    -- The text from an expansion on.
    expanded-start :
        (line : Bytes) (i : ℕ)
        → i < length line
        → is_expansion_start lib line i ≡ true
        → 2 ≤ get_expansion_len lib (drop i line)
        → expanded lib vals status (drop i line) 0
          ≡ expand_here_var lib vals status line i
            ++ expanded lib vals status (drop (i + get_expansion_len lib (drop i line)) line) 0
    unfolding expanded expand_here_var
    expanded-start line i lt e two =
        let (x, here) = drop_entry line i lt in
        let len = get_expansion_len lib (drop i line) in
        let same : is_expansion_start lib (x ∷ drop (i + 1) line) 0 ≡ true =
          subst (λ l. is_expansion_start lib l 0 ≡ true) here
            (sym (is_expansion_start-drop line i) ∙ e) in
        let behind : drop (len - 1) (drop (i + 1) line) ≡ drop (i + len) line =
          let n : i + 1 + (len - 1) ≡ i + len = omega arith in
          drop-drop line (i + 1) (len - 1) ∙ rw n refl in
        let name = lib.substr_lem (drop (i + 1) line) 0 (len - 1) in
        subst
          (λ l.
            expanded lib vals status l 0
            ≡ value_bytes
                (get_expansion_value lib vals status (lib.substr (drop (i + 1) line) 0 (len - 1)))
              ++ expanded lib vals status (drop (i + len) line) 0)
          (sym here)
          (let lenx : get_expansion_len lib (x ∷ drop (i + 1) line) ≡ len =
              ap (get_expansion_len lib) (sym here) in
            rw (same, lenx, name)
              (ap
                (λ u.
                  value_bytes
                    (get_expansion_value lib vals status (take (len - 1) (drop (i + 1) line)))
                  ++ u)
                (expanded-skip (drop (i + 1) line) (len - 1)
                  ∙ ap (λ l. expanded lib vals status l 0) behind)))

    expanded-plain :
        (line : Bytes) (i x : ℕ)
        → drop i line ≡ x ∷ drop (i + 1) line
        → is_expansion_start lib line i ≡ false
        → expanded lib vals status (drop i line) 0
          ≡ x ∷ expanded lib vals status (drop (i + 1) line) 0
    unfolding expanded
    expanded-plain line i x here e =
        let same : is_expansion_start lib (x ∷ drop (i + 1) line) 0 ≡ false =
          subst (λ l. is_expansion_start lib l 0 ≡ false) here
            (sym (is_expansion_start-drop line i) ∙ e) in
        subst
          (λ l. expanded lib vals status l 0 ≡ x ∷ expanded lib vals status (drop (i + 1) line) 0)
          (sym here) (rw same refl)

    module _ (s : Bytes) where
      -- the bytes from `start` to `i`
      abbrev part : ℕ → ℕ → Bytes
      part start i = take (i - start) (drop start (ended s))

      drop-ended : (t : Bytes) → drop (length t) (ended t) ≡ b'\n' ∷ []
      drop-ended [] = refl
      drop-ended (x ∷ t) = drop-ended t

      -- The newline is written with what stands before it.
      last_part :
          (start : ℕ)
          → start ≤ length s
          → memory (ended s) start (length s - start + 1)
            ≡ part start (length s) ++ expanded lib vals status (drop (length s) (ended s)) 0
      unfolding expanded is_expansion_start
      last_part start h =
          let n : start + (length s - start) ≡ length s = omega arith in
          let end : drop (length s - start) (drop start (ended s)) ≡ b'\n' ∷ [] =
            drop-drop (ended s) start (length s - start) ∙ rw n (drop-ended s) in
          memory_within (ended s) start (length s - start + 1)
            (omega (arith, length-append s (b'\n' ∷ [])))
          ∙ take_snoc (drop start (ended s)) (length s - start) b'\n' [] end
          ∙ rw (drop-ended s) refl

      expand_loop-expanded :
          (fuel i start : ℕ)
          → start ≤ i
          → i ≤ length s
          → length s ≤ fuel + i
          → expand_loop lib vals status fuel (ended s) (length s) i start
            ≡ part start i ++ expanded lib vals status (drop i (ended s)) 0
      unfolding expand_loop
      expand_loop-expanded zero i start h k f =
          let e : i ≡ length s = omega arith in rw e (last_part start (omega arith))
      expand_loop-expanded (suc fuel) i start h k f =
          let line = ended s in
          let lt : i < length line = omega (arith, length-append s (b'\n' ∷ [])) in
          elim (Bool-cases (ltb i (length s))) [
            | inr last ↦
                let e : i ≡ length s = ground arith in rw (last, e) (last_part start (omega arith))
            | inl more ↦ elim (Bool-cases (is_expansion_start lib line i)) [
              | inl e ↦
                  let len = get_expansion_len lib (drop i line) in
                  let (two, fits) = get_expansion_len-ended s i (ground arith) e in
                  let none : i + len - (i + len) ≡ 0 = omega arith in
                  let rec =
                    expand_loop-expanded fuel (i + len) (i + len) (omega arith) fits
                      (omega arith) in
                  rw (more, e)
                    (ap
                        (λ u.
                          u
                          ++ (expand_here_var lib vals status line i
                              ++ expand_loop lib vals status fuel line (length s) (i + len)
                                  (i + len)))
                        (memory_within line start (i - start) (omega arith))
                      ∙ ap (λ u. part start i ++ u)
                          (ap (λ u. expand_here_var lib vals status line i ++ u)
                              (rec ∙ rw none refl)
                            ∙ sym (expanded-start line i lt e two)))
              | inr e ↦
                  let (x, here) = drop_entry line i lt in
                  let grown : part start (i + 1) ≡ part start i ++ (x ∷ []) =
                    let n : i + 1 - start ≡ i - start + 1 = omega arith in
                    let m : start + (i - start) ≡ i = omega arith in
                    rw n (
                      take_snoc (drop start line) (i - start) x (drop (i + 1) line)
                        (drop-drop line start (i - start) ∙ rw m here)) in
                  rw (more, e)
                    (expand_loop-expanded fuel (i + 1) start (omega arith) (ground arith)
                        (omega arith)
                      ∙ ap (λ u. u ++ expanded lib vals status (drop (i + 1) line) 0) grown
                      ∙ append_assoc (part start i) (x ∷ [])
                          (expanded lib vals status (drop (i + 1) line) 0)
                      ∙ ap (λ u. part start i ++ u) (sym (expanded-plain line i x here e)))
            ]
          ]

  -- For a line with its newline, expand_here_line writes the line with every variable replaced by
  -- its value, `$?` by the last status, and a name without a value by nothing.
  pub expand_here_line-expanded :
      (vals : Env) (status : ℕ) (s : Bytes)
      → expand_here_line lib vals status (ended s) (length s) ≡ expanded lib vals status (ended s) 0
  unfolding expand_here_line
  expand_here_line-expanded vals status s =
      expand_loop-expanded vals status s (length s) 0 0 (omega arith) (omega arith) (omega arith)
