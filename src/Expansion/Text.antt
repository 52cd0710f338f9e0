-- ===== src/Expansion/Text.antt =====
-- The text of a word's field, by recursion on the word, one byte at a time.
use minishell.Base.{
  ℕ, zero, suc, ◌-◌, ◌≡◌, refl, ap, ◌&&◌, Option, none, some, [], ◌∷◌, ◌++◌, Bytes, ◌==◌,
  if◌then◌else◌, drop, pos,
}
use mathlib.Core.List.{append_assoc}
use minishell.Environment.Defs.{Env}
use minishell.Expansion.Fields.{FieldArena}
use minishell.Expansion.Scan.{has_closing_quote, get_env_from_slice}
use minishell.Lexer.Scan.{is_expansion_start, get_expansion_len}
use minishell.Libft.{Libft}
use minishell.Utils.{char_at}

pub data Quote : Type 0 where
  unquoted squoted dquoted : Quote

-- Two parts of a field; `none` where nothing asks for a field, which is not the empty field.
abbrev pub joined : Option Bytes → Option Bytes → Option Bytes
joined none b = b
joined (some t) none = some t
joined (some t) (some u) = some (t ++ u)

pub joined-none : (a : Option Bytes) → joined a none ≡ a
joined-none none = refl
joined-none (some t) = refl

pub joined_assoc : (a b c : Option Bytes) → joined (joined a b) c ≡ joined a (joined b c)
joined_assoc none b c = refl
joined_assoc (some t) none c = refl
joined_assoc (some t) (some u) none = refl
joined_assoc (some t) (some u) (some v) = ap (λ w. some w) (append_assoc t u v)

-- outside quotes an empty value is as good as none
abbrev pub value_part : Quote → Option Bytes → Option Bytes
value_part unquoted (some []) = none
value_part q o = o

module _ (arena : FieldArena) (lib : Libft) (vals : Env) (return_status : ℕ) where
  -- what the expansion at the start of the text stands for
  unfoldable pub expansion : Quote → Bytes → Option Bytes
  expansion q s =
      let len = get_expansion_len lib s in
      if len == 2 && char_at s 1 == b'?'
      then some (arena.printed (pos return_status))
      else value_part q (get_env_from_slice arena lib vals return_status vals (drop 1 s) (len - 1))

  -- `skip` bytes still belong to an expansion
  unfoldable pub word_text : Quote → Bytes → ℕ → Option Bytes
  unfolding expansion
  word_text q [] skip = none
  word_text q (x ∷ rest) (suc skip) = word_text q rest skip
  word_text squoted (x ∷ rest) zero =
      let behind = word_text unquoted rest 0 in
      let on = joined (some (x ∷ [])) (word_text squoted rest 0) in
      if x == b'\'' then behind else on
  word_text dquoted (x ∷ rest) zero =
      let behind = word_text unquoted rest 0 in
      let on = joined (some (x ∷ [])) (word_text dquoted rest 0) in
      let text = x ∷ rest in
      let expanded =
        joined (expansion dquoted text) (word_text dquoted rest (get_expansion_len lib text - 1)) in
      if x == b'"' then behind else if is_expansion_start lib text 0 then expanded else on
  word_text unquoted (x ∷ rest) zero =
      let single = joined (some []) (word_text squoted rest 0) in
      let double = joined (some []) (word_text dquoted rest 0) in
      let on = joined (some (x ∷ [])) (word_text unquoted rest 0) in
      let text = x ∷ rest in
      let expanded =
        joined (expansion unquoted text)
          (word_text unquoted rest (get_expansion_len lib text - 1)) in
      if has_closing_quote text
      then (if x == b'\'' then single else double)
      else if is_expansion_start lib text 0
      then expanded
      else on
