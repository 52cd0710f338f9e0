-- ===== src/Environment/Exported.antt =====
-- What a program that is started finds: env_to_envp and init_env against each other.
use minishell.Base.{
  ℕ, suc, ◌+◌, ◌≡◌, refl, sym, ap, ◌∙◌, true, false, Option, none, some, List, [], ◌∷◌, ◌++◌, Bytes,
  if◌then◌else◌, map, length, take, drop, has_byte, arith, Option-cases, inl, inr,
}
use mathlib.Core.List.{append-nil, append_assoc}
use minishell.Environment.Defs.{
  Env, word_len, ft_split_key_value, join_key_value, env_to_envp, env_add, init_vals,
}
use minishell.Libft.{Libft}
use minishell.Types.{EnvContent}
use minishell.Utils.{char_at, is_valid_var_name}

pub word_len-append :
    (key rest : Bytes) (del : ℕ)
    → has_byte key del ≡ false
    → word_len (key ++ (del ∷ rest)) del ≡ length key
unfolding word_len
word_len-append [] rest del h = ground arith
word_len-append (c ∷ key) rest del h = ground (arith, word_len-append key rest del)

char_at-append : (key rest : Bytes) (x : ℕ) → char_at (key ++ (x ∷ rest)) (length key) ≡ x
char_at-append [] rest x = refl
char_at-append (c ∷ key) rest x = char_at-append key rest x

take_front : (key rest : Bytes) → take (length key) (key ++ rest) ≡ key
take_front [] rest = refl
take_front (c ∷ key) rest = ap (λ s. c ∷ s) (take_front key rest)

drop_behind : (key rest : Bytes) (x : ℕ) → drop (length key + 1) (key ++ (x ∷ rest)) ≡ rest
drop_behind [] rest x = refl
drop_behind (c ∷ key) rest x =
    let e : suc (length key) + 1 ≡ suc (length key + 1) = omega arith in
    rw e (drop_behind key rest x)

take_whole : (s : Bytes) → take (length s) s ≡ s
take_whole [] = refl
take_whole (c ∷ s) = ap (λ t. c ∷ t) (take_whole s)

-- the value, empty where there is none
abbrev value_or_empty : Option Bytes → Bytes
value_or_empty none = []
value_or_empty (some v) = v

abbrev pub with_value : EnvContent → EnvContent
with_value node = record node { val = some (value_or_empty node.val) }

module _ (lib : Libft) where
  -- every key is a name without an equals sign
  abbrev pub AreNames : Env → Type 0
  AreNames [] = Unit
  AreNames (node ∷ vals) =
      (is_valid_var_name lib node.key ≡ true) × (has_byte node.key b'=' ≡ false) × AreNames vals

  ft_split_key_value-append :
      (key value : Bytes)
      → has_byte key b'=' ≡ false
      → ft_split_key_value lib (key ++ (b'=' ∷ value)) b'=' ≡ (key, some value)
  unfolding ft_split_key_value
  ft_split_key_value-append key value h = rw (
    word_len-append key value b'=' h,
    char_at-append key value b'=',
    drop_behind key value b'=',
    lib.substr_lem (key ++ (b'=' ∷ value)) 0 (length key),
    lib.substr_lem value 0 (length value),
    take_front key (b'=' ∷ value),
    take_whole value,
  )

  joined : (node : EnvContent) → join_key_value node ≡ node.key ++ (b'=' ∷ value_or_empty node.val)
  unfolding join_key_value
  joined node = elim (Option-cases node.val) [ inl e ↦ rw e refl | inr v ↦ rw v.1 refl ]

  init_vals-named :
      (seen : Env) (entry key value : Bytes) (envp : List Bytes)
      → ft_split_key_value lib entry b'=' ≡ (key, some value)
      → is_valid_var_name lib key ≡ true
      → init_vals lib seen (entry ∷ envp)
        ≡ init_vals lib (seen ++ (record { key = key; val = some value } ∷ [])) envp
  unfolding init_vals env_add
  init_vals-named seen entry key value envp split valid =
      let node : EnvContent = record { key = key; val = some value } in
      ap
        (λ r.
          init_vals lib (if is_valid_var_name lib r.0 then env_add lib seen r.0 r.1 else seen) envp)
        split
      ∙ rw valid (ap (λ l. init_vals lib l envp) (lib.lstadd_back_lem EnvContent seen node))

  init_vals-from :
      (seen vals : Env)
      → AreNames vals
      → init_vals lib seen (env_to_envp vals) ≡ seen ++ map with_value vals
  unfolding init_vals env_to_envp env_add
  init_vals-from seen [] h = sym (append-nil seen)
  init_vals-from seen (node ∷ vals) h =
      let value = value_or_empty node.val in
      let split : ft_split_key_value lib (join_key_value node) b'=' ≡ (node.key, some value) =
        ap (λ s. ft_split_key_value lib s b'=') (joined node)
        ∙ ft_split_key_value-append node.key value h.1 in
      init_vals-named seen (join_key_value node) node.key value (env_to_envp vals) split h.0
      ∙ (init_vals-from (seen ++ (with_value node ∷ [])) vals h.2
          ∙ append_assoc seen (with_value node ∷ []) (map with_value vals))

  -- Read back as an environment, the strings that a program gets are the variables in their order,
  -- one without a value with the empty one; where every key is a name without an equals sign.
  pub init_vals-env_to_envp :
      (vals : Env) → AreNames vals → init_vals lib [] (env_to_envp vals) ≡ map with_value vals
  init_vals-env_to_envp vals h = init_vals-from [] vals h
