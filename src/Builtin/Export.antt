-- ===== src/Builtin/Export.antt =====
-- export with arguments: add_args_to_env of srcs/builtin/builtin_export.c. The words are the
-- arguments behind the command name; the messages are left out, and allocation succeeds.
use minishell.Base.{
  ℕ, ◌≡◌, refl, ap, ◌∙◌, Bool, true, not, ◌&&◌, ◌||◌, Option, none, some, List, [], ◌∷◌, Bytes,
  if◌then◌else◌, bytes_eq, arith, Bool-cases, inl, inr,
}
use minishell.Builtin.Unset.{is_shlvl}
use minishell.Environment.Defs.{Env, env_get, env_update, ft_split_key_value}
use minishell.Environment.Lookup.{updated, env_get-env_update}
use minishell.Environment.Unique.{IsUnique, env_update-IsUnique}
use minishell.Libft.{Libft}
use minishell.Utils.{is_valid_var_name}

module _ (lib : Libft) where
  -- the name of an argument may be set
  abbrev pub is_identifier : Bytes → Bool
  is_identifier name = not (not (is_valid_var_name lib name) || is_shlvl lib name)

  add_args_loop : Env → List Bytes → ℕ → Env × ℕ
  add_args_loop vals [] result = (vals, result)
  add_args_loop vals (word ∷ words) result =
      let (name, value) = ft_split_key_value lib word b'=' in
      if is_identifier name
      then add_args_loop (env_update lib vals name value) words result
      else add_args_loop vals words 1

  unfoldable pub add_args_to_env : Env → List Bytes → Env × ℕ
  unfolding add_args_loop
  add_args_to_env vals words = add_args_loop vals words 0

  abbrev word_name : Bytes → Bytes
  word_name word = (ft_split_key_value lib word b'=').0

  -- The value of `j`: the last that a word assigns to it, or the old one.
  abbrev pub exported : List Bytes → Bytes → Option Bytes → Option Bytes
  exported [] j old = old
  exported (word ∷ words) j old =
      let (name, value) = ft_split_key_value lib word b'=' in
      exported words j (
        if is_identifier name && bytes_eq name j
        then (elim value [ none ↦ old | some v ↦ some v ])
        else old)

  abbrev pub all_identifiers : List Bytes → Bool
  all_identifiers [] = true
  all_identifiers (word ∷ words) =
      is_identifier (ft_split_key_value lib word b'=').0 && all_identifiers words

  updated_lem :
      (vals : Env) (name j : Bytes) (value : Option Bytes)
      → updated lib vals name value j ≡ (
          if bytes_eq name j
          then (elim value [ none ↦ env_get lib vals j | some v ↦ some v ])
          else env_get lib vals j)
  updated_lem vals name j none = ground arith
  updated_lem vals name j (some v) = refl

  abbrev Sets : Env → List Bytes → ℕ → Env × ℕ → Type 0
  Sets vals words result r =
      (r.1 ≡ (if all_identifiers words then result else 1))
      × (IsUnique lib vals → IsUnique lib r.0)
      × ((j : Bytes) → env_get lib r.0 j ≡ exported words j (env_get lib vals j))

  add_args_loop-Sets :
      (vals : Env) (words : List Bytes) (result : ℕ)
      → Sets vals words result (add_args_loop vals words result)
  unfolding add_args_loop
  add_args_loop-Sets vals [] result = (refl, λ u. u, λ j. refl)
  add_args_loop-Sets vals (word ∷ words) result =
      let (name, value) = ft_split_key_value lib word b'=' in
      elim (Bool-cases (is_identifier name)) [
        | inl e ↦ rw e (
            let vals' = env_update lib vals name value in
            let (s, u, f) = add_args_loop-Sets vals' words result in
            (
              s,
              λ w. u (env_update-IsUnique lib vals name value w),
              λ j.
                  f j
                  ∙ ap (exported words j)
                      (env_get-env_update lib vals name value j ∙ updated_lem vals name j value),
            ))
        | inr e ↦ rw e (let (s, u, f) = add_args_loop-Sets vals words 1 in (s ∙ ground arith, u, f))
      ]

  -- Every variable has the last value that a word with a valid name assigns to it, or its old one;
  -- the status is 0 where all names are valid and none is SHLVL, and 1 otherwise; keys that do not
  -- repeat stay apart.
  pub add_args_to_env_lem :
      (vals : Env) (words : List Bytes)
      → (let (vals', status) = add_args_to_env vals words in
          (status ≡ (if all_identifiers words then 0 else 1))
          × (IsUnique lib vals → IsUnique lib vals')
          × ((j : Bytes) → env_get lib vals' j ≡ exported words j (env_get lib vals j)))
  unfolding add_args_to_env
  add_args_to_env_lem vals words = add_args_loop-Sets vals words 0
