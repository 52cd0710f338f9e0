-- ===== src/Builtin/Unset.antt =====
-- unset: srcs/builtin/unset.c. The words are the arguments behind the command name.
use minishell.Base.{
  ℕ, ◌≡◌, refl, ◌∙◌, Bool, false, not, ◌&&◌, ◌||◌, none, List, [], ◌∷◌, Bytes, if◌then◌else◌,
  bytes_eq, eq_of_bytes_eq, arith, Bool-cases, inl, inr,
}
use minishell.Environment.Defaults.{shlvl_key}
use minishell.Environment.Defs.{Env, key_eq, env_get, env_delete}
use minishell.Environment.Lookup.{key_eq-bytes_eq}
use minishell.Environment.Unique.{IsUnique, env_delete_lem}
use minishell.Libft.{Libft}
use minishell.Utils.{strn_eq}

module _ (lib : Libft) where
  -- `ft_strncmp(name, SHLVL, 6) == EQUAL`
  abbrev pub is_shlvl : Bytes → Bool
  is_shlvl name = strn_eq lib name shlvl_key 6

  unset_loop : Env → List Bytes → Env
  unset_loop vals [] = vals
  unset_loop vals (word ∷ words) =
      unset_loop (if not (is_shlvl word) then env_delete lib vals word else vals) words

  unfoldable pub unset : Env → List Bytes → Env × ℕ
  unfolding unset_loop
  unset vals words = (unset_loop vals words, 0)

  -- the name is one of the words
  abbrev pub is_listed : Bytes → List Bytes → Bool
  is_listed j [] = false
  is_listed j (word ∷ words) = bytes_eq word j || is_listed j words

  pub is_shlvl-bytes_eq : (name : Bytes) → is_shlvl name ≡ bytes_eq name shlvl_key
  unfolding key_eq
  is_shlvl-bytes_eq name = key_eq-bytes_eq lib name shlvl_key

  abbrev Left : Env → List Bytes → Env → Type 0
  Left vals words vals' =
      IsUnique lib vals'
      × ((j : Bytes)
          → env_get lib vals' j ≡ (
              if is_listed j words && not (bytes_eq j shlvl_key) then none else env_get lib vals j))

  unset_loop-Left :
      (vals : Env) (words : List Bytes)
      → IsUnique lib vals
      → Left vals words (unset_loop vals words)
  unfolding unset_loop
  unset_loop-Left vals [] u = (u, λ j. refl)
  unset_loop-Left vals (word ∷ words) u = elim (Bool-cases (is_shlvl word)) [
    | inl e ↦ rw e (
        let (u', f) = unset_loop-Left vals words u in
        (u', λ j. f j ∙ ground (arith, is_shlvl-bytes_eq word, eq_of_bytes_eq word j)))
    | inr e ↦ rw e (
        let (ud, d) = env_delete_lem lib vals word u in
        let (u', f) = unset_loop-Left (env_delete lib vals word) words ud in
        (u', λ j. f j ∙ ground (arith, d j, is_shlvl-bytes_eq word, eq_of_bytes_eq word j)))
  ]

  -- Where keys do not repeat, the words name no variable with a value any more, SHLVL excepted,
  -- every other variable keeps its own, the keys stay apart, and the status is 0.
  pub unset_lem :
      (vals : Env) (words : List Bytes)
      → IsUnique lib vals
      → (let (vals', status) = unset vals words in
          (status ≡ 0)
          × IsUnique lib vals'
          × ((j : Bytes)
              → env_get lib vals' j ≡ (
                  if is_listed j words && not (bytes_eq j shlvl_key)
                  then none
                  else env_get lib vals j)))
  unfolding unset
  unset_lem vals words u = let (u', f) = unset_loop-Left vals words u in (refl, u', f)
