-- ===== src/Environment/Lookup.antt =====
-- The environment as a dictionary: env_get.c, env_add.c and env_update.c of srcs/environment.
use minishell.Base.{
  eq_ℕ_zero, Bool_eq_of_iff, ◌+◌, ◌≡◌, refl, true, false, Option, none, some, [], ◌∷◌, ◌++◌, Bytes,
  if◌then◌else◌, length, bytes_eq, eq_of_bytes_eq, bytes_eq_self, arith, subst,
}
use minishell.Libft.{Libft}
use minishell.Environment.Defs.{Env, key_eq, env_get, env_add, search_node, write_node, env_update}
use minishell.Types.{EnvContent}

module _ (lib : Libft) where
  -- Keys are compared whole.
  pub key_eq-bytes_eq : (a b : Bytes) → key_eq lib a b ≡ bytes_eq a b
  unfolding key_eq
  key_eq-bytes_eq a b =
      let whole = lib.strncmp_whole a b (length b + 1) (omega arith) in
      let zero = eq_ℕ_zero (lib.strncmp a b (length b + 1)) in
      Bool_eq_of_iff _ (bytes_eq a b)
        (λ h. subst (λ x. bytes_eq a x ≡ true) (whole.0 (zero.0 h)) (bytes_eq_self a))
        (λ h. zero.1 (whole.1 (eq_of_bytes_eq a b h)))

  -- A key that is not there has no value.
  pub env_get-absent :
      (vals : Env) (key : Bytes) → search_node lib vals key ≡ false → env_get lib vals key ≡ none
  unfolding env_get search_node
  env_get-absent [] key h = refl
  env_get-absent (x ∷ vals) key h = ground (arith, env_get-absent vals key)

  -- What is appended is seen only behind the older variables.
  pub env_get-append :
      (vals : Env) (node : EnvContent) (j : Bytes)
      → env_get lib (vals ++ (node ∷ [])) j ≡ (
          if search_node lib vals j
          then env_get lib vals j
          else if bytes_eq node.key j
          then node.val
          else none)
  unfolding env_get search_node
  env_get-append [] node j = rw key_eq-bytes_eq
  env_get-append (x ∷ vals) node j =
      ground (arith, env_get-append vals node j, key_eq-bytes_eq x.key j)

  env_get-write_node :
      (vals : Env) (key value j : Bytes)
      → search_node lib vals key ≡ true
      → env_get lib (write_node lib vals key value) j
        ≡ (if bytes_eq key j then some value else env_get lib vals j)
  unfolding env_get search_node write_node
  env_get-write_node [] key value j h = cc
  env_get-write_node (x ∷ vals) key value j h = ground (
    arith,
    env_get-write_node vals key value j,
    key_eq-bytes_eq x.key key,
    key_eq-bytes_eq x.key j,
    key_eq-bytes_eq key j,
    eq_of_bytes_eq x.key key,
    eq_of_bytes_eq key j,
    bytes_eq_self key,
  )

  -- the dictionary after an update, at every key
  abbrev pub updated : Env → Bytes → Option Bytes → Bytes → Option Bytes
  updated vals key none j = env_get lib vals j
  updated vals key (some value) j = if bytes_eq key j then some value else env_get lib vals j

  -- An update gives its key the value, and every other key keeps its own. Without a value it
  -- changes nothing that can be looked up.
  pub env_get-env_update :
      (vals : Env) (key : Bytes) (value : Option Bytes) (j : Bytes)
      → env_get lib (env_update lib vals key value) j ≡ updated vals key value j
  unfolding env_update env_add
  env_get-env_update vals key none j = ground (
    arith,
    env_get-append vals (record { key = key; val = none }) j,
    lib.lstadd_back_lem EnvContent vals (record { key = key; val = none }),
    env_get-absent vals j,
    eq_of_bytes_eq key j,
  )
  env_get-env_update vals key (some value) j = ground (
    arith,
    env_get-append vals (record { key = key; val = some value }) j,
    lib.lstadd_back_lem EnvContent vals (record { key = key; val = some value }),
    env_get-write_node vals key value j,
    env_get-absent vals j,
    eq_of_bytes_eq key j,
  )
