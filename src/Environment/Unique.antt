-- ===== src/Environment/Unique.antt =====
-- Keys without repetition, for env_update.c and env_delete.c of srcs/environment.
use minishell.Base.{
  ◌≡◌, refl, false, ◌||◌, Option, none, some, [], ◌∷◌, ◌++◌, Bytes, if◌then◌else◌, bytes_eq,
  eq_of_bytes_eq, bytes_eq_self, arith,
}
use minishell.Environment.Defs.{
  Env, env_get, env_add, search_node, write_node, env_update, env_delete,
}
use minishell.Environment.Lookup.{key_eq-bytes_eq, env_get-absent}
use minishell.Libft.{Libft}
use minishell.Types.{EnvContent}

module _ (lib : Libft) where
  abbrev pub IsUnique : Env → Type 0
  IsUnique [] = Unit
  IsUnique (x ∷ vals) = (search_node lib vals x.key ≡ false) × IsUnique vals

  pub search_node-append :
      (vals : Env) (node : EnvContent) (j : Bytes)
      → search_node lib (vals ++ (node ∷ [])) j ≡ (search_node lib vals j || bytes_eq node.key j)
  unfolding search_node
  search_node-append [] node j = ground (arith, key_eq-bytes_eq lib node.key j)
  search_node-append (x ∷ vals) node j =
      ground (arith, search_node-append vals node j, key_eq-bytes_eq lib x.key j)

  search_node-write_node :
      (vals : Env) (key value j : Bytes)
      → search_node lib (write_node lib vals key value) j ≡ search_node lib vals j
  unfolding search_node write_node
  search_node-write_node [] key value j = refl
  search_node-write_node (x ∷ vals) key value j = ground (
    arith,
    search_node-write_node vals key value j,
    key_eq-bytes_eq lib x.key key,
    eq_of_bytes_eq x.key key,
  )

  search_node-env_delete :
      (vals : Env) (key j : Bytes)
      → search_node lib vals j ≡ false
      → search_node lib (env_delete lib vals key) j ≡ false
  unfolding search_node env_delete
  search_node-env_delete [] key j h = refl
  search_node-env_delete (x ∷ vals) key j h = ground (arith, search_node-env_delete vals key j)

  IsUnique-append :
      (vals : Env) (node : EnvContent)
      → search_node lib vals node.key ≡ false
      → IsUnique vals
      → IsUnique (vals ++ (node ∷ []))
  unfolding search_node
  IsUnique-append [] node h u = (refl, tt)
  IsUnique-append (x ∷ vals) node h u = ground (
    arith,
    search_node-append vals node x.key,
    IsUnique-append vals node,
    key_eq-bytes_eq lib x.key node.key,
    eq_of_bytes_eq node.key x.key,
    bytes_eq_self x.key,
  )

  IsUnique-write_node :
      (vals : Env) (key value : Bytes) → IsUnique vals → IsUnique (write_node lib vals key value)
  unfolding write_node
  IsUnique-write_node [] key value u = tt
  IsUnique-write_node (x ∷ vals) key value u = ground (
    arith,
    search_node-write_node vals key value x.key,
    IsUnique-write_node vals key value u.1,
    key_eq-bytes_eq lib x.key key,
    eq_of_bytes_eq x.key key,
  )

  -- Where keys do not repeat, they do not after an update.
  pub env_update-IsUnique :
      (vals : Env) (key : Bytes) (value : Option Bytes)
      → IsUnique vals
      → IsUnique (env_update lib vals key value)
  unfolding env_update env_add
  env_update-IsUnique vals key none u = ground (
    arith,
    IsUnique-append vals (record { key = key; val = none }),
    lib.lstadd_back_lem EnvContent vals (record { key = key; val = none }),
  )
  env_update-IsUnique vals key (some value) u = ground (
    arith,
    IsUnique-append vals (record { key = key; val = some value }),
    lib.lstadd_back_lem EnvContent vals (record { key = key; val = some value }),
    IsUnique-write_node vals key value u,
  )

  IsUnique-env_delete :
      (vals : Env) (key : Bytes) → IsUnique vals → IsUnique (env_delete lib vals key)
  unfolding env_delete
  IsUnique-env_delete [] key u = tt
  IsUnique-env_delete (x ∷ vals) key u =
      ground (arith, search_node-env_delete vals key x.key, IsUnique-env_delete vals key u.1)

  env_get-env_delete :
      (vals : Env) (key j : Bytes)
      → IsUnique vals
      → env_get lib (env_delete lib vals key) j
        ≡ (if bytes_eq key j then none else env_get lib vals j)
  unfolding env_delete env_get
  env_get-env_delete [] key j u = ground arith
  env_get-env_delete (x ∷ vals) key j u = ground (
    arith,
    env_get-env_delete vals key j u.1,
    key_eq-bytes_eq lib x.key key,
    key_eq-bytes_eq lib x.key j,
    eq_of_bytes_eq x.key key,
    eq_of_bytes_eq key j,
    bytes_eq_self key,
    env_get-absent lib vals j,
  )

  -- Where keys do not repeat, a deleted key has no value any more, every other key keeps its own,
  -- and the keys stay apart.
  pub env_delete_lem :
      (vals : Env) (key : Bytes)
      → IsUnique vals
      → IsUnique (env_delete lib vals key)
        × ((j : Bytes)
            → env_get lib (env_delete lib vals key) j
              ≡ (if bytes_eq key j then none else env_get lib vals j))
  env_delete_lem vals key u = (IsUnique-env_delete vals key u, λ j. env_get-env_delete vals key j u)
