-- ===== src/Environment/Defaults.antt =====
-- The variables that the shell sets itself: srcs/environment/add_env_defaults.c and init_env.c.
-- The working directory is a parameter, and allocation is taken to succeed.
use minishell.Base.{
  ℕ, zero, suc, ◌+◌, ◌≡◌, ◌≢◌, ◌==◌, ==_iff, refl, ap, ◌∙◌, Bool-cases, Bool, true, false, not,
  ◌&&◌, ◌||◌, Option, none, some, List, [], ◌∷◌, ◌++◌, Bytes, if◌then◌else◌, bytes_eq,
  eq_of_bytes_eq, bytes_eq_self, ℤ, pos, negsuc, arith, Option-cases, inl, inr,
}
use minishell.Environment.Defs.{Env, env_get, env_add, env_update, search_node, init_vals}
use minishell.Environment.Lookup.{env_get-absent, env_get-append, env_get-env_update}
use minishell.Environment.Unique.{search_node-append}
use minishell.Libft.{Libft}
use minishell.Types.{EnvContent}
use minishell.Utils.{is_empty_str}

abbrev pub pwd_key : Bytes
pwd_key = b'P' ∷ b'W' ∷ b'D' ∷ []

abbrev pub path_key : Bytes
path_key = b'P' ∷ b'A' ∷ b'T' ∷ b'H' ∷ []

abbrev pub shlvl_key : Bytes
shlvl_key = b'S' ∷ b'H' ∷ b'L' ∷ b'V' ∷ b'L' ∷ []

-- "/usr/local/bin:/usr/local/sbin:/usr/bin:/usr/sbin:/bin:/sbin"
abbrev bin : Bytes
bin = b'b' ∷ b'i' ∷ b'n' ∷ []

abbrev usr : Bytes
usr = b'/' ∷ b'u' ∷ b's' ∷ b'r' ∷ b'/' ∷ []

abbrev local : Bytes
local = b'l' ∷ b'o' ∷ b'c' ∷ b'a' ∷ b'l' ∷ b'/' ∷ []

abbrev pub default_path : Bytes
default_path =
    (usr ++ local ++ bin)
    ++ (b':' ∷ (usr ++ local ++ (b's' ∷ bin)))
    ++ (b':' ∷ (usr ++ bin))
    ++ (b':' ∷ (usr ++ (b's' ∷ bin)))
    ++ (b':' ∷ b'/' ∷ bin)
    ++ (b':' ∷ b'/' ∷ b's' ∷ bin)

abbrev pub default_shlvl : Bytes
default_shlvl = b'1' ∷ []

-- is_empty_str of the pointer that env_get returns
abbrev pub is_empty : Option Bytes → Bool
is_empty none = true
is_empty (some s) = is_empty_str s

abbrev pub int_max : ℕ
int_max = 2147483647

-- `tmp += 1` on a 32-bit int: INT_MAX goes to INT_MIN, as two's complement wraps
unfoldable pub increase : ℤ → ℤ
increase (pos n) = if n == int_max then negsuc int_max else pos (n + 1)
increase (negsuc zero) = pos 0
increase (negsuc (suc n)) = negsuc n

-- one more, without a bound
abbrev pub suc_ℤ : ℤ → ℤ
suc_ℤ (pos n) = pos (n + 1)
suc_ℤ (negsuc zero) = pos 0
suc_ℤ (negsuc (suc n)) = negsuc n

increase-suc_ℤ : (z : ℤ) → z ≢ pos int_max → increase z ≡ suc_ℤ z
unfolding increase
increase-suc_ℤ (pos n) h = elim (Bool-cases (n == int_max)) [
  | inl e ↦ let same : n ≡ int_max = (==_iff n int_max).0 e in absurd (h (ap pos same))
  | inr e ↦ rw e refl
]
increase-suc_ℤ (negsuc zero) h = refl
increase-suc_ℤ (negsuc (suc n)) h = refl

module _ (lib : Libft) (cwd : Bytes) where
  unfoldable pub add_pwd : Env → Env
  unfolding is_empty_str
  add_pwd vals =
      if is_empty (env_get lib vals pwd_key) then env_add lib vals pwd_key (some cwd) else vals

  unfoldable pub add_path : Env → Env
  unfolding is_empty_str
  add_path vals =
      if is_empty (env_get lib vals path_key)
      then env_add lib vals path_key (some default_path)
      else vals

  unfoldable pub increase_shlvl : Env → Bytes → Env
  unfolding increase
  increase_shlvl vals shlvl =
      env_update lib vals shlvl_key (some (lib.itoa (increase (lib.atoi shlvl))))

  unfoldable pub add_shlvl : Env → Env
  unfolding is_empty_str increase_shlvl
  add_shlvl vals =
      let added = env_add lib vals shlvl_key (some default_shlvl) in
      elim (env_get lib vals shlvl_key) [
        | none ↦ added
        | some shlvl ↦ if is_empty_str shlvl then added else increase_shlvl vals shlvl
      ]

  unfoldable pub add_env_defaults : Env → Env
  unfolding add_pwd add_path add_shlvl
  add_env_defaults vals = add_shlvl (add_path (add_pwd vals))

  -- from the empty list
  unfoldable pub init_env : List Bytes → Env
  unfolding add_env_defaults
  init_env envp = add_env_defaults (init_vals lib [] envp)

  -- what env_add makes of a variable whose value is missing or empty
  abbrev added : Env → Bytes → Bytes → Bytes → Option Bytes
  added vals key value j =
      if bytes_eq key j && not (search_node lib vals key) then some value else env_get lib vals j

  env_get-env_add :
      (vals : Env) (key value j : Bytes)
      → env_get lib (env_add lib vals key (some value)) j ≡ added vals key value j
  unfolding env_add
  env_get-env_add vals key value j = ground (
    arith,
    env_get-append lib vals (record { key = key; val = some value }) j,
    lib.lstadd_back_lem EnvContent vals (record { key = key; val = some value }),
    env_get-absent lib vals j,
    eq_of_bytes_eq key j,
    bytes_eq_self key,
  )

  search_node-env_add :
      (vals : Env) (key value j : Bytes)
      → search_node lib (env_add lib vals key (some value)) j
        ≡ (search_node lib vals j || bytes_eq key j)
  unfolding env_add
  search_node-env_add vals key value j =
      rw (lib.lstadd_back_lem EnvContent vals (record { key = key; val = some value }))
        (search_node-append lib vals (record { key = key; val = some value }) j)

  env_get-add_pwd :
      (vals : Env) (j : Bytes) → env_get lib (add_pwd vals) j ≡ added vals pwd_key cwd j
  unfolding add_pwd is_empty_str
  env_get-add_pwd vals j =
      ground (arith, env_get-env_add vals pwd_key cwd j, env_get-absent lib vals pwd_key)

  search_node-add_pwd :
      (vals : Env) (j : Bytes)
      → bytes_eq pwd_key j ≡ false
      → search_node lib (add_pwd vals) j ≡ search_node lib vals j
  unfolding add_pwd is_empty_str
  search_node-add_pwd vals j h = ground (arith, search_node-env_add vals pwd_key cwd j)

  env_get-add_path :
      (vals : Env) (j : Bytes) → env_get lib (add_path vals) j ≡ added vals path_key default_path j
  unfolding add_path is_empty_str
  env_get-add_path vals j =
      ground (arith, env_get-env_add vals path_key default_path j, env_get-absent lib vals path_key)

  search_node-add_path :
      (vals : Env) (j : Bytes)
      → bytes_eq path_key j ≡ false
      → search_node lib (add_path vals) j ≡ search_node lib vals j
  unfolding add_path is_empty_str
  search_node-add_path vals j h = ground (arith, search_node-env_add vals path_key default_path j)

  -- SHLVL afterwards: the default for a missing variable, the next number for one that is there;
  -- a variable without a value or with an empty one stays as it is.
  abbrev level : (ℤ → ℤ) → Bool → Option Bytes → Option Bytes
  level next found none = if found then none else some default_shlvl
  level next found (some s) = if is_empty_str s then some s else some (lib.itoa (next (lib.atoi s)))

  env_get-add_shlvl :
      (vals : Env) (j : Bytes)
      → env_get lib (add_shlvl vals) j ≡ (
          if bytes_eq shlvl_key j
          then level increase (search_node lib vals shlvl_key) (env_get lib vals shlvl_key)
          else env_get lib vals j)
  unfolding add_shlvl is_empty_str increase_shlvl
  env_get-add_shlvl vals j =
      let key_of = eq_of_bytes_eq shlvl_key j in
      elim (Option-cases (env_get lib vals shlvl_key)) [
        | inl e ↦ rw e (ground (arith, env_get-env_add vals shlvl_key default_shlvl j, key_of))
        | inr s ↦ rw s.1 (
            ground (
              arith,
              env_get-env_add vals shlvl_key default_shlvl j,
              key_of,
              env_get-absent lib vals shlvl_key,
              env_get-env_update lib vals shlvl_key (some (lib.itoa (increase (lib.atoi s.0)))) j,
            ))
      ]

  -- the dictionary after add_env_defaults
  abbrev pub defaulted : (ℤ → ℤ) → Env → Bytes → Option Bytes
  defaulted next vals j =
      if bytes_eq pwd_key j && not (search_node lib vals pwd_key)
      then some cwd
      else if bytes_eq path_key j && not (search_node lib vals path_key)
      then some default_path
      else if bytes_eq shlvl_key j
      then level next (search_node lib vals shlvl_key) (env_get lib vals shlvl_key)
      else env_get lib vals j

  env_get-increased :
      (vals : Env) (j : Bytes) → env_get lib (add_env_defaults vals) j ≡ defaulted increase vals j
  unfolding add_env_defaults
  env_get-increased vals j =
      let v1 = add_pwd vals in
      let v2 = add_path v1 in
      rw (env_get-add_shlvl v2 j) (
        ground (
          arith,
          env_get-add_path v1 j,
          env_get-add_path v1 shlvl_key,
          env_get-add_pwd vals j,
          env_get-add_pwd vals shlvl_key,
          search_node-add_path v1 shlvl_key,
          search_node-add_pwd vals shlvl_key,
          search_node-add_pwd vals path_key,
          eq_of_bytes_eq path_key j,
          eq_of_bytes_eq pwd_key j,
          eq_of_bytes_eq shlvl_key j,
        ))

  -- the number of SHLVL, where there is one, is not the greatest int
  abbrev pub HasRoom : Option Bytes → Type 0
  HasRoom none = Unit
  HasRoom (some s) = lib.atoi s ≢ pos int_max

  level-suc_ℤ :
      (found : Bool) (o : Option Bytes) → HasRoom o → level increase found o ≡ level suc_ℤ found o
  level-suc_ℤ found none h = refl
  level-suc_ℤ found (some s) h = rw (increase-suc_ℤ (lib.atoi s) h) refl

  -- Where the number of SHLVL is not INT_MAX, with which the increment overflows: the default of PWD
  -- or PATH is seen only where the variable is missing, and an empty one keeps its value. A missing
  -- SHLVL gets its default and one with a number grows by one, while one without a value or with an
  -- empty one stays as it is. Every other variable keeps its value.
  pub env_get-add_env_defaults :
      (vals : Env) (j : Bytes)
      → HasRoom (env_get lib vals shlvl_key)
      → env_get lib (add_env_defaults vals) j ≡ defaulted suc_ℤ vals j
  env_get-add_env_defaults vals j room =
      let same = level-suc_ℤ (search_node lib vals shlvl_key) (env_get lib vals shlvl_key) room in
      env_get-increased vals j ∙ rw same refl
