-- ===== src/Environment/Tests.antt =====
-- Runs over concrete variables.
use minishell.Base.{
  ℕ, ◌+◌, ◌≢◌, ap, arith, ℤ, pos, negsuc, map, ◌≡◌, refl, none, some, [], ◌∷◌, Bytes, if◌then◌else◌,
  bytes_eq,
}
use minishell.Environment.Defs.{
  Env, env_get, env_update, env_delete, search_node, key_eq, env_to_envp, init_vals,
}
use minishell.Environment.Defaults.{
  int_max, suc_ℤ, add_env_defaults, defaulted, env_get-add_env_defaults,
}
use minishell.Environment.Exported.{AreNames, with_value, init_vals-env_to_envp}
use minishell.Utils.{is_valid_var_name, is_name_start, is_name_body}
use minishell.Environment.Lookup.{env_get-env_update}
use minishell.Environment.Unique.{IsUnique, env_update-IsUnique, env_delete_lem}
use minishell.Libft.{concrete}
use minishell.Samples.{codes}

abbrev vals : Env
vals =
    record { key = codes "HOME"; val = some (codes "/root") }
    ∷ record { key = codes "PWD"; val = some (codes "/tmp") }
    ∷ record { key = codes "A"; val = none }
    ∷ []

vals-IsUnique : IsUnique concrete vals
unfolding search_node key_eq
vals-IsUnique = (refl, (refl, (refl, tt)))

env_get-env_update_example :
    env_get concrete (env_update concrete vals (codes "PWD") (some (codes "/"))) (codes "PWD")
    ≡ some (codes "/")
env_get-env_update_example =
    env_get-env_update concrete vals (codes "PWD") (some (codes "/")) (codes "PWD")

env_update-IsUnique_example : IsUnique concrete (env_update concrete vals (codes "B") none)
env_update-IsUnique_example = env_update-IsUnique concrete vals (codes "B") none vals-IsUnique

env_delete_lem_example :
    IsUnique concrete (env_delete concrete vals (codes "PWD"))
    × ((j : Bytes)
        → env_get concrete (env_delete concrete vals (codes "PWD")) j
          ≡ (if bytes_eq (codes "PWD") j then none else env_get concrete vals j))
env_delete_lem_example = env_delete_lem concrete vals (codes "PWD") vals-IsUnique

abbrev nested : Env
nested = record { key = codes "SHLVL"; val = some (codes "41") } ∷ vals

abbrev magnitude : ℤ → ℕ
magnitude (pos n) = n
magnitude (negsuc n) = n + 1

room : concrete.atoi (codes "41") ≢ pos int_max
room e = let same : 41 ≡ 2147483647 = ap magnitude e in omega (arith, same)

env_get-add_env_defaults_example :
    env_get concrete (add_env_defaults concrete (codes "/") nested) (codes "SHLVL")
    ≡ defaulted concrete (codes "/") suc_ℤ nested (codes "SHLVL")
unfolding env_get search_node key_eq
env_get-add_env_defaults_example =
    env_get-add_env_defaults concrete (codes "/") nested (codes "SHLVL") room

-- 41 becomes 42
increased :
    env_get concrete (add_env_defaults concrete (codes "/") nested) (codes "SHLVL")
    ≡ some (codes "42")
unfolding add_env_defaults env_get search_node key_eq minishell.Environment.Defs.env_add env_update
    minishell.Environment.Defs.write_node
increased = refl

vals-AreNames : AreNames concrete vals
unfolding is_valid_var_name is_name_start is_name_body
vals-AreNames = (refl, refl, (refl, refl, (refl, refl, tt)))

init_vals-env_to_envp_example : init_vals concrete [] (env_to_envp vals) ≡ map with_value vals
init_vals-env_to_envp_example = init_vals-env_to_envp concrete vals vals-AreNames
