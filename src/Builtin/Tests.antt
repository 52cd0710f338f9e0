-- ===== src/Builtin/Tests.antt =====
-- Runs over concrete arguments.
use minishell.Base.{
  ◌≡◌, ◌↔◌, refl, true, inl, inr, not, ◌&&◌, none, some, List, [], ◌∷◌, ◌++◌, Bytes, if◌then◌else◌,
  bytes_eq,
}
use minishell.Builtin.Echo.{echo, newline_unless, echo_lem}
use minishell.Builtin.Export.{add_args_to_env, all_identifiers, exported, add_args_to_env_lem}
use minishell.Builtin.Exit.{goes_on, exits, ft_isnumber, builtin_exit}
use minishell.Builtin.Listing.{env, lines, valued, env-env_to_envp}
use minishell.Builtin.Number.{IsNumber, ft_isnumber_iff}
use minishell.Builtin.Unset.{unset, is_listed, unset_lem}
use minishell.Environment.Defaults.{shlvl_key}
use minishell.Environment.Defs.{Env, env_get, env_to_envp, search_node, key_eq}
use minishell.Environment.Unique.{IsUnique}
use minishell.Execute.Split.{join}
use minishell.Libft.{concrete}
use minishell.Samples.{codes, ctx}

abbrev vals : Env
vals =
    record { key = codes "SHLVL"; val = some (codes "1") }
    ∷ record { key = codes "A"; val = some (codes "x") }
    ∷ []

vals-IsUnique : IsUnique concrete vals
unfolding search_node key_eq
vals-IsUnique = (refl, (refl, tt))

abbrev words : List Bytes
words = codes "A" ∷ codes "SHLVL" ∷ []

unset_lem_example :
    (let (vals', status) = unset concrete vals words in
      (status ≡ 0)
      × IsUnique concrete vals'
      × ((j : Bytes)
          → env_get concrete vals' j ≡ (
              if is_listed concrete j words && not (bytes_eq j shlvl_key)
              then none
              else env_get concrete vals j)))
unset_lem_example = unset_lem concrete vals words vals-IsUnique

abbrev assignments : List Bytes
assignments = codes "A=y" ∷ codes "1=z" ∷ []

add_args_to_env_lem_example :
    (let (vals', status) = add_args_to_env concrete vals assignments in
      (status ≡ (if all_identifiers concrete assignments then 0 else 1))
      × (IsUnique concrete vals → IsUnique concrete vals')
      × ((j : Bytes)
          → env_get concrete vals' j ≡ exported concrete assignments j (env_get concrete vals j)))
add_args_to_env_lem_example = add_args_to_env_lem concrete vals assignments

echo_lem_example :
    echo (codes "echo" ∷ (codes "-nn" ∷ []) ++ (codes "a" ∷ codes "b" ∷ []))
    ≡ join b' ' (codes "a" ∷ codes "b" ∷ []) ++ newline_unless (codes "-nn" ∷ [])
echo_lem_example =
    echo_lem (codes "echo") (codes "-nn" ∷ []) (codes "a" ∷ codes "b" ∷ []) (refl, tt) refl

-- " -12 "
minus_twelve : IsNumber concrete (codes " -12 ")
minus_twelve = record {
  lead = codes " ";
  sign = codes "-";
  digit = b'1';
  digits = codes "2";
  trail = codes " ";
  splits = refl;
  lead_so = (refl, tt);
  sign_so = inr (inl refl);
  digits_so = (refl, (refl, tt));
  trail_so = (refl, tt);
}

ft_isnumber_iff_example :
    (ft_isnumber concrete (codes " -12 ") ≡ true) ↔ IsNumber concrete (codes " -12 ")
ft_isnumber_iff_example = ft_isnumber_iff concrete (codes " -12 ")

-- a first argument that is no number, and one that is
refused :
    builtin_exit concrete (ctx "" []) (codes "x1" ∷ codes "2" ∷ [])
    ≡ goes_on (record (ctx "" []) { should_exit = true }) 2
unfolding builtin_exit
refused = refl

ended : builtin_exit concrete (ctx "" []) (codes "-12" ∷ []) ≡ exits 244
unfolding builtin_exit
ended = refl

env-env_to_envp_example : (env vals).0 ≡ lines (env_to_envp (valued vals))
env-env_to_envp_example = env-env_to_envp vals

prints_values : (env vals).0 ≡ codes "SHLVL=1\nA=x\n"
unfolding env
prints_values = refl
