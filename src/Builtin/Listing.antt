-- ===== src/Builtin/Listing.antt =====
-- What env, pwd, and export without arguments print: srcs/builtin/env.c, pwd.c and builtin_export.c.
-- The results are what they write to the standard output, and the status; the working directory is
-- a parameter.
use minishell.Base.{ℕ, ◌≡◌, refl, sym, ap, ◌∙◌, Option, none, some, List, [], ◌∷◌, ◌++◌, Bytes}
use mathlib.Core.List.{append_assoc}
use minishell.Builtin.Export.{add_args_to_env}
use minishell.Environment.Defaults.{pwd_key}
use minishell.Environment.Defs.{Env, env_get, env_to_envp}
use minishell.Libft.{Libft}
use minishell.Types.{EnvContent}

unfoldable pub print_value : Bytes → Option Bytes → Bytes
print_value key none = []
print_value key (some val) = key ++ (b'=' ∷ (val ++ (b'\n' ∷ [])))

-- ft_lstiter with print_val
unfoldable pub print_values : Env → Bytes
unfolding print_value
print_values [] = []
print_values (content ∷ vals) = print_value content.key content.val ++ print_values vals

unfoldable pub env : Env → Bytes × ℕ
unfolding print_values
env [] = ([], 1)
env (content ∷ vals) = (print_values (content ∷ vals), 0)

-- "declare -x "
abbrev declare : Bytes
declare = b'd' ∷ b'e' ∷ b'c' ∷ b'l' ∷ b'a' ∷ b'r' ∷ b'e' ∷ b' ' ∷ b'-' ∷ b'x' ∷ b' ' ∷ []

unfoldable pub print_declared : Bytes → Option Bytes → Bytes
print_declared key none = declare ++ (key ++ (b'\n' ∷ []))
print_declared key (some val) = declare ++ (key ++ (b'=' ∷ b'"' ∷ (val ++ (b'"' ∷ b'\n' ∷ []))))

unfoldable pub print_all_declared : Env → Bytes
unfolding print_declared
print_all_declared [] = []
print_all_declared (content ∷ vals) =
    print_declared content.key content.val ++ print_all_declared vals

module _ (lib : Libft) where
  -- on the arguments behind the name
  unfoldable pub builtin_export : Env → List Bytes → Env × Bytes × ℕ
  unfolding print_all_declared
  builtin_export vals [] = (vals, print_all_declared vals, 0)
  builtin_export vals (word ∷ words) =
      let (vals', status) = add_args_to_env lib vals (word ∷ words) in (vals', [], status)

  unfoldable pub get_pwd : Option Bytes → Env → Option Bytes
  get_pwd cwd vals = elim (env_get lib vals pwd_key) [ none ↦ cwd | some value ↦ some value ]

  unfoldable pub pwd : Option Bytes → Env → Bytes × ℕ
  unfolding get_pwd
  pwd cwd vals = elim (get_pwd cwd vals) [
    | none ↦ ([], 1)
    | some value ↦ (value ++ (b'\n' ∷ []), 0)
  ]

-- each string on a line
abbrev pub lines : List Bytes → Bytes
lines [] = []
lines (s ∷ rest) = s ++ (b'\n' ∷ lines rest)

abbrev keep_valued : EnvContent → Option Bytes → Env → Env
keep_valued content none vals = vals
keep_valued content (some val) vals = record { key = content.key; val = some val } ∷ vals

-- the variables that have a value
abbrev pub valued : Env → Env
valued [] = []
valued (content ∷ vals) = keep_valued content content.val (valued vals)

print_value-lines :
    (content : EnvContent) (o : Option Bytes) (vals : Env)
    → print_value content.key o ++ lines (env_to_envp vals)
      ≡ lines (env_to_envp (keep_valued content o vals))
unfolding print_value env_to_envp
print_value-lines content none vals = refl
print_value-lines content (some val) vals =
    let rest = lines (env_to_envp vals) in
    append_assoc content.key (b'=' ∷ (val ++ (b'\n' ∷ []))) rest
    ∙ ap (λ l. content.key ++ (b'=' ∷ l)) (append_assoc val (b'\n' ∷ []) rest)
    ∙ sym (append_assoc content.key (b'=' ∷ val) (b'\n' ∷ rest))

print_values-lines : (vals : Env) → print_values vals ≡ lines (env_to_envp (valued vals))
unfolding print_values env_to_envp
print_values-lines [] = refl
print_values-lines (content ∷ vals) =
    ap (λ l. print_value content.key content.val ++ l) (print_values-lines vals)
    ∙ print_value-lines content content.val (valued vals)

-- env prints, each on a line, the strings that env_to_envp makes of the variables that have a value.
pub env-env_to_envp : (vals : Env) → (env vals).0 ≡ lines (env_to_envp (valued vals))
unfolding env env_to_envp
env-env_to_envp [] = refl
env-env_to_envp (content ∷ vals) = print_values-lines (content ∷ vals)
