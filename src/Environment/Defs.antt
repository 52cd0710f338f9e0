-- ===== src/Environment/Defs.antt =====
-- srcs/environment and ft_split_key_value.c of srcs/builtin: the list of variables. Allocation is
-- taken to succeed, and so env_add does.
use minishell.Base.{
  ℕ, suc, ◌+◌, Bool, true, false, Option, none, some, List, [], ◌∷◌, ◌++◌, Bytes, ◌==◌,
  if◌then◌else◌, length, drop,
}
use minishell.Libft.{Libft}
use minishell.Types.{EnvContent}
use minishell.Utils.{char_at, strn_eq, is_valid_var_name}

abbrev pub Env : Type 0
Env = List EnvContent

-- the bytes before the first `del`, or before the end
unfoldable pub word_len : Bytes → ℕ → ℕ
word_len [] del = 0
word_len (c ∷ s) del = if c == del then 0 else suc (word_len s del)

unfoldable pub join_key_value : EnvContent → Bytes
join_key_value content = content.key ++ (b'=' ∷ (elim content.val [ none ↦ [] | some val ↦ val ]))

unfoldable pub env_to_envp : Env → List Bytes
unfolding join_key_value
env_to_envp [] = []
env_to_envp (content ∷ vals) = join_key_value content ∷ env_to_envp vals

module _ (lib : Libft) where
  unfoldable pub ft_split_key_value : Bytes → ℕ → Bytes × Option Bytes
  unfolding word_len
  ft_split_key_value s c =
      let len = word_len s c in
      let rest = drop (len + 1) s in
      (
        lib.substr s 0 len,
        if char_at s len == b'=' then some (lib.substr rest 0 (length rest)) else none,
      )

  -- `ft_strncmp(node's key, key, ft_strlen(key) + 1) == EQUAL`
  unfoldable pub key_eq : Bytes → Bytes → Bool
  key_eq node_key key = strn_eq lib node_key key (length key + 1)

  -- a variable without a value is as good as none
  unfoldable pub env_get : Env → Bytes → Option Bytes
  env_get [] key = none
  env_get (node ∷ vals) key = if key_eq node.key key then node.val else env_get vals key

  unfoldable pub env_add : Env → Bytes → Option Bytes → Env
  env_add vals key value = lib.lstadd_back EnvContent vals (record { key = key; val = value })

  unfoldable pub search_node : Env → Bytes → Bool
  search_node [] key = false
  search_node (node ∷ vals) key = if key_eq node.key key then true else search_node vals key

  -- the writes to the node that search_node returns, the first with this key
  unfoldable pub write_node : Env → Bytes → Bytes → Env
  write_node [] key value = []
  write_node (node ∷ vals) key value =
      if key_eq node.key key
      then record { key = key; val = some value } ∷ vals
      else node ∷ write_node vals key value

  abbrev write_value : Env → Bytes → Option Bytes → Env
  write_value vals key none = vals
  write_value vals key (some value) = write_node vals key value

  unfoldable pub env_update : Env → Bytes → Option Bytes → Env
  env_update vals key value =
      if search_node vals key then write_value vals key value else env_add vals key value

  unfoldable pub env_delete : Env → Bytes → Env
  env_delete [] key = []
  env_delete (node ∷ vals) key = if key_eq node.key key then vals else node ∷ env_delete vals key

  -- the strings of envp that are no assignments to a name are passed over
  unfoldable pub init_vals : Env → List Bytes → Env
  init_vals vals [] = vals
  init_vals vals (entry ∷ envp) =
      let (name, value) = ft_split_key_value entry b'=' in
      init_vals (if is_valid_var_name lib name then env_add vals name value else vals) envp
