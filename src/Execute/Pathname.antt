-- ===== src/Execute/Pathname.antt =====
-- The search for a command: srcs/execute/get_pathname.c. The tests of the file system are
-- parameters; allocation is taken to succeed. `none` is the NULL pathname.
use minishell.Base.{
  ◌≡◌, refl, Bool, not, ◌&&◌, ◌||◌, Option, none, some, List, [], ◌∷◌, map, Bytes, ◌==◌,
  if◌then◌else◌, arith,
}
use minishell.Environment.Defaults.{path_key}
use minishell.Environment.Defs.{Env, env_get}
use minishell.Execute.Split.{ft_split_with_empty}
use minishell.Libft.{Libft}
use minishell.Utils.{char_at, is_empty_str}

-- access(path, F_OK) == 0, stat with S_ISREG, and access(path, X_OK) == 0
pub record Files : Type 0 where
  pub exists : Bytes → Bool
  pub is_regular : Bytes → Bool
  pub is_executable : Bytes → Bool

abbrev here : Bytes
here = b'.' ∷ b'/' ∷ []

module _ (lib : Libft) where
  unfoldable pub add_prefix : Bytes → Bytes → Bytes
  add_prefix path pathname = lib.strjoin (lib.strjoin path (b'/' ∷ [])) pathname

  -- the file of this name in a directory of PATH
  abbrev pub candidate : Bytes → Bytes → Bytes
  candidate pathname path =
      if char_at path 0 == 0 then lib.strjoin here pathname else add_prefix path pathname

  module _ (files : Files) where
    abbrev pub is_file : Bytes → Bool
    is_file path = files.exists path && files.is_regular path

    abbrev keep : Option Bytes → Bytes → Option Bytes
    keep none tmp = some tmp
    keep (some found) tmp = some found

    search_loop : List Bytes → Bytes → Option Bytes → Option Bytes
    search_loop [] pathname first_found = first_found
    search_loop (path ∷ paths) pathname first_found =
        let tmp = candidate pathname path in
        let further = search_loop paths pathname first_found in
        let kept = search_loop paths pathname (keep first_found tmp) in
        if not (files.exists tmp) || not (files.is_regular tmp)
        then further
        else if files.is_executable tmp
        then some tmp
        else kept

    unfoldable pub search_in_paths : List Bytes → Bytes → Option Bytes
    unfolding search_loop
    search_in_paths paths pathname = search_loop paths pathname none

    unfoldable pub get_from_current : Bytes → Option Bytes
    get_from_current pathname =
        let tmp = lib.strjoin here pathname in if is_file tmp then some tmp else none

    unfoldable pub get_pathname : Env → Bytes → Option Bytes
    unfolding search_in_paths get_from_current
    get_pathname vals pathname = elim (env_get lib vals path_key) [
      | none ↦ get_from_current pathname
      | some path ↦
          if is_empty_str path
          then get_from_current pathname
          else search_in_paths (ft_split_with_empty lib path b':') pathname
    ]

    -- the first that passes the test
    abbrev pub first_of : (Bytes → Bool) → List Bytes → Option Bytes
    first_of test [] = none
    first_of test (x ∷ xs) = if test x then some x else first_of test xs

    abbrev pub or_else : Option Bytes → Option Bytes → Option Bytes
    or_else none o = o
    or_else (some x) o = some x

    abbrev pub can_run : Bytes → Bool
    can_run path = is_file path && files.is_executable path

    search_loop_lem :
        (paths : List Bytes) (pathname : Bytes) (first_found : Option Bytes)
        → search_loop paths pathname first_found
          ≡ or_else
              (first_of can_run (map (candidate pathname) paths))
              (or_else first_found (first_of is_file (map (candidate pathname) paths)))
    unfolding search_loop
    search_loop_lem [] pathname none = refl
    search_loop_lem [] pathname (some f) = refl
    search_loop_lem (path ∷ paths) pathname none =
        let tmp = candidate pathname path in
        ground
          (arith, search_loop_lem paths pathname none, search_loop_lem paths pathname (some tmp))
    search_loop_lem (path ∷ paths) pathname (some f) =
        ground (arith, search_loop_lem paths pathname (some f))

    -- A command is searched in the directories of PATH, in their order: the first executable
    -- regular file of its name, without one the first regular file, without that nothing.
    pub search_in_paths_lem :
        (paths : List Bytes) (pathname : Bytes)
        → search_in_paths paths pathname
          ≡ or_else
              (first_of can_run (map (candidate pathname) paths))
              (first_of is_file (map (candidate pathname) paths))
    unfolding search_in_paths
    search_in_paths_lem paths pathname = search_loop_lem paths pathname none
