-- ===== src/Os/Interface.antt =====
-- What the shell takes from the system: its table of descriptors, its child processes, and the files
-- that it opens. A parameter of every definition that calls it; the laws state what POSIX says of
-- the calls. -1 is `none`.
use minishell.Base.{
  ℕ, ◌<◌, ◌≡◌, ◌≢◌, Bool, true, false, Option, none, some, List, Bytes, ◌==◌, if◌then◌else◌,
}

-- O_RDONLY, O_CREAT | O_WRONLY | O_TRUNC, O_CREAT | O_WRONLY | O_APPEND
pub data OpenMode : Type 0 where
  read_only truncating appending : OpenMode

-- the status of a child that has ended: WEXITSTATUS, WTERMSIG
pub data WaitStatus : Type 0 where
  exited : ℕ → WaitStatus
  signaled : ℕ → WaitStatus

-- what a waitpid gives: a child and its status, or -1 with EINTR, ECHILD or another errno
pub data Waited : Type 0 where
  reaped : ℕ → WaitStatus → Waited
  eintr : Waited
  echild : Waited
  wait_failed : Waited

-- what an execve comes to: the status with which the program ends, or ENOENT or another errno
pub data Executed : Type 0 where
  ran : WaitStatus → Executed
  no_entry : Executed
  exec_failed : Executed

pub record Os : Type 1 where
  pub World : Type 0
  pub File : Type 0
  -- the open file behind a descriptor of the shell
  pub file_at : World → ℕ → Option File
  pub open_file : World → Bytes → OpenMode → World × Option ℕ
  pub close : World → ℕ → World
  pub dup : World → ℕ → World × Option ℕ
  pub dup2 : World → ℕ → ℕ → World × Bool
  pub pipe : World → World × Option (ℕ × ℕ)
  -- the child's part is a function of its own world
  pub fork : World → (World → WaitStatus) → World × Option ℕ
  pub execve : World → Bytes → List Bytes → List Bytes → Executed
  pub waitpid : World → World × Waited
  -- at most so many calls of waitpid give a child or are interrupted
  pub pending : World → ℕ
  pub file_at-close :
      (w : World) (n j : ℕ) → file_at (close w n) j ≡ (if j == n then none else file_at w j)
  pub open_file-some :
      (w w' : World) (path : Bytes) (mode : OpenMode) (n : ℕ)
      → open_file w path mode ≡ (w', some n)
      → (file_at w n ≡ none)
        × (file_at w' n ≢ none)
        × ((j : ℕ) → (j == n) ≡ false → file_at w' j ≡ file_at w j)
  pub open_file-none :
      (w w' : World) (path : Bytes) (mode : OpenMode)
      → open_file w path mode ≡ (w', none)
      → (j : ℕ) → file_at w' j ≡ file_at w j
  pub dup-some :
      (w w' : World) (n m : ℕ)
      → dup w n ≡ (w', some m)
      → (file_at w n ≢ none)
        × (file_at w m ≡ none)
        × ((j : ℕ) → file_at w' j ≡ (if j == m then file_at w n else file_at w j))
  pub dup2-true :
      (w w' : World) (n m : ℕ)
      → dup2 w n m ≡ (w', true)
      → (file_at w n ≢ none)
        × ((j : ℕ) → file_at w' j ≡ (if j == m then file_at w n else file_at w j))
  pub pipe-some :
      (w w' : World) (r s : ℕ)
      → pipe w ≡ (w', some (r, s))
      → ((r == s) ≡ false)
        × (file_at w r ≡ none)
        × (file_at w s ≡ none)
        × (file_at w' r ≢ none)
        × (file_at w' s ≢ none)
        × ((j : ℕ) → (j == r) ≡ false → (j == s) ≡ false → file_at w' j ≡ file_at w j)
  pub pipe-none : (w w' : World) → pipe w ≡ (w', none) → (j : ℕ) → file_at w' j ≡ file_at w j
  pub file_at-fork :
      (w : World) (child : World → WaitStatus) (j : ℕ) → file_at (fork w child).0 j ≡ file_at w j
  pub file_at-waitpid : (w : World) (j : ℕ) → file_at (waitpid w).0 j ≡ file_at w j
  pub pending-reaped :
      (w w' : World) (pid : ℕ) (status : WaitStatus)
      → waitpid w ≡ (w', reaped pid status)
      → pending w' < pending w
  pub pending-eintr : (w w' : World) → waitpid w ≡ (w', eintr) → pending w' < pending w
