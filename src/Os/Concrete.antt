-- ===== src/Os/Concrete.antt =====
-- A system that meets the laws: a table of eight descriptors, files by their names, and children that
-- run when they are forked and wait to be reaped.
use minishell.Base.{
  ℕ, zero, suc, ◌+◌, ◌-◌, ◌<◌, ◌≡◌, ◌≢◌, refl, sym, ap, ◌∙◌, Bool, true, false, Option, none, some,
  List, [], ◌∷◌, ◌++◌, Bytes, ◌==◌, if◌then◌else◌, length, arith, Bool-cases, Option-cases, inl,
  inr,
}
use minishell.Os.Interface.{
  Os, OpenMode, WaitStatus, exited, Waited, reaped, eintr, echild, ran, no_entry,
}

-- the descriptors, the names of files that cannot be opened, and the children
pub record Machine : Type 0 where
  pub table : ℕ → Option Bytes
  pub missing : Bytes → Bool
  pub children : List (ℕ × WaitStatus)
  pub next_pid : ℕ

abbrev set_at : Machine → ℕ → Option Bytes → Machine
set_at w n f = record w { table = λ j. if j == n then f else w.table j }

abbrev is_free : Option Bytes → Bool
is_free none = true
is_free (some f) = false

-- the lowest descriptor from this one on that is free
abbrev lowest : ℕ → ℕ → (ℕ → Option Bytes) → Option ℕ
lowest zero i table = none
lowest (suc left) i table =
    let rest = lowest left (i + 1) table in if is_free (table i) then some i else rest

lowest-some :
    (left i : ℕ) (table : ℕ → Option Bytes) (n : ℕ) → lowest left i table ≡ some n → table n ≡ none
lowest-some zero i table n h = cc
lowest-some (suc left) i table n h = elim (Option-cases (table i)) [
  | inl free ↦ ground arith
  | inr (f, taken) ↦ ground (arith, lowest-some left (i + 1) table n)
]

abbrev fresh : Machine → Option ℕ
fresh w = lowest 8 0 w.table

abbrev take_free : Machine → Bytes → Option ℕ → Machine × Option ℕ
take_free w f none = (w, none)
take_free w f (some n) = (set_at w n (some f), some n)

take_free-some :
    (w w' : Machine) (f : Bytes) (o : Option ℕ) (n : ℕ)
    → take_free w f o ≡ (w', some n)
    → (o ≡ some n) × ((j : ℕ) → w'.table j ≡ (if j == n then some f else w.table j))
take_free-some w w' f none n h = cc (ap (λ (p : Machine × Option ℕ). p.1) h)
take_free-some w w' f (some m) n h =
    let e : m ≡ n = cc (ap (λ (p : Machine × Option ℕ). p.1) h) in
    (ap some e, λ j. sym (ap (λ (p : Machine × Option ℕ). p.0.table j) h) ∙ rw e refl)

abbrev open_at : Machine → Bytes → OpenMode → Machine × Option ℕ
open_at w path mode = if w.missing path then (w, none) else take_free w path (fresh w)

abbrev dup_of : Machine → Option Bytes → Machine × Option ℕ
dup_of w none = (w, none)
dup_of w (some f) = take_free w f (fresh w)

abbrev dup2_of : Machine → Option Bytes → ℕ → Machine × Bool
dup2_of w none m = (w, false)
dup2_of w (some f) m = (set_at w m (some f), true)

abbrev end_of : Machine → Machine → ℕ → Option ℕ → Machine × Option (ℕ × ℕ)
end_of w w' r none = (w, none)
end_of w w' r (some s) = (set_at w' s (some (b'|' ∷ [])), some (r, s))

abbrev pipe_of : Machine → Option ℕ → Machine × Option (ℕ × ℕ)
pipe_of w none = (w, none)
pipe_of w (some r) = let w' = set_at w r (some (b'|' ∷ [])) in end_of w w' r (fresh w')

abbrev wait_of : Machine → List (ℕ × WaitStatus) → Machine × Waited
wait_of w [] = (w, echild)
wait_of w ((pid, status) ∷ others) = (record w { children = others }, reaped pid status)

fresh-some : (w : Machine) (n : ℕ) → fresh w ≡ some n → w.table n ≡ none
fresh-some w n h = lowest-some 8 0 w.table n h

opened :
    (w w' : Machine) (f : Bytes) (n : ℕ)
    → take_free w f (fresh w) ≡ (w', some n)
    → (w.table n ≡ none)
      × (w'.table n ≢ none)
      × ((j : ℕ) → (j == n) ≡ false → w'.table j ≡ w.table j)
opened w w' f n h =
    let (free, table) = take_free-some w w' f (fresh w) n h in
    (fresh-some w n free, λ e. ground (arith, table n), λ j d. ground (arith, table j))

pub open_at-some :
    (w w' : Machine) (path : Bytes) (mode : OpenMode) (n : ℕ)
    → open_at w path mode ≡ (w', some n)
    → (w.table n ≡ none)
      × (w'.table n ≢ none)
      × ((j : ℕ) → (j == n) ≡ false → w'.table j ≡ w.table j)
open_at-some w w' path mode n h = elim (Bool-cases (w.missing path)) [
  | inl gone ↦ cc (ap (λ (p : Machine × Option ℕ). p.1) (rw gone at h))
  | inr there ↦ opened w w' path n (rw there at h)
]

take_free-none :
    (w w' : Machine) (f : Bytes) (o : Option ℕ)
    → take_free w f o ≡ (w', none)
    → (j : ℕ) → w'.table j ≡ w.table j
take_free-none w w' f none h j = sym (ap (λ (p : Machine × Option ℕ). p.0.table j) h)
take_free-none w w' f (some m) h j = cc (ap (λ (p : Machine × Option ℕ). p.1) h)

pub open_at-none :
    (w w' : Machine) (path : Bytes) (mode : OpenMode)
    → open_at w path mode ≡ (w', none)
    → (j : ℕ) → w'.table j ≡ w.table j
open_at-none w w' path mode h j = elim (Bool-cases (w.missing path)) [
  | inl gone ↦ sym (ap (λ (p : Machine × Option ℕ). p.0.table j) (rw gone at h))
  | inr there ↦ take_free-none w w' path (fresh w) (rw there at h) j
]

pub dup_of-some :
    (w w' : Machine) (o : Option Bytes) (m : ℕ)
    → dup_of w o ≡ (w', some m)
    → (o ≢ none) × (w.table m ≡ none) × ((j : ℕ) → w'.table j ≡ (if j == m then o else w.table j))
dup_of-some w w' none m h = cc (ap (λ (p : Machine × Option ℕ). p.1) h)
dup_of-some w w' (some f) m h =
    let (free, table) = take_free-some w w' f (fresh w) m h in (λ e. cc, fresh-some w m free, table)

pub dup2_of-true :
    (w w' : Machine) (o : Option Bytes) (m : ℕ)
    → dup2_of w o m ≡ (w', true)
    → (o ≢ none) × ((j : ℕ) → w'.table j ≡ (if j == m then o else w.table j))
dup2_of-true w w' none m h = cc (ap (λ (p : Machine × Bool). p.1) h)
dup2_of-true w w' (some f) m h = (λ e. cc, λ j. sym (ap (λ (p : Machine × Bool). p.0.table j) h))

end_of-some :
    (w w1 w' : Machine) (r0 r s : ℕ) (o : Option ℕ)
    → end_of w w1 r0 o ≡ (w', some (r, s))
    → (o ≡ some s)
      × (r0 ≡ r)
      × ((j : ℕ) → w'.table j ≡ (if j == s then some (b'|' ∷ []) else w1.table j))
end_of-some w w1 w' r0 r s none h = cc (ap (λ (p : Machine × Option (ℕ × ℕ)). p.1) h)
end_of-some w w1 w' r0 r s (some s0) h =
    let e = ap (λ (p : Machine × Option (ℕ × ℕ)). p.1) h in
    let es : s0 ≡ s = ground arith in
    (
      ap some es,
      ground arith,
      λ j. sym (ap (λ (p : Machine × Option (ℕ × ℕ)). p.0.table j) h) ∙ rw es refl,
    )

pub pipe_of-some :
    (w w' : Machine) (r s : ℕ) (o : Option ℕ)
    → pipe_of w o ≡ (w', some (r, s))
    → o ≡ fresh w
    → ((r == s) ≡ false)
      × (w.table r ≡ none)
      × (w.table s ≡ none)
      × (w'.table r ≢ none)
      × (w'.table s ≢ none)
      × ((j : ℕ) → (j == r) ≡ false → (j == s) ≡ false → w'.table j ≡ w.table j)
pipe_of-some w w' r s none h o = cc (ap (λ (p : Machine × Option (ℕ × ℕ)). p.1) h)
pipe_of-some w w' r s (some r0) h o =
    let w1 = set_at w r0 (some (b'|' ∷ [])) in
    let (free2, er, table) = end_of-some w w1 w' r0 r s (fresh w1) h in
    let free1 : w.table r0 ≡ none = fresh-some w r0 (sym o) in
    let free1' : w.table r ≡ none = rw (← er) free1 in
    let free2' : w1.table s ≡ none = fresh-some w1 s free2 in
    (
      ground arith,
      free1',
      ground arith,
      λ e. ground (arith, table r),
      λ e. ground (arith, table s),
      λ j d1 d2. ground (arith, table j),
    )

end_of-none :
    (w w1 w' : Machine) (r : ℕ) (o : Option ℕ)
    → end_of w w1 r o ≡ (w', none)
    → (j : ℕ) → w'.table j ≡ w.table j
end_of-none w w1 w' r none h j = sym (ap (λ (p : Machine × Option (ℕ × ℕ)). p.0.table j) h)
end_of-none w w1 w' r (some s) h j = cc (ap (λ (p : Machine × Option (ℕ × ℕ)). p.1) h)

pub pipe_of-none :
    (w w' : Machine) (o : Option ℕ) → pipe_of w o ≡ (w', none) → (j : ℕ) → w'.table j ≡ w.table j
pipe_of-none w w' none h j = sym (ap (λ (p : Machine × Option (ℕ × ℕ)). p.0.table j) h)
pipe_of-none w w' (some r) h j = end_of-none w _ w' r _ h j

pub file_at-wait_of :
    (w : Machine) (l : List (ℕ × WaitStatus)) (j : ℕ) → (wait_of w l).0.table j ≡ w.table j
file_at-wait_of w [] j = refl
file_at-wait_of w (c ∷ l) j = refl

pub wait_of-reaped :
    (w w' : Machine) (l : List (ℕ × WaitStatus)) (pid : ℕ) (status : WaitStatus)
    → wait_of w l ≡ (w', reaped pid status)
    → l ≡ w.children
    → length w'.children < length w.children
wait_of-reaped w w' [] pid status h e = cc (ap (λ (p : Machine × Waited). p.1) h)
wait_of-reaped w w' ((pid0, status0) ∷ l) pid status h e =
    let less = ap (λ (p : Machine × Waited). length p.0.children) h in
    omega (arith, ap length e, less)

pub wait_of-eintr :
    (w w' : Machine) (l : List (ℕ × WaitStatus))
    → wait_of w l ≡ (w', eintr)
    → length w'.children < length w.children
wait_of-eintr w w' [] h = cc (ap (λ (p : Machine × Waited). p.1) h)
wait_of-eintr w w' (c ∷ l) h = cc (ap (λ (p : Machine × Waited). p.1) h)

abbrev pub machine : Os
machine = record {
  World = Machine;
  File = Bytes;
  file_at = λ w j. w.table j;
  open_file = open_at;
  close = λ w n. set_at w n none;
  dup = λ w n. dup_of w (w.table n);
  dup2 = λ w n m. dup2_of w (w.table n) m;
  pipe = λ w. pipe_of w (fresh w);
  fork = λ w child. (
    record w { children = w.children ++ ((w.next_pid, child w) ∷ []); next_pid = w.next_pid + 1 },
    some w.next_pid,
  );
  -- a program ends with the number of its arguments
  execve = λ w path argv envp. if w.missing path then no_entry else ran (exited (length argv - 1));
  waitpid = λ w. wait_of w w.children;
  pending = λ w. length w.children;
  file_at-close = λ w n j. refl;
  open_file-some = open_at-some;
  open_file-none = open_at-none;
  dup-some = λ w w' n m h. dup_of-some w w' (w.table n) m h;
  dup2-true = λ w w' n m h. dup2_of-true w w' (w.table n) m h;
  pipe-some = λ w w' r s h. pipe_of-some w w' r s (fresh w) h refl;
  pipe-none = λ w w' h. pipe_of-none w w' (fresh w) h;
  file_at-fork = λ w child j. refl;
  file_at-waitpid = λ w j. file_at-wait_of w w.children j;
  pending-reaped = λ w w' pid status h. wait_of-reaped w w' w.children pid status h refl;
  pending-eintr = λ w w' h. wait_of-eintr w w' w.children h;
}
