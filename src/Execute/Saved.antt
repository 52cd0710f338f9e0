-- ===== src/Execute/Saved.antt =====
-- What save_fds, replace_io and reset_to_saved_fd of srcs/builtin/execute_builtin.c do to the
-- table of descriptors, and what is left of it when one has run behind the other.
use minishell.Base.{ℕ, ◌≡◌, ◌≢◌, refl, false, Option, none, some, ◌==◌, arith}
use minishell.Execute.Held.{ft_close_fd-none}
use minishell.Execute.InShell.{save_fd, save_fds, dup_or_end, replace_io, reset_to_saved_fd}
use minishell.Execute.Process.{Process, ft_close_fd}
use minishell.Execute.Returns.{Returns, Returns-bind}
use minishell.Libft.{Libft}
use minishell.Os.{Os}
use minishell.Execute.Tables.{
  with_file, with_file?, HasTable, Fits, Saved, save_fd-Saved, doubled, dup_or_end-HasTable,
  ft_close_fd-HasTable, apart, IsHigh, AreApart,
}

module _ (lib : Libft) (os : Os) where
  -- the table behind save_fds, and at the end of execute
  abbrev pub behind :
      (ℕ → Option os.File) → Option ℕ → Option ℕ → Option ℕ → Option ℕ → ℕ → Option os.File
  behind t2 a b s0 s1 =
      let t3 = with_file? (doubled lib os t2 a 0) a none in
      let t4 = with_file? (doubled lib os t3 b 1) b none in
      let t5 = doubled lib os (doubled lib os t4 s0 0) s1 1 in
      with_file? (with_file? t5 s0 none) s1 none

  abbrev around :
      (ℕ → Option os.File) → Option ℕ → Option ℕ → Option ℕ → Option ℕ → ℕ → Option os.File
  around t a b s0 s1 = let t1 = with_file? t s0 (t 0) in behind (with_file? t1 s1 (t1 1)) a b s0 s1

  around_one :
      (t : ℕ → Option os.File) (fd m j : ℕ) (n : ℕ)
      → t m ≡ none
      → (m == n) ≡ false
      → (m == fd) ≡ false
      → (fd == n) ≡ false
      → with_file?
          (doubled lib os
            (with_file? (doubled lib os (with_file t m (t n)) (some fd) n) (some fd) none)
            (some m)
            n)
          (some m)
          none
          j
        ≡ with_file t fd none j
  around_one t fd m j n free mn mf fn = ground arith

  around_two :
      (t : ℕ → Option os.File) (i o m0 m1 j : ℕ)
      → t m0 ≡ none
      → t m1 ≡ none
      → (m0 == m1) ≡ false
      → (m0 == 0) ≡ false
      → (m0 == 1) ≡ false
      → (m1 == 0) ≡ false
      → (m1 == 1) ≡ false
      → (m0 == i) ≡ false
      → (m0 == o) ≡ false
      → (m1 == i) ≡ false
      → (m1 == o) ≡ false
      → (i == 0) ≡ false
      → (i == 1) ≡ false
      → (o == 0) ≡ false
      → (o == 1) ≡ false
      → (i == o) ≡ false
      → around t (some i) (some o) (some m0) (some m1) j
        ≡ with_file? (with_file? t (some i) none) (some o) none j
  around_two t i o m0 m1 j f0 f1 d a b c e a' b' c' e' a2 b2 c2 e2 d2 = ground arith

  pub around_lem :
      (t : ℕ → Option os.File) (a b s0 s1 : Option ℕ) (j : ℕ)
      → t 1 ≢ none
      → Fits lib os t a 0 s0
      → Fits lib os (with_file? t s0 (t 0)) b 1 s1
      → IsHigh lib os t a
      → IsHigh lib os t b
      → AreApart lib os a b
      → around t a b s0 s1 j ≡ with_file? (with_file? t a none) b none j
  around_lem t none none s0 s1 j open1 e0 e1 ha hb d = rw (e0, e1) refl
  around_lem t (some i) none s0 s1 j open1 (m, e0, free, there) e1 (open_i, i0, i1) hb d =
      rw (e0, e1)
        (around_one t i m j 0 free (apart lib os t m 0 free there) (apart lib os t m i free open_i)
          i0)
  around_lem t none (some o) s0 s1 j open1 e0 (m, e1, free, there) ha (open_o, o0, o1) d =
      let free' : t m ≡ none = rw e0 at free in
      let there' : t 1 ≢ none = rw e0 at there in
      rw (e0, e1)
        (around_one t o m j 1 free' (apart lib os t m 1 free' there')
          (apart lib os t m o free' open_o) o1)
  around_lem t (some i) (some o) s0 s1 j open1 (m0, e0, free0, there0) (m1, e1, free1, there1) ha hb
        d =
      let (open_i, i0, i1) = ha in
      let (open_o, o0, o1) = hb in
      let t1 = with_file t m0 (t 0) in
      let free : t1 m1 ≡ none = rw e0 at free1 in
      let there : t1 1 ≢ none = rw e0 at there1 in
      let m00 = apart lib os t m0 0 free0 there0 in
      let m0i = apart lib os t m0 i free0 open_i in
      let m0o = apart lib os t m0 o free0 open_o in
      let self : t1 m0 ≢ none = ground arith in
      let m1m0 = apart lib os t1 m1 m0 free self in
      let m0m1 : (m0 == m1) ≡ false = ground arith in
      let t_m1 : t m1 ≡ none = ground arith in
      let m01 : (m0 == 1) ≡ false = apart lib os t m0 1 free0 open1 in
      let m10 = apart lib os t m1 0 t_m1 there0 in
      rw (e0, e1)
        (around_two t i o m0 m1 j free0 t_m1 m0m1 m00 m01 m10 (apart lib os t1 m1 1 free there) m0i
          m0o (apart lib os t m1 i t_m1 open_i) (apart lib os t m1 o t_m1 open_o) i0 i1 o0 o1 d)

  pub save_fds-Saved :
      (table : ℕ → Option os.File) (p : Process lib os)
      → HasTable lib os table p.world
      → Returns
          (λ (r : Process lib os × Option ℕ × Option ℕ).
            let (p', saved_in, saved_out) = r in
            let t1 = with_file? table saved_in (table 0) in
            (p' ≡ record p { world = p'.world })
            × Fits lib os table p.io_in 0 saved_in
            × Fits lib os t1 p.io_out 1 saved_out
            × HasTable lib os (with_file? t1 saved_out (t1 1)) p'.world)
          (save_fds lib os p)
  unfolding save_fds
  save_fds-Saved table p h =
      Returns-bind (Saved lib os table p.io_in 0) _ (save_fd lib os p.world p.io_in 0) _
        (save_fd-Saved lib os table p.io_in 0 p.world h)
        λ (w1, saved_in) (fits1, h1).
          let t1 = with_file? table saved_in (table 0) in
          Returns-bind (Saved lib os t1 p.io_out 1) _ (save_fd lib os w1 p.io_out 1) _
            (save_fd-Saved lib os t1 p.io_out 1 w1 h1)
            λ (w2, saved_out) (fits2, h2). (refl, fits1, fits2, h2)

  pub replace_io-HasTable :
      (table : ℕ → Option os.File) (p : Process lib os)
      → HasTable lib os table p.world
      → Returns
          (λ (p' : Process lib os).
            let t1 = with_file? (doubled lib os table p.io_in 0) p.io_in none in
            (p' ≡ record p { world = p'.world; io_in = none; io_out = none })
            × HasTable lib os (with_file? (doubled lib os t1 p.io_out 1) p.io_out none) p'.world)
          (replace_io lib os p)
  unfolding replace_io
  replace_io-HasTable table p h =
      let t1 = doubled lib os table p.io_in 0 in
      let t2 = with_file? t1 p.io_in none in
      let t3 = doubled lib os t2 p.io_out 1 in
      Returns-bind (HasTable lib os t1) _ (dup_or_end lib os p.world p.io_in 0) _
        (dup_or_end-HasTable lib os table p.io_in 0 p.world h)
        λ w1 h1.
          let w2 = (ft_close_fd lib os w1 p.io_in).0 in
          Returns-bind (HasTable lib os t3) _ (dup_or_end lib os w2 p.io_out 1) _
            (dup_or_end-HasTable lib os t2 p.io_out 1 w2
              (ft_close_fd-HasTable lib os t1 p.io_in w1 h1))
            λ w3 h3. (
              rw (ft_close_fd-none lib os w1 p.io_in, ft_close_fd-none lib os w3 p.io_out) refl,
              ft_close_fd-HasTable lib os t3 p.io_out w3 h3,
            )

  pub reset_to_saved_fd-HasTable :
      (table : ℕ → Option os.File) (s0 s1 : Option ℕ) (w : os.World)
      → HasTable lib os table w
      → Returns
          (HasTable lib os (
            with_file?
              (with_file? (doubled lib os (doubled lib os table s0 0) s1 1) s0 none)
              s1
              none))
          (reset_to_saved_fd lib os w s0 s1)
  unfolding reset_to_saved_fd
  reset_to_saved_fd-HasTable table s0 s1 w h =
      let t1 = doubled lib os table s0 0 in
      let t2 = doubled lib os t1 s1 1 in
      Returns-bind (HasTable lib os t1) _ (dup_or_end lib os w s0 0) _
        (dup_or_end-HasTable lib os table s0 0 w h)
        λ w1 h1.
          Returns-bind (HasTable lib os t2) _ (dup_or_end lib os w1 s1 1) _
            (dup_or_end-HasTable lib os t1 s1 1 w1 h1)
            λ w2 h2.
              ft_close_fd-HasTable lib os (with_file? t2 s0 none) s1 (ft_close_fd lib os w2 s0).0
                (ft_close_fd-HasTable lib os t2 s0 w2 h2)
