-- ===== src/Execute/Evaluate.antt =====
-- execute_list (srcs/execute/execute_list.c) and an evaluator of one and-or list that passes over
-- its pipelines one by one.
use minishell.Base.{
  ℕ, zero, suc, ◌<◌, ◌≤◌, ◌≡◌, refl, sym, subst, ap, ◌∙◌, Bool, true, false, some, ◌>>=◌, List, [],
  ◌∷◌, if◌then◌else◌, length, arith, Bool-cases, inl, inr, Option,
}
use minishell.Ctx.{Ctx}
use minishell.Execute.AndOr.{runs, IsJoined, pending, Linked, get_next-Goes}
use minishell.Execute.List.{Pipelines, get_next, run_pipeline, list_loop, execute_list}
use minishell.Libft.{Libft}
use minishell.Parser.Nodes.{get_node_from_idx}
use minishell.Types.{Node}

some_if :
    {A : Type 0} (b : Bool) (x y : A) (o : Option A)
    → o ≡ some y
    → (if b then some x else o) ≡ some (if b then x else y)
some_if true x y o e = refl
some_if false x y o e = e

length-pending : (status : ℕ) (ns : List Node) → length (pending status ns) ≤ length ns
length-pending status [] = omega arith
length-pending status (n ∷ ns) = ground (arith, length-pending status ns)

abbrev IsJoinedBehind : List Node → Type 0
IsJoinedBehind [] = Unit
IsJoinedBehind (n ∷ ns) = IsJoined ns

pending-IsJoinedBehind :
    (status : ℕ) (ns : List Node) → IsJoined ns → IsJoinedBehind (pending status ns)
pending-IsJoinedBehind status [] j = tt
pending-IsJoinedBehind status (n ∷ ns) j = elim (Bool-cases (runs status n)) [
  | inl r ↦ rw r j.1
  | inr r ↦ rw r (pending-IsJoinedBehind status ns j.1)
]

module _ (lib : Libft) (pipelines : Pipelines lib) where
  -- The pipelines behind the first: each that its operator lets run is run, until one wants to exit.
  abbrev pub and_or : Ctx lib → List Node → Ctx lib
  and_or c [] = c
  and_or c (n ∷ ns) =
      let c' = run_pipeline lib pipelines c n in
      let after = and_or c' ns in
      let without = and_or c ns in
      if runs c.return_status n then (if c'.should_exit then c' else after) else without

  -- The first pipeline always runs.
  abbrev pub evaluate : Ctx lib → List Node → Ctx lib
  evaluate c [] = c
  evaluate c (n ∷ ns) =
      let c' = run_pipeline lib pipelines c n in if c'.should_exit then c' else and_or c' ns

  and_or-pending :
      (c : Ctx lib) (ns : List Node) → evaluate c (pending c.return_status ns) ≡ and_or c ns
  and_or-pending c [] = refl
  and_or-pending c (n ∷ ns) = elim (Bool-cases (runs c.return_status n)) [
    | inl r ↦ rw r refl
    | inr r ↦ rw r (and_or-pending c ns)
  ]

  -- a pipeline that runs leaves the siblings as they are
  Linked-run :
      (c : Ctx lib) (node : Node) (i : ℕ) (ns : List Node)
      → Linked lib c.commands (lib.get Node c.commands i) ns
      → (let s = (run_pipeline lib pipelines c node).commands in Linked lib s (lib.get Node s i) ns)
  Linked-run c node i [] l = pipelines.no_more_pipelines c node i l
  Linked-run c node i (n ∷ ns) (same, type, l) = (
    pipelines.same_pipelines c node i (rw same type) ∙ same,
    type,
    Linked-run c node n.next_idx ns l,
  )

  list_loop-evaluate :
      (fuel : ℕ) (c : Ctx lib) (node : Node) (ns : List Node)
      → Linked lib c.commands node ns
      → IsJoinedBehind ns
      → length ns < fuel
      → list_loop lib pipelines fuel c node ≡ some (evaluate c ns)
  unfolding list_loop get_node_from_idx
  list_loop-evaluate zero c node ns l j h = absurd (omega arith)
  list_loop-evaluate (suc fuel) c node [] l j h = rw l refl
  list_loop-evaluate (suc fuel) c node (n ∷ ns) l j h =
      let c' = run_pipeline lib pipelines c n in
      let linked = Linked-run c n n.next_idx ns l.2 in
      let (m, e, more) = get_next-Goes lib fuel c' n ns linked j (omega arith) in
      let rec =
        list_loop-evaluate fuel c' m (pending c'.return_status ns) more
          (pending-IsJoinedBehind c'.return_status ns j)
          (omega (arith, length-pending c'.return_status ns)) in
      let step : (get_next lib fuel c' n >>= list_loop lib pipelines fuel c')
          ≡ some (and_or c' ns) =
        rw e (rec ∙ ap some (and_or-pending c' ns)) in
      subst
        (λ x.
          list_loop lib pipelines (suc fuel) c x
          ≡ some (if c'.should_exit then c' else and_or c' ns))
        (sym l.0) (rw l.1 (some_if c'.should_exit c' (and_or c' ns) _ step))

  -- For an and-or list that ends, and more fuel than it has pipelines, execute_list ends in the
  -- context that the evaluator gives: the first pipeline runs, then every one behind && after
  -- status 0 and every one behind || after another status, until one wants to exit.
  pub execute_list-evaluate :
      (fuel : ℕ) (c : Ctx lib) (head_idx : ℕ) (n : Node) (ns : List Node)
      → Linked lib c.commands (get_node_from_idx lib c head_idx) (n ∷ ns)
      → IsJoined ns
      → length (n ∷ ns) < fuel
      → execute_list lib pipelines fuel c head_idx ≡ some (evaluate c (n ∷ ns))
  unfolding execute_list
  execute_list-evaluate fuel c head_idx n ns l j h =
      list_loop-evaluate fuel c (get_node_from_idx lib c head_idx) (n ∷ ns) l j h
