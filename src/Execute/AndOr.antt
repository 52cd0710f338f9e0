-- ===== src/Execute/AndOr.antt =====
-- The choice of the next pipeline in execute_list (srcs/execute/execute_list.c), for one and-or
-- list: every pipeline behind the first has an operator.
use minishell.Base.{
  ℕ, zero, suc, ◌<◌, ◌≡◌, refl, sym, subst, ◌∙◌, Bool, true, false, not, ◌&&◌, ◌||◌, Option, some,
  List, [], ◌∷◌, ◌==◌, if◌then◌else◌, length, arith, Bool-cases, inl, inr,
}
use minishell.Ctx.{Ctx}
use minishell.Execute.List.{
  is_pipeline, next_node, next_loop, get_next_with_or, get_next_with_and, choose_next, get_next,
}
use minishell.Libft.{Libft}
use minishell.Parser.Nodes.{get_node_from_idx}
use minishell.Types.{Node, NodeFlags}

-- the pipeline runs after this status: && asks for 0, || for anything else
abbrev pub runs : ℕ → Node → Bool
runs status node =
    (not node.flags.and_if || status == 0) && (not node.flags.or_if || not (status == 0))

-- every pipeline stands behind an && or an ||
abbrev pub IsJoined : List Node → Type 0
IsJoined [] = Unit
IsJoined (n ∷ ns) = (n.flags.and_if ≡ not n.flags.or_if) × IsJoined ns

-- the nodes from the first that has the flag
abbrev from_flag : (NodeFlags → Bool) → List Node → List Node
from_flag flag [] = []
from_flag flag (n ∷ ns) = if flag n.flags then n ∷ ns else from_flag flag ns

-- the nodes from the first that runs
abbrev pub pending : ℕ → List Node → List Node
pending status [] = []
pending status (n ∷ ns) = if runs status n then n ∷ ns else pending status ns

module _ (lib : Libft) where
  -- The siblings from this node on; behind the last stands something else than a pipeline.
  abbrev pub Linked : lib.Arena Node → Node → List Node → Type 0
  Linked commands node [] = is_pipeline node.type ≡ false
  Linked commands node (n ∷ ns) =
      (node ≡ n)
      × (is_pipeline n.type ≡ true)
      × Linked commands (lib.get Node commands n.next_idx) ns

  abbrev pub Goes : Ctx lib → List Node → Option Node → Type 0
  Goes c ns o = (m : Node) × (o ≡ some m) × Linked c.commands m ns

  next_loop-Goes :
      (flag : NodeFlags → Bool) (fuel : ℕ) (c : Ctx lib) (node : Node) (ns : List Node)
      → Linked c.commands node ns
      → length ns < fuel
      → Goes c (from_flag flag ns) (next_loop lib flag fuel c node)
  unfolding next_loop get_node_from_idx
  next_loop-Goes flag zero c node ns l h = absurd (omega arith)
  next_loop-Goes flag (suc fuel) c node [] l h = (node, ground arith, l)
  next_loop-Goes flag (suc fuel) c node (n ∷ ns) l h =
      let (m, e, linked) = next_loop-Goes flag fuel c (next_node lib c n) ns l.2 (omega arith) in
      subst
        (λ x. Goes c (from_flag flag (n ∷ ns)) (
          if is_pipeline x.type && not (flag x.flags)
          then next_loop lib flag fuel c (next_node lib c x)
          else some x))
        (sym l.0)
        (elim (Bool-cases (flag n.flags)) [
          | inl f ↦ rw f (n, rw l.1 refl, (refl, l.1, l.2))
          | inr f ↦ rw f (rw l.1 (m, e, linked))
        ])

  from_flag-pending :
      (status : ℕ) (ns : List Node)
      → IsJoined ns
      → pending status ns ≡ from_flag (if status == 0 then (λ f. f.and_if) else (λ f. f.or_if)) ns
  from_flag-pending status [] j = refl
  from_flag-pending status (n ∷ ns) j = ground (arith, from_flag-pending status ns j.1)

  skipped :
      (fuel : ℕ) (c : Ctx lib) (b : Node) (ns : List Node) (and_if succeeded : Bool)
      → Linked c.commands (next_node lib c b) ns
      → IsJoined ns
      → length ns < fuel
      → (c.return_status == 0) ≡ succeeded
      → and_if ≡ not succeeded
      → Goes c
          (pending c.return_status ns)
          (if and_if then get_next_with_or lib fuel c b else get_next_with_and lib fuel c b)
  unfolding get_next_with_or get_next_with_and
  skipped fuel c b ns true false l j h s e =
      subst (λ x. Goes c x (get_next_with_or lib fuel c b))
        (sym (from_flag-pending c.return_status ns j ∙ rw s refl))
        (next_loop-Goes (λ f. f.or_if) fuel c (next_node lib c b) ns l h)
  skipped fuel c b ns false true l j h s e =
      subst (λ x. Goes c x (get_next_with_and lib fuel c b))
        (sym (from_flag-pending c.return_status ns j ∙ rw s refl))
        (next_loop-Goes (λ f. f.and_if) fuel c (next_node lib c b) ns l h)
  skipped fuel c b ns true true l j h s e = cc
  skipped fuel c b ns false false l j h s e = cc

  choose_next-Goes :
      (fuel : ℕ) (c : Ctx lib) (b : Node) (ns : List Node)
      → Linked c.commands b (b ∷ ns)
      → IsJoined (b ∷ ns)
      → length ns < fuel
      → Goes c (pending c.return_status (b ∷ ns)) (choose_next lib fuel c b)
  unfolding choose_next get_node_from_idx
  choose_next-Goes fuel c b ns l j h = elim (Bool-cases (runs c.return_status b)) [
    | inl r ↦ rw r (b, ground arith, l)
    | inr r ↦
        let other : b.flags.and_if ≡ not (c.return_status == 0) = ground arith in
        let (m, e, linked) =
          skipped fuel c b ns b.flags.and_if (c.return_status == 0) l.2 j.1 h refl other in
        rw r (m, ground arith, linked)
  ]

  -- The next pipeline is the first that runs.
  pub get_next-Goes :
      (fuel : ℕ) (c : Ctx lib) (n : Node) (ns : List Node)
      → Linked c.commands (next_node lib c n) ns
      → IsJoined ns
      → length ns < fuel
      → Goes c (pending c.return_status ns) (get_next lib fuel c n)
  unfolding get_next choose_next
  get_next-Goes fuel c n [] l j h = (next_node lib c n, ground arith, l)
  get_next-Goes fuel c n (b ∷ ns) l j h =
      subst (λ x. Goes c (pending c.return_status (b ∷ ns)) (choose_next lib fuel c x)) (sym l.0)
        (choose_next-Goes fuel c b ns (refl, l.1, l.2) j (omega arith))
