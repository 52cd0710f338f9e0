-- ===== src/Execute/Nodes.antt =====
-- The descriptors of here-documents that the nodes hold, counted, and the indices in the nodes.
use minishell.Base.{
  ℕ, zero, suc, ◌+◌, ◌<◌, ◌≤◌, ◌≡◌, ◌⊎◌, true, false, refl, sym, Bool, ◌&&◌, Option, none, ◌==◌,
  if◌then◌else◌, arith, Bool-cases, inl, inr, ==_iff,
}
use minishell.Execute.Owns.{held_at}
use minishell.Execute.Process.{descriptor}
use minishell.Execute.Pipeline.{is_command}
use minishell.Expansion.Args.{is_arg}
use minishell.Libft.{Libft}
use minishell.Parser.Input.{is_redir}
use minishell.Types.{Node}

-- the descriptor of a here-document's node
abbrev pub here_fd : Node → Option ℕ
here_fd node =
    if is_redir node.type && node.flags.redir_here then descriptor node.content.fd else none

-- how many nodes there are, which follows on which, and which are commands and arguments
pub record Shape : Type 0 where
  pub size : ℕ
  pub next : ℕ → ℕ
  pub is_command : ℕ → Bool
  pub is_arg : ℕ → Bool

-- the nodes that a node leads to are in the arena, and its shape is this one's
pub record Leads (n : Shape) (i : ℕ) (node : Node) : Type 0 where
  pub next : node.next_idx < n.size
  pub command_head : node.content.command_head_idx < n.size
  pub arg_head : node.content.arg_head_idx < n.size
  pub redir_head : node.content.redir_head_idx < n.size
  pub same_next : node.next_idx ≡ n.next i
  pub same_type : is_command node.type ≡ n.is_command i
  pub same_arg : is_arg node.type ≡ n.is_arg i

-- Behind a command stands another at a larger index, or the node 0, which is none; behind an
-- argument stands a node at a larger index, or the node 0, which is no argument.
pub record IsChain (n : Shape) : Type 0 where
  pub bottom : n.is_command 0 ≡ false
  pub arg_bottom : n.is_arg 0 ≡ false
  pub follows :
      (i : ℕ)
      → i < n.size
      → n.is_command i ≡ true
      → (n.next i ≡ 0) ⊎ ((i < n.next i) × (n.is_command (n.next i) ≡ true))
  pub arg_follows : (i : ℕ) → i < n.size → n.is_arg i ≡ true → (n.next i ≡ 0) ⊎ (i < n.next i)

module _ (lib : Libft) where
  abbrev heres_below : ℕ → lib.Arena Node → ℕ → ℕ
  heres_below zero s j = 0
  heres_below (suc n) s j = heres_below n s j + held_at (here_fd (lib.get Node s n)) j

  -- how often the nodes hold a descriptor
  abbrev pub heres : lib.Arena Node → ℕ → ℕ
  heres s j = heres_below (lib.count Node s) s j

  abbrev pub AllLead : Shape → lib.Arena Node → Type 0
  AllLead n s = (i : ℕ) → i < n.size → Leads n i (lib.get Node s i)

  heres_below-set_above :
      (n : ℕ) (s : lib.Arena Node) (i : ℕ) (node : Node) (j : ℕ)
      → n ≤ i
      → heres_below n (lib.set Node s i node) j ≡ heres_below n s j
  heres_below-set_above zero s i node j h = refl
  heres_below-set_above (suc n) s i node j h =
      rw
        (
          heres_below-set_above n s i node j (omega arith),
          lib.get-set_ne Node s i n node (λ e. absurd (omega arith)),
        )
        refl

  heres_below-set :
      (n : ℕ) (s : lib.Arena Node) (i : ℕ) (node : Node) (j : ℕ)
      → i < n
      → i < lib.count Node s
      → heres_below n (lib.set Node s i node) j + held_at (here_fd (lib.get Node s i)) j
        ≡ heres_below n s j + held_at (here_fd node) j
  heres_below-set zero s i node j h valid = absurd (omega arith)
  heres_below-set (suc n) s i node j h valid = elim (Bool-cases (i == n)) [
    | inl e ↦
        let same : n ≡ i = sym ((==_iff i n).0 e) in
        rw
          (
            same,
            lib.get-set_self Node s i node valid,
            heres_below-set_above i s i node j (omega arith),
          )
          (omega arith)
    | inr e ↦
        rw (lib.get-set_ne Node s i n node (λ same. ground arith))
          (omega (arith, heres_below-set n s i node j (ground arith) valid))
  ]

  -- a write to one node
  pub heres-set :
      (s : lib.Arena Node) (i : ℕ) (node : Node) (j : ℕ)
      → i < lib.count Node s
      → heres (lib.set Node s i node) j + held_at (here_fd (lib.get Node s i)) j
        ≡ heres s j + held_at (here_fd node) j
  heres-set s i node j h =
      rw (lib.count-set Node s i node) (heres_below-set (lib.count Node s) s i node j h h)

  -- a write that keeps the links of a node
  pub AllLead-set :
      (n : Shape) (s : lib.Arena Node) (i : ℕ) (node : Node)
      → i < lib.count Node s
      → Leads n i node
      → AllLead n s
      → AllLead n (lib.set Node s i node)
  AllLead-set n s i node valid leads all k h = elim (Bool-cases (i == k)) [
    | inl e ↦
        let same : k ≡ i = sym ((==_iff i k).0 e) in
        rw (same, lib.get-set_self Node s i node valid) leads
    | inr e ↦ rw (lib.get-set_ne Node s i k node (λ same. ground arith)) (all k h)
  ]
