-- ===== src/Execute/Rewritten.antt =====
-- What the expansion of arguments and redirections of a simple command leaves of its nodes:
-- srcs/execute/build_command.c.
use minishell.Base.{
  ℕ, zero, suc, ◌+◌, ◌-◌, ◌<◌, ◌≤◌, ◌≡◌, refl, sym, ap, ◌∙◌, Bool, true, Bool-cases, Option, some,
  ◌==◌, length, if_rule, arith, inl, inr,
}
use minishell.Ctx.{Ctx}
use minishell.Execute.Command.{expand_redirs}
use minishell.Execute.Nodes.{here_fd, Shape, IsChain, Leads, heres, AllLead, heres-set, AllLead-set}
use minishell.Execute.Owns.{held_at}
use minishell.Execute.Process.{or_unfinished}
use minishell.Execute.Returns.{Returns, Returns-bind, Returns-weaken, Returns-or_unfinished}
use minishell.Expansion.Args.{expand_arg, needs_scan, is_arg, expand_args, word_of}
use minishell.Expansion.Ends.{scan_word_ends}
use minishell.Expansion.Fields.{FieldArena, Expanding}
use minishell.Expansion.Redir.{redir_needs_scan, resolve_redir_field, expand_redir}
use minishell.Libft.{Libft}
use minishell.Parser.Input.{is_redir}
use minishell.Parser.Nodes.{get_node_from_idx, put_node}
use minishell.Types.{Node}

-- the node leads where it led, and holds the descriptor that it held
abbrev SameNode : Node → Node → Type 0
SameNode node node' =
    (here_fd node' ≡ here_fd node) × ((n : Shape) (i : ℕ) → Leads n i node → Leads n i node')

module _ (lib : Libft) (arena : FieldArena) where
  expand_redir-SameNode :
      (c : Ctx lib) (e : Expanding) (node : Node)
      → (r : Expanding × Node × Bool) × (expand_redir arena lib c e node ≡ some r)
        × SameNode node r.1
  unfolding expand_redir resolve_redir_field
  expand_redir-SameNode c e node =
      let word = word_of arena lib c node in
      let P : Option (Expanding × Node × Bool) → Type 0 =
        λ o. (r : Expanding × Node × Bool) × (o ≡ some r) × SameNode node r.1 in
      let (e', ends) =
        scan_word_ends arena lib c.vals c.return_status (length word) e word (omega arith) in
      if_rule P (redir_needs_scan arena lib c node) _ _
        (λ _. rw ends (
          _,
          refl,
          if_rule (λ (r : Expanding × Node × Bool). SameNode node r.1)
              (length e'.refs - length e.refs == 1) _ _
              (λ _. (
                refl,
                λ n i h. record {
                  next = h.next;
                  command_head = h.command_head;
                  redir_head = h.redir_head;
                  arg_head = h.arg_head;
                  same_next = h.same_next;
                  same_type = h.same_type;
                  same_arg = h.same_arg;
                },
              ))
              (λ _. (refl, λ n i h. h)),
        ))
        (λ _. ((e, node, true), refl, (refl, λ n i h. h)))

  expand_arg_ends :
      (c : Ctx lib) (e : Expanding) (node : Node)
      → (e' : Expanding) × (expand_arg arena lib c e node ≡ some e')
  unfolding expand_arg
  expand_arg_ends c e node =
      let word = word_of arena lib c node in
      if_rule (λ (o : Option Expanding). (e' : Expanding) × (o ≡ some e')) (needs_scan node) _ _
        (λ _. scan_word_ends arena lib c.vals c.return_status (length word) e word (omega arith))
        (λ _. (_, refl))

  pub expand_args_ends :
      (n : Shape) (c : Ctx lib) (fuel i : ℕ) (e : Expanding)
      → IsChain n
      → AllLead lib n c.commands
      → i < n.size
      → (n.is_arg i ≡ true → n.size ≤ i + fuel)
      → (e' : Expanding) × (expand_args arena lib c fuel e (lib.get Node c.commands i) ≡ some e')
  unfolding expand_args
  expand_args_ends n c zero i e chain all valid enough = elim (Bool-cases (n.is_arg i)) [
    | inl arg ↦ let h = enough arg in absurd (omega arith)
    | inr other ↦ rw ((all i valid).same_arg ∙ other) (e, refl)
  ]
  expand_args_ends n c (suc fuel) i e chain all valid enough =
      let node = lib.get Node c.commands i in
      let leads = all i valid in
      let (e1, ends) = expand_arg_ends c e node in
      if_rule (λ (o : Option Expanding). (e' : Expanding) × (o ≡ some e')) (is_arg node.type) _ _
        (λ type.
          let arg = sym leads.same_arg ∙ type in
          rw ends (
            expand_args_ends n c fuel node.next_idx e1 chain all leads.next (λ more.
              elim (chain.arg_follows i valid arg) [
                | inl last ↦
                    let none_left = ap n.is_arg (leads.same_next ∙ last) ∙ chain.arg_bottom in cc
                | inr grows ↦ omega (arith, enough arg, leads.same_next)
              ])))
        (λ _. (e, refl))

  -- the nodes of a context hold what those of another hold
  abbrev pub Keeps : Shape → lib.Arena Node → lib.Arena Node → Type 0
  Keeps n s s' =
      ((j : ℕ) → heres lib s' j ≡ heres lib s j) × AllLead lib n s' × (lib.count Node s' ≡ n.size)

  set-Keeps :
      (n : Shape) (s : lib.Arena Node) (i : ℕ) (node : Node)
      → i < n.size
      → SameNode (lib.get Node s i) node
      → AllLead lib n s
      → lib.count Node s ≡ n.size
      → Keeps n s (lib.set Node s i node)
  set-Keeps n s i node valid (fd, leads) all size =
      let inside : i < lib.count Node s = omega (arith, size) in
      (
        λ j. omega (arith, heres-set lib s i node j inside, ap (λ o. held_at o j) fd),
        AllLead-set lib n s i node inside (leads n i (all i valid)) all,
        lib.count-set Node s i node ∙ size,
      )

  pub expand_redirs-Keeps :
      (n : Shape) (fuel : ℕ) (c : Ctx lib) (e : Expanding) (idx : ℕ)
      → idx < n.size
      → AllLead lib n c.commands
      → lib.count Node c.commands ≡ n.size
      → Returns
          (λ (r : Ctx lib × Expanding × Bool). Keeps n c.commands r.0.commands)
          (expand_redirs lib arena fuel c e idx)
  unfolding expand_redirs get_node_from_idx put_node
  expand_redirs-Keeps n zero c e idx valid all size = (λ j. refl, all, size)
  expand_redirs-Keeps n (suc fuel) c e idx valid all size =
      let s = c.commands in
      let node = lib.get Node s idx in
      let Q : Ctx lib × Expanding × Bool → Type 0 = λ r. Keeps n s r.0.commands in
      if_rule (Returns Q) (is_redir node.type) _ _
        (λ _.
          Returns-bind (λ (r : Expanding × Node × Bool). SameNode node r.1) Q
            (or_unfinished (expand_redir arena lib c e node)) _
            (let (r, ends, same) = expand_redir-SameNode c e node in
              Returns-or_unfinished _ (expand_redir arena lib c e node) r ends same)
            λ (e', node', refers) same.
              let c' = record c { commands = lib.set Node s idx node' } in
              let (here, all', size') = set-Keeps n s idx node' valid same all size in
              let next = (all idx valid).next in
              if_rule (Returns Q) refers _ _
                (λ _.
                  Returns-weaken
                    (λ (r : Ctx lib × Expanding × Bool). Keeps n c'.commands r.0.commands) Q _
                    (λ r (h, rest, size2). (λ j. h j ∙ here j, rest, size2))
                    (expand_redirs-Keeps n fuel c' e' node.next_idx next all' size'))
                (λ _. (here, all', size')))
        (λ _. (λ j. refl, all, size))
