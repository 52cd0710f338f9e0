-- ===== src/Execute/Held.antt =====
-- The descriptors that a shell holds, in io_fd, pipe_fd and the nodes of here-documents, and the
-- functions of process_redirection.c and close_fds.c on them.
use minishell.Base.{
  ℕ, zero, suc, ◌+◌, ◌<◌, ◌≡◌, refl, sym, subst, ap, ◌∙◌, Bool, true, Option, none, some, List,
  negsuc, if_rule, arith,
}
use minishell.Execute.Nodes.{here_fd, Shape, Leads, heres, AllLead, heres-set, AllLead-set}
use minishell.Execute.Owns.{held_at, Owns, Owns-equal, ft_close_fd-Owns, open_file-Owns}
use minishell.Execute.Process.{Process, descriptor, ft_close_fd, close_in, close_out, close_io}
use minishell.Execute.Redirect.{
  resolve_redir, has_name, open_in_file, open_here_file, open_out_file, open_based_on_flag,
  redirection_loop, process_redirection,
}
use minishell.Libft.{Libft}
use minishell.Os.{Os, OpenMode, read_only, truncating, appending}
use minishell.Parser.Input.{is_redir}
use minishell.Parser.Nodes.{get_node_from_idx, put_node}
use minishell.Types.{Node}

module _ (lib : Libft) (os : Os) where
  -- how often the shell holds a descriptor
  abbrev pub holders : Process lib os → ℕ → ℕ
  holders p j =
      held_at p.io_in j
      + (held_at p.io_out j
          + (held_at p.pipe_in j + (held_at p.pipe_out j + heres lib p.ctx.commands j)))

  -- A table that holds `base` and what the shell holds, nodes of the shape `n`, and of a
  -- pipe at most the end to read.
  pub record Held (base : ℕ → Option os.File) (n : Shape) (reading : Option ℕ) (p : Process lib os)
      : Type 0 where
    pub owned : Owns os base (holders p) p.world
    pub leads : AllLead lib n p.ctx.commands
    pub size : lib.count Node p.ctx.commands ≡ n.size
    pub reads : p.pipe_in ≡ reading
    pub writes : p.pipe_out ≡ none

  pub ft_close_fd-none : (w : os.World) (fd : Option ℕ) → (ft_close_fd lib os w fd).1 ≡ none
  unfolding ft_close_fd
  ft_close_fd-none w none = refl
  ft_close_fd-none w (some n) = refl

  module _ (base : ℕ → Option os.File) (n : Shape) (reading : Option ℕ) where
    -- a change of what is held and of the world
    pub Held-change :
        (p p' : Process lib os)
        → p'.ctx.commands ≡ p.ctx.commands
        → p'.pipe_in ≡ p.pipe_in
        → p'.pipe_out ≡ p.pipe_out
        → Owns os base (holders p') p'.world
        → Held base n reading p
        → Held base n reading p'
    Held-change p p' e r w owned h = record {
      owned = owned;
      leads = subst (AllLead lib n) (sym e) h.leads;
      size = ap (lib.count Node) e ∙ h.size;
      reads = r ∙ h.reads;
      writes = w ∙ h.writes;
    }

    pub close_in-Held :
        (p : Process lib os) → Held base n reading p → Held base n reading (close_in lib os p)
    unfolding close_in
    close_in-Held p h =
        let rest : ℕ → ℕ = λ j.
          held_at p.io_out j
          + (held_at p.pipe_in j + (held_at p.pipe_out j + heres lib p.ctx.commands j)) in
        let closed = ft_close_fd-Owns os base lib rest p.world p.io_in h.owned in
        let same : (j : ℕ) → rest j ≡ holders (close_in lib os p) j =
          λ j. omega (arith, ap (λ fd. held_at fd j) (ft_close_fd-none p.world p.io_in)) in
        Held-change p (close_in lib os p) refl refl refl
          (Owns-equal os base rest (holders (close_in lib os p)) (close_in lib os p).world same
            closed)
          h

    pub close_out-Held :
        (p : Process lib os) → Held base n reading p → Held base n reading (close_out lib os p)
    unfolding close_out
    close_out-Held p h =
        let rest : ℕ → ℕ = λ j.
          held_at p.io_in j
          + (held_at p.pipe_in j + (held_at p.pipe_out j + heres lib p.ctx.commands j)) in
        let first : (j : ℕ) → holders p j ≡ held_at p.io_out j + rest j = λ j. omega arith in
        let closed = ft_close_fd-Owns os base lib rest p.world p.io_out (
          Owns-equal os base (holders p) (λ j. held_at p.io_out j + rest j) p.world first
            h.owned) in
        let same : (j : ℕ) → rest j ≡ holders (close_out lib os p) j =
          λ j. omega (arith, ap (λ fd. held_at fd j) (ft_close_fd-none p.world p.io_out)) in
        Held-change p (close_out lib os p) refl refl refl
          (Owns-equal os base rest (holders (close_out lib os p)) (close_out lib os p).world same
            closed)
          h

    pub close_io-Held :
        (p : Process lib os) → Held base n reading p → Held base n reading (close_io lib os p)
    unfolding close_io
    close_io-Held p h = close_out-Held (close_in lib os p) (close_in-Held p h)

    pub close_in-none : (p : Process lib os) → (close_in lib os p).io_in ≡ none
    unfolding close_in
    close_in-none p = ft_close_fd-none p.world p.io_in

    pub close_out-none : (p : Process lib os) → (close_out lib os p).io_out ≡ none
    unfolding close_out
    close_out-none p = ft_close_fd-none p.world p.io_out

    open_in-Held :
        (p : Process lib os) (path : List ℕ)
        → p.io_in ≡ none
        → Held base n reading p
        → Held base n reading (
            let (w, fd) = os.open_file p.world path read_only in record p { world = w; io_in = fd })
    open_in-Held p path empty h =
        let (w, fd) = os.open_file p.world path read_only in
        let p' = record p { world = w; io_in = fd } in
        let opened = open_file-Owns os base (holders p) p.world w path read_only fd refl h.owned in
        let same : (j : ℕ) → held_at fd j + holders p j ≡ holders p' j =
          λ j. omega (arith, ap (λ o. held_at o j) empty) in
        Held-change p p' refl refl refl
          (Owns-equal os base (λ j. held_at fd j + holders p j) (holders p') w same opened) h

    open_out-Held :
        (p : Process lib os) (path : List ℕ) (mode : OpenMode)
        → p.io_out ≡ none
        → Held base n reading p
        → Held base n reading
            (let (w, fd) = os.open_file p.world path mode in record p { world = w; io_out = fd })
    open_out-Held p path mode empty h =
        let (w, fd) = os.open_file p.world path mode in
        let p' = record p { world = w; io_out = fd } in
        let opened = open_file-Owns os base (holders p) p.world w path mode fd refl h.owned in
        let same : (j : ℕ) → held_at fd j + holders p j ≡ holders p' j =
          λ j. omega (arith, ap (λ o. held_at o j) empty) in
        Held-change p p' refl refl refl
          (Owns-equal os base (λ j. held_at fd j + holders p j) (holders p') w same opened) h

    open_in_file-Held :
        (p : Process lib os) (node : Node)
        → Held base n reading p
        → Held base n reading (open_in_file lib os p node).0
    unfolding open_in_file
    open_in_file-Held p node h =
        let p1 = close_in lib os p in
        let h1 = close_in-Held p h in
        if_rule (λ (r : Process lib os × Bool). Held base n reading r.0) (has_name lib os p1 node) _
          _ (λ _. open_in-Held p1 (resolve_redir lib os p1 node) (close_in-none p) h1) (λ _. h1)

    open_out_file-Held :
        (p : Process lib os) (node : Node) (mode : OpenMode)
        → Held base n reading p
        → Held base n reading (open_out_file lib os p node mode).0
    unfolding open_out_file
    open_out_file-Held p node mode h =
        let p1 = close_out lib os p in
        let h1 = close_out-Held p h in
        if_rule (λ (r : Process lib os × Bool). Held base n reading r.0) (has_name lib os p1 node) _
          _ (λ _. open_out-Held p1 (resolve_redir lib os p1 node) mode (close_out-none p) h1)
          (λ _. h1)

    -- the node gives its descriptor away
    open_here_file-Held :
        (p : Process lib os) (idx : ℕ)
        → idx < n.size
        → (let node = lib.get Node p.ctx.commands idx in
            (is_redir node.type ≡ true)
            → (node.flags.redir_here ≡ true)
            → Held base n reading p
            → Held base n reading (open_here_file lib os p idx node).0)
    unfolding open_here_file put_node close_in
    open_here_file-Held p idx valid type here h =
        let node = lib.get Node p.ctx.commands idx in
        let p1 = close_in lib os p in
        let h1 = close_in-Held p h in
        let s = p.ctx.commands in
        let fd = descriptor node.content.fd in
        let taken = record node { content = record (node.content) { fd = negsuc 0 } } in
        let p' = record p1 {
          ctx = record (p1.ctx) { commands = lib.set Node s idx taken };
          io_in = fd;
        } in
        let inside : idx < lib.count Node s = omega (arith, h.size) in
        let before : here_fd node ≡ fd = rw (type, here) refl in
        let after : here_fd taken ≡ none = rw (type, here) refl in
        let moved : (j : ℕ) → holders p1 j ≡ holders p' j = λ j. omega (
          arith,
          ap (λ o. held_at o j) before,
          ap (λ o. held_at o j) after,
          ap (λ o. held_at o j) (close_in-none p),
          heres-set lib s idx taken j inside,
        ) in
        let old : Leads n idx node = h.leads idx valid in
        let leads : Leads n idx taken = record {
          next = old.next;
          command_head = old.command_head;
          redir_head = old.redir_head;
          arg_head = old.arg_head;
          same_next = old.same_next;
          same_type = old.same_type;
          same_arg = old.same_arg;
        } in
        record {
          owned = Owns-equal os base (holders p1) (holders p') p1.world moved h1.owned;
          leads = AllLead-set lib n s idx taken inside leads h.leads;
          size = lib.count-set Node s idx taken ∙ h.size;
          reads = h1.reads;
          writes = h1.writes;
        }

    open_based_on_flag-Held :
        (p : Process lib os) (idx : ℕ)
        → idx < n.size
        → (let node = lib.get Node p.ctx.commands idx in
            (is_redir node.type ≡ true)
            → Held base n reading p
            → Held base n reading (open_based_on_flag lib os p idx node).0)
    unfolding open_based_on_flag
    open_based_on_flag-Held p idx valid type h =
        let node = lib.get Node p.ctx.commands idx in
        let P : Process lib os × Bool → Type 0 = λ r. Held base n reading r.0 in
        if_rule P node.flags.redir_in _ _ (λ _. open_in_file-Held p node h)
          (λ _.
            if_rule P node.flags.redir_out _ _ (λ _. open_out_file-Held p node truncating h)
              (λ _.
                if_rule P node.flags.redir_here _ _
                  (λ here. open_here_file-Held p idx valid type here h)
                  (λ _.
                    if_rule P node.flags.redir_append _ _
                      (λ _. open_out_file-Held p node appending h) (λ _. h))))

    redirection_loop-Held :
        (fuel : ℕ) (p : Process lib os) (idx : ℕ)
        → idx < n.size
        → Held base n reading p
        → Held base n reading (redirection_loop lib os fuel p idx).0
    unfolding redirection_loop get_node_from_idx
    redirection_loop-Held zero p idx valid h = h
    redirection_loop-Held (suc fuel) p idx valid h =
        let node = lib.get Node p.ctx.commands idx in
        let (p1, opened) = open_based_on_flag lib os p idx node in
        let P : Process lib os × Bool → Type 0 = λ r. Held base n reading r.0 in
        if_rule P (is_redir node.type) _ _
          (λ type.
            let h1 = open_based_on_flag-Held p idx valid type h in
            let next = (h1.leads idx valid).next in
            if_rule P opened _ _ (λ _. redirection_loop-Held fuel p1 _ next h1) (λ _. h1))
          (λ _. h)

    pub process_redirection-Held :
        (p : Process lib os) (idx : ℕ)
        → idx < n.size
        → Held base n reading p
        → Held base n reading (process_redirection lib os p idx).0
    unfolding process_redirection
    process_redirection-Held p idx valid h =
        redirection_loop-Held (lib.count Node p.ctx.commands) p idx valid h
