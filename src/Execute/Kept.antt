-- ===== src/Execute/Kept.antt =====
-- The descriptors of a whole pipeline: srcs/execute/execute_pipeline.c.
use minishell.Base.{
  ℕ, zero, suc, ◌+◌, ◌<◌, ◌≤◌, ◌≡◌, ◌≢◌, ◌⊎◌, refl, sym, subst, ap, ◌∙◌, Bool, true, false, Option,
  none, some, ◌==◌, if_rule, arith, Bool-cases, inl, inr,
}
use minishell.Execute.Between.{wait-Held, next_input-Held, piped-Held}
use minishell.Execute.Child.{Callees}
use minishell.Execute.Command.{execute_simple_command}
use minishell.Execute.Held.{Held, Held-change}
use minishell.Execute.Leaves.{IsEmpty, Leaves, close_io-IsEmpty}
use minishell.Execute.Nodes.{Shape, IsChain, Leads}
use minishell.Execute.Pathname.{Files}
use minishell.Execute.Pipeline.{
  is_command, next_input, piped_with, pipe_and_execute_simple_command, execute_command,
  pipeline_loop, wait_if, finish_pipeline, execute_pipeline,
}
use minishell.Execute.Process.{Process}
use minishell.Execute.Returns.{Returns, Returns-bind, Returns-weaken}
use minishell.Execute.Simple.{execute_simple_command-Leaves}
use minishell.Execute.Wait.{wait_return_status}
use minishell.Expansion.Fields.{FieldArena}
use minishell.Libft.{Libft}
use minishell.Os.{Os}
use minishell.Parser.Nodes.{get_node_from_idx}
use minishell.Types.{Node}

module _ (lib : Libft) (os : Os) (base : ℕ → Option os.File) (n : Shape) where
  module _ (arena : FieldArena) (callees : Callees lib os) (files : Files) (open0 : base 0 ≢ none)
      (open1 : base 1 ≢ none) where
    piped_of :
        (p : Process lib os) (i : ℕ) (node : Node) (w : os.World) (o : Option (ℕ × ℕ))
        → os.pipe p.world ≡ (w, o)
        → IsChain n
        → Leads n i node
        → p.io_out ≡ none
        → Held lib os base n none p
        → Returns
            (λ (r : Process lib os × ℕ). Held lib os base n none r.0 × (r.0.io_out ≡ none))
            (piped_with lib arena os callees files p node w o)
    unfolding piped_with next_input
    piped_of p i node w none e chain leads empty h = tt
    piped_of p i node w (some (r, s)) e chain leads empty h =
        let piped = record p { world = w; io_out = some s; pipe_in = some r; pipe_out = none } in
        Returns-bind (Leaves lib os base n (some r)) _
          (execute_simple_command lib arena os callees files piped node) _
          (execute_simple_command-Leaves lib arena os base n (some r) callees files open0 open1
            piped i node chain leads (piped-Held lib os base n p w r s e empty h))
          λ (p1, result) (h1, _).
            (next_input-Held lib os base n p1 (some r) h1, (close_io-IsEmpty lib os base p1).1)

    -- behind a command
    abbrev Goes : ℕ → Process lib os × ℕ → Type 0
    Goes next (p, status) =
        Held lib os base n none p
        × ((next == 0) ≡ false → p.io_out ≡ none)
        × ((next == 0) ≡ true → IsEmpty lib os base p ⊎ (status ≡ 1))

    execute_command-Goes :
        (p : Process lib os) (i : ℕ) (node : Node)
        → IsChain n
        → Leads n i node
        → p.io_out ≡ none
        → Held lib os base n none p
        → Returns (Goes node.next_idx) (execute_command lib arena os callees files p node)
    unfolding execute_command pipe_and_execute_simple_command
    execute_command-Goes p i node chain leads empty h =
        let piped = record p { is_pipe = true } in
        if_rule (Returns (Goes node.next_idx)) (node.next_idx == 0) _ _
          (λ last.
            Returns-weaken (Leaves lib os base n none) _
              (execute_simple_command lib arena os callees files p node)
              (λ r (held, left). (held, λ e. cc, λ e. left))
              (execute_simple_command-Leaves lib arena os base n none callees files open0 open1 p i
                node chain leads h))
          (λ more.
            Returns-weaken
              (λ (r : Process lib os × ℕ). Held lib os base n none r.0 × (r.0.io_out ≡ none)) _
              (pipe_and_execute_simple_command lib arena os callees files piped node)
              (λ r (held, out). (held, λ e. out, λ e. cc))
              (piped_of piped i node (os.pipe p.world).0 (os.pipe p.world).1 refl chain leads empty
                (Held-change lib os base n none p piped refl refl refl h.owned h)))

    -- behind the loop: only where the shell is to exit, or behind status 1, is something left
    abbrev Gone : Process lib os × ℕ × Bool → Type 0
    Gone (p, status, exits) =
        Held lib os base n none p
        × (exits ≡ true → p.ctx.should_exit ≡ true)
        × (exits ≡ false → IsEmpty lib os base p ⊎ (status ≡ 1))

    -- before a round of the loop
    record Ready (fuel idx : ℕ) (p : Process lib os) (result : ℕ) : Type 0 where
      valid : idx < n.size
      held : Held lib os base n none p
      further : n.is_command idx ≡ true → p.io_out ≡ none
      enough : n.is_command idx ≡ true → n.size ≤ idx + fuel
      stops : n.is_command idx ≡ false → IsEmpty lib os base p ⊎ (result ≡ 1)

    -- the next round
    next_round :
        (fuel idx : ℕ) (p p1 : Process lib os) (result result1 : ℕ)
        → IsChain n
        → n.is_command idx ≡ true
        → Ready (suc fuel) idx p result
        → Goes (n.next idx) (p1, result1)
        → (n.next idx < n.size)
        → Ready fuel (n.next idx) p1 result1
    next_round fuel idx p p1 result result1 chain command ready (held, out, left) valid =
        elim (chain.follows idx ready.valid command) [
          | inl last ↦
              let none_left = ap n.is_command last ∙ chain.bottom in
              let is_last : (n.next idx == 0) ≡ true = ground arith in
              record {
                valid = valid;
                held = held;
                further = λ e. cc;
                enough = λ e. cc;
                stops = λ _. left is_last;
              }
          | inr (grows, again) ↦
              let more : (n.next idx == 0) ≡ false = ground arith in
              record {
                valid = valid;
                held = held;
                further = λ _. out more;
                enough = λ _. omega (arith, ready.enough command);
                stops = λ e. cc;
              }
        ]

    pipeline_loop-Gone :
        (fuel idx : ℕ) (p : Process lib os) (result : ℕ)
        → IsChain n
        → Ready fuel idx p result
        → Returns Gone (pipeline_loop lib arena os callees files fuel p idx result)
    unfolding pipeline_loop get_node_from_idx wait_return_status
    pipeline_loop-Gone zero idx p result chain ready = elim (Bool-cases (n.is_command idx)) [
      | inl e ↦ let h1 = ready.enough e in let h2 = ready.valid in absurd (omega arith)
      | inr e ↦ (ready.held, λ x. cc, λ _. ready.stops e)
    ]
    pipeline_loop-Gone (suc fuel) idx p result chain ready =
        let node = lib.get Node p.ctx.commands idx in
        let leads = ready.held.leads idx ready.valid in
        if_rule (Returns Gone) (is_command node.type) _ _
          (λ type.
            let command = sym leads.same_type ∙ type in
            Returns-bind (Goes node.next_idx) Gone
              (execute_command lib arena os callees files p node) _
              (execute_command-Goes p idx node chain leads (ready.further command) ready.held)
              λ (p1, result1) goes.
                if_rule (Returns Gone) p1.ctx.should_exit _ _
                  (λ exits. (wait-Held lib os base n p1 goes.0, λ _. exits, λ e. cc))
                  (λ _.
                    let next = (goes.0.leads idx ready.valid).same_next in
                    let goes' = subst (λ i. Goes i (p1, result1)) leads.same_next goes in
                    let valid' = subst (λ i. i < n.size) leads.same_next leads.next in
                    subst
                      (λ i.
                        Returns Gone (pipeline_loop lib arena os callees files fuel p1 i result1))
                      (sym next)
                      (pipeline_loop-Gone fuel (n.next idx) p1 result1 chain (
                        next_round fuel idx p p1 result result1 chain command ready goes' valid'))))
          (λ type. (ready.held, λ x. cc, λ _. ready.stops (sym leads.same_type ∙ type)))

    wait_if-Held :
        (p : Process lib os) (result : ℕ) (pid : Option ℕ)
        → Held lib os base n none p
        → IsEmpty lib os base p ⊎ (result ≡ 1)
        → (let (p', status) = wait_if lib os p result pid in
            Held lib os base n none p' × (IsEmpty lib os base p' ⊎ (status ≡ 1)))
    unfolding wait_if wait_return_status
    wait_if-Held p result none h left = (h, left)
    wait_if-Held p result (some pid) h (inl empty) = (wait-Held lib os base n p h, inl empty)
    wait_if-Held p result (some pid) h (inr e) = (wait-Held lib os base n p h, inr (rw e refl))

    finish_pipeline-Held :
        (r : Process lib os × ℕ × Bool)
        → Gone r
        → (let (p', status) = finish_pipeline lib os r in
            Held lib os base n none p'
            × (p'.ctx.should_exit ≡ false → IsEmpty lib os base p' ⊎ (status ≡ 1)))
    unfolding finish_pipeline
    finish_pipeline-Held (p, result, true) (held, exits, left) = (held, λ e. cc (exits refl))
    finish_pipeline-Held (p, result, false) (held, exits, left) =
        let p1 = record p { is_pipe = false } in
        let h1 = Held-change lib os base n none p p1 refl refl refl held.owned held in
        let (held2, left2) = wait_if-Held p1 result p.pid_to_wait h1 (left refl) in
        (held2, λ _. left2)

    -- Where 0 and 1 are open, commands and arguments stand in chains, io_fd[1] and pipe_fd are empty,
    -- and the table of descriptors holds what the shell holds (in io_fd and in the nodes of
    -- here-documents) and nothing else besides `base`: execute_pipeline returns, or the process
    -- ends. If it returns, the same holds of the table again, with pipe_fd empty, so that no
    -- descriptor is lost, held twice or closed that is not the shell's; and io_fd are empty unless
    -- the shell is to exit or the status is 1.
    pub execute_pipeline-Held :
        (p : Process lib os) (pipeline_node : Node)
        → IsChain n
        → pipeline_node.content.command_head_idx < n.size
        → n.is_command pipeline_node.content.command_head_idx ≡ true
        → p.io_out ≡ none
        → Held lib os base n none p
        → Returns
            (λ (r : Process lib os × ℕ).
              let (p', status) = r in
              Held lib os base n none p'
              × (p'.ctx.should_exit ≡ false → IsEmpty lib os base p' ⊎ (status ≡ 1)))
            (execute_pipeline lib arena os callees files p pipeline_node)
    unfolding execute_pipeline
    execute_pipeline-Held p node chain valid command empty h =
        let nodes = lib.count Node p.ctx.commands in
        let head = node.content.command_head_idx in
        Returns-bind Gone _ (pipeline_loop lib arena os callees files nodes p head 0) _
          (pipeline_loop-Gone nodes head p 0 chain (record {
            valid = valid;
            held = h;
            further = λ _. empty;
            enough = λ _. omega (arith, h.size);
            stops = λ e. cc;
          }))
          λ r gone. finish_pipeline-Held r gone
