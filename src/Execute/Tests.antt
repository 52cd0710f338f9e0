-- ===== src/Execute/Tests.antt =====
-- Runs over concrete pipelines and paths.
use minishell.Base.{
  ℕ, ◌≡◌, ◌⊎◌, ◌==◌, ◌&&◌, Bool, Bool-cases, inl, inr, ltb, and-eq-true, if◌then◌else◌, pos, negsuc,
  refl, true, some, [], ◌∷◌, arith, map, false,
}
use minishell.Ctx.{Ctx}
use minishell.Execute.AndOr.{Linked}
use minishell.Execute.Evaluate.{evaluate, execute_list-evaluate}
use minishell.Execute.List.{Pipelines, is_pipeline, execute_list}
use minishell.Execute.Pathname.{
  Files, candidate, is_file, search_in_paths, first_of, or_else, can_run, search_in_paths_lem,
}
use minishell.Execute.Split.{ft_split_with_empty, join, AllLack, ft_split_with_empty_lem}
use minishell.Libft.{concrete}
use minishell.Parser.Nodes.{get_node_from_idx, put_node}
use minishell.Samples.{ctx, codes}
use minishell.Parser.Input.{is_redir}
use minishell.Types.{
  NodeType, default_node, command_node, arg_node, redir_node, Node, zero_node, no_node_flags,
  pipeline_node, zero_data,
}

redir_no_pipeline : (t : NodeType) → is_redir t ≡ true → is_pipeline t ≡ false
redir_no_pipeline default_node h = refl
redir_no_pipeline pipeline_node h = cc
redir_no_pipeline command_node h = refl
redir_no_pipeline arg_node h = refl
redir_no_pipeline redir_node h = refl

-- the redirection with its descriptor given up, as open_here_file leaves it
abbrev taken : Node → Node
taken node = record node { content = record (node.content) { fd = negsuc 0 } }

abbrev can_take : Ctx concrete → Bool
can_take c =
    is_redir (concrete.get Node c.commands 4).type && ltb 4 (concrete.count Node c.commands)

-- what a pipeline with the here-document of node 4 does to the nodes
abbrev take_here : Ctx concrete → Ctx concrete
unfolding put_node
take_here c =
    if can_take c then put_node concrete c 4 (taken (concrete.get Node c.commands 4)) else c

get-take_here :
    (c : Ctx concrete) (i : ℕ)
    → (concrete.get Node (take_here c).commands i ≡ concrete.get Node c.commands i)
      ⊎ ((is_pipeline (concrete.get Node c.commands i).type ≡ false)
          × (is_pipeline (concrete.get Node (take_here c).commands i).type ≡ false))
unfolding put_node
get-take_here c i =
    let s = c.commands in
    let node = concrete.get Node s 4 in
    elim (Bool-cases (can_take c)) [
      | inr e ↦ rw e (inl refl)
      | inl e ↦
          let (redir, valid) = and-eq-true (is_redir node.type) _ e in
          let no_pipeline = redir_no_pipeline node.type redir in
          rw e (elim (Bool-cases (i == 4)) [
            | inl at_4 ↦
                let same : i ≡ 4 = ground arith in
                rw (same, concrete.get-set_self Node s 4 (taken node) (ground arith))
                  (inr (no_pipeline, no_pipeline))
            | inr other ↦ inl (concrete.get-set_ne Node s 4 i (taken node) (λ same. ground arith))
          ])
    ]

take_here-pipelines :
    (c : Ctx concrete) (i : ℕ)
    → is_pipeline (concrete.get Node c.commands i).type ≡ true
    → concrete.get Node (take_here c).commands i ≡ concrete.get Node c.commands i
take_here-pipelines c i h = elim (get-take_here c i) [ inl e ↦ e | inr (e, _) ↦ cc ]

-- a pipeline's status is the index of its first command, and it takes the here-document of node 4
abbrev pipelines : Pipelines concrete
pipelines = record {
  execute_pipeline = λ c node. (take_here c, node.content.command_head_idx);
  same_pipelines = λ c node. take_here-pipelines c;
  no_more_pipelines = λ c node i h. elim (get-take_here c i) [ inl e ↦ rw e h | inr (_, e) ↦ e ];
}

-- false && second || third
abbrev first : Node
first = record zero_node {
  type = pipeline_node;
  next_idx = 2;
  content = record zero_data { command_head_idx = 1 };
}

abbrev second : Node
second = record zero_node {
  type = pipeline_node;
  next_idx = 3;
  flags = record no_node_flags { and_if = true };
}

abbrev third : Node
third = record zero_node { type = pipeline_node; flags = record no_node_flags { or_if = true } }

-- the here-document, in descriptor 5
abbrev here_document : Node
here_document = record zero_node {
  type = redir_node;
  flags = record no_node_flags { redir_here = true };
  content = record zero_data { fd = pos 5 };
}

abbrev sample : Ctx concrete
unfolding put_node
sample =
    let c =
      put_node concrete (put_node concrete (put_node concrete (ctx "" []) 1 first) 2 second) 3
        third in
    let c' = record c { commands = concrete.set_count Node c.commands 5 } in
    put_node concrete c' 4 here_document

-- the first pipeline changes a node
takes_document : (concrete.get Node (take_here sample).commands 4).content.fd ≡ negsuc 0
unfolding put_node
takes_document = refl

sample-Linked :
    Linked concrete sample.commands
      (get_node_from_idx concrete sample 1)
      (first ∷ second ∷ third ∷ [])
unfolding get_node_from_idx sample
sample-Linked = (refl, refl, (refl, refl, (refl, refl, refl)))

execute_list-evaluate_example :
    execute_list concrete pipelines 4 sample 1
    ≡ some (evaluate concrete pipelines sample (first ∷ second ∷ third ∷ []))
execute_list-evaluate_example =
    execute_list-evaluate concrete pipelines 4 sample 1 first (second ∷ third ∷ []) sample-Linked
      (refl, (refl, tt)) (omega arith)

abbrev files : Files
files = record { exists = λ p. true; is_regular = λ p. true; is_executable = λ p. false }

search_in_paths_lem_example :
    search_in_paths concrete files (codes "/bin" ∷ [] ∷ []) (codes "ls")
    ≡ or_else concrete files
        (first_of concrete files
          (can_run concrete files)
          (map (candidate concrete (codes "ls")) (codes "/bin" ∷ [] ∷ [])))
        (first_of concrete files
          (is_file concrete files)
          (map (candidate concrete (codes "ls")) (codes "/bin" ∷ [] ∷ [])))
search_in_paths_lem_example =
    search_in_paths_lem concrete files (codes "/bin" ∷ [] ∷ []) (codes "ls")

ft_split_with_empty_lem_example :
    (join b':' (ft_split_with_empty concrete (codes ":a:") b':') ≡ codes ":a:")
    × AllLack b':' (ft_split_with_empty concrete (codes ":a:") b':')
ft_split_with_empty_lem_example = ft_split_with_empty_lem concrete (codes ":a:") b':'
