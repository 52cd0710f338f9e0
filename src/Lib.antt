-- ===== src/Lib.antt =====
-- minishell: a POSIX shell in C. A line is cut into tokens by the tokenizer, an LALR parser with
-- tables made by bison builds nodes from them, and the nodes are executed with the variables of
-- the environment.
--
-- Libft      the functions of the libft submodule (strings, lists, arenas) as an interface with
--            their laws, and an instance over lists and functions that shows the laws can hold
-- Os         the system below the shell (descriptors, fork, execve, waitpid) as an interface with
--            its laws, and an instance with a table of eight descriptors
-- Types, Ctx inc/types.h and the flag words of inc/minishell.h; t_ctx as a record
-- Utils      srcs/utils
-- Lexer      srcs/lexer: Scan (expansions, quotes), Rules (lex_token and its ten rules), Valid and
--            Advance (the invariant), Loop (the loop of get_next_token in
--            srcs/parser/parse_token_flow.c)
-- Parser     srcs/parser: Tables, Dispatch, Stack, Nodes, Reduce (the handlers), Action (the look-up
--            in the tables), ShiftReduce, Init, Classify (classify_token), Flow
--            (parse_token_flow.c), Input (parse_input.c, with execute_list as a parameter); Grammar
--            is the grammar of notes/shni_grammar_reduced.y, and Automaton, Check, Stacked, Holds,
--            Keeps, Potential, Sound and Accepts relate the tables and the stack to it, and
--            Running, Safety, Progress and Whole the loop
-- HereDoc    srcs/lexer: Write (the text of a line, against which Expand sets a replacement of
--            variables by recursion), Read, Doc (lex_heredoc.c and get_here_doc), Lines, Body and
--            NoFile (the loop of get_here_doc), Keeps
-- Expansion  srcs/expansions: Fields (expand_field.c), Scan (expand_helpers.c, expand_var.c,
--            expand_quote.c), Text (the text of a word by recursion on it), Runs, Appends, Segment,
--            Closing, Round and Word (the scan against that text), Ends, Args, Argv and Redir (expansion.c)
-- Environment srcs/environment and ft_split_key_value: Defs (the list of variables), Lookup, Unique,
--            Defaults (init_env and add_env_defaults), Exported
-- Execute    srcs/execute: List (execute_list, over an interface for pipelines), AndOr and Evaluate
--            (its evaluator), Split (ft_split_with_empty), Pathname (the search in PATH), Process
--            (t_ctx with its descriptors and srcs/error_handling/close_fds.c), Redirect
--            (process_redirection.c), Child (what children do, and fork), InShell
--            (srcs/builtin/execute_builtin.c), Command (build_command.c,
--            command_search_and_execution.c, execute_simple_command.c), Wait, Pipeline; Owns, Nodes,
--            Held, Between, Leaves, Rewritten, Simple and Kept count the descriptors, Tables, Saved,
--            Restored and Entered follow the files behind 0 and 1, and Reaps the children
-- Builtin    srcs/builtin: Unset, Export, Echo, Exit, Number (the numbers that exit takes), Listing
--            (env, pwd and export without arguments)
-- Shell      srcs/main.c, over the parser's loop; Session (its run as a relation)
--
-- Enums are data types, structs are records, bit flags are records of Bool, C strings are lists of
-- byte codes without the closing NUL, and a read outside a table or below the stack is `none`.
-- Every function returns the context it changes. Allocation is taken to succeed. Loops over a
-- string or a list recurse on it; the loop of get_next_token runs on fuel, and two more than twice
-- the bytes left, one more with a token in the making, are enough, since each call reads a byte or
-- completes a token; execute_list runs on fuel, and one more than there are pipelines is enough; a
-- sibling list has fewer nodes than its arena. The parser's loop runs on fuel: the pass at the end
-- of the input takes at most eleven actions for each symbol on the stack and four more; the loop
-- before it lasts as long as there are lines to read. The lines that are read, NULL at the end
-- included, are a list in the context, and what is written for a here-document another. The int of
-- SHLVL wraps from INT_MAX to INT_MIN. A pipeline may rewrite the nodes of its redirections, as the
-- shell does where a here-document is used up, but neither changes nor makes the node of a pipeline.
--
-- Not modelled: output for debugging, error messages, the handlers of signals, what is freed before
-- an exit, cd, and the prompt. What the system does behind open, dup, pipe, fork, execve and waitpid
-- is a parameter.
pub mod Base
pub mod Libft
pub mod Os
pub mod Utils
pub mod Types
pub mod Ctx
pub mod Samples
pub mod Lexer
pub mod Parser
pub mod Environment
pub mod HereDoc
pub mod Expansion
pub mod Execute
pub mod Builtin
pub mod Shell
