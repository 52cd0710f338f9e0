-- ===== src/HereDoc/Tests.antt =====
-- Here-documents over concrete lines.
use minishell.Base.{◌≡◌, refl, true, some, none, false, List, [], ◌∷◌, Bytes, arith}
use minishell.Ctx.{Ctx}
use minishell.HereDoc.Body.{here_loop-Ended, Ended}
use minishell.HereDoc.Lines.{readings}
use minishell.HereDoc.NoFile.{here_loop-no_file}
use minishell.HereDoc.Expand.{ended, expand_here_line-expanded}
use minishell.HereDoc.Read.{is_delim_line, here_loop}
use minishell.HereDoc.Write.{expand_here_line, expanded}
use minishell.Libft.{concrete}
use minishell.Samples.{ctx, codes}
use minishell.Types.{EnvContent, zero_node, zero_lexer}

abbrev vals : List EnvContent
vals = record { key = codes "HOME"; val = some (codes "/root") } ∷ []

expand_here_line-expanded_example :
    expand_here_line concrete vals 0 (ended (codes "at $HOME, $? $X")) 15
    ≡ expanded concrete vals 0 (ended (codes "at $HOME, $? $X")) 0
expand_here_line-expanded_example =
    expand_here_line-expanded concrete vals 0 (codes "at $HOME, $? $X")

abbrev lines : List Bytes
lines = codes "at $HOME" ∷ codes "END" ∷ codes "left" ∷ []

abbrev sample : Ctx concrete
sample = record (ctx "" vals) { input = readings lines [] }

here_loop-Ended_example :
    Ended concrete
      (codes "END")
      zero_node
      []
      sample
      lines
      []
      (here_loop concrete 4 true (codes "END") zero_node sample zero_lexer [])
here_loop-Ended_example =
    here_loop-Ended concrete (codes "END") zero_node [] lines 4 sample zero_lexer []
      (refl, (refl, (refl, tt))) refl refl refl refl (omega arith)

abbrev pending : Ctx concrete
pending = ctx "text\n" []

here_loop-no_file_example :
    here_loop concrete 9 false (codes "END") zero_node pending zero_lexer [] ≡ none
unfolding is_delim_line
here_loop-no_file_example =
    here_loop-no_file concrete (codes "END") zero_node 9 pending zero_lexer [] refl refl
