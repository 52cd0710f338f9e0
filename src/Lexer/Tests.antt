-- ===== src/Lexer/Tests.antt =====
-- Runs of the tokenizer over concrete lines.
use minishell.Base.{◌+◌, ◌≤◌, ◌≡◌, refl, true, some, [], Bytes, arith, drop, length}
use minishell.Lexer.Advance.{Advances, lex_token-Advances}
use minishell.Lexer.Scan.{is_expansion_start, get_expansion_len}
use minishell.Utils.{is_name_start, is_char_in_set}
use minishell.Libft.{concrete}
use minishell.Lexer.Loop.{lex_next, Lexed, lex_next-Lexed}
use minishell.Lexer.Rules.{Step, lex_token}
use minishell.Lexer.Valid.{IsValid, get_expansion_len_bounds}
use minishell.Samples.{codes, ctx}
use minishell.Types.{zero_lexer}

zero_lexer-IsValid : (line : Bytes) → IsValid line zero_lexer
zero_lexer-IsValid line = ground arith

lex_next-Lexed_example :
    (s : Step concrete) × (lex_next concrete 22 (ctx "ls >> a$b\n" []) zero_lexer ≡ some s)
    × Lexed concrete (ctx "ls >> a$b\n" []) zero_lexer s
lex_next-Lexed_example =
    lex_next-Lexed concrete 22 (ctx "ls >> a$b\n" []) zero_lexer
      (zero_lexer-IsValid (codes "ls >> a$b\n")) (omega arith)

lex_token-Advances_example :
    Advances concrete
      (ctx "ls >> a$b\n" [])
      zero_lexer
      (lex_token concrete (ctx "ls >> a$b\n" []) zero_lexer)
lex_token-Advances_example =
    lex_token-Advances concrete (ctx "ls >> a$b\n" []) zero_lexer
      (zero_lexer-IsValid (codes "ls >> a$b\n")) (ground arith)

dollar_starts : is_expansion_start concrete (codes "echo$ab") 4 ≡ true
unfolding is_expansion_start is_name_start is_char_in_set
dollar_starts = refl

get_expansion_len_bounds_example :
    (2 ≤ get_expansion_len concrete (drop 4 (codes "echo$ab")))
    × (4 + get_expansion_len concrete (drop 4 (codes "echo$ab")) ≤ length (codes "echo$ab"))
get_expansion_len_bounds_example =
    get_expansion_len_bounds concrete (codes "echo$ab") 4 dollar_starts
