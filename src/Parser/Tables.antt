-- ===== src/Parser/Tables.antt =====
-- The LALR tables, srcs/parser/yy_pact.c and yy_table.c. A read outside a table is `none`. The
-- entries of yydefact, yydefgoto and yytable are not negative.
use minishell.Base.{ℕ, Option, List, [], ◌∷◌, ℤ, pos, negsuc, get_elem?}

abbrev yypact : List ℤ
yypact =
    pos 8
    ∷ negsuc 43
    ∷ pos 18
    ∷ pos 21
    ∷ pos 33
    ∷ negsuc 43
    ∷ negsuc 43
    ∷ negsuc 43
    ∷ pos 14
    ∷ pos 14
    ∷ pos 30
    ∷ pos 14
    ∷ pos 8
    ∷ pos 8
    ∷ pos 17
    ∷ pos 16
    ∷ negsuc 43
    ∷ pos 58
    ∷ negsuc 43
    ∷ pos 40
    ∷ pos 47
    ∷ negsuc 43
    ∷ negsuc 43
    ∷ negsuc 43
    ∷ negsuc 43
    ∷ negsuc 43
    ∷ negsuc 43
    ∷ negsuc 43
    ∷ negsuc 43
    ∷ negsuc 43
    ∷ pos 24
    ∷ pos 33
    ∷ pos 7
    ∷ negsuc 43
    ∷ pos 8
    ∷ pos 8
    ∷ pos 8
    ∷ pos 58
    ∷ negsuc 43
    ∷ negsuc 43
    ∷ pos 54
    ∷ negsuc 43
    ∷ negsuc 43
    ∷ pos 40
    ∷ negsuc 43
    ∷ negsuc 43
    ∷ pos 17
    ∷ pos 8
    ∷ pos 17
    ∷ pos 33
    ∷ pos 33
    ∷ pos 33
    ∷ negsuc 43
    ∷ negsuc 43
    ∷ negsuc 43
    ∷ pos 54
    ∷ pos 7
    ∷ pos 16
    ∷ pos 16
    ∷ negsuc 43
    ∷ pos 17
    ∷ []

abbrev yydefact : List ℕ
yydefact =
    45 ∷ 42 ∷ 0 ∷ 44 ∷ 3 ∷ 1 ∷ 43 ∷ 24 ∷ 0 ∷ 0 ∷ 0 ∷ 0 ∷ 45 ∷ 45 ∷ 5 ∷ 6 ∷ 9 ∷ 12 ∷ 11 ∷ 23 ∷ 21
    ∷ 26 ∷ 34 ∷ 35 ∷ 39 ∷ 36 ∷ 37 ∷ 41 ∷ 40 ∷ 38 ∷ 0 ∷ 0 ∷ 44 ∷ 2 ∷ 45 ∷ 45 ∷ 45 ∷ 13 ∷ 32 ∷ 30 ∷ 22
    ∷ 28 ∷ 25 ∷ 20 ∷ 27 ∷ 14 ∷ 18 ∷ 15 ∷ 4 ∷ 0 ∷ 0 ∷ 0 ∷ 33 ∷ 31 ∷ 29 ∷ 19 ∷ 16 ∷ 7 ∷ 8 ∷ 10 ∷ 17
    ∷ []

abbrev yypgoto : List ℤ
yypgoto =
    negsuc 43
    ∷ negsuc 43
    ∷ negsuc 43
    ∷ negsuc 26
    ∷ negsuc 42
    ∷ negsuc 6
    ∷ negsuc 43
    ∷ negsuc 43
    ∷ negsuc 43
    ∷ negsuc 43
    ∷ negsuc 43
    ∷ negsuc 43
    ∷ negsuc 43
    ∷ negsuc 8
    ∷ negsuc 43
    ∷ negsuc 16
    ∷ negsuc 43
    ∷ pos 13
    ∷ negsuc 43
    ∷ negsuc 43
    ∷ negsuc 11
    ∷ negsuc 3
    ∷ []

abbrev yydefgoto : List ℕ
yydefgoto =
    0 ∷ 2 ∷ 13 ∷ 14 ∷ 15 ∷ 16 ∷ 17 ∷ 30 ∷ 47 ∷ 18 ∷ 19 ∷ 43 ∷ 20 ∷ 40 ∷ 37 ∷ 21 ∷ 22 ∷ 25 ∷ 23 ∷ 28
    ∷ 3 ∷ 4 ∷ []

abbrev yytable : List ℕ
yytable =
    38 ∷ 32 ∷ 41 ∷ 44 ∷ 46 ∷ 48 ∷ 57 ∷ 58 ∷ 31 ∷ 33 ∷ 7 ∷ 6 ∷ 1 ∷ 8 ∷ 9 ∷ 10 ∷ 11 ∷ 24 ∷ 5 ∷ 12 ∷ 52
    ∷ 36 ∷ 26 ∷ 54 ∷ 29 ∷ 6 ∷ 41 ∷ 34 ∷ 35 ∷ 60 ∷ 49 ∷ 50 ∷ 51 ∷ 27 ∷ 55 ∷ 56 ∷ 7 ∷ 45 ∷ 54 ∷ 8 ∷ 9
    ∷ 10 ∷ 11 ∷ 39 ∷ 59 ∷ 12 ∷ 8 ∷ 9 ∷ 10 ∷ 11 ∷ 42 ∷ 0 ∷ 0 ∷ 8 ∷ 9 ∷ 10 ∷ 11 ∷ 53 ∷ 0 ∷ 0 ∷ 8 ∷ 9
    ∷ 10 ∷ 11 ∷ 8 ∷ 9 ∷ 10 ∷ 11 ∷ []

abbrev yycheck : List ℤ
yycheck =
    pos 17
    ∷ pos 13
    ∷ pos 19
    ∷ pos 20
    ∷ pos 31
    ∷ pos 32
    ∷ pos 49
    ∷ pos 50
    ∷ pos 12
    ∷ pos 13
    ∷ pos 3
    ∷ pos 4
    ∷ pos 4
    ∷ pos 6
    ∷ pos 7
    ∷ pos 8
    ∷ pos 9
    ∷ pos 3
    ∷ pos 0
    ∷ pos 12
    ∷ pos 37
    ∷ pos 5
    ∷ pos 9
    ∷ pos 40
    ∷ pos 11
    ∷ pos 4
    ∷ pos 43
    ∷ pos 10
    ∷ pos 11
    ∷ pos 56
    ∷ pos 34
    ∷ pos 35
    ∷ pos 36
    ∷ pos 3
    ∷ pos 43
    ∷ pos 47
    ∷ pos 3
    ∷ pos 13
    ∷ pos 55
    ∷ pos 6
    ∷ pos 7
    ∷ pos 8
    ∷ pos 9
    ∷ pos 3
    ∷ pos 51
    ∷ pos 12
    ∷ pos 6
    ∷ pos 7
    ∷ pos 8
    ∷ pos 9
    ∷ pos 3
    ∷ negsuc 0
    ∷ negsuc 0
    ∷ pos 6
    ∷ pos 7
    ∷ pos 8
    ∷ pos 9
    ∷ pos 3
    ∷ negsuc 0
    ∷ negsuc 0
    ∷ pos 6
    ∷ pos 7
    ∷ pos 8
    ∷ pos 9
    ∷ pos 6
    ∷ pos 7
    ∷ pos 8
    ∷ pos 9
    ∷ []

unfoldable pub get_yypact : ℕ → Option ℤ
get_yypact idx = get_elem? yypact idx

unfoldable pub get_yydefact : ℕ → Option ℕ
get_yydefact idx = get_elem? yydefact idx

unfoldable pub get_yypgoto : ℕ → Option ℤ
get_yypgoto idx = get_elem? yypgoto idx

unfoldable pub get_yydefgoto : ℕ → Option ℕ
get_yydefgoto idx = get_elem? yydefgoto idx

unfoldable pub get_yytable : ℕ → Option ℕ
get_yytable idx = get_elem? yytable idx

unfoldable pub get_yycheck : ℕ → Option ℤ
get_yycheck idx = get_elem? yycheck idx
