-- ===== src/Expansion/Tests.antt =====
-- Words over concrete variables.
use minishell.Base.{
  true, ◌==◌, if◌then◌else◌, ℕ, ◌≡◌, refl, false, Option, none, some, List, [], ◌∷◌, ◌++◌, Bytes,
  length, arith,
}
use minishell.Ctx.{Ctx}
use minishell.Environment.Defs.{Env}
use minishell.Expansion.Args.{expand_args, args_bytes, args_refs, expand_args-args_refs}
use minishell.Expansion.Ends.{scan_word_ends}
use minishell.Expansion.Fields.{FieldRef, at_fields, Expanding}
use minishell.Expansion.Argv.{finish_args, args_text, finish_args-args_text}
use minishell.Expansion.Redir.{redir_needs_scan, expand_redir, resolved, expand_redir-word_text}
use minishell.Expansion.Scan.{scan_word, has_closing_quote, get_env_from_slice, append_segment}
use minishell.Expansion.Text.{unquoted, word_text}
use minishell.Expansion.Word.{AtRest, field_bytes, field_refs, scan_word-word_text}
use minishell.Lexer.Scan.{is_expansion_start, get_expansion_len, name_len}
use minishell.Libft.{concrete}
use minishell.Samples.{codes, ctx, arena}
use minishell.Types.{Node, arg_node, zero_node, zero_data}
use minishell.Utils.{is_char_in_set, is_name_start, is_name_body}

abbrev vals : Env
vals =
    record { key = codes "HOME"; val = some (codes "/root") }
    ∷ record { key = codes "EMPTY"; val = some [] }
    ∷ []

abbrev start : Expanding
start = record {
  fields = codes "ls" ++ (0 ∷ []);
  refs = [];
  exp = record {
    field = record { pos = 0; len = 0 };
    flags = record { has_field = false; in_squote = false; in_dquote = false };
  };
}

abbrev word : Bytes
word = codes "$HOME/'a b'\"$?$EMPTY\"$X"

scan_word-word_text_example :
    (let text = word_text arena concrete vals 7 unquoted word 0 in
      (e' : Expanding) × (scan_word arena concrete vals 7 25 start word ≡ some e')
      × (e'.fields ≡ start.fields ++ field_bytes text)
      × (e'.refs ≡ start.refs ++ field_refs (length start.fields) text)
      × AtRest e')
unfolding is_char_in_set
scan_word-word_text_example =
    scan_word-word_text arena concrete vals 7 25 start word (refl, refl, refl) refl (omega arith)

-- the field of this word
word_text_test : word_text arena concrete vals 7 unquoted word 0 ≡ some (codes "/root/a b7")
unfolding word_text has_closing_quote is_expansion_start is_name_start get_expansion_len
    is_char_in_set name_len is_name_body get_env_from_slice
word_text_test = refl

abbrev split_vals : Env
split_vals =
    record { key = codes "a"; val = some (codes "x y") }
    ∷ record { key = codes "b"; val = some (codes "z w") }
    ∷ []

abbrev fields_of : Option Expanding → Bytes × List FieldRef
fields_of none = ([], [])
fields_of (some e) = (e.fields, e.refs)

abbrev field_at : ℕ → FieldRef
field_at offset = record { arena = at_fields; offset = offset }

-- two values that are split, behind one another
split_test : fields_of (scan_word arena concrete split_vals 0 4 start (codes "$a$b")) ≡ (
  codes "ls" ++ (0 ∷ codes "x") ++ (0 ∷ codes "y") ++ (0 ∷ codes " w") ++ (0 ∷ []),
  field_at 3 ∷ field_at 5 ∷ [],
)
unfolding scan_word has_closing_quote is_expansion_start is_name_start get_expansion_len
    is_char_in_set name_len is_name_body append_segment
split_test = refl

abbrev first_str : concrete.Strings
first_str = concrete.strlcpy concrete.clear_strings (codes "ls")

abbrev plain_arg : Node
plain_arg = record zero_node {
  type = arg_node;
  next_idx = 2;
  content = record zero_data { arena_offset = concrete.offset concrete.clear_strings };
}

abbrev quoted_arg : Node
quoted_arg = record zero_node {
  type = arg_node;
  content = record zero_data { arena_offset = concrete.offset first_str; has_quotes = true };
}

abbrev sample : Ctx concrete
sample = record (ctx "" vals) {
  strings = concrete.strlcpy first_str word;
  commands = (3, λ i. if i == 1 then plain_arg else if i == 2 then quoted_arg else zero_node);
}

abbrev args : List Node
args = plain_arg ∷ quoted_arg ∷ []

expand_args-args_refs_example :
    (e' : Expanding) × (expand_args arena concrete sample 2 start plain_arg ≡ some e')
    × (e'.fields ≡ start.fields ++ args_bytes arena concrete sample args)
    × (e'.refs ≡ start.refs ++ args_refs arena concrete sample (length start.fields) args)
    × AtRest e'
unfolding is_char_in_set
expand_args-args_refs_example =
    expand_args-args_refs arena concrete sample args 2 start plain_arg
      (refl, refl, (refl, refl, refl)) (omega arith) (refl, refl, refl) refl

abbrev redir_text : Option Bytes
redir_text = word_text arena concrete vals 0 unquoted word 0

expand_redir-word_text_example :
    (e' : Expanding) × (expand_redir arena concrete sample start quoted_arg
      ≡ some (
        e',
        (resolved arena concrete sample start quoted_arg redir_text).0,
        (resolved arena concrete sample start quoted_arg redir_text).1,
      ))
    × (e'.fields ≡ start.fields ++ field_bytes redir_text)
    × (e'.refs ≡ start.refs)
    × AtRest e'
unfolding is_char_in_set redir_needs_scan
expand_redir-word_text_example =
    expand_redir-word_text arena concrete sample start quoted_arg refl (refl, refl, refl) refl

finish_args-args_text_example :
    (e' : Expanding) × (expand_args arena concrete sample 2 start plain_arg ≡ some e')
    × (finish_args arena concrete sample e' ≡ args_text arena concrete sample args)
unfolding word_text has_closing_quote is_expansion_start is_name_start get_expansion_len
    is_char_in_set name_len is_name_body get_env_from_slice
finish_args-args_text_example =
    finish_args-args_text arena concrete sample args 2 start plain_arg
      (refl, refl, (refl, refl, refl)) (omega arith) (refl, refl, refl) refl refl (refl, (refl, tt))

scan_word_ends_example :
    (e : Expanding) × (scan_word arena concrete vals 0 7 start (codes "a$HOME'") ≡ some e)
scan_word_ends_example =
    scan_word_ends arena concrete vals 0 7 start (codes "a$HOME'") (omega arith)
