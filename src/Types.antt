-- ===== src/Types.antt =====
-- inc/types.h: the enums and structs of the lexer and the parser. A word of flag bits is a record
-- with a field for each bit. The members of the union t_node_data are kept apart, since a node is
-- read through the member of its own type.
use minishell.Base.{
  ℕ, ◌≡◌, refl, sym, ap, ◌∙◌, Bool, true, false, Bytes, Option, List, [], ◌∷◌, ℤ, pos, ◌==◌, ==_iff,
  get_or,
}

pub data TokenType : Type 0 where
  no_token eof_token word_token operator_token : TokenType

pub data SymbolType : Type 0 where
  eof word newline pipe less great dless dgreat and_if or_if opar cpar accept : SymbolType
  program complete_commands and_or pipeline command subshell compound_list term : SymbolType
  simple_command cmd_name cmd_word cmd_prefix cmd_suffix redirect_list io_redirect : SymbolType
  io_file filename io_here here_end newline_list linebreak : SymbolType

-- the values of the enum e_symbol_type
unfoldable pub code : SymbolType → ℕ
code eof = 0
code word = 3
code newline = 4
code pipe = 5
code less = 6
code great = 7
code dless = 8
code dgreat = 9
code and_if = 10
code or_if = 11
code opar = 12
code cpar = 13
code accept = 14
code program = 15
code complete_commands = 16
code and_or = 17
code pipeline = 18
code command = 19
code subshell = 20
code compound_list = 21
code term = 22
code simple_command = 23
code cmd_name = 24
code cmd_word = 25
code cmd_prefix = 26
code cmd_suffix = 27
code redirect_list = 28
code io_redirect = 29
code io_file = 30
code filename = 31
code io_here = 32
code here_end = 33
code newline_list = 34
code linebreak = 35

abbrev pub same : SymbolType → SymbolType → Bool
unfolding code
same s t = code s == code t

-- the symbols by their values; 1 and 2 are not used
abbrev by_code : List SymbolType
by_code =
    eof ∷ eof ∷ eof ∷ word ∷ newline ∷ pipe ∷ less ∷ great ∷ dless ∷ dgreat ∷ and_if ∷ or_if ∷ opar
    ∷ cpar ∷ accept ∷ program ∷ complete_commands ∷ and_or ∷ pipeline ∷ command ∷ subshell
    ∷ compound_list ∷ term ∷ simple_command ∷ cmd_name ∷ cmd_word ∷ cmd_prefix ∷ cmd_suffix
    ∷ redirect_list ∷ io_redirect ∷ io_file ∷ filename ∷ io_here ∷ here_end ∷ newline_list
    ∷ linebreak ∷ []

by_code-code : (s : SymbolType) → get_or by_code (code s) eof ≡ s
unfolding code
by_code-code eof = refl
by_code-code _ = refl

-- The enum's values tell its constants apart.
pub eq_of_same : (s t : SymbolType) → same s t ≡ true → s ≡ t
unfolding code
eq_of_same s t h =
    sym (by_code-code s) ∙ ap (λ n. get_or by_code n eof) ((==_iff _ _).0 h) ∙ by_code-code t

-- TKN_HAS_QUOTES, TKN_HAS_EXPANSION, LEX_IS_BUILDING, LEX_AT_EOI, LEX_INTERRUPTED
pub record LexFlags : Type 0 where
  pub has_quotes : Bool
  pub has_expansion : Bool
  pub is_building : Bool
  pub at_eoi : Bool
  pub interrupted : Bool

abbrev pub no_lex_flags : LexFlags
no_lex_flags = record {
  has_quotes = false;
  has_expansion = false;
  is_building = false;
  at_eoi = false;
  interrupted = false;
}

pub record Token : Type 0 where
  pub offset : ℕ
  pub type : TokenType
  pub flags : LexFlags

abbrev pub zero_token : Token
zero_token = record { offset = 0; type = no_token; flags = no_lex_flags }

pub record Slice : Type 0 where
  pub pos : ℕ
  pub len : ℕ

pub record LexerState : Type 0 where
  pub token : Slice
  pub char_idx : ℕ
  pub type : TokenType
  pub flags : LexFlags

abbrev pub zero_lexer : LexerState
zero_lexer = record {
  token = record { pos = 0; len = 0 };
  char_idx = 0;
  type = no_token;
  flags = no_lex_flags;
}

pub record Symbol : Type 0 where
  pub node_idx : ℕ
  pub token_idx : ℕ
  pub entry_state : ℕ
  pub type : SymbolType

abbrev pub zero_symbol : Symbol
zero_symbol = record { node_idx = 0; token_idx = 0; entry_state = 0; type = eof }

pub data NodeType : Type 0 where
  default_node pipeline_node command_node arg_node redir_node : NodeType

-- FLAG_AND_IF, FLAG_OR_IF, FLAG_SUBSHELL, REDIR_IN, REDIR_OUT, REDIR_HERE, REDIR_APPEND,
-- REDIR_HAS_QUOTES
pub record NodeFlags : Type 0 where
  pub and_if : Bool
  pub or_if : Bool
  pub subshell : Bool
  pub redir_in : Bool
  pub redir_out : Bool
  pub redir_here : Bool
  pub redir_append : Bool
  pub redir_has_quotes : Bool

abbrev pub no_node_flags : NodeFlags
no_node_flags = record {
  and_if = false;
  or_if = false;
  subshell = false;
  redir_in = false;
  redir_out = false;
  redir_here = false;
  redir_append = false;
  redir_has_quotes = false;
}

-- The members pipeline, command, arg and redir of the union; the flags of a word are masked by
-- 0x03, which leaves TKN_HAS_QUOTES and TKN_HAS_EXPANSION.
pub record NodeData : Type 0 where
  pub command_head_idx : ℕ
  pub arg_head_idx : ℕ
  pub redir_head_idx : ℕ
  pub arena_offset : ℕ
  pub fd : ℤ
  pub has_quotes : Bool
  pub has_expansion : Bool

abbrev pub zero_data : NodeData
zero_data = record {
  command_head_idx = 0;
  arg_head_idx = 0;
  redir_head_idx = 0;
  arena_offset = 0;
  fd = pos 0;
  has_quotes = false;
  has_expansion = false;
}

pub record Node : Type 0 where
  pub content : NodeData
  pub next_idx : ℕ
  pub type : NodeType
  pub flags : NodeFlags

abbrev pub zero_node : Node
zero_node = record { content = zero_data; next_idx = 0; type = default_node; flags = no_node_flags }

-- PARSE_SAVE_TOKENS, PARSE_HERE_BODY, PARSE_HAS_SAVED_TOKENS, PARSE_HAS_LOOKAHEAD, PARSE_DONE,
-- PARSE_ERROR, PARSE_INTERRUPTED
pub record ParseFlags : Type 0 where
  pub save_tokens : Bool
  pub here_body : Bool
  pub has_saved_tokens : Bool
  pub has_lookahead : Bool
  pub done : Bool
  pub error : Bool
  pub interrupted : Bool

abbrev pub no_parse_flags : ParseFlags
no_parse_flags = record {
  save_tokens = false;
  here_body = false;
  has_saved_tokens = false;
  has_lookahead = false;
  done = false;
  error = false;
  interrupted = false;
}

pub record ParserState : Type 0 where
  pub stack_idx : ℕ
  pub token_idx : ℕ
  pub exec_root_idx : ℕ
  pub state : ℕ
  pub lookahead_type : SymbolType
  pub flags : ParseFlags

abbrev pub zero_parser : ParserState
zero_parser = record {
  stack_idx = 0;
  token_idx = 0;
  exec_root_idx = 0;
  state = 0;
  lookahead_type = eof;
  flags = no_parse_flags;
}

pub data LalrAction : Type 0 where
  lalr_shift lalr_reduce lalr_accept lalr_error : LalrAction

-- What a read of the next line gives: a line, the end of the input, or NULL with g_signal SIGINT.
pub data Reading : Type 0 where
  line_read : Bytes → Reading
  input_ended : Reading
  input_interrupted : Reading

pub record EnvContent : Type 0 where
  pub key : Bytes
  pub val : Option Bytes
