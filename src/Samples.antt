-- ===== src/Samples.antt =====
-- Concrete contexts for the tests of the components.
use Prim.Native.Char.{code}
use Prim.Native.String.{String}
use minishell.Base.{
  ◌+◌, ◌-◌, ◌≡◌, refl, ap, ◌∙◌, false, List, [], ◌∷◌, ◌++◌, Bytes, length, length-append, take,
  take-append, take_all, arith,
}
use minishell.Ctx.{Ctx}
use minishell.Expansion.Fields.{FieldArena}
use minishell.Libft.{concrete}
use minishell.Types.{EnvContent, zero_token, zero_symbol, zero_node}

-- code points; every literal in the tests is ASCII
abbrev pub codes : String → Bytes
codes String.[] = []
codes (String.◌∷◌ c s) = code c ∷ codes s

-- a context with this line, these variables and cleared arenas
abbrev pub ctx : String → List EnvContent → Ctx concrete
ctx line vals = record {
  vals = vals;
  read_line = codes line;
  return_status = 0;
  should_exit = false;
  input = [];
  bodies = [];
  strings = concrete.clear_strings;
  tokens = (1, λ _. zero_token);
  stack = (1, λ _. zero_symbol);
  commands = (1, λ _. zero_node);
}

pub without_last : (f : Bytes) → take (length (f ++ (0 ∷ [])) - 1) (f ++ (0 ∷ [])) ≡ f
without_last f =
    let n : length (f ++ (0 ∷ [])) - 1 ≡ length f = omega (arith, length-append f (0 ∷ [])) in
    ap (λ k. take k (f ++ (0 ∷ []))) n
    ∙ take-append f (0 ∷ []) (length f) (omega arith)
    ∙ take_all f (length f) (omega arith)

-- the functions on the arena of fields, on lists
abbrev pub arena : FieldArena
arena = record {
  strlcpy = λ fields src size. fields ++ (take (size - 1) src ++ (0 ∷ []));
  strlcat = λ fields src size. take (length fields - 1) fields ++ (take (size - 1) src ++ (0 ∷ []));
  itoa = λ fields n. fields ++ (concrete.itoa n ++ (0 ∷ []));
  printed = concrete.itoa;
  strlcpy_lem = λ fields src size.
      let n : size + 1 - 1 ≡ size = omega arith in ap (λ k. fields ++ (take k src ++ (0 ∷ []))) n;
  strlcat_lem = λ fields src size.
      let n : size + 1 - 1 ≡ size = omega arith in
      ap
        (λ k.
          take (length (fields ++ (0 ∷ [])) - 1) (fields ++ (0 ∷ [])) ++ (take k src ++ (0 ∷ [])))
        n
      ∙ ap (λ f. f ++ (take size src ++ (0 ∷ []))) (without_last fields);
  itoa_lem = λ fields n. refl;
}
