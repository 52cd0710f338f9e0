-- ===== src/Expansion/Fields.antt =====
-- The fields under construction: expand_field.c of srcs/expansions, and the arenas AT_FIELDS and
-- AT_ARGV. Allocation is taken to succeed.
use minishell.Base.{
  ℕ, ◌+◌, ◌≡◌, Bool, true, false, List, [], ◌∷◌, ◌++◌, Bytes, ltb, if◌then◌else◌, length, take, ℤ,
}
use minishell.Types.{Slice}

-- The functions of libft on AT_FIELDS, whose bytes before its offset are a list. They copy at most
-- one byte less than `size`, and end with a NUL; arena_strlcat writes over the last NUL.
pub record FieldArena : Type 0 where
  pub strlcpy : Bytes → Bytes → ℕ → Bytes
  pub strlcat : Bytes → Bytes → ℕ → Bytes
  pub itoa : Bytes → ℤ → Bytes
  pub printed : ℤ → Bytes
  pub strlcpy_lem :
      (fields src : Bytes) (size : ℕ)
      → strlcpy fields src (size + 1) ≡ fields ++ (take size src ++ (0 ∷ []))
  pub strlcat_lem :
      (fields src : Bytes) (size : ℕ)
      → strlcat (fields ++ (0 ∷ [])) src (size + 1) ≡ fields ++ (take size src ++ (0 ∷ []))
  pub itoa_lem : (fields : Bytes) (n : ℤ) → itoa fields n ≡ fields ++ (printed n ++ (0 ∷ []))

-- EXP_HAS_FIELD, EXP_IN_SQUOTE, EXP_IN_DQUOTE
pub record ExpandFlags : Type 0 where
  pub has_field : Bool
  pub in_squote : Bool
  pub in_dquote : Bool

pub record ExpandState : Type 0 where
  pub field : Slice
  pub flags : ExpandFlags

pub data ArenaType : Type 0 where
  at_string at_fields : ArenaType

pub record FieldRef : Type 0 where
  pub arena : ArenaType
  pub offset : ℕ

-- what an expansion changes: AT_FIELDS, the references in AT_ARGV (argc is their number), and the
-- state
pub record Expanding : Type 0 where
  pub fields : Bytes
  pub refs : List FieldRef
  pub exp : ExpandState

unfoldable pub append_field : FieldArena → Expanding → Bytes → ℕ → Expanding
append_field arena e src len =
    if e.exp.flags.has_field
    then if ltb 0 len
      then record e {
        fields = arena.strlcat e.fields src (len + 1);
        exp = record (e.exp) {
          field = record { pos = e.exp.field.pos; len = e.exp.field.len + len };
        };
      }
      else e
    else record e {
      fields = arena.strlcpy e.fields src (len + 1);
      exp = record {
        field = record { pos = length e.fields; len = len };
        flags = record (e.exp.flags) { has_field = true };
      };
    }

unfoldable pub record_reference : Expanding → ArenaType → ℕ → Expanding
record_reference e arena offset = record e {
  refs = e.refs ++ (record { arena = arena; offset = offset } ∷ []);
}

unfoldable pub delimit_field : Expanding → Expanding
unfolding record_reference
delimit_field e = record (record_reference e at_fields e.exp.field.pos) {
  exp = record {
    field = record { pos = 0; len = 0 };
    flags = record (e.exp.flags) { has_field = false };
  };
}
