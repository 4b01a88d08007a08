-- ===== src/Parser/Yaml.antt =====
-- The interface of rapidyaml (`ryml`) as far as the parsers call it. A text that is no YAML is left
-- out: rapidyaml's error callback ends the program on it, so `parse_in_arena` stands for the texts
-- that it parses.
use tsn_gen.Prelude.{Text, ℕ, Bool, true, false, Option, none, some, List}

-- A tree of nodes. A missing child, which `[]` returns as an invalid node, is none.
pub record Ryml : Type 1 where
  pub Node : Type 0
  -- The root of a parsed text; none for the empty tree.
  pub parse_in_arena : Text → Option Node
  pub is_map : Node → Bool
  pub is_seq : Node → Bool
  pub has_val : Node → Bool
  pub has_key : Node → Bool
  pub key_is_null : Node → Bool
  -- `val().is_number()`.
  pub is_number : Node → Bool
  pub val : Node → Text
  pub key : Node → Text
  -- `node[name]`.
  pub child : Text → Node → Option Node
  pub children : Node → List Node
  -- The line and the column of a node.
  pub location : Node → ℕ × ℕ

abbrev pub is_some {ℓ} : {A : Type ℓ} → Option A → Bool
is_some none = false
is_some (some a) = true
