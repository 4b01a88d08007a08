-- ===== src/Parser/Validator.antt =====
-- `ProtocolValidator` (parser/inc/tsn/validator.h, parser/src/validator.cpp). A check passes on the
-- findings so far and their number of errors, or none where an exception escapes it.
pub mod Messages
pub mod Schema
pub mod Files
pub mod Steps
pub mod Conforms
pub mod Laws
pub mod Reports
pub mod Accepted
use tsn_gen.Prelude.{
  Text, codes, text_eq, is_empty, ℕ, ◌+◌, ◌≤◌, leb, ◌==◌, Bool, true, false, not, ◌&&◌, ◌||◌, List,
  [], ◌∷◌, ◌++◌, Option, none, some, if◌then◌else◌, length,
}
use tsn_gen.Parser.Number.{ℤ, pos, negsuc, stoull, stoll}
use tsn_gen.Parser.Validator.Messages.{unknown_key}
use tsn_gen.Parser.Yaml.{Ryml, is_some}

pub data Severity : Type 0 where
  error warning : Severity

pub record ValidationFinding : Type 0 where
  pub file : Text
  pub line : ℕ
  pub col : ℕ
  pub severity : Severity
  pub message : Text

pub record Ctx : Type 0 where
  pub path : Text
  pub out : List ValidationFinding
  pub errors : ℕ

abbrev pub Step : Type 0
Step = Ctx → Option Ctx

abbrev pub pass : Step
pass ctx = some ctx

-- One check after the other.
infixr 5 ◌then_check◌
abbrev pub ◌then_check◌ : Step → Step → Step
(f then_check g) ctx = elim (f ctx) [ none ↦ none | some ctx' ↦ g ctx' ]

unfoldable pub member : Text → List Text → Bool
member name [] = false
member name (key ∷ keys) = text_eq name key || member name keys

module _ (ryml : Ryml) where
  open ryml use {Node, is_map, is_seq, has_val, has_key, val, key, child, children, location}

  abbrev pub position : Option Node → ℕ × ℕ
  position none = (0, 0)
  position (some node) = location node

  abbrev pub count_of : Severity → ℕ
  count_of error = 1
  count_of warning = 0

  -- `Ctx::add`.
  unfoldable pub add : Option Node → Severity → Text → Ctx → Ctx
  add node sev msg ctx = record {
    path = ctx.path;
    out =
        ctx.out
        ++ record {
          file = ctx.path;
          line = (position node).0;
          col = (position node).1;
          severity = sev;
          message = msg;
        }
          ∷ [];
    errors = ctx.errors + count_of sev;
  }

  abbrev pub report : Node → Text → Step
  report node msg ctx = some (add (some node) error msg ctx)

  -- `if (!ok) ctx.add(node, ERROR, msg);`
  abbrev pub require : Bool → Node → Text → Step
  require ok node msg = if ok then pass else report node msg

  abbrev pub is_non_empty_scalar : Node → Bool
  is_non_empty_scalar node = has_val node && not (is_empty (val node))

  abbrev sign_first : Text → Bool
  sign_first [] = false
  sign_first (c ∷ s) = c == b'-' || c == b'+'

  abbrev whole : Text → Option (ℕ × ℕ) → Bool
  whole s none = false
  whole s (some r) = r.1 == length s

  unfoldable pub is_uint_scalar : Node → Bool
  is_uint_scalar node =
      let s = val node in has_val node && not (is_empty s || sign_first s) && whole s (stoull 0 s)

  unfoldable pub as_int : Node → Option ℤ
  as_int node = stoll 0 (val node)

  -- `bits < 1 || bits > 4096`, negated.
  abbrev pub in_bounds : ℤ → Bool
  in_bounds (pos n) = leb 1 n && leb n 4096
  in_bounds (negsuc n) = false

  -- `checkAllowedKeys`.
  unfoldable pub allowed_loop : List Text → Text → List Node → Step
  unfolding member
  allowed_loop allowed place [] = pass
  allowed_loop allowed place (node ∷ nodes) =
      require (not (has_key node) || member (key node) allowed) node (unknown_key (key node) place)
      then_check allowed_loop allowed place nodes

  abbrev pub check_allowed_keys : List Text → Text → Node → Step
  check_allowed_keys allowed place map = allowed_loop allowed place (children map)

  -- The name in the messages: that of the child if it is a scalar with a value.
  abbrev pub name_of : Option Node → Text
  name_of none = codes "?"
  name_of (some node) = if is_non_empty_scalar node then val node else codes "?"

  abbrev pub is_named : Option Node → Bool
  is_named none = false
  is_named (some node) = is_non_empty_scalar node

  -- A check of a child that need not be there.
  abbrev pub optional : (Node → Step) → Option Node → Step
  optional f none = pass
  optional f (some node) = f node

  unfoldable pub for_each_node : (Node → Step) → List Node → Step
  for_each_node f [] = pass
  for_each_node f (node ∷ nodes) = f node then_check for_each_node f nodes
