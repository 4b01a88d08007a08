-- ===== src/Tests/Files.antt =====
-- A protocol file and a stack file for the examples, as the nodes of an arena.
use tsn_gen.Prelude.{
  Text, codes, text_eq, is_empty, ℕ, leb, Bool, true, false, not, ◌&&◌, List, [], ◌∷◌, Option, none,
  some, if◌then◌else◌, get_or,
}
use tsn_gen.Parser.Yaml.{Ryml}
use tsn_gen.Parser.Listing.{Entry, regular_file, directory}

pub data Shape : Type 0 where
  a_map a_list : List ℕ → Shape
  a_scalar : Text → Shape

pub record ArenaNode : Type 0 where
  pub name : Text
  pub shape : Shape

abbrev pub node_of : Text → Shape → ArenaNode
node_of name shape = record { name = name; shape = shape }

abbrev pub scalar : Text → Text → ArenaNode
scalar name text = node_of name (a_scalar text)

-- Nodes 0 to 13 are a protocol with a var and an interface, 14 to 18 a stack with one layer.
abbrev pub arena : List ArenaNode
arena =
    node_of [] (a_map (1 ∷ 2 ∷ 6 ∷ []))
    ∷ scalar (codes "service") (codes "p")
    ∷ node_of (codes "vars") (a_list (3 ∷ []))
    ∷ node_of [] (a_map (4 ∷ 5 ∷ []))
    ∷ scalar (codes "var") (codes "kind")
    ∷ scalar (codes "size") (codes "12")
    ∷ node_of (codes "entities") (a_list (7 ∷ []))
    ∷ node_of [] (a_map (8 ∷ 9 ∷ []))
    ∷ scalar (codes "entity") (codes "e")
    ∷ node_of (codes "interfaces") (a_list (10 ∷ []))
    ∷ node_of [] (a_map (11 ∷ 12 ∷ []))
    ∷ scalar (codes "interface") (codes "i")
    ∷ scalar (codes "dir") (codes "out")
    ∷ scalar [] []
    ∷ node_of [] (a_map (15 ∷ 16 ∷ []))
    ∷ scalar (codes "stack") (codes "st")
    ∷ node_of (codes "layers") (a_list (17 ∷ []))
    ∷ node_of [] (a_map (18 ∷ []))
    ∷ scalar (codes "service") (codes "p")
    ∷ []

abbrev pub at : ℕ → ArenaNode
at n = get_or arena n (scalar [] [])

abbrev pub is_a_map : Shape → Bool
is_a_map (a_map ns) = true
is_a_map other = false

abbrev pub is_a_list : Shape → Bool
is_a_list (a_list ns) = true
is_a_list other = false

abbrev pub text_in : Shape → Text
text_in (a_scalar text) = text
text_in other = []

abbrev pub is_a_scalar : Shape → Bool
is_a_scalar (a_scalar text) = true
is_a_scalar other = false

abbrev pub below : Shape → List ℕ
below (a_map ns) = ns
below (a_list ns) = ns
below (a_scalar text) = []

abbrev pub named : Text → List ℕ → Option ℕ
named name [] = none
named name (n ∷ ns) = if text_eq (at n).name name then some n else named name ns

abbrev pub is_digit_first : Text → Bool
is_digit_first [] = false
is_digit_first (c ∷ s) = leb 48 c && leb c 57

abbrev pub arena_yaml : Ryml
arena_yaml = record {
  Node = ℕ;
  parse_in_arena = λ text.
      if is_empty text then none else if text_eq text (codes "stack") then some 14 else some 0;
  is_map = λ n. is_a_map (at n).shape;
  is_seq = λ n. is_a_list (at n).shape;
  has_val = λ n. is_a_scalar (at n).shape;
  has_key = λ n. not (is_empty (at n).name);
  key_is_null = λ n. false;
  is_number = λ n. is_digit_first (text_in (at n).shape);
  val = λ n. text_in (at n).shape;
  key = λ n. (at n).name;
  child = λ name n. named name (below (at n).shape);
  children = λ n. below (at n).shape;
  location = λ n. (n, 1);
}

-- Three files: a protocol, a stack and an empty one.
abbrev pub read_files : Text → Option Text
read_files path =
    if text_eq path (codes "a.yaml")
    then some (codes "protocol")
    else if text_eq path (codes "s.yaml")
    then some (codes "stack")
    else if text_eq path (codes "e.yaml")
    then some []
    else none

-- A directory that holds a protocol and a link to itself.
abbrev pub list_files : Text → Option (List Entry)
list_files path =
    if text_eq path (codes "d")
    then some (
        record { path = codes "a.yaml"; kind = regular_file (codes ".yaml") }
        ∷ record { path = codes "n.txt"; kind = regular_file (codes ".txt") }
        ∷ [])
    else if text_eq path (codes "loop")
    then some (record { path = codes "loop"; kind = directory } ∷ [])
    else none
