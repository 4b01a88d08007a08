-- ===== src/Parser/StackBuilder/Results.antt =====
-- What `StackBuilder::build` leaves: a whole stack on success, and none on any error
-- (parser/src/stack_builder.cpp).
use tsn_gen.Prelude.{
  Text, codes, is_empty, ℕ, ◌+◌, ◌≡◌, ◌≢◌, refl, sym, ap, ◌∙◌, subst, arith, Bool, true, false, not,
  ◌||◌, List, [], ◌∷◌, ◌++◌, append-nil, append_assoc, Option, none, some, if◌then◌else◌, length,
  Bool-cases, inl, inr,
}
use tsn_gen.Database.{Database}
use tsn_gen.Layer.{StackLayer, Stack}
use tsn_gen.Layer.Adjacency.{add_layer, wire_loop, wire_adjacency}
use tsn_gen.Layer.Laws.{IsLinked, wire_adjacency-IsLinked}
use tsn_gen.Layer.Registry.{LogicRegistry}
use tsn_gen.Parser.Protocol.{ProtocolService}
use tsn_gen.Parser.Yaml.{Ryml}
use tsn_gen.Parser.StackBuilder.{
  StackBuilderErr, stack_success, stack_err_invalid_file, stack_err_missing_key, Built, failed,
  built, build_layer, build_layers, wired, build_list, build_named, build_tree, outcome,
  build_stack,
}
use tsn_gen.Parser.StackBuilder.Laws.{AllBound, build_layer-IsBound, built-inj}
use tsn_gen.Parser.StackBuilder.Errors.{IsError, build_tree-IsError}

module _ (ryml : Ryml) (db_services : Database ProtocolService) (registry : LogicRegistry) where
  open ryml use {Node, parse_in_arena, is_map, is_seq, has_val, val, child, children}

  abbrev Bound : List Node → List StackLayer → Type 0
  Bound nodes layers = AllBound ryml db_services registry nodes layers

  -- What the loop adds to a stack.
  Added : List Node → Stack → Stack → Type 0
  Added nodes stack stack' =
      (layers : List StackLayer) × (stack'.name ≡ stack.name)
      × (stack'.layers ≡ stack.layers ++ layers)
      × Bound nodes layers

  build_layers-Added :
      (nodes : List Node) (stack : Stack) {stack' : Stack}
      → build_layers ryml db_services registry nodes stack ≡ built stack'
      → Added nodes stack stack'
  unfolding build_layers Added
  build_layers-Added [] stack {stack'} e =
      let same : stack ≡ stack' = built-inj ryml db_services registry e in
      (
        [],
        sym (ap (λ (s : Stack). s.name) same),
        sym (ap (λ (s : Stack). s.layers) same) ∙ sym (append-nil stack.layers),
        tt,
      )
  build_layers-Added (node ∷ nodes) stack {stack'} e =
      go (build_layer ryml db_services registry node) refl e (λ s. build_layers-Added nodes s)
    where
      go :
          (o : Built StackLayer)
          → build_layer ryml db_services registry node ≡ o
          → (elim o as (λ x. Built Stack) [
            | failed err ↦ failed err
            | built layer ↦ build_layers ryml db_services registry nodes (add_layer layer stack)
          ])
            ≡ built stack'
          → ((s : Stack)
              → build_layers ryml db_services registry nodes s ≡ built stack'
              → Added nodes s stack')
          → Added (node ∷ nodes) stack stack'
      go (failed err) b e ih = cc
      go (built layer) b e ih =
          let (layers, name, all, bound) = ih (add_layer layer stack) e in
          (
            layer ∷ layers,
            name,
            all ∙ append_assoc stack.layers (layer ∷ []) layers,
            (build_layer-IsBound ryml db_services registry node b, bound),
          )

  wire_loop-Bound :
      (n i : ℕ) (nodes : List Node) (layers : List StackLayer)
      → Bound nodes layers
      → Bound nodes (wire_loop n i layers)
  unfolding wire_loop
  wire_loop-Bound n i [] [] h = tt
  wire_loop-Bound n i [] (layer ∷ layers) h = h
  wire_loop-Bound n i (node ∷ nodes) [] h = h
  wire_loop-Bound n i (node ∷ nodes) (layer ∷ layers) (h, hs) = (
    record {
      svc = h.svc;
      service = h.service;
      entity = h.entity;
      interface = h.interface;
      bypass = h.bypass;
      known = h.known;
      logic_name = h.logic_name;
      logic = h.logic;
      context = h.context;
      fresh = h.fresh;
    },
    wire_loop-Bound n (i + 1) nodes layers hs,
  )

  -- A stack built from the root of a file: its name, one layer per node, and their links.
  pub record IsBuilt (root : Node) (stack : Stack) : Type 0 where
    pub name_node : Node
    pub list_node : Node
    pub name_there : child (codes "stack") root ≡ some name_node
    pub list_there : child (codes "layers") root ≡ some list_node
    pub name : stack.name ≡ val name_node
    pub bound : Bound (children list_node) stack.layers
    pub linked : IsLinked stack.layers

  wired-IsBuilt :
      (root name_node list_node : Node)
      → child (codes "stack") root ≡ some name_node
      → child (codes "layers") root ≡ some list_node
      → (plain : Stack) → plain.name ≡ val name_node
      → Bound (children list_node) plain.layers
      → IsBuilt root (wire_adjacency plain)
  unfolding wire_adjacency
  wired-IsBuilt root name_node list_node c d plain name bound = record {
    name_node = name_node;
    list_node = list_node;
    name_there = c;
    list_there = d;
    name = name;
    bound = wire_loop-Bound (length plain.layers) 0 (children list_node) plain.layers bound;
    linked = wire_adjacency-IsLinked plain;
  }

  layers-IsBuilt :
      (root name_node list_node : Node) {stack : Stack}
      → child (codes "stack") root ≡ some name_node
      → child (codes "layers") root ≡ some list_node
      → wired ryml db_services registry (
          build_layers ryml db_services registry
            (children list_node)
            (record { name = val name_node; layers = [] }))
        ≡ built stack
      → IsBuilt root stack
  unfolding Added
  layers-IsBuilt root name_node list_node {stack} c d e = go _ refl e
    where
      go :
          (o : Built Stack)
          → build_layers ryml db_services registry
              (children list_node)
              (record { name = val name_node; layers = [] })
            ≡ o
          → wired ryml db_services registry o ≡ built stack
          → IsBuilt root stack
      go (failed err) b e = cc
      go (built plain) b e =
          let (layers, name, all, bound) = build_layers-Added (children list_node) _ b in
          subst (IsBuilt root) (built-inj ryml db_services registry e) (
            wired-IsBuilt root name_node list_node c d plain name
              (subst (Bound (children list_node)) (sym all) bound))

  build_tree-IsBuilt :
      (root : Node) {stack : Stack}
      → build_tree ryml db_services registry (some root) ≡ built stack
      → IsBuilt root stack
  unfolding build_tree
  build_tree-IsBuilt root {stack} e = go (is_map root) e
    where
      listed :
          (name_node : Node) (o : Option Node)
          → child (codes "stack") root ≡ some name_node
          → child (codes "layers") root ≡ o
          → build_list ryml db_services registry (val name_node) o ≡ built stack
          → IsBuilt root stack
      listed name_node none c d e = cc
      listed name_node (some list_node) c d e = seq (is_seq list_node) e
        where
          seq :
              (s : Bool)
              → (if not s
                  then failed stack_err_missing_key
                  else wired ryml db_services registry (
                      build_layers ryml db_services registry
                        (children list_node)
                        (record { name = val name_node; layers = [] })))
                ≡ built stack
              → IsBuilt root stack
          seq false e = cc
          seq true e = layers-IsBuilt root name_node list_node c d e

      named :
          (o : Option Node)
          → child (codes "stack") root ≡ o
          → build_named ryml db_services registry root o ≡ built stack
          → IsBuilt root stack
      named none c e = cc
      named (some name_node) c e = elim (Bool-cases (has_val name_node)) [
        | inl h ↦ listed name_node (child (codes "layers") root) c refl (ground arith)
        | inr h ↦ ground arith
      ]

      go :
          (m : Bool)
          → (if not m
              then failed stack_err_invalid_file
              else build_named ryml db_services registry root (child (codes "stack") root))
            ≡ built stack
          → IsBuilt root stack
      go false e = cc
      go true e = named (child (codes "stack") root) refl e

  -- What `build` answers and leaves in the caller's pointer, for the tree of the file.
  abbrev pub Left : Option Node → StackBuilderErr × Option Stack → Type 0
  Left tree (err, none) = err ≢ stack_success
  Left tree (err, some stack) =
      (err ≡ stack_success) × ((root : Node) × (tree ≡ some root) × IsBuilt root stack)

  no_tree-IsError : build_tree ryml db_services registry none ≡ failed stack_err_invalid_file
  unfolding build_tree
  no_tree-IsError = refl

  outcome-Left :
      (o : Option Node) (b : Built Stack)
      → build_tree ryml db_services registry o ≡ b
      → Left o (outcome ryml db_services registry b)
  outcome-Left o (failed err) e =
      subst (IsError ryml db_services registry) e (build_tree-IsError ryml db_services registry o)
  outcome-Left none (built stack) e = let bad = no_tree-IsError in cc
  outcome-Left (some root) (built stack) e = (refl, (root, refl, build_tree-IsBuilt root e))

  abbrev pub tree_of : Option Text → Option Node
  tree_of none = none
  tree_of (some content) = parse_in_arena content

  -- `StackBuilder::build` leaves a stack exactly with the code of success. The stack then has the
  -- name of the file's `stack` node, one layer for each node of `layers`, in order, with the names
  -- of the node, the service from the database and the logic of the rules (plain if bypassed or if
  -- the service has none, else the registered one), and the layers are linked to their neighbours.
  pub build_stack-Left :
      (read_file : Text → Option Text) (maps : Text → Bool) (path : Text)
      → Left (tree_of (read_file path)) (build_stack ryml db_services registry read_file maps path)
  unfolding build_stack
  build_stack-Left read_file maps path = go (read_file path)
    where
      go :
          (o : Option Text)
          → Left (tree_of o) (elim o as (λ x. StackBuilderErr × Option Stack) [
            | none ↦ (stack_err_invalid_file, none)
            | some content ↦
                if is_empty content || not (maps path)
                then (stack_err_invalid_file, none)
                else outcome ryml db_services registry
                    (build_tree ryml db_services registry (parse_in_arena content))
          ])
      go none = λ e. cc
      go (some content) = elim (Bool-cases (is_empty content || not (maps path))) [
        | inl bad ↦ rw bad (λ e. cc)
        | inr good ↦ rw good (outcome-Left (parse_in_arena content) _ refl)
      ]
