-- ===== src/Session/ChainLaws.antt =====
-- What the stages of a chain hand over to one another.
use tsn_gen.Prelude.{◌≡◌, refl, sym, ◌∙◌, List, [], ◌∷◌, ◌++◌, append_assoc, append-nil}
use tsn_gen.Database.{Database}
use tsn_gen.Packet.{Var, ProtocolInterface, FieldValue}
use tsn_gen.Packet.Builder.{Random, Overrides, build_with_fields, build_with_overrides}
use tsn_gen.Packet.Layout.{layout}
use tsn_gen.Packet.Values.Allowed.{Obeys}
use tsn_gen.Packet.Values.Constraints.{build_with_fields-Picks, build_with_overrides-Chosen}
use tsn_gen.Packet.Values.Given.{Picks, Picks-map, Chosen}
use tsn_gen.Session.{Layer}
use tsn_gen.Session.Inherited.{Inherits, Inherits-hand_over, Inherits-first}
use tsn_gen.Session.Chain.{hand_over, chain_loop, generate_chain}

-- Each layer stands for its stage, and has values that the stage's vars allow, given the fields of
-- the stage before.
abbrev pub IsChain : Database Var → List FieldValue → List ProtocolInterface → List Layer → Type 0
IsChain var_db earlier [] [] = Unit
IsChain var_db earlier [] (layer ∷ layers) = ⊥
IsChain var_db earlier (iface ∷ stages) [] = ⊥
IsChain var_db earlier (iface ∷ stages) ((name, pkt) ∷ layers) =
    (name ≡ iface.interface_name)
    × Picks (Inherits earlier) (layout var_db iface.var_refs) pkt.fields
    × IsChain var_db pkt.fields stages layers

module _ (random : Random) (var_db : Database Var) where
  open random use {Engine}

  -- The layers that the stages after the first add.
  later : List ProtocolInterface → Overrides → Engine → List Layer
  later [] given rng = []
  later (iface ∷ stages) given rng =
      let (pkt, rng') = build_with_overrides random iface var_db given rng in
      (iface.interface_name, pkt) ∷ later stages (hand_over pkt.fields []) rng'

  chain_loop_lem :
      (stages : List ProtocolInterface) (given : Overrides) (round : List Layer) (rng : Engine)
      → (chain_loop random var_db stages given (round, rng)).0 ≡ round ++ later stages given rng
  unfolding chain_loop later
  chain_loop_lem [] given round rng = sym (append-nil round)
  chain_loop_lem (iface ∷ stages) given round rng =
      let built = build_with_overrides random iface var_db given rng in
      chain_loop_lem stages (hand_over built.0.fields [])
        (round ++ (iface.interface_name, built.0) ∷ []) built.1
      ∙ append_assoc round ((iface.interface_name, built.0) ∷ [])
          (later stages (hand_over built.0.fields []) built.1)

  stage-Picks :
      (iface : ProtocolInterface) (earlier : List FieldValue) (rng : Engine)
      → Picks
          (Inherits earlier)
          (layout var_db iface.var_refs)
          (build_with_overrides random iface var_db (hand_over earlier []) rng).0.fields
  stage-Picks iface earlier rng =
      Picks-map (Chosen (hand_over earlier [])) (Inherits earlier) (Inherits-hand_over earlier)
        (layout var_db iface.var_refs)
        (build_with_overrides random iface var_db (hand_over earlier []) rng).0.fields
        (build_with_overrides-Chosen random var_db iface rng (hand_over earlier []))

  first-Picks :
      (iface : ProtocolInterface) (rng : Engine)
      → Picks
          (Inherits [])
          (layout var_db iface.var_refs)
          (build_with_fields random iface var_db rng).0.fields
  first-Picks iface rng =
      Picks-map (λ name. Obeys) (Inherits []) (λ name. Inherits-first name)
        (layout var_db iface.var_refs) (build_with_fields random iface var_db rng).0.fields
        (build_with_fields-Picks random var_db iface rng)

  later-IsChain :
      (stages : List ProtocolInterface) (earlier : List FieldValue) (rng : Engine)
      → IsChain var_db earlier stages (later stages (hand_over earlier []) rng)
  unfolding later
  later-IsChain [] earlier rng = tt
  later-IsChain (iface ∷ stages) earlier rng =
      let built = build_with_overrides random iface var_db (hand_over earlier []) rng in
      (refl, stage-Picks iface earlier rng, later-IsChain stages built.0.fields built.1)

  -- `generateChain` makes one packet for each stage, in order and under the stage's name. A field
  -- of a later stage whose var lists no values takes the value of the last field of its name in
  -- the packet of the stage just before it, of whose bits only those are kept where the mask, if
  -- there is one, has one; where that packet has no field of the name, and in the first stage, it
  -- has a value that the var allows.
  pub generate_chain-IsChain :
      (iface : ProtocolInterface) (stages : List ProtocolInterface) (rng : Engine)
      → IsChain var_db [] (iface ∷ stages) (generate_chain random var_db (iface ∷ stages) rng).0
  unfolding generate_chain
  generate_chain-IsChain iface stages rng =
      let built = build_with_fields random iface var_db rng in
      rw
        (chain_loop_lem stages (hand_over built.0.fields []) ((iface.interface_name, built.0) ∷ [])
          built.1)
        (refl, first-Picks iface rng, later-IsChain stages built.0.fields built.1)
