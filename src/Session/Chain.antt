-- ===== src/Session/Chain.antt =====
-- `Session::generateChain`: a stage takes over the values of the stage before it by name
-- (traffic-gen/src/session.cpp).
use tsn_gen.Prelude.{List, [], ◌∷◌, ◌++◌}
use tsn_gen.Database.{Database}
use tsn_gen.Packet.{Var, ProtocolInterface, FieldValue}
use tsn_gen.Packet.Builder.{Random, Overrides, assign, build_with_fields, build_with_overrides}
use tsn_gen.Session.{Layer}

-- `for (const auto& f : pkt.fields) overrides[f.first] = f.second`.
unfoldable pub hand_over : List FieldValue → Overrides → Overrides
hand_over [] overrides = overrides
hand_over ((name, value) ∷ fs) overrides = hand_over fs (assign name value overrides)

module _ (random : Random) (var_db : Database Var) where
  open random use {Engine}

  -- The stages after the first.
  unfoldable pub chain_loop :
      List ProtocolInterface → Overrides → List Layer × Engine → List Layer × Engine
  unfolding hand_over
  chain_loop [] overrides (round, rng) = (round, rng)
  chain_loop (iface ∷ stages) overrides (round, rng) =
      let (pkt, rng') = build_with_overrides random iface var_db overrides rng in
      chain_loop stages (hand_over pkt.fields []) (round ++ (iface.interface_name, pkt) ∷ [], rng')

  unfoldable pub generate_chain : List ProtocolInterface → Engine → List Layer × Engine
  unfolding chain_loop
  generate_chain [] rng = ([], rng)
  generate_chain (iface ∷ stages) rng =
      let (pkt, rng') = build_with_fields random iface var_db rng in
      chain_loop stages (hand_over pkt.fields []) ((iface.interface_name, pkt) ∷ [], rng')
