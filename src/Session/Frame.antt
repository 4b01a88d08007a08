-- ===== src/Session/Frame.antt =====
-- `Session::generateStack` and `Session::decodeStack` over a list of interfaces, the lowest first
-- (traffic-gen/src/session.cpp).
use tsn_gen.Prelude.{ℕ, ◌+◌, List, [], ◌∷◌, ◌++◌}
use tsn_gen.Database.{Database}
use tsn_gen.Packet.{Var, ProtocolInterface}
use tsn_gen.Packet.Builder.{Random, build_with_fields}
use tsn_gen.Packet.Decoder.{decode, layer_bytes}
use tsn_gen.Session.{Layer, StackedPacket}

module _ (random : Random) (var_db : Database Var) where
  open random use {Engine}

  unfoldable pub stack_loop :
      List ProtocolInterface → StackedPacket × Engine → StackedPacket × Engine
  stack_loop [] s = s
  stack_loop (iface ∷ ifaces) (result, rng) =
      let (pkt, rng') = build_with_fields random iface var_db rng in
      stack_loop ifaces (
        record {
          bytes = result.bytes ++ pkt.bytes;
          layers = result.layers ++ (iface.interface_name, pkt) ∷ [];
        },
        rng',
      )

  unfoldable pub generate_stack : List ProtocolInterface → Engine → StackedPacket × Engine
  unfolding stack_loop
  generate_stack ifaces rng = stack_loop ifaces (record { bytes = []; layers = [] }, rng)

module _ (var_db : Database Var) where
  -- The layers so far and the offset of the next one.
  unfoldable pub unstack_loop : List ℕ → List ProtocolInterface → List Layer × ℕ → List Layer × ℕ
  unstack_loop bytes [] s = s
  unstack_loop bytes (iface ∷ ifaces) (layers, offset) = unstack_loop bytes ifaces (
    layers ++ (iface.interface_name, decode var_db iface bytes offset) ∷ [],
    offset + layer_bytes var_db iface,
  )

  unfoldable pub decode_stack : List ProtocolInterface → List ℕ → StackedPacket
  unfolding unstack_loop
  decode_stack ifaces bytes = record {
    bytes = bytes;
    layers = (unstack_loop bytes ifaces ([], 0)).0;
  }
