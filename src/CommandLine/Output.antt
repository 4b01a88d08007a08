-- ===== src/CommandLine/Output.antt =====
-- What `packet_gen` prints of packets, chains and stacks, and its rounds
-- (traffic-gen/tools/packet_gen_main.cpp).
use tsn_gen.Prelude.{
  Text, codes, text_eq, ℕ, ltb, Bool, ◌&&◌, List, [], ◌∷◌, ◌++◌, map, Option, none, some,
  if◌then◌else◌, length,
}
use tsn_gen.CommandLine.{Args}
use tsn_gen.CommandLine.Stream.{Round}
use tsn_gen.Database.{Database, for_each}
use tsn_gen.Hex.{to_hex}
use tsn_gen.Layer.{StackLayer}
use tsn_gen.Packet.{Var, IfDirections, inward, outward, ProtocolInterface, BuiltPacket}
use tsn_gen.Packet.Builder.{Random, seed}
use tsn_gen.Session.{Layer, StackedPacket, find_interface, decode_packet}
use tsn_gen.Session.Chain.{generate_chain}
use tsn_gen.Session.Frame
use tsn_gen.Session.Json.{json_packet, json_chain, json_stacked}
use tsn_gen.Session.Runtime

abbrev pub direction_name : IfDirections → Text
direction_name inward = codes "in"
direction_name outward = codes "out"

abbrev pub interface_line : Text → ProtocolInterface → Text
interface_line name ifc =
    codes "  " ++ name ++ codes "  [" ++ direction_name ifc.direction ++ codes "]"

-- `--list-interfaces`.
unfoldable pub interface_lines : Text → Database ProtocolInterface → List Text
interface_lines yaml_dir if_db =
    (codes "Available interfaces in '" ++ yaml_dir ++ codes "':")
    ∷ for_each (λ name ifc lines. lines ++ interface_line name ifc ∷ []) if_db []

abbrev pub json_out : Args → Bool
json_out args = text_eq args.output (codes "json")

-- `resolveInto` for each name: the interfaces in order, none if one is not found.
unfoldable pub resolve_all :
    Database ProtocolInterface → List Text → Option (List ProtocolInterface)
resolve_all if_db [] = some []
resolve_all if_db (name ∷ names) =
    let rest = resolve_all if_db names in
    elim (find_interface if_db name) [
      | none ↦ none
      | some p ↦ elim rest [ none ↦ none | some ps ↦ some (p ∷ ps) ]
    ]

-- `decodeAndPrint` of the three modes. `decodeStack` changes the stack that it is handed. A pipeline
-- has a first interface.
unfoldable pub print_loaded :
    Database ProtocolInterface → Database Var → List ℕ → List StackLayer → Text × List StackLayer
print_loaded if_db var_db bytes layers =
    let (d, layers') = Runtime.decode_stack if_db var_db layers bytes in (json_stacked d, layers')

abbrev pub Stateless : Type 0
Stateless = Unit

unfoldable pub print_stacked :
    Database Var → List ProtocolInterface → List ℕ → Stateless → Text × Stateless
print_stacked var_db ifaces bytes u = (json_stacked (Frame.decode_stack var_db ifaces bytes), u)

abbrev pub packet_text : Args → BuiltPacket → Text
packet_text args pkt = if json_out args then json_packet pkt else to_hex pkt.bytes

abbrev pub stacked_text : Args → StackedPacket → Text
stacked_text args pkt = if json_out args then json_stacked pkt else to_hex pkt.bytes

unfoldable pub print_packet :
    Database Var → Args → List ProtocolInterface → List ℕ → Stateless → Text × Stateless
print_packet var_db args [] bytes u = ([], u)
print_packet var_db args (iface ∷ pipeline) bytes u =
    (packet_text args (decode_packet var_db iface bytes), u)

module _ (random : Random) (var_db : Database Var) (args : Args) where
  open random use {Engine}

  -- What a round prints and sends, from a packet of a stack.
  abbrev pub stacked_round : StackedPacket → Round
  stacked_round pkt = record { heading = []; stages = (stacked_text args pkt ∷ [], pkt.bytes) ∷ [] }

  unfoldable pub loaded_round :
      Database ProtocolInterface → List StackLayer × Engine → Round × (List StackLayer × Engine)
  loaded_round if_db (layers, rng) =
      let (pkt, (layers', rng')) = Runtime.generate_stack random if_db var_db layers rng in
      (stacked_round pkt, (layers', rng'))

  unfoldable pub stack_round : List ProtocolInterface → Engine → Round × Engine
  stack_round ifaces rng =
      let (pkt, rng') = Frame.generate_stack random var_db ifaces rng in (stacked_round pkt, rng')

  -- A chain in JSON is printed as a whole, anything else packet by packet.
  abbrev pub chain_stage : Bool → Layer → List Text × List ℕ
  chain_stage whole (name, pkt) = ((if whole then [] else packet_text args pkt ∷ []), pkt.bytes)

  unfoldable pub chain_round : List ProtocolInterface → Engine → Round × Engine
  chain_round pipeline rng =
      let whole = ltb 1 (length pipeline) && json_out args in
      let (stages, rng') = generate_chain random var_db pipeline rng in
      (
        record {
          heading = if whole then json_chain stages ∷ [] else [];
          stages = map (chain_stage whole) stages;
        },
        rng',
      )

-- The seed of the session's engine: that of `--seed`, or the number that the device draws.
abbrev pub first_engine : (random : Random) → ℕ → Args → random.Engine
first_engine random device args = seed random (if args.seed_set then args.seed else device)
