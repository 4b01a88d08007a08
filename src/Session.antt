-- ===== src/Session.antt =====
-- `Session` (traffic-gen/inc/tsn/session.h, traffic-gen/src/session.cpp): building and reading
-- packets, chains of packets and stacks of layers. The databases that the parser has filled are
-- parameters, and Session/Loaded fills them; so is the random engine of the builder. What is logged
-- is left out.
pub mod Chain
pub mod Frame
pub mod Json
pub mod Runtime
pub mod RuntimeLaws
pub mod Lengths
pub mod FrameLaws
pub mod Inherited
pub mod ChainLaws
pub mod Loaded
pub mod Exact
use tsn_gen.Prelude.{Text, ℕ, List, Option}
use tsn_gen.Database.{Database, get_element}
use tsn_gen.Packet.{Var, ProtocolInterface, FieldValue, BuiltPacket}
use tsn_gen.Packet.Builder.{Random, build_with_fields}
use tsn_gen.Packet.Decoder.{decode}

-- A name and a packet: `Session::Layer`.
abbrev pub Layer : Type 0
Layer = Text × BuiltPacket

pub record StackedPacket : Type 0 where
  pub bytes : List ℕ
  pub layers : List Layer

-- `findInterface`, `generate` and `decode`.
unfoldable pub find_interface : Database ProtocolInterface → Text → Option ProtocolInterface
find_interface if_db name = get_element name if_db

module _ (random : Random) (var_db : Database Var) where
  open random use {Engine}

  unfoldable pub generate : ProtocolInterface → Engine → BuiltPacket × Engine
  generate iface rng = build_with_fields random iface var_db rng

unfoldable pub decode_packet : Database Var → ProtocolInterface → List ℕ → BuiltPacket
decode_packet var_db iface bytes = decode var_db iface bytes 0
