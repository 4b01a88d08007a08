-- ===== src/Lib.antt =====
-- A model of tsn-gen, which builds, chains, stacks and reads back protocol packets that YAML files
-- describe.
--
-- The parts and how they interact:
--   * Prelude: the shared names, lists, byte strings and Boolean tests. Text is the list of its
--     bytes, as std::string is.
--   * Database (parser/inc/tsn/database.h, database.cpp): `Database<T>`, the map from qualified
--     names to vars and interfaces that the parser fills and all the others read.
--   * Bits (traffic-gen/src/packet_builder.cpp, packet_decoder.cpp): `appendBits` and
--     `extractBits`, one round of the loops per recursive call, on vectors of bytes.
--   * Packet (parser/inc/tsn/var.h, protocol_interface.h): the data. Packet/Builder is
--     `PacketBuilder`, the state of which is its random engine; Packet/Decoder is `PacketDecoder`.
--     Packet/Layout says which references of an interface count, Packet/Wire how fields lie in the
--     bytes; Packet/Values and below are about the names and values that are chosen, Packet/RoundTrip and
--     Packet/Laws about reading a packet back.
--   * Hex (traffic-gen/src/session.cpp): `toHex` and `fromHex` over the C library's `strtoul`.
--   * Layer (parser/inc/tsn/layer_context.h, stack.h, logic_module.h, logic/src): contexts of
--     layers, the stack that links them, and in Layer/Modules the logic modules that fill derived
--     fields; Layer/Registry is the registry of their factories. The pointers between contexts are
--     positions in the list of layers.
--   * Session (traffic-gen/src/session.cpp): Session/Frame is `generateStack` and `decodeStack` over
--     interfaces, Session/Chain is `generateChain`, Session/Json is `toJson`, and Session/Runtime is
--     the two functions over a stack with logic modules, which are passed the layers and return
--     them as changed.
--   * Traffic (traffic-gen/src/traffic_generator.cpp): `TrafficGenerator`, which builds packets and
--     hands them to an `ISender`, an interface on a state of its own.
--   * Parser: Parser/Number is the C++ library's conversion of numbers as the parsers use it;
--     Parser/Yaml the interface of rapidyaml. Parser/Protocol and Parser/Protocol/File
--     (parser/src/protocol.cpp) read one file into the three databases; Parser/Listing
--     (parser/src/protocol_parser.cpp) is `ProtocolParser`, the walk over a directory of them, on
--     which Session/Loaded puts `Session::parse`. Parser/Validator (parser/src/validator.cpp) is
--     `ProtocolValidator`: the checks in Schema, the operations on files in Files, and in Conforms
--     what these checks demand of a file, as Booleans that do not mention findings. Parser/StackBuilder
--     (parser/src/stack_builder.cpp) is `StackBuilder`, which resolves a stack file with the
--     services of the parser and the registry of Layer.
--   * Transport (traffic-gen/src/verilator_sender.cpp, verilator_receiver.cpp): packets as beats of
--     8 bytes on a socket, and back. Transport/Pcap (traffic-gen/src/pcap_sender.cpp,
--     pcap_receiver.cpp) writes and replays capture files. Transport/Socket has the system calls on
--     sockets, Transport/Socket/Stream the two Verilator classes on them, and Transport/Socket/Raw
--     (traffic-gen/src/raw_socket_sender.cpp, raw_socket_receiver.cpp) the raw sockets.
--   * CommandLine (traffic-gen/tools/packet_gen_main.cpp): the arguments of the tool, `parseArgs`, in
--     CommandLine/Split the lists of names that it takes, and in CommandLine/Validate the mode of
--     `main` that runs the validator. CommandLine/Stream has the loops over a receiver and over a
--     sender, CommandLine/Output what is printed of packets, and CommandLine/Main the modes of
--     `main` and `main` itself; the others of its modules are about these.
--   * Simulation (sim/inc/axis_bridge.h, sim/src/axis_bridge.cpp): `AxisBridge`, the SystemC module
--     between ns-3 and the DUT, as a machine that steps with the clock and with what is pushed.
--   * Tests: the data and the examples.
--
-- The random engine and its uniform distribution come from the C++ library, which leaves their
-- algorithm open: they are the parameter `Random`, with the one law that a draw lies between its
-- bounds, which std::uniform_int_distribution promises.
--
-- Bounds and fuel: values are 64-bit words, and hypotheses say so (`IsVar`, `IsField`). A width is
-- below 2 ^ 31, as the loops cast it to int. The walk of `bytesAbove` gets as many steps as the
-- stack has layers, which is enough in a stack whose pointers were set by `wireAdjacency`. The
-- loop that frames a packet gets as many steps as the packet has bytes, each of which takes at
-- least one, and a number of 64 bits is printed in at most 20 digits. A `sendLoop` without a count
-- runs on fuel, and says so if it is not over by then, and so do the loops of `main`: the fuel
-- bounds the packets received or the rounds, so one more than there are is enough. The loops over
-- `write` and `read` end if the calls make progress and are interrupted a bounded number of times:
-- as many steps as bytes and interruptions are enough. All other loops are over lists or counts.
--
-- The YAML library is not part of the repository: `Ryml` is its interface, of which the theorems
-- need no law. The file system is a parameter too: what a path holds, what a directory lists, and
-- whether a file can be mapped. A listing gets as much fuel as directories may lie in one another,
-- 17 with the base path, which the depth counter enforces even where directories form a cycle.
--
-- The system calls on sockets are the parameter `Calls`, on a state of the world that they pass on;
-- what a theorem relies on of them is a hypothesis of its own. `main` is handed its sender and its
-- receiver as an `ISender` and an `IReceiver`.
--
-- Not modelled: the simulation's `sc_main` and its ns-3 device, which wire up objects of SystemC and
-- ns-3, a text that is no YAML, on which rapidyaml's error callback ends the program, what goes to the
-- standard error, and whatever is only logged. The validator is modelled as validator.cpp has it; where
-- its checks and the documents under docs/schema differ, Parser/Validator/Conforms says how.
pub mod Prelude
pub mod Database
pub mod Bits
pub mod Packet
pub mod Hex
pub mod Layer
pub mod Parser
pub mod Session
pub mod Traffic
pub mod Transport
pub mod CommandLine
pub mod Simulation
pub mod Tests
