-- ===== src/Tests.antt =====
-- The data that the examples share: a random source that counts, a database of five vars, and an
-- AECP layer above an Ethernet one.
mod Codec
mod Stacks
mod Generator
mod Registry
mod Files
mod Parser
mod Loading
mod Captures
mod Arguments
mod Program
mod Sockets
mod Bridges
use native.Mathlib.Nat.{mod-lt}
use tsn_gen.Prelude.{
  Text, codes, ℕ, ◌+◌, ◌-◌, ◌%◌, ◌^◌, ◌≤◌, ◌<◌, arith, List, [], ◌∷◌, Option, none, some, false,
}
use tsn_gen.Database.{Database}
use tsn_gen.Packet.{Range, Var, Field, ProtocolInterface, outward}
use tsn_gen.Packet.Builder.{Random}
use tsn_gen.Packet.Layout.{IsVar, AllVars}
use tsn_gen.Layer.{
  LayerContext, LogicModule, passthrough, ethernet_frame, aecp_aem, StackLayer, Stack,
}

abbrev pub draw : ℕ → ℕ → ℕ → ℕ
draw lo hi rng = lo + rng % (hi - lo + 1)

pub draw-bounds : (lo hi rng : ℕ) → lo ≤ hi → (lo ≤ draw lo hi rng) × (draw lo hi rng ≤ hi)
draw-bounds lo hi rng h =
    let small : rng % (hi - lo + 1) < hi - lo + 1 = mod-lt rng (omega arith) in
    (omega arith, omega arith)

-- Engines are numbers, and each draw takes the next one.
abbrev pub counter : Random
counter = record {
  Engine = ℕ;
  seeded = λ s. s;
  uniform = λ lo hi rng. (draw lo hi rng, rng + 1);
  uniform_bounds = draw-bounds;
}

abbrev a_var : Text → ℕ → List ℕ → Option Range → ℕ → Var
a_var name size allowed range mask = record {
  name = name;
  size = size;
  expected_values = allowed;
  range = range;
  mask = mask;
}

abbrev pub kind : Var
kind = a_var (codes "p::kind") 4 (2 ∷ 5 ∷ []) none 0

abbrev pub level : Var
level = a_var (codes "p::level") 12 [] (some (record { min = 9; max = 3 })) 0

abbrev pub flags : Var
flags = a_var (codes "p::flags") 8 [] none 240

abbrev pub vars : Database Var
vars = record {
  internal_maps =
      (codes "p::flags", flags) ∷ (codes "p::kind", kind) ∷ (codes "p::level", level) ∷ [];
}

pub vars-AllVars : AllVars vars
vars-AllVars = (
  record { size = omega arith; expected = tt; range = tt; mask = omega arith },
  (
    record {
      size = omega arith;
      expected = (omega arith, (omega arith, tt));
      range = tt;
      mask = omega arith;
    },
    (
      record {
        size = omega arith;
        expected = tt;
        range = (omega arith, omega arith);
        mask = omega arith;
      },
      tt,
    ),
  ),
)

-- A reference that leads nowhere stands between the others.
abbrev pub head : ProtocolInterface
head = record {
  interface_name = codes "p::head";
  direction = outward;
  var_refs = codes "p::kind" ∷ codes "p::none" ∷ codes "p::level" ∷ [];
}

abbrev pub tail : ProtocolInterface
tail = record {
  interface_name = codes "p::tail";
  direction = outward;
  var_refs = codes "p::flags" ∷ codes "p::level" ∷ [];
}

abbrev pub a_field : Text → ℕ → ℕ → Field
a_field name value bits = record { name = name; value = value; bits = bits }

abbrev a_layer : Text → LogicModule → Option ℕ → Option ℕ → List Field → StackLayer
a_layer service logic upper lower fields = record {
  service_name = service;
  entity_name = codes "";
  interface_name = codes "";
  logic_name = codes "";
  bypass_logic = false;
  logic = logic;
  context = record { service_name = service; upper = upper; lower = lower; fields = fields };
}

abbrev pub mac : StackLayer
mac = a_layer (codes "mac") (ethernet_frame 0 0 0) none none (a_field (codes "ethertype") 0 16 ∷ [])

abbrev pub aecp : StackLayer
aecp = a_layer (codes "atdecc_aecp") (aecp_aem 0) none none (
    a_field (codes "message_type") 2 4
    ∷ a_field (codes "status") 7 5
    ∷ a_field (codes "control_data_length") 99 11
    ∷ a_field (codes "target") 5 20
    ∷ [])

abbrev pub payload : StackLayer
payload = a_layer (codes "payload") passthrough none none (a_field (codes "data") 3 24 ∷ [])

abbrev pub stack : Stack
stack = record { name = codes "stack"; layers = mac ∷ aecp ∷ payload ∷ [] }
