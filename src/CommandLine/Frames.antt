-- ===== src/CommandLine/Frames.antt =====
-- The frames that the rounds of `packet_gen --stack` build, one after the other.
use tsn_gen.Prelude.{
  Text, ℕ, zero, suc, ◌+◌, ◌<◌, ◌≡◌, refl, ap, ap₂, ◌∙◌, arith, List, [], ◌∷◌, map, length,
  length-append,
}
use tsn_gen.CommandLine.Output.{print_stacked}
use tsn_gen.Session.Exact.{AllWide, decode_stack-generate_stack_exact}
use tsn_gen.CommandLine.StreamLaws.{nonempty, lines_of}
use tsn_gen.Database.{Database}
use tsn_gen.Packet.{Var, ProtocolInterface}
use tsn_gen.Packet.Builder.{Random}
use tsn_gen.Packet.Decoder.{layer_bytes}
use tsn_gen.Packet.Layout.{AllVars}
use tsn_gen.Session.{StackedPacket}
use tsn_gen.Session.Frame.{generate_stack}
use tsn_gen.Session.FrameLaws.{packet, engine_after, added, stack_loop_lem, length-packet}
use tsn_gen.Session.Json.{json_stacked}

-- The bytes of a frame of these layers.
unfoldable pub frame_bytes : Database Var → List ProtocolInterface → ℕ
frame_bytes var_db [] = 0
frame_bytes var_db (iface ∷ ifaces) = layer_bytes var_db iface + frame_bytes var_db ifaces

abbrev pub bytes_of : List StackedPacket → List (List ℕ)
bytes_of pkts = map (λ pkt. pkt.bytes) pkts

module _ (random : Random) (var_db : Database Var) (ifaces : List ProtocolInterface) where
  open random use {Engine}

  -- The frames of `n` rounds.
  unfoldable pub frames : ℕ → Engine → List StackedPacket
  frames zero rng = []
  frames (suc n) rng =
      let (pkt, rng') = generate_stack random var_db ifaces rng in pkt ∷ frames n rng'

module _ (random : Random) (var_db : Database Var) (vars : AllVars var_db)
    (ifaces : List ProtocolInterface) where
  open random use {Engine}

  length-added :
      (ifaces : List ProtocolInterface) (rng : Engine)
      → length (added random var_db ifaces rng).0 ≡ frame_bytes var_db ifaces
  unfolding added frame_bytes
  length-added [] rng = refl
  length-added (iface ∷ ifaces) rng =
      let rest = engine_after random var_db iface rng in
      length-append (packet random var_db iface rng).bytes (added random var_db ifaces rest).0
      ∙ ap₂ ◌+◌ (length-packet random var_db vars iface rng) (length-added ifaces rest)

  pub length-frame :
      (rng : Engine)
      → length (generate_stack random var_db ifaces rng).0.bytes ≡ frame_bytes var_db ifaces
  unfolding generate_stack
  length-frame rng = rw (stack_loop_lem random var_db ifaces [] [] rng) (length-added ifaces rng)

  -- A frame of these layers is not empty.
  pub nonempty-frames :
      0 < frame_bytes var_db ifaces
      → (n : ℕ) (rng : Engine)
      → let packets = bytes_of (frames random var_db ifaces n rng) in nonempty packets ≡ packets
  unfolding nonempty frames
  nonempty-frames h zero rng = refl
  nonempty-frames h (suc n) rng =
      go (generate_stack random var_db ifaces rng).0.bytes (length-frame rng)
        (nonempty-frames h n (generate_stack random var_db ifaces rng).1)
    where
      go :
          {rest : List (List ℕ)} (bytes : List ℕ)
          → length bytes ≡ frame_bytes var_db ifaces
          → nonempty rest ≡ rest
          → nonempty (bytes ∷ rest) ≡ bytes ∷ rest
      go [] e ih = absurd (omega arith)
      go (b ∷ bytes) e ih = ap (λ (l : List (List ℕ)). (b ∷ bytes) ∷ l) ih

  pub lines_of-frames :
      AllWide var_db
      → (n : ℕ) (rng : Engine)
      → lines_of (print_stacked var_db ifaces) (bytes_of (frames random var_db ifaces n rng)) tt
        ≡ map json_stacked (frames random var_db ifaces n rng)
  unfolding lines_of frames print_stacked
  lines_of-frames wide zero rng = refl
  lines_of-frames wide (suc n) rng =
      ap₂ (λ (pkt : StackedPacket) (rest : List Text). json_stacked pkt ∷ rest)
        (decode_stack-generate_stack_exact random var_db vars wide ifaces rng)
        (lines_of-frames wide n (generate_stack random var_db ifaces rng).1)

  pub length-frames : (n : ℕ) (rng : Engine) → length (frames random var_db ifaces n rng) ≡ n
  unfolding frames
  length-frames zero rng = refl
  length-frames (suc n) rng =
      omega (arith, length-frames n (generate_stack random var_db ifaces rng).1)
