-- ===== src/Session/FrameLaws.antt =====
-- A frame that `generateStack` has built, read back by `decodeStack`.
use tsn_gen.Prelude.{
  ℕ, ◌+◌, ◌≡◌, sym, ap, ap₂, ◌∙◌, subst, List, [], ◌∷◌, ◌++◌, length, append_assoc, append-nil,
  length-append,
}
use tsn_gen.Database.{Database}
use tsn_gen.Packet.{Var, ProtocolInterface, BuiltPacket}
use tsn_gen.Packet.Builder.{Random, build_with_fields}
use tsn_gen.Packet.Decoder.{decode, layer_bytes}
use tsn_gen.Packet.Layout.{AllVars, layout}
use tsn_gen.Packet.Laws.{
  carry, IsRecovered, build_with_fields-eq, length-build_with_overrides,
  decode-build_with_overrides,
}
use tsn_gen.Session.{Layer}
use tsn_gen.Session.Frame.{stack_loop, generate_stack, unstack_loop, decode_stack}

-- The layers with their values as far as the widths of their vars carry them.
unfoldable pub carry_layers : Database Var → List ProtocolInterface → List Layer → List Layer
carry_layers var_db [] layers = []
carry_layers var_db (iface ∷ ifaces) [] = []
carry_layers var_db (iface ∷ ifaces) ((name, pkt) ∷ layers) =
    (name, record { bytes = pkt.bytes; fields = carry (layout var_db iface.var_refs) pkt.fields })
    ∷ carry_layers var_db ifaces layers

module _ (random : Random) (var_db : Database Var) where
  open random use {Engine}

  abbrev pub packet : ProtocolInterface → Engine → BuiltPacket
  packet iface rng = (build_with_fields random iface var_db rng).0

  abbrev pub engine_after : ProtocolInterface → Engine → Engine
  engine_after iface rng = (build_with_fields random iface var_db rng).1

  -- The bytes and the layers that the loop adds.
  unfoldable pub added : List ProtocolInterface → Engine → List ℕ × List Layer
  added [] rng = ([], [])
  added (iface ∷ ifaces) rng =
      let rest = added ifaces (engine_after iface rng) in
      ((packet iface rng).bytes ++ rest.0, (iface.interface_name, packet iface rng) ∷ rest.1)

  pub stack_loop_lem :
      (ifaces : List ProtocolInterface) (bytes : List ℕ) (layers : List Layer) (rng : Engine)
      → (stack_loop random var_db ifaces (record { bytes = bytes; layers = layers }, rng)).0
        ≡ record { bytes = bytes ++ (added ifaces rng).0; layers = layers ++ (added ifaces rng).1 }
  unfolding stack_loop added
  stack_loop_lem [] bytes layers rng =
      ap₂ (λ (b : List ℕ) (l : List Layer). record { bytes = b; layers = l })
        (sym (append-nil bytes)) (sym (append-nil layers))
  stack_loop_lem (iface ∷ ifaces) bytes layers rng =
      let pkt = packet iface rng in
      let rng1 = engine_after iface rng in
      stack_loop_lem ifaces (bytes ++ pkt.bytes) (layers ++ (iface.interface_name, pkt) ∷ []) rng1
      ∙ ap₂ (λ (b : List ℕ) (l : List Layer). record { bytes = b; layers = l })
          (append_assoc bytes pkt.bytes (added ifaces rng1).0)
          (append_assoc layers ((iface.interface_name, pkt) ∷ []) (added ifaces rng1).1)

  module _ (vars : AllVars var_db) where
    pub length-packet :
        (iface : ProtocolInterface) (rng : Engine)
        → length (packet iface rng).bytes ≡ layer_bytes var_db iface
    length-packet iface rng =
        ap (λ r. length r.0.bytes) (build_with_fields-eq random iface var_db rng)
        ∙ length-build_with_overrides random iface var_db [] rng vars tt

    packet-IsRecovered :
        (iface : ProtocolInterface) (rng : Engine) (pre post : List ℕ)
        → IsRecovered random iface var_db (packet iface rng) pre post
    packet-IsRecovered iface rng pre post =
        subst (λ r. IsRecovered random iface var_db r.0 pre post)
          (sym (build_with_fields-eq random iface var_db rng))
          (decode-build_with_overrides random iface var_db [] rng vars tt pre post)

    unstack_loop_lem :
        (ifaces : List ProtocolInterface) (rng : Engine) (pre post : List ℕ) (layers : List Layer)
        → (unstack_loop var_db
            (pre ++ ((added ifaces rng).0 ++ post))
            ifaces
            (layers, length pre)).0
          ≡ layers ++ carry_layers var_db ifaces (added ifaces rng).1
    unfolding unstack_loop added carry_layers
    unstack_loop_lem [] rng pre post layers = sym (append-nil layers)
    unstack_loop_lem (iface ∷ ifaces) rng pre post layers =
        let pkt = packet iface rng in
        let rng1 = engine_after iface rng in
        let rest = (added ifaces rng1).0 in
        let read : Layer = (
          iface.interface_name,
          record { bytes = pkt.bytes; fields = carry (layout var_db iface.var_refs) pkt.fields },
        ) in
        let same : pre ++ (((pkt.bytes ++ rest) ++ post)) ≡ (pre ++ pkt.bytes) ++ (rest ++ post) =
          ap (λ (b : List ℕ). pre ++ b) (append_assoc pkt.bytes rest post)
          ∙ sym (append_assoc pre pkt.bytes (rest ++ post)) in
        ap₂
          (λ (d : BuiltPacket) (n : ℕ).
            (unstack_loop var_db (pre ++ ((pkt.bytes ++ rest) ++ post)) ifaces
              (layers ++ (iface.interface_name, d) ∷ [], n)).0)
          (ap (λ (b : List ℕ). decode var_db iface (pre ++ b) (length pre))
              (append_assoc pkt.bytes rest post)
            ∙ packet-IsRecovered iface rng pre (rest ++ post))
          (ap (λ (n : ℕ). length pre + n) (sym (length-packet iface rng))
            ∙ sym (length-append pre pkt.bytes))
        ∙ ap
            (λ (b : List ℕ).
              (unstack_loop var_db b ifaces (layers ++ read ∷ [], length (pre ++ pkt.bytes))).0)
            same
        ∙ unstack_loop_lem ifaces rng1 (pre ++ pkt.bytes) post (layers ++ read ∷ [])
        ∙ append_assoc layers (read ∷ []) (carry_layers var_db ifaces (added ifaces rng1).1)

    -- Over a database of well-formed vars, `decodeStack` takes the frame of `generateStack` apart
    -- into the layers that went in, whatever bytes follow it: the names and bytes of all layers,
    -- and their fields as far as the widths carry the values.
    pub decode_stack-generate_stack :
        (ifaces : List ProtocolInterface) (rng : Engine) (post : List ℕ)
        → (decode_stack var_db ifaces
            ((generate_stack random var_db ifaces rng).0.bytes ++ post)).layers
          ≡ carry_layers var_db ifaces (generate_stack random var_db ifaces rng).0.layers
    unfolding decode_stack generate_stack
    decode_stack-generate_stack ifaces rng post =
        rw (stack_loop_lem ifaces [] [] rng) (unstack_loop_lem ifaces rng [] post [])
