-- ===== src/Packet/Values.antt =====
-- What the build loops of `PacketBuilder` come to: for each entry of the layout a value is picked,
-- and the picked fields are packed.
pub mod Names
pub mod Allowed
pub mod Given
pub mod Constraints
pub mod Drawn
use tsn_gen.Prelude.{
  Text, ℕ, ◌+◌, ◌^◌, ◌≤◌, ◌<◌, ◌≡◌, refl, sym, arith, ◌∙◌, ap, ◌==◌, List, [], ◌∷◌, ◌++◌, map,
  Option, none, some, if◌then◌else◌, All, Option-cases, Bool-cases, inl, inr, append_assoc,
  append-nil,
}
use tsn_gen.Database.{Database, get_element}
use tsn_gen.Packet.{Var, ProtocolInterface, Field, FieldValue, BuiltPacket, short_name}
use tsn_gen.Packet.Builder.{
  Random, Overrides, Building, pick_value, choose, put_field, fields_round, fields_loop,
  overrides_round, overrides_loop, begin, packet_of, build_with_fields, build_with_overrides,
}
use tsn_gen.Packet.Layout.{resolve, layout, layout_skip, layout_entry}
use tsn_gen.Packet.Wire.{pack, field_value, shape}

abbrev pub entry_shape : Text × Var → Text × ℕ
entry_shape (ref, var) = (short_name ref, var.size)

module _ (random : Random) where
  open random use {Engine}

  -- How a value is chosen for a reference and its var.
  abbrev pub Choice : Type 0
  Choice = Text → Var → Engine → ℕ × Engine

  module _ (choice : Choice) where
    -- The fields for the entries of a layout, and the engine after them.
    unfoldable pub picked : List (Text × Var) → Engine → List Field × Engine
    picked [] rng = ([], rng)
    picked ((ref, var) ∷ rest) rng =
        let (value, rng') = choice ref var rng in
        let (fields, rng'') = picked rest rng' in
        (record { name = short_name ref; value = value; bits = var.size } ∷ fields, rng'')

    pub map-picked :
        (entries : List (Text × Var)) (rng : Engine)
        → map shape (picked entries rng).0 ≡ map entry_shape entries
    unfolding picked
    map-picked [] rng = refl
    map-picked ((ref, var) ∷ rest) rng =
        ap (λ l. entry_shape (ref, var) ∷ l) (map-picked rest (choice ref var rng).1)

    -- The state of a build loop after the picked fields.
    abbrev after : List Field × Engine → Building random → Building random
    after (fields, rng) b = record {
      bytes = (pack fields (b.bytes, b.bit_offset)).0;
      bit_offset = (pack fields (b.bytes, b.bit_offset)).1;
      fields = b.fields ++ map field_value fields;
      rng = rng;
    }

    module _ (var_db : Database Var) where
      round : Text → Building random → Building random
      round ref b = elim (get_element ref var_db) [
        | none ↦ b
        | some var ↦ if var.size == 0 then b else put_field random ref var (choice ref var b.rng) b
      ]

      loop : List Text → Building random → Building random
      loop [] b = b
      loop (ref ∷ refs) b = loop refs (round ref b)

      round_skip : (ref : Text) (b : Building random) → resolve var_db ref ≡ none → round ref b ≡ b
      unfolding round resolve
      round_skip ref b e = ground arith

      round_entry :
          (ref : Text) {var : Var} (b : Building random)
          → resolve var_db ref ≡ some var
          → round ref b ≡ put_field random ref var (choice ref var b.rng) b
      unfolding round resolve
      round_entry ref b e = ground arith

      after_entry :
          (ref : Text) (var : Var) (rest : List (Text × Var)) (b : Building random)
          → let b' = put_field random ref var (choice ref var b.rng) b in
            after (picked rest b'.rng) b' ≡ after (picked ((ref, var) ∷ rest) b.rng) b
      unfolding picked pack put_field
      after_entry ref var rest b =
          let (value, rng') = choice ref var b.rng in
          let fields = (picked rest rng').0 in
          ap (λ l. record (after (picked ((ref, var) ∷ rest) b.rng) b) { fields = l })
            (append_assoc b.fields ((short_name ref, value) ∷ []) (map field_value fields))

      loop-step :
          (ref : Text) (refs : List Text) (b : Building random)
          → loop (ref ∷ refs) b ≡ loop refs (round ref b)
      unfolding loop
      loop-step ref refs b = refl

      loop_lem :
          (refs : List Text) (b : Building random)
          → loop refs b ≡ after (picked (layout var_db refs) b.rng) b
      loop_lem [] b =
          unfold loop picked layout pack in
          ap (λ l. record b { fields = l }) (sym (append-nil b.fields))
      loop_lem (ref ∷ refs) b = elim (Option-cases (resolve var_db ref)) [
        | inl e ↦
            rw (loop-step, round_skip ref b e, layout_skip var_db ref refs e) (loop_lem refs b)
        | inr (var, e) ↦
            rw (loop-step, round_entry ref b e, layout_entry var_db ref refs e)
              (loop_lem refs (put_field random ref var (choice ref var b.rng) b)
                ∙ after_entry ref var (layout var_db refs) b)
      ]

  -- The packet whose fields are picked by a choice.
  abbrev pub packet_of_picked : List Field × Engine → BuiltPacket × Engine
  packet_of_picked (fields, rng) =
      (record { bytes = (pack fields ([], 0)).0; fields = map field_value fields }, rng)

  module _ (var_db : Database Var) where
    fields_loop_lem :
        (refs : List Text) (b : Building random)
        → fields_loop random var_db refs b ≡ loop (λ ref. pick_value random) var_db refs b
    unfolding fields_loop fields_round loop round
    fields_loop_lem [] b = refl
    fields_loop_lem (ref ∷ refs) b = fields_loop_lem refs (fields_round random var_db ref b)

    overrides_loop_lem :
        (overrides : Overrides) (refs : List Text) (b : Building random)
        → overrides_loop random var_db overrides refs b
          ≡ loop (choose random overrides) var_db refs b
    unfolding overrides_loop overrides_round loop round
    overrides_loop_lem overrides [] b = refl
    overrides_loop_lem overrides (ref ∷ refs) b =
        overrides_loop_lem overrides refs (overrides_round random var_db overrides ref b)

    module _ (iface : ProtocolInterface) (rng : Engine) where
      pub build_with_fields_lem :
          build_with_fields random iface var_db rng
          ≡ packet_of_picked (picked (λ ref. pick_value random) (layout var_db iface.var_refs) rng)
      unfolding build_with_fields
      build_with_fields_lem = ap (packet_of random) (
          fields_loop_lem iface.var_refs (begin random rng)
          ∙ loop_lem (λ ref. pick_value random) var_db iface.var_refs (begin random rng))

      pub build_with_overrides_lem :
          (overrides : Overrides)
          → build_with_overrides random iface var_db overrides rng
            ≡ packet_of_picked (picked (choose random overrides) (layout var_db iface.var_refs) rng)
      unfolding build_with_overrides
      build_with_overrides_lem overrides = ap (packet_of random) (
          overrides_loop_lem overrides iface.var_refs (begin random rng)
          ∙ loop_lem (choose random overrides) var_db iface.var_refs (begin random rng))
