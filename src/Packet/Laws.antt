-- ===== src/Packet/Laws.antt =====
-- What the builder and the decoder promise each other.
use tsn_gen.Prelude.{
  Text, ℕ, ◌%◌, ◌^◌, ◌<◌, min, ◌≡◌, refl, sym, arith, ◌∙◌, ap, ap₂, subst, fun_ext, List, [], ◌∷◌,
  ◌++◌, map, All, length,
}
use tsn_gen.Database.{Database}
use tsn_gen.Packet.{short_name, Var, ProtocolInterface, Field, FieldValue, BuiltPacket}
use tsn_gen.Packet.Builder.{
  Random, Overrides, lookup, pick_value, choose, build_with_fields, build_with_overrides,
}
use tsn_gen.Packet.Decoder.{layer_bytes, decode}
use tsn_gen.Packet.Layout.{AllVars, layout, layout-All}
use tsn_gen.Packet.RoundTrip.{decode-pack, length-bytes}
use tsn_gen.Packet.Values.{
  entry_shape, picked, packet_of_picked, map-picked, build_with_fields_lem,
  build_with_overrides_lem,
}
use tsn_gen.Packet.Values.Constraints.{picked-IsField, Chosen-lt, choose-Chosen}
use tsn_gen.Packet.Wire.{pack, field_value, shape, carried, IsField}

-- The values as far as the widths of their vars, and a word of 64 bits, carry them.
unfoldable pub carry : List (Text × Var) → List FieldValue → List FieldValue
carry [] fs = []
carry (e ∷ entries) [] = []
carry ((ref, var) ∷ entries) ((name, value) ∷ fs) =
    (name, value % 2 ^ min var.size 64) ∷ carry entries fs

carry-field_value :
    (fs : List Field) (entries : List (Text × Var))
    → map shape fs ≡ map entry_shape entries
    → map carried fs ≡ carry entries (map field_value fs)
unfolding carry
carry-field_value [] [] e = refl
carry-field_value [] (x ∷ entries) e = cc
carry-field_value (f ∷ fs) [] e = cc
carry-field_value (f ∷ fs) ((ref, var) ∷ entries) e =
    let rest : map shape fs ≡ map entry_shape entries = cc in
    let width : f.bits ≡ var.size = cc in
    ap₂ ◌∷◌ (ap (λ (n : ℕ). (f.name, f.value % 2 ^ min n 64)) width)
      (carry-field_value fs entries rest)

module _ (random : Random) (iface : ProtocolInterface) (var_db : Database Var) where
  open random use {Engine}

  choose_nothing : (λ ref. pick_value random) ≡ choose random []
  unfolding choose lookup
  choose_nothing = fun_ext (λ ref. fun_ext (λ var. fun_ext (λ rng. ground arith)))

  -- `buildWithFields` is `buildWithOverrides` with nothing handed over, draw for draw.
  pub build_with_fields-eq :
      (rng : Engine)
      → build_with_fields random iface var_db rng ≡ build_with_overrides random iface var_db [] rng
  build_with_fields-eq rng =
      build_with_fields_lem random var_db iface rng
      ∙ ap (λ c. packet_of_picked random (picked random c (layout var_db iface.var_refs) rng))
          choose_nothing
      ∙ sym (build_with_overrides_lem random var_db iface rng [])

  -- Decoding at the place of the packet between `pre` and `post` gives its bytes and its fields,
  -- each value as far as its width carries it.
  abbrev pub IsRecovered : BuiltPacket → List ℕ → List ℕ → Type 0
  IsRecovered p pre post =
      decode var_db iface (pre ++ (p.bytes ++ post)) (length pre)
      ≡ record { bytes = p.bytes; fields = carry (layout var_db iface.var_refs) p.fields }

  module _ (overrides : Overrides) (rng : Engine) (vars : AllVars var_db)
      (words : All (λ e. e.1 < 2 ^ 64) overrides) where
    fields : List Field
    fields = (picked random (choose random overrides) (layout var_db iface.var_refs) rng).0

    fields-IsField : All IsField fields
    unfolding fields
    fields-IsField =
        picked-IsField random (choose random overrides)
          (λ ref var r ok.
            Chosen-lt overrides (short_name ref) var _ ok words
              (choose-Chosen random overrides ref var r))
          (layout var_db iface.var_refs) rng (layout-All var_db iface.var_refs vars)

    fields_shape : map shape fields ≡ map entry_shape (layout var_db iface.var_refs)
    unfolding fields
    fields_shape = map-picked random (choose random overrides) (layout var_db iface.var_refs) rng

    abbrev packet : BuiltPacket
    packet = (build_with_overrides random iface var_db overrides rng).0

    -- Over a database of well-formed vars and with overrides that are 64-bit words, a built packet
    -- is as long as `layerBytes` says.
    pub length-build_with_overrides : length packet.bytes ≡ layer_bytes var_db iface
    unfolding fields
    length-build_with_overrides =
        subst (λ r. length r.0.bytes ≡ layer_bytes var_db iface)
          (sym (build_with_overrides_lem random var_db iface rng overrides))
          (length-bytes var_db iface fields fields_shape vars fields-IsField)

    -- Over a database of well-formed vars and with overrides that are 64-bit words, decoding at
    -- the place of a built packet in any frame gives its bytes and its fields, each value as far
    -- as the width of the field carries it.
    pub decode-build_with_overrides : (pre post : List ℕ) → IsRecovered packet pre post
    unfolding fields
    decode-build_with_overrides pre post =
        subst (λ r. IsRecovered r.0 pre post)
          (sym (build_with_overrides_lem random var_db iface rng overrides))
          (decode-pack var_db iface fields fields_shape vars fields-IsField pre post
            ∙ ap (λ (f : List FieldValue). record { bytes = (pack fields ([], 0)).0; fields = f })
                (carry-field_value fields (layout var_db iface.var_refs) fields_shape))
