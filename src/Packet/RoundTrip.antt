-- ===== src/Packet/RoundTrip.antt =====
-- `PacketDecoder::decode` undoes the builder, also for a packet that stands inside a longer frame.

use tsn_gen.Prelude.{
  Text, ℕ, zero, suc, ◌+◌, ◌-◌, ◌*◌, ◌/◌, ◌%◌, ◌^◌, ◌≤◌, ◌<◌, min, ◌≡◌, refl, sym, arith, ◌∙◌, ap,
  ap₂, List, [], ◌∷◌, ◌++◌, map, All, length, take, append_assoc, append-nil, length-append,
  get_or-append_left, get_or-append_right, drop-append, take-append, none, some, Option-cases, inl,
  inr, lt→ltb, le→ltb,
}
use tsn_gen.Database.{Database}
use tsn_gen.Bits.{extract_bits}
use tsn_gen.Bits.Append.{bit_at, empty-IsPacked}
use tsn_gen.Bits.Extract.{read_bits, value_read, extract_bits_lem}
use tsn_gen.Packet.{Var, ProtocolInterface, Field, FieldValue, short_name}
use tsn_gen.Packet.Decoder.{decode_round, decode_loop, layer_bytes, slice, decode}
use tsn_gen.Packet.Layout.{
  IsVar, AllVars, resolve, layout, layout_bits, layout_skip, layout_entry, layout-All,
  layer_bytes_lem,
}
use tsn_gen.Packet.Values.{entry_shape}
use tsn_gen.Packet.Wire.{
  pack, shape, unpack, field_bits, carried, IsField, IsWritten, pack-IsWritten, unpack-pack,
}

-- Bits after a prefix of whole bytes.
bit_at-append : (pre l : List ℕ) (k : ℕ) → bit_at (pre ++ l) (length pre * 8 + k) ≡ bit_at l k
bit_at-append pre l k =
    ap₂ (λ (b q : ℕ). b / 2 ^ (7 - q) % 2)
      (get_or-append_right pre l ((length pre * 8 + k) / 8) (k / 8) 0 (omega arith)) (omega arith)

bit_at-append_left :
    (l post : List ℕ) (k : ℕ) → k < length l * 8 → bit_at (l ++ post) k ≡ bit_at l k
bit_at-append_left l post k h =
    ap (λ (b : ℕ). b / 2 ^ (7 - k % 8) % 2) (get_or-append_left l post (k / 8) 0 (omega arith))

read_bits-append :
    (n : ℕ) (pre l : List ℕ) (o : ℕ) → read_bits (pre ++ l) (length pre * 8 + o) n ≡ read_bits l o n
unfolding read_bits
read_bits-append zero pre l o = refl
read_bits-append (suc n) pre l o =
    ap₂ (λ (b r : ℕ). b * 2 ^ n + r) (bit_at-append pre l o)
      (ap (λ (t : ℕ). read_bits (pre ++ l) t n) (omega arith) ∙ read_bits-append n pre l (o + 1))

extract_bits-append :
    (pre l : List ℕ) (o n : ℕ)
    → n < 2 ^ 31
    → extract_bits (pre ++ l) (length pre * 8 + o) n ≡ (value_read l o n, length pre * 8 + (o + n))
extract_bits-append pre l o n h =
    extract_bits_lem (pre ++ l) (length pre * 8 + o) n h
    ∙ ap₂ (λ (v p : ℕ). (v, p))
        (ap (λ (t : ℕ). read_bits (pre ++ l) t (min n 64)) (omega arith)
          ∙ read_bits-append (min n 64) pre l (o + (n - 64)))
        (omega arith)

-- Reading fields after a prefix of whole bytes.
unpack-append :
    (pre l : List ℕ) (o : ℕ) (shapes : List (Text × ℕ))
    → All (λ s. s.1 < 2 ^ 31) shapes
    → unpack shapes (pre ++ l) (length pre * 8 + o) ≡ unpack shapes l o
unfolding unpack
unpack-append pre l o [] ok = refl
unpack-append pre l o ((name, n) ∷ rest) ok =
    rw (extract_bits-append pre l o n ok.0, extract_bits_lem l o n ok.0)
      (ap (λ r. (name, value_read l o n) ∷ r) (unpack-append pre l (o + n) rest ok.1))

module _ (var_db : Database Var) where
  -- The loop of `decode` reads the fields of the layout one after another.
  decode_round_skip :
      (bytes : List ℕ) (ref : Text) (d : ℕ × List FieldValue)
      → resolve var_db ref ≡ none
      → decode_round var_db bytes ref d ≡ d
  unfolding decode_round resolve
  decode_round_skip bytes ref d e = ground arith

  abbrev read_next : List ℕ → Text → Var → ℕ × List FieldValue → ℕ × List FieldValue
  read_next bytes ref var d = (
    (extract_bits bytes d.0 var.size).1,
    d.1 ++ (short_name ref, (extract_bits bytes d.0 var.size).0) ∷ [],
  )

  decode_round_entry :
      (bytes : List ℕ) (ref : Text) {var : Var} (d : ℕ × List FieldValue)
      → resolve var_db ref ≡ some var
      → decode_round var_db bytes ref d ≡ read_next bytes ref var d
  unfolding decode_round resolve
  decode_round_entry bytes ref d e = ground arith

  decode_loop-step :
      (bytes : List ℕ) (ref : Text) (refs : List Text) (d : ℕ × List FieldValue)
      → decode_loop var_db bytes (ref ∷ refs) d
        ≡ decode_loop var_db bytes refs (decode_round var_db bytes ref d)
  unfolding decode_loop
  decode_loop-step bytes ref refs d = refl

  decode_loop_lem :
      (bytes : List ℕ) (refs : List Text) (d : ℕ × List FieldValue)
      → (decode_loop var_db bytes refs d).1
        ≡ d.1 ++ unpack (map entry_shape (layout var_db refs)) bytes d.0
  decode_loop_lem bytes [] d = unfold decode_loop layout unpack in sym (append-nil d.1)
  decode_loop_lem bytes (ref ∷ refs) d = elim (Option-cases (resolve var_db ref)) [
    | inl e ↦
        rw (decode_loop-step, decode_round_skip bytes ref d e, layout_skip var_db ref refs e)
          (decode_loop_lem bytes refs d)
    | inr (var, e) ↦
        rw (decode_loop-step, decode_round_entry bytes ref d e, layout_entry var_db ref refs e)
          (decode_loop_lem bytes refs (read_next bytes ref var d)
            ∙ unfold unpack in
              append_assoc d.1 ((short_name ref, (extract_bits bytes d.0 var.size).0) ∷ []) (
                unpack (map entry_shape (layout var_db refs)) bytes
                  (extract_bits bytes d.0 var.size).1))
  ]

entry_shapes-All :
    (entries : List (Text × Var))
    → All (λ e. IsVar e.1) entries
    → All (λ s. s.1 < 2 ^ 31) (map entry_shape entries)
entry_shapes-All [] ok = tt
entry_shapes-All (e ∷ entries) ok = (ok.0.size, entry_shapes-All entries ok.1)

field_bits-layout_bits :
    (fs : List Field) (entries : List (Text × Var))
    → map shape fs ≡ map entry_shape entries
    → field_bits fs ≡ layout_bits entries
unfolding field_bits layout_bits
field_bits-layout_bits [] [] e = refl
field_bits-layout_bits [] (x ∷ entries) e = cc
field_bits-layout_bits (f ∷ fs) [] e = cc
field_bits-layout_bits (f ∷ fs) ((ref, var) ∷ entries) e =
    let rest : map shape fs ≡ map entry_shape entries = cc in
    let width : f.bits ≡ var.size = cc in
    ap₂ (λ (a b : ℕ). a + b) width (field_bits-layout_bits fs entries rest)

slice_middle :
    (pre l post : List ℕ) (n : ℕ) → n ≡ length l → slice (pre ++ (l ++ post)) (length pre) n ≡ l
slice_middle pre [] post n e =
    let stop : min (length pre + n) (length (pre ++ post)) ≤ length pre = omega arith in
    rw (le→ltb (length pre) (min (length pre + n) (length (pre ++ post))) stop)
slice_middle pre (x ∷ l) post n e =
    let whole = x ∷ l in
    let long : length pre + n ≤ length (pre ++ (whole ++ post)) =
      omega (arith, length-append pre (whole ++ post), length-append whole post) in
    let stop : min (length pre + n) (length (pre ++ (whole ++ post))) ≡ length pre + n =
      omega arith in
    let width : length pre + n - length pre ≡ n = omega arith in
    let some_left : length pre < length pre + n = omega arith in
    rw (stop, width, lt→ltb (length pre) (length pre + n) some_left)
      (ap (take n) (drop-append pre (whole ++ post) (length pre) refl) ∙ take-append whole post n e)

-- Fields of the layout that were packed from the start of a buffer.
module _ (var_db : Database Var) (iface : ProtocolInterface) (fs : List Field)
    (shapes : map shape fs ≡ map entry_shape (layout var_db iface.var_refs)) (vars : AllVars var_db)
    (ok : All IsField fs) where
  abbrev pub bytes : List ℕ
  bytes = (pack fs ([], 0)).0

  written : IsWritten fs ([], 0) (pack fs ([], 0))
  written = pack-IsWritten fs ([], 0) ok empty-IsPacked

  pub length-bytes : length bytes ≡ layer_bytes var_db iface
  length-bytes = omega (
    arith,
    layer_bytes_lem var_db iface,
    field_bits-layout_bits fs (layout var_db iface.var_refs) shapes,
    written.offset,
    written.packed.size,
  )

  -- Decoding at the place of the packet in a frame gives the packet's bytes and its fields, as far
  -- as their widths carry the values.
  pub decode-pack :
      (pre post : List ℕ)
      → decode var_db iface (pre ++ (bytes ++ post)) (length pre)
        ≡ record { bytes = bytes; fields = map carried fs }
  unfolding decode
  decode-pack pre post =
      ap₂ (λ (b : List ℕ) (f : List FieldValue). record { bytes = b; fields = f })
        (slice_middle pre bytes post (layer_bytes var_db iface) (sym length-bytes))
        (decode_loop_lem var_db (pre ++ (bytes ++ post)) iface.var_refs (length pre * 8, [])
          ∙ read_back)
    where
      entries : List (Text × ℕ)
      entries = map entry_shape (layout var_db iface.var_refs)

      same : (k : ℕ) → 0 ≤ k → k < 0 + field_bits fs → bit_at (bytes ++ post) k ≡ bit_at bytes k
      same k lo hi =
          bit_at-append_left bytes post k (omega (arith, written.offset, written.packed.size))

      read_back : unpack entries (pre ++ (bytes ++ post)) (length pre * 8) ≡ map carried fs
      read_back =
          ap (λ (t : ℕ). unpack entries (pre ++ (bytes ++ post)) t) (omega arith)
          ∙ unpack-append pre (bytes ++ post) 0 entries (
              entry_shapes-All (layout var_db iface.var_refs)
                (layout-All var_db iface.var_refs vars))
          ∙ ap (λ l. unpack l (bytes ++ post) 0) (sym shapes)
          ∙ unpack-pack fs ([], 0) (bytes ++ post) ok empty-IsPacked same
