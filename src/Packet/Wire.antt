-- ===== src/Packet/Wire.antt =====
-- Fields on the wire: the packing loop of `Session::generateStack(Stack&)`
-- (traffic-gen/src/session.cpp), which the builder's loops come down to, and the reading of fields
-- of given widths. What is packed is read back.
use tsn_gen.Prelude.{
  Text, ℕ, ◌+◌, ◌%◌, ◌^◌, ◌≤◌, ◌<◌, min, ◌≡◌, refl, sym, subst, arith, ◌∙◌, ap, List, [], ◌∷◌, map,
  All,
}
use tsn_gen.Packet.{Field, FieldValue}
use tsn_gen.Bits.{append_bits, extract_bits}
use tsn_gen.Bits.Append.{bit_at, IsPacked, IsAppended, append_bits-IsAppended}
use tsn_gen.Bits.Extract.{extract-append_bits}

-- `for (const LayerContext::Field& f : layer->context.fields()) appendBits(...)`.
unfoldable pub pack : List Field → List ℕ × ℕ → List ℕ × ℕ
pack [] p = p
pack (f ∷ fs) (bytes, bit_offset) = pack fs (append_bits bytes bit_offset f.value f.bits)

abbrev pub field_value : Field → FieldValue
field_value f = (f.name, f.value)

-- Name and width, and the values read with such widths one after another.
abbrev pub shape : Field → Text × ℕ
shape f = (f.name, f.bits)

unfoldable pub unpack : List (Text × ℕ) → List ℕ → ℕ → List FieldValue
unpack [] bytes bit_offset = []
unpack ((name, bits) ∷ rest) bytes bit_offset =
    let (value, bit_offset') = extract_bits bytes bit_offset bits in
    (name, value) ∷ unpack rest bytes bit_offset'

unfoldable pub field_bits : List Field → ℕ
field_bits [] = 0
field_bits (f ∷ fs) = f.bits + field_bits fs

-- What of a value gets through a field: its low bits, 64 at most.
abbrev pub carried : Field → FieldValue
carried f = (f.name, f.value % 2 ^ min f.bits 64)

pub record IsField (f : Field) : Type 0 where
  pub value : f.value < 2 ^ 64
  pub bits : f.bits < 2 ^ 31

-- What packing some fields does to a packed buffer.
pub record IsWritten (fs : List Field) (p r : List ℕ × ℕ) : Type 0 where
  pub offset : r.1 ≡ p.1 + field_bits fs
  pub packed : IsPacked r.0 r.1
  pub kept : (k : ℕ) → k < p.1 → bit_at r.0 k ≡ bit_at p.0 k

module _ (f : Field) (p : List ℕ × ℕ) (ok : IsField f) (packed : IsPacked p.0 p.1) where
  appended : IsAppended p.0 p.1 f.value f.bits (append_bits p.0 p.1 f.value f.bits)
  appended = append_bits-IsAppended p.0 p.1 f.value f.bits ok.value ok.bits packed

  appended-IsPacked :
      IsPacked (append_bits p.0 p.1 f.value f.bits).0 (append_bits p.0 p.1 f.value f.bits).1
  appended-IsPacked = subst (IsPacked _) (sym appended.offset) appended.packed

pub pack-IsWritten :
    (fs : List Field) (p : List ℕ × ℕ)
    → All IsField fs
    → IsPacked p.0 p.1
    → IsWritten fs p (pack fs p)
unfolding pack field_bits
pack-IsWritten [] p ok packed = record { offset = omega arith; packed = packed; kept = λ k h. refl }
pack-IsWritten (f ∷ fs) p ok packed =
    let p' = append_bits p.0 p.1 f.value f.bits in
    let here = appended f p ok.0 packed in
    let rest = pack-IsWritten fs p' ok.1 (appended-IsPacked f p ok.0 packed) in
    record {
      offset = omega (arith, rest.offset, here.offset);
      packed = rest.packed;
      kept = λ k h. rest.kept k (omega (arith, here.offset)) ∙ here.kept k h;
    }

-- Fields with 64-bit values and widths below 2 ^ 31 that are packed at the end of a packed buffer
-- are read back, as far as their widths carry the values, from any buffer with the same bits in
-- their place.
pub unpack-pack :
    (fs : List Field) (p : List ℕ × ℕ) (final : List ℕ)
    → All IsField fs
    → IsPacked p.0 p.1
    → ((k : ℕ) → p.1 ≤ k → k < p.1 + field_bits fs → bit_at final k ≡ bit_at (pack fs p).0 k)
    → unpack (map shape fs) final p.1 ≡ map carried fs
unfolding pack unpack field_bits
unpack-pack [] p final ok packed same = refl
unpack-pack (f ∷ fs) p final ok packed same = rw read (
    ap (λ (l : List FieldValue). carried f ∷ l)
      (subst (λ o. unpack (map shape fs) final o ≡ map carried fs) here.offset
        (unpack-pack fs p' final ok.1 (appended-IsPacked f p ok.0 packed)
          (λ k lo hi. same k (omega (arith, here.offset)) (omega (arith, here.offset))))))
  where
    p' : List ℕ × ℕ
    p' = append_bits p.0 p.1 f.value f.bits

    here : IsAppended p.0 p.1 f.value f.bits p'
    here = appended f p ok.0 packed

    rest : IsWritten fs p' (pack fs p')
    rest = pack-IsWritten fs p' ok.1 (appended-IsPacked f p ok.0 packed)

    read : extract_bits final p.1 f.bits ≡ (f.value % 2 ^ min f.bits 64, p.1 + f.bits)
    read =
        extract-append_bits final p.0 p.1 f.value f.bits ok.0.value ok.0.bits packed
          (λ k lo hi. same k lo (omega arith) ∙ rest.kept k (omega (arith, here.offset)))
