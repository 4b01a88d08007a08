-- ===== src/Packet/Length.antt =====
-- The length of packed fields depends on their widths only.
use tsn_gen.Prelude.{
  Text, ℕ, zero, suc, ◌+◌, ◌/◌, ◌^◌, ◌<◌, ◌≡◌, refl, sym, arith, ◌∙◌, ap, Bool, true, false, List,
  [], ◌∷◌, ◌++◌, map, All, length, length-set, length-append, leb, if◌then◌else◌,
}
use tsn_gen.Bits.{grow, rounds, append_bit, append_loop, append_bits}
use tsn_gen.Bits.Append.{empty-IsPacked}
use tsn_gen.Packet.{Field}
use tsn_gen.Packet.Wire.{pack, shape, field_bits, IsField, IsWritten, pack-IsWritten}

-- The length of a buffer and the offset.
abbrev extent : List ℕ × ℕ → ℕ × ℕ
extent p = (length p.0, p.1)

length-grow :
    (buf : List ℕ) (i : ℕ)
    → length (grow buf i) ≡ (if leb (length buf) i then length buf + 1 else length buf)
length-grow buf i = go (leb (length buf) i)
  where
    go :
        (b : Bool)
        → length (if b then buf ++ 0 ∷ [] else buf) ≡ (if b then length buf + 1 else length buf)
    go true = length-append buf (0 ∷ [])
    go false = refl

length-append_bit :
    (buf other : List ℕ) (offset v w i : ℕ)
    → length buf ≡ length other
    → length (append_bit buf offset v i) ≡ length (append_bit other offset w i)
unfolding append_bit
length-append_bit buf other offset v w i e =
    length-set (grow buf (offset / 8)) (offset / 8) _
    ∙ length-grow buf (offset / 8)
    ∙ ap (λ (n : ℕ). if leb n (offset / 8) then n + 1 else n) e
    ∙ sym (length-grow other (offset / 8))
    ∙ sym (length-set (grow other (offset / 8)) (offset / 8) _)

extent-append_loop :
    (n : ℕ) (buf other : List ℕ) (offset v w : ℕ)
    → length buf ≡ length other
    → extent (append_loop n buf offset v) ≡ extent (append_loop n other offset w)
unfolding append_loop
extent-append_loop zero buf other offset v w e = ap (λ (n : ℕ). (n, offset)) e
extent-append_loop (suc i) buf other offset v w e =
    extent-append_loop i (append_bit buf offset v i) (append_bit other offset w i) (offset + 1) v w
      (length-append_bit buf other offset v w i e)

extent-append_bits :
    (buf other : List ℕ) (o p v w n : ℕ)
    → length buf ≡ length other
    → o ≡ p
    → extent (append_bits buf o v n) ≡ extent (append_bits other p w n)
unfolding append_bits
extent-append_bits buf other o p v w n e q =
    ap (λ (k : ℕ). extent (append_loop (rounds n) buf k v)) q
    ∙ extent-append_loop (rounds n) buf other p v w e

extent-pack :
    (fs gs : List Field) (p q : List ℕ × ℕ)
    → map shape fs ≡ map shape gs
    → extent p ≡ extent q
    → extent (pack fs p) ≡ extent (pack gs q)
unfolding pack
extent-pack [] [] p q e h = h
extent-pack [] (g ∷ gs) p q e h = cc
extent-pack (f ∷ fs) [] p q e h = cc
extent-pack (f ∷ fs) (g ∷ gs) p q e h =
    let rest : map shape fs ≡ map shape gs = cc in
    let width : f.bits ≡ g.bits = cc in
    extent-pack fs gs (append_bits p.0 p.1 f.value f.bits) (append_bits q.0 q.1 g.value g.bits) rest
      (extent-append_bits p.0 q.0 p.1 q.1 f.value g.value f.bits (ap (λ (x : ℕ × ℕ). x.0) h)
          (ap (λ (x : ℕ × ℕ). x.1) h)
        ∙ ap (λ (n : ℕ). extent (append_bits q.0 q.1 g.value n)) width)

blank : Field → Field
blank f = record { name = f.name; value = 0; bits = f.bits }

shape-blank : (fs : List Field) → map shape fs ≡ map shape (map blank fs)
unfolding blank
shape-blank [] = refl
shape-blank (f ∷ fs) = ap (λ (l : List (Text × ℕ)). (f.name, f.bits) ∷ l) (shape-blank fs)

blank-IsField : (fs : List Field) → All (λ f. f.bits < 2 ^ 31) fs → All IsField (map blank fs)
unfolding blank
blank-IsField [] h = tt
blank-IsField (f ∷ fs) h = (record { value = omega arith; bits = h.0 }, blank-IsField fs h.1)

field_bits-blank : (fs : List Field) → field_bits (map blank fs) ≡ field_bits fs
unfolding field_bits blank
field_bits-blank [] = refl
field_bits-blank (f ∷ fs) = ap (λ (n : ℕ). f.bits + n) (field_bits-blank fs)

-- If all widths are below 2 ^ 31, packed fields take the least number of bytes that holds their
-- bits, whatever their values.
pub length-pack :
    (fs : List Field)
    → All (λ f. f.bits < 2 ^ 31) fs
    → length (pack fs ([], 0)).0 ≡ (field_bits fs + 7) / 8
length-pack fs h =
    let written : IsWritten (map blank fs) ([], 0) (pack (map blank fs) ([], 0)) =
      pack-IsWritten (map blank fs) ([], 0) (blank-IsField fs h) empty-IsPacked in
    ap (λ (x : ℕ × ℕ). x.0) (extent-pack fs (map blank fs) ([], 0) ([], 0) (shape-blank fs) refl)
    ∙ omega (arith, written.offset, written.packed.size, field_bits-blank fs)
