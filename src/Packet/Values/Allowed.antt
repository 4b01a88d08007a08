-- ===== src/Packet/Values/Allowed.antt =====
-- What values a var allows, bit by bit and bound by bound (the constraints of parser/inc/tsn/var.h).
use native.Mathlib.Nat.{one-le-pow, pow-le-pow_right}
use tsn_gen.Prelude.{
  ℕ, zero, suc, ◌-◌, ◌/◌, ◌%◌, ◌^◌, ◌≤◌, ◌<◌, min, max, bit_and, ◌≡◌, refl, ap, ◌∙◌, arith, ◌==◌,
  not, leb, List, [], ◌∷◌, Option, none, some, length, get_or, All, Bool-cases, inl, inr,
  if◌then◌else◌,
}
use tsn_gen.Bits.Digits.{and_digit, bit_and-le}
use tsn_gen.Packet.{Range, Var}
use tsn_gen.Packet.Builder.{max_val, apply_mask}
use tsn_gen.Packet.Layout.{IsRange, IsVar}

-- The binary digit of a number at a place, 0 for the last one.
unfoldable pub bit_of : ℕ → ℕ → ℕ
bit_of zero v = v % 2
bit_of (suc i) v = bit_of i (v / 2)

-- The value has bits only where the mask has. A mask of 0 is none.
abbrev pub UnderMask : ℕ → ℕ → Type 0
UnderMask zero v = Unit
UnderMask (suc m) v = (i : ℕ) → bit_of i v ≤ bit_of i (suc m)

-- Of the bits of what is given, the value has those where the mask has one, and no other. A mask of
-- 0 is none.
abbrev pub Masked : ℕ → ℕ → ℕ → Type 0
Masked zero given v = v ≡ given
Masked (suc m) given v = (i : ℕ) → bit_of i v ≡ min (bit_of i given) (bit_of i (suc m))

-- The value stands in the list.
abbrev pub Listed : ℕ → List ℕ → Type 0
Listed v xs = (i : ℕ) × (i < length xs) × (get_or xs i 0 ≡ v)

-- A value drawn for a var with neither list nor range: it fits the width and a word, and has bits
-- only where the mask has.
abbrev pub Fits : Var → ℕ → Type 0
Fits var v = (v < 2 ^ var.size) × (v < 2 ^ 64) × UnderMask var.mask v

-- The list of allowed values comes before the range, whose bounds may stand in either order, and
-- the range before width and mask.
abbrev pub ObeysParts : Var → List ℕ → Option Range → ℕ → Type 0
ObeysParts var (x ∷ xs) range v = Listed v (x ∷ xs)
ObeysParts var [] (some r) v = (min r.min r.max ≤ v) × (v ≤ max r.min r.max)
ObeysParts var [] none v = Fits var v

abbrev pub Obeys : Var → ℕ → Type 0
Obeys var v = ObeysParts var var.expected_values var.range v

-- What may be put into a field for which a value may be given: the list of the var comes first, then
-- the value that is given, under the mask, then what the var allows. The range of the var does not
-- bind a value that is given.
abbrev pub AllowedParts : Option ℕ → Var → List ℕ → ℕ → Type 0
AllowedParts given var (x ∷ xs) v = Listed v (x ∷ xs)
AllowedParts (some w) var [] v = Masked var.mask w v
AllowedParts none var [] v = Obeys var v

abbrev pub Allowed : Option ℕ → Var → ℕ → Type 0
Allowed given var v = AllowedParts given var var.expected_values v

bit_of-bit_and : (i x m : ℕ) → bit_of i (bit_and x m) ≡ min (bit_of i x) (bit_of i m)
unfolding bit_of
bit_of-bit_and zero x m = omega (arith, and_digit x m)
bit_of-bit_and (suc i) x m =
    let half : bit_and x m / 2 ≡ bit_and (x / 2) (m / 2) = omega (arith, and_digit x m) in
    ap (bit_of i) half ∙ bit_of-bit_and i (x / 2) (m / 2)

pub apply_mask-Masked : (var : Var) (w : ℕ) → Masked var.mask w (apply_mask var w)
apply_mask-Masked var w = go var.mask
  where
    go : (mask : ℕ) → Masked mask w (if not (mask == 0) then bit_and w mask else w)
    go zero = refl
    go (suc m) = λ i.
        let masked : (if not (suc m == 0) then bit_and w (suc m) else w) ≡ bit_and w (suc m) =
          ground arith in
        ap (bit_of i) masked ∙ bit_of-bit_and i w (suc m)

Masked-UnderMask : (mask w v : ℕ) → Masked mask w v → UnderMask mask v
Masked-UnderMask zero w v h = tt
Masked-UnderMask (suc m) w v h = λ i. omega (arith, h i)

pub apply_mask-le : (var : Var) (w : ℕ) → apply_mask var w ≤ w
apply_mask-le var w = ground (arith, bit_and-le w var.mask)

pub max_val-lt_pow : (size v : ℕ) → v ≤ max_val size → (v < 2 ^ size) × (v < 2 ^ 64)
max_val-lt_pow size v h = elim (Bool-cases (leb 64 size)) [
  | inl wide ↦
      let power : 2 ^ 64 ≤ 2 ^ size =
        pow-le-pow_right {n = 2} (omega arith) {i = 64} {j = size} (ground arith) in
      let most : max_val size ≡ 2 ^ 64 - 1 = ground arith in (omega arith, omega arith)
  | inr narrow ↦
      let power : 2 ^ size ≤ 2 ^ 64 =
        pow-le-pow_right {n = 2} (omega arith) {i = size} {j = 64} (ground arith) in
      let most : max_val size ≡ 2 ^ size - 1 = ground arith in
      let some_power = one-le-pow size 2 (omega arith) in (omega arith, omega arith)
]

-- A number is no greater than one that has all its bits.
le-bits : (fuel a b : ℕ) → a ≤ fuel → ((i : ℕ) → bit_of i a ≤ bit_of i b) → a ≤ b
unfolding bit_of
le-bits fuel zero b h bits = omega arith
le-bits zero (suc a) b h bits = absurd (omega arith)
le-bits (suc fuel) (suc a) b h bits =
    omega (arith, bits zero, le-bits fuel (suc a / 2) (b / 2) (omega arith) (λ i. bits (suc i)))

pub Masked-le : (mask w v : ℕ) → Masked mask w v → v ≤ w
Masked-le zero w v h = omega (arith, h)
Masked-le (suc m) w v h = le-bits v v w (omega arith) λ i. omega (arith, h i)

-- A value up to the greatest of the width fits under the mask.
pub apply_mask-Fits : (var : Var) (w : ℕ) → w ≤ max_val var.size → Fits var (apply_mask var w)
apply_mask-Fits var w h =
    let (width, word) = max_val-lt_pow var.size w h in
    let below = apply_mask-le var w in
    (
      omega arith,
      omega arith,
      Masked-UnderMask var.mask w (apply_mask var w) (apply_mask-Masked var w),
    )

pub Listed-lt : (bound v : ℕ) (xs : List ℕ) → All (λ x. x < bound) xs → Listed v xs → v < bound
Listed-lt bound v [] h (i, lt, e) = absurd (omega arith)
Listed-lt bound v (x ∷ xs) h (zero, lt, e) = omega arith
Listed-lt bound v (x ∷ xs) h (suc i, lt, e) = Listed-lt bound v xs h.1 (i, omega arith, e)

parts-lt :
    (var : Var) (allowed : List ℕ) (range : Option Range) (v : ℕ)
    → All (λ x. x < 2 ^ 64) allowed
    → IsRange range
    → ObeysParts var allowed range v
    → v < 2 ^ 64
parts-lt var (x ∷ xs) range v h r o = Listed-lt (2 ^ 64) v (x ∷ xs) h o
parts-lt var [] (some r) v h k o = omega arith
parts-lt var [] none v h k o = o.1

-- What a well-formed var allows is a 64-bit word.
pub Obeys-lt : (var : Var) (v : ℕ) → IsVar var → Obeys var v → v < 2 ^ 64
Obeys-lt var v ok o = parts-lt var var.expected_values var.range v ok.expected ok.range o
