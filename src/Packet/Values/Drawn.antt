-- ===== src/Packet/Values/Drawn.antt =====
-- Each value that a var allows can come up in `pickValue`.
use tsn_gen.Prelude.{
  ℕ, zero, suc, ◌-◌, ◌/◌, ◌^◌, ◌≤◌, ◌<◌, min, max, bit_and, ◌≡◌, refl, ap, ◌∙◌, arith, ◌==◌, not,
  List, [], ◌∷◌, Option, none, some, length, get_or, Bool-cases, inl, inr, if◌then◌else◌, Text,
}
use tsn_gen.Bits.Digits.{and_digit, zero-bit_and}
use tsn_gen.Packet.{Range, Var}
use tsn_gen.Packet.Builder.{Random, low, high, max_val, apply_mask, pick_free, pick_value}
use tsn_gen.Packet.Values.Allowed.{bit_of, UnderMask, Fits, Obeys, max_val-lt_pow}
use tsn_gen.Packet.Layout.{IsRange, IsVar}

-- A number whose bits are all in the mask stays as it is under the mask.
bit_and-bits : (fuel v m : ℕ) → v ≤ fuel → ((i : ℕ) → bit_of i v ≤ bit_of i m) → bit_and v m ≡ v
unfolding bit_of
bit_and-bits fuel zero m h bits = zero-bit_and m
bit_and-bits zero (suc v) m h bits = absurd (omega arith)
bit_and-bits (suc fuel) (suc v) m h bits =
    let rest = bit_and-bits fuel (suc v / 2) (m / 2) (omega arith) (λ i. bits (suc i)) in
    omega (arith, and_digit (suc v) m, bits zero, rest)

apply_mask-UnderMask : (var : Var) (v : ℕ) → UnderMask var.mask v → apply_mask var v ≡ v
apply_mask-UnderMask var v h = go var.mask h
  where
    go : (mask : ℕ) → UnderMask mask v → (if not (mask == 0) then bit_and v mask else v) ≡ v
    go zero u = refl
    go (suc m) u = ground (arith, bit_and-bits v v (suc m) (omega arith) u)

le-max_val : (size v : ℕ) → v < 2 ^ size → v < 2 ^ 64 → v ≤ max_val size
le-max_val size v width word = ground arith

module _ (random : Random) where
  open random use {Engine, uniform}

  -- Each word between the bounds comes up in some state of the engine.
  abbrev pub DrawsAll : Type 0
  DrawsAll =
      (lo hi v : ℕ) → lo ≤ v → v ≤ hi → hi < 2 ^ 64 → (rng : Engine) × ((uniform lo hi rng).0 ≡ v)

  module _ (draws : DrawsAll) where
    free_drawn :
        (var : Var) (v : ℕ) → Fits var v → (rng : Engine) × ((pick_free random var rng).0 ≡ v)
    unfolding pick_free
    free_drawn var v (width, word, under) = elim (Bool-cases (var.size == 0)) [
      | inl empty ↦
          let none_wide : var.size ≡ 0 = ground arith in
          let nought : v < 1 = omega (arith, width, ap (λ (n : ℕ). 2 ^ n) none_wide) in
          ((draws 0 0 0 (omega arith) (omega arith) (omega arith)).0, rw empty (omega arith))
      | inr wide ↦
          let (rng, e) =
            draws 0 (max_val var.size) v (omega arith) (le-max_val var.size v width word)
              (max_val-lt_pow var.size (max_val var.size) (omega arith)).1 in
          (rng, rw wide (ap (apply_mask var) e ∙ apply_mask-UnderMask var v under))
    ]

    parts_drawn :
        (name : Text) (size : ℕ) (allowed : List ℕ) (range : Option Range) (mask v : ℕ)
        → let var : Var = record {
          name = name;
          size = size;
          expected_values = allowed;
          range = range;
          mask = mask;
        } in
          IsRange range
          → length allowed < 2 ^ 64
          → Obeys var v
          → (rng : Engine) × ((pick_value random var rng).0 ≡ v)
    unfolding pick_value
    parts_drawn name size (x ∷ xs) range mask v words few (i, lt, e) =
        let (rng, drawn) =
          draws 0 (length (x ∷ xs) - 1) i (omega arith) (omega arith) (omega arith) in
        (rng, ap (λ (k : ℕ). get_or (x ∷ xs) k 0) drawn ∙ e)
    parts_drawn name size [] (some r) mask v words few (above, below) =
        let lowest : low r ≡ min r.min r.max = ground arith in
        let highest : high r ≡ max r.min r.max = ground arith in
        draws (low r) (high r) v (omega arith) (omega arith) (omega (arith, words.0, words.1))
    parts_drawn name size [] none mask v words few fits =
        free_drawn
          (record { name = name; size = size; expected_values = []; range = none; mask = mask }) v
          fits

    -- If the distribution yields each 64-bit word between its bounds in some state of the engine,
    -- then each value that a well-formed var with fewer than 2 ^ 64 listed values allows is what
    -- `pickValue` returns in some state.
    pub Obeys-pick_value :
        (var : Var) (v : ℕ)
        → IsVar var
        → length var.expected_values < 2 ^ 64
        → Obeys var v
        → (rng : Engine) × ((pick_value random var rng).0 ≡ v)
    Obeys-pick_value var v ok few o =
        parts_drawn var.name var.size var.expected_values var.range var.mask v ok.range few o
