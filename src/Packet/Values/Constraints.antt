-- ===== src/Packet/Values/Constraints.antt =====
-- The values that `pickValue` and `buildWithOverrides` choose obey the constraints of the var.
use tsn_gen.Prelude.{
  Text, text_eq, ℕ, ◌-◌, ◌^◌, ◌≤◌, ◌<◌, min, max, ◌≡◌, refl, subst, arith, ◌==◌, List, [], ◌∷◌, map,
  Option, none, some, length, get_or, All, Bool-cases, inl, inr,
}
use tsn_gen.Database.{Database}
use tsn_gen.Packet.{Range, Var, ProtocolInterface, short_name}
use tsn_gen.Packet.Builder.{
  Random, Overrides, lookup, low, high, max_val, pick_free, pick_value, choose, build_with_fields,
  build_with_overrides,
}
use tsn_gen.Packet.Layout.{IsVar, layout}
use tsn_gen.Packet.Values.{Choice, picked, build_with_fields_lem, build_with_overrides_lem}
use tsn_gen.Packet.Values.Allowed.{
  Listed, Fits, Obeys, AllowedParts, apply_mask-Masked, apply_mask-le, apply_mask-Fits, Masked-le,
  Listed-lt, Obeys-lt,
}
use tsn_gen.Packet.Values.Given.{Picks, Picks-map, Choosable, Chosen, lookup-Given}
use tsn_gen.Packet.Values.Names.{short_name-IsShort}
use tsn_gen.Packet.Wire.{field_value, IsField}

module _ (random : Random) where
  open random use {Engine, uniform, uniform_bounds}

  pick_free-Fits : (var : Var) (rng : Engine) → Fits var (pick_free random var rng).0
  unfolding pick_free
  pick_free-Fits var rng = elim (Bool-cases (var.size == 0)) [
    | inl empty ↦ rw empty (
        subst (Fits var) (omega (arith, apply_mask-le var 0)) (apply_mask-Fits var 0 (omega arith)))
    | inr wide ↦ rw wide (
        apply_mask-Fits var (uniform 0 (max_val var.size) rng).0
          (uniform_bounds 0 (max_val var.size) rng (omega arith)).1)
  ]

  Listed-pick :
      (x : ℕ) (xs : List ℕ) (rng : Engine)
      → Listed (get_or (x ∷ xs) (uniform 0 (length (x ∷ xs) - 1) rng).0 0) (x ∷ xs)
  Listed-pick x xs rng = (
    (uniform 0 (length (x ∷ xs) - 1) rng).0,
    omega (arith, uniform_bounds 0 (length (x ∷ xs) - 1) rng (omega arith)),
    refl,
  )

  range_bounds :
      (r : Range) (rng : Engine)
      → let v = (uniform (low r) (high r) rng).0 in (min r.min r.max ≤ v) × (v ≤ max r.min r.max)
  range_bounds r rng =
      let (above, below) = uniform_bounds (low r) (high r) rng (ground arith) in
      let lowest : low r ≡ min r.min r.max = ground arith in
      let highest : high r ≡ max r.min r.max = ground arith in (omega arith, omega arith)

  pick_parts :
      (name : Text) (size : ℕ) (allowed : List ℕ) (range : Option Range) (mask : ℕ) (rng : Engine)
      → let var : Var = record {
        name = name;
        size = size;
        expected_values = allowed;
        range = range;
        mask = mask;
      } in
        Obeys var (pick_value random var rng).0
  unfolding pick_value
  pick_parts name size (x ∷ xs) range mask rng = Listed-pick x xs rng
  pick_parts name size [] (some r) mask rng = range_bounds r rng
  pick_parts name size [] none mask rng =
      pick_free-Fits
        (record { name = name; size = size; expected_values = []; range = none; mask = mask }) rng

  -- `pickValue` always returns a value that the var allows: one of its list, else one between the
  -- bounds of its range, else one that fits its width and a 64-bit word and has bits only where
  -- the mask, if there is one, has.
  pub pick_value-Obeys : (var : Var) (rng : Engine) → Obeys var (pick_value random var rng).0
  pick_value-Obeys var rng = pick_parts var.name var.size var.expected_values var.range var.mask rng

module _ (random : Random) where
  open random use {Engine}

  picked-Picks :
      (P : Text → Var → ℕ → Type 0) (choice : Choice random)
      → ((ref : Text) (var : Var) (rng : Engine) → P (short_name ref) var (choice ref var rng).0)
      → (entries : List (Text × Var)) (rng : Engine)
      → Picks P entries (map field_value (picked random choice entries rng).0)
  unfolding picked
  picked-Picks P choice h [] rng = tt
  picked-Picks P choice h ((ref, var) ∷ entries) rng = (
    short_name-IsShort ref,
    h ref var rng,
    picked-Picks P choice h entries (choice ref var rng).1,
  )

  choose_parts :
      (overrides : Overrides) (given : Option ℕ) (ref : Text)
      → lookup (short_name ref) overrides ≡ given
      → (name : Text) (size : ℕ) (allowed : List ℕ) (range : Option Range) (mask : ℕ)
      → (rng : Engine)
      → let var : Var = record {
        name = name;
        size = size;
        expected_values = allowed;
        range = range;
        mask = mask;
      } in
        AllowedParts given var allowed (choose random overrides ref var rng).0
  unfolding choose
  choose_parts overrides given ref e name size (x ∷ xs) range mask rng =
      pick_parts random name size (x ∷ xs) range mask rng
  choose_parts overrides none ref e name size [] range mask rng =
      rw e (pick_parts random name size [] range mask rng)
  choose_parts overrides (some w) ref e name size [] range mask rng = rw e (
      apply_mask-Masked
        (record { name = name; size = size; expected_values = []; range = range; mask = mask }) w)

  pub choose-Chosen :
      (overrides : Overrides) (ref : Text) (var : Var) (rng : Engine)
      → Chosen overrides (short_name ref) var (choose random overrides ref var rng).0
  choose-Chosen overrides ref var rng =
      choose_parts overrides (lookup (short_name ref) overrides) ref refl var.name var.size
        var.expected_values var.range var.mask rng

  module _ (var_db : Database Var) (iface : ProtocolInterface) (rng : Engine) where
    -- `buildWithFields` makes one field for each reference of the interface that leads to a var
    -- with bits, in the order of the references, under the name after the last "::" of the
    -- reference, with a value that the var allows: one of its list, else one between the bounds of
    -- its range, else one that fits its width and a 64-bit word and has bits only where the mask,
    -- if there is one, has.
    pub build_with_fields-Picks :
        Picks
          (λ name. Obeys)
          (layout var_db iface.var_refs)
          (build_with_fields random iface var_db rng).0.fields
    build_with_fields-Picks = rw (build_with_fields_lem random var_db iface rng) (
        picked-Picks (λ name. Obeys) (λ ref. pick_value random) (λ ref. pick_value-Obeys random)
          (layout var_db iface.var_refs) rng)

    pub build_with_overrides-Chosen :
        (overrides : Overrides)
        → Picks
            (Chosen overrides)
            (layout var_db iface.var_refs)
            (build_with_overrides random iface var_db overrides rng).0.fields
    build_with_overrides-Chosen overrides =
        rw (build_with_overrides_lem random var_db iface rng overrides) (
          picked-Picks (Chosen overrides) (choose random overrides) (choose-Chosen overrides)
            (layout var_db iface.var_refs) rng)

    -- `buildWithOverrides` makes one field for each reference of the interface that leads to a var
    -- with bits, in the order of the references, under the name after the last "::" of the
    -- reference. Its value comes from the var's list if it has one; else it is the value handed
    -- over for that name, of whose bits only those are kept where the mask, if there is one, has
    -- one; else it is one that the var allows.
    pub build_with_overrides-Picks :
        (overrides : Overrides)
        → Picks
            (Choosable overrides)
            (layout var_db iface.var_refs)
            (build_with_overrides random iface var_db overrides rng).0.fields
    build_with_overrides-Picks overrides =
        Picks-map (Chosen overrides) (Choosable overrides)
          (λ name var v chosen. (lookup name overrides, lookup-Given name overrides, chosen))
          (layout var_db iface.var_refs)
          (build_with_overrides random iface var_db overrides rng).0.fields
          (build_with_overrides-Chosen overrides)

  -- The fields that are picked for well-formed vars fit the loops of the codec.
  pub picked-IsField :
      (choice : Choice random)
      → ((ref : Text) (var : Var) (rng : Engine) → IsVar var → (choice ref var rng).0 < 2 ^ 64)
      → (entries : List (Text × Var)) (rng : Engine) → All (λ e. IsVar e.1) entries
      → All IsField (picked random choice entries rng).0
  unfolding picked
  picked-IsField choice h [] rng ok = tt
  picked-IsField choice h ((ref, var) ∷ entries) rng ok = (
    record { value = h ref var rng ok.0; bits = ok.0.size },
    picked-IsField choice h entries (choice ref var rng).1 ok.1,
  )

abbrev IsGiven : Option ℕ → Type 0
IsGiven none = Unit
IsGiven (some w) = w < 2 ^ 64

lookup-IsGiven : (name : Text) (m : Overrides) → All (λ e. e.1 < 2 ^ 64) m → IsGiven (lookup name m)
unfolding lookup
lookup-IsGiven name [] h = tt
lookup-IsGiven name ((key, value) ∷ rest) h = elim (Bool-cases (text_eq name key)) [
  | inl same ↦ rw (IsGiven, same) h.0
  | inr other ↦ rw (IsGiven, other) (lookup-IsGiven name rest h.1)
]

AllowedParts-lt :
    (given : Option ℕ) (var : Var) (allowed : List ℕ) (v : ℕ)
    → IsVar var
    → IsGiven given
    → All (λ x. x < 2 ^ 64) allowed
    → AllowedParts given var allowed v
    → v < 2 ^ 64
AllowedParts-lt given var (x ∷ xs) v ok g h c = Listed-lt (2 ^ 64) v (x ∷ xs) h c
AllowedParts-lt none var [] v ok g h c = Obeys-lt var v ok c
AllowedParts-lt (some w) var [] v ok g h c = omega (arith, Masked-le var.mask w v c)

-- What is chosen for a well-formed var is a 64-bit word, if what is handed over is.
pub Chosen-lt :
    (overrides : Overrides) (name : Text) (var : Var) (v : ℕ)
    → IsVar var
    → All (λ e. e.1 < 2 ^ 64) overrides
    → Chosen overrides name var v
    → v < 2 ^ 64
Chosen-lt overrides name var v ok h c =
    AllowedParts-lt (lookup name overrides) var var.expected_values v ok
      (lookup-IsGiven name overrides h) ok.expected c
