-- ===== src/Packet/Layout.antt =====
-- The layout of an interface: the references that lead to a var of at least one bit, in order.
-- The builder, the decoder and `layerBytes` all go by it.
use tsn_gen.Prelude.{
  Text, ℕ, ◌+◌, ◌/◌, ◌^◌, ◌<◌, ◌≡◌, refl, subst, arith, ◌==◌, List, [], ◌∷◌, Option, none, some,
  if◌then◌else◌, text_eq, All, Option-cases, Bool-cases, inl, inr,
}
use tsn_gen.Database.{Database, find, get_element}
use tsn_gen.Packet.{Range, Var, ProtocolInterface}
use tsn_gen.Packet.Decoder.{total_bits, layer_bytes}

-- The widths of the C++ types: `uint32_t` below 2 ^ 31, so that the loops' casts to `int` keep
-- it, and `uint64_t`.
abbrev pub IsRange : Option Range → Type 0
IsRange none = Unit
IsRange (some r) = (r.min < 2 ^ 64) × (r.max < 2 ^ 64)

pub record IsVar (var : Var) : Type 0 where
  pub size : var.size < 2 ^ 31
  pub expected : All (λ v. v < 2 ^ 64) var.expected_values
  pub range : IsRange var.range
  pub mask : var.mask < 2 ^ 64

-- Every var of the database.
abbrev pub AllVars : Database Var → Type 0
AllVars db = All (λ e. IsVar e.1) db.internal_maps

find-All {ℓ κ} :
    {T : Type ℓ} (P : T → Type κ) (name : Text) (m : List (Text × T)) {obj : T}
    → All (λ e. P e.1) m
    → find name m ≡ some obj
    → P obj
unfolding find
find-All P name [] h e = cc
find-All P name ((key, old) ∷ rest) {obj} h e = elim (Bool-cases (text_eq name key)) [
  | inl same ↦ let hit : old ≡ obj = ground arith in subst P hit h.0
  | inr other ↦ find-All P name rest h.1 (ground arith)
]

unfoldable pub layout_bits : List (Text × Var) → ℕ
layout_bits [] = 0
layout_bits ((ref, var) ∷ rest) = var.size + layout_bits rest

module _ (var_db : Database Var) where
  -- The var of a reference that has bits.
  unfoldable pub resolve : Text → Option Var
  resolve ref = elim (get_element ref var_db) [
    | none ↦ none
    | some var ↦ if var.size == 0 then none else some var
  ]

  unfoldable pub layout : List Text → List (Text × Var)
  layout [] = []
  layout (ref ∷ refs) = elim (resolve ref) [
    | none ↦ layout refs
    | some var ↦ (ref, var) ∷ layout refs
  ]

  module _ (ref : Text) (refs : List Text) where
    pub layout_skip : resolve ref ≡ none → layout (ref ∷ refs) ≡ layout refs
    unfolding layout
    layout_skip e = ground arith

    pub layout_entry :
        {var : Var} → resolve ref ≡ some var → layout (ref ∷ refs) ≡ (ref, var) ∷ layout refs
    unfolding layout
    layout_entry e = ground arith

  total_step : Text → ℕ → ℕ
  total_step ref total = elim (get_element ref var_db) [
    | some var ↦ total + var.size
    | none ↦ total
  ]

  total_step_skip : (ref : Text) (total : ℕ) → resolve ref ≡ none → total_step ref total ≡ total
  unfolding total_step resolve
  total_step_skip ref total e = ground arith

  total_step_entry :
      (ref : Text) (total : ℕ) {var : Var}
      → resolve ref ≡ some var
      → total_step ref total ≡ total + var.size
  unfolding total_step resolve
  total_step_entry ref total e = ground arith

  total_bits-step :
      (ref : Text) (refs : List Text) (total : ℕ)
      → total_bits var_db (ref ∷ refs) total ≡ total_bits var_db refs (total_step ref total)
  unfolding total_bits total_step
  total_bits-step ref refs total = refl

  total_bits_lem :
      (refs : List Text) (total : ℕ)
      → total_bits var_db refs total ≡ total + layout_bits (layout refs)
  unfolding layout_bits
  total_bits_lem [] total = unfold total_bits layout in omega arith
  total_bits_lem (ref ∷ refs) total = elim (Option-cases (resolve ref)) [
    | inl e ↦
        rw (total_bits-step, total_step_skip ref total e, layout_skip ref refs e)
          (total_bits_lem refs total)
    | inr (var, e) ↦
        rw (total_bits-step, total_step_entry ref total e, layout_entry ref refs e)
          (omega (arith, total_bits_lem refs (total + var.size)))
  ]

  -- What every var of the database has, the vars of a layout have.
  module _ (P : Var → Type 0) (h : All (λ e. P e.1) var_db.internal_maps) where
    resolve-All : (ref : Text) {var : Var} → resolve ref ≡ some var → P var
    unfolding resolve get_element
    resolve-All ref e = elim (Option-cases (find ref var_db.internal_maps)) [
      | inl unknown ↦ absurd (ground arith)
      | inr (var, known) ↦ subst P (ground arith) (find-All P ref var_db.internal_maps h known)
    ]

    pub layout-All_lem : (refs : List Text) → All (λ e. P e.1) (layout refs)
    layout-All_lem [] = unfold layout in tt
    layout-All_lem (ref ∷ refs) = elim (Option-cases (resolve ref)) [
      | inl e ↦ rw (All, layout_skip ref refs e) (layout-All_lem refs)
      | inr (var, e) ↦ rw (All, layout_entry ref refs e) (resolve-All ref e, layout-All_lem refs)
    ]

  pub layout-All : (refs : List Text) → AllVars var_db → All (λ e. IsVar e.1) (layout refs)
  layout-All refs h = layout-All_lem IsVar h refs

  -- `layerBytes` is the least number of bytes that hold the bits of the layout.
  pub layer_bytes_lem :
      (iface : ProtocolInterface)
      → layer_bytes var_db iface ≡ (layout_bits (layout iface.var_refs) + 7) / 8
  unfolding layer_bytes
  layer_bytes_lem iface = omega (arith, total_bits_lem iface.var_refs 0)
