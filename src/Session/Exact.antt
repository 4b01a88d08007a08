-- ===== src/Session/Exact.antt =====
-- A frame whose vars are wide enough for the values that they allow is read back as it was built.
use native.Mathlib.Nat.{mod-eq_of_lt}
use tsn_gen.Prelude.{
  Text, ℕ, ◌^◌, ◌<◌, ◌%◌, ◌≡◌, refl, sym, ap, ap₂, ◌∙◌, arith, min, max, leb, List, [], ◌∷◌,
  append-nil, Option, none, some, All, Bool-cases, inl, inr,
}
use tsn_gen.Database.{Database}
use tsn_gen.Packet.{Range, Var, ProtocolInterface, FieldValue}
use tsn_gen.Packet.Builder.{Random, high}
use tsn_gen.Packet.Laws.{carry}
use tsn_gen.Packet.Layout.{AllVars, IsVar, layout, layout-All, layout-All_lem}
use tsn_gen.Packet.Values.Allowed.{ObeysParts, Obeys, Obeys-lt, Listed-lt}
use tsn_gen.Packet.Values.Constraints.{build_with_fields-Picks}
use tsn_gen.Packet.Values.Given.{Picks}
use tsn_gen.Session.{Layer}
use tsn_gen.Session.Frame.{generate_stack, decode_stack}
use tsn_gen.Session.FrameLaws.{
  carry_layers, packet, engine_after, added, stack_loop_lem, decode_stack-generate_stack,
}

-- The range, if there is one, ends below the bound.
abbrev pub EndsBelow : ℕ → Option Range → Type 0
EndsBelow bound none = Unit
EndsBelow bound (some r) = high r < bound

-- The width of the var carries the values that it lists and those of its range.
pub record IsWide (var : Var) : Type 0 where
  pub expected : All (λ x. x < 2 ^ var.size) var.expected_values
  pub range : EndsBelow (2 ^ var.size) var.range

parts-lt_pow :
    (var : Var) (allowed : List ℕ) (range : Option Range) (v : ℕ)
    → All (λ x. x < 2 ^ var.size) allowed
    → EndsBelow (2 ^ var.size) range
    → ObeysParts var allowed range v
    → v < 2 ^ var.size
parts-lt_pow var (x ∷ xs) range v h r o = Listed-lt (2 ^ var.size) v (x ∷ xs) h o
parts-lt_pow var [] (some r) v h below o =
    let highest : high r ≡ max r.min r.max = ground arith in omega arith
parts-lt_pow var [] none v h below o = o.0

-- What such a var allows passes through its width, and through a word, unchanged.
Obeys-mod : (var : Var) (v : ℕ) → IsVar var → IsWide var → Obeys var v → v % 2 ^ min var.size 64 ≡ v
Obeys-mod var v ok wide o =
    let small : v < 2 ^ var.size =
      parts-lt_pow var var.expected_values var.range v wide.expected wide.range o in
    let word = Obeys-lt var v ok o in
    elim (Bool-cases (leb 64 var.size)) [
      | inl large ↦ let width : min var.size 64 ≡ 64 = ground arith in rw width (omega arith)
      | inr narrow ↦
          let width : min var.size 64 ≡ var.size = ground arith in rw width (mod-eq_of_lt small)
    ]

carry-Picks :
    (entries : List (Text × Var)) (fs : List FieldValue)
    → All (λ e. IsVar e.1) entries
    → All (λ e. IsWide e.1) entries
    → Picks (λ name. Obeys) entries fs
    → carry entries fs ≡ fs
unfolding carry
carry-Picks [] [] h w p = refl
carry-Picks [] (f ∷ fs) h w p = absurd p
carry-Picks (e ∷ entries) [] h w p = absurd p
carry-Picks ((ref, var) ∷ entries) ((name, value) ∷ fs) h w (named, obeys, p) =
    ap₂ (λ (v : ℕ) (rest : List FieldValue). (name, v) ∷ rest) (Obeys-mod var value h.0 w.0 obeys)
      (carry-Picks entries fs h.1 w.1 p)

abbrev pub AllWide : Database Var → Type 0
AllWide db = All (λ e. IsWide e.1) db.internal_maps

module _ (random : Random) (var_db : Database Var) (vars : AllVars var_db)
    (wide : AllWide var_db) where
  open random use {Engine}

  packet_fields :
      (iface : ProtocolInterface) (rng : Engine)
      → let pkt = packet random var_db iface rng in
        carry (layout var_db iface.var_refs) pkt.fields ≡ pkt.fields
  packet_fields iface rng =
      carry-Picks (layout var_db iface.var_refs) (packet random var_db iface rng).fields
        (layout-All var_db iface.var_refs vars) (layout-All_lem var_db IsWide wide iface.var_refs)
        (build_with_fields-Picks random var_db iface rng)

  added_layers :
      (ifaces : List ProtocolInterface) (rng : Engine)
      → carry_layers var_db ifaces (added random var_db ifaces rng).1
        ≡ (added random var_db ifaces rng).1
  unfolding added carry_layers
  added_layers [] rng = refl
  added_layers (iface ∷ ifaces) rng =
      let pkt = packet random var_db iface rng in
      ap₂
        (λ (fields : List FieldValue) (rest : List Layer).
          (iface.interface_name, record { bytes = pkt.bytes; fields = fields }) ∷ rest)
        (packet_fields iface rng) (added_layers ifaces (engine_after random var_db iface rng))

  generated_layers :
      (ifaces : List ProtocolInterface) (rng : Engine)
      → let pkt = (generate_stack random var_db ifaces rng).0 in
        carry_layers var_db ifaces pkt.layers ≡ pkt.layers
  unfolding generate_stack
  generated_layers ifaces rng =
      rw (stack_loop_lem random var_db ifaces [] [] rng) (added_layers ifaces rng)

  -- P
  pub decode_stack-generate_stack_exact :
      (ifaces : List ProtocolInterface) (rng : Engine)
      → let pkt = (generate_stack random var_db ifaces rng).0 in
        decode_stack var_db ifaces pkt.bytes ≡ pkt
  unfolding decode_stack
  decode_stack-generate_stack_exact ifaces rng =
      let pkt = (generate_stack random var_db ifaces rng).0 in
      ap (λ (l : List Layer). record { bytes = pkt.bytes; layers = l })
        (ap (λ (b : List ℕ). (decode_stack var_db ifaces b).layers) (sym (append-nil pkt.bytes))
          ∙ decode_stack-generate_stack random var_db vars ifaces rng []
          ∙ generated_layers ifaces rng)
