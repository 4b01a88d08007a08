-- ===== src/Packet/Values/Given.antt =====
-- What `buildWithOverrides` may choose for a name, given the values that are handed over by name.
use tsn_gen.Prelude.{
  Text, text_eq, text_eq_sound, text_ne, ℕ, ◌≡◌, ◌≢◌, sym, ap, List, [], ◌∷◌, ◌++◌, Option, none,
  some, All, Bool-cases, inl, inr,
}
use tsn_gen.Packet.{Var, FieldValue}
use tsn_gen.Packet.Builder.{Overrides, lookup}
use tsn_gen.Packet.Values.Allowed.{Allowed}
use tsn_gen.Packet.Values.Names.{IsShort}

-- The fields are those of the layout, in its order: each under the short name of its reference,
-- with a value as told of the name and the var.
abbrev pub Picks : (Text → Var → ℕ → Type 0) → List (Text × Var) → List FieldValue → Type 0
Picks P [] [] = Unit
Picks P [] (f ∷ fs) = ⊥
Picks P (e ∷ entries) [] = ⊥
Picks P ((ref, var) ∷ entries) ((name, value) ∷ fs) =
    IsShort ref name × P name var value × Picks P entries fs

pub Picks-map :
    (P Q : Text → Var → ℕ → Type 0)
    → ((name : Text) (var : Var) (v : ℕ) → P name var v → Q name var v)
    → (entries : List (Text × Var)) (fs : List FieldValue) → Picks P entries fs
    → Picks Q entries fs
Picks-map P Q f [] [] p = tt
Picks-map P Q f [] (x ∷ fs) p = absurd p
Picks-map P Q f (e ∷ entries) [] p = absurd p
Picks-map P Q f ((ref, var) ∷ entries) ((name, value) ∷ fs) (short, here, rest) =
    (short, f name var value here, Picks-map P Q f entries fs rest)

-- What is handed over for a name: none if no entry has the name, else the value of the first one
-- that has it.
abbrev pub Given : Overrides → Text → Option ℕ → Type 0
Given overrides name none = All (λ e. name ≢ e.0) overrides
Given overrides name (some w) =
    (pre : Overrides) × (post : Overrides) × (overrides ≡ pre ++ (name, w) ∷ post)
    × All (λ e. name ≢ e.0) pre

Given-cons :
    (key name : Text) (value : ℕ) (overrides : Overrides) (given : Option ℕ)
    → name ≢ key
    → Given overrides name given
    → Given ((key, value) ∷ overrides) name given
Given-cons key name value overrides none ne g = (ne, g)
Given-cons key name value overrides (some w) ne (pre, post, e, g) =
    ((key, value) ∷ pre, post, ap (λ (l : Overrides). (key, value) ∷ l) e, (ne, g))

pub lookup-Given :
    (name : Text) (overrides : Overrides) → Given overrides name (lookup name overrides)
unfolding lookup
lookup-Given name [] = tt
lookup-Given name ((key, value) ∷ rest) = elim (Bool-cases (text_eq name key)) [
  | inl same ↦
      rw same
        ([], rest, ap (λ (n : Text). (n, value) ∷ rest) (sym (text_eq_sound name key same)), tt)
  | inr other ↦ rw other (
      Given-cons key name value rest (lookup name rest) (text_ne name key other)
        (lookup-Given name rest))
]

-- What `buildWithOverrides` may put into the field of a name.
abbrev pub Choosable : Overrides → Text → Var → ℕ → Type 0
Choosable overrides name var v =
    (given : Option ℕ) × Given overrides name given × Allowed given var v

-- The same where what is handed over is what `lookup` finds.
abbrev pub Chosen : Overrides → Text → Var → ℕ → Type 0
Chosen overrides name var v = Allowed (lookup name overrides) var v
