-- ===== src/Session/Inherited.antt =====
-- What a stage of a chain takes over from the fields of the stage before it.
use tsn_gen.Prelude.{
  Text, text_eq, text_eq_sound, text_eq_ne, text_ne, ℕ, ◌≡◌, ◌≢◌, refl, sym, ap, ◌∙◌, arith, subst,
  false, List, [], ◌∷◌, ◌++◌, Option, some, if◌then◌else◌, Bool-cases, inl, inr, ◌⊎◌, All, Bool,
  true, none,
}
use tsn_gen.Packet.{Var, FieldValue}
use tsn_gen.Packet.Builder.{Overrides, lookup, assign}
use tsn_gen.Packet.Values.Allowed.{ObeysParts, Obeys, AllowedParts, Allowed}
use tsn_gen.Packet.Values.Given.{Chosen}
use tsn_gen.Session.Chain.{hand_over}

-- The value of the last field of a name.
unfoldable pub last_value : Text → List FieldValue → Option ℕ → Option ℕ
last_value name [] found = found
last_value name ((key, value) ∷ fs) found =
    last_value name fs (if text_eq name key then some value else found)

lookup-assign :
    (name key : Text) (value : ℕ) (overrides : Overrides)
    → lookup name (assign key value overrides)
      ≡ (if text_eq name key then some value else lookup name overrides)
unfolding lookup assign
lookup-assign name key value [] = refl
lookup-assign name key value ((k, old) ∷ rest) = elim (Bool-cases (text_eq key k)) [
  | inl same ↦
      let e : text_eq name key ≡ text_eq name k = ap (text_eq name) (text_eq_sound key k same) in
      elim (Bool-cases (text_eq name k)) [ inl y ↦ ground arith | inr n ↦ ground arith ]
  | inr other ↦ elim (Bool-cases (text_eq name k)) [
    | inl y ↦
        let differ : text_eq name key ≡ false =
          text_eq_ne name key (λ q. text_ne key k other (sym q ∙ text_eq_sound name k y)) in
        ground arith
    | inr n ↦ ground (arith, lookup-assign name key value rest)
  ]
]

-- What a stage hands over for a name is the value of its last field of that name.
pub lookup-hand_over :
    (name : Text) (fs : List FieldValue) (overrides : Overrides)
    → lookup name (hand_over fs overrides) ≡ last_value name fs (lookup name overrides)
unfolding hand_over last_value
lookup-hand_over name [] overrides = refl
lookup-hand_over name ((key, value) ∷ fs) overrides =
    lookup-hand_over name fs (assign key value overrides)
    ∙ ap (λ (o : Option ℕ). last_value name fs o) (lookup-assign name key value overrides)

-- The last field of a name: none if no field has the name, else the value of the last one that has
-- it.
abbrev pub LastOf : List FieldValue → Text → Option ℕ → Type 0
LastOf fs name none = All (λ f. name ≢ f.0) fs
LastOf fs name (some w) =
    (pre : List FieldValue) × (post : List FieldValue) × (fs ≡ pre ++ (name, w) ∷ post)
    × All (λ f. name ≢ f.0) post

-- The rest of a list has a field of the name, or the value that was found before stands.
LastOrFound : Text → Option ℕ → List FieldValue → Option ℕ → Type 0
LastOrFound name found fs given =
    ((w : ℕ) × (given ≡ some w) × LastOf fs name (some w))
    ⊎ ((given ≡ found) × All (λ f. name ≢ f.0) fs)

LastOrFound-cons :
    (name key : Text) (value : ℕ) (fs : List FieldValue) (found given : Option ℕ) (same : Bool)
    → text_eq name key ≡ same
    → LastOrFound name (if same then some value else found) fs given
    → LastOrFound name found ((key, value) ∷ fs) given
unfolding LastOrFound
LastOrFound-cons name key value fs found given same e (inl (w, is, (pre, post, split, last))) =
    inl (
      w,
      is,
      ((key, value) ∷ pre, post, ap (λ (l : List FieldValue). (key, value) ∷ l) split, last),
    )
LastOrFound-cons name key value fs found given true e (inr (is, rest)) =
    inl (
      value,
      is,
      ([], fs, ap (λ (n : Text). (n, value) ∷ fs) (sym (text_eq_sound name key e)), rest),
    )
LastOrFound-cons name key value fs found given false e (inr (is, rest)) =
    inr (is, (text_ne name key e, rest))

last_value-LastOrFound :
    (name : Text) (fs : List FieldValue) (found : Option ℕ)
    → LastOrFound name found fs (last_value name fs found)
unfolding last_value LastOrFound
last_value-LastOrFound name [] found = inr (refl, tt)
last_value-LastOrFound name ((key, value) ∷ fs) found =
    LastOrFound-cons name key value fs found _ (text_eq name key) refl
      (last_value-LastOrFound name fs (if text_eq name key then some value else found))

last_value-LastOf : (name : Text) (fs : List FieldValue) → LastOf fs name (last_value name fs none)
unfolding LastOrFound
last_value-LastOf name fs = elim (last_value-LastOrFound name fs none) [
  | inl (w, is, last) ↦ subst (LastOf fs name) (sym is) last
  | inr (is, absent) ↦ subst (LastOf fs name) (sym is) absent
]

-- What may be put into the field of a name, given the fields of the stage before.
abbrev pub Inherits : List FieldValue → Text → Var → ℕ → Type 0
Inherits earlier name var v = (given : Option ℕ) × LastOf earlier name given × Allowed given var v

pub Inherits-hand_over :
    (earlier : List FieldValue) (name : Text) (var : Var) (v : ℕ)
    → Chosen (hand_over earlier []) name var v
    → Inherits earlier name var v
unfolding lookup
Inherits-hand_over earlier name var v chosen = (
  last_value name earlier none,
  last_value-LastOf name earlier,
  subst (λ (given : Option ℕ). Allowed given var v) (lookup-hand_over name earlier []) chosen,
)

-- Where nothing is handed over, what the var allows.
allowed-alone :
    (var : Var) (allowed : List ℕ) (v : ℕ)
    → var.expected_values ≡ allowed
    → Obeys var v
    → AllowedParts none var allowed v
allowed-alone var [] v e o = o
allowed-alone var (x ∷ xs) v e o = subst (λ (l : List ℕ). ObeysParts var l var.range v) e o

pub Inherits-first : (name : Text) (var : Var) (v : ℕ) → Obeys var v → Inherits [] name var v
Inherits-first name var v o = (none, tt, allowed-alone var var.expected_values v refl o)
