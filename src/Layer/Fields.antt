-- ===== src/Layer/Fields.antt =====
-- What `setValue` does to `getValue` and to the sizes of a layer.
use tsn_gen.Prelude.{
  Text, text_eq, text_eq_sound, text_eq_ne, ℕ, ◌+◌, ◌/◌, ◌≡◌, ◌≢◌, refl, sym, ap, ap₂, ◌∙◌, arith,
  Bool, true, false, List, [], ◌∷◌, map, Option, none, some, if◌then◌else◌, Bool-cases, inl, inr,
  false≢true,
}
use tsn_gen.Packet.{Field}
use tsn_gen.Packet.Wire.{shape, field_bits}
use tsn_gen.Layer.{
  LayerContext, find_field, get_value, set_field, set_value, sum_bits, byte_size, after_loop,
  bytes_after,
}

sum_bits_lem : (fs : List Field) (bits : ℕ) → sum_bits fs bits ≡ bits + field_bits fs
unfolding sum_bits field_bits
sum_bits_lem [] bits = omega arith
sum_bits_lem (f ∷ fs) bits = omega (arith, sum_bits_lem fs (bits + f.bits))

pub byte_size_lem : (ctx : LayerContext) → byte_size ctx ≡ (field_bits ctx.fields + 7) / 8
unfolding byte_size
byte_size_lem ctx = omega (arith, sum_bits_lem ctx.fields 0)

find_field-set_field :
    (name : Text) (value : ℕ) (fs : List Field)
    → (set_field name value fs).0 ≡ true
    → find_field name (set_field name value fs).1 ≡ some value
unfolding find_field set_field
find_field-set_field name value [] h = absurd (false≢true h)
find_field-set_field name value (f ∷ fs) h = elim (Bool-cases (text_eq f.name name)) [
  | inl same ↦ ground arith
  | inr other ↦ ground (arith, find_field-set_field name value fs)
]

find_field-set_field_ne :
    (name other : Text) (value : ℕ) (fs : List Field)
    → name ≢ other
    → find_field other (set_field name value fs).1 ≡ find_field other fs
unfolding find_field set_field
find_field-set_field_ne name other value [] ne = refl
find_field-set_field_ne name other value (f ∷ fs) ne = elim (Bool-cases (text_eq f.name name)) [
  | inl same ↦
      let differ : text_eq f.name other ≡ false =
        text_eq_ne f.name other (λ e. ne (sym (text_eq_sound f.name name same) ∙ e)) in
      ground arith
  | inr differ ↦ elim (Bool-cases (text_eq f.name other)) [
    | inl x ↦ ground arith
    | inr y ↦ ground (arith, find_field-set_field_ne name other value fs ne)
  ]
]

shape-set_field :
    (name : Text) (value : ℕ) (fs : List Field)
    → map shape (set_field name value fs).1 ≡ map shape fs
unfolding set_field
shape-set_field name value [] = refl
shape-set_field name value (f ∷ fs) = elim (Bool-cases (text_eq f.name name)) [
  | inl same ↦ ground arith
  | inr differ ↦ ground (arith, shape-set_field name value fs)
]

found-set_field :
    (name : Text) (value : ℕ) (fs : List Field)
    → (set_field name value fs).0 ≡ (elim (find_field name fs) [ some v ↦ true | none ↦ false ])
unfolding set_field find_field
found-set_field name value [] = refl
found-set_field name value (f ∷ fs) = elim (Bool-cases (text_eq f.name name)) [
  | inl same ↦ ground arith
  | inr differ ↦ ground (arith, found-set_field name value fs)
]

pub field_bits-shape :
    (fs gs : List Field) → map shape fs ≡ map shape gs → field_bits fs ≡ field_bits gs
unfolding field_bits
field_bits-shape [] [] e = refl
field_bits-shape [] (g ∷ gs) e = cc
field_bits-shape (f ∷ fs) [] e = cc
field_bits-shape (f ∷ fs) (g ∷ gs) e =
    let rest : map shape fs ≡ map shape gs = cc in
    let width : f.bits ≡ g.bits = cc in ap₂ (λ (a b : ℕ). a + b) width (field_bits-shape fs gs rest)

-- A value that `setValue` has accepted is what `getValue` then answers.
pub get_value-set_value :
    (name : Text) (value : ℕ) (ctx : LayerContext) (out : ℕ)
    → (set_value name value ctx).0 ≡ true
    → get_value name (set_value name value ctx).1 out ≡ (true, value)
unfolding get_value set_value
get_value-set_value name value ctx out h =
    rw (get_value, find_field-set_field name value ctx.fields h)

-- A field of another name is left as it was, and so is what `getValue` answers for it.
pub get_value-set_value_ne :
    (name other : Text) (value : ℕ) (ctx : LayerContext) (out : ℕ)
    → name ≢ other
    → get_value other (set_value name value ctx).1 out ≡ get_value other ctx out
unfolding get_value set_value
get_value-set_value_ne name other value ctx out ne =
    rw (get_value, find_field-set_field_ne name other value ctx.fields ne)

-- `setValue` accepts exactly the names that `getValue` knows.
pub set_value-get_value :
    (name : Text) (value : ℕ) (ctx : LayerContext) (out : ℕ)
    → (set_value name value ctx).0 ≡ (get_value name ctx out).0
unfolding get_value set_value
set_value-get_value name value ctx out =
    found-set_field name value ctx.fields ∙ known (find_field name ctx.fields)
  where
    known :
        (o : Option ℕ)
        → (elim o [ some v ↦ true | none ↦ false ])
          ≡ (elim o as (λ x. Bool × ℕ) [ some v ↦ (true, v) | none ↦ (false, out) ]).0
    known none = refl
    known (some v) = refl

-- What no logic module changes of a context: its place, and the names and widths of its fields.
abbrev pub Frame : Type 0
Frame = (Text × (Option ℕ × Option ℕ)) × List (Text × ℕ)

abbrev pub frame : LayerContext → Frame
frame ctx = ((ctx.service_name, (ctx.upper, ctx.lower)), map shape ctx.fields)

pub frame-set_value :
    (name : Text) (value : ℕ) (ctx : LayerContext) → frame (set_value name value ctx).1 ≡ frame ctx
unfolding set_value
frame-set_value name value ctx =
    ap (λ (s : List (Text × ℕ)). ((ctx.service_name, (ctx.upper, ctx.lower)), s))
      (shape-set_field name value ctx.fields)

-- A write under a test.
unfoldable pub set_if : Bool → Text → ℕ → LayerContext → LayerContext
set_if b name value ctx = if b then (set_value name value ctx).1 else ctx

pub frame-set_if :
    (b : Bool) (name : Text) (value : ℕ) (ctx : LayerContext)
    → frame (set_if b name value ctx) ≡ frame ctx
unfolding set_if
frame-set_if true name value ctx = frame-set_value name value ctx
frame-set_if false name value ctx = refl

pub get_value-set_if_ne :
    (b : Bool) (name other : Text) (value : ℕ) (ctx : LayerContext) (out : ℕ)
    → name ≢ other
    → get_value other (set_if b name value ctx) out ≡ get_value other ctx out
unfolding set_if
get_value-set_if_ne true name other value ctx out ne =
    get_value-set_value_ne name other value ctx out ne
get_value-set_if_ne false name other value ctx out ne = refl

pub get_value-set_if :
    (b : Bool) (name : Text) (value : ℕ) (ctx : LayerContext) (out old : ℕ)
    → get_value name ctx out ≡ (true, old)
    → get_value name (set_if b name value ctx) out ≡ (true, if b then value else old)
unfolding set_if
get_value-set_if true name value ctx out old h =
    get_value-set_value name value ctx out
      (set_value-get_value name value ctx out ∙ ap (λ (r : Bool × ℕ). r.0) h)
get_value-set_if false name value ctx out old h = h

-- The answer does not depend on the variable that is handed over, where the name is known.
pub get_value-out :
    (name : Text) (ctx : LayerContext) (a b : ℕ) {v : ℕ}
    → get_value name ctx a ≡ (true, v)
    → get_value name ctx b ≡ (true, v)
unfolding get_value
get_value-out name ctx a b {v} h = go (find_field name ctx.fields) h
  where
    go :
        (o : Option ℕ)
        → (elim o as (λ x. Bool × ℕ) [ some w ↦ (true, w) | none ↦ (false, a) ]) ≡ (true, v)
        → (elim o as (λ x. Bool × ℕ) [ some w ↦ (true, w) | none ↦ (false, b) ]) ≡ (true, v)
    go none q = absurd (false≢true (ap (λ (r : Bool × ℕ). r.0) q))
    go (some w) q = q

-- The fields that stand after the first one of a name.
unfoldable pub following : Text → List Field → List Field
following name [] = []
following name (f ∷ fs) = if text_eq f.name name then fs else following name fs

after_loop_sum :
    (name : Text) (fs : List Field) (bits : ℕ)
    → (after_loop name fs true bits).1 ≡ bits + field_bits fs
unfolding after_loop field_bits
after_loop_sum name [] bits = omega arith
after_loop_sum name (f ∷ fs) bits = omega (arith, after_loop_sum name fs (bits + f.bits))

after_loop-following :
    (name : Text) (fs : List Field)
    → (after_loop name fs false 0).1 ≡ field_bits (following name fs)
unfolding after_loop following field_bits
after_loop-following name [] = refl
after_loop-following name (f ∷ fs) = elim (Bool-cases (text_eq f.name name)) [
  | inl same ↦
      ap (λ (b : Bool). (after_loop name fs b 0).1) same
      ∙ after_loop_sum name fs 0
      ∙ rw same (omega arith)
  | inr other ↦
      ap (λ (b : Bool). (after_loop name fs b 0).1) other
      ∙ after_loop-following name fs
      ∙ rw other refl
]

after_loop_seen :
    (name : Text) (fs : List Field) (bits : ℕ) → (after_loop name fs true bits).0 ≡ true
unfolding after_loop
after_loop_seen name [] bits = refl
after_loop_seen name (f ∷ fs) bits = after_loop_seen name fs (bits + f.bits)

after_loop_found :
    (name : Text) (value : ℕ) (fs : List Field)
    → (after_loop name fs false 0).0 ≡ (set_field name value fs).0
unfolding after_loop set_field
after_loop_found name value [] = refl
after_loop_found name value (f ∷ fs) = elim (Bool-cases (text_eq f.name name)) [
  | inl same ↦
      ap (λ (b : Bool). (after_loop name fs b 0).0) same ∙ after_loop_seen name fs 0 ∙ rw same refl
  | inr other ↦
      ap (λ (b : Bool). (after_loop name fs b 0).0) other
      ∙ after_loop_found name value fs
      ∙ rw other refl
]

if_both : (b : Bool) (x y : ℕ) → (if◌then◌else◌ {A = Bool × ℕ} b (true, x) (false, y)).0 ≡ b
if_both true x y = refl
if_both false x y = refl

-- `bytesAfter`, `getValue` and `setValue` know the same names.
pub bytes_after-get_value :
    (name : Text) (ctx : LayerContext) (out : ℕ)
    → (bytes_after name ctx out).0 ≡ (get_value name ctx out).0
unfolding bytes_after
bytes_after-get_value name ctx out =
    if_both (after_loop name ctx.fields false 0).0
      (((after_loop name ctx.fields false 0).1 + 7) / 8) out
    ∙ after_loop_found name 0 ctx.fields
    ∙ (unfold set_value in set_value-get_value name 0 ctx out)

if_bytes :
    (b : Bool) (bits out : ℕ)
    → (if◌then◌else◌ {A = Bool × ℕ} b (true, (bits + 7) / 8) (false, out)).0 ≡ true
    → (if◌then◌else◌ {A = Bool × ℕ} b (true, (bits + 7) / 8) (false, out)).1 ≡ (bits + 7) / 8
if_bytes true bits out h = refl
if_bytes false bits out h = absurd (false≢true h)

if_after :
    (name : Text) (ctx : LayerContext) (out : ℕ)
    → (bytes_after name ctx out).0 ≡ true
    → (bytes_after name ctx out).1 ≡ ((after_loop name ctx.fields false 0).1 + 7) / 8
unfolding bytes_after
if_after name ctx out h =
    if_bytes (after_loop name ctx.fields false 0).0 (after_loop name ctx.fields false 0).1 out h

-- The bits of the fields after the first one of the name, rounded up to bytes.
pub bytes_after-following :
    (name : Text) (ctx : LayerContext) (out : ℕ) {v : ℕ}
    → get_value name ctx out ≡ (true, v)
    → (bytes_after name ctx out).1 ≡ (field_bits (following name ctx.fields) + 7) / 8
bytes_after-following name ctx out known =
    if_after name ctx out (bytes_after-get_value name ctx out ∙ ap (λ (r : Bool × ℕ). r.0) known)
    ∙ ap (λ (n : ℕ). (n + 7) / 8) (after_loop-following name ctx.fields)
