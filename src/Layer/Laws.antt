-- ===== src/Layer/Laws.antt =====
-- The pointers of a wired stack, and what its modules compute through them.
use tsn_gen.Prelude.{
  ℕ, zero, suc, ◌+◌, ◌-◌, ◌≡◌, ◌≤◌, refl, sym, ap, ◌∙◌, arith, true, false, ltb, ltb→lt,
  ltb_false→le, some-inj, get_elem?-within, drop-get_elem?, drop-beyond, List, [], ◌∷◌, length,
  get_elem?, drop, Option, none, some, if◌then◌else◌, Bool-cases, inl, inr,
}
use tsn_gen.Layer.{StackLayer, Stack, byte_size, above_loop, bytes_above}
use tsn_gen.Layer.Adjacency.{wire_layer, wire_loop, wire_adjacency}

-- Every layer of the list points to the next one, the last to none; `i` is the position of the head.
abbrev pub upper_of : ℕ → ℕ → Option ℕ
upper_of n i = if ltb (i + 1) n then some (i + 1) else none

abbrev pub lower_of : ℕ → Option ℕ
lower_of i = if ltb 0 i then some (i - 1) else none

pub record IsLinked (layers : List StackLayer) : Type 0 where
  pub upper :
      (i : ℕ) {layer : StackLayer}
      → get_elem? layers i ≡ some layer
      → layer.context.upper ≡ upper_of (length layers) i
  pub lower :
      (i : ℕ) {layer : StackLayer}
      → get_elem? layers i ≡ some layer
      → layer.context.lower ≡ lower_of i

get_elem?-wire_loop :
    (n i k : ℕ) (layers : List StackLayer) {layer : StackLayer}
    → get_elem? (wire_loop n i layers) k ≡ some layer
    → (layer.context.upper ≡ upper_of n (i + k)) × (layer.context.lower ≡ lower_of (i + k))
unfolding wire_loop
get_elem?-wire_loop n i k [] h = cc
get_elem?-wire_loop n i zero (l ∷ layers) {layer} h =
    let hit : wire_layer n i l ≡ layer = some-inj h in
    (
      sym (ap (λ (x : StackLayer). x.context.upper) hit) ∙ ap (upper_of n) (omega arith),
      sym (ap (λ (x : StackLayer). x.context.lower) hit) ∙ ap lower_of (omega arith),
    )
get_elem?-wire_loop n i (suc k) (l ∷ layers) h =
    let rest = get_elem?-wire_loop n (i + 1) k layers h in
    (rest.0 ∙ ap (upper_of n) (omega arith), rest.1 ∙ ap lower_of (omega arith))

length-wire_loop :
    (n i : ℕ) (layers : List StackLayer) → length (wire_loop n i layers) ≡ length layers
unfolding wire_loop
length-wire_loop n i [] = refl
length-wire_loop n i (l ∷ layers) = ap suc (length-wire_loop n (i + 1) layers)

-- After `wireAdjacency` every layer points to the one above it and the one below it, and the top
-- and the bottom layer to none there.
pub wire_adjacency-IsLinked : (stack : Stack) → IsLinked (wire_adjacency stack).layers
unfolding wire_adjacency
wire_adjacency-IsLinked stack = record {
  upper = λ i h.
      (get_elem?-wire_loop (length stack.layers) 0 i stack.layers h).0
      ∙ ap (upper_of (length stack.layers)) (omega arith)
      ∙ ap (λ (n : ℕ). upper_of n i) (sym (length-wire_loop (length stack.layers) 0 stack.layers));
  lower = λ i h.
      (get_elem?-wire_loop (length stack.layers) 0 i stack.layers h).1 ∙ ap lower_of (omega arith);
}

upper_of_inside : (n i : ℕ) → ltb (i + 1) n ≡ true → upper_of n i ≡ some (suc i)
upper_of_inside n i h = rw h (ap some (omega arith))

upper_of_last : (n i : ℕ) → ltb (i + 1) n ≡ false → upper_of n i ≡ none
upper_of_last n i h = rw h refl

-- The bytes of some layers together.
unfoldable pub total_size : List StackLayer → ℕ
total_size [] = 0
total_size (l ∷ layers) = byte_size l.context + total_size layers

module _ (layers : List StackLayer) (linked : IsLinked layers) where
  above_loop_step :
      (fuel i total : ℕ) {l : StackLayer}
      → get_elem? layers i ≡ some l
      → above_loop (suc fuel) layers (some i) total
        ≡ above_loop fuel layers l.context.upper (total + byte_size l.context)
  unfolding above_loop
  above_loop_step fuel i total e = rw (above_loop, e)

  above_loop_lem :
      (fuel i total : ℕ)
      → length layers ≤ fuel + i + 1
      → above_loop fuel layers (upper_of (length layers) i) total
        ≡ total + total_size (drop (suc i) layers)
  unfolding above_loop total_size
  above_loop_lem zero i total h = rw (drop-beyond layers (suc i) (omega arith)) (omega arith)
  above_loop_lem (suc fuel) i total h = elim (Bool-cases (ltb (i + 1) (length layers))) [
    | inl inside ↦
        let (l, e) =
          get_elem?-within layers (suc i) (omega (arith, ltb→lt (i + 1) (length layers) inside)) in
        rw
          (
            upper_of_inside (length layers) i inside,
            above_loop_step fuel (suc i) total e,
            linked.upper (suc i) e,
            drop-get_elem? layers (suc i) e,
          )
          (omega (arith, above_loop_lem fuel (suc i) (total + byte_size l.context) (omega arith)))
    | inr outside ↦
        rw
          (
            upper_of_last (length layers) i outside,
            drop-beyond layers (suc i)
                (omega (arith, ltb_false→le (i + 1) (length layers) outside)),
          )
          (omega arith)
  ]

  -- In a linked stack `bytesAbove` of a layer is the size of all the layers that follow it.
  pub bytes_above_lem :
      (i : ℕ) {layer : StackLayer}
      → get_elem? layers i ≡ some layer
      → bytes_above layers layer.context ≡ total_size (drop (suc i) layers)
  unfolding bytes_above
  bytes_above_lem i h =
      rw (linked.upper i h) (above_loop_lem (length layers) i 0 (omega arith) ∙ omega arith)
