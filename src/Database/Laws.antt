-- ===== src/Database/Laws.antt =====
-- `Database` as a finite map: what each branch of `addUniqueElement` answers and stores, and the
-- order of the keys.
use tsn_gen.Prelude.{
  Text, text_eq, text_lt, is_empty, text_eq_iff, text_lt_trans, text_lt_total, ◌+◌, List, [], ◌∷◌,
  Option, none, some, if◌then◌else◌, length, ◌≡◌, refl, arith, true, Bool-cases, inl, inr, All,
}
use tsn_gen.Database.{
  DatabaseErr, db_success, dberr_invalid_input, dberr_entry_already_exists, Database, find, emplace,
  add_unique_element, get_element, size,
}

module _ {ℓ} {T : Type ℓ} where
  -- The keys grow strictly, so that each occurs once.
  abbrev pub IsSorted : List (Text × T) → Type ℓ
  IsSorted [] = Unit
  IsSorted ((key, obj) ∷ rest) = All (λ e. text_lt key e.0 ≡ true) rest × IsSorted rest

  find-emplace :
      (q name : Text) (obj : T) (m : List (Text × T))
      → find name m ≡ none
      → find q (emplace name obj m) ≡ (if text_eq q name then some obj else find q m)
  unfolding find emplace
  find-emplace q name obj [] h = refl
  find-emplace q name obj ((key, old) ∷ rest) h = ground (
    arith,
    find-emplace q name obj rest,
    text_eq_iff q name,
    text_eq_iff q key,
    text_eq_iff name key,
  )

  length-emplace :
      (name : Text) (obj : T) (m : List (Text × T))
      → find name m ≡ none
      → length (emplace name obj m) ≡ length m + 1
  unfolding find emplace
  length-emplace name obj [] h = ground arith
  length-emplace name obj ((key, old) ∷ rest) h = ground (arith, length-emplace name obj rest)

  below-All :
      (a b : Text) (m : List (Text × T))
      → text_lt a b ≡ true
      → All (λ e. text_lt b e.0 ≡ true) m
      → All (λ e. text_lt a e.0 ≡ true) m
  below-All a b [] h k = tt
  below-All a b (e ∷ m) h k = (text_lt_trans a b e.0 h k.0, below-All a b m h k.1)

  All-emplace :
      (a name : Text) (obj : T) (m : List (Text × T))
      → text_lt a name ≡ true
      → All (λ e. text_lt a e.0 ≡ true) m
      → All (λ e. text_lt a e.0 ≡ true) (emplace name obj m)
  unfolding emplace
  All-emplace a name obj [] h k = (h, tt)
  All-emplace a name obj ((key, old) ∷ rest) h k = ground (arith, All-emplace a name obj rest)

  emplace-IsSorted :
      (name : Text) (obj : T) (m : List (Text × T)) → IsSorted m → IsSorted (emplace name obj m)
  unfolding emplace
  emplace-IsSorted name obj [] s = (tt, tt)
  emplace-IsSorted name obj ((key, old) ∷ rest) s = elim (Bool-cases (text_eq name key)) [
    | inl e ↦ rw e s
    | inr ne ↦ elim (Bool-cases (text_lt name key)) [
      | inl lt ↦ rw (ne, lt) ((lt, below-All name key rest lt s.0), s)
      | inr ge ↦
          rw (ne, ge)
            (
              All-emplace key name obj rest (text_lt_total name key ne ge) s.0,
              emplace-IsSorted name obj rest s.1,
            )
    ]
  ]

  -- The answer of `addUniqueElement` to a name and the elements that are there.
  abbrev pub answer : Text → Database T → DatabaseErr
  answer name db =
      if is_empty name
      then dberr_invalid_input
      else elim (get_element name db) [ some obj ↦ dberr_entry_already_exists | none ↦ db_success ]

  -- What any name leads to afterwards.
  abbrev pub added : Text → T → Database T → Text → Option T
  added name obj db q = elim (answer name db) [
    | db_success ↦ if text_eq q name then some obj else get_element q db
    | err ↦ get_element q db
  ]

  -- `addUniqueElement` answers INVALID_INPUT to the empty name, else ALREADY_EXISTS to a name that
  -- is in use, else SUCCESS. Only on SUCCESS does it change the map, at that one name, and then the
  -- size grows by one.
  pub add_unique_element_lem :
      (name q : Text) (obj : T) (db : Database T)
      → ((add_unique_element name obj db).0 ≡ answer name db)
        × (get_element q (add_unique_element name obj db).1 ≡ added name obj db q)
        × (size (add_unique_element name obj db).1
            ≡ (elim (answer name db) [ db_success ↦ size db + 1 | err ↦ size db ]))
  unfolding add_unique_element get_element size
  add_unique_element_lem name q obj db =
      ground
        (arith, find-emplace q name obj db.internal_maps, length-emplace name obj db.internal_maps)

  -- If the keys are in strictly growing order before `addUniqueElement`, they are so after it, and
  -- `forEach` goes on meeting each name once, in that order.
  pub add_unique_element-IsSorted :
      (name : Text) (obj : T) (db : Database T)
      → IsSorted db.internal_maps
      → IsSorted (add_unique_element name obj db).1.internal_maps
  unfolding add_unique_element
  add_unique_element-IsSorted name obj db s =
      ground (arith, emplace-IsSorted name obj db.internal_maps s)
