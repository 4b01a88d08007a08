-- ===== src/Database.antt =====
-- `Database<T>` (parser/inc/tsn/database.h and database.cpp): a map from names to elements that
-- refuses the empty name and a second element under one name. `std::map` is a list of entries in
-- the order of their keys, which is the order in which `forEach` goes through it.
pub mod Laws
use tsn_gen.Prelude.{
  Text, text_eq, text_lt, is_empty, ℕ, List, [], ◌∷◌, Option, none, some, if◌then◌else◌, length,
}

pub data DatabaseErr : Type 0 where
  db_success dberr_unknown dberr_invalid_input dberr_unexpected : DatabaseErr
  dberr_entry_already_exists dberr_entry_notfound : DatabaseErr

pub record Database {ℓ} (T : Type ℓ) : Type ℓ where
  pub internal_maps : List (Text × T)

module _ {ℓ} {T : Type ℓ} where
  -- `internalMaps.find(name)`.
  unfoldable pub find : Text → List (Text × T) → Option T
  find name [] = none
  find name ((key, obj) ∷ rest) = if text_eq name key then some obj else find name rest

  -- `internalMaps.emplace(name, obj)`: the entry goes before the first greater key, and an entry
  -- with that key is kept.
  unfoldable pub emplace : Text → T → List (Text × T) → List (Text × T)
  emplace name obj [] = (name, obj) ∷ []
  emplace name obj ((key, old) ∷ rest) =
      if text_eq name key
      then (key, old) ∷ rest
      else if text_lt name key
      then (name, obj) ∷ (key, old) ∷ rest
      else (key, old) ∷ emplace name obj rest

  unfoldable pub empty : Database T
  empty = record { internal_maps = [] }

  unfoldable pub check_if_valid : Text → Database T → DatabaseErr
  check_if_valid name db = if is_empty name then dberr_invalid_input else db_success

  unfoldable pub check_if_exists : Text → Database T → DatabaseErr
  unfolding find
  check_if_exists name db = elim (find name db.internal_maps) [
    | some obj ↦ dberr_entry_already_exists
    | none ↦ db_success
  ]

  -- `addUniqueElement`: the two checks in the order of the source, then the insertion.
  unfoldable pub add_unique_element : Text → T → Database T → DatabaseErr × Database T
  unfolding check_if_valid check_if_exists
  add_unique_element name obj db = elim (check_if_valid name db) [
    | db_success ↦ elim (check_if_exists name db) [
      | db_success ↦ (db_success, record { internal_maps = emplace name obj db.internal_maps })
      | err ↦ (err, db)
    ]
    | err ↦ (err, db)
  ]

  -- `nullptr` is `none`.
  unfoldable pub get_element : Text → Database T → Option T
  get_element name db = find name db.internal_maps

  unfoldable pub size : Database T → ℕ
  size db = length db.internal_maps

  -- `fn` may change what it captures by reference: that is the state of type `S`.
  for_each_entry {κ} : {S : Type κ} → (Text → T → S → S) → List (Text × T) → S → S
  for_each_entry fn [] s = s
  for_each_entry fn ((name, obj) ∷ rest) s = for_each_entry fn rest (fn name obj s)

  unfoldable pub for_each {κ} : {S : Type κ} → (Text → T → S → S) → Database T → S → S
  unfolding for_each_entry
  for_each fn db s = for_each_entry fn db.internal_maps s
