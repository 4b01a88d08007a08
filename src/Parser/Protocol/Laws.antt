-- ===== src/Parser/Protocol/Laws.antt =====
-- What a parse puts into the database of vars (parser/src/protocol.cpp): values are 64-bit words,
-- and vars of a conforming file have widths that the codec carries.
use tsn_gen.Prelude.{
  Text, codes, text_eq, text_lt, ℕ, ◌^◌, ◌<◌, arith, Bool, true, false, List, [], ◌∷◌, ◌++◌, Option,
  none, some, if◌then◌else◌, All, All-append, Option-cases, inl, inr,
}
use tsn_gen.Database.{Database, emplace, add_unique_element}
use tsn_gen.Packet.{Var, Range}
use tsn_gen.Packet.Layout.{IsVar, IsRange}
use tsn_gen.Parser.Number.{stoull, stoull-lt}
use tsn_gen.Parser.Yaml.{Ryml}
use tsn_gen.Parser.Protocol.{
  parse_u64, seq_items, parse_values, parse_expected, parse_range, range_of, parse_mask, first_of,
  parse_var, parse_vars, sep,
}

emplace-All {ℓ κ} :
    {T : Type ℓ} (P : T → Type κ) (name : Text) (obj : T) (m : List (Text × T))
    → P obj
    → All (λ e. P e.1) m
    → All (λ e. P e.1) (emplace name obj m)
unfolding emplace
emplace-All P name obj [] p h = (p, tt)
emplace-All P name obj ((key, old) ∷ rest) p h =
    go (text_eq name key) (text_lt name key) (emplace-All P name obj rest p h.1)
  where
    go :
        (same less : Bool)
        → All (λ e. P e.1) (emplace name obj rest)
        → All
            (λ e. P e.1)
            (if same
              then (key, old) ∷ rest
              else if less
              then (name, obj) ∷ (key, old) ∷ rest
              else (key, old) ∷ emplace name obj rest)
    go true less k = h
    go false true k = (p, h)
    go false false k = (h.0, k)

-- A property of the elements that an insertion keeps.
pub add_unique_element-All {ℓ κ} :
    {T : Type ℓ} (P : T → Type κ) (name : Text) (obj : T) (db : Database T)
    → P obj
    → All (λ e. P e.1) db.internal_maps
    → All (λ e. P e.1) (add_unique_element name obj db).1.internal_maps
unfolding add_unique_element
add_unique_element-All P name obj db p h =
    ground (arith, emplace-All P name obj db.internal_maps p h)

parse_u64-lt : (text : Text) (fallback : ℕ) → fallback < 2 ^ 64 → parse_u64 text fallback < 2 ^ 64
unfolding parse_u64
parse_u64-lt text fallback h = elim (Option-cases (stoull 0 text)) [
  | inl e ↦ rw (parse_u64, e) h
  | inr (r, e) ↦ rw (parse_u64, e) (stoull-lt 0 text e)
]

module _ (ryml : Ryml) where
  open ryml use {Node, val, child, children}

  parse_values-All : (nodes : List Node) → All (λ v. v < 2 ^ 64) (parse_values ryml nodes)
  unfolding parse_values
  parse_values-All [] = tt
  parse_values-All (node ∷ nodes) =
      (parse_u64-lt (val node) 0 (ground arith), parse_values-All nodes)

  parse_expected-All : (expected : Node) → All (λ v. v < 2 ^ 64) (parse_expected ryml expected)
  unfolding parse_expected
  parse_expected-All expected =
      All-append (λ v. v < 2 ^ 64) (parse_values ryml (seq_items ryml (codes "values") expected)) _
        (parse_values-All (seq_items ryml (codes "values") expected))
        (go (child (codes "value") expected))
    where
      go :
          (o : Option Node)
          → All
              (λ v. v < 2 ^ 64)
              (elim o as (λ x. List ℕ) [ none ↦ [] | some value ↦ parse_u64 (val value) 0 ∷ [] ])
      go none = tt
      go (some value) = (parse_u64-lt (val value) 0 (ground arith), tt)

  range_of-IsRange : (vs : List ℕ) → All (λ v. v < 2 ^ 64) vs → IsRange (range_of ryml vs)
  range_of-IsRange [] h = tt
  range_of-IsRange (a ∷ []) h = tt
  range_of-IsRange (a ∷ b ∷ []) (p, (q, _)) = (p, q)
  range_of-IsRange (a ∷ b ∷ c ∷ vs) h = tt

  first_of-lt : (vs : List ℕ) → All (λ v. v < 2 ^ 64) vs → first_of ryml vs < 2 ^ 64
  first_of-lt [] h = ground arith
  first_of-lt (m ∷ vs) h = h.0

  expected-All :
      (o : Option Node)
      → All
          (λ v. v < 2 ^ 64)
          (elim o as (λ x. List ℕ) [ none ↦ [] | some e ↦ parse_expected ryml e ])
  expected-All none = tt
  expected-All (some e) = parse_expected-All e

  parse_range-IsRange :
      (o : Option Node)
      → IsRange (elim o as (λ x. Option Range) [ none ↦ none | some e ↦ parse_range ryml e ])
  unfolding parse_range
  parse_range-IsRange none = tt
  parse_range-IsRange (some e) =
      range_of-IsRange _ (parse_values-All (seq_items ryml (codes "range") e))

  parse_mask-lt :
      (o : Option Node) → (elim o as (λ x. ℕ) [ none ↦ 0 | some e ↦ parse_mask ryml e ]) < 2 ^ 64
  unfolding parse_mask
  parse_mask-lt none = ground arith
  parse_mask-lt (some e) = first_of-lt _ (parse_values-All (seq_items ryml (codes "mask") e))

  -- The width is all that `IsVar` asks of an entry of a file: the values are 64-bit words anyway.
  pub parse_var-IsVar :
      (name : Text) (item : Node)
      → (parse_var ryml name item).size < 2 ^ 31
      → IsVar (parse_var ryml name item)
  unfolding parse_var
  parse_var-IsVar name item h = record {
    size = h;
    expected = expected-All (child (codes "expected") item);
    range = parse_range-IsRange (child (codes "expected") item);
    mask = parse_mask-lt (child (codes "expected") item);
  }

  -- A property of every entry's var is one of every var in the database afterwards.
  pub parse_vars-All {κ} :
      (P : Var → Type κ) (service : Text) (items : List Node) (db : Database Var)
      → All (λ item. (name : Text) → P (parse_var ryml name item)) items
      → All (λ e. P e.1) db.internal_maps
      → All (λ e. P e.1) (parse_vars ryml service items db).internal_maps
  unfolding parse_vars
  parse_vars-All P service [] db hs h = h
  parse_vars-All P service (item ∷ items) db hs h =
      parse_vars-All P service items _ hs.1 (go (child (codes "var") item))
    where
      go :
          (o : Option Node)
          → All
              (λ e. P e.1)
              (elim o as (λ x. Database Var) [
                | none ↦ db
                | some name ↦
                    (add_unique_element
                      (service ++ sep ++ val name)
                      (parse_var ryml (service ++ sep ++ val name) item)
                      db).1
              ]).internal_maps
      go none = h
      go (some name) = add_unique_element-All P _ _ db (hs.0 (service ++ sep ++ val name)) h
