-- ===== src/Packet/Values/Names.antt =====
-- The short name of a reference, told apart from the search for the last "::" (`ref.rfind("::")` in
-- traffic-gen/src/packet_builder.cpp).
use tsn_gen.Prelude.{
  Text, ℕ, ◌≡◌, refl, ap, subst, arith, ◌⊎◌, inl, inr, ◌==◌, ◌&&◌, [], ◌∷◌, ◌++◌, Option, none,
  some, Bool-cases,
}
use tsn_gen.Packet.{at_sep, after_last_sep, short_name}

-- Two colons stand next to one another.
abbrev pub HasSep : Text → Type 0
HasSep s = (pre : Text) × (post : Text) × (s ≡ pre ++ b':' ∷ b':' ∷ post)

-- The name is what follows the last two colons of the reference, or the whole reference if it has
-- none. No two colons begin later than those: the second of them begins no other pair.
abbrev pub IsShort : Text → Text → Type 0
IsShort ref name =
    (¬ HasSep ref × (name ≡ ref))
    ⊎ ((pre : Text) × (ref ≡ pre ++ b':' ∷ b':' ∷ name) × ¬ HasSep (b':' ∷ name))

IsLast : Text → Option Text → Type 0
IsLast s none = ¬ HasSep s
IsLast s (some name) = (pre : Text) × (s ≡ pre ++ b':' ∷ b':' ∷ name) × ¬ HasSep (b':' ∷ name)

-- A pair begins at the first byte or in the rest.
HasSep-cons :
    (c : ℕ) (s : Text)
    → HasSep (c ∷ s)
    → ((c ≡ b':') × (post : Text) × (s ≡ b':' ∷ post)) ⊎ HasSep s
HasSep-cons c s ([], post, e) =
    let first : c ≡ b':' = cc in let rest : s ≡ b':' ∷ post = cc in inl (first, post, rest)
HasSep-cons c s (d ∷ pre, post, e) =
    let rest : s ≡ pre ++ b':' ∷ b':' ∷ post = cc in inr (pre, post, rest)

at_sep-IsLast : (c : ℕ) (s : Text) → ¬ HasSep s → IsLast (c ∷ s) (at_sep c s)
unfolding IsLast
at_sep-IsLast c [] h =
    λ found. elim (HasSep-cons c [] found) [ inl (first, post, e) ↦ cc | inr later ↦ h later ]
at_sep-IsLast c (d ∷ s) h = elim (Bool-cases (c == b':' && d == b':')) [
  | inl both ↦
      let first : c ≡ b':' = ground arith in
      let second : d ≡ b':' = ground arith in
      rw (IsLast, both) ([], rw (first, second) refl, subst (λ x. ¬ HasSep (x ∷ s)) second h)
  | inr other ↦
      rw (IsLast, other)
        λ found. elim (HasSep-cons c (d ∷ s) found) [
          | inl (first, post, e) ↦ let second : d ≡ b':' = cc in ground arith
          | inr later ↦ h later
        ]
]

IsLast-cons :
    (c : ℕ) (s : Text) (o : Option Text)
    → IsLast s o
    → IsLast (c ∷ s) (elim o [ some name ↦ some name | none ↦ at_sep c s ])
unfolding IsLast
IsLast-cons c s none h = at_sep-IsLast c s h
IsLast-cons c s (some name) (pre, e, last) = (c ∷ pre, ap (λ (t : Text). c ∷ t) e, last)

nil-sep : (pre post : Text) → [] ≡ pre ++ b':' ∷ b':' ∷ post → ⊥
nil-sep [] post e = cc
nil-sep (x ∷ pre) post e = cc

after_last_sep-IsLast : (s : Text) → IsLast s (after_last_sep s)
unfolding IsLast after_last_sep
after_last_sep-IsLast [] = λ (pre, post, e). nil-sep pre post e
after_last_sep-IsLast (c ∷ s) = IsLast-cons c s (after_last_sep s) (after_last_sep-IsLast s)

-- The short name is the name after the last "::".
pub short_name-IsShort : (ref : Text) → IsShort ref (short_name ref)
unfolding short_name IsLast
short_name-IsShort ref = go (after_last_sep ref) (after_last_sep-IsLast ref)
  where
    go : (o : Option Text) → IsLast ref o → IsShort ref (elim o [ some name ↦ name | none ↦ ref ])
    go none h = inl (h, refl)
    go (some name) h = inr h
