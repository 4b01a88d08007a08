-- ===== src/CommandLine/SplitLaws.antt =====
-- The list of `--connect` and `--stack` is taken apart into the names that it was put together from.
use tsn_gen.Prelude.{
  Text, is_empty, ℕ, ◌==◌, ◌≡◌, refl, sym, ap, ◌∙◌, arith, Bool, true, false, not, ◌&&◌, List, [],
  ◌∷◌, ◌++◌, append-nil, append_assoc, All, if◌then◌else◌, Bool-cases, inl, inr,
}
use tsn_gen.CommandLine.Split.{hide_seps, show_seps, push_segment, split_loop, split_spec}

-- Neither a colon nor the placeholder.
abbrev is_plain : ℕ → Bool
is_plain c = not (c == b':') && not (c == 1)

-- Plain characters and pairs of colons.
unfoldable pub qualified : Text → Bool
qualified [] = true
qualified (c ∷ []) = is_plain c
qualified (c ∷ d ∷ s) =
    let rest = qualified s in
    let next = qualified (d ∷ s) in if c == b':' then d == b':' && rest else is_plain c && next

-- A name that is not empty and does not begin with a colon.
abbrev pub begins_plain : Text → Bool
begins_plain [] = false
begins_plain (c ∷ s) = not (c == b':')

abbrev pub IsName : Text → Type 0
IsName n = (qualified n ≡ true) × (begins_plain n ≡ true)

-- The names with single colons between them.
unfoldable pub join : List Text → Text
join [] = []
join (n ∷ []) = n
join (n ∷ m ∷ ns) = n ++ b':' ∷ join (m ∷ ns)

abbrev has_no_colon : Text → Bool
has_no_colon [] = true
has_no_colon (c ∷ s) = not (c == b':') && has_no_colon s

-- A text that does not begin with a colon.
abbrev starts_apart : Text → Bool
starts_apart [] = true
starts_apart (c ∷ s) = not (c == b':')

hide_seps-colon : (t : Text) → starts_apart t ≡ true → hide_seps (b':' ∷ t) ≡ b':' ∷ hide_seps t
unfolding hide_seps
hide_seps-colon [] h = refl
hide_seps-colon (c ∷ t) h = ground arith

hide_seps-append :
    (n t : Text)
    → qualified n ≡ true
    → starts_apart t ≡ true
    → hide_seps (n ++ b':' ∷ t) ≡ hide_seps n ++ b':' ∷ hide_seps t
unfolding hide_seps qualified
hide_seps-append [] t q h = hide_seps-colon t h
hide_seps-append (c ∷ []) t q h = ground (arith, hide_seps-colon t h)
hide_seps-append (c ∷ d ∷ s) t q h = elim (Bool-cases (c == b':' && d == b':')) [
  | inl sep ↦ rw sep (ap (λ (x : Text). 1 ∷ x) (hide_seps-append s t (ground arith) h))
  | inr other ↦ rw other (ap (λ (x : Text). c ∷ x) (hide_seps-append (d ∷ s) t (ground arith) h))
]

hide_seps-has_no_colon : (n : Text) → qualified n ≡ true → has_no_colon (hide_seps n) ≡ true
unfolding hide_seps qualified
hide_seps-has_no_colon [] q = refl
hide_seps-has_no_colon (c ∷ []) q = ground arith
hide_seps-has_no_colon (c ∷ d ∷ s) q = elim (Bool-cases (c == b':' && d == b':')) [
  | inl sep ↦ rw sep (hide_seps-has_no_colon s (ground arith))
  | inr other ↦ rw other (ground (arith, hide_seps-has_no_colon (d ∷ s)))
]

show_seps-hide_seps : (n : Text) → qualified n ≡ true → show_seps (hide_seps n) ≡ n
unfolding hide_seps show_seps qualified
show_seps-hide_seps [] q = refl
show_seps-hide_seps (c ∷ []) q = ground arith
show_seps-hide_seps (c ∷ d ∷ s) q = elim (Bool-cases (c == b':' && d == b':')) [
  | inl sep ↦ rw sep (ground (arith, show_seps-hide_seps s))
  | inr other ↦ rw other (ground (arith, show_seps-hide_seps (d ∷ s)))
]

-- The loop runs to the end of a segment.
split_loop-segment :
    (x t seg : Text) (target : List Text)
    → has_no_colon x ≡ true
    → split_loop (x ++ b':' ∷ t) seg target ≡ split_loop t [] (push_segment (seg ++ x) target)
unfolding split_loop
split_loop-segment [] t seg target h =
    ap (λ (s : Text). split_loop t [] (push_segment s target)) (sym (append-nil seg))
split_loop-segment (c ∷ x) t seg target h =
    let apart : (c == b':') ≡ false = ground arith in
    rw apart (
      split_loop-segment x t (seg ++ c ∷ []) target (ground arith)
      ∙ ap (λ (s : Text). split_loop t [] (push_segment s target)) (append_assoc seg (c ∷ []) x))

-- The segments as the loop meets them.
unfoldable segments : List Text → Text
segments [] = []
segments (n ∷ ns) = hide_seps n ++ b':' ∷ segments ns

join-starts_apart : (n : Text) (ns : List Text) → IsName n → starts_apart (join (n ∷ ns)) ≡ true
unfolding join
join-starts_apart [] ns h = cc
join-starts_apart (c ∷ n) [] h = h.1
join-starts_apart (c ∷ n) (m ∷ ns) h = h.1

hide_seps-join :
    (n : Text) (ns : List Text)
    → All IsName (n ∷ ns)
    → hide_seps (join (n ∷ ns)) ++ b':' ∷ [] ≡ segments (n ∷ ns)
unfolding join segments
hide_seps-join n [] h = refl
hide_seps-join n (m ∷ ns) h =
    ap (λ (x : Text). x ++ b':' ∷ [])
      (hide_seps-append n (join (m ∷ ns)) h.0.0 (join-starts_apart m ns h.1.0))
    ∙ append_assoc (hide_seps n) (b':' ∷ hide_seps (join (m ∷ ns))) (b':' ∷ [])
    ∙ ap (λ (x : Text). hide_seps n ++ b':' ∷ x) (hide_seps-join m ns h.1)

push_segment-name :
    (n : Text) (target : List Text)
    → IsName n
    → push_segment (hide_seps n) target ≡ target ++ n ∷ []
unfolding is_empty
push_segment-name n target h =
    ap (λ (x : Text). if is_empty x then target else target ++ x ∷ []) (show_seps-hide_seps n h.0)
    ∙ go n h.1
  where
    go :
        (n : Text)
        → begins_plain n ≡ true
        → (if is_empty n then target else target ++ n ∷ []) ≡ target ++ n ∷ []
    go [] b = cc
    go (c ∷ n) b = refl

split_loop-segments :
    (ns target : List Text) → All IsName ns → split_loop (segments ns) [] target ≡ target ++ ns
unfolding split_loop segments
split_loop-segments [] target h = sym (append-nil target)
split_loop-segments (n ∷ ns) target h =
    split_loop-segment (hide_seps n) (segments ns) [] target (hide_seps-has_no_colon n h.0.0)
    ∙ ap (split_loop (segments ns) []) (push_segment-name n target h.0)
    ∙ split_loop-segments ns (target ++ n ∷ []) h.1
    ∙ append_assoc target (n ∷ []) ns

-- `--connect` and `--stack` take the names that are put together with single colons apart into
-- those names, if no name is empty, begins with a colon, holds a colon that is not one of a pair,
-- or holds the byte 1.
pub split_spec-join : (ns : List Text) → All IsName ns → split_spec (join ns) ≡ ns
unfolding split_spec join is_empty
split_spec-join [] h = refl
split_spec-join (n ∷ ns) h =
    ap (λ (x : Text). split_loop x [] []) (hide_seps-join n ns h)
    ∙ split_loop-segments (n ∷ ns) [] h
