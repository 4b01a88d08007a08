-- ===== src/CommandLine/Script.antt =====
-- The rounds of `main` against a flat script of lines and packets that is performed up to the first
-- packet that cannot be sent.
use tsn_gen.Prelude.{
  Text, ℕ, zero, suc, ◌≡◌, refl, sym, ap, ◌∙◌, Bool, true, false, List, [], ◌∷◌, ◌++◌, append_assoc,
  append-nil, Option, if◌then◌else◌,
}
use tsn_gen.Traffic.{Sender}
use tsn_gen.CommandLine.Stream.{Stage, Round, send_or_fail, stage_loop}

pub data Event : Type 0 where
  print : Text → Event
  emit : List ℕ → Event

-- The events of a round in their order.
unfoldable pub prints : List Text → List Event
prints [] = []
prints (line ∷ lines) = print line ∷ prints lines

unfoldable pub stage_events : List Stage → List Event
unfolding prints
stage_events [] = []
stage_events ((lines, bytes) ∷ stages) = prints lines ++ (emit bytes ∷ stage_events stages)

abbrev pub round_events : Round → List Event
round_events r = prints r.heading ++ stage_events r.stages

module _ {Engine : Type 0} (next_round : Engine → Round × Engine) where
  -- The events of `n` rounds.
  unfoldable pub script : ℕ → Engine → List Event
  script zero rng = []
  script (suc n) rng = let (r, rng') = next_round rng in round_events r ++ script n rng'

module _ (sender : Sender) where
  open sender use {State, open_sender}

  -- Whether everything is sent, what is printed, and the sender.
  abbrev pub Performed : Type 0
  Performed = Bool × (List Text × Option State)

  abbrev pub add_lines : List Text → Performed → Performed
  add_lines lines (ok, (more, s)) = (ok, (lines ++ more, s))

  abbrev pub after_emit : (Option State → Performed) → Bool × Option State → Performed
  after_emit k (true, s) = k s
  after_emit k (false, s) = (false, ([], s))

  -- The events up to the first packet that cannot be sent.
  unfoldable pub perform : List Event → Option State → Performed
  unfolding send_or_fail
  perform [] s = (true, ([], s))
  perform (print line ∷ events) s = add_lines (line ∷ []) (perform events s)
  perform (emit bytes ∷ events) s = after_emit (perform events) (send_or_fail sender bytes s)

  -- More events after some.
  abbrev pub then_do : (Option State → Performed) → Performed → Performed
  then_do k (true, (lines, s)) = add_lines lines (k s)
  then_do k (false, (lines, s)) = (false, (lines, s))

  then_do-add_lines :
      (k : Option State → Performed) (lines : List Text) (p : Performed)
      → add_lines lines (then_do k p) ≡ then_do k (add_lines lines p)
  then_do-add_lines k lines (true, (more, s)) =
      ap (λ (l : List Text). ((k s).0, (l, (k s).1.1))) (sym (append_assoc lines more (k s).1.0))
  then_do-add_lines k lines (false, (more, s)) = refl

  pub perform-append :
      (xs ys : List Event) (s : Option State)
      → perform (xs ++ ys) s ≡ then_do (perform ys) (perform xs s)
  unfolding perform
  perform-append [] ys s = refl
  perform-append (print line ∷ xs) ys s =
      ap (add_lines (line ∷ [])) (perform-append xs ys s)
      ∙ then_do-add_lines (perform ys) (line ∷ []) (perform xs s)
  perform-append (emit bytes ∷ xs) ys s = go (send_or_fail sender bytes s) (perform-append xs ys)
    where
      go :
          (o : Bool × Option State)
          → ((s : Option State) → perform (xs ++ ys) s ≡ then_do (perform ys) (perform xs s))
          → after_emit (perform (xs ++ ys)) o ≡ then_do (perform ys) (after_emit (perform xs) o)
      go (true, s) ih = ih s
      go (false, s) ih = refl

  pub perform-prints :
      (lines : List Text) (s : Option State) → perform (prints lines) s ≡ (true, (lines, s))
  unfolding perform prints
  perform-prints [] s = refl
  perform-prints (line ∷ lines) s = ap (add_lines (line ∷ [])) (perform-prints lines s)

  pub stage_loop-perform :
      (stages : List Stage) (s : Option State)
      → stage_loop sender stages s ≡ perform (stage_events stages) s
  unfolding stage_loop stage_events
  stage_loop-perform [] s = unfold perform in refl
  stage_loop-perform ((lines, bytes) ∷ stages) s =
      go (send_or_fail sender bytes s) (stage_loop-perform stages)
      ∙ sym (
          perform-append (prints lines) (emit bytes ∷ stage_events stages) s
          ∙ ap (then_do (perform (emit bytes ∷ stage_events stages))) (perform-prints lines s)
          ∙ unfold perform in refl)
    where
      go :
          (o : Bool × Option State)
          → ((s : Option State) → stage_loop sender stages s ≡ perform (stage_events stages) s)
          → (if◌then◌else◌ {A = Performed} o.0
              (add_lines lines (stage_loop sender stages o.1))
              (false, (lines, o.1)))
            ≡ add_lines lines (after_emit (perform (stage_events stages)) o)
      go (true, s) ih = ap (add_lines lines) (ih s)
      go (false, s) ih = ap (λ (l : List Text). (false, (l, s))) (sym (append-nil lines))
