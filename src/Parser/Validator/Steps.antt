-- ===== src/Parser/Validator/Steps.antt =====
-- What a check of the validator does, as a relation to a Boolean: the findings that it adds, all of
-- them errors in the file it is at, and that it adds none exactly if the Boolean is true.
use tsn_gen.Prelude.{
  Text, ◌+◌, ◌≡◌, refl, sym, ap, ap₂, subst, ◌∙◌, arith, Bool, true, false, not, ◌&&◌, ◌||◌, List,
  [], ◌∷◌, ◌++◌, append-nil, append_assoc, Option, none, some, if◌then◌else◌, length, length-append,
  All, All-append,
}
use tsn_gen.Parser.Yaml.{Ryml}
use tsn_gen.Parser.Validator.{
  ValidationFinding, error, Ctx, Step, pass, ◌then_check◌, add, report, require, optional,
  for_each_node, allowed_loop, member,
}
use tsn_gen.Parser.Validator.Messages.{unknown_key}

-- `&&` that associates to the right, as the checks do.
infixr 5 ◌and_also◌
abbrev pub ◌and_also◌ : Bool → Bool → Bool
a and_also b = a && b

abbrev pub is_clean : List ValidationFinding → Bool
is_clean [] = true
is_clean (f ∷ fs) = false

-- An error in the file at a path.
abbrev pub IsErrorIn : Text → ValidationFinding → Type 0
IsErrorIn path f = (f.file ≡ path) × (f.severity ≡ error)

-- From a context to the next one, where the Boolean tells whether nothing was found.
abbrev pub Outcome : Ctx → Option Ctx → Bool → Type 0
Outcome ctx none b = b ≡ false
Outcome ctx (some c) b =
    (fs : List ValidationFinding) × (c.path ≡ ctx.path)
    × (c.out ≡ ctx.out ++ fs)
    × (c.errors ≡ ctx.errors + length fs)
    × All (IsErrorIn ctx.path) fs
    × (is_clean fs ≡ b)

pub record Decides (f : Step) (b : Bool) : Type 0 where
  pub outcome : (ctx : Ctx) → Outcome ctx (f ctx) b

pub pass-Decides : Decides pass true
pass-Decides = record {
  outcome = λ ctx. ([], refl, sym (append-nil ctx.out), ground arith, tt, refl);
}

pub and_false : (a : Bool) → a && false ≡ false
and_false true = refl
and_false false = refl

pub is_clean-append :
    (fs gs : List ValidationFinding) → is_clean (fs ++ gs) ≡ is_clean fs && is_clean gs
is_clean-append [] gs = refl
is_clean-append (f ∷ fs) gs = refl

module _ {f g : Step} {a b : Bool} where
  pub then-Decides : Decides f a → Decides g b → Decides (f then_check g) (a && b)
  then-Decides df dg = record { outcome = λ ctx. first ctx (f ctx) (df.outcome ctx) }
    where
      second :
          (ctx c : Ctx) (o : Option Ctx)
          → Outcome ctx (some c) a
          → Outcome c o b
          → Outcome ctx o (a && b)
      second ctx c none h q = ap (λ x. a && x) q ∙ and_false a
      second ctx c (some d) (fs, path, out, errors, all, clean)
            (gs, path', out', errors', all', clean') =
          (
            fs ++ gs,
            path' ∙ path,
            out' ∙ ap (λ xs. xs ++ gs) out ∙ append_assoc ctx.out fs gs,
            length-sum,
            All-append (IsErrorIn ctx.path) fs gs all (subst (λ p. All (IsErrorIn p) gs) path all'),
            is_clean-append fs gs ∙ ap₂ (λ x y. x && y) clean clean',
          )
        where
          length-sum : d.errors ≡ ctx.errors + length (fs ++ gs)
          length-sum = let e = length-append fs gs in omega arith

      first :
          (ctx : Ctx) (o : Option Ctx)
          → Outcome ctx o a
          → Outcome ctx (elim o as (λ x. Option Ctx) [ none ↦ none | some c ↦ g c ]) (a && b)
      first ctx none h = ap (λ x. x && b) h
      first ctx (some c) h = second ctx c (g c) h (dg.outcome c)

module _ (ryml : Ryml) where
  open ryml use {Node, has_key, key}

  pub report-Decides : (node : Node) (msg : Text) → Decides (report ryml node msg) false
  unfolding add
  report-Decides node msg = record {
    outcome = λ ctx. (_, refl, refl, refl, ((refl, refl), tt), refl);
  }

  pub require-Decides :
      (ok : Bool) (node : Node) (msg : Text) → Decides (require ryml ok node msg) ok
  require-Decides true node msg = pass-Decides
  require-Decides false node msg = report-Decides node msg

  -- A guard with an error, and then the rest.
  pub unless-Decides :
      (ok : Bool) (node : Node) (msg : Text) (f : Step) (b : Bool)
      → Decides f b
      → Decides (if not ok then report ryml node msg else f) (ok && b)
  unless-Decides true node msg f b df = df
  unless-Decides false node msg f b df = report-Decides node msg

  abbrev pub if_there : (Node → Bool) → Option Node → Bool
  if_there p none = true
  if_there p (some node) = p node

  pub optional-Decides :
      (f : Node → Step) (p : Node → Bool) (o : Option Node)
      → ((node : Node) → Decides (f node) (p node))
      → Decides (optional ryml f o) (if_there p o)
  optional-Decides f p none df = pass-Decides
  optional-Decides f p (some node) df = df node

  abbrev pub all_nodes : (Node → Bool) → List Node → Bool
  all_nodes p [] = true
  all_nodes p (node ∷ nodes) = p node && all_nodes p nodes

  pub for_each-Decides :
      (f : Node → Step) (p : Node → Bool) (nodes : List Node)
      → ((node : Node) → Decides (f node) (p node))
      → Decides (for_each_node ryml f nodes) (all_nodes p nodes)
  unfolding for_each_node
  for_each-Decides f p [] df = pass-Decides
  for_each-Decides f p (node ∷ nodes) df = then-Decides (df node) (for_each-Decides f p nodes df)

  abbrev pub is_key_of : List Text → Node → Bool
  is_key_of allowed node = not (has_key node) || member (key node) allowed

  pub allowed_loop-Decides :
      (allowed : List Text) (place : Text) (nodes : List Node)
      → Decides (allowed_loop ryml allowed place nodes) (all_nodes (is_key_of allowed) nodes)
  unfolding allowed_loop
  allowed_loop-Decides allowed place [] = pass-Decides
  allowed_loop-Decides allowed place (node ∷ nodes) =
      then-Decides (require-Decides (is_key_of allowed node) node (unknown_key (key node) place))
        (allowed_loop-Decides allowed place nodes)
