-- ===== src/CommandLine/Laws.antt =====
-- What `parseArgs` promises to the rest of `main` (traffic-gen/tools/packet_gen_main.cpp).
use tsn_gen.Prelude.{
  Text, codes, text_eq, is_empty, ℕ, ◌+◌, ◌≤◌, ltb, ltb_false→le, ◌≡◌, refl, sym, ap, ◌∙◌, subst,
  arith, Bool, true, false, not, ◌&&◌, ◌||◌, List, [], ◌∷◌, if◌then◌else◌,
}
use tsn_gen.CommandLine.{
  Args, default_args, Parse, taken, refused, leaves, thrown, parse_loop, set_log_level, is_nil_list,
  one_if, pipeline_flags, imply_decode, prepend_chain, prepend_stack, check_output, has_work,
  check_args, parse_args,
}

-- Arguments that `main` can go on with.
pub record IsComplete (out : Args) : Type 0 where
  pub yaml_dir : is_empty out.yaml_dir ≡ false
  pub level : set_log_level out.log_level ≡ true
  pub pipeline : pipeline_flags out ≤ 1
  pub work : has_work out ≡ true
  pub output : text_eq out.output (codes "hex") || text_eq out.output (codes "json") ≡ true
  pub decode : is_empty out.hex_input || out.decode ≡ true
  pub alone : is_empty out.iface || is_nil_list out.chain && is_nil_list out.stack ≡ true

-- The arguments at the end of the checks.
abbrev finished : Args → Args
finished out = prepend_stack (prepend_chain (imply_decode out))

abbrev alone : Args → Bool
alone out = is_empty out.iface || is_nil_list out.chain && is_nil_list out.stack

-- The interface goes before the one list that is there, and else stays alone.
lists-alone :
    (out : Args) (iface : Text) (chain stack : List Text)
    → one_if (not (is_nil_list chain)) + one_if (not (is_nil_list stack)) ≤ 1
    → alone
        (prepend_stack (prepend_chain (record out { iface = iface; chain = chain; stack = stack })))
      ≡ true
unfolding is_empty
lists-alone out [] [] [] h = refl
lists-alone out (c ∷ iface) [] [] h = refl
lists-alone out [] (x ∷ chain) stack h = refl
lists-alone out (c ∷ iface) (x ∷ chain) stack h = refl
lists-alone out [] [] (x ∷ stack) h = refl
lists-alone out (c ∷ iface) [] (x ∷ stack) h = refl

module _ (out : Args) where
  finished-yaml_dir : (finished out).yaml_dir ≡ out.yaml_dir
  finished-yaml_dir = ground arith

  finished-log_level : (finished out).log_level ≡ out.log_level
  finished-log_level = ground arith

  finished-pipeline_flags : pipeline_flags (finished out) ≡ pipeline_flags out
  unfolding pipeline_flags
  finished-pipeline_flags = ground arith

  finished-decode : is_empty (finished out).hex_input || (finished out).decode ≡ true
  finished-decode = ground arith

  finished-has_work : has_work (finished out) ≡ has_work out
  finished-has_work = ground arith

  finished-alone : pipeline_flags out ≤ 1 → alone (finished out) ≡ true
  unfolding pipeline_flags
  finished-alone h =
      let o = imply_decode out in
      let chain : o.chain ≡ out.chain = ground arith in
      let stack : o.stack ≡ out.stack = ground arith in
      lists-alone o o.iface o.chain o.stack (rw (chain, stack) (omega arith))

  check_output-IsComplete :
      {out' : Args}
      → is_empty out.yaml_dir ≡ false
      → set_log_level out.log_level ≡ true
      → pipeline_flags out ≤ 1
      → has_work out ≡ true
      → check_output (finished out) ≡ taken out'
      → IsComplete out'
  check_output-IsComplete {out'} dir level few work e =
      go (text_eq (finished out).output (codes "hex"))
        (text_eq (finished out).output (codes "json")) refl refl e
    where
      complete :
          text_eq (finished out).output (codes "hex")
              || text_eq (finished out).output (codes "json")
            ≡ true
          → IsComplete (finished out)
      complete output = record {
        yaml_dir = ap is_empty finished-yaml_dir ∙ dir;
        level = ap set_log_level finished-log_level ∙ level;
        pipeline = subst (λ (n : ℕ). n ≤ 1) (sym finished-pipeline_flags) few;
        work = finished-has_work ∙ work;
        output = output;
        decode = finished-decode;
        alone = finished-alone few;
      }

      taken-inj : {x y : Args} → taken x ≡ taken y → x ≡ y
      taken-inj p = cc

      go :
          (hex json : Bool)
          → text_eq (finished out).output (codes "hex") ≡ hex
          → text_eq (finished out).output (codes "json") ≡ json
          → (if not hex && not json then refused else taken (finished out)) ≡ taken out'
          → IsComplete out'
      go true json h j p =
          subst IsComplete (taken-inj p)
            (complete (ap (λ b. b || text_eq (finished out).output (codes "json")) h))
      go false true h j p = subst IsComplete (taken-inj p) (complete (ground arith))
      go false false h j p = cc

  check_args-IsComplete : {out' : Args} → check_args out ≡ taken out' → IsComplete out'
  unfolding check_args
  check_args-IsComplete {out'} e =
      go (set_log_level out.log_level) (is_empty out.yaml_dir) (ltb 1 (pipeline_flags out))
        (has_work out) refl refl refl refl e
    where
      go :
          (level empty many work : Bool)
          → set_log_level out.log_level ≡ level
          → is_empty out.yaml_dir ≡ empty
          → ltb 1 (pipeline_flags out) ≡ many
          → has_work out ≡ work
          → (if not level
              then refused
              else if empty
              then refused
              else if many
              then refused
              else if not work
              then refused
              else check_output (finished out))
            ≡ taken out'
          → IsComplete out'
      go false empty many work l d m w p = cc
      go true true many work l d m w p = cc
      go true false true work l d m w p = cc
      go true false false false l d m w p = cc
      go true false false true l d m w p =
          check_output-IsComplete d l (ltb_false→le 1 (pipeline_flags out) m) w p

-- Arguments that `parseArgs` takes have a directory, a known log level and output format, at most
-- one of a chain, a stack and a stack file, something to do, `decode` set if there is hexadecimal
-- input, and no single interface beside a chain or a stack.
pub parse_args-IsComplete :
    (argv : List Text) {out : Args} → parse_args argv ≡ taken out → IsComplete out
unfolding parse_args
parse_args-IsComplete argv {out} e = go (parse_loop argv default_args) e
  where
    go :
        (p : Parse)
        → (elim p as (λ x. Parse) [ taken args ↦ check_args args | other ↦ other ]) ≡ taken out
        → IsComplete out
    go (taken args) h = check_args-IsComplete args h
    go refused h = cc
    go leaves h = cc
    go thrown h = cc
