-- ===== src/Tests/Arguments.antt =====
-- Examples of the arguments.
use tsn_gen.Prelude.{Text, codes, text_eq, is_empty, ◌≡◌, refl, List, [], ◌∷◌}
use tsn_gen.CommandLine.{
  Args, Parse, taken, refused, leaves, thrown, default_args, parse_loop, action_of, set_log_level,
  pipeline_flags, check_args, parse_args,
}
use tsn_gen.CommandLine.Laws.{IsComplete, parse_args-IsComplete}
use tsn_gen.CommandLine.Split.{hide_seps, show_seps, split_loop, split_spec}
use tsn_gen.CommandLine.SplitLaws.{qualified, join, split_spec-join}

abbrev names : List Text
names = codes "p::E::A" ∷ codes "q::F::B" ∷ codes "c" ∷ []

split_spec-join_example : split_spec (join names) ≡ names
unfolding qualified
split_spec-join_example = split_spec-join names ((refl, refl), ((refl, refl), ((refl, refl), tt)))

-- An interface before a chain of two others.
abbrev argv : List Text
argv =
    codes "--connect"
    ∷ codes "p::B:p::C"
    ∷ codes "--yaml-dir"
    ∷ codes "d"
    ∷ codes "--interface"
    ∷ codes "p::A"
    ∷ []

abbrev args_of : Parse → Args
args_of (taken out) = out
args_of refused = default_args
args_of leaves = default_args
args_of thrown = default_args

abbrev given : Args
given = args_of (parse_args argv)

given-taken : parse_args argv ≡ taken given
unfolding parse_args parse_loop action_of check_args set_log_level pipeline_flags split_spec
    split_loop hide_seps show_seps text_eq is_empty
given-taken = refl

parse_args-IsComplete_example : IsComplete given
parse_args-IsComplete_example = parse_args-IsComplete argv given-taken
