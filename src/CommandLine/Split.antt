-- ===== src/CommandLine/Split.antt =====
-- The list that `--connect` and `--stack` take (traffic-gen/tools/packet_gen_main.cpp): names apart by
-- single colons, where "::" belongs to a name.
use tsn_gen.Prelude.{Text, is_empty, ◌==◌, ◌&&◌, List, [], ◌∷◌, ◌++◌, if◌then◌else◌}

-- Each "::" from the left becomes the byte 1.
unfoldable pub hide_seps : Text → Text
hide_seps [] = []
hide_seps (c ∷ []) = c ∷ []
hide_seps (c ∷ d ∷ s) =
    let hidden = hide_seps s in
    let kept = hide_seps (d ∷ s) in if c == b':' && d == b':' then 1 ∷ hidden else c ∷ kept

-- And back.
unfoldable pub show_seps : Text → Text
show_seps [] = []
show_seps (c ∷ s) = if c == 1 then b':' ∷ b':' ∷ show_seps s else c ∷ show_seps s

abbrev pub push_segment : Text → List Text → List Text
push_segment seg target = if is_empty (show_seps seg) then target else target ++ show_seps seg ∷ []

-- The loop over the characters, with the segment and the names so far.
unfoldable pub split_loop : Text → Text → List Text → List Text
split_loop [] seg target = target
split_loop (c ∷ s) seg target =
    if c == b':'
    then split_loop s [] (push_segment seg target)
    else split_loop s (seg ++ c ∷ []) target

unfoldable pub split_spec : Text → List Text
unfolding hide_seps show_seps split_loop
split_spec spec = split_loop (hide_seps spec ++ b':' ∷ []) [] []
