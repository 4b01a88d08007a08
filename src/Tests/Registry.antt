-- ===== src/Tests/Registry.antt =====
-- Examples of the registry of logic modules.
use tsn_gen.Prelude.{codes, text_eq, is_empty, ◌+◌, ◌≡◌, not, ◌&&◌, some, if◌then◌else◌}
use tsn_gen.Layer.{passthrough}
use tsn_gen.Layer.Registry.{is_set, add, create, has, registry_size, shipped, create-add}

create-add_example :
    ((add (codes "none") (some passthrough) shipped).0 ≡ (
      is_set (some passthrough)
      && not (is_empty (codes "none"))
      && not (has (codes "none") shipped)))
    × (create (codes "none") (add (codes "none") (some passthrough) shipped).1 ≡ (
        if (add (codes "none") (some passthrough) shipped).0
          && text_eq (codes "none") (codes "none")
        then some passthrough
        else create (codes "none") shipped))
    × (registry_size (add (codes "none") (some passthrough) shipped).1 ≡ (
        if (add (codes "none") (some passthrough) shipped).0
        then registry_size shipped + 1
        else registry_size shipped))
create-add_example = create-add (codes "none") (codes "none") (some passthrough) shipped
