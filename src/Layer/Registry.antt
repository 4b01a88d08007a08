-- ===== src/Layer/Registry.antt =====
-- `LogicRegistry` and `REGISTER_LOGIC` (parser/inc/tsn/logic_registry.h,
-- parser/src/logic_registry.cpp). A factory is the module that it makes anew at each call, and none
-- is the null factory. The order of the entries of `std::unordered_map` is of no effect.
use tsn_gen.Prelude.{
  Text, codes, text_eq, is_empty, ℕ, ◌+◌, ◌≡◌, refl, arith, Bool, true, false, not, ◌&&◌, ◌||◌,
  List, [], ◌∷◌, Option, none, some, if◌then◌else◌, length, Bool-cases, inl, inr,
}
use tsn_gen.Database.{find}
use tsn_gen.Layer.{LogicModule, ethernet_frame, avtp_control, aecp_aem}

pub record LogicRegistry : Type 0 where
  pub factories : List (Text × LogicModule)

abbrev pub is_set : Option LogicModule → Bool
is_set none = false
is_set (some made) = true

-- The answer, and the registry after the call. `emplace` keeps an entry that is there.
unfoldable pub add : Text → Option LogicModule → LogicRegistry → Bool × LogicRegistry
add name none reg = (false, reg)
add name (some made) reg =
    if is_empty name || is_set (find name reg.factories)
    then (false, reg)
    else (true, record { factories = (name, made) ∷ reg.factories })

unfoldable pub create : Text → LogicRegistry → Option LogicModule
create name reg = find name reg.factories

unfoldable pub has : Text → LogicRegistry → Bool
has name reg = is_set (find name reg.factories)

unfoldable pub registry_size : LogicRegistry → ℕ
registry_size reg = length reg.factories

-- What the three shipped modules register at static initialisation.
abbrev pub shipped : LogicRegistry
unfolding add
shipped =
    (add (codes "aecp_aem") (some (aecp_aem 0))
      (add (codes "avtp_control") (some (avtp_control 0))
        (add (codes "ethernet_mac_frame") (some (ethernet_frame 0 0 0))
          (record { factories = [] })).1).1).1

-- `add` succeeds exactly for a name that is neither empty nor in use and a factory that is set. Then
-- `create` makes the new module under that name and the size grows by one; whatever was registered
-- before stays, and nothing changes if `add` fails.
pub create-add :
    (name q : Text) (factory : Option LogicModule) (reg : LogicRegistry)
    → ((add name factory reg).0 ≡ (is_set factory && not (is_empty name) && not (has name reg)))
      × (create q (add name factory reg).1
          ≡ (if (add name factory reg).0 && text_eq q name then factory else create q reg))
      × (registry_size (add name factory reg).1
          ≡ (if (add name factory reg).0 then registry_size reg + 1 else registry_size reg))
unfolding add create has registry_size find
create-add name q none reg = (refl, refl, refl)
create-add name q (some made) reg = elim (Bool-cases (is_empty name)) [
  | inl blank ↦ ground arith
  | inr named ↦ elim (Bool-cases (is_set (find name reg.factories))) [
    | inl used ↦ ground arith
    | inr free ↦ ground arith
  ]
]
