-- ===== src/Connection/Policy.antt =====
-- src/connection/policy.rs: the order in which autoconnect tries the profiles.
pub mod Order
use mathlib.Core.List.{filter}
use network_manager_rs.Common.{
  Bool, true, false, not, ◌&&◌, ◌||◌, List, [], ◌∷◌, map, Str, str_lt, is_true, if◌then◌else◌,
}
use network_manager_rs.Common.Int.{ltb_ℤ}
use network_manager_rs.Common.Sorting.{sort_by}
use network_manager_rs.Connection.Profile.{ConnectionProfile}

-- `b.priority.cmp(&a.priority).then_with(|| a.id.cmp(&b.id))` is `Less`.
unfoldable pub before : ConnectionProfile → ConnectionProfile → Bool
before a b = ltb_ℤ b.priority a.priority || (not (ltb_ℤ a.priority b.priority) && str_lt a.id b.id)

-- The stable sort of the library's `sort_by`.
abbrev pub sort : List ConnectionProfile → List ConnectionProfile
sort = sort_by before

abbrev pub eligible : ConnectionProfile → Bool
eligible p = p.enabled && p.autoconnect

-- `iter().filter(|profile| profile.enabled && profile.autoconnect)`.
abbrev pub candidates : List ConnectionProfile → List ConnectionProfile
candidates = filter (λ p. is_true (eligible p))

unfoldable pub order_for_autoconnect : List ConnectionProfile → List Str
order_for_autoconnect profiles = map (λ p. p.id) (sort (candidates profiles))
