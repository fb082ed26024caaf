-- ===== src/Connection/Profile/Matches.antt =====
-- Which devices a profile applies to.
use network_manager_rs.Common.{
  ◌≡◌, ◌↔◌, ◌⊎◌, true, Option, none, some, List, ℕ, Str, str_eq_iff, arith,
}
use network_manager_rs.Connection.Profile.{
  ConnectionProfile, DeviceInfo, device_kind, matches, name_allowed, mac_allowed,
}

-- A constraint is met if it is absent or if the device has exactly the value it names.
abbrev pub IsMetBy : Option (List ℕ) → Option (List ℕ) → Type 0
IsMetBy constraint actual = (constraint ≡ none) ⊎ (constraint ≡ actual)

pub record AppliesTo (p : ConnectionProfile) (device : DeviceInfo) : Type 0 where
  pub kind : device_kind p ≡ device.kind
  pub name : IsMetBy p.device_match.interface_name (some device.interface_name)
  pub mac : IsMetBy p.device_match.mac_address device.mac_address

name_iff : (c : Option Str) (a : Str) → (name_allowed c a ≡ true) ↔ IsMetBy c (some a)
name_iff none a = ground arith
name_iff (some e) a = ground (arith, str_eq_iff e a)

mac_iff : (c a : Option (List ℕ)) → (mac_allowed c a ≡ true) ↔ IsMetBy c a
mac_iff none a = ground arith
mac_iff (some e) none = ground arith
mac_iff (some e) (some a) = ground (arith, str_eq_iff a e)

-- `matches` accepts a device exactly when its kind is the profile's and both constraints are met.
pub matches_iff :
    (p : ConnectionProfile) (device : DeviceInfo) → (matches p device ≡ true) ↔ AppliesTo p device
unfolding matches
matches_iff p device = ground (
  arith,
  name_iff p.device_match.interface_name device.interface_name,
  mac_iff p.device_match.mac_address device.mac_address,
)
