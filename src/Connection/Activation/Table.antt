-- ===== src/Connection/Activation/Table.antt =====
-- `Vec<ActiveConnection>`: the connections that the manager tracks, searched by id.
use network_manager_rs.Common.{
  ℕ, ◌≡◌, refl, Option, none, some, List, [], ◌∷◌, Str, str_eq, find, ◌==◌, if◌then◌else◌, arith,
}
use network_manager_rs.Connection.State.{ConnectionState}
use network_manager_rs.Connection.Ip.{ActivationOutcome}
use network_manager_rs.Connection.Profile.{ConnectionProfile, DeviceInfo}

pub record ActiveConnection : Type 0 where
  pub id : ℕ
  pub profile : ConnectionProfile
  pub device : DeviceInfo
  pub state : ConnectionState
  pub outcome : ActivationOutcome

-- `iter().position(|active| active.id == active_id)` and the entry at that index.
unfoldable pub find_id : ℕ → List ActiveConnection → Option ActiveConnection
find_id id [] = none
find_id id (a ∷ rest) = if a.id == id then some a else find_id id rest

-- A write to the entry at that index.
unfoldable pub replace_id : ℕ → ActiveConnection → List ActiveConnection → List ActiveConnection
replace_id id b [] = []
replace_id id b (a ∷ rest) = if a.id == id then b ∷ rest else a ∷ replace_id id b rest

-- `active.remove(index)`.
unfoldable pub remove_id : ℕ → List ActiveConnection → List ActiveConnection
remove_id id [] = []
remove_id id (a ∷ rest) = if a.id == id then rest else a ∷ remove_id id rest

-- `iter().find(|active| active.profile.id == *profile_id)`.
unfoldable pub find_profile : Str → List ActiveConnection → Option ActiveConnection
find_profile id = find (λ a. str_eq a.profile.id id)

pub find_id-id :
    (id : ℕ) (xs : List ActiveConnection) (a : ActiveConnection)
    → find_id id xs ≡ some a
    → a.id ≡ id
unfolding find_id
find_id-id id [] a h = cc
find_id-id id (x ∷ xs) a h = ground (arith, find_id-id id xs a)

pub remove-replace :
    (id : ℕ) (b : ActiveConnection) (xs : List ActiveConnection)
    → b.id ≡ id
    → remove_id id (replace_id id b xs) ≡ remove_id id xs
unfolding remove_id replace_id
remove-replace id b [] h = refl
remove-replace id b (x ∷ xs) h = ground (arith, remove-replace id b xs h)

pub replace-replace :
    (id : ℕ) (b c : ActiveConnection) (xs : List ActiveConnection)
    → b.id ≡ id
    → replace_id id c (replace_id id b xs) ≡ replace_id id c xs
unfolding replace_id
replace-replace id b c [] h = refl
replace-replace id b c (x ∷ xs) h = ground (arith, replace-replace id b c xs h)
