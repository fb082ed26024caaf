-- ===== src/Connection/Store.antt =====
-- src/connection/store.rs: the profile stores' errors and interface, and the store in memory.
pub mod Tree
pub mod Files
pub mod Refines
pub mod Invariant
use network_manager_rs.Common.{
  ℕ, Bool, true, false, Option, none, some, List, [], ◌∷◌, map, Str, Result, ok, err, map_err,
  ok_or, if◌then◌else◌, Option-cases,
}
use network_manager_rs.Connection.Profile.{ConnectionProfile, ProfileValidationError, validate}
use Tree.{get, put, remove, contains_key}

pub data StoreError : Type 0 where
  not_found already_exists : Str → StoreError
  invalid : ProfileValidationError → StoreError
  malformed : Str → Str → StoreError
  io : ℕ → StoreError

-- `trait ProfileStore`, over the type S of the store: a call that mutates returns the new store.
pub record ProfileStore (S : Type 0) : Type 0 where
  pub list_all : S → Result (List ConnectionProfile) StoreError
  pub get_one : S → Str → Result ConnectionProfile StoreError
  pub create_one : S → ConnectionProfile → Result (Unit {0}) StoreError × S
  pub update_one : S → ConnectionProfile → Result (Unit {0}) StoreError × S
  pub delete_one : S → Str → Result (Unit {0}) StoreError × S

-- `BTreeMap<ProfileId, ConnectionProfile>`.
pub record InMemoryProfileStore : Type 0 where
  pub profiles : List (Str × ConnectionProfile)

unfoldable pub new_store : InMemoryProfileStore
new_store = record { profiles = [] }

unfoldable pub list : InMemoryProfileStore → Result (List ConnectionProfile) StoreError
list s = ok (map (λ e. e.1) s.profiles)

unfoldable pub get_profile : InMemoryProfileStore → Str → Result ConnectionProfile StoreError
get_profile s id = ok_or (get id s.profiles) (not_found id)

unfoldable pub create :
    InMemoryProfileStore → ConnectionProfile → Result (Unit {0}) StoreError × InMemoryProfileStore
create s p = elim (validate p) [
  | err e ↦ (err (invalid e), s)
  | ok _ ↦
      if contains_key p.id s.profiles
      then (err (already_exists p.id), s)
      else (ok tt, record s { profiles = put p.id p s.profiles })
]

unfoldable pub update :
    InMemoryProfileStore → ConnectionProfile → Result (Unit {0}) StoreError × InMemoryProfileStore
update s p = elim (validate p) [
  | err e ↦ (err (invalid e), s)
  | ok _ ↦
      if contains_key p.id s.profiles
      then (ok tt, record s { profiles = put p.id p s.profiles })
      else (err (not_found p.id), s)
]

unfoldable pub delete :
    InMemoryProfileStore → Str → Result (Unit {0}) StoreError × InMemoryProfileStore
delete s id =
    if contains_key id s.profiles
    then (ok tt, record s { profiles = remove id s.profiles })
    else (err (not_found id), s)

abbrev pub in_memory : ProfileStore InMemoryProfileStore
in_memory = record {
  list_all = list;
  get_one = get_profile;
  create_one = create;
  update_one = update;
  delete_one = delete;
}
