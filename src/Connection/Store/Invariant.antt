-- ===== src/Connection/Store/Invariant.antt =====
-- What every history of calls keeps of the store in memory.
use network_manager_rs.Common.{
  ◌≡◌, refl, List, [], ◌∷◌, Str, ok, err, All, arith, Bool-cases, inl, inr, map, str_lt, true, some,
  str_eq_iff, Option-cases, ◌⊎◌,
}
use network_manager_rs.Connection.Profile.{ConnectionProfile, validate}
use network_manager_rs.Connection.Store.{
  not_found, InMemoryProfileStore, new_store, list, get_profile, create, update, delete,
}
use network_manager_rs.Connection.Store.Tree.{
  get, put, contains_key, Rises, put-Rises, remove-Rises, All-put, All-remove,
}

-- An entry holds a valid profile under its own id.
abbrev pub IsEntry : Str × ConnectionProfile → Type 0
IsEntry (id, p) = (p.id ≡ id) × (validate p ≡ ok tt)

pub record IsStore (s : InMemoryProfileStore) : Type 0 where
  pub rises : Rises s.profiles
  pub entries : All IsEntry s.profiles

pub new_store-IsStore : IsStore new_store
unfolding new_store
new_store-IsStore = record { rises = tt; entries = tt }

put-IsStore :
    (s : InMemoryProfileStore) (p : ConnectionProfile)
    → validate p ≡ ok tt
    → IsStore s
    → IsStore (record s { profiles = put p.id p s.profiles })
put-IsStore s p e h = record {
  rises = put-Rises p.id p s.profiles h.rises;
  entries = All-put IsEntry p.id p s.profiles (refl, e) h.entries;
}

pub create-IsStore :
    (s : InMemoryProfileStore) (p : ConnectionProfile) → IsStore s → IsStore (create s p).1
unfolding create
create-IsStore s p h = ground (arith, put-IsStore s p)

pub update-IsStore :
    (s : InMemoryProfileStore) (p : ConnectionProfile) → IsStore s → IsStore (update s p).1
unfolding update
update-IsStore s p h = ground (arith, put-IsStore s p)

pub delete-IsStore : (s : InMemoryProfileStore) (id : Str) → IsStore s → IsStore (delete s id).1
unfolding delete
delete-IsStore s id h = elim (Bool-cases (contains_key id s.profiles)) [
  | inl e ↦
      rw (e, delete)
        (record {
          rises = remove-Rises id s.profiles h.rises;
          entries = All-remove IsEntry id s.profiles h.entries;
        })
  | inr e ↦ rw (e, delete) h
]

pub get-IsEntry :
    (id : Str) (m : List (Str × ConnectionProfile)) (p : ConnectionProfile)
    → All IsEntry m
    → get id m ≡ some p
    → (p.id ≡ id) × (validate p ≡ ok tt)
unfolding get
get-IsEntry id [] p h e = cc
get-IsEntry id ((j, q) ∷ m) p h e = ground (arith, get-IsEntry id m p h.1, str_eq_iff id j)

-- The ids rise strictly.
abbrev pub IdsRise : List ConnectionProfile → Type 0
IdsRise [] = Unit
IdsRise (p ∷ ps) = All (λ q. str_lt p.id q.id ≡ true) ps × IdsRise ps

ids_above :
    (id : Str) (m : List (Str × ConnectionProfile))
    → All IsEntry m
    → All (λ e. str_lt id (e.0) ≡ true) m
    → All (λ q. str_lt id q.id ≡ true) (map (λ e. e.1) m)
ids_above id [] h k = tt
ids_above id ((j, q) ∷ m) h k = (rw (h.0.0) (k.0), ids_above id m h.1 k.1)

pub ids_rise :
    (m : List (Str × ConnectionProfile))
    → All IsEntry m
    → Rises m
    → IdsRise (map (λ e. e.1) m) × All (λ q. validate q ≡ ok tt) (map (λ e. e.1) m)
ids_rise [] h r = (tt, tt)
ids_rise ((j, q) ∷ m) h r =
    let rest = ids_rise m h.1 r.1 in ((rw (h.0.0) (ids_above j m h.1 r.0), rest.0), (h.0.1, rest.1))

-- In a store that satisfies the invariant, `list` gives valid profiles in strictly rising order of
-- their ids.
pub list_lem :
    (s : InMemoryProfileStore)
    → IsStore s
    → (ps : List ConnectionProfile) × (list s ≡ ok ps)
      × IdsRise ps
      × All (λ q. validate q ≡ ok tt) ps
unfolding list
list_lem s h =
    let facts = ids_rise s.profiles h.entries h.rises in
    (map (λ e. e.1) s.profiles, refl, facts.0, facts.1)

-- In a store that satisfies the invariant, `get` fails with `NotFound` of the id that was asked for, or
-- gives a valid profile of that id.
pub get_profile_lem :
    (s : InMemoryProfileStore) (id : Str)
    → IsStore s
    → (get_profile s id ≡ err (not_found id))
      ⊎ ((p : ConnectionProfile) × (get_profile s id ≡ ok p) × (p.id ≡ id) × (validate p ≡ ok tt))
unfolding get_profile
get_profile_lem s id h = elim (Option-cases (get id s.profiles)) [
  | inl e ↦ inl (rw e)
  | inr (p, e) ↦
      let facts = get-IsEntry id s.profiles p h.entries e in inr (p, rw e, facts.0, facts.1)
]
