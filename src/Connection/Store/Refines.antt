-- ===== src/Connection/Store/Refines.antt =====
-- The store in memory and the catalog of its profiles, a partial function on ids.
use mathlib.Core.Path.{fun_ext, ap₂}
use network_manager_rs.Common.{
  ◌≡◌, refl, ap, ◌∙◌, Option, none, some, List, [], ◌∷◌, Str, str_eq, Result, ok, err, arith,
  if◌then◌else◌,
}
use network_manager_rs.Connection.Profile.{ConnectionProfile, validate}
use network_manager_rs.Connection.Store.{
  StoreError, not_found, already_exists, invalid, InMemoryProfileStore, new_store, create, update,
  delete,
}
use network_manager_rs.Connection.Store.Tree.{get, get-put, get-remove, contains_key_lem}
use network_manager_rs.Connection.Store.Invariant.{
  IsStore, new_store-IsStore, create-IsStore, update-IsStore, delete-IsStore,
}

abbrev pub Catalog : Type 0
Catalog = Str → Option ConnectionProfile

abbrev pub view : InMemoryProfileStore → Catalog
view s id = get id s.profiles

pub data Call : Type 0 where
  creates updates : ConnectionProfile → Call
  deletes : Str → Call

-- A call on the store.
abbrev pub call : InMemoryProfileStore → Call → Result (Unit {0}) StoreError × InMemoryProfileStore
call s (creates p) = create s p
call s (updates p) = update s p
call s (deletes id) = delete s id

abbrev assign : Catalog → Str → Option ConnectionProfile → Catalog
assign f id entry j = if str_eq j id then entry else f j

abbrev insert_new :
    Catalog → ConnectionProfile → Option ConnectionProfile → Result (Unit {0}) StoreError × Catalog
insert_new f p none = (ok tt, assign f p.id (some p))
insert_new f p (some old) = (err (already_exists p.id), f)

abbrev replace_old :
    Catalog → ConnectionProfile → Option ConnectionProfile → Result (Unit {0}) StoreError × Catalog
replace_old f p none = (err (not_found p.id), f)
replace_old f p (some old) = (ok tt, assign f p.id (some p))

abbrev drop_old : Catalog → Str → Option ConnectionProfile → Result (Unit {0}) StoreError × Catalog
drop_old f id none = (err (not_found id), f)
drop_old f id (some old) = (ok tt, assign f id none)

-- The same call on the catalog: what each call promises, and which profiles it refuses.
abbrev pub promise : Catalog → Call → Result (Unit {0}) StoreError × Catalog
promise f (creates p) = elim (validate p) [
  | err e ↦ (err (invalid e), f)
  | ok _ ↦ insert_new f p (f p.id)
]
promise f (updates p) = elim (validate p) [
  | err e ↦ (err (invalid e), f)
  | ok _ ↦ replace_old f p (f p.id)
]
promise f (deletes id) = drop_old f id (f id)

pub record Refines (s : InMemoryProfileStore) (f : Catalog) (c : Call) : Type 0 where
  pub same_result : (call s c).0 ≡ (promise f c).0
  pub same_profiles : view (call s c).1 ≡ (promise f c).1

create-Refines : (s : InMemoryProfileStore) (p : ConnectionProfile) → Refines s (view s) (creates p)
unfolding create
create-Refines s p = record {
  same_result = ground (arith, contains_key_lem p.id s.profiles);
  same_profiles =
      fun_ext λ id. ground (arith, contains_key_lem p.id s.profiles, get-put p.id id p s.profiles);
}

update-Refines : (s : InMemoryProfileStore) (p : ConnectionProfile) → Refines s (view s) (updates p)
unfolding update
update-Refines s p = record {
  same_result = ground (arith, contains_key_lem p.id s.profiles);
  same_profiles =
      fun_ext λ id. ground (arith, contains_key_lem p.id s.profiles, get-put p.id id p s.profiles);
}

delete-Refines : (s : InMemoryProfileStore) (id : Str) → IsStore s → Refines s (view s) (deletes id)
unfolding delete
delete-Refines s id h = record {
  same_result = ground (arith, contains_key_lem id s.profiles);
  same_profiles =
      fun_ext
        λ j. ground (arith, contains_key_lem id s.profiles, get-remove id j s.profiles h.rises);
}

call-Refines : (s : InMemoryProfileStore) (c : Call) → IsStore s → Refines s (view s) c
call-Refines s (creates p) h = create-Refines s p
call-Refines s (updates p) h = update-Refines s p
call-Refines s (deletes id) h = delete-Refines s id h

pub call-IsStore : (s : InMemoryProfileStore) (c : Call) → IsStore s → IsStore (call s c).1
call-IsStore s (creates p) h = create-IsStore s p h
call-IsStore s (updates p) h = update-IsStore s p h
call-IsStore s (deletes id) h = delete-IsStore s id h

-- A history of calls, with the results of all of them.
abbrev pub calls :
    InMemoryProfileStore → List Call → List (Result (Unit {0}) StoreError) × InMemoryProfileStore
calls s [] = ([], s)
calls s (c ∷ cs) = let (r, s') = call s c in let (rs, last) = calls s' cs in (r ∷ rs, last)

abbrev pub promises : Catalog → List Call → List (Result (Unit {0}) StoreError) × Catalog
promises f [] = ([], f)
promises f (c ∷ cs) = let (r, f') = promise f c in let (rs, last) = promises f' cs in (r ∷ rs, last)

pub calls-IsStore : (s : InMemoryProfileStore) (cs : List Call) → IsStore s → IsStore (calls s cs).1
calls-IsStore s [] h = h
calls-IsStore s (c ∷ cs) h = calls-IsStore (call s c).1 cs (call-IsStore s c h)

-- Whatever the calls, a store that satisfies the invariant returns the results that the catalog
-- promises, and afterwards finds exactly the profiles of the catalog.
pub calls-promises :
    (s : InMemoryProfileStore) (cs : List Call)
    → IsStore s
    → ((calls s cs).0 ≡ (promises (view s) cs).0) × (view (calls s cs).1 ≡ (promises (view s) cs).1)
calls-promises s [] h = (refl, refl)
calls-promises s (c ∷ cs) h =
    let now = call-Refines s c h in
    let later = calls-promises (call s c).1 cs (call-IsStore s c h) in
    (
      ap₂ ◌∷◌ now.same_result (later.0 ∙ ap (λ f. (promises f cs).0) now.same_profiles),
      later.1 ∙ ap (λ f. (promises f cs).1) now.same_profiles,
    )

-- Every history of calls on a new store keeps the invariant.
pub calls-new_store : (cs : List Call) → IsStore (calls new_store cs).1
calls-new_store cs = calls-IsStore new_store cs new_store-IsStore
