-- ===== src/Dbus/Convert/Sections.antt =====
-- What is read from a dictionary that is built by one insertion after the other.
use network_manager_rs.Common.{
  ◌≡◌, refl, Bool, true, false, Option, none, some, List, Str, str_eq, Bool-cases, inl, inr,
  if◌then◌else◌,
}
use network_manager_rs.Connection.Store.Tree.{get, get-put}
use network_manager_rs.Dbus.Convert.{put_some, put_if}

-- The value of an insertion that may be left out, or what was there.
abbrev pub built_or : {V A : Type 0} → (A → V) → Option A → Option V → Option V
built_or build none before = before
built_or build (some a) before = some (build a)

module _ {V : Type 0} where
  pub get-put_if :
      (j k : Str) (b : Bool) (v : V) (m : List (Str × V))
      → get j (put_if b k v m) ≡ (if str_eq j k then (if b then some v else get j m) else get j m)
  get-put_if j k true v m = get-put k j v m
  get-put_if j k false v m = elim (Bool-cases (str_eq j k)) [
    | inl e ↦ rw e refl
    | inr e ↦ rw e refl
  ]

  pub get-put_some :
      {A : Type 0} (j k : Str) (build : A → V) (o : Option A) (m : List (Str × V))
      → get j (put_some k build o m) ≡ (if str_eq j k then built_or build o (get j m) else get j m)
  get-put_some j k build none m = elim (Bool-cases (str_eq j k)) [
    | inl e ↦ rw e refl
    | inr e ↦ rw e refl
  ]
  get-put_some j k build (some a) m = get-put k j (build a) m
