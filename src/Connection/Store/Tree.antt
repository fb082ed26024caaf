-- ===== src/Connection/Store/Tree.antt =====
-- `std::collections::BTreeMap` as the source uses it: the entries in the order of their keys.
use network_manager_rs.Common.{
  ◌≡◌, refl, Bool, true, false, ◌||◌, Option, none, some, List, [], ◌∷◌, Str, str_eq, str_lt,
  str_eq_iff, str_lt_irrefl, str_lt_trans, str_lt_total, All, arith, if◌then◌else◌, Bool-cases, inl,
  inr,
}

module _ {V : Type 0} where
  unfoldable pub get : Str → List (Str × V) → Option V
  get k [] = none
  get k ((j, v) ∷ m) = let rest = get k m in if str_eq k j then some v else rest

  unfoldable pub contains_key : Str → List (Str × V) → Bool
  contains_key k [] = false
  contains_key k ((j, v) ∷ m) = str_eq k j || contains_key k m

  -- A key that is there keeps its place and gets the new value.
  unfoldable pub put : Str → V → List (Str × V) → List (Str × V)
  put k v [] = (k, v) ∷ []
  put k v ((j, w) ∷ m) =
      let rest = put k v m in
      if str_lt k j then (k, v) ∷ (j, w) ∷ m else if str_eq k j then (k, v) ∷ m else (j, w) ∷ rest

  unfoldable pub remove : Str → List (Str × V) → List (Str × V)
  remove k [] = []
  remove k ((j, w) ∷ m) = let rest = remove k m in if str_eq k j then m else (j, w) ∷ rest

  -- The keys rise strictly.
  abbrev pub Rises : List (Str × V) → Type 0
  Rises [] = Unit
  Rises ((k, v) ∷ m) = All (λ e. str_lt k (e.0) ≡ true) m × Rises m

  pub get-put :
      (k j : Str) (v : V) (m : List (Str × V))
      → get j (put k v m) ≡ (if str_eq j k then some v else get j m)
  unfolding get put
  get-put k j v [] = refl
  get-put k j v ((i, w) ∷ m) =
      ground
        (arith, get-put k j v m, str_eq_iff j k, str_eq_iff j i, str_eq_iff k i, str_lt_irrefl k)

  get_below : (k : Str) (m : List (Str × V)) → All (λ e. str_lt k (e.0) ≡ true) m → get k m ≡ none
  unfolding get
  get_below k [] h = refl
  get_below k ((j, w) ∷ m) h = ground (arith, get_below k m h.1, str_eq_iff k j, str_lt_irrefl j)

  pub get-remove :
      (k j : Str) (m : List (Str × V))
      → Rises m
      → get j (remove k m) ≡ (if str_eq j k then none else get j m)
  unfolding get remove
  get-remove k j [] h = ground arith
  get-remove k j ((i, w) ∷ m) h = ground (
    arith,
    get-remove k j m h.1,
    get_below i m h.0,
    str_eq_iff j k,
    str_eq_iff j i,
    str_eq_iff k i,
  )

  pub contains_key_lem :
      (k : Str) (m : List (Str × V))
      → contains_key k m ≡ elim (get k m) [ none ↦ false | some v ↦ true ]
  unfolding get contains_key
  contains_key_lem k [] = refl
  contains_key_lem k ((j, v) ∷ m) = ground (arith, contains_key_lem k m)

  above_trans :
      (j k : Str) (m : List (Str × V))
      → str_lt j k ≡ true
      → All (λ e. str_lt k (e.0) ≡ true) m
      → All (λ e. str_lt j (e.0) ≡ true) m
  above_trans j k [] h a = tt
  above_trans j k ((i, v) ∷ m) h a = (str_lt_trans j k i h a.0, above_trans j k m h a.1)

  pub All-put {κ} :
      (P : Str × V → Type κ) (k : Str) (v : V) (m : List (Str × V))
      → P (k, v)
      → All P m
      → All P (put k v m)
  unfolding put
  All-put P k v [] p h = (p, tt)
  All-put P k v ((j, w) ∷ m) p h = elim (Bool-cases (str_lt k j)) [
    | inl lt ↦ rw (lt, put) (p, h)
    | inr ge ↦ elim (Bool-cases (str_eq k j)) [
      | inl eq ↦ rw (ge, eq, put) (p, h.1)
      | inr ne ↦ rw (ge, ne, put) (h.0, All-put P k v m p h.1)
    ]
  ]

  pub All-remove {κ} :
      (P : Str × V → Type κ) (k : Str) (m : List (Str × V)) → All P m → All P (remove k m)
  unfolding remove
  All-remove P k [] h = tt
  All-remove P k ((j, w) ∷ m) h = elim (Bool-cases (str_eq k j)) [
    | inl eq ↦ rw (eq, remove) (h.1)
    | inr ne ↦ rw (ne, remove) (h.0, All-remove P k m h.1)
  ]

  pub put-Rises : (k : Str) (v : V) (m : List (Str × V)) → Rises m → Rises (put k v m)
  unfolding put
  put-Rises k v [] h = (tt, tt)
  put-Rises k v ((j, w) ∷ m) h = elim (Bool-cases (str_lt k j)) [
    | inl lt ↦ rw (lt, put) ((lt, above_trans k j m lt h.0), h)
    | inr ge ↦ elim (Bool-cases (str_eq k j)) [
      | inl eq ↦ rw (ge, eq, put) (rw ((str_eq_iff k j).0 eq) (h.0), h.1)
      | inr ne ↦
          rw (ge, ne, put)
            (
              All-put (λ e. str_lt j (e.0) ≡ true) k v m
                  (ground (arith, str_lt_total k j, str_eq_iff k j)) h.0,
              put-Rises k v m h.1,
            )
    ]
  ]

  pub remove-Rises : (k : Str) (m : List (Str × V)) → Rises m → Rises (remove k m)
  unfolding remove
  remove-Rises k [] h = tt
  remove-Rises k ((j, w) ∷ m) h = elim (Bool-cases (str_eq k j)) [
    | inl eq ↦ rw (eq, remove) (h.1)
    | inr ne ↦
        rw (ne, remove) (All-remove (λ e. str_lt j (e.0) ≡ true) k m h.0, remove-Rises k m h.1)
  ]
