-- ===== src/Common/Sorting.antt =====
-- `sort_by`: the stable sort by a strict order, and what it keeps.
use mathlib.Core.List.{Perm}
use mathlib.Core.List.Perm
use network_manager_rs.Common.{
  ◌≡◌, Bool, true, false, List, [], ◌∷◌, All, if◌then◌else◌, Bool-cases, inl, inr,
}

module _ {A : Type 0} (before : A → A → Bool) where
  -- An element stays in front of those that do not come before it.
  unfoldable pub insert_by : A → List A → List A
  insert_by a [] = a ∷ []
  insert_by a (b ∷ bs) = let rest = insert_by a bs in if before b a then b ∷ rest else a ∷ b ∷ bs

  unfoldable pub sort_by : List A → List A
  sort_by [] = []
  sort_by (a ∷ xs) = insert_by a (sort_by xs)

  -- Nothing that stands later comes before what stands earlier.
  abbrev pub IsSorted : List A → Type 0
  IsSorted [] = Unit
  IsSorted (a ∷ xs) = All (λ b. before b a ≡ false) xs × IsSorted xs

  insert_by-perm : (a : A) (bs : List A) → Perm (insert_by a bs) (a ∷ bs)
  unfolding insert_by
  insert_by-perm a [] = Perm.refl (a ∷ [])
  insert_by-perm a (b ∷ bs) = elim (Bool-cases (before b a)) [
    | inl e ↦ rw e (Perm.trans (Perm.cons b (insert_by-perm a bs)) (Perm.swap a b bs))
    | inr e ↦ rw e (Perm.refl (a ∷ b ∷ bs))
  ]

  pub sort_by-perm : (xs : List A) → Perm (sort_by xs) xs
  unfolding sort_by
  sort_by-perm [] = Perm.refl []
  sort_by-perm (a ∷ xs) = Perm.trans (insert_by-perm a (sort_by xs)) (Perm.cons a (sort_by-perm xs))

  All-insert_by : (P : A → Type 0) (a : A) (bs : List A) → P a → All P bs → All P (insert_by a bs)
  unfolding insert_by
  All-insert_by P a [] h k = (h, tt)
  All-insert_by P a (b ∷ bs) h k = elim (Bool-cases (before b a)) [
    | inl e ↦ rw e (k.0, All-insert_by P a bs h k.1)
    | inr e ↦ rw e (h, k)
  ]

  pub All-sort_by : (P : A → Type 0) (xs : List A) → All P xs → All P (sort_by xs)
  unfolding sort_by
  All-sort_by P [] h = tt
  All-sort_by P (a ∷ xs) h = All-insert_by P a (sort_by xs) h.0 (All-sort_by P xs h.1)

  -- What a strict order whose incomparable elements form classes gives.
  module _ (asym : (a b : A) → before a b ≡ true → before b a ≡ false)
      (negtrans : (a b c : A) → before a b ≡ false → before b c ≡ false → before a c ≡ false) where
    All-later :
        (a b : A) (bs : List A)
        → before b a ≡ false
        → All (λ c. before c b ≡ false) bs
        → All (λ c. before c a ≡ false) bs
    All-later a b [] h k = tt
    All-later a b (c ∷ cs) h k = (negtrans c b a k.0 h, All-later a b cs h k.1)

    insert_by-IsSorted : (a : A) (bs : List A) → IsSorted bs → IsSorted (insert_by a bs)
    unfolding insert_by
    insert_by-IsSorted a [] h = (tt, tt)
    insert_by-IsSorted a (b ∷ bs) h = elim (Bool-cases (before b a)) [
      | inl e ↦ rw e (
        All-insert_by (λ c. before c b ≡ false) a bs (asym b a e) h.0,
        insert_by-IsSorted a bs h.1,
      )
      | inr e ↦ rw e ((e, All-later a b bs e h.0), h)
    ]

    pub sort_by-IsSorted : (xs : List A) → IsSorted (sort_by xs)
    unfolding sort_by
    sort_by-IsSorted [] = tt
    sort_by-IsSorted (a ∷ xs) = insert_by-IsSorted a (sort_by xs) (sort_by-IsSorted xs)
