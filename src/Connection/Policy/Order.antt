-- ===== src/Connection/Policy/Order.antt =====
-- The autoconnect order as a permutation of the eligible profiles.
use mathlib.Core.List.{Perm, Permᴰ, perm_middle}
use mathlib.Core.List.Perm
use mathlib.Core.Logic.{∥∥₁_elim}
use mathlib.Core.Path.{ap₂, subst}
use native.Mathlib.Nat.{ℕ_set}
use network_manager_rs.Common.{
  ◌≡◌, refl, ap, ◌∙◌, inl, inr, true, List, [], ◌∷◌, map, Str, is_true, str_lt_trans, str_lt_asym,
  str_lt_total, All, arith, Bool-cases, ◌⊎◌, false, not, keep, ◌++◌, str_lt,
}
use network_manager_rs.Common.Int.{◌<ℤ◌, ltb_ℤ, eq_of_parts}
use network_manager_rs.Common.Sorting.{
  All-sort_by, insert_by, sort_by, IsSorted, sort_by-perm, sort_by-IsSorted,
}
use network_manager_rs.Connection.Profile.{ConnectionProfile}
use network_manager_rs.Connection.Policy.{before, sort, eligible, candidates, order_for_autoconnect}

before_asym : (a b : ConnectionProfile) → before a b ≡ true → before b a ≡ false
unfolding before
before_asym a b h = ground (arith, str_lt_asym a.id b.id)

before_total : (a b : ConnectionProfile) → before a b ≡ false → before b a ≡ false → a.id ≡ b.id
unfolding before
before_total a b h k = ground (arith, str_lt_total a.id b.id)

before_trans :
    (a b c : ConnectionProfile) → before a b ≡ true → before b c ≡ true → before a c ≡ true
unfolding before
before_trans a b c h k = ground (arith, str_lt_trans a.id b.id c.id)

before_negtrans :
    (a b c : ConnectionProfile) → before a b ≡ false → before b c ≡ false → before a c ≡ false
unfolding before
before_negtrans a b c h k = ground (arith, str_lt_total a.id b.id, str_lt_trans b.id a.id c.id)

-- a is to be tried no later than b: it has the higher priority, or the same and no greater id.
abbrev pub Precedes : ConnectionProfile → ConnectionProfile → Type 0
Precedes a b = (b.priority <ℤ a.priority) ⊎ ((a.priority ≡ b.priority) × (str_lt b.id a.id ≡ false))

abbrev pub IsRanked : List ConnectionProfile → Type 0
IsRanked [] = Unit
IsRanked (a ∷ ps) = All (Precedes a) ps × IsRanked ps

abbrev pub Wants : ConnectionProfile → Type 0
Wants p = (p.enabled ≡ true) × (p.autoconnect ≡ true)

abbrev pub Declines : ConnectionProfile → Type 0
Declines p = (p.enabled ≡ false) ⊎ (p.autoconnect ≡ false)

before-Precedes : (a b : ConnectionProfile) → before b a ≡ false → Precedes a b
unfolding before
before-Precedes a b h = elim (Bool-cases (ltb_ℤ b.priority a.priority)) [
  | inl e ↦ inl (ground arith)
  | inr e ↦ inr (eq_of_parts a.priority b.priority (ground arith), ground arith)
]

All-Precedes :
    (a : ConnectionProfile) (ps : List ConnectionProfile)
    → All (λ b. before b a ≡ false) ps
    → All (Precedes a) ps
All-Precedes a [] h = tt
All-Precedes a (b ∷ ps) h = (before-Precedes a b h.0, All-Precedes a ps h.1)

IsSorted-IsRanked : (ps : List ConnectionProfile) → IsSorted before ps → IsRanked ps
IsSorted-IsRanked [] h = tt
IsSorted-IsRanked (a ∷ ps) h = (All-Precedes a ps h.0, IsSorted-IsRanked ps h.1)

abbrev others : List ConnectionProfile → List ConnectionProfile
others = keep (λ p. not (eligible p))

wants : (p : ConnectionProfile) → eligible p ≡ true → Wants p
wants p h = (ground arith, ground arith)

declines : (p : ConnectionProfile) → eligible p ≡ false → Declines p
declines p h = elim (Bool-cases p.enabled) [ inl e ↦ inr (ground arith) | inr e ↦ inl e ]

candidates-Wants : (ps : List ConnectionProfile) → All Wants (candidates ps)
candidates-Wants [] = tt
candidates-Wants (p ∷ ps) = elim (Bool-cases (eligible p)) [
  | inl e ↦ rw e (wants p e, candidates-Wants ps)
  | inr e ↦ rw e (candidates-Wants ps)
]

others-Declines : (ps : List ConnectionProfile) → All Declines (others ps)
others-Declines [] = tt
others-Declines (p ∷ ps) = elim (Bool-cases (eligible p)) [
  | inl e ↦ rw e (others-Declines ps)
  | inr e ↦ rw e (declines p e, others-Declines ps)
]

candidates-others-perm : (ps : List ConnectionProfile) → Perm ps (candidates ps ++ others ps)
candidates-others-perm [] = Perm.refl []
candidates-others-perm (p ∷ ps) = elim (Bool-cases (eligible p)) [
  | inl e ↦ rw e (Perm.cons p (candidates-others-perm ps))
  | inr e ↦ rw e (
      Perm.trans (Perm.cons p (candidates-others-perm ps))
        (Perm.symm (perm_middle (candidates ps) (others ps))))
]

-- The input is, up to order, the profiles whose ids are listed and others: those listed are enabled with
-- autoconnect, each of the others is disabled or has autoconnect off, and no profile is listed after
-- one of lower priority, nor after one of the same priority and greater id.
pub order_for_autoconnect_lem :
    (ps : List ConnectionProfile)
    → (qs : List ConnectionProfile) × (rs : List ConnectionProfile) × (order_for_autoconnect ps
        ≡ map (λ p. p.id) qs)
      × Perm ps (qs ++ rs)
      × All Wants qs
      × All Declines rs
      × IsRanked qs
unfolding order_for_autoconnect
order_for_autoconnect_lem ps =
    let sorted = sort_by-perm before (candidates ps) in
    (
      sort (candidates ps),
      others ps,
      refl,
      Perm.trans (candidates-others-perm ps) (Perm.append_right (others ps) (Perm.symm sorted)),
      All-sort_by before Wants (candidates ps) (candidates-Wants ps),
      others-Declines ps,
      IsSorted-IsRanked (sort (candidates ps))
          (sort_by-IsSorted before before_asym before_negtrans (candidates ps)),
    )

-- Profiles with one id are one profile, as in a store.
abbrev pub IsKeyed : List ConnectionProfile → Type 0
IsKeyed [] = Unit
IsKeyed (p ∷ ps) = All (λ q. p.id ≡ q.id → p ≡ q) ps × IsKeyed ps

All-Permᴰ {κ} :
    (P : ConnectionProfile → Type κ) (ps qs : List ConnectionProfile)
    → Permᴰ ps qs
    → All P ps
    → All P qs
All-Permᴰ P ps qs (Permᴰ.nil) h = tt
All-Permᴰ P ps qs (Permᴰ.cons {l₁ = l₁} {l₂ = l₂} e r) h = (subst P e h.0, All-Permᴰ P l₁ l₂ r h.1)
All-Permᴰ P ps qs (Permᴰ.swap e f) h = (subst P f (h.1.0), (subst P e h.0, h.1.1))
All-Permᴰ P ps qs (Permᴰ.trans {l₂ = l₂} r s) h = All-Permᴰ P l₂ qs s (All-Permᴰ P ps l₂ r h)

IsKeyed-Permᴰ : (ps qs : List ConnectionProfile) → Permᴰ ps qs → IsKeyed ps → IsKeyed qs
IsKeyed-Permᴰ ps qs (Permᴰ.nil) h = tt
IsKeyed-Permᴰ ps qs (Permᴰ.cons {l₁ = l₁} {l₂ = l₂} e r) h = (
  subst (λ p. All (λ q. p.id ≡ q.id → p ≡ q) l₂) e (All-Permᴰ _ l₁ l₂ r h.0),
  IsKeyed-Permᴰ l₁ l₂ r h.1,
)
IsKeyed-Permᴰ ps qs (Permᴰ.swap {a = a} {b = b} {l = l} e f) h = (
  ((λ k. cc (h.0.0 (cc (k, e, f)), e, f)), subst (λ p. All (λ q. p.id ≡ q.id → p ≡ q) l) f h.1.0),
  (subst (λ p. All (λ q. p.id ≡ q.id → p ≡ q) l) e h.0.1, h.1.1),
)
IsKeyed-Permᴰ ps qs (Permᴰ.trans {l₂ = l₂} r s) h = IsKeyed-Permᴰ l₂ qs s (IsKeyed-Permᴰ ps l₂ r h)

insert_comm :
    (a b : ConnectionProfile) (ps : List ConnectionProfile)
    → (a.id ≡ b.id → a ≡ b)
    → insert_by before a (insert_by before b ps) ≡ insert_by before b (insert_by before a ps)
unfolding insert_by
insert_comm a b [] h = ground (arith, before_total a b, before_asym a b)
insert_comm a b (p ∷ ps) h = ground (
  arith,
  insert_comm a b ps h,
  before_total a b,
  before_asym a b,
  before_trans a b p,
  before_trans b a p,
  before_negtrans p b a,
  before_negtrans p a b,
  before_trans p a b,
  before_trans p b a,
)

sort-Permᴰ : (ps qs : List ConnectionProfile) → IsKeyed ps → Permᴰ ps qs → sort ps ≡ sort qs
unfolding sort_by
sort-Permᴰ ps qs k (Permᴰ.nil) = refl
sort-Permᴰ ps qs k (Permᴰ.cons {l₁ = l₁} {l₂ = l₂} e r) =
    ap₂ (insert_by before) e (sort-Permᴰ l₁ l₂ k.1 r)
sort-Permᴰ ps qs k (Permᴰ.swap {a = a} {b = b} {l = l} e f) =
    cc (insert_comm a b (sort l) k.0.0, e, f)
sort-Permᴰ ps qs k (Permᴰ.trans {l₂ = l₂} r s) =
    sort-Permᴰ ps l₂ k r ∙ sort-Permᴰ l₂ qs (IsKeyed-Permᴰ ps l₂ r k) s

All-candidates {κ} :
    (P : ConnectionProfile → Type κ) (ps : List ConnectionProfile)
    → All P ps
    → All P (candidates ps)
All-candidates P [] h = tt
All-candidates P (p ∷ ps) h = elim (Bool-cases (eligible p)) [
  | inl e ↦ rw e (h.0, All-candidates P ps h.1)
  | inr e ↦ rw e (All-candidates P ps h.1)
]

IsKeyed-candidates : (ps : List ConnectionProfile) → IsKeyed ps → IsKeyed (candidates ps)
IsKeyed-candidates [] h = tt
IsKeyed-candidates (p ∷ ps) h = elim (Bool-cases (eligible p)) [
  | inl e ↦ rw e (All-candidates _ ps h.0, IsKeyed-candidates ps h.1)
  | inr e ↦ rw e (IsKeyed-candidates ps h.1)
]

Str-set : IsSet (List Str)
Str-set = hlevel ℕ_set

-- The order does not depend on the order of the input, whose profiles are told apart by their ids.
pub order_for_autoconnect-perm :
    (ps qs : List ConnectionProfile)
    → IsKeyed ps
    → Perm ps qs
    → order_for_autoconnect ps ≡ order_for_autoconnect qs
unfolding order_for_autoconnect
order_for_autoconnect-perm ps qs k r =
    ∥∥₁_elim (Perm.filter (λ p. is_true (eligible p)) r) (Str-set _ _) λ d.
      ap (map (λ p. p.id)) (sort-Permᴰ (candidates ps) (candidates qs) (IsKeyed-candidates ps k) d)
