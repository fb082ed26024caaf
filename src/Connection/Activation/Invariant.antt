-- ===== src/Connection/Activation/Invariant.antt =====
-- What every history of calls keeps of the manager's table.
use mathlib.Core.Path.{subst}
use network_manager_rs.Common.{
  ℕ, ◌+◌, ◌%◌, ◌^◌, ◌<◌, ◌≤◌, ◌≡◌, refl, ◌≢◌, ◌⊎◌, inl, inr, true, false, List, [], ◌∷◌, ◌++◌, Str,
  str_eq, str_eq_iff, any, All, All-append, length, arith, some, ◌==◌, Bool-cases,
}
use network_manager_rs.Connection.State.{ConnectionState, activated, failed, ConnectionEvent}
use network_manager_rs.Connection.Store.{ProfileStore}
use network_manager_rs.Connection.Activation.{ActivationError, ActivationEngine, new_manager}
use network_manager_rs.Connection.Activation.Table.{
  ActiveConnection, find_id, replace_id, remove_id,
}
use network_manager_rs.Connection.Activation.Moves.{
  View, view, is_busy, added, Move, rest, up, fall, down, stall, Op, IsHonest, after, World,
  history, drained, after-Move,
}

-- `b` was added later than `a`, for another profile.
abbrev pub IsLater : ActiveConnection → ActiveConnection → Type 0
IsLater a b = (a.id < b.id) × (b.profile.id ≢ a.profile.id)

abbrev pub Apart : List ActiveConnection → Type 0
Apart [] = Unit
Apart (a ∷ xs) = All (IsLater a) xs × Apart xs

abbrev pub IsSettled : ActiveConnection → Type 0
IsSettled a = (a.state ≡ activated) ⊎ (a.state ≡ failed)

pub record IsTable (v : View) : Type 0 where
  pub below : All (λ a. a.id < v.next_id) v.active
  pub settled : All IsSettled v.active
  pub apart : Apart v.active

Apart-append :
    (xs : List ActiveConnection) (b : ActiveConnection)
    → Apart xs
    → All (λ a. IsLater a b) xs
    → Apart (xs ++ (b ∷ []))
Apart-append [] b h k = (tt, tt)
Apart-append (a ∷ xs) b h k =
    (All-append (IsLater a) xs (b ∷ []) h.0 (k.0, tt), Apart-append xs b h.1 k.1)

All-replace :
    (P : ActiveConnection → Type 0) (id : ℕ) (b : ActiveConnection) (xs : List ActiveConnection)
    → ((a : ActiveConnection) → find_id id xs ≡ some a → P a → P b)
    → All P xs
    → All P (replace_id id b xs)
unfolding find_id replace_id
All-replace P id b [] f h = tt
All-replace P id b (x ∷ xs) f h = elim (Bool-cases (x.id == id)) [
  | inl e ↦ rw (e, replace_id) (f x (rw (e, find_id)) h.0, h.1)
  | inr e ↦ rw (e, replace_id) (h.0, All-replace P id b xs (λ a g. f a (rw (e, find_id) g)) h.1)
]

All-remove :
    (P : ActiveConnection → Type 0) (id : ℕ) (xs : List ActiveConnection)
    → All P xs
    → All P (remove_id id xs)
unfolding remove_id
All-remove P id [] h = tt
All-remove P id (x ∷ xs) h = elim (Bool-cases (x.id == id)) [
  | inl e ↦ rw (e, remove_id) (h.1)
  | inr e ↦ rw (e, remove_id) (h.0, All-remove P id xs h.1)
]

Apart-remove : (id : ℕ) (xs : List ActiveConnection) → Apart xs → Apart (remove_id id xs)
unfolding remove_id
Apart-remove id [] h = tt
Apart-remove id (x ∷ xs) h = elim (Bool-cases (x.id == id)) [
  | inl e ↦ rw (e, remove_id) (h.1)
  | inr e ↦ rw (e, remove_id) (All-remove (IsLater x) id xs h.0, Apart-remove id xs h.1)
]

-- A replacement that keeps id and profile.
module _ (a : ActiveConnection) (s : ConnectionState) where
  abbrev moved : ActiveConnection
  moved = record a { state = s }

  IsLater-moved :
      (x : ActiveConnection) (id : ℕ) (xs : List ActiveConnection)
      → find_id id xs ≡ some a
      → All (IsLater x) xs
      → All (IsLater x) (replace_id id moved xs)
  IsLater-moved x id xs f h =
      All-replace (IsLater x) id moved xs (λ b g l. ground (arith, f, g, l)) h

  All-IsLater-moved : (xs : List ActiveConnection) → All (IsLater a) xs → All (IsLater moved) xs
  All-IsLater-moved [] h = tt
  All-IsLater-moved (x ∷ xs) h = (h.0, All-IsLater-moved xs h.1)

  found :
      (x : ActiveConnection) (id : ℕ) (xs : List ActiveConnection)
      → (x.id == id) ≡ true
      → find_id id (x ∷ xs) ≡ some a
      → x ≡ a
  unfolding find_id
  found x id xs e f = ground arith

  Apart-moved :
      (id : ℕ) (xs : List ActiveConnection)
      → find_id id xs ≡ some a
      → Apart xs
      → Apart (replace_id id moved xs)
  unfolding find_id replace_id
  Apart-moved id [] f h = tt
  Apart-moved id (x ∷ xs) f h = elim (Bool-cases (x.id == id)) [
    | inl e ↦
        rw (e, replace_id)
          (All-IsLater-moved xs (subst (λ y. All (IsLater y) xs) (found x id xs e f) h.0), h.1)
    | inr e ↦
        rw (e, replace_id)
          (
            IsLater-moved x id xs (rw (e, find_id) at f) h.0,
            Apart-moved id xs (rw (e, find_id) at f) h.1,
          )
  ]

free→ :
    (id : Str) (xs : List ActiveConnection)
    → any (λ a. str_eq a.profile.id id) xs ≡ false
    → All (λ a. id ≢ a.profile.id) xs
free→ id [] h = tt
free→ id (x ∷ xs) h = (ground (arith, str_eq_iff x.profile.id id), free→ id xs (ground arith))

below→ :
    (n : ℕ) (id : Str) (b : ActiveConnection) (xs : List ActiveConnection)
    → b.id ≡ n
    → b.profile.id ≡ id
    → All (λ a. a.id < n) xs
    → All (λ a. id ≢ a.profile.id) xs
    → All (λ a. IsLater a b) xs
below→ n id b [] e f h k = tt
below→ n id b (x ∷ xs) e f h k = (rw (e, f) (h.0, k.0), below→ n id b xs e f h.1 k.1)

below_suc :
    (n : ℕ) (xs : List ActiveConnection)
    → n + 1 < 2 ^ 64
    → All (λ a. a.id < n) xs
    → All (λ a. a.id < (n + 1) % 2 ^ 64) xs
below_suc n [] l h = tt
below_suc n (x ∷ xs) l h = (omega arith, below_suc n xs l h.1)

added-IsTable :
    (v : View) (b : ActiveConnection)
    → v.next_id + 1 < 2 ^ 64
    → b.id ≡ v.next_id
    → IsSettled b
    → is_busy v b.profile.id ≡ false
    → IsTable v
    → IsTable (added v b)
added-IsTable v b l e s f h = record {
  below = All-append _ v.active (b ∷ []) (below_suc v.next_id v.active l h.below) (omega arith, tt);
  settled = All-append IsSettled v.active (b ∷ []) h.settled (s, tt);
  apart =
      Apart-append v.active b h.apart
        (below→ v.next_id b.profile.id b v.active e refl h.below (free→ b.profile.id v.active f));
}

pub Move-IsTable :
    (v w : View) (es : List ConnectionEvent)
    → v.next_id + 1 < 2 ^ 64
    → Move v es w
    → IsTable v
    → IsTable w
Move-IsTable v w es l (rest _ e) h = rw e h
Move-IsTable v w es l (up p d o f _ e) h = rw e (added-IsTable v _ l refl (inl refl) f h)
Move-IsTable v w es l (fall p d r f _ e) h = rw e (added-IsTable v _ l refl (inr refl) f h)
Move-IsTable v w es l (down a f s _ e) h = rw e (record {
  below = All-remove _ a.id v.active h.below;
  settled = All-remove IsSettled a.id v.active h.settled;
  apart = Apart-remove a.id v.active h.apart;
})
Move-IsTable v w es l (stall a r f s _ e) h = rw e (record {
  below =
      All-replace (λ a. a.id < v.next_id) a.id (record a { state = failed }) v.active
        (λ b g k. ground (arith, f, g, k)) h.below;
  settled =
      All-replace IsSettled a.id (record a { state = failed }) v.active (λ b g k. inr refl)
        h.settled;
  apart = Apart-moved a failed a.id v.active f h.apart;
})

next_id-Move :
    (v w : View) (es : List ConnectionEvent)
    → v.next_id + 1 < 2 ^ 64
    → Move v es w
    → w.next_id ≤ v.next_id + 1
next_id-Move v w es l (rest _ e) = rw e (omega arith)
next_id-Move v w es l (up p d o f _ e) = rw e (omega arith)
next_id-Move v w es l (fall p d r f _ e) = rw e (omega arith)
next_id-Move v w es l (down a f s _ e) = rw e (omega arith)
next_id-Move v w es l (stall a r f s _ e) = rw e (omega arith)

module _ {E S : Type 0} (api : ActivationEngine E) (to_string : ActivationError → Str)
    (storage : ProfileStore S) where
  pub next_id-after :
      (w : World api to_string storage) (op : Op S)
      → IsHonest api to_string storage op
      → (w.1).next_id + 1 < 2 ^ 64
      → (after api to_string storage (w.1) op).next_id ≤ (w.1).next_id + 1
  next_id-after w op h l =
      next_id-Move (view (w.1)) _ _ l (after-Move api to_string storage w op h).1

  pub history-IsTable :
      (w : World api to_string storage) (ops : List (Op S))
      → All (IsHonest api to_string storage) ops
      → (w.1).next_id + length ops < 2 ^ 64
      → IsTable (view (w.1))
      → IsTable (view (history api to_string storage w ops).1)
  history-IsTable w [] h l t = t
  history-IsTable w (op ∷ ops) h l t =
      history-IsTable (drained api to_string storage w op, after api to_string storage (w.1) op) ops
        h.1 (omega (arith, next_id-after w op h.0 (omega arith)))
        (Move-IsTable (view (w.1)) _ _ (omega arith) (after-Move api to_string storage w op h.0).1
          t)

  -- Whatever the engine answers and however the store changes between the calls, as long as the store
  -- hands out the profiles it is asked for and the ids do not run out: after any history on a new
  -- manager the tracked connections have distinct ids, all used before the next one, and distinct
  -- profiles, and each is `Activated` or `Failed`.
  pub history-new_manager :
      (engine : E) (ops : List (Op S))
      → All (IsHonest api to_string storage) ops
      → 1 + length ops < 2 ^ 64
      → IsTable (view (history api to_string storage ([], new_manager engine) ops).1)
  history-new_manager engine ops h l =
      history-IsTable ([], new_manager engine) ops h (unfold new_manager in l)
        (unfold new_manager in record { below = tt; settled = tt; apart = tt })
