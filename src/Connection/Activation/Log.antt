-- ===== src/Connection/Activation/Log.antt =====
-- The event log of the manager, drained or pending, against its table of connections.
use mathlib.Core.Path.{subst}
use network_manager_rs.Common.{
  append-nil, ℕ, ◌+◌, ◌^◌, ◌<◌, ◌≤◌, ◌≡◌, refl, ◌∙◌, ◌≢◌, true, List, [], ◌∷◌, ◌++◌, Str, All,
  All-append, length, arith, some, ◌==◌, Bool-cases, inl, inr, if◌then◌else◌,
}
use network_manager_rs.Connection.State.{
  ConnectionState, disconnected, activated, failed, can_transition_to, ConnectionEvent,
  state_changed, activated_event, deactivated_event, failed_event,
}
use network_manager_rs.Connection.Store.{ProfileStore}
use network_manager_rs.Connection.Activation.{ActivationError, ActivationEngine, new_manager}
use network_manager_rs.Connection.Activation.Table.{
  ActiveConnection, find_id, replace_id, remove_id,
}
use network_manager_rs.Connection.Activation.Outcome.{up_events, failed_events, down_events}
use network_manager_rs.Connection.Activation.Moves.{
  View, view, added, Move, rest, up, fall, down, stall, Op, IsHonest, after, World, history,
  drained, log, after-Move,
}
use network_manager_rs.Connection.Activation.Invariant.{
  IsLater, Apart, IsTable, Move-IsTable, next_id-after,
}

-- The state of each connection, as far as the events tell.
abbrev pub Reading : Type 0
Reading = ℕ → ConnectionState

abbrev pub start : Reading
start id = disconnected

abbrev pub read : Reading → ConnectionEvent → Reading
read st (state_changed i name previous current) j = if j == i then current else st j
read st _ j = st j

abbrev pub replay : Reading → List ConnectionEvent → Reading
replay st [] = st
replay st (e ∷ es) = replay (read st e) es

-- An event fits the states reported before it: a change starts where the last one ended and is a
-- transition that the state machine allows, and each announcement names the state just reached.
abbrev pub Fits : Reading → ConnectionEvent → Type 0
Fits st (state_changed i name previous current) =
    (st i ≡ previous) × (can_transition_to previous current ≡ true)
Fits st (activated_event i name) = st i ≡ activated
Fits st (deactivated_event i name) = st i ≡ disconnected
Fits st (failed_event i name reason) = st i ≡ failed

abbrev pub Chained : Reading → List ConnectionEvent → Type 0
Chained st [] = Unit
Chained st (e ∷ es) = Fits st e × Chained (read st e) es

pub record IsLogged (v : View) (es : List ConnectionEvent) : Type 0 where
  pub chained : Chained start es
  pub present : All (λ a. replay start es a.id ≡ a.state) v.active
  pub fresh : (id : ℕ) → v.next_id ≤ id → replay start es id ≡ disconnected

replay-append :
    (st : Reading) (es fs : List ConnectionEvent) → replay st (es ++ fs) ≡ replay (replay st es) fs
replay-append st [] fs = refl
replay-append st (e ∷ es) fs = replay-append (read st e) es fs

Chained-append :
    (st : Reading) (es fs : List ConnectionEvent)
    → Chained st es
    → Chained (replay st es) fs
    → Chained st (es ++ fs)
Chained-append st [] fs h k = k
Chained-append st (e ∷ es) fs h k = (h.0, Chained-append (read st e) es fs h.1 k)

-- The entries that stay have other ids, where all ids are distinct.
module _ (P Q : ActiveConnection → Type 0) (id : ℕ)
    (kept : (a : ActiveConnection) → a.id ≢ id → P a → Q a) where
  All-later :
      (x : ActiveConnection) (xs : List ActiveConnection)
      → x.id ≡ id
      → All (IsLater x) xs
      → All P xs
      → All Q xs
  All-later x [] e l h = tt
  All-later x (y ∷ ys) e l h = (kept y (λ q. omega (arith, l.0.0)) h.0, All-later x ys e l.1 h.1)

  All-removed : (xs : List ActiveConnection) → Apart xs → All P xs → All Q (remove_id id xs)
  unfolding remove_id
  All-removed [] p h = tt
  All-removed (x ∷ xs) p h = elim (Bool-cases (x.id == id)) [
    | inl e ↦ rw (e, remove_id) (All-later x xs (ground arith) p.0 h.1)
    | inr e ↦ rw (e, remove_id) (kept x (λ q. ground arith) h.0, All-removed xs p.1 h.1)
  ]

  All-replaced :
      (b : ActiveConnection) (xs : List ActiveConnection)
      → Q b
      → Apart xs
      → All P xs
      → All Q (replace_id id b xs)
  unfolding replace_id
  All-replaced b [] q p h = tt
  All-replaced b (x ∷ xs) q p h = elim (Bool-cases (x.id == id)) [
    | inl e ↦ rw (e, replace_id) (q, All-later x xs (ground arith) p.0 h.1)
    | inr e ↦ rw (e, replace_id) (kept x (λ q. ground arith) h.0, All-replaced b xs q p.1 h.1)
  ]

same :
    (id : ℕ) (x a : ActiveConnection) (xs : List ActiveConnection)
    → (x.id == id) ≡ true
    → find_id id (x ∷ xs) ≡ some a
    → x ≡ a
unfolding find_id
same id x a xs e f = ground arith

All-find :
    (P : ActiveConnection → Type 0) (id : ℕ) (xs : List ActiveConnection) (a : ActiveConnection)
    → All P xs
    → find_id id xs ≡ some a
    → P a
unfolding find_id
All-find P id [] a h f = cc
All-find P id (x ∷ xs) a h f = elim (Bool-cases (x.id == id)) [
  | inl e ↦ subst P (same id x a xs e f) h.0
  | inr e ↦ All-find P id xs a h.1 (rw (e, find_id) at f)
]

-- What the events of one attempt or of one end do to a reading.
record Turns (id : ℕ) (st : Reading) (es : List ConnectionEvent) (s : ConnectionState)
    : Type 0 where
  pub fits : Chained st es
  pub ends : replay st es id ≡ s
  pub others : (j : ℕ) → j ≢ id → replay st es j ≡ st j

up-Turns :
    (id : ℕ) (st : Reading) (name : Str)
    → st id ≡ disconnected
    → Turns id st (up_events id name) activated
unfolding can_transition_to
up-Turns id st name h = record {
  fits = (
    (h, refl),
    ((ground arith, refl), ((ground arith, refl), ((ground arith, refl), (ground arith, tt)))),
  );
  ends = ground arith;
  others = λ j n. ground arith;
}

failed-Turns :
    (id : ℕ) (st : Reading) (name reason : Str)
    → st id ≡ disconnected
    → Turns id st (failed_events id name reason) failed
unfolding can_transition_to
failed-Turns id st name reason h = record {
  fits = ((h, refl), ((ground arith, refl), (ground arith, tt)));
  ends = ground arith;
  others = λ j n. ground arith;
}

down-Turns :
    (a : ActiveConnection) (st : Reading)
    → st a.id ≡ a.state
    → a.state ≡ activated
    → Turns a.id st (down_events a disconnected (deactivated_event a.id a.profile.id)) disconnected
unfolding can_transition_to
down-Turns a st h s = record {
  fits = ((h ∙ s, refl), ((ground arith, refl), (ground arith, tt)));
  ends = ground arith;
  others = λ j n. ground arith;
}

stall-Turns :
    (a : ActiveConnection) (reason : Str) (st : Reading)
    → st a.id ≡ a.state
    → a.state ≡ activated
    → Turns a.id st (down_events a failed (failed_event a.id a.profile.id reason)) failed
unfolding can_transition_to
stall-Turns a reason st h s = record {
  fits = ((h ∙ s, refl), ((ground arith, refl), (ground arith, tt)));
  ends = ground arith;
  others = λ j n. ground arith;
}

-- After the moves of one id: the reading of the whole log.
module _ (v w : View) (old es : List ConnectionEvent) (id : ℕ) (s : ConnectionState)
    (h : IsLogged v old) (t : Turns id (replay start old) es s) where
  abbrev Told : ActiveConnection → Type 0
  Told a = replay start old a.id ≡ a.state

  abbrev Tells : ActiveConnection → Type 0
  Tells a = replay start (old ++ es) a.id ≡ a.state

  Tells-apart : (a : ActiveConnection) → a.id ≢ id → Told a → Tells a
  Tells-apart a n k = rw (replay-append start old es) (t.others a.id n ∙ k)

  Tells-id : (a : ActiveConnection) → a.id ≡ id → a.state ≡ s → Tells a
  Tells-id a e k = rw (replay-append start old es, e, k) (t.ends)

  IsLogged-turned :
      id < w.next_id → v.next_id ≤ w.next_id → All Tells w.active → IsLogged w (old ++ es)
  IsLogged-turned l m k = record {
    chained = Chained-append start old es h.chained t.fits;
    present = k;
    fresh = λ j n.
        rw (replay-append start old es)
          (t.others j (λ e. omega (arith, l, n, e)) ∙ h.fresh j (omega (arith, m, n)));
  }

below_other :
    (n : ℕ) (id : ℕ) (xs : List ActiveConnection)
    → n ≤ id
    → All (λ a. a.id < n) xs
    → All (λ a. a.id ≢ id) xs
below_other n id [] l h = tt
below_other n id (x ∷ xs) l h = (λ e. omega (arith, l, h.0, e), below_other n id xs l h.1)

All-both :
    (P Q R : ActiveConnection → Type 0) (xs : List ActiveConnection)
    → ((a : ActiveConnection) → P a → Q a → R a)
    → All P xs
    → All Q xs
    → All R xs
All-both P Q R [] f h k = tt
All-both P Q R (x ∷ xs) f h k = (f x h.0 k.0, All-both P Q R xs f h.1 k.1)

added-IsLogged :
    (v : View) (old es : List ConnectionEvent) (b : ActiveConnection) (s : ConnectionState)
    → v.next_id + 1 < 2 ^ 64
    → IsTable v
    → IsLogged v old
    → b.id ≡ v.next_id
    → b.state ≡ s
    → Turns v.next_id (replay start old) es s
    → IsLogged (added v b) (old ++ es)
added-IsLogged v old es b s l i h e k t =
    IsLogged-turned v (added v b) old es v.next_id s h t (omega (arith, l)) (omega (arith, l)) (
      All-append _ v.active (b ∷ [])
        (All-both (λ a. a.id ≢ v.next_id) (λ a. replay start old a.id ≡ a.state) _ v.active
          (λ a n p. Tells-apart v (added v b) old es v.next_id s h t a n p)
          (below_other v.next_id v.next_id v.active (omega arith) i.below) h.present)
        (Tells-id v (added v b) old es v.next_id s h t b e k, tt))

pub Move-IsLogged :
    (v w : View) (old es : List ConnectionEvent)
    → v.next_id + 1 < 2 ^ 64
    → IsTable v
    → Move v es w
    → IsLogged v old
    → IsLogged w (old ++ es)
Move-IsLogged v w old es l i (rest n e) h = rw (n, e, append-nil old) h
Move-IsLogged v w old es l i (up p d o f n e) h =
    rw (n, e)
      (added-IsLogged v old _ _ activated l i h refl refl
        (up-Turns v.next_id _ p.id (h.fresh v.next_id (omega arith))))
Move-IsLogged v w old es l i (fall p d r f n e) h =
    rw (n, e)
      (added-IsLogged v old _ _ failed l i h refl refl
        (failed-Turns v.next_id _ p.id r (h.fresh v.next_id (omega arith))))
Move-IsLogged v w old es l i (down a f s n e) h =
    let t = down-Turns a (replay start old) (All-find _ a.id v.active a h.present f) s in
    rw (n, e)
      (IsLogged-turned v (record v { active = remove_id a.id v.active }) old _ a.id disconnected h t
        (All-find (λ b. b.id < v.next_id) a.id v.active a i.below f) (omega arith)
        (All-removed (λ b. replay start old b.id ≡ b.state) _ a.id
          (λ b k p. Tells-apart v v old _ a.id disconnected h t b k p) v.active i.apart h.present))
Move-IsLogged v w old es l i (stall a r f s n e) h =
    let t = stall-Turns a r (replay start old) (All-find _ a.id v.active a h.present f) s in
    let b : ActiveConnection = record a { state = failed } in
    rw (n, e)
      (IsLogged-turned v (record v { active = replace_id a.id b v.active }) old _ a.id failed h t
        (All-find (λ b. b.id < v.next_id) a.id v.active a i.below f) (omega arith)
        (All-replaced (λ c. replay start old c.id ≡ c.state) _ a.id
          (λ c k p. Tells-apart v v old _ a.id failed h t c k p) b v.active
          (Tells-id v v old _ a.id failed h t b refl refl) i.apart h.present))

module _ {E S : Type 0} (api : ActivationEngine E) (to_string : ActivationError → Str)
    (storage : ProfileStore S) where
  history-IsLogged :
      (w : World api to_string storage) (ops : List (Op S))
      → All (IsHonest api to_string storage) ops
      → (w.1).next_id + length ops < 2 ^ 64
      → IsTable (view (w.1))
      → IsLogged (view (w.1)) (log api to_string storage w)
      → IsLogged
          (view (history api to_string storage w ops).1)
          (log api to_string storage (history api to_string storage w ops))
  history-IsLogged w [] h l t k = k
  history-IsLogged w (op ∷ ops) h l t k =
      let (es, v, e) = after-Move api to_string storage w op h.0 in
      history-IsLogged (drained api to_string storage w op, after api to_string storage (w.1) op)
        ops h.1 (omega (arith, next_id-after api to_string storage w op h.0 (omega arith)))
        (Move-IsTable (view (w.1)) _ es (omega arith) v t)
        (rw e (Move-IsLogged (view (w.1)) _ _ es (omega arith) t v k))

  -- Whatever the engine answers and however the store changes between the calls, as long as the store
  -- hands out the profiles it is asked for and the ids do not run out: after any history on a new
  -- manager, the events drained or pending so far form a chain in which every reported change is
  -- allowed by the state machine and starts in the state last reported for its id, and each other
  -- event names the state just reached; replaying them gives the state of every tracked connection,
  -- and `Disconnected` for every id not yet used.
  pub new_manager-IsLogged :
      (engine : E) (ops : List (Op S))
      → All (IsHonest api to_string storage) ops
      → 1 + length ops < 2 ^ 64
      → IsLogged
          (view (history api to_string storage ([], new_manager engine) ops).1)
          (log api to_string storage (history api to_string storage ([], new_manager engine) ops))
  new_manager-IsLogged engine ops h l =
      history-IsLogged ([], new_manager engine) ops h (unfold new_manager in l)
        (unfold new_manager in record { below = tt; settled = tt; apart = tt })
        (unfold new_manager in record { chained = tt; present = tt; fresh = λ id g. refl })
