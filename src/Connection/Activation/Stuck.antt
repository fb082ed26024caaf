-- ===== src/Connection/Activation/Stuck.antt =====
-- A connection in `Failed` under every later call of the manager.
use network_manager_rs.Common.{
  ℕ, ◌≡◌, refl, true, List, [], ◌∷◌, ◌++◌, Str, str_eq, str_eq_refl, any, All, arith, some,
}
use network_manager_rs.Connection.State.{ConnectionEvent, activated, failed}
use network_manager_rs.Connection.Store.{ProfileStore}
use network_manager_rs.Connection.Activation.{ActivationError, ActivationEngine, is_active}
use network_manager_rs.Connection.Activation.Table.{
  ActiveConnection, find_id, replace_id, remove_id,
}
use network_manager_rs.Connection.Activation.Moves.{
  View, view, Move, rest, up, fall, down, stall, Op, IsHonest, after, World, history, drained,
  after-Move,
}

find_id-append :
    (id : ℕ) (xs ys : List ActiveConnection) (a : ActiveConnection)
    → find_id id xs ≡ some a
    → find_id id (xs ++ ys) ≡ some a
unfolding find_id
find_id-append id [] ys a h = cc
find_id-append id (x ∷ xs) ys a h = ground (arith, find_id-append id xs ys a)

find_id-remove :
    (id other : ℕ) (xs : List ActiveConnection) (a b : ActiveConnection)
    → find_id id xs ≡ some a
    → find_id other xs ≡ some b
    → a.state ≡ failed
    → b.state ≡ activated
    → find_id id (remove_id other xs) ≡ some a
unfolding find_id remove_id
find_id-remove id other [] a b h k s t = cc
find_id-remove id other (x ∷ xs) a b h k s t = ground (arith, find_id-remove id other xs a b)

find_id-replace :
    (id other : ℕ) (xs : List ActiveConnection) (a b c : ActiveConnection)
    → find_id id xs ≡ some a
    → find_id other xs ≡ some b
    → a.state ≡ failed
    → b.state ≡ activated
    → c.id ≡ other
    → find_id id (replace_id other c xs) ≡ some a
unfolding find_id replace_id
find_id-replace id other [] a b c h k s t e = cc
find_id-replace id other (x ∷ xs) a b c h k s t e =
    ground (arith, find_id-replace id other xs a b c)

Move-failed :
    (v w : View) (es : List ConnectionEvent) (a : ActiveConnection)
    → Move v es w
    → a.state ≡ failed
    → find_id a.id v.active ≡ some a
    → find_id a.id w.active ≡ some a
Move-failed v w es a (rest n e) s h = rw e h
Move-failed v w es a (up p d o f n e) s h = rw e (find_id-append a.id v.active _ a h)
Move-failed v w es a (fall p d r f n e) s h = rw e (find_id-append a.id v.active _ a h)
Move-failed v w es a (down b f t n e) s h = rw e (find_id-remove a.id b.id v.active a b h f s t)
Move-failed v w es a (stall b r f t n e) s h =
    rw e (find_id-replace a.id b.id v.active a b _ h f s t refl)

found-any :
    (id : ℕ) (xs : List ActiveConnection) (a : ActiveConnection)
    → find_id id xs ≡ some a
    → any (λ b. str_eq b.profile.id a.profile.id) xs ≡ true
unfolding find_id
found-any id [] a h = cc
found-any id (x ∷ xs) a h = ground (arith, found-any id xs a, str_eq_refl a.profile.id)

module _ {E S : Type 0} (api : ActivationEngine E) (to_string : ActivationError → Str)
    (storage : ProfileStore S) where
  -- A connection in `Failed` is never removed and never changed again: after any further calls, where
  -- the store hands out the profiles it is asked for, the manager still finds it under its id, still
  -- in `Failed`, and still reports its profile as active.
  pub history-failed :
      (w : World api to_string storage) (ops : List (Op S)) (a : ActiveConnection)
      → All (IsHonest api to_string storage) ops
      → a.state ≡ failed
      → find_id a.id (w.1).active ≡ some a
      → (find_id a.id (history api to_string storage w ops).1.active ≡ some a)
        × (is_active (history api to_string storage w ops).1 a.profile.id ≡ true)
  unfolding is_active
  history-failed w [] a h s f = (f, found-any a.id (w.1).active a f)
  history-failed w (op ∷ ops) a h s f =
      history-failed (drained api to_string storage w op, after api to_string storage (w.1) op) ops
        a h.1 s (Move-failed (view (w.1)) _ _ a (after-Move api to_string storage w op h.0).1 s f)
