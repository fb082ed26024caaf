-- ===== src/Daemon/Calls.antt =====
-- Histories of calls of the daemon, and the histories of its manager.
use mathlib.Core.Path.{subst}
use network_manager_rs.Common.{
  ℕ, ◌+◌, ◌^◌, ◌<◌, ◌≤◌, arith, ◌≡◌, refl, ok, List, [], ◌∷◌, ◌++◌, Str, All, length,
}
use network_manager_rs.Connection.State.{ConnectionEvent}
use network_manager_rs.Connection.Profile.{ConnectionProfile, DeviceInfo}
use network_manager_rs.Connection.Store.{ProfileStore}
use network_manager_rs.Connection.Activation.{ActivationError, ActivationEngine, drain_events}
use network_manager_rs.Connection.Activation.Moves.{
  view, Op, activates, activates_profile, deactivates, drains, IsHonest, after, history,
}
use network_manager_rs.Connection.Activation.Invariant.{IsTable, history-new_manager}
use network_manager_rs.Connection.Activation.Log.{IsLogged, new_manager-IsLogged}
use network_manager_rs.Daemon.{
  Daemon, with_components, connection_events, create_profile, update_profile, delete_profile,
  activate_device, activate_by_id, deactivate_by_id,
}

pub data DaemonCall : Type 0 where
  stores updates_stored : ConnectionProfile → DaemonCall
  forgets : Str → DaemonCall
  connects : DeviceInfo → DaemonCall
  connects_profile : Str → DeviceInfo → DaemonCall
  disconnects : ℕ → DaemonCall
  collects : DaemonCall

-- The events handed out so far, and the daemon.
abbrev pub Served : Type 0 → Type 0 → Type 0 → Type 0
Served B S E = List ConnectionEvent × Daemon B S E

module _ {B S E : Type 0} (api : ActivationEngine E) (to_string : ActivationError → Str)
    (storage : ProfileStore S) where
  abbrev pub serve : Served B S E → DaemonCall → Served B S E
  serve (old, d) (stores p) = (old, (create_profile api to_string storage d p).1)
  serve (old, d) (updates_stored p) = (old, (update_profile api to_string storage d p).1)
  serve (old, d) (forgets id) = (old, (delete_profile api to_string storage d id).1)
  serve (old, d) (connects device) = (old, (activate_device api to_string storage d device).1)
  serve (old, d) (connects_profile id device) =
      (old, (activate_by_id api to_string storage d id device).1)
  serve (old, d) (disconnects id) = (old, (deactivate_by_id api to_string storage d id).1)
  serve (old, d) collects = (old ++ (connection_events d).0, (connection_events d).1)

  abbrev pub serves : Served B S E → List DaemonCall → Served B S E
  serves w [] = w
  serves w (c ∷ cs) = serves (serve w c) cs

  -- What the manager sees of a call: none of the calls on the store.
  abbrev op_of : Daemon B S E → DaemonCall → List (Op S)
  op_of d (stores p) = []
  op_of d (updates_stored p) = []
  op_of d (forgets id) = []
  op_of d (connects device) = activates d.profiles device ∷ []
  op_of d (connects_profile id device) = activates_profile d.profiles id device ∷ []
  op_of d (disconnects id) = deactivates id ∷ []
  op_of d collects = drains ∷ []

  abbrev ops_of : Served B S E → List DaemonCall → List (Op S)
  ops_of w [] = []
  ops_of w (c ∷ cs) = op_of (w.1) c ++ ops_of (serve w c) cs

  serves-history :
      (old : List ConnectionEvent) (d : Daemon B S E) (cs : List DaemonCall)
      → history api to_string storage (old, d.activation) (ops_of (old, d) cs)
        ≡ ((serves (old, d) cs).0, ((serves (old, d) cs).1).activation)
  unfolding after connection_events drain_events create_profile update_profile delete_profile
      activate_device activate_by_id deactivate_by_id
  serves-history old d [] = refl
  serves-history old d (stores p ∷ cs) =
      serves-history old (create_profile api to_string storage d p).1 cs
  serves-history old d (updates_stored p ∷ cs) =
      serves-history old (update_profile api to_string storage d p).1 cs
  serves-history old d (forgets id ∷ cs) =
      serves-history old (delete_profile api to_string storage d id).1 cs
  serves-history old d (connects device ∷ cs) =
      serves-history old (activate_device api to_string storage d device).1 cs
  serves-history old d (connects_profile id device ∷ cs) =
      serves-history old (activate_by_id api to_string storage d id device).1 cs
  serves-history old d (disconnects id ∷ cs) =
      serves-history old (deactivate_by_id api to_string storage d id).1 cs
  serves-history old d (collects ∷ cs) =
      serves-history (old ++ (connection_events d).0) (connection_events d).1 cs

-- What the states of a store keep, whatever is asked of it, with a profile handed out under its own id.
pub record Trusted {S : Type 0} (storage : ProfileStore S) (Good : S → Type 0) : Type 0 where
  pub finds :
      (s : S) (id : Str) (p : ConnectionProfile) → Good s → storage.get_one s id ≡ ok p → p.id ≡ id
  pub created : (s : S) (p : ConnectionProfile) → Good s → Good (storage.create_one s p).1
  pub updated : (s : S) (p : ConnectionProfile) → Good s → Good (storage.update_one s p).1
  pub deleted : (s : S) (id : Str) → Good s → Good (storage.delete_one s id).1

module _ {B S E : Type 0} (api : ActivationEngine E) (to_string : ActivationError → Str)
    (storage : ProfileStore S) (Good : S → Type 0) (trusted : Trusted storage Good) where
  ops-IsHonest :
      (old : List ConnectionEvent) (d : Daemon B S E) (cs : List DaemonCall)
      → Good d.profiles
      → All (IsHonest api to_string storage) (ops_of api to_string storage (old, d) cs)
  unfolding connection_events drain_events create_profile update_profile delete_profile
      activate_device activate_by_id deactivate_by_id
  ops-IsHonest old d [] g = tt
  ops-IsHonest old d (stores p ∷ cs) g =
      ops-IsHonest old (create_profile api to_string storage d p).1 cs
        (trusted.created d.profiles p g)
  ops-IsHonest old d (updates_stored p ∷ cs) g =
      ops-IsHonest old (update_profile api to_string storage d p).1 cs
        (trusted.updated d.profiles p g)
  ops-IsHonest old d (forgets id ∷ cs) g =
      ops-IsHonest old (delete_profile api to_string storage d id).1 cs
        (trusted.deleted d.profiles id g)
  ops-IsHonest old d (connects device ∷ cs) g =
      (tt, ops-IsHonest old (activate_device api to_string storage d device).1 cs g)
  ops-IsHonest old d (connects_profile id device ∷ cs) g = (
    λ i p h. trusted.finds d.profiles i p g h,
    ops-IsHonest old (activate_by_id api to_string storage d id device).1 cs g,
  )
  ops-IsHonest old d (disconnects id ∷ cs) g =
      (tt, ops-IsHonest old (deactivate_by_id api to_string storage d id).1 cs g)
  ops-IsHonest old d (collects ∷ cs) g =
      (tt, ops-IsHonest (old ++ (connection_events d).0) (connection_events d).1 cs g)

  length-ops_of :
      (w : Served B S E) (cs : List DaemonCall)
      → length (ops_of api to_string storage w cs) ≤ length cs
  length-ops_of w [] = omega arith
  length-ops_of w (stores p ∷ cs) =
      omega (arith, length-ops_of (serve api to_string storage w (stores p)) cs)
  length-ops_of w (updates_stored p ∷ cs) =
      omega (arith, length-ops_of (serve api to_string storage w (updates_stored p)) cs)
  length-ops_of w (forgets id ∷ cs) =
      omega (arith, length-ops_of (serve api to_string storage w (forgets id)) cs)
  length-ops_of w (connects device ∷ cs) =
      omega (arith, length-ops_of (serve api to_string storage w (connects device)) cs)
  length-ops_of w (connects_profile id device ∷ cs) =
      omega (arith, length-ops_of (serve api to_string storage w (connects_profile id device)) cs)
  length-ops_of w (disconnects id ∷ cs) =
      omega (arith, length-ops_of (serve api to_string storage w (disconnects id)) cs)
  length-ops_of w (collects ∷ cs) =
      omega (arith, length-ops_of (serve api to_string storage w collects) cs)

  -- On a store that hands out each profile under its own id, and stays such a store, any history of calls on a
  -- new daemon in which the ids do not run out keeps the manager's table well formed, and the events
  -- handed out or pending tell the state of every connection, however calls on profiles and on
  -- connections are mixed.
  pub serves-IsLogged :
      (b : B) (s : S) (engine : E) (cs : List DaemonCall)
      → Good s
      → 1 + length cs < 2 ^ 64
      → IsTable
          (view (serves api to_string storage ([], with_components b s engine) cs).1.activation)
        × IsLogged
            (view (serves api to_string storage ([], with_components b s engine) cs).1.activation)
            ((serves api to_string storage ([], with_components b s engine) cs).0
              ++ (serves api to_string storage
                  ([], with_components b s engine)
                  cs).1.activation.events)
  unfolding with_components
  serves-IsLogged b s engine cs g l =
      let d = with_components b s engine in
      let short = length-ops_of ([], d) cs in
      let honest = ops-IsHonest [] d cs g in
      let same = serves-history api to_string storage [] d cs in
      let ops = ops_of api to_string storage ([], d) cs in
      (
        subst (λ w. IsTable (view (w.1))) same
            (history-new_manager api to_string storage engine ops honest (omega (arith, short, l))),
        subst (λ w. IsLogged (view (w.1)) (w.0 ++ (w.1).events)) same
            (new_manager-IsLogged api to_string storage engine ops honest
              (omega (arith, short, l))),
      )
