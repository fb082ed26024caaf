-- ===== src/Connection/Activation.antt =====
-- src/connection/activation.rs: the activation manager over an activation engine.
pub mod Table
pub mod Outcome
pub mod Moves
pub mod Invariant
pub mod Log
pub mod Stuck
pub mod InMemory
pub mod InFiles
use network_manager_rs.Common.{
  ℕ, ◌+◌, ◌%◌, ◌^◌, Bool, true, false, not, ◌&&◌, Option, none, some, List, [], ◌∷◌, ◌++◌, Str,
  str_eq, Result, ok, err, find_map, any, if◌then◌else◌,
}
use network_manager_rs.Connection.State.{
  ConnectionState, disconnected, preparing, configuring, activating, activated, deactivating,
  failed, ConnectionEvent, state_changed, activated_event, deactivated_event, failed_event,
  StateError, transition_to, is_activated,
}
use network_manager_rs.Connection.Ip.{ActivationOutcome, no_outcome}
use network_manager_rs.Connection.Profile.{ConnectionProfile, DeviceInfo, matches}
use network_manager_rs.Connection.Policy.{order_for_autoconnect}
use network_manager_rs.Connection.Store.{ProfileStore, StoreError, not_found}
use Table.{ActiveConnection, find_id, replace_id, remove_id, find_profile}

pub data ActivationError : Type 0 where
  profile_not_found : Str → ActivationError
  device_incompatible : Str → DeviceInfo → ActivationError
  no_suitable_profile : DeviceInfo → ActivationError
  already_active : Str → ActivationError
  unknown_active_connection : ℕ → ActivationError
  invalid_state : ℕ → ConnectionState → ActivationError
  state_error : StateError → ActivationError
  store_error : StoreError → ActivationError
  engine_error : Str → ActivationError

-- `trait ActivationEngine`, over the type E of the engine: a call returns the engine after it.
pub record ActivationEngine (E : Type 0) : Type 0 where
  pub bring_up : E → ConnectionProfile → DeviceInfo → Result ActivationOutcome ActivationError × E
  pub bring_down : E → ConnectionProfile → Result (Unit {0}) ActivationError × E

-- `UnsupportedActivationEngine`.
abbrev pub unsupported : Str → ActivationEngine (Unit {0})
unsupported reason = record {
  bring_up = λ e p d. (err (engine_error reason), e);
  bring_down = λ e p. (err (engine_error reason), e);
}

pub record ActivationManager (E : Type 0) : Type 0 where
  pub engine : E
  pub next_id : ℕ  -- u64
  pub active : List ActiveConnection
  pub events : List ConnectionEvent

unfoldable pub new_manager : {E : Type 0} → E → ActivationManager E
new_manager engine = record { engine = engine; next_id = 1; active = []; events = [] }

-- `drain_events`: the pending events, and the manager without them.
unfoldable pub drain_events :
    {E : Type 0} → ActivationManager E → List ConnectionEvent × ActivationManager E
drain_events m = (m.events, record m { events = [] })

unfoldable pub state_of : {E : Type 0} → ActivationManager E → Str → ConnectionState
state_of m profile_id = elim (find_profile profile_id m.active) [
  | none ↦ disconnected
  | some a ↦ a.state
]

unfoldable pub is_active : {E : Type 0} → ActivationManager E → Str → Bool
is_active m profile_id = any (λ a. str_eq a.profile.id profile_id) m.active

-- `transition` changes the connection and the event list that it is given, or nothing.
unfoldable pub transition :
    ActiveConnection
    → ConnectionState
    → List ConnectionEvent
    → Result (Unit {0}) StateError × ActiveConnection × List ConnectionEvent
transition a next events = elim (transition_to a.state next) [
  | err e ↦ (err e, a, events)
  | ok current ↦ (
    ok tt,
    record a { state = current },
    events ++ (state_changed a.id a.profile.id a.state current ∷ []),
  )
]

-- Several calls of `transition` in a row, each with `?`.
unfoldable pub transitions :
    ActiveConnection
    → List ConnectionState
    → List ConnectionEvent
    → Result (Unit {0}) StateError × ActiveConnection × List ConnectionEvent
transitions a [] events = (ok tt, a, events)
transitions a (next ∷ path) events =
    let (r, a', events') = transition a next events in
    let rest = transitions a' path events' in elim r [ err e ↦ (err e, a', events') | ok _ ↦ rest ]

module _ {E : Type 0} (api : ActivationEngine E) (to_string : ActivationError → Str) where
  abbrev Reply : Type 0
  Reply = Result ActiveConnection ActivationError × ActivationManager E

  -- The end of `activate_matching`, where the engine returned `Ok(outcome)`.
  unfoldable pub conclude_up : ActivationManager E → ActiveConnection → ActivationOutcome → Reply
  conclude_up m a outcome =
      let (r, a', events) =
        transitions (record a { outcome = outcome }) (configuring ∷ activating ∷ activated ∷ [])
          m.events in
      elim r [
        | err e ↦ (err (state_error e), record m { events = events })
        | ok _ ↦ (
          ok a',
          record m {
            active = m.active ++ (a' ∷ []);
            events = events ++ (activated_event a'.id a'.profile.id ∷ []);
          },
        )
      ]

  -- The end of `activate_matching`, where the engine returned `Err(reason)`.
  unfoldable pub conclude_failed : ActivationManager E → ActiveConnection → ActivationError → Reply
  conclude_failed m a reason =
      let (r, a', events) = transition a failed m.events in
      elim r [
        | err e ↦ (err (state_error e), record m { events = events })
        | ok _ ↦ (
          err reason,
          record m {
            active = m.active ++ (a' ∷ []);
            events = events ++ (failed_event a'.id a'.profile.id (to_string reason) ∷ []);
          },
        )
      ]

  unfoldable pub activate_matching : ActivationManager E → ConnectionProfile → DeviceInfo → Reply
  unfolding conclude_up conclude_failed
  activate_matching m profile device =
      let a : ActiveConnection = record {
        id = m.next_id;
        profile = profile;
        device = device;
        state = preparing;
        outcome = no_outcome;
      } in
      let (r, engine') = api.bring_up m.engine profile device in
      let m' : ActivationManager E = record m {
        engine = engine';
        next_id = (m.next_id + 1) % 2 ^ 64;
        events = m.events ++ (state_changed m.next_id profile.id disconnected preparing ∷ []);
      } in
      elim r [ ok outcome ↦ conclude_up m' a outcome | err reason ↦ conclude_failed m' a reason ]

  -- The part of `deactivate` behind the engine's answer, for the connection in `Deactivating`.
  unfoldable pub conclude_down :
      ActivationManager E
      → ActiveConnection
      → Result (Unit {0}) ActivationError
      → Result (Unit {0}) ActivationError × ActivationManager E
  conclude_down m a (ok _) =
      let (r, a', events) = transition a disconnected m.events in
      elim r [
        | err e ↦ (err (state_error e), record m { events = events })
        | ok _ ↦ (
          ok tt,
          record m {
            active = remove_id a.id m.active;
            events = events ++ (deactivated_event a.id a.profile.id ∷ []);
          },
        )
      ]
  conclude_down m a (err reason) =
      let (r, a', events) = transition a failed m.events in
      elim r [
        | err e ↦ (err (state_error e), record m { events = events })
        | ok _ ↦ (
          err reason,
          record m {
            active = replace_id a.id a' m.active;
            events = events ++ (failed_event a.id a.profile.id (to_string reason) ∷ []);
          },
        )
      ]

  -- `deactivate` once the connection is found.
  unfoldable pub deactivate_found :
      ActivationManager E
      → ActiveConnection
      → Result (Unit {0}) ActivationError × ActivationManager E
  unfolding conclude_down
  deactivate_found m a =
      let (r, a', events) = transition a deactivating m.events in
      let (answer, engine') = api.bring_down m.engine a.profile in
      let going : ActivationManager E = record m {
        engine = engine';
        active = replace_id a.id a' m.active;
        events = events;
      } in
      let rest = conclude_down going a' answer in
      if not (is_activated a.state)
      then (err (invalid_state a.id a.state), m)
      else elim r [ err e ↦ (err (state_error e), record m { events = events }) | ok _ ↦ rest ]

  unfoldable pub deactivate :
      ActivationManager E → ℕ → Result (Unit {0}) ActivationError × ActivationManager E
  unfolding deactivate_found
  deactivate m active_id = elim (find_id active_id m.active) [
    | none ↦ (err (unknown_active_connection active_id), m)
    | some a ↦ deactivate_found m a
  ]

  module _ {S : Type 0} (storage : ProfileStore S) where
    -- `activate_profile` once the store has answered.
    unfoldable pub activate_stored :
        ActivationManager E → Str → DeviceInfo → Result ConnectionProfile StoreError → Reply
    activate_stored m profile_id device (err (not_found id)) =
        (err (profile_not_found profile_id), m)
    activate_stored m profile_id device (err other) = (err (store_error other), m)
    activate_stored m profile_id device (ok profile) =
        if not (matches profile device)
        then (err (device_incompatible profile_id device), m)
        else if is_active m profile_id
        then (err (already_active profile_id), m)
        else activate_matching m profile device

    unfoldable pub activate_profile : ActivationManager E → S → Str → DeviceInfo → Reply
    activate_profile m s profile_id device =
        activate_stored m profile_id device (storage.get_one s profile_id)

    -- The closure of `find_map` in `activate`.
    abbrev pub candidate :
        ActivationManager E
        → DeviceInfo
        → Result ConnectionProfile StoreError
        → Option ConnectionProfile
    candidate m device (ok profile) =
        if matches profile device && not (is_active m profile.id) then some profile else none
    candidate m device (err e) = none

    unfoldable pub activate_best :
        ActivationManager E → DeviceInfo → Option ConnectionProfile → Reply
    activate_best m device (some profile) = activate_matching m profile device
    activate_best m device none = (err (no_suitable_profile device), m)

    unfoldable pub activate : ActivationManager E → S → DeviceInfo → Reply
    activate m s device = elim (storage.list_all s) [
      | err e ↦ (err (store_error e), m)
      | ok profiles ↦ activate_best m device (
          find_map (λ id. candidate m device (storage.get_one s id))
            (order_for_autoconnect profiles))
    ]
