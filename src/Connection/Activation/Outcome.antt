-- ===== src/Connection/Activation/Outcome.antt =====
-- What each operation of the manager leaves behind, whatever the engine answers.
use network_manager_rs.Common.{
  ℕ, ◌+◌, ◌%◌, ◌^◌, ◌≡◌, refl, ◌⊎◌, inl, inr, false, List, [], ◌∷◌, ◌++◌, Str, Result, ok, err,
  arith, Option, Option-cases, ap, ◌∙◌, false, if◌then◌else◌, append_assoc, find_map, some, none,
}
use network_manager_rs.Connection.State.{
  ConnectionState, disconnected, preparing, configuring, activating, activated, deactivating,
  failed, ConnectionEvent, state_changed, activated_event, deactivated_event, failed_event,
  transition_to, can_transition_to, is_activated,
}
use network_manager_rs.Connection.Ip.{ActivationOutcome, no_outcome}
use network_manager_rs.Connection.Profile.{ConnectionProfile, DeviceInfo}
use network_manager_rs.Connection.Activation.Table.{
  ActiveConnection, find_id, replace_id, remove_id, remove-replace, replace-replace,
}
use network_manager_rs.Connection.Activation.{
  ActivationError, unknown_active_connection, invalid_state, ActivationEngine, ActivationManager,
  transition, transitions, activate_matching, conclude_down, deactivate_found, deactivate,
  store_error, candidate, activate_best, activate,
}
use network_manager_rs.Connection.Policy.{order_for_autoconnect}
use network_manager_rs.Connection.Store.{ProfileStore, StoreError}

-- The connection that an attempt leaves in the table.
abbrev pub entry :
    {E : Type 0}
    → ActivationManager E
    → ConnectionProfile
    → DeviceInfo
    → ConnectionState
    → ActivationOutcome
    → ActiveConnection
entry m p d s o = record { id = m.next_id; profile = p; device = d; state = s; outcome = o }

abbrev pub up_events : ℕ → Str → List ConnectionEvent
up_events id name =
    state_changed id name disconnected preparing
    ∷ state_changed id name preparing configuring
    ∷ state_changed id name configuring activating
    ∷ state_changed id name activating activated
    ∷ activated_event id name
    ∷ []

abbrev pub failed_events : ℕ → Str → Str → List ConnectionEvent
failed_events id name reason =
    state_changed id name disconnected preparing
    ∷ state_changed id name preparing failed
    ∷ failed_event id name reason
    ∷ []

-- The manager after an attempt: one more connection, one more id used, the attempt's events.
abbrev pub attempted :
    {E : Type 0}
    → ActivationManager E
    → E
    → ActiveConnection
    → List ConnectionEvent
    → ActivationManager E
attempted m engine a events = record {
  engine = engine;
  next_id = (m.next_id + 1) % 2 ^ 64;
  active = m.active ++ (a ∷ []);
  events = m.events ++ events;
}

-- The events of a teardown that ends in the state `s`.
abbrev pub down_events : ActiveConnection → ConnectionState → ConnectionEvent → List ConnectionEvent
down_events a s last =
    state_changed a.id a.profile.id activated deactivating
    ∷ state_changed a.id a.profile.id deactivating s
    ∷ last
    ∷ []

transition_down :
    (a : ActiveConnection) (events : List ConnectionEvent)
    → a.state ≡ activated
    → transition a deactivating events ≡ (
      ok tt,
      record a { state = deactivating },
      events ++ (state_changed a.id a.profile.id activated deactivating ∷ []),
    )
unfolding transition transition_to can_transition_to
transition_down a events s = ground arith

module _ {E : Type 0} (api : ActivationEngine E) (to_string : ActivationError → Str) where
  pub activate_matching_ok :
      (m : ActivationManager E) (p : ConnectionProfile) (d : DeviceInfo) (o : ActivationOutcome)
      (engine : E)
      → api.bring_up m.engine p d ≡ (ok o, engine)
      → activate_matching api to_string m p d ≡ (
        ok (entry m p d activated o),
        attempted m engine (entry m p d activated o) (up_events m.next_id p.id),
      )
  unfolding activate_matching transitions transition transition_to can_transition_to
  activate_matching_ok m p d o engine h = rw (h, activate_matching) (simp (append_assoc, h))

  pub activate_matching_err :
      (m : ActivationManager E) (p : ConnectionProfile) (d : DeviceInfo) (e : ActivationError)
      (engine : E)
      → api.bring_up m.engine p d ≡ (err e, engine)
      → activate_matching api to_string m p d ≡ (
        err e,
        attempted m engine
            (entry m p d failed no_outcome)
            (failed_events m.next_id p.id (to_string e)),
      )
  unfolding activate_matching transition transition_to can_transition_to
  activate_matching_err m p d e engine h = rw (h, activate_matching) (simp (append_assoc, h))

  conclude_down_ok :
      (m : ActivationManager E) (a : ActiveConnection)
      → conclude_down api to_string m (record a { state = deactivating }) (ok tt) ≡ (
        ok tt,
        record m {
          active = remove_id a.id m.active;
          events =
              m.events
              ++ (state_changed a.id a.profile.id deactivating disconnected
                  ∷ deactivated_event a.id a.profile.id
                  ∷ []);
        },
      )
  unfolding conclude_down transition transition_to can_transition_to
  conclude_down_ok m a = simp append_assoc

  conclude_down_err :
      (m : ActivationManager E) (a : ActiveConnection) (e : ActivationError)
      → conclude_down api to_string m (record a { state = deactivating }) (err e) ≡ (
        err e,
        record m {
          active = replace_id a.id (record a { state = failed }) m.active;
          events =
              m.events
              ++ (state_changed a.id a.profile.id deactivating failed
                  ∷ failed_event a.id a.profile.id (to_string e)
                  ∷ []);
        },
      )
  unfolding conclude_down transition transition_to can_transition_to
  conclude_down_err m a e = simp append_assoc

  pub deactivate_ok :
      (m : ActivationManager E) (a : ActiveConnection) (id : ℕ) (engine : E)
      → find_id id m.active ≡ some a
      → a.state ≡ activated
      → api.bring_down m.engine a.profile ≡ (ok tt, engine)
      → deactivate api to_string m id ≡ (
        ok tt,
        record {
          engine = engine;
          next_id = m.next_id;
          active = remove_id a.id (replace_id a.id (record a { state = deactivating }) m.active);
          events = m.events ++ down_events a disconnected (deactivated_event a.id a.profile.id);
        },
      )
  unfolding deactivate
  deactivate_ok m a id engine f s h =
      rw (f, deactivate)
        (rw (transition_down a m.events s, deactivate_found)
          (simp (s, h, transition_down a m.events s, conclude_down_ok, append_assoc)))

  pub deactivate_err :
      (m : ActivationManager E) (a : ActiveConnection) (id : ℕ) (e : ActivationError) (engine : E)
      → find_id id m.active ≡ some a
      → a.state ≡ activated
      → api.bring_down m.engine a.profile ≡ (err e, engine)
      → deactivate api to_string m id ≡ (
        err e,
        record {
          engine = engine;
          next_id = m.next_id;
          active =
              replace_id a.id
                (record a { state = failed })
                (replace_id a.id (record a { state = deactivating }) m.active);
          events = m.events ++ down_events a failed (failed_event a.id a.profile.id (to_string e));
        },
      )
  unfolding deactivate
  deactivate_err m a id e engine f s h =
      rw (f, deactivate)
        (rw (transition_down a m.events s, deactivate_found)
          (simp (s, h, transition_down a m.events s, conclude_down_err, append_assoc)))

  pub deactivate_missing :
      (m : ActivationManager E) (id : ℕ)
      → find_id id m.active ≡ none
      → deactivate api to_string m id ≡ (err (unknown_active_connection id), m)
  unfolding deactivate
  deactivate_missing m id f = rw (f, deactivate)

  pub deactivate_refused :
      (m : ActivationManager E) (a : ActiveConnection) (id : ℕ)
      → find_id id m.active ≡ some a
      → is_activated a.state ≡ false
      → deactivate api to_string m id ≡ (err (invalid_state a.id a.state), m)
  unfolding deactivate
  deactivate_refused m a id f s = rw (f, deactivate) (rw (s, deactivate_found))

  -- What an attempt leaves behind, from the engine's answer.
  abbrev pub attempt_answer :
      ActivationManager E
      → ConnectionProfile
      → DeviceInfo
      → Result ActivationOutcome ActivationError × E
      → Result ActiveConnection ActivationError × ActivationManager E
  attempt_answer m p d (ok o, engine) = (
    ok (entry m p d activated o),
    attempted m engine (entry m p d activated o) (up_events m.next_id p.id),
  )
  attempt_answer m p d (err e, engine) = (
    err e,
    attempted m engine (entry m p d failed no_outcome) (failed_events m.next_id p.id (to_string e)),
  )

  -- Whatever the engine answers, an attempt to activate a profile uses up one id and tracks one more
  -- connection under it. After a success that connection is `Activated` with the engine's outcome, is
  -- the answer, and the events report its four transitions and `Activated`. After a failure it is
  -- `Failed`, the engine's error is the answer, and the events report `Preparing`, `Failed` and the
  -- error's text.
  pub activate_matching_lem :
      (m : ActivationManager E) (p : ConnectionProfile) (d : DeviceInfo)
      → activate_matching api to_string m p d ≡ attempt_answer m p d (api.bring_up m.engine p d)
  activate_matching_lem m p d = answer_cases (api.bring_up m.engine p d) refl
    where
      answer_cases :
          (r : Result ActivationOutcome ActivationError × E)
          → api.bring_up m.engine p d ≡ r
          → activate_matching api to_string m p d ≡ attempt_answer m p d r
      answer_cases (ok o, engine) h = activate_matching_ok m p d o engine h
      answer_cases (err e, engine) h = activate_matching_err m p d e engine h

  -- What a deactivation of the connection `a` leaves behind, from the engine's answer.
  abbrev pub teardown_answer :
      ActivationManager E
      → ActiveConnection
      → Result (Unit {0}) ActivationError × E
      → Result (Unit {0}) ActivationError × ActivationManager E
  teardown_answer m a (ok _, engine) = (
    ok tt,
    record {
      engine = engine;
      next_id = m.next_id;
      active = remove_id a.id m.active;
      events = m.events ++ down_events a disconnected (deactivated_event a.id a.profile.id);
    },
  )
  teardown_answer m a (err e, engine) = (
    err e,
    record {
      engine = engine;
      next_id = m.next_id;
      active = replace_id a.id (record a { state = failed }) m.active;
      events = m.events ++ down_events a failed (failed_event a.id a.profile.id (to_string e));
    },
  )

  -- A deactivation, from the connection that stands under the id.
  abbrev pub deactivate_answer :
      ActivationManager E
      → ℕ
      → Option ActiveConnection
      → Result (Unit {0}) ActivationError × ActivationManager E
  deactivate_answer m id none = (err (unknown_active_connection id), m)
  deactivate_answer m id (some a) =
      if is_activated a.state
      then teardown_answer m a (api.bring_down m.engine a.profile)
      else (err (invalid_state a.id a.state), m)

  state_cases : (s : ConnectionState) → (s ≡ activated) ⊎ (is_activated s ≡ false)
  state_cases s = ground arith

  teardown :
      (m : ActivationManager E) (id : ℕ) (a : ActiveConnection)
      → find_id id m.active ≡ some a
      → a.state ≡ activated
      → (r : Result (Unit {0}) ActivationError × E) → api.bring_down m.engine a.profile ≡ r
      → deactivate api to_string m id ≡ teardown_answer m a r
  teardown m id a f s (ok _, engine) h =
      deactivate_ok m a id engine f s h
      ∙ ap
          (λ xs. (
            ok tt,
            record {
              engine = engine;
              next_id = m.next_id;
              active = xs;
              events = m.events ++ down_events a disconnected (deactivated_event a.id a.profile.id);
            },
          ))
          (remove-replace a.id _ m.active refl)
  teardown m id a f s (err e, engine) h =
      deactivate_err m a id e engine f s h
      ∙ ap
          (λ xs. (
            err e,
            record {
              engine = engine;
              next_id = m.next_id;
              active = xs;
              events =
                  m.events ++ down_events a failed (failed_event a.id a.profile.id (to_string e));
            },
          ))
          (replace-replace a.id _ _ m.active refl)

  -- Whatever the engine answers, a deactivation of an id that no connection has is refused with
  -- `UnknownActiveConnection`, one of a connection that is not `Activated` with `InvalidState`, and
  -- both leave the manager as it was; any other drops the connection where the engine succeeds, marks
  -- it `Failed` and reports the engine's error where the engine fails, and appends the events of the
  -- two transitions and of the end.
  pub deactivate_lem :
      (m : ActivationManager E) (id : ℕ)
      → deactivate api to_string m id ≡ deactivate_answer m id (find_id id m.active)
  deactivate_lem m id = elim (Option-cases (find_id id m.active)) [
    | inl e ↦ rw e (deactivate_missing m id e)
    | inr (a, e) ↦ elim (state_cases a.state) [
      | inl s ↦ rw (e, s) (teardown m id a e s (api.bring_down m.engine a.profile) refl)
      | inr s ↦ rw (e, s) (deactivate_refused m a id e s)
    ]
  ]

  module _ {S : Type 0} (storage : ProfileStore S) where
    pub activate_unlisted :
        (m : ActivationManager E) (s : S) (d : DeviceInfo) (e : StoreError)
        → storage.list_all s ≡ err e
        → activate api to_string storage m s d ≡ (err (store_error e), m)
    unfolding activate
    activate_unlisted m s d e h = rw (h, activate)

    pub activate_listed :
        (m : ActivationManager E) (s : S) (d : DeviceInfo) (ps : List ConnectionProfile)
        → storage.list_all s ≡ ok ps
        → activate api to_string storage m s d
          ≡ activate_best api to_string storage m d (
              find_map
                (λ id. candidate api to_string storage m d (storage.get_one s id))
                (order_for_autoconnect ps))
    unfolding activate
    activate_listed m s d ps h = rw (h, activate)
