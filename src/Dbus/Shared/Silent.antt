-- ===== src/Dbus/Shared/Silent.antt =====
-- src/dbus/shared.rs: what the mirror tells the bus of a connection that the manager no longer tracks.
use network_manager_rs.Common.{
  ◌≡◌, refl, ◌∙◌, false, none, some, List, [], ◌∷◌, Result, ok, err, Str, All, find, ◌==◌, ◌<◌,
  Bool-cases, inl, inr, arith, ap, sym,
}
use network_manager_rs.Connection.State.{
  activated, deactivating, disconnected, ConnectionEvent, state_changed, activated_event,
  deactivated_event, failed_event,
}
use network_manager_rs.Connection.Activation.{
  ActivationEngine, ActivationError, ActivationManager, deactivate, drain_events,
}
use network_manager_rs.Connection.Activation.Table.{
  ActiveConnection, find_id, remove_id, remove-replace,
}
use network_manager_rs.Connection.Activation.Outcome.{deactivate_ok, down_events}
use network_manager_rs.Connection.Activation.Invariant.{Apart, IsLater}
use network_manager_rs.Dbus.Error.{FacadeError}
use network_manager_rs.Dbus.Device.{DeviceView}
use network_manager_rs.Dbus.Shared.{
  Signal, Mirror, MirrorStep, nothing_sent, emit, emit_answer, after_step, ◌then_step◌,
  emit_root_state_if_changed, unregister_active_connection, mirror_event, mirror_events,
  emit_connection_events, known_after, current_nm_state, active_removed, root_state_changed,
}

-- The step leaves the device states that were last emitted as they are.
abbrev Keeps : MirrorStep → Type 0
Keeps step = (m : Mirror) → (step m).1.device_states ≡ m.device_states

Keeps-then_step : (a b : MirrorStep) → Keeps a → Keeps b → Keeps (a then_step b)
Keeps-then_step a b ha hb m = after (a m) refl
  where
    after :
        (r : Result (Unit {0}) FacadeError × Mirror)
        → a m ≡ r
        → (after_step b r).1.device_states ≡ m.device_states
    after (ok x, m') e = hb m' ∙ (ap (λ r. r.1.device_states) (sym e) ∙ ha m)
    after (err x, m') e = ap (λ r. r.1.device_states) (sym e) ∙ ha m

abbrev IsUntracked : List ActiveConnection → ConnectionEvent → Type 0
IsUntracked active (state_changed id profile previous current) =
    find (λ a. a.id == id) active ≡ none
IsUntracked active (activated_event id profile) = Unit
IsUntracked active (deactivated_event id profile) = Unit
IsUntracked active (failed_event id profile reason) = Unit

module _ (send : Signal → Result (Unit {0}) FacadeError) where
  Keeps-emit : (signal : Signal) → Keeps (emit send signal)
  Keeps-emit signal m = answer (send signal)
    where
      answer :
          (r : Result (Unit {0}) FacadeError)
          → (emit_answer send signal r m).1.device_states ≡ m.device_states
      answer (ok x) = refl
      answer (err e) = refl

  Keeps-root : (active : List ActiveConnection) → Keeps (emit_root_state_if_changed send active)
  unfolding emit_root_state_if_changed
  Keeps-root active m = elim (Bool-cases (current_nm_state active == m.root_state)) [
    | inl e ↦ rw (e, emit_root_state_if_changed) refl
    | inr e ↦
        rw (e, emit_root_state_if_changed)
          (Keeps-emit (root_state_changed (current_nm_state active))
            (record m { root_state = current_nm_state active }))
  ]

  module _ (active : List ActiveConnection) (devices : Result (List DeviceView) FacadeError) where
    Keeps-mirror_event :
        (e : ConnectionEvent) → IsUntracked active e → Keeps (mirror_event send active devices [] e)
    unfolding mirror_event unregister_active_connection
    Keeps-mirror_event (state_changed id profile previous current) h =
        rw (h, mirror_event) (Keeps-then_step _ nothing_sent (Keeps-emit _) (λ m. refl))
    Keeps-mirror_event (activated_event id profile) h = λ m. refl
    Keeps-mirror_event (deactivated_event id profile) h =
        Keeps-then_step
          (unregister_active_connection send id then_step emit send (active_removed id))
          nothing_sent
          (Keeps-then_step (unregister_active_connection send id) (emit send (active_removed id))
            (λ m. refl) (Keeps-emit (active_removed id)))
          (λ m. refl)
    Keeps-mirror_event (failed_event id profile reason) h = λ m. refl

    known-untracked :
        (e : ConnectionEvent) → IsUntracked active e → known_after send active devices [] e ≡ []
    known-untracked (state_changed id profile previous current) h = rw h refl
    known-untracked (activated_event id profile) h = refl
    known-untracked (deactivated_event id profile) h = refl
    known-untracked (failed_event id profile reason) h = refl

    Keeps-mirror_events :
        (es : List ConnectionEvent)
        → All (IsUntracked active) es
        → Keeps (mirror_events send active devices [] es)
    unfolding mirror_events
    Keeps-mirror_events [] h = Keeps-root active
    Keeps-mirror_events (e ∷ rest) h =
        Keeps-then_step (mirror_event send active devices [] e)
          (mirror_events send active devices (known_after send active devices [] e) rest)
          (Keeps-mirror_event e h.0) (rw (known-untracked e h.0) (Keeps-mirror_events rest h.1))

later_untracked :
    (a : ActiveConnection) (xs : List ActiveConnection)
    → All (IsLater a) xs
    → find (λ x. x.id == a.id) xs ≡ none
later_untracked a [] h = refl
later_untracked a (x ∷ xs) h = rw (differs x h.0.0) (later_untracked a xs h.1)
  where
    differs : (x : ActiveConnection) → a.id < x.id → (x.id == a.id) ≡ false
    differs x l = ground arith

removed_untracked :
    (a : ActiveConnection) (xs : List ActiveConnection)
    → Apart xs
    → find_id a.id xs ≡ some a
    → find (λ x. x.id == a.id) (remove_id a.id xs) ≡ none
unfolding find_id remove_id
removed_untracked a [] h f = refl
removed_untracked a (x ∷ xs) h f = elim (Bool-cases (x.id == a.id)) [
  | inl e ↦
      let first : find_id a.id (x ∷ xs) ≡ some x = rw (e, find_id) refl in
      let same : x ≡ a = cc (first, f) in
      rw (e, remove_id) (rw (sym (ap (λ b. b.id) same)) (later_untracked x xs h.0))
  | inr e ↦
      let skipped : find_id a.id (x ∷ xs) ≡ find_id a.id xs = rw (e, find_id) refl in
      rw (e, remove_id) (rw e (removed_untracked a xs h.1 (sym skipped ∙ f)))
]

-- A deactivation that succeeds, on a manager whose events were drained before, is mirrored without any
-- change to the state that the bus was last told of a device: the manager no longer tracks the connection
-- when its events are mirrored, so its device is not found.
pub deactivate-emit_connection_events :
    {E : Type 0} (api : ActivationEngine E) (to_string : ActivationError → Str)
    (send : Signal → Result (Unit {0}) FacadeError) (devices : Result (List DeviceView) FacadeError)
    (m : ActivationManager E) (a : ActiveConnection) (engine : E) (mirror : Mirror)
    → Apart m.active
    → m.events ≡ []
    → find_id a.id m.active ≡ some a
    → a.state ≡ activated
    → api.bring_down m.engine a.profile ≡ (ok tt, engine)
    → (emit_connection_events send devices
        (deactivate api to_string m a.id).1
        mirror).1.device_states
      ≡ mirror.device_states
unfolding emit_connection_events drain_events
deactivate-emit_connection_events api to_string send devices m a engine mirror h d f s r =
    let gone = removed_untracked a m.active h f in
    rw
      (
        deactivate_ok api to_string m a a.id engine f s r,
        d,
        remove-replace a.id (record a { state = deactivating }) m.active refl,
      )
      (Keeps-mirror_events send (remove_id a.id m.active) devices
        (down_events a disconnected (deactivated_event a.id a.profile.id)) (gone, (gone, (tt, tt)))
        mirror)
