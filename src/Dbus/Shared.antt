-- ===== src/Dbus/Shared.antt =====
-- src/dbus/shared.rs: the signals with which the facade mirrors the events of the activation manager.
pub mod Silent
use network_manager_rs.Common.{
  ℕ, Bool, true, false, Option, none, some, List, [], ◌∷◌, ◌++◌, Result, ok, err, Str, find, ◌==◌,
  if◌then◌else◌,
}
use network_manager_rs.Common.Int.{ℤ}
use network_manager_rs.Connection.State.{
  ConnectionState, ConnectionEvent, state_changed, activated_event, deactivated_event, failed_event,
}
use network_manager_rs.Connection.Activation.{ActivationManager, drain_events}
use network_manager_rs.Connection.Activation.Table.{ActiveConnection}
use network_manager_rs.Dbus.Error.{FacadeError}
use network_manager_rs.Dbus.Device.{
  DeviceView, eq_ℤ, connection_to_device_state, nm_state, device_index_by_name,
}

-- A signal on the bus: `StateChanged` of an active connection (its id, the new and the old state), the
-- same of a device, its `PropertiesChanged`, and two signals of the root object.
pub data Signal : Type 0 where
  active_state_changed : ℕ → ℕ → ℕ → Signal
  device_state_changed : ℤ → ℕ → ℕ → Signal
  device_properties_changed : ℤ → ℕ → Signal
  active_removed : ℕ → Signal
  root_state_changed : ℕ → Signal

-- The registries of `Shared` that the mirror reads and writes, with the signals that were sent.
pub record Mirror : Type 0 where
  pub device_states : List (ℤ × ℕ)
  pub root_state : ℕ
  pub active_connections : List ℕ
  pub sent : List Signal

abbrev pub state_for : ℤ → List (ℤ × ℕ) → Option ℕ
state_for index [] = none
state_for index ((i, state) ∷ rest) = if eq_ℤ i index then some state else state_for index rest

abbrev pub known_state : Option ℕ → ℕ
known_state none = 0
known_state (some state) = state

-- `device_states.insert`.
abbrev pub set_state : ℤ → ℕ → List (ℤ × ℕ) → List (ℤ × ℕ)
set_state index state [] = (index, state) ∷ []
set_state index state ((i, s) ∷ rest) =
    let later = set_state index state rest in
    if eq_ℤ i index then (i, state) ∷ rest else (i, s) ∷ later

abbrev pub unregister : ℕ → List ℕ → List ℕ
unregister id [] = []
unregister id (i ∷ rest) = let later = unregister id rest in if i == id then later else i ∷ later

-- A step over the mirror: an error ends the steps after it.
abbrev pub MirrorStep : Type 0
MirrorStep = Mirror → Result (Unit {0}) FacadeError × Mirror

abbrev pub nothing_sent : MirrorStep
nothing_sent m = (ok tt, m)

abbrev pub after_step :
    MirrorStep → Result (Unit {0}) FacadeError × Mirror → Result (Unit {0}) FacadeError × Mirror
after_step next (ok _, m) = next m
after_step next (err e, m) = (err e, m)

infixl 5 ◌then_step◌
abbrev pub ◌then_step◌ : MirrorStep → MirrorStep → MirrorStep
first then_step next = λ m. after_step next (first m)

-- The devices registered in this drain, by active connection.
abbrev pub DeviceByActive : Type 0
DeviceByActive = List (ℕ × ℤ)

abbrev pub device_of : ℕ → DeviceByActive → Option ℤ
device_of id [] = none
device_of id ((i, index) ∷ rest) = if i == id then some index else device_of id rest

abbrev pub forget_device : ℕ → DeviceByActive → DeviceByActive
forget_device id [] = []
forget_device id ((i, index) ∷ rest) =
    let later = forget_device id rest in if i == id then later else (i, index) ∷ later

-- `current_nm_state` of src/dbus/root.rs.
abbrev pub current_nm_state : List ActiveConnection → ℕ
current_nm_state [] = 20
current_nm_state (a ∷ rest) = 70

-- `send` is the bus: what the emission of a signal answers.
module _ (send : Signal → Result (Unit {0}) FacadeError) where
  abbrev pub emit_answer : Signal → Result (Unit {0}) FacadeError → MirrorStep
  emit_answer signal (ok _) m = (ok tt, record m { sent = m.sent ++ (signal ∷ []) })
  emit_answer signal (err e) m = (err e, m)

  abbrev pub emit : Signal → MirrorStep
  emit signal = emit_answer signal (send signal)

  abbrev pub track_device : ℤ → ℕ → MirrorStep
  track_device index state m =
      (ok tt, record m { device_states = set_state index state m.device_states })

  unfoldable pub emit_device_state : ℤ → ℕ → MirrorStep
  emit_device_state index new_state m =
      let previous = known_state (state_for index m.device_states) in
      if previous == new_state
      then (ok tt, m)
      else ((track_device index new_state
              then_step emit (device_state_changed index new_state previous))
            then_step emit (device_properties_changed index new_state))
          m

  abbrev pub track_root : ℕ → MirrorStep
  track_root state m = (ok tt, record m { root_state = state })

  unfoldable pub emit_root_state_if_changed : List ActiveConnection → MirrorStep
  emit_root_state_if_changed active m =
      let new_state = current_nm_state active in
      if new_state == m.root_state
      then (ok tt, m)
      else (track_root new_state then_step emit (root_state_changed new_state)) m

  unfoldable pub unregister_active_connection : ℕ → MirrorStep
  unregister_active_connection id m =
      (ok tt, record m { active_connections = unregister id m.active_connections })

  -- The manager's connections and the facade's devices while the events are mirrored.
  module _ (active : List ActiveConnection) (devices : Result (List DeviceView) FacadeError) where
    abbrev pub index_of_active : Option ActiveConnection → Option ℤ
    index_of_active none = none
    index_of_active (some a) = device_index_by_name a.device.interface_name devices

    abbrev pub active_index : ℕ → Option ℤ
    active_index id = index_of_active (find (λ a. a.id == id) active)

    abbrev pub mirror_device : ConnectionState → Option ℤ → MirrorStep
    mirror_device current none = nothing_sent
    mirror_device current (some index) =
        emit_device_state index (connection_to_device_state current)

    abbrev pub disconnect_device : Option ℤ → MirrorStep
    disconnect_device none = nothing_sent
    disconnect_device (some index) = emit_device_state index 30

    abbrev pub note_device : ℕ → Option ℤ → DeviceByActive → DeviceByActive
    note_device id none known = known
    note_device id (some index) known = (id, index) ∷ forget_device id known

    unfoldable pub mirror_event : DeviceByActive → ConnectionEvent → MirrorStep
    mirror_event known (state_changed id profile previous current) =
        emit (active_state_changed id (nm_state current) (nm_state previous))
        then_step mirror_device current (active_index id)
    mirror_event known (activated_event id profile) = nothing_sent
    mirror_event known (deactivated_event id profile) =
        (unregister_active_connection id then_step emit (active_removed id))
        then_step disconnect_device (device_of id known)
    mirror_event known (failed_event id profile reason) = nothing_sent

    abbrev pub known_after : DeviceByActive → ConnectionEvent → DeviceByActive
    known_after known (state_changed id profile previous current) =
        note_device id (active_index id) known
    known_after known (deactivated_event id profile) = forget_device id known
    known_after known (activated_event id profile) = known
    known_after known (failed_event id profile reason) = known

    unfoldable pub mirror_events : DeviceByActive → List ConnectionEvent → MirrorStep
    mirror_events known [] = emit_root_state_if_changed active
    mirror_events known (e ∷ rest) =
        mirror_event known e then_step mirror_events (known_after known e) rest

  -- `emit_connection_events`: the pending events of the manager are drained, then mirrored.
  unfoldable pub emit_connection_events :
      {E : Type 0}
      → Result (List DeviceView) FacadeError
      → ActivationManager E
      → Mirror
      → Result (Unit {0}) FacadeError × Mirror × ActivationManager E
  emit_connection_events devices m mirror =
      let (events, m') = drain_events m in
      let (r, mirror') = mirror_events m'.active devices [] events mirror in (r, mirror', m')
