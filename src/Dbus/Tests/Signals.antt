-- ===== src/Dbus/Tests/Signals.antt =====
-- A deactivation seen from the bus, and a caller that polkit knows.
use network_manager_rs.Common.{
  ℕ, suc, ◌≡◌, ◌↔◌, refl, Bool, true, none, some, List, [], ◌∷◌, Str, str, Result, ok, str_eq,
}
use network_manager_rs.Common.Int.{pos}
use network_manager_rs.Connection.State.{activated}
use network_manager_rs.Connection.Ip.{no_outcome}
use network_manager_rs.Connection.Activation.{ActivationManager, deactivate}
use network_manager_rs.Connection.Activation.Table.{ActiveConnection, find_id}
use network_manager_rs.Connection.Tests.Data.{home, laptop, scripted, text_of}
use network_manager_rs.Authorization.{polkit, action_network_control}
use network_manager_rs.Dbus.Error.{FacadeError}
use network_manager_rs.Dbus.Device.{DeviceView, wifi_device}
use network_manager_rs.Dbus.Permission.{authorize, authorize-polkit}
use network_manager_rs.Dbus.Shared.{Signal, Mirror, emit_connection_events}
use network_manager_rs.Dbus.Shared.Silent.{deactivate-emit_connection_events}

abbrev live : ActiveConnection
live = record { id = 1; profile = home; device = laptop; state = activated; outcome = no_outcome }

abbrev online : ActivationManager (List Bool)
online = record { engine = true ∷ []; next_id = 2; active = live ∷ []; events = [] }

abbrev sent_out : Signal → Result (Unit {0}) FacadeError
sent_out signal = ok tt

abbrev shown : Result (List DeviceView) FacadeError
shown = ok (
    record { index = pos 3; interface = str "wlan0"; kind = wifi_device; mac = none; up = true }
    ∷ [])

abbrev on_bus : Mirror
on_bus = record {
  device_states = (pos 3, 100) ∷ [];
  root_state = 70;
  active_connections = 1 ∷ [];
  sent = [];
}

deactivate-emit_connection_events_example :
    (emit_connection_events sent_out shown
      (deactivate scripted text_of online 1).1
      on_bus).1.device_states
    ≡ on_bus.device_states
unfolding find_id
deactivate-emit_connection_events_example =
    deactivate-emit_connection_events scripted text_of sent_out shown online live [] on_bus (tt, tt)
      refl refl refl refl

-- An authority that grants everything to one bus name, and counts its calls.
abbrev grants : ℕ → Str → Str → Result Bool Str × ℕ
grants n name action = (ok (str_eq name (str ":1.7")), suc n)

authorize-polkit_example :
    ((authorize (polkit grants) 0 (some (str ":1.7")) action_network_control).0 ≡ ok tt) ↔ (
      (name : Str) × (some (str ":1.7") ≡ some name)
      × ((grants 0 name action_network_control).0 ≡ ok true))
authorize-polkit_example = authorize-polkit grants 0 (some (str ":1.7")) action_network_control
