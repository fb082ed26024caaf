-- ===== src/Connection/Tests/Data.antt =====
-- A profile, a device, an engine with scripted answers and a history of calls.
use network_manager_rs.Common.{Bool, true, false, none, List, [], ◌∷◌, Str, str, ok, err}
use network_manager_rs.Connection.Ip.{no_outcome}
use network_manager_rs.Connection.Profile.{ConnectionProfile, DeviceInfo, wifi, wifi_type, agent}
use network_manager_rs.Connection.Profile.Build.{psk, with_defaults, wifi_settings}
use network_manager_rs.Connection.Store.{InMemoryProfileStore, new_store}
use network_manager_rs.Connection.Store.Refines.{creates, calls}
use network_manager_rs.Connection.Store.Invariant.{IsStore, new_store-IsStore}
use network_manager_rs.Connection.Store.Refines.{calls-IsStore}
use network_manager_rs.Connection.Activation.{ActivationError, engine_error, ActivationEngine}
use network_manager_rs.Connection.Activation.Moves.{
  Op, activates, activates_profile, deactivates, drains,
}

abbrev pub home : ConnectionProfile
home =
    with_defaults (str "home") (str "Home")
      (wifi_type (wifi_settings (str "net") (psk (agent (str "pass")))))

abbrev pub laptop : DeviceInfo
laptop = record { kind = wifi; interface_name = str "wlan0"; mac_address = none }

-- An engine that succeeds as long as its script says so.
abbrev pub scripted : ActivationEngine (List Bool)
scripted = record {
  bring_up = λ script p d. elim script [
    | [] ↦ (err (engine_error (str "no link")), [])
    | ◌∷◌ b rest ↦
        (elim b [ true ↦ ok no_outcome | false ↦ err (engine_error (str "no link")) ], rest)
  ];
  bring_down = λ script p. elim script [
    | [] ↦ (err (engine_error (str "no link")), [])
    | ◌∷◌ b rest ↦ (elim b [ true ↦ ok tt | false ↦ err (engine_error (str "no link")) ], rest)
  ];
}

abbrev pub text_of : ActivationError → Str
text_of e = str "failed"

abbrev pub filled : InMemoryProfileStore
filled = (calls new_store (creates home ∷ [])).1

pub filled-IsStore : IsStore filled
filled-IsStore = calls-IsStore new_store (creates home ∷ []) new_store-IsStore

abbrev pub day : List (Op InMemoryProfileStore)
day =
    activates filled laptop
    ∷ deactivates 1
    ∷ activates_profile filled (str "home") laptop
    ∷ drains
    ∷ []
