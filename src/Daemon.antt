-- ===== src/Daemon.antt =====
-- src/daemon.rs: the daemon, a profile store beside the activation manager over it.
pub mod Calls
pub mod Stores
mod Tests
use network_manager_rs.Common.{ℕ, List, [], ◌∷◌, map, Str, Result, ok, err, ◌>>=◌}
use network_manager_rs.Connection.State.{ConnectionEvent}
use network_manager_rs.Connection.Profile.{ConnectionProfile, DeviceInfo, wifi}
use network_manager_rs.Connection.Store.{ProfileStore, StoreError}
use network_manager_rs.Connection.Activation.{
  ActivationError, ActivationEngine, ActivationManager, new_manager, drain_events,
}
use network_manager_rs.Connection.Activation
use network_manager_rs.Connection.Activation.Table.{ActiveConnection}
use network_manager_rs.Linux.Model.{NetlinkError, Link, Address, Route}
use network_manager_rs.Linux.Model.Wireless.{WirelessInterface, AccessPoint}

-- `trait NetworkBackend`: what the backend answers while a call runs. The sources of events are left out.
pub record NetworkBackend (B : Type 0) : Type 0 where
  pub links : B → Result (List Link) NetlinkError
  pub addresses : B → Result (List Address) NetlinkError
  pub routes : B → Result (List Route) NetlinkError
  pub wifi_interfaces : B → Result (List WirelessInterface) NetlinkError
  pub access_points : B → Result (List AccessPoint) NetlinkError
  pub scan_wifi : B → Result (List AccessPoint) NetlinkError

pub record Daemon (B S E : Type 0) : Type 0 where
  pub backend : B
  pub profiles : S
  pub activation : ActivationManager E

unfoldable pub with_components : {B S E : Type 0} → B → S → E → Daemon B S E
with_components backend store engine = record {
  backend = backend;
  profiles = store;
  activation = new_manager engine;
}

abbrev pub device_from : WirelessInterface → DeviceInfo
device_from w = record { kind = wifi; interface_name = w.name; mac_address = w.mac }

-- `Daemon::devices`.
unfoldable pub daemon_devices :
    {B S E : Type 0} → NetworkBackend B → Daemon B S E → Result (List DeviceInfo) NetlinkError
daemon_devices network d = do
  interfaces ← network.wifi_interfaces d.backend
  ok (map device_from interfaces)

unfoldable pub active_connections : {B S E : Type 0} → Daemon B S E → List ActiveConnection
active_connections d = d.activation.active

unfoldable pub connection_events :
    {B S E : Type 0} → Daemon B S E → List ConnectionEvent × Daemon B S E
connection_events d =
    let (events, m) = drain_events d.activation in (events, record d { activation = m })

-- The calls that hand on to the store, and to the manager with the store as it is.
module _ {B S E : Type 0} (api : ActivationEngine E) (to_string : ActivationError → Str)
    (storage : ProfileStore S) where
  unfoldable pub list_profiles : Daemon B S E → Result (List ConnectionProfile) StoreError
  list_profiles d = storage.list_all d.profiles

  unfoldable pub profile_of : Daemon B S E → Str → Result ConnectionProfile StoreError
  profile_of d id = storage.get_one d.profiles id

  unfoldable pub create_profile :
      Daemon B S E → ConnectionProfile → Result (Unit {0}) StoreError × Daemon B S E
  create_profile d p =
      let (r, s) = storage.create_one d.profiles p in (r, record d { profiles = s })

  unfoldable pub update_profile :
      Daemon B S E → ConnectionProfile → Result (Unit {0}) StoreError × Daemon B S E
  update_profile d p =
      let (r, s) = storage.update_one d.profiles p in (r, record d { profiles = s })

  unfoldable pub delete_profile : Daemon B S E → Str → Result (Unit {0}) StoreError × Daemon B S E
  delete_profile d id =
      let (r, s) = storage.delete_one d.profiles id in (r, record d { profiles = s })

  unfoldable pub activate_device :
      Daemon B S E → DeviceInfo → Result ActiveConnection ActivationError × Daemon B S E
  activate_device d device =
      let (r, m) = Activation.activate api to_string storage d.activation d.profiles device in
      (r, record d { activation = m })

  unfoldable pub activate_by_id :
      Daemon B S E → Str → DeviceInfo → Result ActiveConnection ActivationError × Daemon B S E
  activate_by_id d id device =
      let (r, m) =
        Activation.activate_profile api to_string storage d.activation d.profiles id device in
      (r, record d { activation = m })

  unfoldable pub deactivate_by_id :
      Daemon B S E → ℕ → Result (Unit {0}) ActivationError × Daemon B S E
  deactivate_by_id d id =
      let (r, m) = Activation.deactivate api to_string d.activation id in
      (r, record d { activation = m })
