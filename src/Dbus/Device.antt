-- ===== src/Dbus/Device.antt =====
-- src/dbus/device.rs: the devices that the facade shows, and their states; src/dbus/active_connection.rs: the
-- states of active connections.
use network_manager_rs.Common.{
  ℕ, ◌/◌, ◌%◌, Bool, false, not, ◌&&◌, Option, none, some, List, [], ◌∷◌, ◌++◌, map, any, find,
  Result, ok, err, ◌>>=◌, map_err, Str, str, str_eq, ◌==◌, if◌then◌else◌,
}
use network_manager_rs.Common.Int.{ℤ, ltb_ℤ}
use network_manager_rs.Common.Sorting.{sort_by}
use mathlib.Core.Option
use network_manager_rs.Connection.Profile
use network_manager_rs.Connection.Profile.{DeviceInfo}
use network_manager_rs.Connection.State.{
  ConnectionState, unknown, disconnected, preparing, configuring, activating, activated,
  deactivating, failed, is_activated,
}
use network_manager_rs.Connection.Activation.Table.{ActiveConnection}
use network_manager_rs.Linux.Model.{NetlinkError, Link}
use network_manager_rs.Linux.Model.Wireless.{WirelessInterface}
use network_manager_rs.Dbus.Error.{FacadeError, ErrorTexts, from_netlink}

-- `LinkFlags::is_up` and `LinkFlags::is_loopback` of src/linux/model.rs.
abbrev pub is_up : ℕ → Bool
is_up flags = flags % 2 == 1

abbrev pub is_loopback : ℕ → Bool
is_loopback flags = flags / 8 % 2 == 1

pub data DeviceKind : Type 0 where
  wifi_device ethernet_device loopback_device : DeviceKind

unfoldable pub nm_type : DeviceKind → ℕ
nm_type wifi_device = 2
nm_type ethernet_device = 1
nm_type loopback_device = 32

unfoldable pub driver : DeviceKind → Str
driver wifi_device = str "wifi"
driver ethernet_device = str "ethernet"
driver loopback_device = str "loopback"

unfoldable pub domain_kind : DeviceKind → Profile.DeviceKind
domain_kind wifi_device = Profile.wifi
domain_kind ethernet_device = Profile.ethernet
domain_kind loopback_device = Profile.ethernet

pub record DeviceView : Type 0 where
  pub index : ℤ
  pub interface : Str
  pub kind : DeviceKind
  pub mac : Option (List ℕ)
  pub up : Bool

unfoldable pub to_device_info : DeviceView → DeviceInfo
unfolding domain_kind
to_device_info v = record {
  kind = domain_kind v.kind;
  interface_name = v.interface;
  mac_address = v.mac;
}

abbrev pub wifi_view : WirelessInterface → DeviceView
wifi_view w = record {
  index = w.index;
  interface = w.name;
  kind = wifi_device;
  mac = w.mac;
  up = w.up;
}

abbrev pub link_view : Link → DeviceView
link_view l = record {
  index = l.index;
  interface = l.name;
  kind = if is_loopback l.flags then loopback_device else ethernet_device;
  mac = none;
  up = is_up l.flags;
}

abbrev pub eq_ℤ : ℤ → ℤ → Bool
eq_ℤ a b = not (ltb_ℤ a b) && not (ltb_ℤ b a)

-- The loop over the links: one whose index is taken is skipped.
unfoldable pub push_links : List DeviceView → List Link → List DeviceView
push_links devices [] = devices
push_links devices (l ∷ rest) =
    push_links
      (if any (λ d. eq_ℤ d.index l.index) devices then devices else devices ++ (link_view l ∷ []))
      rest

abbrev pub earlier : DeviceView → DeviceView → Bool
earlier a b = ltb_ℤ a.index b.index

-- What the backend lists while a call runs.
unfoldable pub enumerate_devices :
    ErrorTexts
    → Result (List WirelessInterface) NetlinkError
    → Result (List Link) NetlinkError
    → Result (List DeviceView) FacadeError
enumerate_devices texts wifi_interfaces links = do
  interfaces ← map_err (from_netlink texts) wifi_interfaces
  found ← map_err (from_netlink texts) links
  ok (sort_by earlier (push_links (map wifi_view interfaces) found))

unfoldable pub connection_to_device_state : ConnectionState → ℕ
connection_to_device_state preparing = 40
connection_to_device_state configuring = 50
connection_to_device_state activating = 70
connection_to_device_state activated = 100
connection_to_device_state deactivating = 110
connection_to_device_state failed = 120
connection_to_device_state unknown = 30
connection_to_device_state disconnected = 30

unfoldable pub nm_state : ConnectionState → ℕ
nm_state activated = 2
nm_state preparing = 1
nm_state configuring = 1
nm_state activating = 1
nm_state deactivating = 3
nm_state unknown = 4
nm_state disconnected = 4
nm_state failed = 4

-- `device_active`: the first connection on the interface.
unfoldable pub device_active : Str → List ActiveConnection → Option ActiveConnection
device_active interface = find (λ a. str_eq a.device.interface_name interface)

abbrev pub shows_activated : Str → Option ActiveConnection → Bool
shows_activated interface none = false
shows_activated interface (some a) =
    str_eq a.device.interface_name interface && is_activated a.state

abbrev pub view_state : List ActiveConnection → DeviceView → ℕ
view_state active v =
    if shows_activated v.interface (device_active v.interface active)
    then 100
    else if v.up
    then 30
    else 20

abbrev pub state_in : List ActiveConnection → ℤ → Result (List DeviceView) FacadeError → Option ℕ
state_in active index (err e) = none
state_in active index (ok devices) =
    Option.map (view_state active) (find (λ d. eq_ℤ d.index index) devices)

unfoldable pub device_state :
    List ActiveConnection → ℤ → Result (List DeviceView) FacadeError → Option ℕ
unfolding device_active
device_state active index devices = state_in active index devices

unfoldable pub device_index_by_name : Str → Result (List DeviceView) FacadeError → Option ℤ
device_index_by_name interface (err e) = none
device_index_by_name interface (ok devices) =
    Option.map (λ d. d.index) (find (λ d. str_eq d.interface interface) devices)
