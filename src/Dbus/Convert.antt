-- ===== src/Dbus/Convert.antt =====
-- src/dbus/convert.rs: connection profiles as NetworkManager's settings dictionaries, and back.
pub mod Variant
pub mod Routes
pub mod Uuid
pub mod Sections
pub mod Shown
pub mod Addresses
pub mod RoundTrip
pub mod Secrecy
pub mod Prefix
use network_manager_rs.Common.{
  ℕ, ◌%◌, Bool, true, false, not, Option, none, some, List, [], ◌∷◌, ◌++◌, map, keep, filter_map,
  Str, str, str_eq, Result, ok, err, ◌>>=◌, ◌>>◌, guard, ok_or, map_err, if◌then◌else◌,
}
use network_manager_rs.Connection.Profile.{
  KeyManagement, open_network, wpa_psk, wpa_eap, sae, owe, WifiSecurity, WifiSettings,
  ConnectionType, wifi_type, ethernet_type, keyring, IpMethod, automatic, manual, disabled,
  IpConfig, ConnectionProfile, ProfileValidationError, is_empty, bool_ne, validate,
}
use network_manager_rs.Connection.Profile.Build.{
  open_security, psk, sae_security, owe_security, enterprise, default_ip, wifi, ethernet,
}
use network_manager_rs.Connection.Store.Tree.{get, put}
use network_manager_rs.Linux.Model.{IpAddr, is_ipv4, ip_v4, ip_v6, family_eq, Route}
use network_manager_rs.Linux.Nl80211.Readers.{ssid_from_bytes}
use network_manager_rs.Dbus.Error.{
  FacadeError, ErrorTexts, invalid_setting, invalid_property, missing_setting, from_validation,
}
use Variant.{
  Values, Section, SettingsDict, get_str, get_str_array, get_u32, get_i32, get_bool, get_bytes,
  get_dict_array, and_convert,
}
use Routes.{parse_v4_entry, parse_v6_entry, collect_routes, route_v4_entry, route_v6_entry}
use Uuid.{stable_uuid}

unfoldable pub type_string : ConnectionType → Str
type_string (wifi_type s) = str "802-11-wireless"
type_string (ethernet_type s) = str "802-3-ethernet"

unfoldable pub connection_type_string : ConnectionProfile → Str
connection_type_string p = type_string p.connection_type

unfoldable pub key_management_string : KeyManagement → Str
key_management_string open_network = str "none"
key_management_string wpa_psk = str "wpa-psk"
key_management_string wpa_eap = str "wpa-eap"
key_management_string sae = str "sae"
key_management_string owe = str "owe"

unfoldable pub parse_key_management : ErrorTexts → Str → Result WifiSecurity FacadeError
parse_key_management texts value =
    if str_eq value (str "none")
    then ok open_security
    else if str_eq value []
    then ok open_security
    else if str_eq value (str "owe")
    then ok owe_security
    else if str_eq value (str "wpa-psk")
    then ok (psk (keyring (str "nmd/wifi-psk")))
    else if str_eq value (str "sae")
    then ok (sae_security (keyring (str "nmd/wifi-sae")))
    else if str_eq value (str "wpa-eap")
    then ok (enterprise (str "nmd-enterprise"))
    else err (invalid_setting (str "unsupported key management " ++ texts.quoted value))

unfoldable pub method_string : IpMethod → Str
method_string automatic = str "auto"
method_string manual = str "manual"
method_string disabled = str "disabled"

unfoldable pub parse_method : ErrorTexts → Str → Result IpMethod FacadeError
parse_method texts value =
    if str_eq value (str "auto")
    then ok automatic
    else if str_eq value []
    then ok automatic
    else if str_eq value (str "manual")
    then ok manual
    else if str_eq value (str "disabled")
    then ok disabled
    else err (invalid_setting (str "unsupported IP method " ++ texts.quoted value))

abbrev pub is_open : KeyManagement → Bool
is_open open_network = true
is_open _ = false

-- `if let Some(value) = option { section.insert(key, build(value)) }`, and an insert under a test.
abbrev pub put_some : {V A : Type 0} → Str → (A → V) → Option A → Section V → Section V
put_some key build none section = section
put_some key build (some a) section = put key (build a) section

abbrev pub put_if : {V : Type 0} → Bool → Str → V → Section V → Section V
put_if true key value section = put key value section
put_if false key value section = section

abbrev pub unwrap_or {ℓ} : {A : Type ℓ} → Option A → A → A
unwrap_or none a = a
unwrap_or (some b) a = b

abbrev pub first_dict : {A : Type 0} → List A → Option A
first_dict [] = none
first_dict (a ∷ rest) = some a

abbrev pub with_method : IpMethod → IpConfig
with_method method = record default_ip { method = method }

abbrev pub name_or : Option Str → Option Str → Option Str
name_or none before = before
name_or (some name) before = some name

-- Over the values of the bus and the texts of addresses, `address.to_string()` and `text.parse()`.
module _ {V : Type 0} (values : Values V) (show : IpAddr → Str) (read : Str → Option IpAddr)
    (texts : ErrorTexts) where
  abbrev pub connection_section : ConnectionProfile → Section V
  connection_section p = put (str "priority") (values.val_i32 p.priority) (
      put (str "autoconnect") (values.val_bool p.autoconnect) (
        put_some (str "interface-name") values.val_str p.device_match.interface_name (
          put (str "type") (values.val_str (connection_type_string p)) (
            put (str "uuid") (values.val_str (stable_uuid p.id))
              (put (str "id") (values.val_str p.id) [])))))

  abbrev pub wifi_section : WifiSettings → Section V
  wifi_section s =
      put_if (not (is_open s.security.key_management)) (str "security")
        (values.val_str (str "802-11-wireless-security"))
        (put_if s.hidden (str "hidden") (values.val_bool true) (
          put (str "mode") (values.val_str (str "infrastructure"))
            (put (str "ssid") (values.val_bytes s.ssid) [])))

  abbrev pub security_section : KeyManagement → Section V
  security_section k = put (str "key-mgmt") (values.val_str (key_management_string k)) []

  abbrev pub put_security : KeyManagement → SettingsDict V → SettingsDict V
  put_security open_network dict = dict
  put_security k dict = put (str "802-11-wireless-security") (security_section k) dict

  abbrev pub put_type : ConnectionType → SettingsDict V → SettingsDict V
  put_type (ethernet_type s) dict = dict
  put_type (wifi_type s) dict =
      put_security s.security.key_management (put (str "802-11-wireless") (wifi_section s) dict)

  abbrev pub address_entry : Option ℕ → IpAddr → V
  address_entry prefix address = values.val_dict_array (
      put_some (str "prefix") values.val_u32 prefix
        (put (str "address") (values.val_str (show address)) [])
      ∷ [])

  abbrev pub put_manual : IpMethod → IpConfig → Section V → Section V
  put_manual manual c section =
      put_if (not (is_empty c.dns_servers)) (str "dns")
        (values.val_str_array (map show c.dns_servers))
        (put_some (str "gateway") (λ a. values.val_str (show a)) c.gateway
          (put_some (str "address-data") (address_entry c.prefix_length) c.address section))
  put_manual _ c section = section

  abbrev pub routes_value : Bool → List Route → V
  routes_value true routes =
      values.val_v4_routes (map route_v4_entry (keep (λ r. family_eq r.family ip_v4) routes))
  routes_value false routes =
      values.val_v6_routes (map route_v6_entry (keep (λ r. family_eq r.family ip_v6) routes))

  unfoldable pub ip_config_section : IpConfig → Bool → Section V
  ip_config_section c expect_v4 =
      put_if (not (is_empty c.routes)) (str "routes") (routes_value expect_v4 c.routes)
        (put_manual c.method c (put (str "method") (values.val_str (method_string c.method)) []))

  unfoldable pub profile_to_settings : ConnectionProfile → SettingsDict V
  profile_to_settings p = put (str "ipv6") (ip_config_section p.ipv6 false) (
      put (str "ipv4") (ip_config_section p.ipv4 true)
        (put_type p.connection_type (put (str "connection") (connection_section p) [])))

  abbrev pub routes_of : Bool → V → Result (List Route) FacadeError
  routes_of true value = do
    entries ←
        ok_or (values.to_v4_routes value)
          (invalid_property (str "ipv4.routes is not an array of u32 tuples"))
    collect_routes parse_v4_entry entries
  routes_of false value = do
    entries ←
        ok_or (values.to_v6_routes value) (invalid_property (str "ipv6.routes is not a(ayuayu)"))
    collect_routes parse_v6_entry entries

  abbrev pub routes_if : Bool → Option V → Result (List Route) FacadeError
  routes_if expect_v4 none = ok []
  routes_if expect_v4 (some value) = routes_of expect_v4 value

  unfoldable pub parse_routes : Section V → Bool → Result (List Route) FacadeError
  parse_routes section expect_v4 = routes_if expect_v4 (get (str "routes") section)

  -- The part of `parse_ip_config` behind `config.method == Manual`; the prefix is cut to a byte.
  unfoldable pub parse_manual : Section V → Bool → Result IpConfig FacadeError
  parse_manual section expect_v4 = do
    address_data ←
        ok_or (get_dict_array values section (str "address-data"))
          (missing_setting (str "ip method requires address-data"))
    first ←
        ok_or (first_dict address_data)
          (missing_setting (str "manual IP configuration requires an address"))
    text ← ok_or (get_str values first (str "address")) (invalid_property (str "address missing"))
    address ← ok_or (read text) (invalid_property (str "address is not a valid IP address"))
    guard (not (bool_ne (is_ipv4 address) expect_v4))
        (invalid_property (str "address family does not match the setting"))
    prefix ←
        ok_or (get_u32 values first (str "prefix"))
          (missing_setting (str "address prefix required"))
    ok (record {
      method = manual;
      address = some address;
      prefix_length = some (prefix % 256);
      gateway = and_convert (get_str values section (str "gateway")) read;
      dns_servers = filter_map read (unwrap_or (get_str_array values section (str "dns")) []);
      routes = [];
    })

  abbrev pub parse_by_method : IpMethod → Section V → Bool → Result IpConfig FacadeError
  parse_by_method manual section expect_v4 = parse_manual section expect_v4
  parse_by_method automatic section expect_v4 = ok (with_method automatic)
  parse_by_method disabled section expect_v4 = ok (with_method disabled)

  unfoldable pub parse_ip_config : Section V → Bool → Result IpConfig FacadeError
  parse_ip_config section expect_v4 = do
    method ← parse_method texts (unwrap_or (get_str values section (str "method")) (str "auto"))
    config ← parse_by_method method section expect_v4
    routes ← parse_routes section expect_v4
    ok (record config { routes = routes })

  abbrev pub key_management_of : Option (Section V) → Str
  key_management_of section =
      unwrap_or (and_convert section (λ s. get_str values s (str "key-mgmt"))) (str "none")

  unfoldable pub wifi_profile : SettingsDict V → Str → Result ConnectionProfile FacadeError
  wifi_profile dict id = do
    section ← ok_or (get (str "802-11-wireless") dict) (missing_setting (str "802-11-wireless"))
    bytes ←
        ok_or (get_bytes values section (str "ssid"))
          (invalid_property (str "802-11-wireless.ssid is required"))
    ssid ←
        ok_or (ssid_from_bytes bytes)
          (invalid_property (str "802-11-wireless.ssid exceeds 32 octets"))
    security ←
        parse_key_management texts (key_management_of (get (str "802-11-wireless-security") dict))
    map_err (from_validation texts) (wifi id id ssid security)

  unfoldable pub profile_by_type : SettingsDict V → Str → Str → Result ConnectionProfile FacadeError
  profile_by_type dict id type_name =
      if str_eq type_name (str "802-11-wireless")
      then wifi_profile dict id
      else if str_eq type_name (str "802-3-ethernet")
      then map_err (from_validation texts) (ethernet id id)
      else err (invalid_setting (str "unsupported connection type " ++ texts.quoted type_name))

  -- `if let Some(section) = dict.get(name) { field = parse(section)? }`.
  abbrev pub ip_or : Option (Section V) → Bool → IpConfig → Result IpConfig FacadeError
  ip_or none expect_v4 before = ok before
  ip_or (some section) expect_v4 before = parse_ip_config section expect_v4

  unfoldable pub fill_in :
      SettingsDict V → Section V → ConnectionProfile → Result ConnectionProfile FacadeError
  fill_in dict connection p = do
    let interface_name =
        name_or (get_str values connection (str "interface-name")) p.device_match.interface_name
    ipv4 ← ip_or (get (str "ipv4") dict) true p.ipv4
    ipv6 ← ip_or (get (str "ipv6") dict) false p.ipv6
    let profile = record p {
      device_match = record p.device_match { interface_name = interface_name };
      autoconnect = unwrap_or (get_bool values connection (str "autoconnect")) p.autoconnect;
      priority = unwrap_or (get_i32 values connection (str "priority")) p.priority;
      ipv4 = ipv4;
      ipv6 = ipv6;
    }
    map_err (from_validation texts) (validate profile)
    ok profile

  unfoldable pub settings_to_profile : SettingsDict V → Result ConnectionProfile FacadeError
  settings_to_profile dict = do
    connection ← ok_or (get (str "connection") dict) (missing_setting (str "connection"))
    id ←
        ok_or (get_str values connection (str "id"))
          (invalid_property (str "connection.id is required"))
    type_name ←
        ok_or (get_str values connection (str "type")) (missing_setting (str "connection.type"))
    profile ← profile_by_type dict id type_name
    fill_in dict connection profile
