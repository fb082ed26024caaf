-- ===== src/Connection/Profile/Build.antt =====
-- src/connection/profile.rs: the constructors, which validate what they build.
use network_manager_rs.Common.{
  ℕ, true, false, none, some, List, [], Str, Result, ok, ◌>>◌, ◌≡◌, ◌↔◌, arith,
}
use network_manager_rs.Common.Int.{pos}
use network_manager_rs.Connection.Profile.{
  SecretReference, open_network, wpa_psk, wpa_eap, sae, owe, WifiSecurity, WifiSettings,
  ConnectionType, wifi_type, ethernet_type, IpConfig, automatic, ConnectionProfile,
  ProfileValidationError, validate,
}
use network_manager_rs.Connection.Profile.Validate.{IsValid, validate_iff}

unfoldable pub open_security : WifiSecurity
open_security = record { key_management = open_network; secret = none; identity = none }

unfoldable pub psk : SecretReference → WifiSecurity
psk secret = record { key_management = wpa_psk; secret = some secret; identity = none }

unfoldable pub sae_security : SecretReference → WifiSecurity
sae_security secret = record { key_management = sae; secret = some secret; identity = none }

unfoldable pub owe_security : WifiSecurity
owe_security = record { key_management = owe; secret = none; identity = none }

unfoldable pub enterprise : Str → WifiSecurity
enterprise identity = record { key_management = wpa_eap; secret = none; identity = some identity }

-- `IpConfig::default()`.
abbrev pub default_ip : IpConfig
default_ip = record {
  method = automatic;
  address = none;
  prefix_length = none;
  gateway = none;
  dns_servers = [];
  routes = [];
}

-- What both constructors fill in around the transport.
abbrev pub with_defaults : Str → Str → ConnectionType → ConnectionProfile
with_defaults id name transport = record {
  id = id;
  name = name;
  connection_type = transport;
  device_match = record { interface_name = none; mac_address = none };
  priority = pos 0;
  autoconnect = true;
  enabled = true;
  ipv4 = default_ip;
  ipv6 = default_ip;
}

abbrev pub wifi_settings : List ℕ → WifiSecurity → WifiSettings
wifi_settings ssid security = record {
  ssid = ssid;
  bssid = none;
  hidden = false;
  security = security;
}

unfoldable pub wifi :
    Str → Str → List ℕ → WifiSecurity → Result ConnectionProfile ProfileValidationError
wifi id name ssid security = do
  let profile = with_defaults id name (wifi_type (wifi_settings ssid security))
  validate profile
  ok profile

unfoldable pub ethernet : Str → Str → Result ConnectionProfile ProfileValidationError
ethernet id name = do
  let transport =
      ethernet_type (record { autonegotiation = none; speed_mbit = none; duplex = none })
  let profile = with_defaults id name transport
  validate profile
  ok profile

-- `ConnectionProfile::wifi` succeeds exactly with a valid profile, and that profile has the id, name,
-- SSID and security asked for and the defaults in every other field.
pub wifi_iff :
    (id name : Str) (ssid : List ℕ) (security : WifiSecurity) (p : ConnectionProfile)
    → (wifi id name ssid security ≡ ok p)
      ↔ (IsValid p × (p ≡ with_defaults id name (wifi_type (wifi_settings ssid security))))
unfolding wifi
wifi_iff id name ssid security p = ground (
  arith,
  validate_iff p,
  validate_iff (with_defaults id name (wifi_type (wifi_settings ssid security))),
)
