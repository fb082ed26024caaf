-- ===== src/Dbus/Convert/Shown.antt =====
-- What a client of src/dbus/convert.rs sees of a profile, apart from how its settings are written.
use network_manager_rs.Common.{
  ℕ, ◌≤◌, ◌≡◌, refl, Bool, true, false, none, List, [], map, keep, All, str, str_eq, ok,
  if◌then◌else◌, arith,
}
use network_manager_rs.Connection.Profile.{
  KeyManagement, open_network, wpa_psk, wpa_eap, sae, owe, WifiSecurity, ConnectionType, wifi_type,
  ethernet_type, keyring, IpMethod, automatic, manual, disabled, IpConfig, ConnectionProfile,
}
use network_manager_rs.Connection.Profile.Build.{
  open_security, psk, sae_security, owe_security, enterprise, with_defaults, wifi_settings,
}
use network_manager_rs.Connection.Profile.Validate.{
  IsValid, IsTransport, IsSecure, IsIpConfig, IsManual,
}
use network_manager_rs.Linux.Model.{ip_v4, ip_v6, family_eq, Route}
use network_manager_rs.Dbus.Error.{ErrorTexts}
use network_manager_rs.Dbus.Convert.Routes.{shown_v4, shown_v6, IsV4Route, IsV6Route}
use network_manager_rs.Dbus.Convert.{
  key_management_string, parse_key_management, method_string, parse_method, with_method,
}

-- The security that a client's key management stands for: the secret is one of the daemon's own.
unfoldable pub shown_security : KeyManagement → WifiSecurity
shown_security open_network = open_security
shown_security owe = owe_security
shown_security wpa_psk = psk (keyring (str "nmd/wifi-psk"))
shown_security sae = sae_security (keyring (str "nmd/wifi-sae"))
shown_security wpa_eap = enterprise (str "nmd-enterprise")

unfoldable pub shown_type : ConnectionType → ConnectionType
shown_type (wifi_type s) =
    wifi_type (wifi_settings s.ssid (shown_security s.security.key_management))
shown_type (ethernet_type s) =
    ethernet_type (record { autonegotiation = none; speed_mbit = none; duplex = none })

unfoldable pub shown_routes : Bool → List Route → List Route
shown_routes true routes = map shown_v4 (keep (λ r. family_eq r.family ip_v4) routes)
shown_routes false routes = map shown_v6 (keep (λ r. family_eq r.family ip_v6) routes)

-- Addresses are carried by a manual configuration only.
abbrev pub shown_method : IpMethod → IpConfig → IpConfig
shown_method manual c = record c { routes = [] }
shown_method method c = with_method method

unfoldable pub shown_ip : IpConfig → Bool → IpConfig
shown_ip c expect_v4 = record (shown_method c.method c) {
  method = c.method;
  routes = shown_routes expect_v4 c.routes;
}

abbrev pub HasRoutes : Bool → List Route → Type 0
HasRoutes true routes = All IsV4Route (keep (λ r. family_eq r.family ip_v4) routes)
HasRoutes false routes = All IsV6Route (keep (λ r. family_eq r.family ip_v6) routes)

pub no_routes : (expect_v4 : Bool) → shown_routes expect_v4 [] ≡ []
unfolding shown_routes
no_routes true = refl
no_routes false = refl

pub prefix_small : (expect_v4 : Bool) (n : ℕ) → n ≤ (if expect_v4 then 32 else 128) → n ≤ 128
prefix_small true n h = omega arith
prefix_small false n h = h

pub parse_key_management-key_management_string :
    (texts : ErrorTexts) (k : KeyManagement)
    → parse_key_management texts (key_management_string k) ≡ ok (shown_security k)
unfolding parse_key_management key_management_string shown_security str_eq
parse_key_management-key_management_string texts open_network = refl
parse_key_management-key_management_string texts wpa_psk = refl
parse_key_management-key_management_string texts wpa_eap = refl
parse_key_management-key_management_string texts sae = refl
parse_key_management-key_management_string texts owe = refl

pub parse_method-method_string :
    (texts : ErrorTexts) (m : IpMethod) → parse_method texts (method_string m) ≡ ok m
unfolding parse_method method_string str_eq
parse_method-method_string texts automatic = refl
parse_method-method_string texts manual = refl
parse_method-method_string texts disabled = refl

-- What a client sees of a profile: the id for its name too, the interface it is bound to, no MAC
-- address, and every profile enabled.
unfoldable pub shown_profile : ConnectionProfile → ConnectionProfile
shown_profile p = record {
  id = p.id;
  name = p.id;
  connection_type = shown_type p.connection_type;
  device_match = record { interface_name = p.device_match.interface_name; mac_address = none };
  priority = p.priority;
  autoconnect = p.autoconnect;
  enabled = true;
  ipv4 = shown_ip p.ipv4 true;
  ipv6 = shown_ip p.ipv6 false;
}

shown_security-IsSecure :
    (k : KeyManagement) → IsSecure (shown_security k).key_management (shown_security k)
unfolding shown_security psk sae_security owe_security open_security enterprise
shown_security-IsSecure open_network = refl
shown_security-IsSecure wpa_psk = λ e. absurd (cc e)
shown_security-IsSecure sae = λ e. absurd (cc e)
shown_security-IsSecure owe = refl
shown_security-IsSecure wpa_eap = (str "nmd-enterprise", refl, λ e. absurd (cc e))

shown_type-IsTransport : (t : ConnectionType) → IsTransport t → IsTransport (shown_type t)
unfolding shown_type
shown_type-IsTransport (wifi_type s) h =
    (h.0, h.1, shown_security-IsSecure s.security.key_management)
shown_type-IsTransport (ethernet_type s) h = λ e. absurd (cc e)

shown_method-IsIpConfig :
    (m : IpMethod) (c : IpConfig) (expect_v4 : Bool)
    → c.method ≡ m
    → IsIpConfig c expect_v4
    → m ≡ manual
    → IsManual (shown_method m c).address (shown_method m c).prefix_length expect_v4
shown_method-IsIpConfig automatic c v e h k = absurd (cc k)
shown_method-IsIpConfig disabled c v e h k = absurd (cc k)
shown_method-IsIpConfig manual c v e h k = h e

shown_ip-IsIpConfig :
    (c : IpConfig) (expect_v4 : Bool)
    → IsIpConfig c expect_v4
    → IsIpConfig (shown_ip c expect_v4) expect_v4
unfolding shown_ip
shown_ip-IsIpConfig c v h e = shown_method-IsIpConfig c.method c v refl h e

-- What a client sees of a valid profile is valid.
pub shown_profile-IsValid : (p : ConnectionProfile) → IsValid p → IsValid (shown_profile p)
unfolding shown_profile
shown_profile-IsValid p h = record {
  has_id = h.has_id;
  clean_id = h.clean_id;
  has_name = h.has_id;
  transport = shown_type-IsTransport p.connection_type h.transport;
  ipv4 = shown_ip-IsIpConfig p.ipv4 true h.ipv4;
  ipv6 = shown_ip-IsIpConfig p.ipv6 false h.ipv6;
}

-- A new profile of the id and the transport of a valid one is valid.
pub default-IsValid :
    (p : ConnectionProfile)
    → IsValid p
    → IsValid (with_defaults p.id p.id (shown_type p.connection_type))
default-IsValid p h = record {
  has_id = h.has_id;
  clean_id = h.clean_id;
  has_name = h.has_id;
  transport = shown_type-IsTransport p.connection_type h.transport;
  ipv4 = λ e. absurd (cc e);
  ipv6 = λ e. absurd (cc e);
}
