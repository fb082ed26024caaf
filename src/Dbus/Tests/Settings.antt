-- ===== src/Dbus/Tests/Settings.antt =====
-- The settings of a profile with a static route, read back.
use network_manager_rs.Common.{
  ◌≡◌, refl, true, none, some, [], ◌∷◌, str, str_eq, str_lt, Octets4, ok, arith,
}
use network_manager_rs.Connection.Profile.{
  validate, validate_type, validate_security, validate_ip_config, validate_method, validate_manual,
  ConnectionProfile, IpConfig, manual, keyring,
}
use network_manager_rs.Connection.Profile.Build.{psk}
use network_manager_rs.Connection.Profile.Validate.{IsValid, validate_iff}
use network_manager_rs.Connection.Store.Tree.{get, put}
use network_manager_rs.Connection.Tests.Data.{home}
use network_manager_rs.Linux.Model.{v4, ip_v4, Route, unicast, link}
use network_manager_rs.Dbus.Convert.{
  profile_to_settings, key_management_string, settings_to_profile, parse_manual,
}
use network_manager_rs.Dbus.Convert.Shown.{shown_profile}
use network_manager_rs.Dbus.Convert.RoundTrip.{settings_to_profile-profile_to_settings}
use network_manager_rs.Dbus.Convert.Secrecy.{
  with_secret, profile_to_settings-with_secret, settings_to_profile-put,
}
use network_manager_rs.Dbus.Convert.Prefix.{with_prefix, parse_manual-with_prefix}
use network_manager_rs.Dbus.Convert.Variant.{Section}
use network_manager_rs.Dbus.Tests.Bus.{
  Variant, bus, bus-IsLawful, show, read, read-show, texts, text,
}

abbrev local_net : Octets4
local_net = record { a = 10; b = 0; c = 0; d = 0 }

abbrev gateway : Octets4
gateway = record { a = 192; b = 168; c = 1; d = 1 }

abbrev detour : Route
detour = record {
  family = ip_v4;
  destination = v4 local_net;
  prefix_length = 8;
  gateway = some (v4 gateway);
  output_interface = none;
  metric = some 100;
  kind = unicast;
  scope = link;
}

abbrev fixed : IpConfig
fixed = record {
  method = manual;
  address = some (v4 (record { a = 192; b = 168; c = 1; d = 20 }));
  prefix_length = some 24;
  gateway = some (v4 gateway);
  dns_servers = v4 gateway ∷ [];
  routes = detour ∷ [];
}

abbrev office : ConnectionProfile
office = record home { ipv4 = fixed }

office-IsValid : IsValid office
unfolding validate validate_type validate_security psk validate_ip_config validate_method
    validate_manual
office-IsValid = (validate_iff office).0 refl

settings_to_profile-profile_to_settings_example :
    settings_to_profile bus show read texts (profile_to_settings bus show read texts office)
    ≡ ok (shown_profile office)
settings_to_profile-profile_to_settings_example =
    settings_to_profile-profile_to_settings bus bus-IsLawful show read texts read-show office
      office-IsValid (omega arith) tt

profile_to_settings-with_secret_example :
    profile_to_settings bus show read texts (record office {
      connection_type = with_secret (some (keyring (str "other"))) none office.connection_type;
    })
    ≡ profile_to_settings bus show read texts office
profile_to_settings-with_secret_example =
    profile_to_settings-with_secret bus show read texts office (some (keyring (str "other"))) none

abbrev secured : Section Variant
secured = (str "key-mgmt", text (str "wpa-psk")) ∷ []

settings-secured :
    get (str "802-11-wireless-security") (profile_to_settings bus show read texts home)
    ≡ some secured
unfolding profile_to_settings get put str_eq str_lt psk key_management_string
settings-secured = refl

settings_to_profile-put_example :
    settings_to_profile bus show read texts (
      put
        (str "802-11-wireless-security")
        (put (str "psk") (text (str "secret")) secured)
        (profile_to_settings bus show read texts home))
    ≡ settings_to_profile bus show read texts (profile_to_settings bus show read texts home)
unfolding str_eq
settings_to_profile-put_example =
    settings_to_profile-put bus show read texts (profile_to_settings bus show read texts home)
      secured (str "psk") (text (str "secret")) settings-secured refl

parse_manual-with_prefix_example :
    (c : IpConfig) × (parse_manual bus show read texts
        (with_prefix bus bus-IsLawful show read texts (show (v4 gateway)) 280 [])
        true
      ≡ ok c)
    × (c.address ≡ some (v4 gateway))
    × (c.prefix_length ≡ some 24)
parse_manual-with_prefix_example =
    parse_manual-with_prefix bus bus-IsLawful show read texts [] (show (v4 gateway)) (v4 gateway)
      280 refl (omega arith)
