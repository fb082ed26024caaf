-- ===== src/Dbus/Convert/Secrecy.antt =====
-- src/dbus/convert.rs: secrets leave the daemon in no settings, and enter it in none.
use network_manager_rs.Common.{◌≡◌, refl, false, Option, some, Str, str, str_eq}
use network_manager_rs.Connection.Profile.{
  SecretReference, ConnectionType, wifi_type, ethernet_type, ConnectionProfile,
}
use network_manager_rs.Connection.Store.Tree.{get, put, get-put}
use network_manager_rs.Linux.Model.{IpAddr}
use network_manager_rs.Dbus.Error.{ErrorTexts}
use network_manager_rs.Dbus.Convert.Variant.{Values, Section, SettingsDict, get_str}
use network_manager_rs.Dbus.Convert.{
  type_string, connection_type_string, put_type, profile_to_settings, settings_to_profile,
  profile_by_type, wifi_profile, fill_in,
}

-- Another secret and another identity for the same network.
abbrev pub with_secret : Option SecretReference → Option Str → ConnectionType → ConnectionType
with_secret secret identity (ethernet_type s) = ethernet_type s
with_secret secret identity (wifi_type s) =
    wifi_type (record s { security = record s.security { secret = secret; identity = identity } })

module _ {V : Type 0} (values : Values V) (show : IpAddr → Str) (read : Str → Option IpAddr)
    (texts : ErrorTexts) where
  type_string-with_secret :
      (secret : Option SecretReference) (identity : Option Str) (t : ConnectionType)
      → type_string (with_secret secret identity t) ≡ type_string t
  unfolding type_string
  type_string-with_secret secret identity (wifi_type s) = refl
  type_string-with_secret secret identity (ethernet_type s) = refl

  put_type-with_secret :
      (secret : Option SecretReference) (identity : Option Str) (t : ConnectionType)
      (dict : SettingsDict V)
      → put_type values show read texts (with_secret secret identity t) dict
        ≡ put_type values show read texts t dict
  put_type-with_secret secret identity (wifi_type s) dict = refl
  put_type-with_secret secret identity (ethernet_type s) dict = refl

  -- The settings of a profile are the same whatever its secret and its identity.
  pub profile_to_settings-with_secret :
      (p : ConnectionProfile) (secret : Option SecretReference) (identity : Option Str)
      → profile_to_settings values show read texts
          (record p { connection_type = with_secret secret identity p.connection_type })
        ≡ profile_to_settings values show read texts p
  unfolding profile_to_settings connection_type_string
  profile_to_settings-with_secret p secret identity =
      rw (type_string-with_secret, put_type-with_secret) refl

  -- A property of the security section other than the key management, such as a passphrase, makes no
  -- difference to the profile that is read.
  pub settings_to_profile-put :
      (dict : SettingsDict V) (security : Section V) (key : Str) (value : V)
      → get (str "802-11-wireless-security") dict ≡ some security
      → str_eq (str "key-mgmt") key ≡ false
      → settings_to_profile values show read texts
          (put (str "802-11-wireless-security") (put key value security) dict)
        ≡ settings_to_profile values show read texts dict
  unfolding settings_to_profile profile_by_type wifi_profile fill_in get_str str_eq
  settings_to_profile-put dict security key value h k =
      rw (get-put, get-put, get-put, get-put, get-put, h, get-put, k) refl
