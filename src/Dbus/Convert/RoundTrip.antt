-- ===== src/Dbus/Convert/RoundTrip.antt =====
-- src/dbus/convert.rs: the settings of a profile are read back as what a client sees of it.
use network_manager_rs.Common.{
  le→leb, ◌≡◌, refl, true, false, Option, none, some, [], Str, str, str_eq, ok, length,
}
use network_manager_rs.Connection.Profile.{
  KeyManagement, open_network, wpa_psk, wpa_eap, sae, owe, WifiSettings, ConnectionType, wifi_type,
  ethernet_type, ConnectionProfile,
}
use network_manager_rs.Connection.Profile.Build.{ethernet, wifi_iff, with_defaults}
use network_manager_rs.Connection.Profile.Validate.{IsValid, IsTransport, validate_iff}
use network_manager_rs.Connection.Store.Tree.{get, put, get-put}
use network_manager_rs.Linux.Model.{IpAddr}
use network_manager_rs.Dbus.Error.{ErrorTexts}
use network_manager_rs.Dbus.Convert.Variant.{
  Values, IsLawful, Section, SettingsDict, get_str, get_i32, get_bool, get_bytes, and_convert,
}
use network_manager_rs.Dbus.Convert.Sections.{get-put_if, get-put_some, built_or}
use network_manager_rs.Dbus.Convert.{
  key_management_string, ip_config_section, profile_to_settings, settings_to_profile, put_security,
  put_type, key_management_of, connection_section, wifi_section, connection_type_string,
  type_string, profile_by_type, wifi_profile, fill_in, name_or,
}
use network_manager_rs.Dbus.Convert.Shown.{
  shown_security, shown_type, shown_profile, shown_profile-IsValid, default-IsValid, HasRoutes,
  parse_key_management-key_management_string,
}
use network_manager_rs.Dbus.Convert.Addresses.{parse_ip_config-ip_config_section}

module _ {V : Type 0} (values : Values V) (lawful : IsLawful values) (show : IpAddr → Str)
    (read : Str → Option IpAddr) (texts : ErrorTexts)
    (read-show : (a : IpAddr) → read (show a) ≡ some a) where
  put_security_elsewhere :
      (k : KeyManagement) (j : Str) (dict : SettingsDict V)
      → str_eq j (str "802-11-wireless-security") ≡ false
      → get j (put_security values show read texts k dict) ≡ get j dict
  put_security_elsewhere open_network j dict h = refl
  put_security_elsewhere wpa_psk j dict h = rw (get-put, h) refl
  put_security_elsewhere wpa_eap j dict h = rw (get-put, h) refl
  put_security_elsewhere sae j dict h = rw (get-put, h) refl
  put_security_elsewhere owe j dict h = rw (get-put, h) refl

  put_security_here :
      (k : KeyManagement) (dict : SettingsDict V)
      → get (str "802-11-wireless-security") dict ≡ none
      → key_management_of values show read texts
          (get (str "802-11-wireless-security") (put_security values show read texts k dict))
        ≡ key_management_string k
  unfolding key_management_string get_str get put str_eq
  put_security_here open_network dict h = rw h refl
  put_security_here wpa_psk dict h = rw (get-put, lawful.str_back) refl
  put_security_here wpa_eap dict h = rw (get-put, lawful.str_back) refl
  put_security_here sae dict h = rw (get-put, lawful.str_back) refl
  put_security_here owe dict h = rw (get-put, lawful.str_back) refl

  put_type_elsewhere :
      (t : ConnectionType) (j : Str) (dict : SettingsDict V)
      → str_eq j (str "802-11-wireless-security") ≡ false
      → str_eq j (str "802-11-wireless") ≡ false
      → get j (put_type values show read texts t dict) ≡ get j dict
  put_type_elsewhere (ethernet_type s) j dict h k = refl
  put_type_elsewhere (wifi_type s) j dict h k =
      rw (put_security_elsewhere s.security.key_management j _ h, get-put, k) refl

  module _ (p : ConnectionProfile) where
    abbrev connection : Section V
    connection = connection_section values show read texts p

    abbrev around : ConnectionType → SettingsDict V
    around t = put (str "ipv6") (ip_config_section values show read texts p.ipv6 false) (
        put (str "ipv4") (ip_config_section values show read texts p.ipv4 true)
          (put_type values show read texts t (put (str "connection") connection [])))

    around-connection : (t : ConnectionType) → get (str "connection") (around t) ≡ some connection
    unfolding str_eq
    around-connection t =
        rw (get-put, get-put, put_type_elsewhere t (str "connection") _ refl refl, get-put) refl

    around-ipv4 :
        (t : ConnectionType)
        → get (str "ipv4") (around t) ≡ some (ip_config_section values show read texts p.ipv4 true)
    unfolding str_eq
    around-ipv4 t = rw (get-put, get-put) refl

    around-ipv6 :
        (t : ConnectionType)
        → get (str "ipv6") (around t) ≡ some (ip_config_section values show read texts p.ipv6 false)
    unfolding str_eq
    around-ipv6 t = rw get-put refl

    connection-id : get (str "id") connection ≡ some (values.val_str p.id)
    unfolding str_eq get
    connection-id = rw (get-put, get-put, get-put_some, get-put, get-put, get-put) refl

    connection-type : get (str "type") connection ≡ some (values.val_str (connection_type_string p))
    unfolding str_eq get
    connection-type = rw (get-put, get-put, get-put_some, get-put) refl

    connection-interface_name :
        get (str "interface-name") connection
        ≡ built_or values.val_str p.device_match.interface_name none
    unfolding str_eq get
    connection-interface_name = rw (get-put, get-put, get-put_some, get-put, get-put, get-put) refl

    connection-autoconnect :
        get (str "autoconnect") connection ≡ some (values.val_bool p.autoconnect)
    unfolding str_eq get
    connection-autoconnect = rw (get-put, get-put) refl

    connection-priority : get (str "priority") connection ≡ some (values.val_i32 p.priority)
    unfolding str_eq get
    connection-priority = rw get-put refl

    connection-security :
        (s : WifiSettings)
        → key_management_of values show read texts
            (get (str "802-11-wireless-security") (around (wifi_type s)))
          ≡ key_management_string s.security.key_management
    unfolding str_eq get
    connection-security s =
        rw (get-put, get-put)
          (put_security_here s.security.key_management
            (put (str "802-11-wireless") (wifi_section values show read texts s)
              (put (str "connection") connection []))
            (rw (get-put, get-put) refl))

    connection-wifi :
        (s : WifiSettings)
        → get (str "802-11-wireless") (around (wifi_type s))
          ≡ some (wifi_section values show read texts s)
    unfolding str_eq
    connection-wifi s =
        rw
          (
            get-put,
            get-put,
            put_security_elsewhere s.security.key_management (str "802-11-wireless") _ refl,
            get-put,
          )
          refl

    ssid_back :
        (s : WifiSettings)
        → get_bytes values (wifi_section values show read texts s) (str "ssid") ≡ some s.ssid
    unfolding get_bytes str_eq
    ssid_back s = rw (get-put_if, get-put_if, get-put, get-put, lawful.bytes_back) refl

    -- The profile that the reader starts from.
    by_type_back :
        (t : ConnectionType)
        → IsTransport t
        → IsValid (with_defaults p.id p.id (shown_type t))
        → profile_by_type values show read texts (around t) p.id (type_string t)
          ≡ ok (with_defaults p.id p.id (shown_type t))
    unfolding profile_by_type wifi_profile type_string str_eq shown_type ethernet
    by_type_back (wifi_type s) h valid =
        rw
          (
            connection-wifi s,
            ssid_back s,
            le→leb (length s.ssid) 32 h.1,
            connection-security s,
            parse_key_management-key_management_string texts s.security.key_management,
            (wifi_iff p.id p.id s.ssid (shown_security s.security.key_management)
                  (with_defaults p.id p.id (shown_type (wifi_type s)))).1
                (valid, refl),
          )
          refl
    by_type_back (ethernet_type s) h valid =
        rw ((validate_iff (with_defaults p.id p.id (shown_type (ethernet_type s)))).1 valid) refl

    name_back :
        (name : Option Str)
        → name_or (and_convert (built_or values.val_str name none) values.to_str) none ≡ name
    name_back none = refl
    name_back (some name) = rw (lawful.str_back name) refl

    -- The rest of the settings is read into that profile.
    fill_in_back :
        IsValid p
        → HasRoutes true p.ipv4.routes
        → HasRoutes false p.ipv6.routes
        → fill_in values show read texts
            (around p.connection_type)
            connection
            (with_defaults p.id p.id (shown_type p.connection_type))
          ≡ ok (shown_profile p)
    unfolding fill_in get_str get_bool get_i32 shown_profile
    fill_in_back h r4 r6 =
        rw
          (
            around-ipv4 p.connection_type,
            parse_ip_config-ip_config_section values lawful show read texts read-show p.ipv4 true
                h.ipv4 r4,
            around-ipv6 p.connection_type,
            parse_ip_config-ip_config_section values lawful show read texts read-show p.ipv6 false
                h.ipv6 r6,
            connection-interface_name,
            name_back p.device_match.interface_name,
            connection-autoconnect,
            lawful.bool_back p.autoconnect,
            connection-priority,
            lawful.i32_back p.priority,
            (validate_iff (shown_profile p)).1 (shown_profile-IsValid p h),
          )
          refl

  -- The settings of a valid profile, whose routes have addresses and prefix lengths of their family, are
  -- read back as what a client sees of the profile.
  pub settings_to_profile-profile_to_settings :
      (p : ConnectionProfile)
      → IsValid p
      → HasRoutes true p.ipv4.routes
      → HasRoutes false p.ipv6.routes
      → settings_to_profile values show read texts (profile_to_settings values show read texts p)
        ≡ ok (shown_profile p)
  unfolding settings_to_profile profile_to_settings get_str connection_type_string
  settings_to_profile-profile_to_settings p h r4 r6 =
      rw
        (
          around-connection p p.connection_type,
          connection-id p,
          lawful.str_back p.id,
          connection-type p,
          lawful.str_back (type_string p.connection_type),
          by_type_back p p.connection_type h.transport (default-IsValid p h),
        )
        (fill_in_back p h r4 r6)
