-- ===== src/Connection/Profile.antt =====
-- src/connection/profile.rs, device.rs and secrets.rs: the connection profile and its validation.
pub mod Build
pub mod Matches
pub mod Validate
use network_manager_rs.Common.{
  ℕ, Bool, true, false, not, ◌&&◌, ◌||◌, Option, none, some, List, [], ◌∷◌, Str, str_eq, length,
  Result, ok, err, ◌>>=◌, ◌>>◌, if◌then◌else◌, ltb, leb, ◌==◌,
}
use network_manager_rs.Common.Int.{ℤ, pos}
use network_manager_rs.Linux.Model.{IpAddr, is_ipv4, Route}

pub data DeviceKind : Type 0 where
  wifi ethernet : DeviceKind

pub record DeviceInfo : Type 0 where
  pub kind : DeviceKind
  pub interface_name : Str
  pub mac_address : Option (List ℕ)

pub data SecretReference : Type 0 where
  keyring agent : Str → SecretReference

abbrev pub identifier : SecretReference → Str
identifier (keyring name) = name
identifier (agent name) = name

pub data KeyManagement : Type 0 where
  open_network wpa_psk wpa_eap sae owe : KeyManagement

pub record WifiSecurity : Type 0 where
  pub key_management : KeyManagement
  pub secret : Option SecretReference
  pub identity : Option Str

pub record WifiSettings : Type 0 where
  pub ssid : List ℕ
  pub bssid : Option (List ℕ)
  pub hidden : Bool
  pub security : WifiSecurity

pub data EthernetDuplex : Type 0 where
  half full : EthernetDuplex

pub record EthernetSettings : Type 0 where
  pub autonegotiation : Option Bool
  pub speed_mbit : Option ℕ
  pub duplex : Option EthernetDuplex

pub data ConnectionType : Type 0 where
  wifi_type : WifiSettings → ConnectionType
  ethernet_type : EthernetSettings → ConnectionType

pub record DeviceMatch : Type 0 where
  pub interface_name : Option Str
  pub mac_address : Option (List ℕ)

pub data IpMethod : Type 0 where
  automatic manual disabled : IpMethod

pub record IpConfig : Type 0 where
  pub method : IpMethod
  pub address : Option IpAddr
  pub prefix_length : Option ℕ
  pub gateway : Option IpAddr
  pub dns_servers : List IpAddr
  pub routes : List Route

pub record ConnectionProfile : Type 0 where
  pub id : Str
  pub name : Str
  pub connection_type : ConnectionType
  pub device_match : DeviceMatch
  pub priority : ℤ
  pub autoconnect : Bool
  pub enabled : Bool
  pub ipv4 : IpConfig
  pub ipv6 : IpConfig

pub data ProfileValidationError : Type 0 where
  empty_id : ProfileValidationError
  invalid_id_chars : Str → ProfileValidationError
  empty_name empty_ssid : ProfileValidationError
  ssid_too_long : ℕ → ProfileValidationError
  missing_secret secret_not_allowed missing_identity invalid_speed : ProfileValidationError
  manual_address_required manual_prefix_required : ProfileValidationError
  prefix_out_of_range : ℕ → ProfileValidationError
  address_family_mismatch : ProfileValidationError

abbrev pub kind_of : ConnectionType → DeviceKind
kind_of (wifi_type s) = wifi
kind_of (ethernet_type s) = ethernet

abbrev pub device_kind : ConnectionProfile → DeviceKind
device_kind p = kind_of p.connection_type

abbrev pub kind_eq : DeviceKind → DeviceKind → Bool
kind_eq wifi wifi = true
kind_eq ethernet ethernet = true
kind_eq _ _ = false

-- A constraint that is absent holds; one that is present wants the device's value.
abbrev pub name_allowed : Option Str → Str → Bool
name_allowed none actual = true
name_allowed (some expected) actual = str_eq expected actual

abbrev pub mac_allowed : Option (List ℕ) → Option (List ℕ) → Bool
mac_allowed none actual = true
mac_allowed (some expected) none = false
mac_allowed (some expected) (some actual) = str_eq actual expected

unfoldable pub matches : ConnectionProfile → DeviceInfo → Bool
matches p device =
    if not (kind_eq (device_kind p) device.kind)
    then false
    else if not (name_allowed p.device_match.interface_name device.interface_name)
    then false
    else if not (mac_allowed p.device_match.mac_address device.mac_address)
    then false
    else true

-- `ch.is_ascii_alphanumeric() || ch == '-' || ch == '_'`, on the bytes of the id. A character
-- beyond ASCII has only bytes from 128 on, which the test refuses as it refuses the character.
abbrev pub id_char : ℕ → Bool
id_char c =
    (leb b'0' c && leb c b'9')
    || (leb b'A' c && leb c b'Z')
    || (leb b'a' c && leb c b'z')
    || c == b'-'
    || c == b'_'

abbrev pub id_chars : Str → Bool
id_chars [] = true
id_chars (c ∷ cs) = id_char c && id_chars cs

abbrev pub is_empty {ℓ} : {A : Type ℓ} → List A → Bool
is_empty [] = true
is_empty (x ∷ xs) = false

abbrev pub is_some {ℓ} : {A : Type ℓ} → Option A → Bool
is_some none = false
is_some (some a) = true

-- `if test { return Err(e) }`.
abbrev pub reject_if : Bool → ProfileValidationError → Result (Unit {0}) ProfileValidationError
reject_if true e = err e
reject_if false e = ok tt

abbrev pub has_identity : Option Str → Bool
has_identity none = false
has_identity (some identity) = not (is_empty identity)

unfoldable pub validate_security :
    KeyManagement → WifiSecurity → Result (Unit {0}) ProfileValidationError
validate_security wpa_psk s = reject_if (not (is_some s.secret)) missing_secret
validate_security sae s = reject_if (not (is_some s.secret)) missing_secret
validate_security wpa_eap s = reject_if (not (has_identity s.identity)) missing_identity
validate_security open_network s = reject_if (is_some s.secret) secret_not_allowed
validate_security owe s = reject_if (is_some s.secret) secret_not_allowed

abbrev pub is_zero_speed : Option ℕ → Bool
is_zero_speed none = false
is_zero_speed (some speed) = speed == 0

unfoldable pub validate_type : ConnectionType → Result (Unit {0}) ProfileValidationError
validate_type (wifi_type s) = do
  reject_if (length s.ssid == 0) empty_ssid
  reject_if (ltb 32 (length s.ssid)) (ssid_too_long (length s.ssid))
  validate_security s.security.key_management s.security
validate_type (ethernet_type s) = reject_if (is_zero_speed s.speed_mbit) invalid_speed

abbrev pub bool_ne : Bool → Bool → Bool
bool_ne true b = not b
bool_ne false b = b

-- The part of `validate_ip_config` behind `config.method == Manual`.
unfoldable pub validate_manual :
    Option IpAddr → Option ℕ → Bool → Result (Unit {0}) ProfileValidationError
validate_manual none prefix expect_v4 = err manual_address_required
validate_manual (some address) none expect_v4 = do
  reject_if (bool_ne (is_ipv4 address) expect_v4) address_family_mismatch
  err manual_prefix_required
validate_manual (some address) (some prefix) expect_v4 = do
  reject_if (bool_ne (is_ipv4 address) expect_v4) address_family_mismatch
  reject_if (ltb (if expect_v4 then 32 else 128) prefix) (prefix_out_of_range prefix)

unfoldable pub validate_method :
    IpMethod → IpConfig → Bool → Result (Unit {0}) ProfileValidationError
validate_method manual config expect_v4 =
    validate_manual config.address config.prefix_length expect_v4
validate_method _ config expect_v4 = ok tt

unfoldable pub validate_ip_config : IpConfig → Bool → Result (Unit {0}) ProfileValidationError
validate_ip_config config expect_v4 = validate_method config.method config expect_v4

unfoldable pub validate : ConnectionProfile → Result (Unit {0}) ProfileValidationError
validate p = do
  reject_if (is_empty p.id) empty_id
  reject_if (not (id_chars p.id)) (invalid_id_chars p.id)
  reject_if (is_empty p.name) empty_name
  validate_type p.connection_type
  validate_ip_config p.ipv4 true
  validate_ip_config p.ipv6 false
