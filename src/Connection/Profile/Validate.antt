-- ===== src/Connection/Profile/Validate.antt =====
-- What a valid profile is, apart from the order in which the code looks for problems.
use network_manager_rs.Common.{
  ℕ, ◌≤◌, ◌≡◌, refl, ◌≢◌, ◌↔◌, ◌⊎◌, Bool, true, false, Option, none, some, [], ◌∷◌, Str, length,
  All, ok, arith, if◌then◌else◌,
}
use network_manager_rs.Linux.Model.{IpAddr, is_ipv4}
use network_manager_rs.Connection.Profile.{
  KeyManagement, open_network, wpa_psk, wpa_eap, sae, owe, WifiSecurity, ConnectionType, wifi_type,
  ethernet_type, IpMethod, automatic, manual, disabled, IpConfig, ConnectionProfile, id_chars,
  validate_security, validate_type, validate_manual, validate_method, validate_ip_config, validate,
}

abbrev pub IsIdChar : ℕ → Type 0
IsIdChar c =
    ((b'0' ≤ c) × (c ≤ b'9'))
    ⊎ (((b'A' ≤ c) × (c ≤ b'Z')) ⊎ (((b'a' ≤ c) × (c ≤ b'z')) ⊎ ((c ≡ b'-') ⊎ (c ≡ b'_'))))

abbrev pub IsSecure : KeyManagement → WifiSecurity → Type 0
IsSecure wpa_psk s = s.secret ≢ none
IsSecure sae s = s.secret ≢ none
IsSecure wpa_eap s = (identity : Str) × (s.identity ≡ some identity) × (identity ≢ [])
IsSecure open_network s = s.secret ≡ none
IsSecure owe s = s.secret ≡ none

abbrev pub IsTransport : ConnectionType → Type 0
IsTransport (wifi_type s) =
    (1 ≤ length s.ssid) × (length s.ssid ≤ 32) × IsSecure s.security.key_management s.security
IsTransport (ethernet_type s) = s.speed_mbit ≢ some 0

-- A manual configuration names an address of the family and a prefix length that fits it.
abbrev pub IsManual : Option IpAddr → Option ℕ → Bool → Type 0
IsManual address prefix expect_v4 =
    (a : IpAddr) × (n : ℕ) × (address ≡ some a)
    × (prefix ≡ some n)
    × (is_ipv4 a ≡ expect_v4)
    × (n ≤ (if expect_v4 then 32 else 128))

abbrev pub IsIpConfig : IpConfig → Bool → Type 0
IsIpConfig c expect_v4 = c.method ≡ manual → IsManual c.address c.prefix_length expect_v4

pub record IsValid (p : ConnectionProfile) : Type 0 where
  pub has_id : p.id ≢ []
  pub clean_id : All IsIdChar p.id
  pub has_name : p.name ≢ []
  pub transport : IsTransport p.connection_type
  pub ipv4 : IsIpConfig p.ipv4 true
  pub ipv6 : IsIpConfig p.ipv6 false

id_chars→ : (s : Str) → id_chars s ≡ true → All IsIdChar s
id_chars→ [] h = tt
id_chars→ (c ∷ cs) h = ground (arith, id_chars→ cs)

id_chars← : (s : Str) → All IsIdChar s → id_chars s ≡ true
id_chars← [] h = refl
id_chars← (c ∷ cs) h = ground (arith, id_chars← cs h.1)

security→ : (k : KeyManagement) (s : WifiSecurity) → validate_security k s ≡ ok tt → IsSecure k s
unfolding validate_security
security→ wpa_psk s h = ground arith
security→ sae s h = ground arith
security→ wpa_eap s h = ground arith
security→ open_network s h = ground arith
security→ owe s h = ground arith

security← : (k : KeyManagement) (s : WifiSecurity) → IsSecure k s → validate_security k s ≡ ok tt
unfolding validate_security
security← wpa_psk s h = ground arith
security← sae s h = ground arith
security← wpa_eap s h = ground arith
security← open_network s h = ground arith
security← owe s h = ground arith

transport→ : (t : ConnectionType) → validate_type t ≡ ok tt → IsTransport t
unfolding validate_type
transport→ (wifi_type s) h = ground (arith, security→ s.security.key_management s.security)
transport→ (ethernet_type s) h = ground arith

transport← : (t : ConnectionType) → IsTransport t → validate_type t ≡ ok tt
unfolding validate_type
transport← (wifi_type s) h = ground (arith, security← s.security.key_management s.security h.2)
transport← (ethernet_type s) h = ground arith

manual→ :
    (a : Option IpAddr) (n : Option ℕ) (v : Bool) → validate_manual a n v ≡ ok tt → IsManual a n v
unfolding validate_manual
manual→ none n v h = cc
manual→ (some a) none v h = ground arith
manual→ (some a) (some n) v h = (a, n, refl, refl, ground arith, ground arith)

manual← :
    (a : Option IpAddr) (n : Option ℕ) (v : Bool) → IsManual a n v → validate_manual a n v ≡ ok tt
unfolding validate_manual
manual← a n v (a', n', ea, en, f, b) = rw (ea, en, validate_manual) (ground arith)

ip→ : (c : IpConfig) (v : Bool) → validate_ip_config c v ≡ ok tt → IsIpConfig c v
unfolding validate_ip_config validate_method
ip→ c v h e = manual→ c.address c.prefix_length v (rw (e, validate_method) at h)

method← :
    (m : IpMethod) (c : IpConfig) (v : Bool)
    → (m ≡ manual → IsManual c.address c.prefix_length v)
    → validate_method m c v ≡ ok tt
unfolding validate_method
method← automatic c v h = refl
method← manual c v h = manual← c.address c.prefix_length v (h refl)
method← disabled c v h = refl

ip← : (c : IpConfig) (v : Bool) → IsIpConfig c v → validate_ip_config c v ≡ ok tt
unfolding validate_ip_config
ip← c v h = method← c.method c v h

validate→ : (p : ConnectionProfile) → validate p ≡ ok tt → IsValid p
unfolding validate
validate→ p h =
    ground (arith, id_chars→ p.id, transport→ p.connection_type, ip→ p.ipv4 true, ip→ p.ipv6 false)

validate← : (p : ConnectionProfile) → IsValid p → validate p ≡ ok tt
unfolding validate
validate← p v = ground (
  arith,
  id_chars← p.id v.clean_id,
  transport← p.connection_type v.transport,
  ip← p.ipv4 true v.ipv4,
  ip← p.ipv6 false v.ipv6,
)

-- `validate` accepts a profile exactly when the profile is valid.
pub validate_iff : (p : ConnectionProfile) → (validate p ≡ ok tt) ↔ IsValid p
validate_iff p = (validate→ p, validate← p)
