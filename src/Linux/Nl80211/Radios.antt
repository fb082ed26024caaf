-- ===== src/Linux/Nl80211/Radios.antt =====
-- src/linux/nl80211.rs: families, interfaces, radios and networks from their attributes.
use mathlib.Core.Option
use network_manager_rs.Common.{
  ℕ, zero, suc, ◌+◌, ◌-◌, ◌/◌, ◌%◌, Bool, true, false, Option, none, some, List, [], ◌∷◌, ◌++◌, map,
  length, any, take, drop, ◌==◌, if◌then◌else◌, Result, ok, ◌>>=◌, str, Str, ltb,
}
use network_manager_rs.Common.Int.{ℤ, pos, negsuc}
use network_manager_rs.Linux.Model.{NetlinkError}
use network_manager_rs.Linux.Model.Wireless.{
  InterfaceType, unspecified, interface_type_from_u8, band_from_u8, WifiBand, WifiCipher,
  cipher_from_u32, WifiCapabilities, WirelessInterface, AccessPoint, frequency_to_channel,
}
use network_manager_rs.Linux.Model.Events.{WifiEvent, WifiEventKind, scan_results, scan_aborted}
use network_manager_rs.Linux.Netlink.Wire.{le_of, i32_of_bits}
use network_manager_rs.Linux.Netlink.Parse.{malformed}
use network_manager_rs.Linux.Nl80211.Codec.{RawAttr, RawMsg, parse_attrs, parse_genl_messages}
use network_manager_rs.Linux.Nl80211.Readers.{
  read_bytes, read_u8, read_u16, read_u32, read_i32, read_mac, read_ssid, read_string, nested_attrs,
}
use network_manager_rs.Linux.Nl80211.Elements.{parse_security, ssid_from_ies}

pub record FamilyInfo : Type 0 where
  pub id : ℕ
  pub mcast_groups : List (Str × ℕ)

pub record WiphyInfo : Type 0 where
  pub index : ℕ
  pub name : Str
  pub capabilities : WifiCapabilities

-- `for a in list { .. }` that pushes at most one result for each, and stops at the first error.
abbrev pub push_each {ℓ} :
    {A : Type ℓ} {B : Type 0}
    → (A → Result (List B) NetlinkError)
    → List A
    → Result (List B) NetlinkError
push_each f [] = ok []
push_each f (a ∷ rest) =
    let later = push_each f rest in f a >>= λ here. later >>= λ there. ok (here ++ there)

-- `if let (Some(a), Some(b))`.
abbrev pub both {ℓ κ} : {A : Type ℓ} {B : Type κ} → Option A → Option B → List (A × B)
both (some a) (some b) = (a, b) ∷ []
both _ _ = []

abbrev pub one_or_none {ℓ} : {A : Type ℓ} → Option A → List A
one_or_none none = []
one_or_none (some a) = a ∷ []

-- `unwrap_or_default` of a text.
abbrev pub or_empty : Option Str → Str
or_empty none = []
or_empty (some s) = s

abbrev pub no_capabilities : WifiCapabilities
no_capabilities = record {
  supported_interfaces = [];
  cipher_suites = [];
  bands = [];
  max_scan_ssids = none;
  scan_supported = false;
}

abbrev pub is_there {ℓ} : {A : Type ℓ} → Option A → Bool
is_there none = false
is_there (some a) = true

-- `chunks_exact(4)`, on fuel: each chunk takes four bytes.
abbrev pub ciphers_of : ℕ → List ℕ → List WifiCipher
ciphers_of zero payload = []
ciphers_of (suc fuel) payload =
    let rest = ciphers_of fuel (drop 4 payload) in
    if ltb (length payload) 4 then [] else cipher_from_u32 (le_of (take 4 payload)) ∷ rest

unfoldable pub parse_cipher_suites : List ℕ → Result (List WifiCipher) NetlinkError
parse_cipher_suites payload =
    if length payload % 4 == 0
    then ok (ciphers_of (length payload) payload)
    else malformed (str "invalid cipher suite length")

abbrev pub ciphers_in : Option (List ℕ) → Result (List WifiCipher) NetlinkError
ciphers_in none = ok []
ciphers_in (some payload) = parse_cipher_suites payload

-- A frequency of a band: the attribute's type and the frequency, unless it is disabled.
unfoldable pub frequency_of : RawAttr → Result (List (ℕ × ℕ)) NetlinkError
frequency_of entry = parse_attrs entry.payload >>= λ inner.
    if any (λ attr. attr.typ == 2) inner
    then ok []
    else read_u32 inner 1 >>= λ frequency.
        ok (one_or_none (Option.map (λ f. (entry.typ, f)) frequency))

abbrev pub frequencies_in : Option (List ℕ) → Result (List (ℕ × ℕ)) NetlinkError
frequencies_in none = ok []
frequencies_in (some payload) = parse_attrs payload >>= push_each frequency_of

unfoldable pub band_from_attrs : ℕ → List ℕ → Result WifiBand NetlinkError
band_from_attrs band_id payload = parse_attrs payload >>= λ attrs.
    frequencies_in (read_bytes attrs 1) >>= λ entries. read_u16 attrs 4 >>= λ ht.
    read_u32 attrs 8 >>= λ vht. ok (record {
      id = band_from_u8 band_id;
      channels = map (λ e. e.0) entries;
      frequencies = map (λ e. e.1) entries;
      ht_capabilities = ht;
      vht_capabilities = vht;
    })

-- `mbm / 100`, which rounds towards zero.
abbrev pub dbm_of : ℤ → ℤ
dbm_of (pos n) = pos (n / 100)
dbm_of (negsuc n) = let q = (n + 1) / 100 in if q == 0 then pos 0 else negsuc (q - 1)

-- `or_else`.
abbrev pub or_this {ℓ} : {A : Type ℓ} → Option A → Option A → Option A
or_this none other = other
or_this (some a) other = some a

abbrev pub and_then {ℓ κ} : {A : Type ℓ} {B : Type κ} → (A → Option B) → Option A → Option B
and_then f none = none
and_then f (some a) = f a

abbrev pub bytes_or_none : Option (List ℕ) → List ℕ
bytes_or_none none = []
bytes_or_none (some bytes) = bytes

abbrev pub access_point : List RawAttr → List RawAttr → Result AccessPoint NetlinkError
access_point attrs bss = read_mac bss 1 >>= λ bssid. read_u32 bss 2 >>= λ frequency.
    read_u16 bss 5 >>= λ capability. read_i32 bss 7 >>= λ signal.
    read_u8 bss 8 >>= λ signal_unspecified. read_u32 bss 10 >>= λ seen.
    read_ssid attrs 52 >>= λ ssid.
    let ies = or_this (read_bytes bss 6) (read_bytes bss 11) in
    parse_security (bytes_or_none ies) capability >>= λ security. ok (record {
      bssid = bssid;
      ssid = or_this ssid (and_then ssid_from_ies ies);
      frequency = frequency;
      channel = and_then frequency_to_channel frequency;
      signal_dbm = Option.map dbm_of signal;
      signal_unspecified = signal_unspecified;
      capability = capability;
      security = security;
      seen_millis_ago = seen;
    })

abbrev pub point_in : List RawAttr → Option (List ℕ) → Result (Option AccessPoint) NetlinkError
point_in attrs none = ok none
point_in attrs (some payload) =
    parse_attrs payload >>= λ bss. access_point attrs bss >>= λ point. ok (some point)

unfoldable pub bss_from_attrs : List RawAttr → Result (Option AccessPoint) NetlinkError
bss_from_attrs attrs = point_in attrs (read_bytes attrs 47)

-- `let Some(index) = read_u32(attrs, typ)? else { return Ok(None) }`.
abbrev pub with_index :
    {A : Type 0} → List RawAttr → ℕ → (ℕ → Result A NetlinkError) → Result (Option A) NetlinkError
with_index attrs typ build = read_u32 attrs typ >>= λ index. elim index [
  | none ↦ ok none
  | some i ↦ build i >>= λ a. ok (some a)
]

-- The kind of event that a command announces.
abbrev pub scan_event : Option ℕ → Option WifiEventKind
scan_event none = none
scan_event (some cmd) =
    if cmd == 34 then some scan_results else if cmd == 35 then some scan_aborted else none

abbrev pub unless_zero : Option ℕ → Option ℕ
unless_zero none = none
unless_zero (some f) = if f == 0 then none else some f

abbrev pub wifi_event : RawMsg → WifiEventKind → Result (List WifiEvent) NetlinkError
wifi_event message kind =
    with_index message.attrs 3 (λ index. read_u32 message.attrs 38 >>= λ frequency. ok (record {
      kind = kind;
      interface_index = i32_of_bits index;
      interface_name = none;
      frequency = unless_zero frequency;
    }))
    >>= λ event. ok (one_or_none event)

abbrev pub events_of : RawMsg → Result (List WifiEvent) NetlinkError
events_of message = elim (scan_event message.cmd) [
  | none ↦ ok []
  | some kind ↦ wifi_event message kind
]

unfoldable pub parse_scan_events : List ℕ → Result (List WifiEvent) NetlinkError
parse_scan_events buf = parse_genl_messages buf >>= push_each events_of

module _ (lossy : List ℕ → Str) where
  abbrev pub group_of : RawAttr → Result (List (Str × ℕ)) NetlinkError
  group_of group = parse_attrs group.payload >>= λ inner.
      read_string lossy inner 1 >>= λ name. read_u32 inner 2 >>= λ group_id. ok (both name group_id)

  abbrev pub groups_in : Option (List ℕ) → Result (List (Str × ℕ)) NetlinkError
  groups_in none = ok []
  groups_in (some payload) = parse_attrs payload >>= push_each group_of

  abbrev pub family_of : List RawAttr → Option (List ℕ) → Result (Option FamilyInfo) NetlinkError
  family_of attrs none = ok none
  family_of attrs (some payload) =
      if length payload == 2
      then (groups_in (read_bytes attrs 7) >>= λ groups.
          ok (some (record { id = le_of payload; mcast_groups = groups })))
      else malformed (str "invalid family id length")

  unfoldable pub family_info_from_attrs : List RawAttr → Result (Option FamilyInfo) NetlinkError
  family_info_from_attrs attrs = family_of attrs (read_bytes attrs 1)

  abbrev pub type_or_unspecified : Option ℕ → InterfaceType
  type_or_unspecified none = unspecified
  type_or_unspecified (some value) = interface_type_from_u8 value

  unfoldable pub interface_from_attrs :
      List RawAttr → Result (Option WirelessInterface) NetlinkError
  interface_from_attrs attrs = with_index attrs 3 λ index. read_string lossy attrs 4 >>= λ name.
      read_u32 attrs 1 >>= λ wiphy. read_u8 attrs 5 >>= λ iftype. read_mac attrs 6 >>= λ mac.
      ok (record {
        index = i32_of_bits index;
        name = or_empty name;
        wiphy_index = wiphy;
        wiphy_name = none;
        interface_type = type_or_unspecified iftype;
        mac = mac;
        up = false;
        capabilities = no_capabilities;
      })

  abbrev pub band_of : RawAttr → Result (List WifiBand) NetlinkError
  band_of band = band_from_attrs (band.typ % 256) band.payload >>= λ b. ok (b ∷ [])

  unfoldable pub wiphy_from_attrs : List RawAttr → Result (Option WiphyInfo) NetlinkError
  wiphy_from_attrs attrs = with_index attrs 1 λ index. read_string lossy attrs 2 >>= λ name.
      nested_attrs attrs 32 >>= λ supported. ciphers_in (read_bytes attrs 57) >>= λ ciphers.
      read_u8 attrs 43 >>= λ scan_ssids. nested_attrs attrs 22 >>= λ nested.
      push_each band_of nested >>= λ bands. ok (record {
        index = index;
        name = or_empty name;
        capabilities = record {
          supported_interfaces = map (λ a. interface_type_from_u8 (a.typ % 256)) supported;
          cipher_suites = ciphers;
          bands = bands;
          max_scan_ssids = scan_ssids;
          scan_supported = is_there scan_ssids;
        };
      })
