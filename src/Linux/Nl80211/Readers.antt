-- ===== src/Linux/Nl80211/Readers.antt =====
-- src/linux/nl80211.rs: typed reads of one attribute among several.
use mathlib.Core.Option
use network_manager_rs.Common.{
  ℕ, Option, none, some, List, [], length, get_or, find, ltb, ◌==◌, if◌then◌else◌, Result, ok, str,
  Str, leb,
}
use network_manager_rs.Common.Int.{ℤ}
use network_manager_rs.Linux.Model.{NetlinkError}
use network_manager_rs.Linux.Dhcp.Packet.Fields.{until_zero}
use network_manager_rs.Linux.Netlink.Wire.{le_of, i32_of_bits}
use network_manager_rs.Linux.Netlink.Parse.{malformed}
use network_manager_rs.Linux.Nl80211.Codec.{RawAttr, parse_attrs}

-- `attrs.iter().find(|attr| attr.typ == typ)`, and its payload.
abbrev pub read_bytes : List RawAttr → ℕ → Option (List ℕ)
read_bytes attrs typ = Option.map (λ attr. attr.payload) (find (λ attr. attr.typ == typ) attrs)

-- What a reader makes of a payload; without the attribute there is nothing.
abbrev pub if_there {ℓ} :
    {A : Type ℓ}
    → (List ℕ → Result (Option A) NetlinkError)
    → Option (List ℕ)
    → Result (Option A) NetlinkError
if_there read none = ok none
if_there read (some payload) = read payload

-- A payload of a fixed length, and the value of its bytes.
abbrev pub fixed {ℓ} :
    {A : Type ℓ} → ℕ → Str → (List ℕ → A) → List ℕ → Result (Option A) NetlinkError
fixed size text value payload =
    if length payload == size then ok (some (value payload)) else malformed text

unfoldable pub read_u8 : List RawAttr → ℕ → Result (Option ℕ) NetlinkError
read_u8 attrs typ =
    if_there (fixed 1 (str "invalid u8 attribute length") (λ bytes. get_or bytes 0 0))
      (read_bytes attrs typ)

unfoldable pub read_u16 : List RawAttr → ℕ → Result (Option ℕ) NetlinkError
read_u16 attrs typ =
    if_there (fixed 2 (str "invalid u16 attribute length") le_of) (read_bytes attrs typ)

unfoldable pub read_u32 : List RawAttr → ℕ → Result (Option ℕ) NetlinkError
read_u32 attrs typ =
    if_there (fixed 4 (str "invalid u32 attribute length") le_of) (read_bytes attrs typ)

unfoldable pub read_i32 : List RawAttr → ℕ → Result (Option ℤ) NetlinkError
read_i32 attrs typ =
    if_there (fixed 4 (str "invalid i32 attribute length") (λ bytes. i32_of_bits (le_of bytes)))
      (read_bytes attrs typ)

unfoldable pub read_mac : List RawAttr → ℕ → Result (Option (List ℕ)) NetlinkError
read_mac attrs typ =
    if_there (fixed 6 (str "invalid mac attribute length") (λ bytes. bytes)) (read_bytes attrs typ)

-- `Ssid::from_bytes`.
abbrev pub ssid_from_bytes : List ℕ → Option (List ℕ)
ssid_from_bytes bytes = if leb (length bytes) 32 then some bytes else none

unfoldable pub read_ssid : List RawAttr → ℕ → Result (Option (List ℕ)) NetlinkError
read_ssid attrs typ =
    if_there
      (λ payload.
        if ltb 32 (length payload)
        then malformed (str "invalid ssid length")
        else ok (ssid_from_bytes payload))
      (read_bytes attrs typ)

-- `lossy` is `String::from_utf8_lossy`.
unfoldable pub read_string : (List ℕ → Str) → List RawAttr → ℕ → Result (Option Str) NetlinkError
read_string lossy attrs typ =
    ok (Option.map (λ payload. lossy (until_zero payload)) (read_bytes attrs typ))

abbrev pub attrs_in : Option (List ℕ) → Result (List RawAttr) NetlinkError
attrs_in none = ok []
attrs_in (some payload) = parse_attrs payload

unfoldable pub nested_attrs : List RawAttr → ℕ → Result (List RawAttr) NetlinkError
nested_attrs attrs typ = attrs_in (read_bytes attrs typ)
