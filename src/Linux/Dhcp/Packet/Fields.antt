-- ===== src/Linux/Dhcp/Packet/Fields.antt =====
-- src/linux/dhcp/packet.rs: what a message says, read from its header and options.
use mathlib.Core.Option
use network_manager_rs.Common.{
  ℕ, not, Option, none, some, List, [], ◌∷◌, Str, length, take, find, ◌==◌, if◌then◌else◌, Octets4,
}
use network_manager_rs.Linux.Model.{is_unspecified}
use network_manager_rs.Linux.Dhcp.Packet.{
  DhcpOption, DhcpPacket, DhcpMessageType, unknown_type, type_from_u8, octets4, u32_of,
  option_subnet_mask, option_router, option_dns, option_hostname, option_domain_name,
  option_lease_time, option_message_type, option_server_id, option_t1, option_t2,
}

abbrev pub value_of : DhcpOption → List ℕ
value_of (code, value) = value

unfoldable pub get_option : DhcpPacket → ℕ → Option (List ℕ)
get_option p code = Option.map value_of (find (λ o. o.0 == code) p.options)

abbrev first_code : List ℕ → DhcpMessageType
first_code [] = unknown_type 0
first_code (b ∷ bs) = type_from_u8 b

unfoldable pub message_type : DhcpPacket → DhcpMessageType
message_type p = elim (get_option p option_message_type) [
  | none ↦ unknown_type 0
  | some bytes ↦ first_code bytes
]

unfoldable pub hardware_address : DhcpPacket → List ℕ
hardware_address p = take 6 p.chaddr

-- `(!address.is_unspecified()).then_some(address)`.
abbrev specified : Octets4 → Option Octets4
specified a = if not (is_unspecified a) then some a else none

unfoldable pub yiaddr : DhcpPacket → Option Octets4
yiaddr p = specified p.yiaddr

unfoldable pub ciaddr : DhcpPacket → Option Octets4
ciaddr p = specified p.ciaddr

unfoldable pub source_address : DhcpPacket → Option Octets4
source_address p = specified p.siaddr

-- `option.filter(|bytes| bytes.len() == 4).map(read)`.
abbrev four {ℓ} : {A : Type ℓ} → (List ℕ → A) → Option (List ℕ) → Option A
four read none = none
four read (some bytes) = if length bytes == 4 then some (read bytes) else none

-- `bytes.chunks_exact(4).map(as_ipv4)`.
abbrev pub chunks : List ℕ → List Octets4
chunks (a ∷ b ∷ c ∷ d ∷ rest) = record { a = a; b = b; c = c; d = d } ∷ chunks rest
chunks _ = []

abbrev addresses : Option (List ℕ) → List Octets4
addresses none = []
addresses (some bytes) = chunks bytes

unfoldable pub subnet_mask : DhcpPacket → Option Octets4
subnet_mask p = four octets4 (get_option p option_subnet_mask)

unfoldable pub routers : DhcpPacket → List Octets4
routers p = addresses (get_option p option_router)

unfoldable pub dns_servers : DhcpPacket → List Octets4
dns_servers p = addresses (get_option p option_dns)

-- The bytes before the first zero.
abbrev pub until_zero : List ℕ → List ℕ
until_zero [] = []
until_zero (b ∷ bs) = let rest = until_zero bs in if b == 0 then [] else b ∷ rest

-- `trimmed` is `String::from_utf8_lossy(bytes).trim()`.
module _ (trimmed : List ℕ → Str) where
  unfoldable pub string_option : DhcpPacket → ℕ → Option Str
  string_option p code = Option.map (λ bytes. trimmed (until_zero bytes)) (get_option p code)

  unfoldable pub hostname : DhcpPacket → Option Str
  hostname p = string_option p option_hostname

  unfoldable pub domain_name : DhcpPacket → Option Str
  domain_name p = string_option p option_domain_name

unfoldable pub u32_option : DhcpPacket → ℕ → Option ℕ
u32_option p code = four u32_of (get_option p code)

unfoldable pub lease_seconds : DhcpPacket → Option ℕ
lease_seconds p = u32_option p option_lease_time

unfoldable pub t1_seconds : DhcpPacket → Option ℕ
t1_seconds p = u32_option p option_t1

unfoldable pub t2_seconds : DhcpPacket → Option ℕ
t2_seconds p = u32_option p option_t2

unfoldable pub server_identifier : DhcpPacket → Option Octets4
server_identifier p = four octets4 (get_option p option_server_id)
