-- ===== src/Linux/Dhcp/Packet.antt =====
-- src/linux/dhcp/packet.rs: BOOTP/DHCP messages, written to bytes and read back.
pub mod RoundTrip
pub mod Options
pub mod Build
pub mod Lease
pub mod Netmask
pub mod Fields
use network_manager_rs.Common.{
  ℕ, zero, suc, ◌+◌, ◌%◌, Bool, not, ◌&&◌, ◌||◌, List, [], ◌∷◌, ◌++◌, str, Result, ok, err, ◌>>=◌,
  length, take, drop, get_or, slices_then, replicate, ltb, ◌==◌, if◌then◌else◌, match_code, str_eq,
  Octets4, octets, be16, be32, from_be16, from_be32,
}
use network_manager_rs.Connection.Ip.{DhcpError, malformed_packet}

abbrev pub magic_cookie : List ℕ
magic_cookie = 99 ∷ 130 ∷ 83 ∷ 99 ∷ []

abbrev pub fixed_length : ℕ
fixed_length = 236

abbrev pub options_offset : ℕ
options_offset = fixed_length + 4

abbrev pub option_pad : ℕ
option_pad = 0

abbrev pub option_subnet_mask : ℕ
option_subnet_mask = 1

abbrev pub option_router : ℕ
option_router = 3

abbrev pub option_dns : ℕ
option_dns = 6

abbrev pub option_hostname : ℕ
option_hostname = 12

abbrev pub option_domain_name : ℕ
option_domain_name = 15

abbrev pub option_requested_ip : ℕ
option_requested_ip = 50

abbrev pub option_lease_time : ℕ
option_lease_time = 51

abbrev pub option_message_type : ℕ
option_message_type = 53

abbrev pub option_server_id : ℕ
option_server_id = 54

abbrev pub option_t1 : ℕ
option_t1 = 58

abbrev pub option_t2 : ℕ
option_t2 = 59

abbrev pub option_end : ℕ
option_end = 255

pub data DhcpMessageType : Type 0 where
  discover offer request decline ack nak release inform : DhcpMessageType
  unknown_type : ℕ → DhcpMessageType

unfoldable pub type_from_u8 : ℕ → DhcpMessageType
type_from_u8 =
    match_code
      ((1, discover)
        ∷ (2, offer)
        ∷ (3, request)
        ∷ (4, decline)
        ∷ (5, ack)
        ∷ (6, nak)
        ∷ (7, release)
        ∷ (8, inform)
        ∷ [])
      unknown_type

unfoldable pub type_as_u8 : DhcpMessageType → ℕ
type_as_u8 discover = 1
type_as_u8 offer = 2
type_as_u8 request = 3
type_as_u8 decline = 4
type_as_u8 ack = 5
type_as_u8 nak = 6
type_as_u8 release = 7
type_as_u8 inform = 8
type_as_u8 (unknown_type value) = value

-- An option: its code and its value.
abbrev pub DhcpOption : Type 0
DhcpOption = ℕ × List ℕ

-- The arrays of 16, 64 and 128 bytes are lists; `IsPacket` states their sizes.
pub record DhcpPacket : Type 0 where
  pub op : ℕ
  pub xid : ℕ
  pub flags : ℕ
  pub ciaddr : Octets4
  pub yiaddr : Octets4
  pub siaddr : Octets4
  pub giaddr : Octets4
  pub chaddr : List ℕ
  pub sname : List ℕ
  pub file : List ℕ
  pub options : List DhcpOption

-- PAD and END carry no value and are not written.
abbrev pub is_written : DhcpOption → Bool
is_written (code, value) = not (code == option_pad || code == option_end)

unfoldable pub build_options : List DhcpOption → List ℕ
build_options [] = option_end ∷ []
build_options ((code, value) ∷ entries) =
    let rest = build_options entries in
    if is_written (code, value) then code ∷ length value % 256 ∷ (value ++ rest) else rest

unfoldable pub serialize_with_options : DhcpPacket → List DhcpOption → List ℕ
serialize_with_options p extra_options =
    slices_then
      ((p.op ∷ 1 ∷ 6 ∷ 0 ∷ [])
        ∷ be32 p.xid
        ∷ be16 0
        ∷ be16 p.flags
        ∷ octets p.ciaddr
        ∷ octets p.yiaddr
        ∷ octets p.siaddr
        ∷ octets p.giaddr
        ∷ p.chaddr
        ∷ p.sname
        ∷ p.file
        ∷ magic_cookie
        ∷ [])
      (build_options (p.options ++ extra_options))

unfoldable pub serialize : DhcpPacket → List ℕ
serialize p = serialize_with_options p []

-- The loop of `parse` over the bytes from `offset` on. Each round drops at least one byte, so the
-- number of bytes is enough fuel.
unfoldable pub parse_options : ℕ → List ℕ → Result (List DhcpOption) DhcpError
parse_options fuel [] = ok []
parse_options zero (code ∷ rest) = ok []
parse_options (suc fuel) (code ∷ rest) =
    let len = get_or rest 0 0 in
    let value = drop 1 rest in
    let later = parse_options fuel (if code == option_pad then rest else drop len value) in
    if code == option_end
    then ok []
    else if code == option_pad
    then later
    else if ltb (length rest) 1
    then err (malformed_packet (str "truncated DHCP option header"))
    else if ltb (length value) len
    then err (malformed_packet (str "truncated DHCP option value"))
    else later >>= λ options. ok ((code, take len value) ∷ options)

-- `bytes[from..from + count]`.
abbrev pub slice : ℕ → ℕ → List ℕ → List ℕ
slice from count bytes = take count (drop from bytes)

-- An array of four bytes copied from a slice.
abbrev pub octets4 : List ℕ → Octets4
octets4 bytes = record {
  a = get_or bytes 0 0;
  b = get_or bytes 1 0;
  c = get_or bytes 2 0;
  d = get_or bytes 3 0;
}

abbrev pub u16_of : List ℕ → ℕ
u16_of bytes = from_be16 (get_or bytes 0 0) (get_or bytes 1 0)

abbrev pub u32_of : List ℕ → ℕ
u32_of bytes = from_be32 (get_or bytes 0 0) (get_or bytes 1 0) (get_or bytes 2 0) (get_or bytes 3 0)

-- The packet that `parse` builds from the fixed header once the options are read.
abbrev pub parse_header : List ℕ → List DhcpOption → DhcpPacket
parse_header bytes options = record {
  op = get_or bytes 0 0;
  xid = u32_of (slice 4 4 bytes);
  flags = u16_of (slice 10 2 bytes);
  ciaddr = octets4 (slice 12 4 bytes);
  yiaddr = octets4 (slice 16 4 bytes);
  siaddr = octets4 (slice 20 4 bytes);
  giaddr = octets4 (slice 24 4 bytes);
  chaddr = slice 28 16 bytes;
  sname = slice 44 64 bytes;
  file = slice 108 128 bytes;
  options = options;
}

unfoldable pub parse : List ℕ → Result DhcpPacket DhcpError
parse bytes =
    let rest = drop options_offset bytes in
    let parsed = parse_options (length rest) rest in
    if ltb (length bytes) options_offset
    then err (malformed_packet (str "packet shorter than fixed header"))
    else if not (str_eq (slice fixed_length 4 bytes) magic_cookie)
    then err (malformed_packet (str "missing DHCP magic cookie"))
    else parsed >>= λ options. ok (parse_header bytes options)
