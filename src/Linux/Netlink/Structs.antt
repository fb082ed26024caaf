-- ===== src/Linux/Netlink/Structs.antt =====
-- src/linux/netlink.rs: the structs of a message, and the builders of messages and payloads.
use Prim.Native.Nat.{bit_or}
use network_manager_rs.Common.{
  ℕ, ◌+◌, ◌-◌, List, [], ◌∷◌, length, replicate, get_or, slices_then, Result,
}
use network_manager_rs.Common.Int.{ℤ}
use network_manager_rs.Linux.Model.{NetlinkError}
use network_manager_rs.Linux.Netlink.Wire.{
  le_bytes, le_of, i32_bits, i32_of_bits, part, align, read_unaligned, nlm_f_request, nlm_f_dump,
  rtm_getlink, rtm_getaddr, rtm_getroute, rtprot_static,
}

pub record NlMsgHdr : Type 0 where
  pub nlmsg_len : ℕ
  pub nlmsg_type : ℕ
  pub nlmsg_flags : ℕ
  pub nlmsg_seq : ℕ
  pub nlmsg_pid : ℕ

abbrev pub header_bytes : NlMsgHdr → List ℕ
header_bytes h =
    slices_then
      (le_bytes 4 h.nlmsg_len
        ∷ le_bytes 2 h.nlmsg_type
        ∷ le_bytes 2 h.nlmsg_flags
        ∷ le_bytes 4 h.nlmsg_seq
        ∷ [])
      (le_bytes 4 h.nlmsg_pid)

abbrev pub header_layout : List ℕ → NlMsgHdr
header_layout bytes = record {
  nlmsg_len = le_of (part 0 4 bytes);
  nlmsg_type = le_of (part 4 2 bytes);
  nlmsg_flags = le_of (part 6 2 bytes);
  nlmsg_seq = le_of (part 8 4 bytes);
  nlmsg_pid = le_of (part 12 4 bytes);
}

unfoldable pub read_header : List ℕ → Result NlMsgHdr NetlinkError
read_header = read_unaligned 16 header_layout

-- The fields of `IfInfoMsg` that are read.
pub record IfInfoMsg : Type 0 where
  pub ifi_index : ℤ
  pub ifi_flags : ℕ

abbrev pub ifinfo_layout : List ℕ → IfInfoMsg
ifinfo_layout bytes = record {
  ifi_index = i32_of_bits (le_of (part 4 4 bytes));
  ifi_flags = le_of (part 8 4 bytes);
}

pub record IfAddrMsg : Type 0 where
  pub ifa_family : ℕ
  pub ifa_prefixlen : ℕ
  pub ifa_flags : ℕ
  pub ifa_scope : ℕ
  pub ifa_index : ℕ

abbrev pub ifaddr_bytes : IfAddrMsg → List ℕ
ifaddr_bytes m = m.ifa_family ∷ m.ifa_prefixlen ∷ m.ifa_flags ∷ m.ifa_scope ∷ le_bytes 4 m.ifa_index

abbrev pub ifaddr_layout : List ℕ → IfAddrMsg
ifaddr_layout bytes = record {
  ifa_family = get_or bytes 0 0;
  ifa_prefixlen = get_or bytes 1 0;
  ifa_flags = get_or bytes 2 0;
  ifa_scope = get_or bytes 3 0;
  ifa_index = le_of (part 4 4 bytes);
}

pub record RtMsg : Type 0 where
  pub rtm_family : ℕ
  pub rtm_dst_len : ℕ
  pub rtm_src_len : ℕ
  pub rtm_tos : ℕ
  pub rtm_table : ℕ
  pub rtm_protocol : ℕ
  pub rtm_scope : ℕ
  pub rtm_type : ℕ
  pub rtm_flags : ℕ

abbrev pub rtmsg_bytes : RtMsg → List ℕ
rtmsg_bytes m =
    m.rtm_family
    ∷ m.rtm_dst_len
    ∷ m.rtm_src_len
    ∷ m.rtm_tos
    ∷ m.rtm_table
    ∷ m.rtm_protocol
    ∷ m.rtm_scope
    ∷ m.rtm_type
    ∷ le_bytes 4 m.rtm_flags

abbrev pub rtmsg_layout : List ℕ → RtMsg
rtmsg_layout bytes = record {
  rtm_family = get_or bytes 0 0;
  rtm_dst_len = get_or bytes 1 0;
  rtm_src_len = get_or bytes 2 0;
  rtm_tos = get_or bytes 3 0;
  rtm_table = get_or bytes 4 0;
  rtm_protocol = get_or bytes 5 0;
  rtm_scope = get_or bytes 6 0;
  rtm_type = get_or bytes 7 0;
  rtm_flags = le_of (part 8 4 bytes);
}

-- An attribute: its type and its value.
abbrev pub Attr : Type 0
Attr = ℕ × List ℕ

-- `push_attr`, as what it appends before `rest`; the length is a `u16`.
unfoldable pub push_attr : Attr → List ℕ → List ℕ
push_attr (attr_type, value) rest =
    let attr_len = 4 + length value in
    slices_then
      (le_bytes 2 attr_len
        ∷ le_bytes 2 attr_type
        ∷ value
        ∷ replicate (align attr_len - attr_len) 0
        ∷ [])
      rest

abbrev pub push_attrs : List Attr → List ℕ
push_attrs [] = []
push_attrs (a ∷ attrs) = push_attr a (push_attrs attrs)

unfoldable pub build_netlink_message : ℕ → ℕ → List ℕ → List ℕ
build_netlink_message message_type flags payload =
    slices_then
      (header_bytes (record {
        nlmsg_len = 16 + length payload;
        nlmsg_type = message_type;
        nlmsg_flags = flags;
        nlmsg_seq = 1;
        nlmsg_pid = 0;
      })
        ∷ [])
      payload

unfoldable pub ifaddr_payload : ℕ → ℕ → ℤ → List Attr → List ℕ
ifaddr_payload family prefix_length index attrs =
    slices_then
      (ifaddr_bytes (record {
        ifa_family = family;
        ifa_prefixlen = prefix_length;
        ifa_flags = 0;
        ifa_scope = 0;
        ifa_index = i32_bits index;
      })
        ∷ [])
      (push_attrs attrs)

unfoldable pub rtmsg_payload : ℕ → ℕ → ℕ → ℕ → ℕ → List Attr → List ℕ
rtmsg_payload family dst_len table scope route_type attrs =
    slices_then
      (rtmsg_bytes (record {
        rtm_family = family;
        rtm_dst_len = dst_len;
        rtm_src_len = 0;
        rtm_tos = 0;
        rtm_table = table;
        rtm_protocol = rtprot_static;
        rtm_scope = scope;
        rtm_type = route_type;
        rtm_flags = 0;
      })
        ∷ [])
      (push_attrs attrs)

-- A dump request: the header and an all-zero struct of the given size.
abbrev pub dump_request : ℕ → ℕ → ℕ → List ℕ
dump_request message_type sequence size =
    slices_then
      (header_bytes (record {
        nlmsg_len = 16 + size;
        nlmsg_type = message_type;
        nlmsg_flags = bit_or nlm_f_request nlm_f_dump;
        nlmsg_seq = sequence;
        nlmsg_pid = 0;
      })
        ∷ [])
      (replicate size 0)

abbrev pub link_dump_request : ℕ → List ℕ
link_dump_request sequence = dump_request rtm_getlink sequence 16

abbrev pub address_dump_request : ℕ → List ℕ
address_dump_request sequence = dump_request rtm_getaddr sequence 8

abbrev pub route_dump_request : ℕ → List ℕ
route_dump_request sequence = dump_request rtm_getroute sequence 12
