-- ===== src/Linux/Nl80211/Codec.antt =====
-- src/linux/nl80211.rs: attributes and generic netlink messages as bytes.
use network_manager_rs.Common.{
  ℕ, ◌+◌, ◌-◌, ◌/◌, ◌%◌, Bool, true, false, ◌||◌, Option, none, some, List, [], ◌∷◌, ◌++◌, length,
  drop, get_or, replicate, slices_then, ltb, ◌==◌, if◌then◌else◌, Result, ok, ◌>>=◌, str, Str,
}
use network_manager_rs.Linux.Model.{NetlinkError}
use network_manager_rs.Linux.Netlink.Wire.{le_bytes, align, nlmsg_error, nlmsg_done}
use network_manager_rs.Linux.Netlink.Structs.{Attr, NlMsgHdr, header_bytes}
use network_manager_rs.Linux.Netlink.Parse.{malformed}
use network_manager_rs.Linux.Netlink.Messages.{
  Flow, continue, Ended, returned, ran_out, walk_messages, nlmsghdr_text,
}
use network_manager_rs.Linux.Netlink.Attributes.{attrs_loop}

pub record RawAttr : Type 0 where
  pub typ : ℕ
  pub nested : Bool
  pub payload : List ℕ

pub record RawMsg : Type 0 where
  pub nlmsg_type : ℕ
  pub nlmsg_flags : ℕ
  pub cmd : Option ℕ
  pub attrs : List RawAttr
  pub payload : List ℕ

-- `header.nla_type & NLA_TYPE_MASK` and `header.nla_type & NLA_F_NESTED != 0`.
abbrev pub masked_type : ℕ → ℕ
masked_type nla_type = nla_type % 16384

abbrev pub is_nested : ℕ → Bool
is_nested nla_type = nla_type / 32768 % 2 == 1

abbrev pub raw_attr : Attr → RawAttr
raw_attr (nla_type, payload) = record {
  typ = masked_type nla_type;
  nested = is_nested nla_type;
  payload = payload;
}

abbrev pub nlattr_text : Str
nlattr_text = str "invalid nlattr length"

abbrev pub push_raw : Attr → List RawAttr → Result (List RawAttr) NetlinkError
push_raw attr attrs = ok (attrs ++ (raw_attr attr ∷ []))

-- `NlAttr` is laid out as netlink's `RtAttr`.
unfoldable pub parse_attrs : List ℕ → Result (List RawAttr) NetlinkError
parse_attrs payload = attrs_loop nlattr_text push_raw (length payload) payload []

-- `while buf.len() % NLA_ALIGNTO != 0 { buf.push(0) }`.
abbrev pub pad : List ℕ → List ℕ
pad buf = buf ++ replicate ((4 - length buf % 4) % 4) 0

abbrev pub push_all : List ℕ → List Attr → List ℕ
push_all buf [] = buf
push_all buf ((typ, payload) ∷ attrs) =
    push_all (pad (buf ++ (le_bytes 2 (4 + length payload) ++ (le_bytes 2 typ ++ payload)))) attrs

-- The sum of the aligned lengths.
abbrev pub attrs_len : List Attr → ℕ
attrs_len [] = 0
attrs_len ((typ, payload) ∷ attrs) = align (4 + length payload) + attrs_len attrs

unfoldable pub build_message : ℕ → ℕ → ℕ → ℕ → List Attr → List ℕ
build_message family_id cmd flags seq attrs =
    push_all
      (slices_then
        (header_bytes (record {
          nlmsg_len = 20 + attrs_len attrs;
          nlmsg_type = family_id;
          nlmsg_flags = flags;
          nlmsg_seq = seq;
          nlmsg_pid = 0;
        })
          ∷ [])
        (cmd ∷ 1 ∷ 0 ∷ 0 ∷ []))
      attrs

-- A message of the kernel's own types carries no command.
abbrev pub control_msg : NlMsgHdr → List ℕ → RawMsg
control_msg header payload = record {
  nlmsg_type = header.nlmsg_type;
  nlmsg_flags = header.nlmsg_flags;
  cmd = none;
  attrs = [];
  payload = payload;
}

abbrev pub genl_msg : NlMsgHdr → List ℕ → List RawAttr → RawMsg
genl_msg header payload attrs = record {
  nlmsg_type = header.nlmsg_type;
  nlmsg_flags = header.nlmsg_flags;
  cmd = some (get_or payload 0 0);
  attrs = attrs;
  payload = payload;
}

unfoldable pub genl_round :
    NlMsgHdr → List ℕ → List RawMsg → Result (Flow (List RawMsg) (List RawMsg)) NetlinkError
genl_round header payload messages =
    if header.nlmsg_type == nlmsg_done || header.nlmsg_type == nlmsg_error
    then ok (continue (messages ++ (control_msg header payload ∷ [])))
    else if ltb (length payload) 4
    then malformed (str "short genl header")
    else parse_attrs (drop 4 payload) >>= λ attrs.
        ok (continue (messages ++ (genl_msg header payload attrs ∷ [])))

-- The offset must end at the end of the buffer.
abbrev pub if_exact : Ended (List RawMsg) (List RawMsg) → Result (List RawMsg) NetlinkError
if_exact (returned messages) = ok messages
if_exact (ran_out true messages) = ok messages
if_exact (ran_out false messages) = malformed (str "trailing partial nlmsghdr")

unfoldable pub parse_genl_messages : List ℕ → Result (List RawMsg) NetlinkError
parse_genl_messages buf = walk_messages nlmsghdr_text genl_round buf [] >>= if_exact
