-- ===== src/Linux/Nl80211/Requests.antt =====
-- src/linux/nl80211.rs: `Nl80211Connection`. What each call of `recv_into` returns is explicit, as in
-- the requests of netlink.rs.
use Prim.Native.Nat.{bit_or}
use network_manager_rs.Common.{
  ℕ, ◌||◌, Bool, true, false, Option, none, some, List, [], ◌∷◌, ◌++◌, length, ltb, ◌==◌,
  if◌then◌else◌, Result, ok, err, ◌>>=◌, str, Str, str_eq, find, take,
}
use network_manager_rs.Common.Int.{ℤ}
use network_manager_rs.Linux.Model.{NetlinkError}
use network_manager_rs.Linux.Model.Wireless.{WirelessInterface, AccessPoint}
use network_manager_rs.Linux.Model.Events.{WifiEvent}
use network_manager_rs.Linux.Netlink.Wire.{
  le_bytes, le_of, i32_bits, i32_of_bits, nlm_f_request, nlm_f_ack, nlm_f_dump, nlmsg_error,
  nlmsg_done,
}
use network_manager_rs.Linux.Netlink.Structs.{Attr}
use network_manager_rs.Linux.Netlink.Parse.{malformed, parse_kernel_error}
use network_manager_rs.Linux.Netlink.Sockets.{
  Socket, Received, Answer, exchange, collect, of_code, i32_key, sorted,
}
use network_manager_rs.Linux.Nl80211.Codec.{RawAttr, RawMsg, build_message, parse_genl_messages}
use network_manager_rs.Linux.Nl80211.Radios.{
  FamilyInfo, WiphyInfo, family_info_from_attrs, interface_from_attrs, wiphy_from_attrs,
  bss_from_attrs, parse_scan_events, push_each, one_or_none,
}

unfoldable pub parse_ack_error : List ℕ → Result (Unit {0}) NetlinkError
parse_ack_error payload =
    if ltb (length payload) 4
    then malformed (str "short nlmsgerr")
    else of_code (i32_of_bits (le_of (take 4 payload)))

-- The messages of one buffer, pushed up to the end of the dump.
unfoldable pub push_messages : List RawMsg → List RawMsg → Result (Bool × List RawMsg) NetlinkError
push_messages [] found = ok (false, found)
push_messages (message ∷ rest) found =
    let more = push_messages rest (found ++ (message ∷ [])) in
    if message.nlmsg_type == nlmsg_done
    then ok (true, found)
    else if message.nlmsg_type == nlmsg_error
    then err (parse_kernel_error message.payload)
    else more

abbrev pub parse_dump_buffer : List ℕ → List RawMsg → Result (Bool × List RawMsg) NetlinkError
parse_dump_buffer buf found = parse_genl_messages buf >>= λ messages. push_messages messages found

unfoldable pub transact_dump : ℕ → Socket → ℕ → List Attr → Answer (List RawMsg)
transact_dump family_id socket cmd attrs =
    exchange socket (build_message family_id cmd (bit_or nlm_f_request nlm_f_dump) 1 attrs)
      λ received. collect parse_dump_buffer received []

-- The first message of a buffer that `answer` makes something of.
abbrev pub first_answer :
    {A : Type 0}
    → (RawMsg → Result (Option A) NetlinkError)
    → List RawMsg
    → Result (Option A) NetlinkError
first_answer answer [] = ok none
first_answer answer (message ∷ rest) =
    let later = first_answer answer rest in
    answer message >>= λ a. elim a [ none ↦ later | some x ↦ ok (some x) ]

abbrev pub after_buffer : {A : Type 0} → Answer A → Result (Option A) NetlinkError → Answer A
after_buffer later (err e) = some (err e)
after_buffer later (ok none) = later
after_buffer later (ok (some a)) = some (ok a)

-- `loop { recv_into; for message in parse_genl_messages(..)? { .. return .. } }`.
unfoldable pub await_message :
    {A : Type 0} → (RawMsg → Result (Option A) NetlinkError) → List Received → Answer A
await_message answer [] = none
await_message answer (err e ∷ received) = some (err e)
await_message answer (ok buf ∷ received) =
    after_buffer (await_message answer received) (parse_genl_messages buf >>= first_answer answer)

abbrev pub ack_of : RawMsg → Result (Option (Unit {0})) NetlinkError
ack_of message =
    if message.nlmsg_type == nlmsg_error
    then (parse_ack_error message.payload >>= λ u. ok (some u))
    else ok none

unfoldable pub transact_ack : ℕ → Socket → ℕ → List Attr → Answer (Unit {0})
transact_ack family_id socket cmd attrs =
    exchange socket (build_message family_id cmd (bit_or nlm_f_request nlm_f_ack) 1 attrs)
      (await_message ack_of)

-- The interface index as an attribute.
abbrev pub ifindex_attr : ℤ → List Attr
ifindex_attr ifindex = (3, le_bytes 4 (i32_bits ifindex)) ∷ []

unfoldable pub trigger_scan : ℕ → Socket → ℤ → Answer (Unit {0})
trigger_scan family_id socket ifindex = transact_ack family_id socket 33 (ifindex_attr ifindex)

-- What is read of the messages whose command is one of two.
abbrev pub read_commands :
    {A : Type 0}
    → ℕ
    → ℕ
    → (List RawAttr → Result (Option A) NetlinkError)
    → RawMsg
    → Result (List A) NetlinkError
read_commands one other read message = elim message.cmd [
  | none ↦ ok []
  | some cmd ↦
      if cmd == one || cmd == other then (read message.attrs >>= λ a. ok (one_or_none a)) else ok []
]

abbrev pub read_all :
    {A : Type 0} → (RawMsg → Result (List A) NetlinkError) → Answer (List RawMsg) → Answer (List A)
read_all read none = none
read_all read (some (err e)) = some (err e)
read_all read (some (ok messages)) = some (push_each read messages)

unfoldable pub dump_interfaces : (List ℕ → Str) → ℕ → Socket → Answer (List WirelessInterface)
dump_interfaces lossy family_id socket =
    sorted (λ interface. i32_key interface.index ∷ [])
      (read_all (read_commands 5 7 (interface_from_attrs lossy))
        (transact_dump family_id socket 5 []))

unfoldable pub dump_wiphys : (List ℕ → Str) → ℕ → Socket → Answer (List WiphyInfo)
dump_wiphys lossy family_id socket =
    sorted (λ wiphy. wiphy.index ∷ [])
      (read_all (read_commands 1 3 (wiphy_from_attrs lossy)) (transact_dump family_id socket 1 []))

unfoldable pub dump_scan : ℕ → Socket → ℤ → Answer (List AccessPoint)
dump_scan family_id socket ifindex =
    read_all (read_commands 32 34 bss_from_attrs)
      (transact_dump family_id socket 32 (ifindex_attr ifindex))

unfoldable pub read_scan_events : Received → Result (List WifiEvent) NetlinkError
read_scan_events received = received >>= parse_scan_events

-- A message without a command is not looked at.
abbrev pub family_in : (List ℕ → Str) → RawMsg → Result (Option FamilyInfo) NetlinkError
family_in lossy message = elim message.cmd [
  | none ↦ ok none
  | some cmd ↦ family_info_from_attrs lossy message.attrs
]

unfoldable pub resolve_nl80211_family : (List ℕ → Str) → Socket → Answer FamilyInfo
resolve_nl80211_family lossy socket =
    exchange socket (build_message 16 3 nlm_f_request 1 ((2, str "nl80211") ∷ []))
      (await_message (family_in lossy))

-- The groups that `Nl80211Connection::open` passes to the socket.
abbrev pub id_or_zero : Option (Str × ℕ) → ℕ
id_or_zero none = 0
id_or_zero (some (name, id)) = id

unfoldable pub scan_groups : FamilyInfo → ℕ
scan_groups family = id_or_zero (find (λ group. str_eq group.0 (str "scan")) family.mcast_groups)
