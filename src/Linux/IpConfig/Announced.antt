-- ===== src/Linux/IpConfig/Announced.antt =====
-- The requests, read by the parser of the events of netlink.rs.
use network_manager_rs.Common.{
  ℕ, ◌+◌, ◌*◌, ◌%◌, ◌<◌, ◌≤◌, ◌≡◌, refl, sym, ◌∙◌, Bool, true, false, Option, none, some, List, [],
  ◌∷◌, ◌++◌, length, All, arith, if◌then◌else◌, ok, Str, IsU16, append-nil, length-append,
}
use network_manager_rs.Common.Int.{ℤ}
use network_manager_rs.Linux.Model.{IpAddr, IpFamily, Route, Address, is_default}
use network_manager_rs.Linux.Model.Events.{
  NetworkEvent, RouteEventKind, AddressEventKind, route_event, address_event,
}
use network_manager_rs.Linux.Netlink.Wire.{
  le_bytes, i32_bits, rtm_newroute, rtm_delroute, rtm_newaddr, rtm_deladdr,
}
use network_manager_rs.Linux.Netlink.Structs.{
  Attr, push_attr, push_attrs, rtmsg_payload, ifaddr_payload,
}
use network_manager_rs.Linux.Netlink.Attributes.{length-push_attr, IsAttr}
use network_manager_rs.Linux.Netlink.Streams.{
  Message, IsMessage, built, built_header, each_message, messages_loop-stream,
}
use network_manager_rs.Linux.Netlink.Messages.{
  continue, ran_out, walk_messages, parse_network_events, event_round, nlmsghdr_text,
}
use network_manager_rs.Linux.IpConfig.{
  attr_of, ip_bytes, route_attrs, route_payload, family_bytes, build_route_message, route_flags,
  remove_flags, address_message, add_flags,
}
use network_manager_rs.Linux.IpConfig.Values.{IsRoute, IsI32, OfFamily}
use network_manager_rs.Linux.IpConfig.Written.{value_fits, route_attrs-IsAttr}
use network_manager_rs.Linux.IpConfig.Payloads.{
  requested, parse_route-route_payload, parse_address-ifaddr_payload,
}

push_attr_aligned :
    (a : Attr) (rest : List ℕ) → length rest % 4 ≡ 0 → length (push_attr a rest) % 4 ≡ 0
push_attr_aligned (attr_type, value) rest h =
    omega (arith, h, length-push_attr attr_type value rest)

pub push_attrs_aligned : (attrs : List Attr) → length (push_attrs attrs) % 4 ≡ 0
push_attrs_aligned [] = refl
push_attrs_aligned (a ∷ attrs) = push_attr_aligned a (push_attrs attrs) (push_attrs_aligned attrs)

-- The parser of the events, over one built message.
parse_one :
    (lossy : List ℕ → Str) (m : Message) (event : NetworkEvent)
    → IsMessage m
    → event_round lossy (built_header m) m.payload [] ≡ ok (continue (event ∷ []))
    → parse_network_events lossy (built m) ≡ ok (event ∷ [])
unfolding parse_network_events each_message
parse_one lossy m event h e =
    let whole : walk_messages nlmsghdr_text (event_round lossy) (built m) []
        ≡ ok (ran_out true (event ∷ [])) =
      rw (sym (append-nil (built m))) (
        messages_loop-stream nlmsghdr_text (event_round lossy) _ (m ∷ []) [] (h, tt) (omega arith)
        ∙ rw e refl) in
    rw whole refl

pub push_attrs_short :
    (attrs : List Attr) → All IsAttr attrs → length (push_attrs attrs) ≤ 65540 * length attrs
push_attrs_short [] h = omega arith
push_attrs_short ((attr_type, value) ∷ attrs) h =
    let fits : 4 + length value < 65536 = h.0.1 in
    omega
      (arith, length-push_attr attr_type value (push_attrs attrs), push_attrs_short attrs h.1, fits)

attr_of_short {ℓ} :
    {A : Type ℓ} (attr_type : ℕ) (bytes : A → List ℕ) (o : Option A)
    → length (attr_of attr_type bytes o) ≤ 1
attr_of_short attr_type bytes none = omega arith
attr_of_short attr_type bytes (some a) = omega arith

if_short {ℓ} : {A : Type ℓ} (b : Bool) (x : A) → length (if b then [] else x ∷ []) ≤ 1
if_short true x = omega arith
if_short false x = omega arith

joined_short {ℓ} :
    {A : Type ℓ} (xs ys zs : List A) (z : A)
    → length xs ≤ 1
    → length ys ≤ 1
    → length zs ≤ 1
    → length (xs ++ (ys ++ (z ∷ zs))) ≤ 4
joined_short xs ys zs z hx hy hz =
    omega (arith, length-append xs (ys ++ (z ∷ zs)), length-append ys (z ∷ zs))

few_attrs : (r : Route) → length (route_attrs r) ≤ 4
unfolding route_attrs
few_attrs r =
    joined_short (if is_default r then [] else (1, ip_bytes r.destination) ∷ [])
      (attr_of 5 ip_bytes r.gateway) (attr_of 6 (le_bytes 4) r.metric) _
      (if_short (is_default r) (1, ip_bytes r.destination)) (attr_of_short 5 ip_bytes r.gateway)
      (attr_of_short 6 (le_bytes 4) r.metric)

-- A message that carries a route.
abbrev pub route_message : ℕ → ℕ → Route → Message
route_message message_type flags r = record {
  message_type = message_type;
  flags = flags;
  payload = route_payload r;
}

length-route_payload :
    (r : Route) → length (route_payload r) ≡ 12 + length (push_attrs (route_attrs r))
unfolding rtmsg_payload
length-route_payload r = omega arith

pub route_IsMessage :
    (message_type flags : ℕ) (r : Route)
    → IsRoute r
    → IsU16 message_type
    → IsU16 flags
    → IsMessage (route_message message_type flags r)
route_IsMessage message_type flags r h t f =
    let short = push_attrs_short (route_attrs r) (route_attrs-IsAttr r h) in
    let size = length-route_payload r in
    (
      t,
      f,
      omega (arith, short, size, few_attrs r),
      omega (arith, size, push_attrs_aligned (route_attrs r)),
    )

-- What the route that is asked for is announced as: the request of `add_route`, read by the parser
-- of the kernel's events, is the event that this route was added, and the request of `remove_route`
-- the event that it was removed, for a route whose addresses are of its family and complete, whose
-- numbers fit, whose kind the listing keeps and whose scope has a code of its own.
pub route-announced :
    (lossy : List ℕ → Str) (r : Route)
    → IsRoute r
    → (parse_network_events lossy (build_route_message rtm_newroute route_flags r)
        ≡ ok (route_event RouteEventKind.added (requested r) ∷ []))
      × (parse_network_events lossy (build_route_message rtm_delroute remove_flags r)
          ≡ ok (route_event RouteEventKind.removed (requested r) ∷ []))
unfolding build_route_message event_round
route-announced lossy r h = (
  parse_one lossy (route_message rtm_newroute route_flags r) _
      (route_IsMessage rtm_newroute route_flags r h (omega arith) (omega arith))
      (rw (parse_route-route_payload r h) refl),
  parse_one lossy (route_message rtm_delroute remove_flags r) _
      (route_IsMessage rtm_delroute remove_flags r h (omega arith) (omega arith))
      (rw (parse_route-route_payload r h) refl),
)

length-address_payload :
    (f : IpFamily) (a : IpAddr) (prefix_length : ℕ) (index : ℤ)
    → length (
        ifaddr_payload
          (family_bytes f)
          prefix_length
          index
          ((2, ip_bytes a) ∷ (1, ip_bytes a) ∷ []))
      ≡ 8 + length (push_attrs ((2, ip_bytes a) ∷ (1, ip_bytes a) ∷ []))
unfolding ifaddr_payload
length-address_payload f a prefix_length index = omega arith

-- The same of addresses: the requests of `add_address` and `remove_address` are announced as the
-- event that this address was added to, or removed from, the interface whose index they carry, for
-- a complete address of its family and an index that is an `i32`.
pub address-announced :
    (lossy : List ℕ → Str) (f : IpFamily) (a : IpAddr) (prefix_length : ℕ) (index : ℤ)
    → OfFamily f a
    → IsI32 index
    → let carried : Address = record {
      interface_index = i32_bits index;
      address = a;
      prefix_length = prefix_length;
    } in
      (parse_network_events lossy
          (address_message rtm_newaddr add_flags (family_bytes f) prefix_length index (ip_bytes a))
        ≡ ok (address_event AddressEventKind.added carried ∷ []))
      × (parse_network_events lossy (
            address_message rtm_deladdr remove_flags
              (family_bytes f)
              prefix_length
              index
              (ip_bytes a))
          ≡ ok (address_event AddressEventKind.removed carried ∷ []))
unfolding address_message event_round
address-announced lossy f a prefix_length index h k =
    let attrs : List Attr = (2, ip_bytes a) ∷ (1, ip_bytes a) ∷ [] in
    let payload = ifaddr_payload (family_bytes f) prefix_length index attrs in
    let size = length-address_payload f a prefix_length index in
    let fits = value_fits f a h in
    let short = push_attrs_short attrs ((omega arith, fits), ((omega arith, fits), tt)) in
    let small : 16 + length payload < 4294967296 = omega (arith, size, short) in
    let aligned : length payload % 4 ≡ 0 = omega (arith, size, push_attrs_aligned attrs) in
    (
      parse_one lossy (record { message_type = rtm_newaddr; flags = add_flags; payload = payload })
          _ (omega arith, omega arith, small, aligned)
          (rw (parse_address-ifaddr_payload f a prefix_length index h k) refl),
      parse_one lossy
          (record { message_type = rtm_deladdr; flags = remove_flags; payload = payload }) _
          (omega arith, omega arith, small, aligned)
          (rw (parse_address-ifaddr_payload f a prefix_length index h k) refl),
    )
