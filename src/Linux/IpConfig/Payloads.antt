-- ===== src/Linux/IpConfig/Payloads.antt =====
-- The payloads of the requests, read back by the parsers of netlink.rs.
use mathlib.Core.Option
use network_manager_rs.Common.{
  ℕ, ◌≡◌, refl, ap, ◌∙◌, true, false, Option, none, some, List, [], ◌∷◌, length, arith,
  if◌then◌else◌, Result, ok, Bool-cases, inl, inr, ltb,
}
use network_manager_rs.Common.Int.{ℤ, pos, negsuc}
use network_manager_rs.Linux.Model.{
  NetlinkError, IpAddr, IpFamily, ip_v4, ip_v6, Route, RouteKind, RouteScope, is_default,
  kind_from_u8, scope_as_u8, kind_as_u8, destination_unspecified,
}
use network_manager_rs.Linux.Netlink.Wire.{le_bytes, le_of, i32_bits, rt_table_main}
use network_manager_rs.Linux.Netlink.Structs.{
  Attr, push_attrs, RtMsg, rtmsg_payload, ifaddr_payload,
}
use network_manager_rs.Linux.Netlink.Attributes.{
  each_attr, walk_attrs, attrs_loop-push_attrs, rtattr_text,
}
use network_manager_rs.Linux.Netlink.Parse.{
  parse_route, parse_address, address_of, address_attr, expected_len, route_of, no_attrs,
  route_attr, is_kept, destination_or_unspecified, address_from_bytes, of_family, ip_family,
}
use network_manager_rs.Linux.IpConfig.{
  ip_bytes, index_or_zero, route_attrs, route_scope, route_type, route_payload, family_bytes,
}
use network_manager_rs.Linux.IpConfig.Values.{
  IsRoute, IsSome, IsI32, OfFamily, length-ip_bytes, address_from-ip_bytes, unspecified_lem,
}
use network_manager_rs.Linux.IpConfig.Written.{
  sized_ok, value_fits, written_attrs, each_attr-route_attrs, route_attrs-IsAttr,
}

-- The route that a request asks for: without an output interface it asks for interface 0.
abbrev pub requested : Route → Route
requested r = record r { output_interface = some (index_or_zero r.output_interface) }

-- The struct that the payload of a route starts with.
abbrev rtmsg : Route → RtMsg
rtmsg r = record {
  rtm_family = family_bytes r.family;
  rtm_dst_len = r.prefix_length;
  rtm_src_len = 0;
  rtm_tos = 0;
  rtm_table = rt_table_main;
  rtm_protocol = 4;
  rtm_scope = route_scope r.scope;
  rtm_type = route_type r.kind;
  rtm_flags = 0;
}

route_scope_lem : (s : RouteScope) → route_scope s ≡ scope_as_u8 s
unfolding scope_as_u8
route_scope_lem s = ground arith

route_type_lem : (k : RouteKind) → is_kept k ≡ true → kind_from_u8 (route_type k) ≡ k
unfolding kind_from_u8 kind_as_u8
route_type_lem k h = ground arith

of_family_lem :
    {A : Type 0} (f : IpFamily) (read : IpFamily → Result (Option A) NetlinkError)
    → of_family (family_bytes f) read ≡ read f
unfolding ip_family
of_family_lem ip_v4 read = refl
of_family_lem ip_v6 read = refl

gateway_lem :
    (f : IpFamily) (g : Option IpAddr)
    → IsSome (OfFamily f) g
    → Option.map (address_from_bytes f) (Option.map ip_bytes g) ≡ g
gateway_lem f none h = refl
gateway_lem f (some a) h = ap some (address_from-ip_bytes f a h)

default_lem :
    (r : Route) → is_default r ≡ true → destination_unspecified r.family r.destination ≡ true
unfolding is_default
default_lem r h = ground arith

destination_lem :
    (r : Route)
    → OfFamily r.family r.destination
    → destination_or_unspecified r.family
        (if is_default r then none else some (ip_bytes r.destination))
      ≡ r.destination
destination_lem r h = elim (Bool-cases (is_default r)) [
  | inl e ↦
      let z : destination_unspecified r.family r.destination ≡ true = default_lem r e in
      rw e (unspecified_lem r.family r.destination h z)
  | inr e ↦ rw e (address_from-ip_bytes r.family r.destination h)
]

route_of_lem : (r : Route) → IsRoute r → route_of (rtmsg r) r.family (written_attrs r) ≡ requested r
route_of_lem r h =
    rw
      (
        destination_lem r h.destination_ok,
        gateway_lem r.family r.gateway h.gateway_ok,
        route_type_lem r.kind h.kind_ok,
        route_scope_lem r.scope,
        h.scope_ok,
      )
      refl

-- `parse_route` reads the route of a request back.
pub parse_route-route_payload :
    (r : Route) → IsRoute r → parse_route (route_payload r) ≡ ok (some (requested r))
unfolding parse_route rtmsg_payload
parse_route-route_payload r h =
    let enough : ltb (length (route_payload r)) 12 ≡ false = ground arith in
    let kept : is_kept (kind_from_u8 (route_type r.kind)) ≡ true =
      rw (route_type_lem r.kind h.kind_ok) h.kind_ok in
    let walked : walk_attrs (route_attr r.family) (push_attrs (route_attrs r)) no_attrs
        ≡ ok (written_attrs r) =
      attrs_loop-push_attrs rtattr_text (route_attr r.family) _ (route_attrs r) no_attrs
        (route_attrs-IsAttr r h) (omega arith)
      ∙ each_attr-route_attrs r h in
    rw enough (of_family_lem r.family _ ∙ rw (kept, walked, route_of_lem r h) refl)

both_attrs :
    (f : IpFamily) (a : IpAddr)
    → OfFamily f a
    → each_attr (address_attr f) ((2, ip_bytes a) ∷ (1, ip_bytes a) ∷ []) none
      ≡ ok (some (ip_bytes a))
unfolding each_attr address_attr
both_attrs f a h = rw (sized_ok (expected_len f) _ (ip_bytes a) (length-ip_bytes f a h)) refl

index_read : (index : ℤ) → IsI32 index → le_of (le_bytes 4 (i32_bits index)) ≡ i32_bits index
index_read (pos n) h = omega (arith, h)
index_read (negsuc n) h = omega (arith, h)

-- `parse_address` reads the address of a request back.
pub parse_address-ifaddr_payload :
    (f : IpFamily) (a : IpAddr) (prefix_length : ℕ) (index : ℤ)
    → OfFamily f a
    → IsI32 index
    → parse_address (
        ifaddr_payload
          (family_bytes f)
          prefix_length
          index
          ((2, ip_bytes a) ∷ (1, ip_bytes a) ∷ []))
      ≡ ok (
          some (record {
            interface_index = i32_bits index;
            address = a;
            prefix_length = prefix_length;
          }))
unfolding parse_address address_of ifaddr_payload
parse_address-ifaddr_payload f a prefix_length index h k =
    let attrs : List Attr = (2, ip_bytes a) ∷ (1, ip_bytes a) ∷ [] in
    let payload = ifaddr_payload (family_bytes f) prefix_length index attrs in
    let enough : ltb (length payload) 8 ≡ false = ground arith in
    let fits = value_fits f a h in
    let walked : walk_attrs (address_attr f) (push_attrs attrs) none ≡ ok (some (ip_bytes a)) =
      attrs_loop-push_attrs rtattr_text (address_attr f) _ attrs none
        ((omega arith, fits), ((omega arith, fits), tt)) (omega arith)
      ∙ both_attrs f a h in
    rw enough
      (of_family_lem f _ ∙ rw (walked, index_read index k, address_from-ip_bytes f a h) refl)
