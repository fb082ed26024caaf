-- ===== src/Linux/IpConfig/Written.antt =====
-- The payloads of the requests, read back by the parsers of netlink.rs.
use mathlib.Core.Option
use network_manager_rs.Common.{
  ℕ, ◌+◌, ◌<◌, ◌≡◌, refl, ap, ◌∙◌, Bool, true, false, Option, none, some, List, [], ◌∷◌, ◌++◌,
  length, All, All-append, arith, ==_iff, if◌then◌else◌, Result, ok, Result-cases, Str, IsU32,
  Bool-cases, inl, inr,
}
use network_manager_rs.Common.Int.{ℤ}
use network_manager_rs.Linux.Model.{IpAddr, IpFamily, ip_v4, ip_v6, Route, is_default}
use network_manager_rs.Linux.Netlink.Wire.{
  le_bytes, i32_bits, rta_dst, rta_gateway, rta_oif, rta_priority,
}
use network_manager_rs.Linux.Netlink.Structs.{Attr}
use network_manager_rs.Linux.Netlink.Attributes.{each_attr, IsAttr}
use network_manager_rs.Linux.Netlink.Parse.{expected_len, sized, RouteAttrs, no_attrs, route_attr}
use network_manager_rs.Linux.IpConfig.{ip_bytes, index_or_zero, route_attrs, attr_of}
use network_manager_rs.Linux.IpConfig.Values.{
  IsI32, OfFamily, IsSome, IsRoute, i32_read, u32_read, length-ip_bytes,
}

pub sized_ok :
    (n : ℕ) (text : Str) (value : List ℕ) → length value ≡ n → sized n text value ≡ ok value
sized_ok n text value h = rw ((==_iff (length value) n).1 h) refl

module _ (f : IpFamily) (attrs : RouteAttrs) where
  dst_step :
      (a : IpAddr)
      → OfFamily f a
      → route_attr f (rta_dst, ip_bytes a) attrs
        ≡ ok (record attrs { destination = some (ip_bytes a) })
  unfolding route_attr
  dst_step a h = rw (sized_ok (expected_len f) _ (ip_bytes a) (length-ip_bytes f a h)) refl

  gateway_step :
      (a : IpAddr)
      → OfFamily f a
      → route_attr f (rta_gateway, ip_bytes a) attrs
        ≡ ok (record attrs { gateway = some (ip_bytes a) })
  unfolding route_attr
  gateway_step a h = rw (sized_ok (expected_len f) _ (ip_bytes a) (length-ip_bytes f a h)) refl

  oif_step :
      (i : ℤ)
      → IsI32 i
      → route_attr f (rta_oif, le_bytes 4 (i32_bits i)) attrs
        ≡ ok (record attrs { output_interface = some i })
  unfolding route_attr
  oif_step i h = rw (i32_read i h) refl

  metric_step :
      (n : ℕ)
      → IsU32 n
      → route_attr f (rta_priority, le_bytes 4 n) attrs ≡ ok (record attrs { metric = some n })
  unfolding route_attr
  metric_step n h = rw (u32_read n h) refl

-- What the loop of `parse_route` has read at the end.
abbrev pub written_attrs : Route → RouteAttrs
written_attrs r = record {
  destination = if is_default r then none else some (ip_bytes r.destination);
  gateway = Option.map ip_bytes r.gateway;
  output_interface = some (index_or_zero r.output_interface);
  metric = r.metric;
}

gateway_attr_step :
    (f : IpFamily) (attrs : RouteAttrs) (g : Option IpAddr)
    → IsSome (OfFamily f) g
    → attrs.gateway ≡ none
    → each_attr (route_attr f) (attr_of rta_gateway ip_bytes g) attrs
      ≡ ok (record attrs { gateway = Option.map ip_bytes g })
unfolding each_attr
gateway_attr_step f attrs none h e = ap (λ g. ok (record attrs { gateway = g })) e
gateway_attr_step f attrs (some a) h e = rw (gateway_step f attrs a h) refl

metric_attr_step :
    (f : IpFamily) (attrs : RouteAttrs) (m : Option ℕ)
    → IsSome IsU32 m
    → attrs.metric ≡ none
    → each_attr (route_attr f) (attr_of rta_priority (le_bytes 4) m) attrs
      ≡ ok (record attrs { metric = m })
unfolding each_attr
metric_attr_step f attrs none h e = ap (λ m. ok (record attrs { metric = m })) e
metric_attr_step f attrs (some n) h e = rw (metric_step f attrs n h) refl

each_attr_then :
    (f : IpFamily) (xs ys : List Attr) (s t : RouteAttrs)
    → each_attr (route_attr f) xs s ≡ ok t
    → each_attr (route_attr f) (xs ++ ys) s ≡ each_attr (route_attr f) ys t
unfolding each_attr
each_attr_then f [] ys s t h = let same : s ≡ t = cc in ap (each_attr (route_attr f) ys) same
each_attr_then f (x ∷ xs) ys s t h = elim (Result-cases (route_attr f x s)) [
  | inl (s', e) ↦ rw e (each_attr_then f xs ys s' t (rw e at h))
  | inr (e', e) ↦ let failed : Result.err e' ≡ ok t = rw e at h in cc
]

oif_attr_step :
    (f : IpFamily) (attrs : RouteAttrs) (i : ℤ)
    → IsI32 i
    → each_attr (route_attr f) ((rta_oif, le_bytes 4 (i32_bits i)) ∷ []) attrs
      ≡ ok (record attrs { output_interface = some i })
unfolding each_attr
oif_attr_step f attrs i h = rw (oif_step f attrs i h) refl

destination_step :
    (r : Route)
    → OfFamily r.family r.destination
    → each_attr
        (route_attr r.family)
        (if is_default r then [] else (rta_dst, ip_bytes r.destination) ∷ [])
        no_attrs
      ≡ ok (record no_attrs {
        destination = if is_default r then none else some (ip_bytes r.destination);
      })
unfolding each_attr
destination_step r h = elim (Bool-cases (is_default r)) [
  | inl e ↦ rw e refl
  | inr e ↦ rw (e, dst_step r.family no_attrs r.destination h) refl
]

-- The loop of `parse_route`, over the attributes of a request.
pub each_attr-route_attrs :
    (r : Route)
    → IsRoute r
    → each_attr (route_attr r.family) (route_attrs r) no_attrs ≡ ok (written_attrs r)
unfolding route_attrs
each_attr-route_attrs r h =
    let one = record no_attrs {
      destination = if is_default r then none else some (ip_bytes r.destination);
    } in
    let two = record one { gateway = Option.map ip_bytes r.gateway } in
    let three = record two { output_interface = some (index_or_zero r.output_interface) } in
    let index = le_bytes 4 (i32_bits (index_or_zero r.output_interface)) in
    let last = attr_of rta_priority (le_bytes 4) r.metric in
    each_attr_then r.family _ _ no_attrs one (destination_step r h.destination_ok)
    ∙ each_attr_then r.family _ _ one two
        (gateway_attr_step r.family one r.gateway h.gateway_ok refl)
    ∙ each_attr_then r.family ((rta_oif, index) ∷ []) last two three
        (oif_attr_step r.family two _ h.index_ok)
    ∙ metric_attr_step r.family three r.metric h.metric_ok refl

pub value_fits : (f : IpFamily) (a : IpAddr) → OfFamily f a → 4 + length (ip_bytes a) < 65536
value_fits ip_v4 a h = omega (arith, length-ip_bytes ip_v4 a h)
value_fits ip_v6 a h = omega (arith, length-ip_bytes ip_v6 a h)

gateway_IsAttr :
    (f : IpFamily) (g : Option IpAddr)
    → IsSome (OfFamily f) g
    → All IsAttr (attr_of rta_gateway ip_bytes g)
gateway_IsAttr f none h = tt
gateway_IsAttr f (some a) h = ((omega arith, value_fits f a h), tt)

metric_IsAttr : (m : Option ℕ) → All IsAttr (attr_of rta_priority (le_bytes 4) m)
metric_IsAttr none = tt
metric_IsAttr (some n) = ((omega arith, omega arith), tt)

destination_IsAttr :
    (b : Bool) (f : IpFamily) (a : IpAddr)
    → OfFamily f a
    → All IsAttr (if b then [] else (rta_dst, ip_bytes a) ∷ [])
destination_IsAttr true f a h = tt
destination_IsAttr false f a h = ((omega arith, value_fits f a h), tt)

pub route_attrs-IsAttr : (r : Route) → IsRoute r → All IsAttr (route_attrs r)
unfolding route_attrs
route_attrs-IsAttr r h =
    All-append IsAttr _ _
      (destination_IsAttr (is_default r) r.family r.destination h.destination_ok)
      (All-append IsAttr _ _ (gateway_IsAttr r.family r.gateway h.gateway_ok)
        ((omega arith, omega arith), metric_IsAttr r.metric))
