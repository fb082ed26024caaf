-- ===== src/Dbus/Convert/Routes.antt =====
-- src/dbus/convert.rs: static routes as `ipv4.routes` and `ipv6.routes`, and back.
use network_manager_rs.Common.{
  ℕ, ◌+◌, ◌*◌, ◌/◌, ◌%◌, ◌≤◌, ◌≡◌, refl, Bool, true, false, not, ◌||◌, Option, none, some, List, [],
  ◌∷◌, map, str, Octets4, IsByte, Result, ok, err, ◌>>=◌, All, length, replicate, ltb, ◌==◌,
  if◌then◌else◌, arith,
}
use network_manager_rs.Linux.Model.{
  IpAddr, v4, v6, IpFamily, ip_v4, ip_v6, all_zero, is_unspecified, Route, unicast, universe, link,
  RouteScope,
}
use network_manager_rs.Dbus.Error.{FacadeError, invalid_property}
use network_manager_rs.Dbus.Convert.Variant.{V6Entry}

-- `Ipv4Addr::from(value.to_le_bytes())` and `u32::from_le_bytes(address.octets())`.
unfoldable pub address_of_u32 : ℕ → Octets4
address_of_u32 n = record {
  a = n % 256;
  b = n / 256 % 256;
  c = n / 65536 % 256;
  d = n / 16777216 % 256;
}

unfoldable pub u32_of_address : Octets4 → ℕ
u32_of_address o = o.a + 256 * o.b + 65536 * o.c + 16777216 * o.d

-- `(test).then(|| value)`.
abbrev pub then_some {ℓ} : {A : Type ℓ} → Bool → A → Option A
then_some true a = some a
then_some false a = none

abbrev pub scope_for : ℕ → RouteScope
scope_for prefix = if prefix == 0 then universe else link

abbrev pub v4_route : ℕ → ℕ → ℕ → ℕ → Route
v4_route dest prefix next_hop metric = record {
  family = ip_v4;
  destination = v4 (address_of_u32 dest);
  prefix_length = prefix;
  gateway = then_some (not (next_hop == 0)) (v4 (address_of_u32 next_hop));
  output_interface = none;
  metric = then_some (not (metric == 0)) metric;
  kind = unicast;
  scope = scope_for prefix;
}

unfoldable pub parse_v4_entry : List ℕ → Result Route FacadeError
parse_v4_entry (dest ∷ (prefix ∷ (next_hop ∷ (metric ∷ [])))) =
    if ltb 32 prefix
    then err (invalid_property (str "ipv4.routes prefix exceeds 32"))
    else ok (v4_route dest prefix next_hop metric)
parse_v4_entry _ =
    err (invalid_property (str "ipv4.routes entry is not [dest, prefix, next-hop, metric]"))

abbrev pub v6_route : V6Entry → Route
v6_route e = record {
  family = ip_v6;
  destination = v6 e.dest;
  prefix_length = e.prefix;
  gateway = then_some (not (all_zero e.next_hop)) (v6 e.next_hop);
  output_interface = none;
  metric = then_some (not (e.metric == 0)) e.metric;
  kind = unicast;
  scope = scope_for e.prefix;
}

unfoldable pub parse_v6_entry : V6Entry → Result Route FacadeError
parse_v6_entry e =
    if not (length e.dest == 16) || not (length e.next_hop == 16)
    then err (invalid_property (str "ipv6.routes addresses are not 16 octets"))
    else if ltb 128 e.prefix
    then err (invalid_property (str "ipv6.routes prefix exceeds 128"))
    else ok (v6_route e)

-- `map(..).collect()` into a `Result`: the first error ends it.
unfoldable pub collect_routes :
    {A : Type 0} → (A → Result Route FacadeError) → List A → Result (List Route) FacadeError
collect_routes f [] = ok []
collect_routes f (x ∷ xs) = do route ← f x; routes ← collect_routes f xs; ok (route ∷ routes)

abbrev pub unspecified_v4 : Octets4
unspecified_v4 = record { a = 0; b = 0; c = 0; d = 0 }

abbrev pub unspecified_v6 : List ℕ
unspecified_v6 = replicate 16 0

abbrev pub v4_part : IpAddr → Octets4
v4_part (v4 a) = a
v4_part (v6 _) = unspecified_v4

abbrev pub v6_part : IpAddr → List ℕ
v6_part (v4 _) = unspecified_v6
v6_part (v6 a) = a

-- `match route.gateway`, with no address for a gateway of the other family.
abbrev pub v4_gateway : Option IpAddr → Octets4
v4_gateway none = unspecified_v4
v4_gateway (some a) = v4_part a

abbrev pub v6_gateway : Option IpAddr → List ℕ
v6_gateway none = unspecified_v6
v6_gateway (some a) = v6_part a

abbrev pub or_zero : Option ℕ → ℕ
or_zero none = 0
or_zero (some n) = n

unfoldable pub route_v4_entry : Route → List ℕ
route_v4_entry r =
    u32_of_address (v4_part r.destination)
    ∷ r.prefix_length
    ∷ u32_of_address (v4_gateway r.gateway)
    ∷ or_zero r.metric
    ∷ []

unfoldable pub route_v6_entry : Route → V6Entry
route_v6_entry r = record {
  dest = v6_part r.destination;
  prefix = r.prefix_length;
  next_hop = v6_gateway r.gateway;
  metric = or_zero r.metric;
}

-- What a client sees of a route: a unicast route without its interface, whose gateway and metric are
-- absent where they are zero, and whose scope follows from its prefix length.
abbrev pub shown : IpFamily → IpAddr → Option IpAddr → Route → Route
shown family destination gateway r = record {
  family = family;
  destination = destination;
  prefix_length = r.prefix_length;
  gateway = gateway;
  output_interface = none;
  metric = then_some (not (or_zero r.metric == 0)) (or_zero r.metric);
  kind = unicast;
  scope = scope_for r.prefix_length;
}

unfoldable pub shown_v4 : Route → Route
shown_v4 r =
    let gateway = v4_gateway r.gateway in
    shown ip_v4 (v4 (v4_part r.destination)) (then_some (not (is_unspecified gateway)) (v4 gateway))
      r

unfoldable pub shown_v6 : Route → Route
shown_v6 r =
    let gateway = v6_gateway r.gateway in
    shown ip_v6 (v6 (v6_part r.destination)) (then_some (not (all_zero gateway)) (v6 gateway)) r

pub record IsOctets (o : Octets4) : Type 0 where
  pub a : IsByte o.a
  pub b : IsByte o.b
  pub c : IsByte o.c
  pub d : IsByte o.d

-- The routes that the settings can carry: an address of its octets, a prefix that fits it.
pub record IsV4Route (r : Route) : Type 0 where
  pub destination : IsOctets (v4_part r.destination)
  pub gateway : IsOctets (v4_gateway r.gateway)
  pub prefix : r.prefix_length ≤ 32

pub record IsV6Route (r : Route) : Type 0 where
  pub destination : length (v6_part r.destination) ≡ 16
  pub gateway : length (v6_gateway r.gateway) ≡ 16
  pub prefix : r.prefix_length ≤ 128

address_of_u32-u32_of_address : (o : Octets4) → IsOctets o → address_of_u32 (u32_of_address o) ≡ o
unfolding address_of_u32 u32_of_address
address_of_u32-u32_of_address o h = ground arith

u32_of_address_zero : (o : Octets4) → IsOctets o → (u32_of_address o == 0) ≡ is_unspecified o
unfolding u32_of_address
u32_of_address_zero o h = ground arith

parse_v4_entry-route_v4_entry :
    (r : Route) → IsV4Route r → parse_v4_entry (route_v4_entry r) ≡ ok (shown_v4 r)
unfolding parse_v4_entry route_v4_entry shown_v4
parse_v4_entry-route_v4_entry r h =
    let small : ltb 32 r.prefix_length ≡ false = ground (arith, h.prefix) in
    rw
      (
        small,
        address_of_u32-u32_of_address (v4_part r.destination) h.destination,
        address_of_u32-u32_of_address (v4_gateway r.gateway) h.gateway,
        u32_of_address_zero (v4_gateway r.gateway) h.gateway,
      )
      refl

parse_v6_entry-route_v6_entry :
    (r : Route) → IsV6Route r → parse_v6_entry (route_v6_entry r) ≡ ok (shown_v6 r)
unfolding parse_v6_entry route_v6_entry shown_v6
parse_v6_entry-route_v6_entry r h =
    let small : ltb 128 r.prefix_length ≡ false = ground (arith, h.prefix) in
    rw (h.destination, h.gateway, small) refl

pub collect_v4-map :
    (rs : List Route)
    → All IsV4Route rs
    → collect_routes parse_v4_entry (map route_v4_entry rs) ≡ ok (map shown_v4 rs)
unfolding collect_routes
collect_v4-map [] h = refl
collect_v4-map (r ∷ rs) h = rw (parse_v4_entry-route_v4_entry r h.0, collect_v4-map rs h.1) refl

pub collect_v6-map :
    (rs : List Route)
    → All IsV6Route rs
    → collect_routes parse_v6_entry (map route_v6_entry rs) ≡ ok (map shown_v6 rs)
unfolding collect_routes
collect_v6-map [] h = refl
collect_v6-map (r ∷ rs) h = rw (parse_v6_entry-route_v6_entry r h.0, collect_v6-map rs h.1) refl
