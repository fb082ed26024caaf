-- ===== src/Linux/IpEngine/Tracked.antt =====
-- What the IP backend is asked to install, and steps that lead from one property of a world to another.
use network_manager_rs.Common.{
  ℕ, Option, none, some, refl, sym, true, false, List, [], ◌∷◌, ◌++◌, ◌≡◌, All, Result, ok, err,
  Octets4,
}
use network_manager_rs.Common.Int.{ℤ}
use network_manager_rs.Connection.Ip.{ActiveIpv4, Ipv4Config}
use network_manager_rs.Linux.Model.{Route}
use network_manager_rs.Linux.IpConfig.{gateway_route_v4}
use network_manager_rs.Linux.IpEngine.Routes.{connected_route_v4, default_route_v4, ipv4_routes_for}
use network_manager_rs.Linux.IpEngine.Backends.{
  IpConfigurator, Step, IpEngineError, after_answer, ◌>>=◌,
}

pub data Has (r : Route) : List Route → Type 0 where
  first : {rs : List Route} → Has r (r ∷ rs)
  later : {s : Route} {rs : List Route} → Has r rs → Has r (s ∷ rs)

Has-append : (r : Route) (xs ys : List Route) → Has r ys → Has r (xs ++ ys)
Has-append r [] ys h = h
Has-append r (x ∷ xs) ys h = later (Has-append r xs ys h)

-- Something that the IP backend is to install.
pub data Item : Type 0 where
  route : Route → Item
  address_v4 : ℤ → Octets4 → ℕ → Item
  address_v6 : ℤ → List ℕ → ℕ → Item

-- The default route that `configure_ipv4` of src/linux/ipconfig.rs adds for a gateway.
abbrev pub gateway_items : ℤ → Option Octets4 → List Item
gateway_items i none = []
gateway_items i (some gateway) = route (gateway_route_v4 i gateway) ∷ []

-- A configuration asks for its address, for the connected route that the kernel adds with the address,
-- and for the default route through its gateway.
abbrev pub items_v4 : ℤ → Ipv4Config → List Item
items_v4 i x =
    address_v4 i x.address x.prefix_length
    ∷ route (connected_route_v4 i x.address x.prefix_length)
    ∷ gateway_items i x.gateway

-- A backend with a log of what it is asked to install, whatever it answers: a request that fails may
-- have taken effect in part.
abbrev pub tracked : {C : Type 0} → IpConfigurator C → IpConfigurator (C × List Item)
tracked ips = record {
  configure_ipv4 =
      λ c i x. let (r, c') = ips.configure_ipv4 (c.0) i x in (r, (c', c.1 ++ items_v4 i x));
  remove_ipv4 = λ c i x. let (r, c') = ips.remove_ipv4 (c.0) i x in (r, (c', c.1));
  configure_ipv6 = λ c i x.
      let (r, c') = ips.configure_ipv6 (c.0) i x in
      (r, (c', c.1 ++ (address_v6 i x.address x.prefix_length ∷ [])));
  remove_ipv6 = λ c i x. let (r, c') = ips.remove_ipv6 (c.0) i x in (r, (c', c.1));
  add_route = λ c x. let (r, c') = ips.add_route (c.0) x in (r, (c', c.1 ++ (route x ∷ [])));
  remove_route = λ c x. let (r, c') = ips.remove_route (c.0) x in (r, (c', c.1));
}

-- The IPv4 record names an item.
abbrev pub Covers4 : ActiveIpv4 → Item → Type 0
Covers4 a (route r) = Has r a.routes
Covers4 a (address_v4 i x p) = (i ≡ a.interface_index) × (x ≡ a.address) × (p ≡ a.prefix_length)
Covers4 a (address_v6 i x p) = true ≡ false

All-later :
    (xs ys zs : List Route) → ((r : Route) → Has r zs → Has r ys) → All (λ r. Has r (xs ++ ys)) zs
All-later xs ys [] f = tt
All-later xs ys (z ∷ zs) f =
    (Has-append z xs ys (f z first), All-later xs ys zs (λ r h. f r (later h)))

module _ {W : Type 0} where
  -- From a world with P the step m leads to a world with Q, also when it fails.
  abbrev pub Leads : {A : Type 0} → (W → Type 0) → Step W A → (W → Type 0) → Type 0
  Leads P m Q = (w : W) → P w → Q (m w).1

  after_answer-leads :
      {A B : Type 0} (M Q : W → Type 0) (k : A → Step W B)
      → ((w : W) → M w → Q w)
      → ((a : A) → Leads M (k a) Q)
      → (r : Result A IpEngineError × W) → M (r.1)
      → Q (after_answer k r).1
  after_answer-leads M Q k f g (ok a, w) h = g a w h
  after_answer-leads M Q k f g (err e, w) h = f w h

  pub bind :
      {A B : Type 0} (P M Q : W → Type 0) (m : Step W A) (k : A → Step W B)
      → Leads P m M
      → ((w : W) → M w → Q w)
      → ((a : A) → Leads M (k a) Q)
      → Leads P (m >>= k) Q
  bind P M Q m k h f g w p = after_answer-leads M Q k f g (m w) (h w p)

pub static_routes : (xs ys : List Route) → All (λ r. Has r (xs ++ ys)) ys
static_routes xs ys = All-later xs ys ys (λ r h. h)

routes_for :
    (a : ActiveIpv4) (i : ℤ) (x : Octets4) (p : ℕ) (gateway : Option Octets4) (static : List Route)
    → a.routes ≡ ipv4_routes_for i x p gateway ++ static
    → All (Covers4 a) (route (connected_route_v4 i x p) ∷ gateway_items i gateway)
unfolding ipv4_routes_for default_route_v4
routes_for a i x p none static e = rw e (first, tt)
routes_for a i x p (some gateway) static e = rw e (first, (later first, tt))

-- A record of a configuration's interface, address and routes covers all that the configuration asks for.
pub items_v4-covered :
    (a : ActiveIpv4) (config : Ipv4Config) (static : List Route)
    → a.address ≡ config.address
    → a.prefix_length ≡ config.prefix_length
    → a.routes
      ≡ ipv4_routes_for a.interface_index config.address config.prefix_length config.gateway
        ++ static
    → All (Covers4 a) (items_v4 a.interface_index config)
items_v4-covered a config static e f g = (
  (refl, sym e, sym f),
  routes_for a a.interface_index config.address config.prefix_length config.gateway static g,
)
