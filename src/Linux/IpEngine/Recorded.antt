-- ===== src/Linux/IpEngine/Recorded.antt =====
-- What an activation asks to install, against the state that it records for a teardown.
use network_manager_rs.Common.{
  ℕ, Bool, true, false, Option, none, some, List, [], ◌∷◌, ◌++◌, ◌≡◌, refl, ◌⊎◌, inl, inr, All,
  All-append, Str, str, Octets4,
}
use network_manager_rs.Common.Int.{ℤ}
use network_manager_rs.Connection.Ip.{
  Ipv4Config, ActiveIpv4, DnsConfig, Ipv4Outcome, DhcpLease, automatic_dhcp, Ipv4Source,
}
use network_manager_rs.Linux.IpEngine.Routes.{ipv4_routes_for, ipv4_static_routes, and_then, v4_of}
use network_manager_rs.Connection.Profile.{IpConfig, IpMethod, automatic, manual, disabled}
use network_manager_rs.Linux.Model.{Route}
use network_manager_rs.Linux.IpEngine.Backends.{
  IpConfigurator, DhcpClient, DnsManager, World, Step, invalid_config, ◌>>=◌, ok_or_fail, on_ip,
  on_dhcp, on_dns,
}
use network_manager_rs.Linux.IpEngine.Ipv4.{
  install_routes, apply_dns, automatic_dns, manual_dns, automatic_ipv4, manual_ipv4, activate_ipv4,
  install_ipv4, leased_ipv4, fixed_ipv4, by_method_v4,
}
use network_manager_rs.Linux.IpEngine.Tracked.{
  Has, Item, route, items_v4, items_v4-covered, tracked, Covers4, Leads, bind, static_routes,
}

module _ {C D N : Type 0} (a : ActiveIpv4) where
  -- The record a is in place and covers all that was asked for.
  abbrev Held : World (C × List Item) D N → Type 0
  Held w = (w.state.ipv4 ≡ some a) × All (Covers4 a) (w.ip.1)

  module _ (ips : IpConfigurator C) (client : DhcpClient D) (names : DnsManager N) where
    install_routes-leads :
        (rs : List Route)
        → All (λ r. Has r a.routes) rs
        → Leads Held (install_routes (tracked ips) client names rs) Held
    unfolding install_routes
    install_routes-leads [] h w p = p
    install_routes-leads (r ∷ rs) h w p =
        bind Held Held Held (on_ip (λ c. (tracked ips).add_route c r))
          (λ _. install_routes (tracked ips) client names rs)
          (λ v q. (q.0, All-append (Covers4 a) (v.ip.1) (route r ∷ []) q.1 (h.0, tt))) (λ v q. q)
          (λ _. install_routes-leads rs h.1) w p

    apply_dns-leads :
        (owner : Str) (config : DnsConfig)
        → Leads Held (apply_dns (tracked ips) client names owner config) Held
    unfolding apply_dns
    apply_dns-leads owner config w p =
        bind Held Held Held (on_dns (λ n. names.apply n owner config)) _ (λ v q. q) (λ v q. q)
          (λ o v q. q) w p

    automatic_dns-leads :
        (b : Bool) (owner : Str) (config : DnsConfig)
        → Leads Held (automatic_dns (tracked ips) client names b owner config) Held
    automatic_dns-leads true owner config w p = p
    automatic_dns-leads false owner config w p = apply_dns-leads owner config w p

    manual_dns-leads :
        (b : Bool) (owner : Str) (config : DnsConfig)
        → Leads Held (manual_dns (tracked ips) client names b owner config) Held
    manual_dns-leads true owner config w p = p
    manual_dns-leads false owner config w p = apply_dns-leads owner config w p

    configure_ipv4-leads :
        (config : Ipv4Config)
        → All (Covers4 a) (items_v4 a.interface_index config)
        → Leads Held (on_ip (λ c. (tracked ips).configure_ipv4 c a.interface_index config)) Held
    configure_ipv4-leads config e w p =
        (p.0, All-append (Covers4 a) (w.ip.1) (items_v4 a.interface_index config) p.1 e)

    install_ipv4-leads :
        (config : Ipv4Config) (rs : List Route) (dns : Step (World (C × List Item) D N) (Unit {0}))
        (outcome : Ipv4Outcome)
        → All (Covers4 a) (items_v4 a.interface_index config)
        → All (λ r. Has r a.routes) rs
        → Leads Held dns Held
        → Leads Held
            (install_ipv4 (tracked ips) client names a.interface_index config rs dns outcome)
            Held
    unfolding install_ipv4
    install_ipv4-leads config rs dns outcome e h d =
        bind Held Held Held (on_ip (λ c. (tracked ips).configure_ipv4 c a.interface_index config)) _
          (configure_ipv4-leads config e) (λ v q. q)
          (λ _.
            bind Held Held Held (install_routes (tracked ips) client names rs) _
              (install_routes-leads rs h) (λ v q. q)
              (λ _. bind Held Held Held dns _ d (λ v q. q) (λ _ v q. q)))

-- All that was asked for is covered by the IPv4 record, or nothing was.
abbrev pub Recorded4 : {C D N : Type 0} → World (C × List Item) D N → Type 0
Recorded4 w =
    (w.ip.1 ≡ []) ⊎ ((a : ActiveIpv4) × (w.state.ipv4 ≡ some a) × All (Covers4 a) (w.ip.1))

module _ {C D N : Type 0} (ips : IpConfigurator C) (client : DhcpClient D)
    (names : DnsManager N) where
  abbrev Empty : World (C × List Item) D N → Type 0
  Empty w = w.ip.1 ≡ []

  leased_ipv4-leads :
      (i : ℤ) (config : IpConfig) (owner : Str) (lease : DhcpLease)
      → Leads Empty (leased_ipv4 (tracked ips) client names i config owner lease) Recorded4
  unfolding leased_ipv4
  leased_ipv4-leads i config owner lease w p =
      let a : ActiveIpv4 = record {
        interface_index = i;
        address = lease.address;
        prefix_length = lease.prefix_length;
        lease = some lease;
        routes =
            ipv4_routes_for i lease.address lease.prefix_length lease.gateway
            ++ ipv4_static_routes config;
        source = automatic_dhcp;
      } in
      let held : Held a (leased_ipv4 (tracked ips) client names i config owner lease w).1 =
        install_ipv4-leads a ips client names _ _ _ _
          (items_v4-covered a _ (ipv4_static_routes config) refl refl refl) (static_routes _ _)
          (automatic_dns-leads a ips client names _ owner _) _ (refl, rw p tt) in
      inr (a, held.0, held.1)

  automatic_ipv4-leads :
      (i : ℤ) (name : Str) (config : IpConfig) (owner : Str)
      → Leads Empty (automatic_ipv4 (tracked ips) client names i name config owner) Recorded4
  unfolding automatic_ipv4
  automatic_ipv4-leads i name config owner =
      bind Empty Empty Recorded4
        (on_dhcp (λ d. client.acquire d (record {
          interface_index = i;
          interface_name = name;
          hostname = none;
          requested_address = none;
          timeout = 0;
        })))
        (leased_ipv4 (tracked ips) client names i config owner) (λ v q. q) (λ v q. inl q)
        (leased_ipv4-leads i config owner)

  fixed_ipv4-leads :
      (i : ℤ) (config : IpConfig) (owner : Str) (x : Octets4) (n : ℕ)
      → Leads Empty (fixed_ipv4 (tracked ips) client names i config owner x n) Recorded4
  unfolding fixed_ipv4
  fixed_ipv4-leads i config owner x n w p =
      let a : ActiveIpv4 = record {
        interface_index = i;
        address = x;
        prefix_length = n;
        lease = none;
        routes = ipv4_routes_for i x n (and_then v4_of config.gateway) ++ ipv4_static_routes config;
        source = Ipv4Source.manual;
      } in
      let held : Held a (fixed_ipv4 (tracked ips) client names i config owner x n w).1 =
        install_ipv4-leads a ips client names _ _ _ _
          (items_v4-covered a _ (ipv4_static_routes config) refl refl refl) (static_routes _ _)
          (manual_dns-leads a ips client names _ owner _) _ (refl, rw p tt) in
      inr (a, held.0, held.1)

  manual_ipv4-leads :
      (i : ℤ) (config : IpConfig) (owner : Str)
      → Leads Empty (manual_ipv4 (tracked ips) client names i config owner) Recorded4
  unfolding manual_ipv4
  manual_ipv4-leads i config owner w p =
      present (and_then v4_of config.address) config.prefix_length
    where
      present :
          (address : Option Octets4) (prefix : Option ℕ)
          → Recorded4
              ((ok_or_fail address (invalid_config (str "manual IPv4 needs a valid IPv4 address"))
                  >>= λ x.
                      ok_or_fail prefix (invalid_config (str "manual IPv4 needs a prefix length"))
                      >>= λ n. fixed_ipv4 (tracked ips) client names i config owner x n)
                w).1
      present none n = inl p
      present (some x) none = inl p
      present (some x) (some n) = fixed_ipv4-leads i config owner x n w p

  by_method-leads :
      (m : IpMethod) (i : ℤ) (name : Str) (config : IpConfig) (owner : Str)
      → Leads Empty (by_method_v4 (tracked ips) client names m i name config owner) Recorded4
  by_method-leads disabled i name config owner w p = inl p
  by_method-leads automatic i name config owner w p = automatic_ipv4-leads i name config owner w p
  by_method-leads manual i name config owner w p = manual_ipv4-leads i config owner w p

  -- Whatever the backends answer and whether or not the IPv4 phase succeeds: started with nothing asked
  -- for, it ends with nothing asked for, or with a recorded IPv4 state that covers all that the IP
  -- backend was asked to install, also by a request that failed: each address is the recorded one, on
  -- the recorded interface, and among the recorded routes are the connected route that the kernel adds
  -- with the address, the default route through a configuration's gateway, and each static route.
  pub activate_ipv4-Recorded4 :
      (i : ℤ) (name : Str) (config : IpConfig) (owner : Str) (w : World (C × List Item) D N)
      → w.ip.1 ≡ []
      → Recorded4 (activate_ipv4 (tracked ips) client names i name config owner w).1
  unfolding activate_ipv4
  activate_ipv4-Recorded4 i name config owner w p =
      by_method-leads config.method i name config owner w p
