-- ===== src/Linux/IpEngine/Attempts.antt =====
-- The removals that a teardown asks of the IP backend, one after the other.
use network_manager_rs.Common.{
  Option, none, some, List, [], ◌∷◌, ◌++◌, map, ◌≡◌, refl, ap, ◌∙◌, sym, append-nil, append_assoc,
  ℕ, find_map,
}
use network_manager_rs.Common.Int.{ℤ}
use network_manager_rs.Connection.Ip.{
  Ipv4Config, Ipv6Config, ActiveIpv4, ActiveIpv6, ActiveIpState, Ipv6Source, automatic_link_local,
  DhcpLease, DnsOwnership,
}
use network_manager_rs.Linux.Model.{Route}
use network_manager_rs.Linux.IpEngine.Backends.{
  IpConfigurator, DhcpClient, DnsManager, World, on_ip,
}
use network_manager_rs.Linux.IpEngine.Routes.{v4_of, and_then}
use network_manager_rs.Linux.IpEngine.Teardown.{
  remove_routes, release_lease, teardown_dns, teardown_ipv4, teardown_ipv6, remove_address_v6,
  teardown,
}

-- A removal that is asked for.
pub data Removal : Type 0 where
  route : Route → Removal
  address_v4 : ℤ → Ipv4Config → Removal
  address_v6 : ℤ → Ipv6Config → Removal

-- A backend with a log of the removals that it is asked for, whatever it answers.
abbrev pub logged : {C : Type 0} → IpConfigurator C → IpConfigurator (C × List Removal)
logged ips = record {
  configure_ipv4 = λ c i x. let (r, c') = ips.configure_ipv4 (c.0) i x in (r, (c', c.1));
  remove_ipv4 =
      λ c i x. let (r, c') = ips.remove_ipv4 (c.0) i x in (r, (c', c.1 ++ (address_v4 i x ∷ [])));
  configure_ipv6 = λ c i x. let (r, c') = ips.configure_ipv6 (c.0) i x in (r, (c', c.1));
  remove_ipv6 =
      λ c i x. let (r, c') = ips.remove_ipv6 (c.0) i x in (r, (c', c.1 ++ (address_v6 i x ∷ [])));
  add_route = λ c x. let (r, c') = ips.add_route (c.0) x in (r, (c', c.1));
  remove_route = λ c x. let (r, c') = ips.remove_route (c.0) x in (r, (c', c.1 ++ (route x ∷ [])));
}

-- The removals that a recorded state calls for: of the IPv4 part, of the IPv6 part, of both.
abbrev pub address_removals_v4 : ActiveIpv4 → List Removal
address_removals_v4 a =
    address_v4 a.interface_index (record {
      address = a.address;
      prefix_length = a.prefix_length;
      gateway = find_map (λ r. and_then v4_of r.gateway) a.routes;
    })
    ∷ []

abbrev pub removals_v4 : Option ActiveIpv4 → List Removal
removals_v4 none = []
removals_v4 (some a) = map route a.routes ++ address_removals_v4 a

abbrev pub address_removals : Ipv6Source → ActiveIpv6 → Option (List ℕ) → List Removal
address_removals Ipv6Source.manual a (some address) =
    address_v6 a.interface_index
      (record { address = address; prefix_length = a.prefix_length; gateway = none })
    ∷ []
address_removals _ a _ = []

abbrev pub removals_v6 : Option ActiveIpv6 → List Removal
removals_v6 none = []
removals_v6 (some a) = map route a.routes ++ address_removals a.source a a.link_local

abbrev pub removals : ActiveIpState → List Removal
removals s = removals_v4 s.ipv4 ++ removals_v6 s.ipv6

module _ {C D N : Type 0} (ips : IpConfigurator C) (client : DhcpClient D)
    (names : DnsManager N) where
  abbrev pub log_of : World (C × List Removal) D N → List Removal
  log_of w = w.ip.1

  log-remove_routes :
      (rs : List Route) (w : World (C × List Removal) D N)
      → log_of (remove_routes (logged ips) client names rs w).1 ≡ log_of w ++ map route rs
  unfolding remove_routes
  log-remove_routes [] w = sym (append-nil (log_of w))
  log-remove_routes (r ∷ rs) w =
      log-remove_routes rs (on_ip (λ c. (logged ips).remove_route c r) w).1
      ∙ append_assoc (log_of w) (route r ∷ []) (map route rs)

  log-teardown_dns :
      (o : Option DnsOwnership) (w : World (C × List Removal) D N)
      → log_of (teardown_dns (logged ips) client names o w).1 ≡ log_of w
  log-teardown_dns none w = refl
  log-teardown_dns (some o) w = refl

  log-release_lease :
      (o : Option DhcpLease) (w : World (C × List Removal) D N)
      → log_of (release_lease (logged ips) client names o w).1 ≡ log_of w
  log-release_lease none w = refl
  log-release_lease (some o) w = refl

  log-teardown_ipv4 :
      (o : Option ActiveIpv4) (w : World (C × List Removal) D N)
      → log_of (teardown_ipv4 (logged ips) client names o w).1 ≡ log_of w ++ removals_v4 o
  log-teardown_ipv4 none w = sym (append-nil (log_of w))
  log-teardown_ipv4 (some a) w =
      let after_routes = (remove_routes (logged ips) client names a.routes w).1 in
      ap (λ log. log ++ address_removals_v4 a)
        (log-release_lease a.lease after_routes ∙ log-remove_routes a.routes w)
      ∙ append_assoc (log_of w) (map route a.routes) (address_removals_v4 a)

  log-remove_address :
      (s : Ipv6Source) (a : ActiveIpv6) (o : Option (List ℕ)) (w : World (C × List Removal) D N)
      → log_of (remove_address_v6 (logged ips) client names s a o w).1
        ≡ log_of w ++ address_removals s a o
  log-remove_address Ipv6Source.manual a (some address) w = refl
  log-remove_address Ipv6Source.manual a none w = sym (append-nil (log_of w))
  log-remove_address automatic_link_local a o w = sym (append-nil (log_of w))
  log-remove_address Ipv6Source.disabled a o w = sym (append-nil (log_of w))

  log-teardown_ipv6 :
      (o : Option ActiveIpv6) (w : World (C × List Removal) D N)
      → log_of (teardown_ipv6 (logged ips) client names o w).1 ≡ log_of w ++ removals_v6 o
  log-teardown_ipv6 none w = sym (append-nil (log_of w))
  log-teardown_ipv6 (some a) w =
      let after_routes = (remove_routes (logged ips) client names a.routes w).1 in
      log-remove_address a.source a a.link_local after_routes
      ∙ ap (λ log. log ++ address_removals a.source a a.link_local) (log-remove_routes a.routes w)
      ∙ append_assoc (log_of w) (map route a.routes) (address_removals a.source a a.link_local)

  -- A teardown asks for every removal that the recorded state calls for, in order, whatever the backends
  -- answer: the routes and the address of the IPv4 part, then those of the IPv6 part.
  pub teardown_attempts :
      (s : ActiveIpState) (w : World (C × List Removal) D N)
      → log_of (teardown (logged ips) client names s w).1 ≡ log_of w ++ removals s
  unfolding teardown
  teardown_attempts s w =
      let after_dns = (teardown_dns (logged ips) client names s.dns_owner w).1 in
      let after_v4 = (teardown_ipv4 (logged ips) client names s.ipv4 after_dns).1 in
      log-teardown_ipv6 s.ipv6 after_v4
      ∙ ap (λ log. log ++ removals_v6 s.ipv6)
          (log-teardown_ipv4 s.ipv4 after_dns
            ∙ ap (λ log. log ++ removals_v4 s.ipv4) (log-teardown_dns s.dns_owner w))
      ∙ append_assoc (log_of w) (removals_v4 s.ipv4) (removals_v6 s.ipv6)
