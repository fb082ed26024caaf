-- ===== src/Linux/IpEngine/Releases.antt =====
-- The leases that a teardown releases and the DNS configurations that it removes.
use network_manager_rs.Common.{
  ℕ, Option, none, some, List, [], ◌∷◌, ◌++◌, ◌≡◌, refl, ap, ◌∙◌, sym, append-nil,
}
use network_manager_rs.Connection.Ip.{
  ActiveIpv4, ActiveIpv6, ActiveIpState, Ipv6Source, automatic_link_local, DhcpLease, DnsOwnership,
}
use network_manager_rs.Linux.Model.{Route}
use network_manager_rs.Linux.IpEngine.Backends.{
  IpConfigurator, DhcpClient, DnsManager, World, on_ip,
}
use network_manager_rs.Linux.IpEngine.Teardown.{
  remove_routes, release_lease, teardown_dns, teardown_ipv4, teardown_ipv6, remove_address_v6,
  teardown,
}

-- Backends with a log of the leases that are released, and of the configurations that are removed,
-- whatever they answer.
abbrev pub logged_leases : {D : Type 0} → DhcpClient D → DhcpClient (D × List DhcpLease)
logged_leases client = record {
  acquire = λ d request. let (r, d') = client.acquire (d.0) request in (r, (d', d.1));
  release = λ d lease. let (r, d') = client.release (d.0) lease in (r, (d', d.1 ++ (lease ∷ [])));
}

abbrev pub logged_owners : {N : Type 0} → DnsManager N → DnsManager (N × List DnsOwnership)
logged_owners names = record {
  apply = λ n owner config. let (r, n') = names.apply (n.0) owner config in (r, (n', n.1));
  remove = λ n owned. let (r, n') = names.remove (n.0) owned in (r, (n', n.1 ++ (owned ∷ [])));
}

abbrev pub listed {ℓ} : {A : Type ℓ} → Option A → List A
listed none = []
listed (some a) = a ∷ []

-- The lease that a recorded state holds, and its DNS configuration.
abbrev pub leases_v4 : Option ActiveIpv4 → List DhcpLease
leases_v4 none = []
leases_v4 (some a) = listed a.lease

abbrev pub leases_of : ActiveIpState → List DhcpLease
leases_of s = leases_v4 s.ipv4

abbrev pub owners_of : ActiveIpState → List DnsOwnership
owners_of s = listed s.dns_owner

module _ {C D N : Type 0} (ips : IpConfigurator C) (client : DhcpClient D)
    (names : DnsManager N) where
  abbrev Logged : Type 0
  Logged = World C (D × List DhcpLease) (N × List DnsOwnership)

  -- v goes on from w with the leases ds released and the configurations ns removed.
  abbrev pub Releases : Logged → List DhcpLease → List DnsOwnership → Logged → Type 0
  Releases w ds ns v = (v.dhcp.1 ≡ w.dhcp.1 ++ ds) × (v.dns.1 ≡ w.dns.1 ++ ns)

  remove_routes-Releases :
      (rs : List Route) (w : Logged)
      → Releases w [] [] (remove_routes ips (logged_leases client) (logged_owners names) rs w).1
  unfolding remove_routes
  remove_routes-Releases [] w = (sym (append-nil (w.dhcp.1)), sym (append-nil (w.dns.1)))
  remove_routes-Releases (r ∷ rs) w =
      remove_routes-Releases rs (on_ip (λ c. ips.remove_route c r) w).1

  teardown_dns-Releases :
      (o : Option DnsOwnership) (w : Logged)
      → Releases w []
          (listed o)
          (teardown_dns ips (logged_leases client) (logged_owners names) o w).1
  teardown_dns-Releases none w = (sym (append-nil (w.dhcp.1)), sym (append-nil (w.dns.1)))
  teardown_dns-Releases (some o) w = (sym (append-nil (w.dhcp.1)), refl)

  release_lease-Releases :
      (o : Option DhcpLease) (w : Logged)
      → Releases w
          (listed o)
          []
          (release_lease ips (logged_leases client) (logged_owners names) o w).1
  release_lease-Releases none w = (sym (append-nil (w.dhcp.1)), sym (append-nil (w.dns.1)))
  release_lease-Releases (some o) w = (refl, sym (append-nil (w.dns.1)))

  -- After a part that releases and removes nothing, the rest counts from the start.
  after_nothing :
      (u v w : Logged) (ds : List DhcpLease) (ns : List DnsOwnership)
      → Releases u [] [] v
      → Releases v ds ns w
      → Releases u ds ns w
  after_nothing u v w ds ns h k = (
    k.0 ∙ ap (λ xs. xs ++ ds) (h.0 ∙ append-nil (u.dhcp.1)),
    k.1 ∙ ap (λ xs. xs ++ ns) (h.1 ∙ append-nil (u.dns.1)),
  )

  teardown_ipv4-Releases :
      (o : Option ActiveIpv4) (w : Logged)
      → Releases w
          (leases_v4 o)
          []
          (teardown_ipv4 ips (logged_leases client) (logged_owners names) o w).1
  teardown_ipv4-Releases none w = (sym (append-nil (w.dhcp.1)), sym (append-nil (w.dns.1)))
  teardown_ipv4-Releases (some a) w =
      let after_routes =
        (remove_routes ips (logged_leases client) (logged_owners names) a.routes w).1 in
      after_nothing w after_routes
        (release_lease ips (logged_leases client) (logged_owners names) a.lease after_routes).1
        (listed a.lease) [] (remove_routes-Releases a.routes w)
        (release_lease-Releases a.lease after_routes)

  remove_address-Releases :
      (s : Ipv6Source) (a : ActiveIpv6) (o : Option (List ℕ)) (w : Logged)
      → Releases w [] []
          (remove_address_v6 ips (logged_leases client) (logged_owners names) s a o w).1
  remove_address-Releases Ipv6Source.manual a (some address) w =
      (sym (append-nil (w.dhcp.1)), sym (append-nil (w.dns.1)))
  remove_address-Releases Ipv6Source.manual a none w =
      (sym (append-nil (w.dhcp.1)), sym (append-nil (w.dns.1)))
  remove_address-Releases automatic_link_local a o w =
      (sym (append-nil (w.dhcp.1)), sym (append-nil (w.dns.1)))
  remove_address-Releases Ipv6Source.disabled a o w =
      (sym (append-nil (w.dhcp.1)), sym (append-nil (w.dns.1)))

  teardown_ipv6-Releases :
      (o : Option ActiveIpv6) (w : Logged)
      → Releases w [] [] (teardown_ipv6 ips (logged_leases client) (logged_owners names) o w).1
  teardown_ipv6-Releases none w = (sym (append-nil (w.dhcp.1)), sym (append-nil (w.dns.1)))
  teardown_ipv6-Releases (some a) w =
      let after_routes =
        (remove_routes ips (logged_leases client) (logged_owners names) a.routes w).1 in
      after_nothing w after_routes
        (remove_address_v6 ips (logged_leases client) (logged_owners names) a.source a a.link_local
          after_routes).1
        [] [] (remove_routes-Releases a.routes w)
        (remove_address-Releases a.source a a.link_local after_routes)

  -- Whatever the backends answer, a teardown asks for the removal of the recorded DNS configuration and
  -- for the release of the recorded lease, once each, and for no other.
  pub teardown-Releases :
      (s : ActiveIpState) (w : Logged)
      → Releases w
          (leases_of s)
          (owners_of s)
          (teardown ips (logged_leases client) (logged_owners names) s w).1
  unfolding teardown
  teardown-Releases s w =
      let w1 = (teardown_dns ips (logged_leases client) (logged_owners names) s.dns_owner w).1 in
      let w2 = (teardown_ipv4 ips (logged_leases client) (logged_owners names) s.ipv4 w1).1 in
      let dns = teardown_dns-Releases s.dns_owner w in
      let v4 = teardown_ipv4-Releases s.ipv4 w1 in
      let v6 = teardown_ipv6-Releases s.ipv6 w2 in
      (
        v6.0
            ∙ (append-nil (w2.dhcp.1)
                ∙ (v4.0 ∙ ap (λ xs. xs ++ leases_of s) (dns.0 ∙ append-nil (w.dhcp.1)))),
        v6.1 ∙ (append-nil (w2.dns.1) ∙ (v4.1 ∙ (append-nil (w1.dns.1) ∙ dns.1))),
      )
