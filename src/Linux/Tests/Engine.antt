-- ===== src/Linux/Tests/Engine.antt =====
-- A teardown on a backend whose removals of routes all fail.
use network_manager_rs.Common.{
  ℕ, ◌≡◌, refl, none, some, List, [], ◌∷◌, ◌++◌, length, All, ok, err, Octets4, str,
}
use network_manager_rs.Common.Int.{pos}
use network_manager_rs.Connection.Ip.{
  ActiveIpState, Ipv4Source, DhcpError, DnsError, IpConfigError, no_outcome, no_state, DhcpLease,
}
use network_manager_rs.Linux.IpEngine.Backends.{IpConfigurator, DhcpClient, DnsManager, World}
use network_manager_rs.Linux.IpEngine.Routes.{
  ipv4_routes_for, connected_route_v4, ipv4_static_routes,
}
use network_manager_rs.Linux.IpEngine.Teardown.{teardown}
use network_manager_rs.Linux.Model.{Route}
use network_manager_rs.Connection.Profile.{IpConfig, automatic}
use network_manager_rs.Connection.Profile.Build.{default_ip}
use network_manager_rs.Linux.IpEngine.Ipv4.{
  activate_ipv4, automatic_ipv4, leased_ipv4, install_ipv4, install_routes, apply_dns,
}
use network_manager_rs.Linux.IpEngine.Tracked.{Item, tracked}
use network_manager_rs.Linux.IpEngine.Recorded.{Recorded4, activate_ipv4-Recorded4}
use network_manager_rs.Linux.IpEngine.Undone.{IsUndone, activate_ipv4-teardown}
use network_manager_rs.Linux.IpEngine.Attempts.{
  Removal, logged, log_of, removals, teardown_attempts,
}

abbrev pub backend : IpConfigurator (Unit {0})
backend = record {
  configure_ipv4 = λ c i x. (ok tt, c);
  remove_ipv4 = λ c i x. (ok tt, c);
  configure_ipv6 = λ c i x. (ok tt, c);
  remove_ipv6 = λ c i x. (ok tt, c);
  add_route = λ c r. (ok tt, c);
  remove_route = λ c r. (err (IpConfigError.io 3), c);
}

abbrev pub leases : DhcpClient (Unit {0})
leases = record {
  acquire = λ d r. (err (DhcpError.timeout (str "eth0")), d);
  release = λ d l. (ok tt, d);
}

abbrev pub resolver : DnsManager (Unit {0})
resolver = record {
  apply = λ n owner config. (err (DnsError.io 13), n);
  remove = λ n ownership. (ok tt, n);
}

abbrev host : ℕ → Octets4
host n = record { a = 10; b = 0; c = 0; d = n }

abbrev pub lease : DhcpLease
lease = record {
  interface_index = pos 2;
  interface_name = str "eth0";
  address = host 7;
  prefix_length = 24;
  netmask = record { a = 255; b = 255; c = 255; d = 0 };
  gateway = some (host 1);
  dns_servers = host 1 ∷ [];
  search_domains = [];
  server_identifier = some (host 1);
  lease_seconds = some 3600;
  t1_seconds = none;
  t2_seconds = none;
}

abbrev pub recorded : ActiveIpState
recorded = record {
  ipv4 = some (record {
    interface_index = pos 2;
    address = host 5;
    prefix_length = 24;
    lease = some lease;
    routes = ipv4_routes_for (pos 2) (host 5) 24 (some (host 1));
    source = Ipv4Source.manual;
  });
  ipv6 = none;
  dns_owner = some (record { owner = str "nmd/home/wlan0"; path = str "/etc/resolv.conf" });
}

abbrev pub before : World (Unit {0} × List Removal) (Unit {0}) (Unit {0})
before = record { ip = (tt, []); dhcp = tt; dns = tt; state = recorded; outcome = no_outcome }

teardown_attempts_example :
    log_of backend leases resolver (teardown (logged backend) leases resolver recorded before).1
    ≡ [] ++ removals recorded
teardown_attempts_example = teardown_attempts backend leases resolver recorded before

abbrev pub granting : DhcpClient (Unit {0})
granting = record { acquire = λ d r. (ok lease, d); release = λ d l. (ok tt, d) }

abbrev office_route : Route
office_route = record (connected_route_v4 (pos 2) (host 200) 30) { metric = some 50 }

abbrev pub automatic_config : IpConfig
automatic_config = record default_ip { method = automatic; routes = office_route ∷ [] }

abbrev empty : World (Unit {0} × List Item) (Unit {0}) (Unit {0})
empty = record { ip = (tt, []); dhcp = tt; dns = tt; state = no_state; outcome = no_outcome }

activate_ipv4-Recorded4_example :
    Recorded4
      (activate_ipv4
        (tracked backend)
        granting
        resolver
        (pos 2)
        (str "eth0")
        automatic_config
        (str "nmd/home/eth0")
        empty).1
activate_ipv4-Recorded4_example =
    activate_ipv4-Recorded4 backend granting resolver (pos 2) (str "eth0") automatic_config
      (str "nmd/home/eth0") empty refl

-- The address, its connected route, the route through the gateway and the static route are asked for.
asked :
    length
      (activate_ipv4
        (tracked backend)
        granting
        resolver
        (pos 2)
        (str "eth0")
        automatic_config
        (str "nmd/home/eth0")
        empty).1.ip.1
    ≡ 4
unfolding activate_ipv4 automatic_ipv4 leased_ipv4 install_ipv4 install_routes ipv4_static_routes
    connected_route_v4 apply_dns
asked = refl

activate_ipv4-teardown_example :
    (rs : List Removal) × ((teardown
        (logged backend)
        granting
        resolver
        (activate_ipv4
          (tracked backend)
          granting
          resolver
          (pos 2)
          (str "eth0")
          automatic_config
          (str "nmd/home/eth0")
          empty).1.state
        before).1.ip.1
      ≡ [] ++ rs)
    × All (IsUndone rs) (
        (activate_ipv4
          (tracked backend)
          granting
          resolver
          (pos 2)
          (str "eth0")
          automatic_config
          (str "nmd/home/eth0")
          empty).1.ip.1)
activate_ipv4-teardown_example =
    activate_ipv4-teardown backend granting resolver (pos 2) (str "eth0") automatic_config
      (str "nmd/home/eth0") empty before refl
