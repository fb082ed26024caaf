-- ===== src/Linux/IpEngine/Ipv4.antt =====
-- src/linux/ip_engine.rs: the IPv4 phase of an activation.
use network_manager_rs.Common.{
  ℕ, Octets4, Bool, true, false, ◌&&◌, none, some, List, [], ◌∷◌, ◌++◌, map, Str, str,
}
use network_manager_rs.Common.Int.{ℤ}
use network_manager_rs.Connection.Ip.{
  Ipv4Config, Ipv4Outcome, DnsConfig, DhcpLease, automatic_dhcp, Ipv4Source,
}
use network_manager_rs.Connection.Profile.{IpConfig, IpMethod, automatic, manual, disabled}
use network_manager_rs.Linux.Model.{v4, Route}
use network_manager_rs.Linux.IpEngine.Backends.{
  IpConfigurator, DhcpClient, DnsManager, World, invalid_config, Step, ◌>>=◌, ◌>>◌, done,
  ok_or_fail, set_state, set_outcome, on_ip, on_dhcp, on_dns,
}
use network_manager_rs.Linux.IpEngine.Routes.{ipv4_static_routes, ipv4_routes_for, v4_of, and_then}

abbrev is_nil {ℓ} : {A : Type ℓ} → List A → Bool
is_nil [] = true
is_nil (x ∷ xs) = false

module _ {C D N : Type 0} (ips : IpConfigurator C) (client : DhcpClient D)
    (names : DnsManager N) where
  unfoldable pub install_routes : List Route → Step (World C D N) (Unit {0})
  install_routes [] = done tt
  install_routes (r ∷ rest) = on_ip (λ c. ips.add_route c r) >> install_routes rest

  -- `dns.apply`, and the note of who owns the configuration.
  unfoldable pub apply_dns : Str → DnsConfig → Step (World C D N) (Unit {0})
  apply_dns dns_owner config = do
    ownership ← on_dns (λ n. names.apply n dns_owner config)
    set_state (λ s. record s { dns_owner = some ownership })

  -- The automatic arm notes that there is no owner where there is nothing to apply.
  abbrev pub automatic_dns : Bool → Str → DnsConfig → Step (World C D N) (Unit {0})
  automatic_dns true dns_owner config = set_state (λ s. record s { dns_owner = none })
  automatic_dns false dns_owner config = apply_dns dns_owner config

  -- The manual arm does nothing then.
  abbrev pub manual_dns : Bool → Str → DnsConfig → Step (World C D N) (Unit {0})
  manual_dns true dns_owner config = done tt
  manual_dns false dns_owner config = apply_dns dns_owner config

  -- The closure that installs a configuration, in both arms, and the outcome after it.
  unfoldable pub install_ipv4 :
      ℤ
      → Ipv4Config
      → List Route
      → Step (World C D N) (Unit {0})
      → Ipv4Outcome
      → Step (World C D N) (Unit {0})
  install_ipv4 interface_index config static_routes dns outcome = do
    on_ip (λ c. ips.configure_ipv4 c interface_index config)
    install_routes static_routes
    dns
    set_outcome (λ o. record o { ipv4 = some outcome })

  -- The arm `IpMethod::Automatic` of `activate_ipv4`, once a lease is acquired.
  unfoldable pub leased_ipv4 : ℤ → IpConfig → Str → DhcpLease → Step (World C D N) (Unit {0})
  leased_ipv4 interface_index ipv4 dns_owner lease = do
    let static_routes = ipv4_static_routes ipv4
    let routes =
        ipv4_routes_for interface_index lease.address lease.prefix_length lease.gateway
        ++ static_routes
    let dns_config : DnsConfig = record {
      search_domains = lease.search_domains;
      servers = map v4 lease.dns_servers;
    }
    set_state (λ s. record s {
      ipv4 = some (record {
        interface_index = interface_index;
        address = lease.address;
        prefix_length = lease.prefix_length;
        lease = some lease;
        routes = routes;
        source = automatic_dhcp;
      });
    })
    install_ipv4 interface_index
        (record {
          address = lease.address;
          prefix_length = lease.prefix_length;
          gateway = lease.gateway;
        })
        static_routes
        (automatic_dns (is_nil dns_config.servers && is_nil dns_config.search_domains) dns_owner
          dns_config)
        (record {
          address = lease.address;
          prefix_length = lease.prefix_length;
          gateway = lease.gateway;
          dns_servers = dns_config.servers;
          search_domains = dns_config.search_domains;
          source = automatic_dhcp;
          routes = routes;
          lease = some lease;
        })

  unfoldable pub automatic_ipv4 : ℤ → Str → IpConfig → Str → Step (World C D N) (Unit {0})
  automatic_ipv4 interface_index interface_name ipv4 dns_owner = do
    lease ← on_dhcp (λ d. client.acquire d (record {
      interface_index = interface_index;
      interface_name = interface_name;
      hostname = none;
      requested_address = none;
      timeout = 0;
    }))
    leased_ipv4 interface_index ipv4 dns_owner lease

  -- The arm `IpMethod::Manual` of `activate_ipv4`, once the address and the prefix length are there.
  unfoldable pub fixed_ipv4 : ℤ → IpConfig → Str → Octets4 → ℕ → Step (World C D N) (Unit {0})
  fixed_ipv4 interface_index ipv4 dns_owner address prefix_length = do
    let gateway = and_then v4_of ipv4.gateway
    let static_routes = ipv4_static_routes ipv4
    let routes = ipv4_routes_for interface_index address prefix_length gateway ++ static_routes
    set_state (λ s. record s {
      ipv4 = some (record {
        interface_index = interface_index;
        address = address;
        prefix_length = prefix_length;
        lease = none;
        routes = routes;
        source = Ipv4Source.manual;
      });
    })
    install_ipv4 interface_index
        (record { address = address; prefix_length = prefix_length; gateway = gateway })
        static_routes
        (manual_dns (is_nil ipv4.dns_servers) dns_owner
          (record { search_domains = []; servers = ipv4.dns_servers }))
        (record {
          address = address;
          prefix_length = prefix_length;
          gateway = gateway;
          dns_servers = ipv4.dns_servers;
          search_domains = [];
          source = Ipv4Source.manual;
          routes = routes;
          lease = none;
        })

  unfoldable pub manual_ipv4 : ℤ → IpConfig → Str → Step (World C D N) (Unit {0})
  manual_ipv4 interface_index ipv4 dns_owner = do
    address ←
        ok_or_fail (and_then v4_of ipv4.address)
          (invalid_config (str "manual IPv4 needs a valid IPv4 address"))
    prefix_length ←
        ok_or_fail ipv4.prefix_length (invalid_config (str "manual IPv4 needs a prefix length"))
    fixed_ipv4 interface_index ipv4 dns_owner address prefix_length

  abbrev pub by_method_v4 : IpMethod → ℤ → Str → IpConfig → Str → Step (World C D N) (Unit {0})
  by_method_v4 disabled interface_index interface_name ipv4 dns_owner = done tt
  by_method_v4 automatic interface_index interface_name ipv4 dns_owner =
      automatic_ipv4 interface_index interface_name ipv4 dns_owner
  by_method_v4 manual interface_index interface_name ipv4 dns_owner =
      manual_ipv4 interface_index ipv4 dns_owner

  unfoldable pub activate_ipv4 : ℤ → Str → IpConfig → Str → Step (World C D N) (Unit {0})
  activate_ipv4 interface_index interface_name ipv4 dns_owner =
      by_method_v4 ipv4.method interface_index interface_name ipv4 dns_owner
