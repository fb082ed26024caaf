-- ===== src/Linux/IpEngine/Ipv6.antt =====
-- src/linux/ip_engine.rs: the IPv6 phase of an activation.
use network_manager_rs.Common.{Option, none, some, List, [], ◌++◌, str}
use network_manager_rs.Common.Int.{ℤ}
use network_manager_rs.Connection.Ip.{automatic_link_local, Ipv6Source}
use network_manager_rs.Connection.Profile.{IpConfig, IpMethod, automatic, manual, disabled}
use network_manager_rs.Linux.Model.{Address}
use network_manager_rs.Linux.IpEngine.Backends.{
  IpConfigurator, World, invalid_config, Step, ◌>>=◌, ◌>>◌, ok_or_fail, set_state, set_outcome,
  on_ip,
}
use network_manager_rs.Linux.IpEngine.Routes.{
  ipv6_static_routes, ipv6_routes_for, v6_of, and_then, link_local_address,
}
use network_manager_rs.Linux.IpEngine.Ipv4.{install_routes}
use network_manager_rs.Linux.IpEngine.Backends.{DhcpClient, DnsManager}

module _ {C D N : Type 0} (ips : IpConfigurator C) (client : DhcpClient D)
    (names : DnsManager N) where
  -- The arm `IpMethod::Manual` of `activate_ipv6`.
  unfoldable pub manual_ipv6 : ℤ → IpConfig → Step (World C D N) (Unit {0})
  manual_ipv6 interface_index ipv6 = do
    address ←
        ok_or_fail (and_then v6_of ipv6.address)
          (invalid_config (str "manual IPv6 needs a valid IPv6 address"))
    prefix_length ←
        ok_or_fail ipv6.prefix_length (invalid_config (str "manual IPv6 needs a prefix length"))
    let gateway = and_then v6_of ipv6.gateway
    let static_routes = ipv6_static_routes ipv6
    let routes = ipv6_routes_for interface_index address prefix_length gateway ++ static_routes
    set_state (λ s. record s {
      ipv6 = some (record {
        interface_index = interface_index;
        link_local = some address;
        prefix_length = prefix_length;
        routes = routes;
        source = Ipv6Source.manual;
      });
    })
    on_ip (λ c.
        ips.configure_ipv6 c interface_index
          (record { address = address; prefix_length = prefix_length; gateway = gateway }))
    install_routes ips client names static_routes
    set_outcome (λ o. record o {
      ipv6 = some (record {
        address = some address;
        prefix_length = prefix_length;
        gateway = gateway;
        dns_servers = ipv6.dns_servers;
        search_domains = [];
        routes = routes;
        link_local = none;
        source = Ipv6Source.manual;
      });
    })

  -- `addresses` is the kernel's answer to `get_addresses().ok()`.
  abbrev by_method_v6 :
      IpMethod → Option (List Address) → ℤ → IpConfig → Step (World C D N) (Unit {0})
  by_method_v6 disabled addresses interface_index ipv6 = set_outcome (λ o. record o { ipv6 = none })
  by_method_v6 automatic addresses interface_index ipv6 = set_outcome (λ o. record o {
    ipv6 = some (record {
      address = none;
      prefix_length = 64;
      gateway = none;
      dns_servers = [];
      search_domains = [];
      routes = [];
      link_local = link_local_address addresses interface_index;
      source = automatic_link_local;
    });
  })
  by_method_v6 manual addresses interface_index ipv6 = manual_ipv6 interface_index ipv6

  unfoldable pub activate_ipv6 :
      Option (List Address) → ℤ → IpConfig → Step (World C D N) (Unit {0})
  activate_ipv6 addresses interface_index ipv6 =
      by_method_v6 ipv6.method addresses interface_index ipv6
