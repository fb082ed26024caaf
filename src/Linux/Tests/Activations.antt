-- ===== src/Linux/Tests/Activations.antt =====
-- The engine of a Linux host, on an interface that the kernel lists and on one that it does not.
use network_manager_rs.Common.{
  ◌≡◌, refl, Bool, true, false, some, none, List, [], ◌∷◌, Str, str, str_eq, Result, ok, err,
}
use network_manager_rs.Common.Int.{pos}
use network_manager_rs.Connection.Ip.{no_outcome, no_state, DhcpLease, DnsOwnership}
use network_manager_rs.Connection.Activation.{ActivationEngine, ActivationError}
use network_manager_rs.Connection.Tests.Data.{home, laptop}
use network_manager_rs.Linux.IpEngine.Backends.{IpEngineError, DnsManager}
use network_manager_rs.Linux.IpEngine.Attempts.{Removal}
use network_manager_rs.Linux.IpEngine.{activate}
use network_manager_rs.Linux.IpEngine.Routes.{ipv4_static_routes, connected_route_v4}
use network_manager_rs.Linux.IpEngine.Ipv4.{
  activate_ipv4, automatic_ipv4, leased_ipv4, install_ipv4, install_routes, apply_dns,
}
use network_manager_rs.Linux.IpEngine.Ipv6.{activate_ipv6}
use network_manager_rs.Connection.Profile.{ConnectionProfile, disabled}
use network_manager_rs.Connection.Profile.Build.{default_ip}
use network_manager_rs.Linux.Activation.{
  LinuxActivationEngine, Listings, resolve_interface_index, bring_link_up,
}
use network_manager_rs.Linux.Activation.Rollback.{
  Records, bring_link_up-Records, Undone, down, bring_link_down-Removals,
}
use network_manager_rs.Linux.Tests.Engine.{
  backend, leases, resolver, recorded, granting, automatic_config,
}

abbrev supplicants : ActivationEngine (Unit {0})
supplicants = record { bring_up = λ s p d. (ok no_outcome, s); bring_down = λ s p. (ok tt, s) }

abbrev listings : Listings
listings = record {
  links = ok (record { index = pos 2; name = laptop.interface_name; flags = 1 } ∷ []);
  addresses = none;
}

abbrev ip_text : IpEngineError → Str
ip_text e = str "ip"

abbrev text : ActivationError → Str
text e = str "supplicant"

abbrev is_ok : {A B : Type 0} → Result A B → Bool
is_ok (ok a) = true
is_ok (err e) = false

abbrev Host : Type 0
Host =
    LinuxActivationEngine (Unit {0}) (Unit {0} × List Removal) (Unit {0} × List DhcpLease)
      (Unit {0} × List DnsOwnership)

abbrev idle : LinuxActivationEngine (Unit {0}) (Unit {0}) (Unit {0}) (Unit {0})
idle = record {
  supplicant = tt;
  world = record { ip = tt; dhcp = tt; dns = tt; state = no_state; outcome = no_outcome };
  active = none;
}

abbrev busy : Host
busy = record {
  supplicant = tt;
  world = record {
    ip = (tt, []);
    dhcp = (tt, []);
    dns = (tt, []);
    state = no_state;
    outcome = no_outcome;
  };
  active = some (home.id, recorded);
}

abbrev willing : DnsManager (Unit {0})
willing = record {
  apply = λ n owner config. (ok (record { owner = owner; path = str "/etc/resolv.conf" }), n);
  remove = λ n ownership. (ok tt, n);
}

abbrev roaming : ConnectionProfile
roaming = record home { ipv4 = automatic_config; ipv6 = record default_ip { method = disabled } }

bring_link_up-Records_example :
    Records supplicants backend granting willing listings ip_text text idle roaming laptop
      (bring_link_up supplicants backend granting willing listings ip_text text idle roaming laptop)
bring_link_up-Records_example =
    bring_link_up-Records supplicants backend granting willing listings ip_text text idle roaming
      laptop

-- The activation of the example succeeds.
brought_up :
    is_ok
      (bring_link_up supplicants backend granting willing listings ip_text text idle roaming
        laptop).0
    ≡ true
unfolding bring_link_up resolve_interface_index activate activate_ipv4 automatic_ipv4 leased_ipv4
    install_ipv4 install_routes ipv4_static_routes apply_dns activate_ipv6 str_eq connected_route_v4
brought_up = refl

bring_link_down-Removals_example :
    Undone supplicants backend leases resolver listings ip_text text recorded busy
      (down supplicants backend leases resolver listings ip_text text busy home).1
    × ((down supplicants backend leases resolver listings ip_text text busy home).1.supplicant
        ≡ (supplicants.bring_down tt home).1)
    × ((down supplicants backend leases resolver listings ip_text text busy home).1.active ≡ none)
bring_link_down-Removals_example =
    bring_link_down-Removals supplicants backend leases resolver listings ip_text text busy home
      recorded refl
