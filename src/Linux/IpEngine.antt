-- ===== src/Linux/IpEngine.antt =====
-- src/linux/ip_engine.rs: bringing the IP configuration of a connection up and down.
pub mod Backends
pub mod Routes
pub mod Ipv4
pub mod Ipv6
pub mod Teardown
pub mod Attempts
pub mod Tracked
pub mod Recorded
pub mod Releases
pub mod Undone
use network_manager_rs.Common.{Option, List, Str, Result, ok, err}
use network_manager_rs.Common.Int.{ℤ}
use network_manager_rs.Connection.Ip.{ActivationOutcome, ActiveIpState, no_outcome, no_state}
use network_manager_rs.Connection.Profile.{IpConfig}
use network_manager_rs.Linux.Model.{Address}
use Backends.{IpConfigurator, DhcpClient, DnsManager, World, IpEngineError, Step, ◌>>◌}
use Ipv4.{activate_ipv4}
use Ipv6.{activate_ipv6}
use Teardown.{teardown}

module _ {C D N : Type 0} (ips : IpConfigurator C) (client : DhcpClient D)
    (names : DnsManager N) where
  -- The end of `activate`, from the result of its two phases.
  abbrev pub conclude :
      Result (Unit {0}) IpEngineError × World C D N
      → Result (ActivationOutcome × ActiveIpState) IpEngineError × World C D N
  conclude (ok _, w) = (ok (w.outcome, w.state), w)
  conclude (err e, w) = (err e, (teardown ips client names w.state w).1)

  -- `activate` starts with an empty state and an empty outcome.
  unfoldable pub activate :
      Option (List Address)
      → ℤ
      → Str
      → IpConfig
      → IpConfig
      → Str
      → Step (World C D N) (ActivationOutcome × ActiveIpState)
  activate addresses interface_index interface_name ipv4 ipv6 dns_owner w = conclude (
      (activate_ipv4 ips client names interface_index interface_name ipv4 dns_owner
          >> activate_ipv6 ips client names addresses interface_index ipv6)
        (record w { state = no_state; outcome = no_outcome }))
