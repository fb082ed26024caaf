-- ===== src/Linux/IpEngine/Backends.antt =====
-- src/connection/ip.rs and src/linux/ip_engine.rs: the backends of the IP engine, and its steps.
use network_manager_rs.Common.{Option, none, some, Str, Result, ok, err, map_err}
use network_manager_rs.Common.Int.{ℤ}
use network_manager_rs.Connection.Ip.{
  Ipv4Config, Ipv6Config, DhcpRequest, DhcpLease, DnsConfig, DnsOwnership, ActivationOutcome,
  ActiveIpState, IpConfigError, DhcpError, DnsError,
}
use network_manager_rs.Linux.Model.{NetlinkError, Route}

-- `trait IpConfigurator`, `trait DhcpClient` and `trait DnsManager`: a call returns the backend after
-- it.
pub record IpConfigurator (C : Type 0) : Type 0 where
  pub configure_ipv4 : C → ℤ → Ipv4Config → Result (Unit {0}) IpConfigError × C
  pub remove_ipv4 : C → ℤ → Ipv4Config → Result (Unit {0}) IpConfigError × C
  pub configure_ipv6 : C → ℤ → Ipv6Config → Result (Unit {0}) IpConfigError × C
  pub remove_ipv6 : C → ℤ → Ipv6Config → Result (Unit {0}) IpConfigError × C
  pub add_route : C → Route → Result (Unit {0}) IpConfigError × C
  pub remove_route : C → Route → Result (Unit {0}) IpConfigError × C

pub record DhcpClient (D : Type 0) : Type 0 where
  pub acquire : D → DhcpRequest → Result DhcpLease DhcpError × D
  pub release : D → DhcpLease → Result (Unit {0}) DhcpError × D

pub record DnsManager (N : Type 0) : Type 0 where
  pub apply : N → Str → DnsConfig → Result DnsOwnership DnsError × N
  pub remove : N → DnsOwnership → Result (Unit {0}) DnsError × N

pub data IpEngineError : Type 0 where
  netlink : NetlinkError → IpEngineError
  ip_config : IpConfigError → IpEngineError
  dhcp_error : DhcpError → IpEngineError
  dns_error : DnsError → IpEngineError
  invalid_config : Str → IpEngineError
  interface_not_found : Str → IpEngineError

-- `LinuxIpEngine` with the `state` and the `outcome` that an activation fills in.
pub record World (C D N : Type 0) : Type 0 where
  pub ip : C
  pub dhcp : D
  pub dns : N
  pub state : ActiveIpState
  pub outcome : ActivationOutcome

-- A step over a state W: an error ends the steps after it, and what was changed stays changed.
abbrev pub Step : Type 0 → Type 0 → Type 0
Step W A = W → Result A IpEngineError × W

module _ {W : Type 0} where
  abbrev pub after_answer :
      {A B : Type 0} → (A → Step W B) → Result A IpEngineError × W → Result B IpEngineError × W
  after_answer k (ok a, w) = k a w
  after_answer k (err e, w) = (err e, w)

  infixl 5 ◌>>=◌ ◌>>◌
  abbrev pub ◌>>=◌ : {A B : Type 0} → Step W A → (A → Step W B) → Step W B
  m >>= k = λ w. after_answer k (m w)

  abbrev pub ◌>>◌ : {B : Type 0} → Step W (Unit {0}) → Step W B → Step W B
  m >> k = λ w. after_answer (λ _. k) (m w)

  abbrev pub done : {A : Type 0} → A → Step W A
  done a w = (ok a, w)

  abbrev pub ok_or_fail : {A : Type 0} → Option A → IpEngineError → Step W A
  ok_or_fail none e w = (err e, w)
  ok_or_fail (some a) e w = (ok a, w)

module _ {C D N : Type 0} where
  abbrev pub set_state : (ActiveIpState → ActiveIpState) → Step (World C D N) (Unit {0})
  set_state f w = (ok tt, record w { state = f w.state })

  abbrev pub set_outcome : (ActivationOutcome → ActivationOutcome) → Step (World C D N) (Unit {0})
  set_outcome f w = (ok tt, record w { outcome = f w.outcome })

  -- A call of a backend, with its error as the engine's.
  abbrev pub on_ip : {A : Type 0} → (C → Result A IpConfigError × C) → Step (World C D N) A
  on_ip call w = let (r, c) = call w.ip in (map_err ip_config r, record w { ip = c })

  abbrev pub on_dhcp : {A : Type 0} → (D → Result A DhcpError × D) → Step (World C D N) A
  on_dhcp call w = let (r, d) = call w.dhcp in (map_err dhcp_error r, record w { dhcp = d })

  abbrev pub on_dns : {A : Type 0} → (N → Result A DnsError × N) → Step (World C D N) A
  on_dns call w = let (r, n) = call w.dns in (map_err dns_error r, record w { dns = n })
