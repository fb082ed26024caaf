-- ===== src/Connection/Ip.antt =====
-- src/connection/ip.rs: the plain data that the IP backends and the activation engine exchange.
use network_manager_rs.Common.{ℕ, Option, none, List, Str, Octets4}
use network_manager_rs.Common.Int.{ℤ}
use network_manager_rs.Linux.Model.{IpAddr, NetlinkError, Route}

pub record Ipv4Config : Type 0 where
  pub address : Octets4
  pub prefix_length : ℕ
  pub gateway : Option Octets4

pub record Ipv6Config : Type 0 where
  pub address : List ℕ
  pub prefix_length : ℕ
  pub gateway : Option (List ℕ)

-- The timeout is in milliseconds.
pub record DhcpRequest : Type 0 where
  pub interface_index : ℤ
  pub interface_name : Str
  pub hostname : Option Str
  pub requested_address : Option Octets4
  pub timeout : ℕ

pub record DhcpLease : Type 0 where
  pub interface_index : ℤ
  pub interface_name : Str
  pub address : Octets4
  pub prefix_length : ℕ
  pub netmask : Octets4
  pub gateway : Option Octets4
  pub dns_servers : List Octets4
  pub search_domains : List Str
  pub server_identifier : Option Octets4
  pub lease_seconds : Option ℕ
  pub t1_seconds : Option ℕ
  pub t2_seconds : Option ℕ

pub record DnsConfig : Type 0 where
  pub search_domains : List Str
  pub servers : List IpAddr

pub record DnsOwnership : Type 0 where
  pub owner : Str
  pub path : Str

pub data Ipv4Source : Type 0 where
  automatic_dhcp manual : Ipv4Source

pub data Ipv6Source : Type 0 where
  automatic_link_local manual disabled : Ipv6Source

pub record Ipv4Outcome : Type 0 where
  pub address : Octets4
  pub prefix_length : ℕ
  pub gateway : Option Octets4
  pub dns_servers : List IpAddr
  pub search_domains : List Str
  pub source : Ipv4Source
  pub routes : List Route
  pub lease : Option DhcpLease

pub record Ipv6Outcome : Type 0 where
  pub address : Option (List ℕ)
  pub prefix_length : ℕ
  pub gateway : Option (List ℕ)
  pub dns_servers : List IpAddr
  pub search_domains : List Str
  pub routes : List Route
  pub link_local : Option (List ℕ)
  pub source : Ipv6Source

pub record ActivationOutcome : Type 0 where
  pub ipv4 : Option Ipv4Outcome
  pub ipv6 : Option Ipv6Outcome
  pub degradation : Option Str

-- `ActivationOutcome::default()`.
abbrev pub no_outcome : ActivationOutcome
no_outcome = record { ipv4 = none; ipv6 = none; degradation = none }

pub record ActiveIpv4 : Type 0 where
  pub interface_index : ℤ
  pub address : Octets4
  pub prefix_length : ℕ
  pub lease : Option DhcpLease
  pub routes : List Route
  pub source : Ipv4Source

pub record ActiveIpv6 : Type 0 where
  pub interface_index : ℤ
  pub link_local : Option (List ℕ)
  pub prefix_length : ℕ
  pub routes : List Route
  pub source : Ipv6Source

pub record ActiveIpState : Type 0 where
  pub ipv4 : Option ActiveIpv4
  pub ipv6 : Option ActiveIpv6
  pub dns_owner : Option DnsOwnership

-- `ActiveIpState::default()`.
abbrev pub no_state : ActiveIpState
no_state = record { ipv4 = none; ipv6 = none; dns_owner = none }

pub data IpConfigError : Type 0 where
  netlink : NetlinkError → IpConfigError
  invalid_config : Str → IpConfigError
  io : ℕ → IpConfigError

pub data DhcpError : Type 0 where
  io : ℕ → DhcpError
  malformed_packet : Str → DhcpError
  timeout : Str → DhcpError
  invalid_config : Str → DhcpError

pub data DnsError : Type 0 where
  foreign_managed : Str → DnsError
  io : ℕ → DnsError
  invalid_config : Str → DnsError
