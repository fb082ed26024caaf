-- ===== src/Linux/Activation/Rollback.antt =====
-- What an activation leaves behind, and what a deactivation takes down.
use network_manager_rs.Common.{
  ◌≡◌, refl, ◌++◌, Option, none, some, List, Result, ok, err, Str, str_eq_refl,
}
use network_manager_rs.Common.Int.{ℤ}
use network_manager_rs.Connection.Ip.{ActivationOutcome, ActiveIpState, DhcpLease, DnsOwnership}
use network_manager_rs.Connection.Profile.{ConnectionProfile, DeviceInfo}
use network_manager_rs.Connection.Activation.{ActivationEngine, ActivationError}
use network_manager_rs.Linux.IpEngine.{activate}
use network_manager_rs.Linux.IpEngine.Backends.{
  IpConfigurator, DhcpClient, DnsManager, World, IpEngineError,
}
use network_manager_rs.Linux.IpEngine.Attempts.{Removal, logged, removals, teardown_attempts}
use network_manager_rs.Linux.IpEngine.Releases.{
  logged_leases, logged_owners, leases_of, owners_of, teardown-Releases,
}
use network_manager_rs.Linux.Activation.{
  LinuxActivationEngine, Listings, resolve_interface_index, dns_owner, after_ip, after_link,
  after_index, unless_active, bring_link_up, bring_link_down, rollback,
}

module _ {S C D N : Type 0} (supplicants : ActivationEngine S) (ips : IpConfigurator C)
    (client : DhcpClient D) (names : DnsManager N) (listings : Listings)
    (ip_text : IpEngineError → Str) (text : ActivationError → Str) where
  abbrev Engine : Type 0
  Engine = LinuxActivationEngine S C D N

  abbrev pub Answer : Type 0
  Answer = Result ActivationOutcome ActivationError × Engine

  -- What the IP engine answers for a profile, on the interface of that index.
  abbrev pub ip_answer :
      Engine
      → ConnectionProfile
      → DeviceInfo
      → ℤ
      → Result (ActivationOutcome × ActiveIpState) IpEngineError × World C D N
  ip_answer e p d index =
      activate ips client names listings.addresses index d.interface_name p.ipv4 p.ipv6
        (dns_owner p d) e.world

  -- The outcome, the recorded state and the backends of e' are those of the IP engine's answer, and
  -- the supplicant is the one that brought the link up.
  pub record Brought (e : Engine) (p : ConnectionProfile) (d : DeviceInfo)
      (outcome : ActivationOutcome) (e' : Engine) : Type 0 where
    pub index : ℤ
    pub state : ActiveIpState
    pub link : ActivationOutcome
    pub resolved : resolve_interface_index listings d.interface_name ≡ ok index
    pub linked : supplicants.bring_up e.supplicant p d ≡ (ok link, e'.supplicant)
    pub configured : ip_answer e p d index ≡ (ok (outcome, state), e'.world)
    pub active : e'.active ≡ some (p.id, state)

  -- How an answer of `activate` and the engine after it go together.
  abbrev pub Records : Engine → ConnectionProfile → DeviceInfo → Answer → Type 0
  Records e p d (ok outcome, e') = (e.active ≡ none) × Brought e p d outcome e'
  Records e p d (err reason, e') = e'.active ≡ e.active

  after_ip-Records :
      (e : Engine) (p : ConnectionProfile) (d : DeviceInfo) (index : ℤ) (link : ActivationOutcome)
      (s : S) (answer : Result (ActivationOutcome × ActiveIpState) IpEngineError × World C D N)
      → e.active ≡ none
      → resolve_interface_index listings d.interface_name ≡ ok index
      → supplicants.bring_up e.supplicant p d ≡ (ok link, s)
      → ip_answer e p d index ≡ answer
      → Records e p d
          (after_ip supplicants ips client names listings ip_text text p s e.active answer)
  after_ip-Records e p d index link s (ok (outcome, state), w) h i l c = (
    h,
    record {
      index = index;
      state = state;
      link = link;
      resolved = i;
      linked = l;
      configured = c;
      active = refl;
    },
  )
  after_ip-Records e p d index link s (err reason, w) h i l c = refl

  after_link-Records :
      (e : Engine) (p : ConnectionProfile) (d : DeviceInfo) (index : ℤ)
      (answer : Result ActivationOutcome ActivationError × S)
      → e.active ≡ none
      → resolve_interface_index listings d.interface_name ≡ ok index
      → supplicants.bring_up e.supplicant p d ≡ answer
      → Records e p d
          (after_link supplicants ips client names listings ip_text text e p d index answer)
  after_link-Records e p d index (err reason, s) h i l = refl
  after_link-Records e p d index (ok link, s) h i l =
      after_ip-Records e p d index link s (ip_answer e p d index) h i l refl

  after_index-Records :
      (e : Engine) (p : ConnectionProfile) (d : DeviceInfo) (index : Result ℤ IpEngineError)
      → e.active ≡ none
      → resolve_interface_index listings d.interface_name ≡ index
      → Records e p d (after_index supplicants ips client names listings ip_text text e p d index)
  after_index-Records e p d (err reason) h i = refl
  after_index-Records e p d (ok index) h i = after_link-Records e p d index _ h i refl

  unless_active-Records :
      (e : Engine) (p : ConnectionProfile) (d : DeviceInfo) (o : Option (Str × ActiveIpState))
      → e.active ≡ o
      → Records e p d (unless_active supplicants ips client names listings ip_text text e p d o)
  unless_active-Records e p d none h = after_index-Records e p d _ h refl
  unless_active-Records e p d (some a) h = refl

  -- An activation that succeeds found the engine idle, resolved the interface, had the supplicant bring
  -- the link up, and ends with the outcome and the backends that the IP engine answered with, and with
  -- the profile's id and the state that the IP engine recorded as active; one that fails, for whatever
  -- reason, leaves what was active as it was.
  pub bring_link_up-Records :
      (e : Engine) (p : ConnectionProfile) (d : DeviceInfo)
      → Records e p d (bring_link_up supplicants ips client names listings ip_text text e p d)
  unfolding bring_link_up
  bring_link_up-Records e p d = unless_active-Records e p d e.active refl

-- A deactivation over backends that log what they are asked to take down.
module _ {S C D N : Type 0} (supplicants : ActivationEngine S) (ips : IpConfigurator C)
    (client : DhcpClient D) (names : DnsManager N) (listings : Listings)
    (ip_text : IpEngineError → Str) (text : ActivationError → Str) where
  abbrev Observed : Type 0
  Observed = LinuxActivationEngine S (C × List Removal) (D × List DhcpLease) (N × List DnsOwnership)

  abbrev pub down : Observed → ConnectionProfile → Result (Unit {0}) ActivationError × Observed
  down =
      bring_link_down supplicants (logged ips) (logged_leases client) (logged_owners names) listings
        ip_text text

  -- What was asked for between two engines: routes and addresses, leases, DNS configurations.
  abbrev pub Undone : ActiveIpState → Observed → Observed → Type 0
  Undone state e e' =
      (e'.world.ip.1 ≡ e.world.ip.1 ++ removals state)
      × (e'.world.dhcp.1 ≡ e.world.dhcp.1 ++ leases_of state)
      × (e'.world.dns.1 ≡ e.world.dns.1 ++ owners_of state)

  -- Whatever the backends answer, a deactivation of the active profile asks for the removal of every
  -- recorded route, of the recorded IPv4 address and of a manual IPv6 one, in order, for the release
  -- of the recorded lease and for the removal of the recorded DNS configuration, once each; asks the
  -- supplicant to leave the network, whatever the IP engine answers; and leaves the engine idle.
  pub bring_link_down-Removals :
      (e : Observed) (p : ConnectionProfile) (state : ActiveIpState)
      → e.active ≡ some (p.id, state)
      → Undone state e (down e p).1
        × ((down e p).1.supplicant ≡ (supplicants.bring_down e.supplicant p).1)
        × ((down e p).1.active ≡ none)
  unfolding bring_link_down rollback
  bring_link_down-Removals e p state h =
      let released = teardown-Releases (logged ips) client names state e.world in
      rw (h, str_eq_refl p.id)
        (
          (
            teardown_attempts ips (logged_leases client) (logged_owners names) state e.world,
            released.0,
            released.1,
          ),
          refl,
          refl,
        )
