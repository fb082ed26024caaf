-- ===== src/Linux/Activation.antt =====
-- src/linux/activation.rs: the activation engine of a Linux host, the link first and then its IP
-- configuration.
pub mod Rollback
use network_manager_rs.Common.{
  ℕ, Bool, Option, none, some, List, [], ◌∷◌, ◌++◌, find, Result, ok, err, str, Str, str_eq,
  if◌then◌else◌, not,
}
use network_manager_rs.Common.Int.{ℤ}
use network_manager_rs.Connection.Ip.{ActivationOutcome, ActiveIpState}
use network_manager_rs.Connection.Profile.{ConnectionProfile, DeviceInfo}
use network_manager_rs.Connection.Activation.{ActivationEngine, ActivationError, engine_error}
use network_manager_rs.Linux.Model.{NetlinkError, Link, Address}
use network_manager_rs.Linux.IpEngine.{activate}
use network_manager_rs.Linux.IpEngine.Backends.{
  IpConfigurator, DhcpClient, DnsManager, World, IpEngineError,
}
use network_manager_rs.Linux.IpEngine.Teardown.{teardown}

-- `LinuxActivationEngine`: S is the supplicant's engine, and `world` the IP engine's backends.
pub record LinuxActivationEngine (S C D N : Type 0) : Type 0 where
  pub supplicant : S
  pub world : World C D N
  pub active : Option (Str × ActiveIpState)

-- What the kernel lists while a call runs: its links, and its addresses for the IP engine.
pub record Listings : Type 0 where
  pub links : Result (List Link) NetlinkError
  pub addresses : Option (List Address)

abbrev pub index_of : Str → Option Link → Result ℤ IpEngineError
index_of interface_name none = err (IpEngineError.interface_not_found interface_name)
index_of interface_name (some l) = ok l.index

abbrev pub index_among : Str → Result (List Link) NetlinkError → Result ℤ IpEngineError
index_among interface_name (err e) = err (IpEngineError.netlink e)
index_among interface_name (ok links) =
    index_of interface_name (find (λ l. str_eq l.name interface_name) links)

unfoldable pub resolve_interface_index : Listings → Str → Result ℤ IpEngineError
resolve_interface_index listings interface_name = index_among interface_name listings.links

-- `format!("nmd/{}/{}", profile.id, device.interface_name)`.
abbrev pub dns_owner : ConnectionProfile → DeviceInfo → Str
dns_owner p d = str "nmd/" ++ (p.id ++ (str "/" ++ d.interface_name))

-- The failures of a rollback, of which there are two at most, as one error.
abbrev pub joined : List Str → Result (Unit {0}) ActivationError
joined [] = ok tt
joined (first ∷ []) = err (engine_error first)
joined (first ∷ second ∷ _) =
    err (engine_error (first ++ (str " (and also " ++ (second ++ str ")"))))

abbrev pub failure {ℓ κ} : {A : Type ℓ} {E : Type κ} → (E → Str) → Result A E → List Str
failure text (ok a) = []
failure text (err e) = text e ∷ []

-- `supplicants` is the supplicant's engine, an `ActivationEngine` itself; the texts of the errors are
-- parameters.
module _ {S C D N : Type 0} (supplicants : ActivationEngine S) (ips : IpConfigurator C)
    (client : DhcpClient D) (names : DnsManager N) (listings : Listings)
    (ip_text : IpEngineError → Str) (text : ActivationError → Str) where
  abbrev Engine : Type 0
  Engine = LinuxActivationEngine S C D N

  -- `if let Some((_, state)) = self.active.take()`.
  abbrev pub teardown_active : Option (Str × ActiveIpState) → World C D N → List Str × World C D N
  teardown_active none w = ([], w)
  teardown_active (some (id, state)) w =
      let (r, w') = teardown ips client names state w in (failure ip_text r, w')

  unfoldable pub rollback : Engine → ConnectionProfile → Result (Unit {0}) ActivationError × Engine
  rollback e p =
      let (failures, w) = teardown_active e.active e.world in
      let (r, s) = supplicants.bring_down e.supplicant p in
      (joined (failures ++ failure text r), record { supplicant = s; world = w; active = none })

  -- The end of `activate`, from the result of the IP engine.
  abbrev pub after_ip :
      ConnectionProfile
      → S
      → Option (Str × ActiveIpState)
      → Result (ActivationOutcome × ActiveIpState) IpEngineError × World C D N
      → Result ActivationOutcome ActivationError × Engine
  after_ip p s before (ok (outcome, state), w) =
      (ok outcome, record { supplicant = s; world = w; active = some (p.id, state) })
  after_ip p s before (err e, w) = (
    err (engine_error (ip_text e)),
    record { supplicant = (supplicants.bring_down s p).1; world = w; active = before },
  )

  -- The middle of `activate`, from the answer of the supplicant.
  abbrev pub after_link :
      Engine
      → ConnectionProfile
      → DeviceInfo
      → ℤ
      → Result ActivationOutcome ActivationError × S
      → Result ActivationOutcome ActivationError × Engine
  after_link e p d index (err reason, s) = (err reason, record e { supplicant = s })
  after_link e p d index (ok _, s) = after_ip p s e.active (
      activate ips client names listings.addresses index d.interface_name p.ipv4 p.ipv6
        (dns_owner p d) e.world)

  abbrev pub after_index :
      Engine
      → ConnectionProfile
      → DeviceInfo
      → Result ℤ IpEngineError
      → Result ActivationOutcome ActivationError × Engine
  after_index e p d (err reason) = (err (engine_error (ip_text reason)), e)
  after_index e p d (ok index) = after_link e p d index (supplicants.bring_up e.supplicant p d)

  abbrev pub unless_active :
      Engine
      → ConnectionProfile
      → DeviceInfo
      → Option (Str × ActiveIpState)
      → Result ActivationOutcome ActivationError × Engine
  unless_active e p d (some a) =
      (err (engine_error (str "an activation is already in progress")), e)
  unless_active e p d none = after_index e p d (resolve_interface_index listings d.interface_name)

  unfoldable pub bring_link_up :
      Engine → ConnectionProfile → DeviceInfo → Result ActivationOutcome ActivationError × Engine
  bring_link_up e p d = unless_active e p d e.active

  abbrev pub if_active :
      Engine
      → ConnectionProfile
      → Option (Str × ActiveIpState)
      → Result (Unit {0}) ActivationError × Engine
  if_active e p none = (err (engine_error (str "there is no active connection to deactivate")), e)
  if_active e p (some (id, state)) =
      if not (str_eq id p.id)
      then (err (engine_error (str "the active connection belongs to a different profile")), e)
      else rollback e p

  unfoldable pub bring_link_down :
      Engine → ConnectionProfile → Result (Unit {0}) ActivationError × Engine
  bring_link_down e p = if_active e p e.active

  -- The engine that the activation manager drives.
  unfoldable pub linux_engine : ActivationEngine Engine
  linux_engine = record { bring_up = bring_link_up; bring_down = bring_link_down }
