-- ===== src/Connection/Supplicant.antt =====
-- src/connection/supplicant_engine.rs: the activation engine on top of wpa_supplicant.
pub mod Calls
use network_manager_rs.Common.{
  ℕ, Bool, true, false, not, Option, none, some, List, [], ◌∷◌, ◌++◌, Result, ok, err, ◌>>=◌,
  map_err, Str, str, str_eq, if◌then◌else◌,
}
use network_manager_rs.Connection.Ip.{ActivationOutcome, no_outcome}
use network_manager_rs.Connection.Profile.{
  ConnectionProfile, ConnectionType, wifi_type, ethernet_type, DeviceInfo, KeyManagement,
  open_network, wpa_psk, wpa_eap, sae, owe, WifiSecurity, WifiSettings, SecretReference,
}
use network_manager_rs.Connection.Activation.{ActivationEngine, ActivationError, engine_error}
use network_manager_rs.Linux.Supplicant.{SupplicantControl, SupplicantError}

-- src/connection/secrets.rs: the provider of secrets.
pub data SecretError : Type 0 where
  secret_not_found unavailable : SecretError

abbrev pub SecretProvider : Type 0
SecretProvider = SecretReference → Result (Option (List ℕ)) SecretError

pub record WpaSupplicantActivationEngine (C : Type 0) : Type 0 where
  pub control : C
  pub active_network : Option (Str × Str)

unfoldable pub supplicant_key_mgmt : KeyManagement → Str
supplicant_key_mgmt open_network = str "NONE"
supplicant_key_mgmt wpa_psk = str "WPA-PSK"
supplicant_key_mgmt wpa_eap = str "WPA-EAP"
supplicant_key_mgmt sae = str "SAE"
supplicant_key_mgmt owe = str "OWE"

abbrev pub no_secret : ActivationError
no_secret = engine_error (str "no secret is available for this profile's authentication")

abbrev pub secret_answer : Result (Option (List ℕ)) SecretError → Result (List ℕ) ActivationError
secret_answer (ok (some secret)) = ok secret
secret_answer (ok none) = err no_secret
secret_answer (err secret_not_found) = err no_secret
secret_answer (err unavailable) = err (engine_error (str "the secret provider is unavailable"))

abbrev pub retrieve_by : SecretProvider → Option SecretReference → Result (List ℕ) ActivationError
retrieve_by secrets none = err (engine_error (str "profile is missing a secret reference"))
retrieve_by secrets (some reference) = secret_answer (secrets reference)

unfoldable pub retrieve_passphrase : SecretProvider → WifiSecurity → Result (List ℕ) ActivationError
retrieve_passphrase secrets security = retrieve_by secrets security.secret

abbrev pub some_ok : {A E : Type 0} → Result A E → Result (Option A) E
some_ok (ok a) = ok (some a)
some_ok (err e) = err e

abbrev pub passphrase_for :
    SecretProvider → KeyManagement → WifiSecurity → Result (Option (List ℕ)) ActivationError
passphrase_for secrets wpa_psk security = some_ok (retrieve_passphrase secrets security)
passphrase_for secrets sae security = some_ok (retrieve_passphrase secrets security)
passphrase_for secrets open_network security = ok none
passphrase_for secrets owe security = ok none
passphrase_for secrets wpa_eap security = ok none

abbrev pub is_eap : KeyManagement → Bool
is_eap wpa_eap = true
is_eap _ = false

-- `disconnected.and(removed)`.
abbrev pub and_result :
    {E : Type 0} → Result (Unit {0}) E → Result (Unit {0}) E → Result (Unit {0}) E
and_result (ok _) other = other
and_result (err e) other = err e

-- Over a control and a provider of secrets; `text` is the text of a supplicant's error.
module _ {C : Type 0} (controls : SupplicantControl C) (secrets : SecretProvider) (timeout : ℕ)
    (text : SupplicantError → Str) where
  abbrev Engine : Type 0
  Engine = WpaSupplicantActivationEngine C

  abbrev Answer : Type 0
  Answer = Result ActivationOutcome ActivationError × Engine

  abbrev pub engine_err : SupplicantError → ActivationError
  engine_err e = engine_error (text e)

  -- A network that fails to associate is removed; the answer to the removal does not count.
  abbrev pub give_up : Engine → Str → SupplicantError → C → Answer
  give_up e path reason c =
      (err (engine_err reason), record e { control = (controls.remove_network c path).1 })

  abbrev pub after_wait :
      Engine → ConnectionProfile → Str → Result (Unit {0}) SupplicantError × C → Answer
  after_wait e p path (ok _, c) =
      (ok no_outcome, record { control = c; active_network = some (p.id, path) })
  after_wait e p path (err reason, c) = give_up e path reason c

  abbrev pub after_select :
      Engine → ConnectionProfile → Str → Result (Unit {0}) SupplicantError × C → Answer
  after_select e p path (err reason, c) = give_up e path reason c
  after_select e p path (ok _, c) = after_wait e p path (controls.wait_for_completed c timeout)

  abbrev pub after_add : Engine → ConnectionProfile → Result Str SupplicantError × C → Answer
  after_add e p (err reason, c) = (err (engine_err reason), record e { control = c })
  after_add e p (ok path, c) = after_select e p path (controls.select_network c path)

  abbrev pub with_passphrase :
      Engine → ConnectionProfile → WifiSettings → Result (Option (List ℕ)) ActivationError → Answer
  with_passphrase e p s (err reason) = (err reason, e)
  with_passphrase e p s (ok passphrase) = after_add e p (
      controls.add_network e.control s.ssid (supplicant_key_mgmt s.security.key_management)
        passphrase s.security.identity s.bssid s.hidden)

  abbrev pub bound_name : Engine → DeviceInfo → Str
  bound_name e d =
      str "the supplicant control is bound to interface "
      ++ (controls.ifname e.control
          ++ (str " but the profile was requested for " ++ d.interface_name))

  abbrev pub activate_wifi : Engine → ConnectionProfile → DeviceInfo → ConnectionType → Answer
  activate_wifi e p d (ethernet_type s) =
      (err (engine_error (str "the supplicant engine only activates Wi-Fi profiles")), e)
  activate_wifi e p d (wifi_type s) =
      if not (str_eq (controls.ifname e.control) d.interface_name)
      then (err (engine_error (bound_name e d)), e)
      else if is_eap s.security.key_management
      then (
        err (engine_error (str "enterprise (WPA-EAP) authentication is not yet implemented")),
        e,
      )
      else with_passphrase e p s (passphrase_for secrets s.security.key_management s.security)

  abbrev pub unless_busy : Engine → ConnectionProfile → DeviceInfo → Option (Str × Str) → Answer
  unless_busy e p d (some network) =
      (err (engine_error (str "an activation is already in progress")), e)
  unless_busy e p d none = activate_wifi e p d p.connection_type

  unfoldable pub associate : Engine → ConnectionProfile → DeviceInfo → Answer
  associate e p d = unless_busy e p d e.active_network

  -- Both calls are made, whatever the first answers.
  abbrev pub leave_network : Engine → Str → Result (Unit {0}) ActivationError × Engine
  leave_network e path =
      let (disconnected, c) = controls.disconnect e.control in
      let (removed, c') = controls.remove_network c path in
      (
        and_result (map_err engine_err disconnected) (map_err engine_err removed),
        record { control = c'; active_network = none },
      )

  abbrev pub if_busy :
      Engine → ConnectionProfile → Option (Str × Str) → Result (Unit {0}) ActivationError × Engine
  if_busy e p none =
      (err (engine_error (str "there is no active supplicant network for this profile")), e)
  if_busy e p (some (id, path)) =
      if not (str_eq id p.id)
      then (
        err (engine_error (str "the active supplicant network belongs to a different profile")),
        e,
      )
      else leave_network e path

  unfoldable pub dissociate :
      Engine → ConnectionProfile → Result (Unit {0}) ActivationError × Engine
  dissociate e p = if_busy e p e.active_network

  -- The engine that the Linux engine brings the link up with.
  unfoldable pub wpa_engine : ActivationEngine Engine
  wpa_engine = record { bring_up = associate; bring_down = dissociate }
