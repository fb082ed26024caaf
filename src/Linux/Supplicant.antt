-- ===== src/Linux/Supplicant.antt =====
-- src/linux/supplicant.rs: the control client of wpa_supplicant. The calls on the bus are parameters.
pub mod Waiting
use network_manager_rs.Common.{
  ℕ, zero, suc, Bool, true, false, not, Option, none, some, List, [], ◌∷◌, Result, ok, err, ◌>>=◌,
  map_err, Str, str, str_eq, if◌then◌else◌,
}
use network_manager_rs.Common.Int.{ℤ, pos, negsuc}
use network_manager_rs.Connection.Store.Tree.{put}
use network_manager_rs.Linux.Model.Hex.{format_mac_address}
use network_manager_rs.Dbus.Convert.Variant.{Values, Section}
use network_manager_rs.Dbus.Convert.{put_some, put_if}

pub data SupplicantError : Type 0 where
  bus interface_not_found network_rejected : Str → SupplicantError
  disassociated : ℤ → SupplicantError
  not_connected : Str → SupplicantError
  association_timeout : SupplicantError

-- `trait SupplicantControl`, over the type C of the control: a call returns the control after it.
pub record SupplicantControl (C : Type 0) : Type 0 where
  pub ifname : C → Str
  pub add_network :
      C
      → List ℕ
      → Str
      → Option (List ℕ)
      → Option Str
      → Option (List ℕ)
      → Bool
      → Result Str SupplicantError × C
  pub select_network : C → Str → Result (Unit {0}) SupplicantError × C
  pub remove_network : C → Str → Result (Unit {0}) SupplicantError × C
  pub disconnect : C → Result (Unit {0}) SupplicantError × C
  pub wait_for_completed : C → ℕ → Result (Unit {0}) SupplicantError × C

-- The `a{sv}` argument of `AddNetwork`; `lossy` is `String::from_utf8_lossy`.
unfoldable pub network_config_dict :
    {V : Type 0}
    → Values V
    → (List ℕ → Str)
    → List ℕ
    → Str
    → Option (List ℕ)
    → Option Str
    → Option (List ℕ)
    → Bool
    → Section V
network_config_dict values lossy ssid key_mgmt psk identity bssid hidden =
    put_if hidden (str "scan_ssid") (values.val_u32 1) (
      put_some (str "bssid") (λ b. values.val_str (format_mac_address b)) bssid
        (put_some (str "identity") values.val_str identity (
          put_some (str "psk") (λ passphrase. values.val_str (lossy passphrase)) psk
            (put (str "key_mgmt") (values.val_str key_mgmt)
              (put (str "ssid") (values.val_bytes ssid) [])))))

abbrev pub is_zero : ℤ → Bool
is_zero (pos zero) = true
is_zero (pos (suc n)) = false
is_zero (negsuc n) = false

unfoldable pub classify_state : Str → ℤ → Option (Result (Unit {0}) SupplicantError)
classify_state state reason =
    if str_eq state (str "completed")
    then some (ok tt)
    else if str_eq state (str "disconnected")
    then (if not (is_zero reason) then some (err (disassociated reason)) else none)
    else if str_eq state (str "inactive")
    then some (err (not_connected state))
    else none

-- One round of the wait: the two properties, with the text of a failure, and whether the deadline has
-- passed.
pub record Poll : Type 0 where
  pub state : Result Str Str
  pub reason : Result ℤ Str
  pub late : Bool

abbrev pub snapshot : Poll → Result (Option (Result (Unit {0}) SupplicantError)) SupplicantError
snapshot p = do
  state ← map_err bus p.state
  reason ← map_err bus p.reason
  ok (classify_state state reason)

-- What a round ends the wait with, if it ends it.
abbrev pub decided :
    Result (Option (Result (Unit {0}) SupplicantError)) SupplicantError
    → Bool
    → Option (Result (Unit {0}) SupplicantError)
decided (err e) late = some (err e)
decided (ok (some result)) late = some result
decided (ok none) true = some (err association_timeout)
decided (ok none) false = none

unfoldable pub verdict : Poll → Option (Result (Unit {0}) SupplicantError)
verdict p = decided (snapshot p) p.late

-- The wait over the rounds that it meets; where they end, it still waits.
unfoldable pub wait_for_completed : List Poll → Option (Result (Unit {0}) SupplicantError)
wait_for_completed [] = none
wait_for_completed (p ∷ rest) =
    let later = wait_for_completed rest in
    elim (verdict p) [ some result ↦ some result | none ↦ later ]
