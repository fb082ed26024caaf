-- ===== src/Connection/Supplicant/Calls.antt =====
-- src/connection/supplicant_engine.rs: the calls that the engine makes, and the networks it registers.
use network_manager_rs.Common.{
  ℕ, ◌≡◌, inl, inr, refl, ap, sym, ◌∙◌, not, Option, none, some, List, [], ◌∷◌, ◌++◌, Result, ok,
  err, Str, str_eq, str_eq_refl, if◌then◌else◌, Bool-cases, append-nil,
}
use network_manager_rs.Connection.Profile.{
  ConnectionProfile, ConnectionType, wifi_type, ethernet_type, WifiSettings, DeviceInfo,
}
use network_manager_rs.Connection.Activation.{ActivationError}
use network_manager_rs.Connection.Supplicant.{
  SecretProvider, WpaSupplicantActivationEngine, after_wait, after_select, after_add, give_up,
  with_passphrase, activate_wifi, unless_busy, associate, if_busy, dissociate, is_eap,
  passphrase_for, supplicant_key_mgmt,
}
use network_manager_rs.Linux.Supplicant.{SupplicantControl, SupplicantError}

-- A call of the control; `added` names the path that it answered with.
pub data SupplicantCall : Type 0 where
  added selected removed : Str → SupplicantCall
  waited disconnected : SupplicantCall

abbrev pub add_calls : Result Str SupplicantError → List SupplicantCall
add_calls (ok path) = added path ∷ []
add_calls (err e) = []

-- A control with a log of the calls, whatever it answers.
abbrev pub logged : {C : Type 0} → SupplicantControl C → SupplicantControl (C × List SupplicantCall)
logged controls = record {
  ifname = λ c. controls.ifname (c.0);
  add_network = λ c ssid key psk identity bssid hidden.
      let (r, c') = controls.add_network (c.0) ssid key psk identity bssid hidden in
      (r, (c', c.1 ++ add_calls r));
  select_network = λ c path.
      let (r, c') = controls.select_network (c.0) path in (r, (c', c.1 ++ (selected path ∷ [])));
  remove_network = λ c path.
      let (r, c') = controls.remove_network (c.0) path in (r, (c', c.1 ++ (removed path ∷ [])));
  disconnect =
      λ c. let (r, c') = controls.disconnect (c.0) in (r, (c', c.1 ++ (disconnected ∷ [])));
  wait_for_completed = λ c timeout.
      let (r, c') = controls.wait_for_completed (c.0) timeout in (r, (c', c.1 ++ (waited ∷ [])));
}

abbrev pub without : Str → List Str → List Str
without path [] = []
without path (q ∷ rest) = let later = without path rest in if str_eq q path then rest else q ∷ later

abbrev pub registered_by : SupplicantCall → List Str → List Str
registered_by (added path) paths = path ∷ paths
registered_by (removed path) paths = without path paths
registered_by _ paths = paths

-- The networks that the calls registered and did not ask to remove again.
unfoldable pub registered : List SupplicantCall → List Str → List Str
registered [] paths = paths
registered (c ∷ rest) paths = registered rest (registered_by c paths)

registered-append :
    (xs ys : List SupplicantCall) (paths : List Str)
    → registered (xs ++ ys) paths ≡ registered ys (registered xs paths)
unfolding registered
registered-append [] ys paths = refl
registered-append (x ∷ xs) ys paths = registered-append xs ys (registered_by x paths)

registered_one :
    (log : List SupplicantCall) (call : SupplicantCall) (paths : List Str)
    → registered log [] ≡ paths
    → registered (log ++ (call ∷ [])) [] ≡ registered_by call paths
unfolding registered
registered_one log call paths h = registered-append log (call ∷ []) [] ∙ ap (registered_by call) h

without_only : (path : Str) → without path (path ∷ []) ≡ []
without_only path = rw (str_eq_refl path) refl

abbrev pub active_paths : Option (Str × Str) → List Str
active_paths none = []
active_paths (some (id, path)) = path ∷ []

-- One call of the engine.
pub data EngineCall : Type 0 where
  associates : ConnectionProfile → DeviceInfo → EngineCall
  dissociates : ConnectionProfile → EngineCall

module _ {C : Type 0} (controls : SupplicantControl C) (secrets : SecretProvider) (timeout : ℕ)
    (text : SupplicantError → Str) where
  abbrev Engine : Type 0
  Engine = WpaSupplicantActivationEngine (C × List SupplicantCall)

  abbrev pub engine_history : Engine → List EngineCall → Engine
  engine_history e [] = e
  engine_history e (associates p d ∷ rest) =
      engine_history (associate (logged controls) secrets timeout text e p d).1 rest
  engine_history e (dissociates p ∷ rest) =
      engine_history (dissociate (logged controls) secrets timeout text e p).1 rest

  -- The registered networks are those of the active network.
  abbrev pub IsTracked : Engine → Type 0
  IsTracked e = registered (e.control.1) [] ≡ active_paths e.active_network

  give_up-IsTracked :
      (e : Engine) (path : Str) (reason : SupplicantError) (c : C × List SupplicantCall)
      → e.active_network ≡ none
      → registered (c.1) [] ≡ path ∷ []
      → IsTracked (give_up (logged controls) secrets timeout text e path reason c).1
  give_up-IsTracked e path reason c h k =
      registered_one (c.1) (removed path) (path ∷ []) k
      ∙ (without_only path ∙ sym (ap active_paths h))

  after_wait-IsTracked :
      (e : Engine) (p : ConnectionProfile) (path : Str)
      (r : Result (Unit {0}) SupplicantError × (C × List SupplicantCall))
      → e.active_network ≡ none
      → registered (r.1.1) [] ≡ path ∷ []
      → IsTracked (after_wait (logged controls) secrets timeout text e p path r).1
  after_wait-IsTracked e p path (ok _, c) h k = k
  after_wait-IsTracked e p path (err reason, c) h k = give_up-IsTracked e path reason c h k

  after_select-IsTracked :
      (e : Engine) (p : ConnectionProfile) (path : Str)
      (r : Result (Unit {0}) SupplicantError × (C × List SupplicantCall))
      → e.active_network ≡ none
      → registered (r.1.1) [] ≡ path ∷ []
      → IsTracked (after_select (logged controls) secrets timeout text e p path r).1
  after_select-IsTracked e p path (ok _, c) h k =
      after_wait-IsTracked e p path ((logged controls).wait_for_completed c timeout) h
        (registered_one (c.1) waited (path ∷ []) k)
  after_select-IsTracked e p path (err reason, c) h k = give_up-IsTracked e path reason c h k

  after_add-IsTracked :
      (e : Engine) (p : ConnectionProfile) (r : Result Str SupplicantError × C)
      → e.active_network ≡ none
      → IsTracked e
      → IsTracked
          (after_add
            (logged controls)
            secrets
            timeout
            text
            e
            p
            (r.0, (r.1, e.control.1 ++ add_calls r.0))).1
  after_add-IsTracked e p (ok path, c) h k =
      let log = e.control.1 ++ (added path ∷ []) in
      let one : registered log [] ≡ path ∷ [] =
        registered_one (e.control.1) (added path) [] (k ∙ ap active_paths h) in
      after_select-IsTracked e p path ((logged controls).select_network (c, log) path) h
        (registered_one log (selected path) (path ∷ []) one)
  after_add-IsTracked e p (err reason, c) h k = rw (append-nil (e.control.1)) k

  with_passphrase-IsTracked :
      (e : Engine) (p : ConnectionProfile) (s : WifiSettings)
      (r : Result (Option (List ℕ)) ActivationError)
      → e.active_network ≡ none
      → IsTracked e
      → IsTracked (with_passphrase (logged controls) secrets timeout text e p s r).1
  with_passphrase-IsTracked e p s (err reason) h k = k
  with_passphrase-IsTracked e p s (ok passphrase) h k =
      after_add-IsTracked e p
        (controls.add_network (e.control.0) s.ssid (supplicant_key_mgmt s.security.key_management)
          passphrase s.security.identity s.bssid s.hidden)
        h k

  activate_wifi-IsTracked :
      (e : Engine) (p : ConnectionProfile) (d : DeviceInfo) (t : ConnectionType)
      → e.active_network ≡ none
      → IsTracked e
      → IsTracked (activate_wifi (logged controls) secrets timeout text e p d t).1
  activate_wifi-IsTracked e p d (ethernet_type s) h k = k
  activate_wifi-IsTracked e p d (wifi_type s) h k =
      elim (Bool-cases (not (str_eq (controls.ifname (e.control.0)) d.interface_name))) [
        | inl other ↦ rw other k
        | inr same ↦ elim (Bool-cases (is_eap s.security.key_management)) [
          | inl eap ↦ rw (same, eap) k
          | inr plain ↦
              rw (same, plain)
                (with_passphrase-IsTracked e p s
                  (passphrase_for secrets s.security.key_management s.security) h k)
        ]
      ]

  unless_busy-IsTracked :
      (e : Engine) (p : ConnectionProfile) (d : DeviceInfo) (o : Option (Str × Str))
      → e.active_network ≡ o
      → IsTracked e
      → IsTracked (unless_busy (logged controls) secrets timeout text e p d o).1
  unless_busy-IsTracked e p d none h k = activate_wifi-IsTracked e p d p.connection_type h k
  unless_busy-IsTracked e p d (some network) h k = k

  if_busy-IsTracked :
      (e : Engine) (p : ConnectionProfile) (o : Option (Str × Str))
      → e.active_network ≡ o
      → IsTracked e
      → IsTracked (if_busy (logged controls) secrets timeout text e p o).1
  if_busy-IsTracked e p none h k = k
  if_busy-IsTracked e p (some (id, path)) h k = elim (Bool-cases (not (str_eq id p.id))) [
    | inl other ↦ rw other k
    | inr same ↦
        let log = e.control.1 ++ (disconnected ∷ []) in
        let one : registered log [] ≡ path ∷ [] =
          registered_one (e.control.1) disconnected (path ∷ []) (k ∙ ap active_paths h) in
        rw same (registered_one log (removed path) (path ∷ []) one ∙ without_only path)
  ]

  -- Whatever the supplicant answers, after any history of calls the networks that the engine registered
  -- and did not ask to remove are exactly the one that it records as active, or none if it records none.
  pub engine_history-IsTracked :
      (e : Engine) (calls : List EngineCall) → IsTracked e → IsTracked (engine_history e calls)
  unfolding associate dissociate
  engine_history-IsTracked e [] k = k
  engine_history-IsTracked e (associates p d ∷ rest) k =
      engine_history-IsTracked (associate (logged controls) secrets timeout text e p d).1 rest
        (unless_busy-IsTracked e p d e.active_network refl k)
  engine_history-IsTracked e (dissociates p ∷ rest) k =
      engine_history-IsTracked (dissociate (logged controls) secrets timeout text e p).1 rest
        (if_busy-IsTracked e p e.active_network refl k)

  -- A deactivation of the active profile disconnects and asks to remove its network, in this order and
  -- whatever the supplicant answers, and leaves the engine idle.
  pub dissociate_lem :
      (e : Engine) (p : ConnectionProfile) (path : Str)
      → e.active_network ≡ some (p.id, path)
      → ((dissociate (logged controls) secrets timeout text e p).1.control.1
          ≡ (e.control.1 ++ (disconnected ∷ [])) ++ (removed path ∷ []))
        × ((dissociate (logged controls) secrets timeout text e p).1.active_network ≡ none)
  unfolding dissociate
  dissociate_lem e p path h = rw (h, str_eq_refl p.id) (refl, refl)
