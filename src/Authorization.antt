-- ===== src/Authorization.antt =====
-- src/authorization: who asks, and what a policy backend answers. The system authority is a parameter.
use network_manager_rs.Common.{
  Bool, true, false, Option, none, some, List, [], ◌∷◌, ◌++◌, Result, ok, err, Str, str,
}

pub data CallerIdentity : Type 0 where
  caller_name : Str → CallerIdentity
  unidentifiable : CallerIdentity

unfoldable pub from_sender : Option Str → CallerIdentity
from_sender (some name) = caller_name name
from_sender none = unidentifiable

unfoldable pub unique_name : CallerIdentity → Option Str
unique_name (caller_name name) = some name
unique_name unidentifiable = none

pub data AuthorizationDecision : Type 0 where
  allowed denied undecided : AuthorizationDecision

pub data AuthorizationError : Type 0 where
  unidentifiable_caller : AuthorizationError
  backend : Str → AuthorizationError

-- `trait Authorization`, over the type A of the backend: a check returns the backend after it.
pub record Authorization (A : Type 0) : Type 0 where
  pub check : A → CallerIdentity → Str → Result AuthorizationDecision AuthorizationError × A

abbrev pub allow_all : Authorization (Unit {0})
allow_all = record { check = λ a caller action. (ok allowed, a) }

abbrev pub deny_all : Authorization (Unit {0})
deny_all = record { check = λ a caller action. (ok denied, a) }

-- `RecordingAuthorization`: the inner backend with the checks forwarded so far, oldest first.
unfoldable pub recording :
    {A : Type 0} → Authorization A → Authorization (A × List (CallerIdentity × Str))
recording inner = record {
  check = λ a caller action.
      let (r, a') = inner.check (a.0) caller action in (r, (a', a.1 ++ ((caller, action) ∷ [])));
}

-- What the authority answers to `CheckAuthorization` for a bus name and an action.
abbrev pub reply_decision : Bool → AuthorizationDecision
reply_decision true = allowed
reply_decision false = denied

abbrev pub decision_of : Result Bool Str → Result AuthorizationDecision AuthorizationError
decision_of (ok granted) = ok (reply_decision granted)
decision_of (err reason) = err (backend reason)

abbrev pub check_name :
    {P : Type 0}
    → (P → Str → Str → Result Bool Str × P)
    → P
    → Str
    → Option Str
    → Result AuthorizationDecision AuthorizationError × P
check_name authority s action none = (err unidentifiable_caller, s)
check_name authority s action (some sender) =
    let (reply, s') = authority s sender action in (decision_of reply, s')

unfoldable pub polkit : {P : Type 0} → (P → Str → Str → Result Bool Str × P) → Authorization P
unfolding unique_name
polkit authority = record {
  check = λ s caller action. check_name authority s action (unique_name caller);
}

unfoldable pub action_enable_disable_network : Str
action_enable_disable_network = str "org.freedesktop.NetworkManager.enable-disable-network"

unfoldable pub action_enable_disable_wifi : Str
action_enable_disable_wifi = str "org.freedesktop.NetworkManager.enable-disable-wifi"

unfoldable pub action_network_control : Str
action_network_control = str "org.freedesktop.NetworkManager.network-control"

unfoldable pub action_reload : Str
action_reload = str "org.freedesktop.NetworkManager.reload"

unfoldable pub action_settings_modify_system : Str
action_settings_modify_system = str "org.freedesktop.NetworkManager.settings.modify.system"

unfoldable pub action_settings_modify_own : Str
action_settings_modify_own = str "org.freedesktop.NetworkManager.settings.modify.own"

unfoldable pub permission_actions : List Str
permission_actions =
    action_enable_disable_network
    ∷ action_enable_disable_wifi
    ∷ action_network_control
    ∷ str "org.freedesktop.NetworkManager.wifi.share.protected"
    ∷ str "org.freedesktop.NetworkManager.wifi.share.open"
    ∷ action_settings_modify_system
    ∷ action_settings_modify_own
    ∷ action_reload
    ∷ str "org.freedesktop.NetworkManager.checkpoint-rollback"
    ∷ str "org.freedesktop.NetworkManager.enable-disable-statistics"
    ∷ str "org.freedesktop.NetworkManager.enable-disable-connectivity-check"
    ∷ []
