-- ===== src/Dbus/Permission.antt =====
-- src/dbus/shared.rs: the check in front of every privileged method, and the standing that a client sees.
use network_manager_rs.Common.{
  ◌≡◌, ◌≢◌, ◌⊎◌, ◌↔◌, inl, inr, refl, Bool, true, false, Option, none, some, Result, ok, err, Str,
  str,
}
use network_manager_rs.Authorization.{
  Authorization, AuthorizationDecision, allowed, denied, undecided, AuthorizationError, from_sender,
  polkit, unique_name, decision_of,
}
use network_manager_rs.Dbus.Error.{FacadeError, permission_denied}

abbrev pub verdict_of :
    Str → Result AuthorizationDecision AuthorizationError → Result (Unit {0}) FacadeError
verdict_of action (ok allowed) = ok tt
verdict_of action (ok denied) = err (permission_denied action)
verdict_of action (ok undecided) = err (permission_denied action)
verdict_of action (err e) = err (permission_denied action)

abbrev pub standing_of : Result AuthorizationDecision AuthorizationError → Str
standing_of (ok allowed) = str "yes"
standing_of (ok denied) = str "no"
standing_of (ok undecided) = str "unknown"
standing_of (err e) = str "unknown"

module _ {A : Type 0} (policy : Authorization A) where
  unfoldable pub authorize : A → Option Str → Str → Result (Unit {0}) FacadeError × A
  authorize a sender action =
      let (r, a') = policy.check a (from_sender sender) action in (verdict_of action r, a')

  unfoldable pub permission : A → Option Str → Str → Str × A
  permission a sender action =
      let (r, a') = policy.check a (from_sender sender) action in (standing_of r, a')

verdict_lem :
    (action : Str) (r : Result AuthorizationDecision AuthorizationError)
    → ((r ≡ ok allowed) × (verdict_of action r ≡ ok tt) × (standing_of r ≡ str "yes"))
      ⊎ ((verdict_of action r ≡ err (permission_denied action)) × (standing_of r ≢ str "yes"))
verdict_lem action (ok allowed) = inl (refl, refl, refl)
verdict_lem action (ok denied) = inr (refl, λ e. absurd (cc e))
verdict_lem action (ok undecided) = inr (refl, λ e. absurd (cc e))
verdict_lem action (err e) = inr (refl, λ e'. absurd (cc e'))

-- A call is let through exactly where the backend allows the action, and then the client sees `yes`; on
-- any other answer or error it is refused with the action's name, and the client sees something else.
pub authorize_lem :
    {A : Type 0} (policy : Authorization A) (a : A) (sender : Option Str) (action : Str)
    → (((policy.check a (from_sender sender) action).0 ≡ ok allowed)
        × ((authorize policy a sender action).0 ≡ ok tt)
        × ((permission policy a sender action).0 ≡ str "yes"))
      ⊎ (((authorize policy a sender action).0 ≡ err (permission_denied action))
          × ((permission policy a sender action).0 ≢ str "yes"))
unfolding authorize permission
authorize_lem policy a sender action =
    verdict_lem action (policy.check a (from_sender sender) action).0

granted :
    (action : Str) (r : Result Bool Str) → verdict_of action (decision_of r) ≡ ok tt → r ≡ ok true
granted action (ok true) h = refl
granted action (ok false) h = absurd (cc h)
granted action (err e) h = absurd (cc h)

-- Behind polkit, a caller is let through exactly where it has a bus name and the authority grants that name
-- the action.
pub authorize-polkit :
    {P : Type 0} (authority : P → Str → Str → Result Bool Str × P) (s : P) (sender : Option Str)
    (action : Str)
    → ((authorize (polkit authority) s sender action).0 ≡ ok tt)
      ↔ ((name : Str) × (sender ≡ some name) × ((authority s name action).0 ≡ ok true))
unfolding authorize polkit unique_name from_sender
authorize-polkit authority s none action = (λ e. absurd (cc e), λ (name, e, k). absurd (cc e))
authorize-polkit authority s (some name) action = (
  λ e. (name, refl, granted action (authority s name action).0 e),
  λ (x, e, k).
      let same : x ≡ name = cc e in
      let k' : (authority s name action).0 ≡ ok true = rw same at k in rw k' refl,
)
