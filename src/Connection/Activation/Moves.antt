-- ===== src/Connection/Activation/Moves.antt =====
-- The operations of the manager as moves of its table, with the events that each move emits.
use network_manager_rs.Common.{
  ℕ, ◌+◌, ◌%◌, ◌^◌, ◌≡◌, refl, sym, ap, ◌∙◌, ◌⊎◌, inl, inr, Bool, false, List, [], ◌∷◌, ◌++◌, Str,
  str_eq, Result, ok, err, any, arith, append-nil, append_assoc, Option, none, some, Option-cases,
  Result-cases, Bool-cases, find_map,
}
use network_manager_rs.Connection.State.{
  ConnectionState, disconnected, activated, failed, ConnectionEvent, deactivated_event,
  failed_event, is_activated,
}
use network_manager_rs.Connection.Ip.{ActivationOutcome, no_outcome}
use network_manager_rs.Connection.Profile.{ConnectionProfile, DeviceInfo, matches}
use network_manager_rs.Connection.Policy.{order_for_autoconnect}
use network_manager_rs.Connection.Store.{ProfileStore, StoreError, not_found}
use network_manager_rs.Connection.Activation.Table.{
  ActiveConnection, find_id, replace_id, remove_id, find_id-id, remove-replace, replace-replace,
}
use network_manager_rs.Connection.Activation.{
  ActivationError, ActivationEngine, ActivationManager, drain_events, is_active, activate_matching,
  deactivate, activate_stored, activate_profile, candidate, activate_best, activate,
}
use network_manager_rs.Connection.Activation.Outcome.{
  up_events, failed_events, down_events, activate_matching_ok, activate_matching_err, deactivate_ok,
  activate_unlisted, activate_listed, deactivate_err, deactivate_missing, deactivate_refused,
}

-- What the manager tracks, without the engine and the pending events.
pub record View : Type 0 where
  pub next_id : ℕ
  pub active : List ActiveConnection

abbrev pub view : {E : Type 0} → ActivationManager E → View
view m = record { next_id = m.next_id; active = m.active }

abbrev pub is_busy : View → Str → Bool
is_busy v profile_id = any (λ a. str_eq a.profile.id profile_id) v.active

abbrev pub added : View → ActiveConnection → View
added v a = record { next_id = (v.next_id + 1) % 2 ^ 64; active = v.active ++ (a ∷ []) }

abbrev pub attempt :
    View → ConnectionProfile → DeviceInfo → ConnectionState → ActivationOutcome → ActiveConnection
attempt v p d s o = record { id = v.next_id; profile = p; device = d; state = s; outcome = o }

-- `Move v es w`: the table goes from v to w and the events es are emitted.
pub data Move (v : View) (es : List ConnectionEvent) (w : View) : Type 0 where
  rest : es ≡ [] → w ≡ v → Move v es w
  up :
      (p : ConnectionProfile) (d : DeviceInfo) (o : ActivationOutcome)
      → is_busy v p.id ≡ false
      → es ≡ up_events v.next_id p.id
      → w ≡ added v (attempt v p d activated o)
      → Move v es w
  fall :
      (p : ConnectionProfile) (d : DeviceInfo) (reason : Str)
      → is_busy v p.id ≡ false
      → es ≡ failed_events v.next_id p.id reason
      → w ≡ added v (attempt v p d failed no_outcome)
      → Move v es w
  down :
      (a : ActiveConnection)
      → find_id a.id v.active ≡ some a
      → a.state ≡ activated
      → es ≡ down_events a disconnected (deactivated_event a.id a.profile.id)
      → w ≡ record v { active = remove_id a.id v.active }
      → Move v es w
  stall :
      (a : ActiveConnection) (reason : Str)
      → find_id a.id v.active ≡ some a
      → a.state ≡ activated
      → es ≡ down_events a failed (failed_event a.id a.profile.id reason)
      → w ≡ record v { active = replace_id a.id (record a { state = failed }) v.active }
      → Move v es w

-- An operation that emits: its events are appended, and the table makes a move.
abbrev pub Emits : {E : Type 0} → ActivationManager E → ActivationManager E → Type 0
Emits m m' = (es : List ConnectionEvent) × Move (view m) es (view m') × (m'.events ≡ m.events ++ es)

nothing : {E : Type 0} (m : ActivationManager E) → Emits m m
nothing m = ([], rest refl refl, sym (append-nil m.events))

-- A call of the manager, with the store as it then is.
pub data Op (S : Type 0) : Type 0 where
  activates : S → DeviceInfo → Op S
  activates_profile : S → Str → DeviceInfo → Op S
  deactivates : ℕ → Op S
  drains : Op S

module _ {E S : Type 0} (api : ActivationEngine E) (to_string : ActivationError → Str)
    (storage : ProfileStore S) where
  unfoldable pub after : ActivationManager E → Op S → ActivationManager E
  after m (activates s d) = (activate api to_string storage m s d).1
  after m (activates_profile s id d) = (activate_profile api to_string storage m s id d).1
  after m (deactivates id) = (deactivate api to_string m id).1
  after m drains = (drain_events m).1

  -- The store hands out the profile that it is asked for.
  abbrev pub Finds : S → Type 0
  Finds s = (id : Str) (p : ConnectionProfile) → storage.get_one s id ≡ ok p → p.id ≡ id

  abbrev pub IsHonest : Op S → Type 0
  IsHonest (activates_profile s id d) = Finds s
  IsHonest _ = Unit

  activate_matching-Emits :
      (m : ActivationManager E) (p : ConnectionProfile) (d : DeviceInfo)
      → is_busy (view m) p.id ≡ false
      → Emits m (activate_matching api to_string m p d).1
  activate_matching-Emits m p d h = answer_cases (api.bring_up m.engine p d) refl
    where
      answer_cases :
          (r : Result ActivationOutcome ActivationError × E)
          → api.bring_up m.engine p d ≡ r
          → Emits m (activate_matching api to_string m p d).1
      answer_cases (ok o, engine) e =
          rw (activate_matching_ok api to_string m p d o engine e)
            (up_events m.next_id p.id, up p d o h refl refl, refl)
      answer_cases (err x, engine) e =
          rw (activate_matching_err api to_string m p d x engine e)
            (failed_events m.next_id p.id (to_string x), fall p d (to_string x) h refl refl, refl)

  deactivate_found-Emits :
      (m : ActivationManager E) (id : ℕ) (a : ActiveConnection)
      → find_id id m.active ≡ some a
      → a.state ≡ activated
      → Emits m (deactivate api to_string m id).1
  deactivate_found-Emits m id a f s = answer_cases (api.bring_down m.engine a.profile) refl
    where
      with_active : List ActiveConnection → View
      with_active xs = record { next_id = m.next_id; active = xs }

      found : find_id a.id m.active ≡ some a
      found = ap (λ i. find_id i m.active) (find_id-id id m.active a f) ∙ f

      answer_cases :
          (r : Result (Unit {0}) ActivationError × E)
          → api.bring_down m.engine a.profile ≡ r
          → Emits m (deactivate api to_string m id).1
      answer_cases (ok _, engine) e = rw (deactivate_ok api to_string m a id engine f s e) (
        down_events a disconnected (deactivated_event a.id a.profile.id),
        down a found s refl (ap with_active (remove-replace a.id _ m.active refl)),
        refl,
      )
      answer_cases (err x, engine) e = rw (deactivate_err api to_string m a id x engine f s e) (
        down_events a failed (failed_event a.id a.profile.id (to_string x)),
        stall a (to_string x) found s refl
            (ap with_active (replace-replace a.id _ _ m.active refl)),
        refl,
      )

  state_cases : (s : ConnectionState) → (s ≡ activated) ⊎ (is_activated s ≡ false)
  state_cases s = ground arith

  deactivate-Emits : (m : ActivationManager E) (id : ℕ) → Emits m (deactivate api to_string m id).1
  deactivate-Emits m id = elim (Option-cases (find_id id m.active)) [
    | inl e ↦ rw (deactivate_missing api to_string m id e) (nothing m)
    | inr (a, e) ↦ elim (state_cases a.state) [
      | inl s ↦ deactivate_found-Emits m id a e s
      | inr s ↦ rw (deactivate_refused api to_string m a id e s) (nothing m)
    ]
  ]

  activate_stored-Emits :
      (m : ActivationManager E) (id : Str) (d : DeviceInfo)
      (r : Result ConnectionProfile StoreError)
      → ((p : ConnectionProfile) → r ≡ ok p → p.id ≡ id)
      → Emits m (activate_stored api to_string storage m id d r).1
  unfolding activate_stored
  activate_stored-Emits m id d (err (not_found other)) h = nothing m
  activate_stored-Emits m id d (err _) h = nothing m
  activate_stored-Emits m id d (ok p) h = elim (Bool-cases (matches p d)) [
    | inr e ↦ rw e (nothing m)
    | inl e ↦ elim (Bool-cases (is_active m id)) [
      | inl b ↦ rw (e, b) (nothing m)
      | inr b ↦ rw (e, b) (activate_matching-Emits m p d (rw (h p refl) (unfold is_active in b)))
    ]
  ]

  activate_best-Emits :
      (m : ActivationManager E) (d : DeviceInfo) (r : Option ConnectionProfile)
      → ((p : ConnectionProfile) → r ≡ some p → is_busy (view m) p.id ≡ false)
      → Emits m (activate_best api to_string storage m d r).1
  unfolding activate_best
  activate_best-Emits m d none h = nothing m
  activate_best-Emits m d (some p) h = activate_matching-Emits m p d (h p refl)

  candidate-is_busy :
      (m : ActivationManager E) (d : DeviceInfo) (r : Result ConnectionProfile StoreError)
      (p : ConnectionProfile)
      → candidate api to_string storage m d r ≡ some p
      → is_busy (view m) p.id ≡ false
  unfolding is_active
  candidate-is_busy m d (err e) p h = cc
  candidate-is_busy m d (ok q) p h = ground arith

  candidate_free :
      (m : ActivationManager E) (d : DeviceInfo) (s : S) (ids : List Str) (p : ConnectionProfile)
      → find_map (λ id. candidate api to_string storage m d (storage.get_one s id)) ids ≡ some p
      → is_busy (view m) p.id ≡ false
  candidate_free m d s [] p h = cc
  candidate_free m d s (id ∷ ids) p h =
      ground (arith, candidate-is_busy m d (storage.get_one s id) p, candidate_free m d s ids p)

  activate-Emits :
      (m : ActivationManager E) (s : S) (d : DeviceInfo)
      → Emits m (activate api to_string storage m s d).1
  activate-Emits m s d = elim (Result-cases (storage.list_all s)) [
    | inr (x, e) ↦ rw (activate_unlisted api to_string storage m s d x e) (nothing m)
    | inl (ps, e) ↦
        rw (activate_listed api to_string storage m s d ps e)
          (activate_best-Emits m d _ (candidate_free m d s (order_for_autoconnect ps)))
  ]

  -- The events drained so far, and the manager.
  abbrev pub World : Type 0
  World = List ConnectionEvent × ActivationManager E

  abbrev pub drained : World → Op S → List ConnectionEvent
  drained (log, m) drains = log ++ m.events
  drained (log, m) _ = log

  -- A history of calls, with the log of all events drained on the way.
  abbrev pub history : World → List (Op S) → World
  history w [] = w
  history w (op ∷ ops) = history (drained w op, after (w.1) op) ops

  -- All events so far, drained or pending.
  abbrev pub log : World → List ConnectionEvent
  log (old, m) = old ++ m.events

  -- Every call of the manager, of whatever branch, makes one of the five moves on its table, where the
  -- store hands out the profiles it is asked for: nothing, a new `Activated` connection of a profile
  -- that had none, a new `Failed` one, the removal of an `Activated` one, or its change to `Failed`. The
  -- events drained and pending so far grow by exactly the events of that move.
  pub after-Move :
      (w : World) (op : Op S)
      → IsHonest op
      → (es : List ConnectionEvent) × Move (view (w.1)) es (view (after (w.1) op))
        × (log (drained w op, after (w.1) op) ≡ log w ++ es)
  unfolding after drain_events activate_profile
  after-Move (old, m) (activates s d) h =
      let (es, v, e) = activate-Emits m s d in
      (es, v, ap (◌++◌ old) e ∙ sym (append_assoc old m.events es))
  after-Move (old, m) (activates_profile s id d) h =
      let (es, v, e) = activate_stored-Emits m id d (storage.get_one s id) (h id) in
      (es, v, ap (◌++◌ old) e ∙ sym (append_assoc old m.events es))
  after-Move (old, m) (deactivates id) h =
      let (es, v, e) = deactivate-Emits m id in
      (es, v, ap (◌++◌ old) e ∙ sym (append_assoc old m.events es))
  after-Move (old, m) drains h = ([], rest refl refl, refl)
