-- ===== src/Linux/Supplicant/Waiting.antt =====
-- src/linux/supplicant.rs: when the wait for an association ends, and how.
use network_manager_rs.Common.{
  ◌≡◌, ◌↔◌, inl, inr, refl, ap, sym, ◌∙◌, Bool, true, false, Option, none, some, List, [], ◌∷◌,
  ◌++◌, All, Result, ok, err, Str, str, str_eq, str_eq_sound, arith, Bool-cases, Option-cases,
}
use network_manager_rs.Common.Int.{ℤ}
use network_manager_rs.Linux.Supplicant.{
  SupplicantError, Poll, snapshot, decided, verdict, wait_for_completed, classify_state,
}

-- The supplicant reports a completed association, and both properties are read.
pub record IsCompleted (p : Poll) : Type 0 where
  pub state : p.state ≡ ok (str "completed")
  pub reason : (n : ℤ) × (p.reason ≡ ok n)

-- The rounds up to the one that reports a completed association, none of which ended the wait.
pub record Associates (polls : List Poll) : Type 0 where
  pub before : List Poll
  pub last : Poll
  pub after : List Poll
  pub split : polls ≡ before ++ (last ∷ after)
  pub went_on : All (λ p. verdict p ≡ none) before
  pub completed : IsCompleted last

classify_completed :
    (state : Str) (n : ℤ) → classify_state state n ≡ some (ok tt) → state ≡ str "completed"
unfolding classify_state
classify_completed state n h = elim (Bool-cases (str_eq state (str "completed"))) [
  | inl same ↦ str_eq_sound state (str "completed") same
  | inr other ↦ absurd (ground arith)
]

decided_ok :
    (o : Option (Result (Unit {0}) SupplicantError)) (late : Bool)
    → decided (ok o) late ≡ some (ok tt)
    → o ≡ some (ok tt)
decided_ok (some r) late h = h
decided_ok none true h = absurd (cc h)
decided_ok none false h = absurd (cc h)

decided_completed :
    (state : Result Str Str) (reason : Result ℤ Str) (late : Bool)
    → decided (snapshot (record { state = state; reason = reason; late = late })) late
      ≡ some (ok tt)
    → (state ≡ ok (str "completed")) × ((n : ℤ) × (reason ≡ ok n))
decided_completed (err e) reason late h = absurd (cc h)
decided_completed (ok state) (err e) late h = absurd (cc h)
decided_completed (ok state) (ok n) late h =
    (ap ok (classify_completed state n (decided_ok (classify_state state n) late h)), (n, refl))

verdict→ : (p : Poll) → verdict p ≡ some (ok tt) → IsCompleted p
unfolding verdict
verdict→ p h =
    let (state, reason) = decided_completed p.state p.reason p.late h in
    record { state = state; reason = reason }

verdict← : (p : Poll) → IsCompleted p → verdict p ≡ some (ok tt)
unfolding verdict classify_state str_eq
verdict← p h = let (n, e) = h.reason in rw (h.state, e) refl

wait_more :
    (p : Poll) (rest : List Poll)
    → verdict p ≡ none
    → wait_for_completed (p ∷ rest) ≡ wait_for_completed rest
unfolding wait_for_completed
wait_more p rest e = rw (e, wait_for_completed) refl

wait_done :
    (p : Poll) (rest : List Poll) (r : Result (Unit {0}) SupplicantError)
    → verdict p ≡ some r
    → wait_for_completed (p ∷ rest) ≡ some r
unfolding wait_for_completed
wait_done p rest r e = rw (e, wait_for_completed) refl

wait→ : (polls : List Poll) → wait_for_completed polls ≡ some (ok tt) → Associates polls
unfolding wait_for_completed
wait→ [] h = absurd (cc h)
wait→ (p ∷ rest) h = elim (Option-cases (verdict p)) [
  | inl going ↦
      let later = wait→ rest (sym (wait_more p rest going) ∙ h) in
      record {
        before = p ∷ later.before;
        last = later.last;
        after = later.after;
        split = ap (◌∷◌ p) later.split;
        went_on = (going, later.went_on);
        completed = later.completed;
      }
  | inr (r, e) ↦ record {
    before = [];
    last = p;
    after = rest;
    split = refl;
    went_on = tt;
    completed = verdict→ p (e ∙ (sym (wait_done p rest r e) ∙ h));
  }
]

wait← :
    (before : List Poll) (last : Poll) (after : List Poll)
    → All (λ p. verdict p ≡ none) before
    → IsCompleted last
    → wait_for_completed (before ++ (last ∷ after)) ≡ some (ok tt)
unfolding wait_for_completed
wait← [] last after went_on c = wait_done last after (ok tt) (verdict← last c)
wait← (p ∷ before) last after went_on c =
    wait_more p (before ++ (last ∷ after)) went_on.0 ∙ wait← before last after went_on.1 c

-- The wait reports success exactly where it meets a round that reads the state `completed` and a reason,
-- and no round before that one ended it.
pub wait_for_completed-Associates :
    (polls : List Poll) → (wait_for_completed polls ≡ some (ok tt)) ↔ Associates polls
wait_for_completed-Associates polls =
    (wait→ polls, λ a. rw (a.split) (wait← a.before a.last a.after a.went_on a.completed))

decided_late :
    (r : Result (Option (Result (Unit {0}) SupplicantError)) SupplicantError)
    → (result : Result (Unit {0}) SupplicantError) × (decided r true ≡ some result)
decided_late (err e) = (err e, refl)
decided_late (ok (some result)) = (result, refl)
decided_late (ok none) = (err SupplicantError.association_timeout, refl)

verdict_late :
    (p : Poll)
    → p.late ≡ true
    → (result : Result (Unit {0}) SupplicantError) × (verdict p ≡ some result)
unfolding verdict
verdict_late p h =
    let (result, e) = decided_late (snapshot p) in (result, ap (decided (snapshot p)) h ∙ e)

-- A round that finds the deadline passed ends the wait, whatever it reads and whatever came before.
pub wait_for_completed_enough :
    (before after : List Poll) (last : Poll)
    → last.late ≡ true
    → (result : Result (Unit {0}) SupplicantError) × (wait_for_completed (before ++ (last ∷ after))
        ≡ some result)
wait_for_completed_enough [] after last h =
    let (result, e) = verdict_late last h in (result, wait_done last after result e)
wait_for_completed_enough (p ∷ before) after last h = elim (Option-cases (verdict p)) [
  | inl going ↦
      rw (wait_more p (before ++ (last ∷ after)) going)
        (wait_for_completed_enough before after last h)
  | inr (r, e) ↦ (r, wait_done p (before ++ (last ∷ after)) r e)
]
