-- ===== src/Connection/State/Lifecycle.antt =====
-- Runs of the state machine.
use network_manager_rs.Common.{ℕ, zero, suc, ◌+◌, ◌≤◌, ◌≡◌, refl, ok, arith}
use network_manager_rs.Connection.State.{
  ConnectionState, unknown, disconnected, preparing, configuring, activating, activated,
  deactivating, failed, can_transition_to, transition_to,
}

-- `Walk s t n`: n accepted transitions lead from s to t.
pub data Walk : ConnectionState → ConnectionState → ℕ → Type 0 where
  here : {s : ConnectionState} → Walk s s zero
  step :
      {s t u : ConnectionState} {n : ℕ} → transition_to s t ≡ ok t → Walk t u n → Walk s u (suc n)

-- How many transitions are at least left before a connection is up.
abbrev distance : ConnectionState → ℕ
distance unknown = 5
distance disconnected = 4
distance preparing = 3
distance configuring = 2
distance activating = 1
distance activated = 0
distance deactivating = 5
distance failed = 5

distance-step : (s t : ConnectionState) → transition_to s t ≡ ok t → distance s ≤ distance t + 1
unfolding transition_to can_transition_to
distance-step s t h = ground arith

distance-Walk : {s t : ConnectionState} {n : ℕ} → Walk s t n → distance s ≤ distance t + n
distance-Walk here = omega arith
distance-Walk (step {s = s} {t = t} h w) = omega (arith, distance-step s t h, distance-Walk w)

-- No run brings a disconnected connection up in fewer than four transitions: none of the stages
-- between `disconnected` and `activated` can be skipped.
pub Walk-activated : {n : ℕ} → Walk disconnected activated n → 4 ≤ n
Walk-activated w = omega (arith, distance-Walk w)

-- From every state at most two transitions that the machine allows lead to
-- `disconnected`.
pub Walk-disconnected : (s : ConnectionState) → (n : ℕ) × Walk s disconnected n × (n ≤ 2)
unfolding transition_to can_transition_to
Walk-disconnected unknown = (1, step refl here, omega arith)
Walk-disconnected disconnected = (0, here, omega arith)
Walk-disconnected preparing = (2, step {t = failed} refl (step refl here), omega arith)
Walk-disconnected configuring = (2, step {t = failed} refl (step refl here), omega arith)
Walk-disconnected activating = (2, step {t = failed} refl (step refl here), omega arith)
Walk-disconnected activated = (2, step {t = failed} refl (step refl here), omega arith)
Walk-disconnected deactivating = (1, step refl here, omega arith)
Walk-disconnected failed = (1, step refl here, omega arith)
