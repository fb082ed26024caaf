-- ===== src/Connection/State.antt =====
-- src/connection/state.rs: the lifecycle of an active connection.
pub mod Lifecycle
use network_manager_rs.Common.{ℕ, Bool, true, false, Result, ok, err, if◌then◌else◌, Str}

pub data ConnectionState : Type 0 where
  unknown disconnected preparing configuring activating activated deactivating failed :
      ConnectionState

unfoldable pub can_transition_to : ConnectionState → ConnectionState → Bool
can_transition_to unknown disconnected = true
can_transition_to disconnected preparing = true
can_transition_to preparing configuring = true
can_transition_to preparing failed = true
can_transition_to configuring activating = true
can_transition_to configuring failed = true
can_transition_to activating activated = true
can_transition_to activating failed = true
can_transition_to activated deactivating = true
can_transition_to activated failed = true
can_transition_to deactivating disconnected = true
can_transition_to deactivating failed = true
can_transition_to failed disconnected = true
can_transition_to _ _ = false

pub data StateError : Type 0 where
  invalid_transition : ConnectionState → ConnectionState → StateError

unfoldable pub transition_to : ConnectionState → ConnectionState → Result ConnectionState StateError
transition_to s next = if can_transition_to s next then ok next else err (invalid_transition s next)

-- The active connection's id (a u64) and the profile's id stand first in every event.
pub data ConnectionEvent : Type 0 where
  state_changed : ℕ → Str → ConnectionState → ConnectionState → ConnectionEvent
  activated_event : ℕ → Str → ConnectionEvent
  deactivated_event : ℕ → Str → ConnectionEvent
  failed_event : ℕ → Str → Str → ConnectionEvent

-- `state == ConnectionState::Activated`.
abbrev pub is_activated : ConnectionState → Bool
is_activated activated = true
is_activated _ = false
