-- ===== src/Linux/Netlink/Source.antt =====
-- src/linux/netlink.rs: `RtnetlinkEventSource`, the source of the daemon's events.
use mathlib.Core.List.{reverse}
use network_manager_rs.Common.{
  ℕ, zero, suc, ◌≡◌, Bool, true, false, ◌||◌, Option, none, some, List, [], ◌∷◌, ◌++◌, ◌==◌,
  if◌then◌else◌, Result, ok, err, Str,
}
use network_manager_rs.Linux.Model.{NetlinkError, io, kernel, malformed_message}
use network_manager_rs.Linux.Model.Events.{NetworkEvent}
use network_manager_rs.Linux.Netlink.Messages.{parse_network_events}

-- What one round of the loop meets: `SHUTDOWN_REQUESTED` is set, or `recv_into` returns; `stopped`
-- is the flag as it is read again when the call was interrupted or would have blocked.
pub data Turn : Type 0 where
  shut_down : Turn
  receives : Result (List ℕ) NetlinkError → (stopped : Bool) → Turn

-- `Vec::pop` takes the last element.
abbrev pub pop {ℓ} : {A : Type ℓ} → List A → Option (A × List A)
pop [] = none
pop (x ∷ xs) =
    let rest = pop xs in elim rest [ none ↦ some (x, []) | some (y, ys) ↦ some (y, x ∷ ys) ]

-- `ErrorKind::Interrupted` and `ErrorKind::WouldBlock`: the codes EINTR and EAGAIN.
abbrev pub is_retried : NetlinkError → Bool
is_retried (io code) = code == 4 || code == 11
is_retried (kernel code) = false
is_retried (malformed_message text) = false

-- What a call returns, with the pending events and the rounds that are left; `None` while it waits.
abbrev pub Next : Type 0
Next = Option (Result (Option NetworkEvent) NetlinkError × List NetworkEvent × List Turn)

abbrev pub after_parse :
    (List NetworkEvent → Next) → List Turn → Result (List NetworkEvent) NetlinkError → Next
after_parse rest turns (ok events) = rest (reverse events)
after_parse rest turns (err e) = some (err e, [], turns)

-- `if let Some(event) = self.pending.pop()`, else a round.
abbrev pub popped_or : Next → List Turn → Option (NetworkEvent × List NetworkEvent) → Next
popped_or round turns none = round
popped_or round turns (some (e, left)) = some (ok (some e), left, turns)

module _ (lossy : List ℕ → Str) where
  -- A round with nothing pending, and `rest`, the loop after it.
  abbrev pub turn : (List NetworkEvent → Next) → Turn → List Turn → Next
  turn rest (shut_down) turns = some (ok none, [], turns)
  turn rest (receives (ok buf) stopped) turns =
      after_parse rest turns (parse_network_events lossy buf)
  turn rest (receives (err e) stopped) turns =
      if is_retried e
      then if stopped then some (ok none, [], turns) else rest []
      else some (err e, [], turns)

  unfoldable pub next_event : List NetworkEvent → List Turn → Next
  next_event pending [] = popped_or none [] (pop pending)
  next_event pending (t ∷ turns) =
      let rest : List NetworkEvent → Next = λ events. next_event events turns in
      popped_or (turn rest t turns) (t ∷ turns) (pop pending)

  -- The events of `count` calls, as far as they return events.
  unfoldable pub take_events : ℕ → List NetworkEvent → List Turn → List NetworkEvent
  take_events zero pending turns = []
  take_events (suc count) pending turns =
      let rest : List NetworkEvent → List Turn → List NetworkEvent = take_events count in
      elim (next_event pending turns) [
        | none ↦ []
        | some (ok (some e), left, turns') ↦ e ∷ rest left turns'
        | some (ok none, left, turns') ↦ []
        | some (err e, left, turns') ↦ []
      ]

module _ (lossy : List ℕ → Str) where
  -- A round that is read without an error: its events, and that nobody asked for a shutdown.
  abbrev pub Quiet : Turn → List NetworkEvent → Type 0
  Quiet (shut_down) events = ⊥
  Quiet (receives (ok buf) stopped) events = parse_network_events lossy buf ≡ ok events
  Quiet (receives (err e) stopped) events =
      (is_retried e ≡ true) × (stopped ≡ false) × (events ≡ [])

  -- Rounds, and the events that their buffers carry, one after the other.
  pub data Rounds : List Turn → List NetworkEvent → Type 0 where
    no_rounds : Rounds [] []
    a_round :
        (t : Turn) (turns : List Turn) (events later : List NetworkEvent)
        → Quiet t events
        → Rounds turns later
        → Rounds (t ∷ turns) (events ++ later)
