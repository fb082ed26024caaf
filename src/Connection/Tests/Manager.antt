-- ===== src/Connection/Tests/Manager.antt =====
-- The activation manager on a scripted engine and the store in memory.
use network_manager_rs.Common.{
  ◌≡◌, refl, Bool, true, false, List, [], ◌∷◌, ◌++◌, ok, All, arith, some, str,
}
use network_manager_rs.Connection.State.{failed, ConnectionEvent}
use network_manager_rs.Connection.Ip.{no_outcome}
use network_manager_rs.Connection.Store.{in_memory}
use network_manager_rs.Connection.Activation.{ActivationManager, new_manager, is_active}
use network_manager_rs.Connection.Activation.{activate_matching, deactivate}
use network_manager_rs.Connection.Activation.Table.{ActiveConnection, find_id}
use network_manager_rs.Connection.Activation.Outcome.{
  activate_matching_lem, attempt_answer, deactivate_lem, deactivate_answer,
}
use network_manager_rs.Connection.Activation.Moves.{
  view, Move, IsHonest, deactivates, history, log, after, drained, after-Move,
}
use network_manager_rs.Connection.Activation.Invariant.{IsTable, history-new_manager}
use network_manager_rs.Connection.Activation.Log.{IsLogged, new_manager-IsLogged}
use network_manager_rs.Connection.Activation.Stuck.{history-failed}
use network_manager_rs.Connection.Activation.InMemory.{IsStore-Finds}
use network_manager_rs.Connection.Tests.Data.{
  home, laptop, scripted, text_of, filled, filled-IsStore, day,
}

abbrev script : List Bool
script = true ∷ true ∷ false ∷ []

day-IsHonest : All (IsHonest scripted text_of in_memory) day
day-IsHonest = (tt, (tt, (IsStore-Finds scripted text_of filled filled-IsStore, (tt, tt))))

history-new_manager_example :
    IsTable (view (history scripted text_of in_memory ([], new_manager script) day).1)
history-new_manager_example =
    history-new_manager scripted text_of in_memory script day day-IsHonest (omega arith)

new_manager-IsLogged_example :
    IsLogged (view (history scripted text_of in_memory ([], new_manager script) day).1) (
      log scripted text_of in_memory
        (history scripted text_of in_memory ([], new_manager script) day))
new_manager-IsLogged_example =
    new_manager-IsLogged scripted text_of in_memory script day day-IsHonest (omega arith)

abbrev broken : ActiveConnection
broken = record { id = 1; profile = home; device = laptop; state = failed; outcome = no_outcome }

abbrev stuck : ActivationManager (List Bool)
stuck = record { engine = script; next_id = 2; active = broken ∷ []; events = [] }

history-failed_example :
    (find_id 1 (history scripted text_of in_memory ([], stuck) day).1.active ≡ some broken)
    × (is_active (history scripted text_of in_memory ([], stuck) day).1 (str "home") ≡ true)
unfolding find_id
history-failed_example =
    history-failed scripted text_of in_memory ([], stuck) day broken day-IsHonest refl refl

after-Move_example :
    (es : List ConnectionEvent) × Move
      (view stuck)
      es
      (view (after scripted text_of in_memory stuck (deactivates 1)))
    × (log scripted text_of in_memory (
      drained scripted text_of in_memory ([], stuck) (deactivates 1),
      after scripted text_of in_memory stuck (deactivates 1),
    )
        ≡ log scripted text_of in_memory ([], stuck) ++ es)
after-Move_example = after-Move scripted text_of in_memory ([], stuck) (deactivates 1) tt

activate_matching_lem_example :
    activate_matching scripted text_of stuck home laptop
    ≡ attempt_answer scripted text_of stuck home laptop (ok no_outcome, true ∷ false ∷ [])
activate_matching_lem_example = activate_matching_lem scripted text_of stuck home laptop

deactivate_lem_example :
    deactivate scripted text_of stuck 1 ≡ deactivate_answer scripted text_of stuck 1 (some broken)
unfolding find_id
deactivate_lem_example = deactivate_lem scripted text_of stuck 1
