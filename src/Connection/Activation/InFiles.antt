-- ===== src/Connection/Activation/InFiles.antt =====
-- The manager over the store with one file for each profile.
use network_manager_rs.Common.{◌+◌, ◌^◌, ◌<◌, List, [], ◌∷◌, Str, All, length}
use network_manager_rs.Connection.Store.Files.{ProfileFiles, ProfileTexts, in_files}
use network_manager_rs.Connection.Store.Files.Kept.{get_file-IsOwn}
use network_manager_rs.Connection.Activation.{ActivationError, ActivationEngine, new_manager}
use network_manager_rs.Connection.Activation.Moves.{
  view, Op, activates, activates_profile, deactivates, drains, IsHonest, history, log,
}
use network_manager_rs.Connection.Activation.Invariant.{IsTable, history-new_manager}
use network_manager_rs.Connection.Activation.Log.{IsLogged, new_manager-IsLogged}

module _ {E F : Type 0} (api : ActivationEngine E) (to_string : ActivationError → Str)
    (files : ProfileFiles F) (texts : ProfileTexts) (directory : Str) where
  op-IsHonest : (op : Op F) → IsHonest api to_string (in_files files texts directory) op
  op-IsHonest (activates s d) = tt
  op-IsHonest (activates_profile s id d) =
      λ id p h. (get_file-IsOwn files texts directory s id p h).0
  op-IsHonest (deactivates id) = tt
  op-IsHonest drains = tt

  ops-IsHonest :
      (ops : List (Op F)) → All (IsHonest api to_string (in_files files texts directory)) ops
  ops-IsHonest [] = tt
  ops-IsHonest (op ∷ ops) = (op-IsHonest op, ops-IsHonest ops)

  -- Over the store with one file for each profile, whatever the files hold at each call and whatever the
  -- engine answers, any history of calls on a new manager in which the ids do not run out keeps the
  -- manager's table well formed, and its events tell the state of every connection.
  pub in_files-IsLogged :
      (engine : E) (ops : List (Op F))
      → 1 + length ops < 2 ^ 64
      → IsTable (
          view
            (history api to_string (in_files files texts directory) ([], new_manager engine) ops).1)
        × IsLogged
            (view
              (history api to_string
                (in_files files texts directory)
                ([], new_manager engine)
                ops).1)
            (log api to_string
              (in_files files texts directory)
              (history api to_string (in_files files texts directory) ([], new_manager engine) ops))
  in_files-IsLogged engine ops l = (
    history-new_manager api to_string (in_files files texts directory) engine ops (ops-IsHonest ops)
        l,
    new_manager-IsLogged api to_string (in_files files texts directory) engine ops
        (ops-IsHonest ops) l,
  )
