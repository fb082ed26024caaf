-- ===== src/Daemon/Tests.antt =====
-- A day of a daemon over a folder of profiles.
use network_manager_rs.Common.{arith, Bool, true, List, [], ◌∷◌, ◌++◌, str}
use network_manager_rs.Connection.Store.Files.{in_files}
use network_manager_rs.Connection.Activation.Moves.{view}
use network_manager_rs.Connection.Activation.Invariant.{IsTable}
use network_manager_rs.Connection.Activation.Log.{IsLogged}
use network_manager_rs.Connection.Tests.Data.{home, laptop, scripted, text_of}
use network_manager_rs.Connection.Tests.Folder.{Disk, disk, toml, folder, home_folder}
use network_manager_rs.Daemon.{with_components}
use network_manager_rs.Daemon.Calls.{
  DaemonCall, stores, updates_stored, forgets, connects, connects_profile, disconnects, collects,
  Served, serves, serves-IsLogged,
}
use network_manager_rs.Daemon.Stores.{in_files-Trusted}

abbrev visits : List DaemonCall
visits =
    updates_stored home
    ∷ connects laptop
    ∷ collects
    ∷ disconnects 1
    ∷ forgets (str "home")
    ∷ stores home
    ∷ connects_profile (str "home") laptop
    ∷ collects
    ∷ []

abbrev evening : Served (Unit {0}) Disk (List Bool)
evening =
    serves scripted text_of (in_files disk toml folder)
      ([], with_components tt home_folder (true ∷ true ∷ [])) visits

serves-IsLogged_example :
    IsTable (view evening.1.activation)
    × IsLogged (view evening.1.activation) (evening.0 ++ evening.1.activation.events)
serves-IsLogged_example =
    serves-IsLogged scripted text_of (in_files disk toml folder) (λ s. Unit)
      (in_files-Trusted disk toml folder) tt home_folder (true ∷ true ∷ []) visits tt (omega arith)
