-- ===== src/Connection/Tests/Association.antt =====
-- The supplicant engine on a supplicant that loses the association, and the wait that finds it.
use network_manager_rs.Common.{
  ◌≡◌, ◌↔◌, refl, Bool, true, false, none, some, List, [], ◌∷◌, ◌++◌, Result, ok, err, Str, str,
}
use network_manager_rs.Common.Int.{pos}
use network_manager_rs.Connection.Supplicant.{SecretProvider, WpaSupplicantActivationEngine}
use network_manager_rs.Connection.Supplicant.Calls.{
  registered, SupplicantCall, EngineCall, associates, dissociates, engine_history, IsTracked,
  engine_history-IsTracked,
}
use network_manager_rs.Linux.Supplicant.{
  SupplicantControl, SupplicantError, association_timeout, Poll, wait_for_completed,
}
use network_manager_rs.Linux.Supplicant.Waiting.{
  Associates, wait_for_completed-Associates, wait_for_completed_enough,
}
use network_manager_rs.Connection.Tests.Data.{home, laptop}

-- A supplicant whose first association fails: its state is whether it failed already.
abbrev flaky : SupplicantControl Bool
flaky = record {
  ifname = λ c. str "wlan0";
  add_network = λ c ssid key psk identity bssid hidden. (ok (str "/net/1"), c);
  select_network = λ c path. (ok tt, c);
  remove_network = λ c path. (ok tt, c);
  disconnect = λ c. (ok tt, c);
  wait_for_completed =
      λ c timeout. elim c [ true ↦ (ok tt, true) | false ↦ (err association_timeout, true) ];
}

abbrev known : SecretProvider
known reference = ok (some (str "secret"))

abbrev said : SupplicantError → Str
said e = str "no"

abbrev fresh : WpaSupplicantActivationEngine (Bool × List SupplicantCall)
fresh = record { control = (false, []); active_network = none }

abbrev evening : List EngineCall
evening = associates home laptop ∷ associates home laptop ∷ dissociates home ∷ []

engine_history-IsTracked_example :
    IsTracked flaky known 30 said (engine_history flaky known 30 said fresh evening)
unfolding registered
engine_history-IsTracked_example = engine_history-IsTracked flaky known 30 said fresh evening refl

abbrev scanning : Poll
scanning = record { state = ok (str "scanning"); reason = ok (pos 0); late = false }

abbrev completed : Poll
completed = record { state = ok (str "completed"); reason = ok (pos 0); late = false }

wait_for_completed-Associates_example :
    (wait_for_completed (scanning ∷ completed ∷ []) ≡ some (ok tt))
    ↔ Associates (scanning ∷ completed ∷ [])
wait_for_completed-Associates_example = wait_for_completed-Associates (scanning ∷ completed ∷ [])

wait_for_completed_enough_example :
    (result : Result (Unit {0}) SupplicantError) × (wait_for_completed
        ((scanning ∷ []) ++ (record scanning { late = true } ∷ []))
      ≡ some result)
wait_for_completed_enough_example =
    wait_for_completed_enough (scanning ∷ []) [] (record scanning { late = true }) refl
