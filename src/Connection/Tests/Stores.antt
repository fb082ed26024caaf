-- ===== src/Connection/Tests/Stores.antt =====
-- The store in memory and the autoconnect order on concrete profiles.
use mathlib.Core.List.{Perm}
use network_manager_rs.Common.{◌≡◌, List, [], ◌∷◌, ◌++◌, str, map, All, false}
use network_manager_rs.Connection.Profile.{ConnectionProfile}
use network_manager_rs.Connection.Store.Refines.{
  Call, creates, updates, deletes, calls, promises, view, calls-promises,
}
use network_manager_rs.Common.Int.{pos}
use network_manager_rs.Connection.Policy.{order_for_autoconnect}
use network_manager_rs.Connection.Policy.Order.{
  IsRanked, Wants, Declines, order_for_autoconnect_lem,
}
use network_manager_rs.Connection.Tests.Data.{home, filled, filled-IsStore}

abbrev edits : List Call
edits = creates home ∷ updates home ∷ deletes (str "home") ∷ deletes (str "home") ∷ []

calls-promises_example :
    ((calls filled edits).0 ≡ (promises (view filled) edits).0)
    × (view (calls filled edits).1 ≡ (promises (view filled) edits).1)
calls-promises_example = calls-promises filled edits filled-IsStore

abbrev office : ConnectionProfile
office = record home { id = str "office"; priority = pos 10 }

abbrev guests : ConnectionProfile
guests = record home { id = str "guests"; autoconnect = false }

order_for_autoconnect_lem_example :
    (qs : List ConnectionProfile) × (rs : List ConnectionProfile) × (order_for_autoconnect
        (home ∷ guests ∷ office ∷ [])
      ≡ map (λ p. p.id) qs)
    × Perm (home ∷ guests ∷ office ∷ []) (qs ++ rs)
    × All Wants qs
    × All Declines rs
    × IsRanked qs
order_for_autoconnect_lem_example = order_for_autoconnect_lem (home ∷ guests ∷ office ∷ [])
