-- ===== src/Connection/Activation/InMemory.antt =====
-- The manager over the store in memory.
use network_manager_rs.Common.{Str, inl, inr}
use network_manager_rs.Connection.Store.{InMemoryProfileStore, in_memory}
use network_manager_rs.Connection.Store.Invariant.{IsStore, get_profile_lem}
use network_manager_rs.Connection.Activation.{ActivationError, ActivationEngine}
use network_manager_rs.Connection.Activation.Moves.{Finds}

module _ {E : Type 0} (api : ActivationEngine E) (to_string : ActivationError → Str) where
  -- A store in memory hands out the profiles that it is asked for.
  pub IsStore-Finds : (s : InMemoryProfileStore) → IsStore s → Finds api to_string in_memory s
  IsStore-Finds s h id p e = elim (get_profile_lem s id h) [
    | inl f ↦ absurd (cc (e, f))
    | inr (q, f, k, v) ↦ cc (e, f, k)
  ]
