-- ===== src/Daemon/Stores.antt =====
-- The two stores of src/connection/store.rs under the daemon.
use network_manager_rs.Common.{Str, inl, inr}
use network_manager_rs.Connection.Store.{in_memory}
use network_manager_rs.Connection.Store.Invariant.{
  IsStore, create-IsStore, update-IsStore, delete-IsStore, get_profile_lem,
}
use network_manager_rs.Connection.Store.Files.{ProfileFiles, ProfileTexts, in_files}
use network_manager_rs.Connection.Store.Files.Kept.{get_file-IsOwn}
use network_manager_rs.Daemon.Calls.{Trusted}

in_memory-Trusted : Trusted in_memory IsStore
in_memory-Trusted = record {
  finds = λ s id p h e. elim (get_profile_lem s id h) [
    | inl f ↦ absurd (cc (e, f))
    | inr (q, f, k, v) ↦ cc (e, f, k)
  ];
  created = create-IsStore;
  updated = update-IsStore;
  deleted = delete-IsStore;
}

-- The store of files, whatever the files hold.
pub in_files-Trusted :
    {F : Type 0} (files : ProfileFiles F) (texts : ProfileTexts) (directory : Str)
    → Trusted (in_files files texts directory) (λ s. Unit)
in_files-Trusted files texts directory = record {
  finds = λ s id p g h. (get_file-IsOwn files texts directory s id p h).0;
  created = λ s p g. tt;
  updated = λ s p g. tt;
  deleted = λ s id g. tt;
}
