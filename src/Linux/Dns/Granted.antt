-- ===== src/Linux/Dns/Granted.antt =====
-- src/linux/dns.rs: when `apply` succeeds.
use mathlib.Core.Path.{subst}
use network_manager_rs.Common.{
  ℕ, zero, suc, ◌+◌, ◌<◌, ◌≡◌, ◌≢◌, ◌⊎◌, inl, inr, refl, false, none, some, [], ◌∷◌, Result, ok,
  err, Str, str_eq_refl, Bool-cases, arith,
}
use network_manager_rs.Connection.Ip.{DnsConfig, DnsError}
use network_manager_rs.Linux.Model.{IpAddr}
use network_manager_rs.Linux.Dns.{
  read_owner, free_name, after_rename, after_write, write_atomic, marked, owned, write_owned,
  apply_dns_config,
}
use network_manager_rs.Linux.Dns.Files.{FileSystem, IoError, io_not_found}
use network_manager_rs.Linux.Dns.Owner.{parse_owner}
use network_manager_rs.Linux.Dns.Ownership.{has_content}

module _ {F : Type 0} (files : FileSystem F) (show : IpAddr → Str) (path : Str)
    (temporary : ℕ → Str) (fuel : ℕ) where
  -- The file may be written for `owner`: it is absent, blank, or the owner's.
  abbrev pub IsOpenTo : F → Str → Type 0
  IsOpenTo s owner =
      (files.read_to_string s path ≡ err io_not_found)
      ⊎ ((content : Str) × (files.read_to_string s path ≡ ok content)
          × ((parse_owner content ≡ some owner)
              ⊎ ((parse_owner content ≡ none) × (has_content content ≡ false))))

  -- Among the attempts at a temporary name one is free.
  free_name_found :
      (n counter k : ℕ) (s : F)
      → k < n
      → files.exists s (temporary (counter + k)) ≡ false
      → (name : Str) × (free_name files show path temporary fuel n counter s ≡ some name)
  unfolding free_name
  free_name_found zero counter k s h e = absurd (omega arith)
  free_name_found (suc n) counter zero s h e =
      let free : files.exists s (temporary counter) ≡ false =
        subst (λ m. files.exists s (temporary m) ≡ false) (omega arith) e in
      (temporary counter, rw free)
  free_name_found (suc n) counter (suc k) s h e =
      elim (Bool-cases (files.exists s (temporary counter))) [
        | inl taken ↦ rw taken (
            free_name_found n (counter + 1) k s (omega arith)
              (subst (λ m. files.exists s (temporary m) ≡ false) (omega arith) e))
        | inr free ↦ (temporary counter, rw free)
      ]

  after_rename_ok :
      (name : Str) (r : Result (Unit {0}) IoError × F)
      → r.0 ≡ ok tt
      → (after_rename files show path temporary fuel name r).0 ≡ ok tt
  after_rename_ok name (ok _, s) h = refl
  after_rename_ok name (err e, s) h = absurd (cc h)

  after_write_ok :
      (name : Str) (r : Result (Unit {0}) IoError × F)
      → r.0 ≡ ok tt
      → (files.rename r.1 name path).0 ≡ ok tt
      → (after_write files show path temporary fuel name r).0 ≡ ok tt
  after_write_ok name (ok _, s) h k = after_rename_ok name (files.rename s name path) k
  after_write_ok name (err e, s) h k = absurd (cc h)

  owned_ok :
      (owner : Str) (r : Result (Unit {0}) DnsError × F)
      → r.0 ≡ ok tt
      → (owned files show path temporary fuel owner r).0
        ≡ ok (record { owner = owner; path = path })
  owned_ok owner (ok _, s) h = refl
  owned_ok owner (err e, s) h = absurd (cc h)

  module _ (s : F) (k : ℕ) (few : k < fuel) (free : files.exists s (temporary k) ≡ false)
      (writable : (name contents : Str) → (files.write s name contents).0 ≡ ok tt)
      (renamable : (name contents : Str)
        → (files.rename (files.write s name contents).1 name path).0 ≡ ok tt) where
    written :
        (owner : Str) (config : DnsConfig)
        → (write_owned files show path temporary fuel s owner config).0
          ≡ ok (record { owner = owner; path = path })
    unfolding write_atomic
    written owner config =
        let contents = marked files show path temporary fuel owner config in
        let (name, e) =
          free_name_found fuel 0 k s few
            (subst (λ m. files.exists s (temporary m) ≡ false) (omega arith) free) in
        owned_ok owner (write_atomic files show path temporary fuel contents s) (
          rw e (
            after_write_ok name (files.write s name contents) (writable name contents)
              (renamable name contents)))

    -- Where a temporary name is free and the file system takes the file, `apply` gives it to every named
    -- owner it is open to.
    pub apply_dns_config-IsOpenTo :
        (owner : Str) (config : DnsConfig)
        → owner ≢ []
        → IsOpenTo s owner
        → (apply_dns_config files show path temporary fuel s owner config).0
          ≡ ok (record { owner = owner; path = path })
    unfolding apply_dns_config read_owner
    apply_dns_config-IsOpenTo [] config n h = absurd (n refl)
    apply_dns_config-IsOpenTo (c ∷ cs) config n (inl absent) =
        rw (absent, read_owner, absent) (written (c ∷ cs) config)
    apply_dns_config-IsOpenTo (c ∷ cs) config n (inr (content, e, inl mine)) =
        rw (e, read_owner, mine, str_eq_refl (c ∷ cs)) (written (c ∷ cs) config)
    apply_dns_config-IsOpenTo (c ∷ cs) config n (inr (content, e, inr (nobody, blank))) =
        rw (e, read_owner, nobody, e, blank) (written (c ∷ cs) config)
