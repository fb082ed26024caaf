-- ===== src/Linux/Dns/Atomic.antt =====
-- src/linux/dns.rs: a call of `apply` writes the whole file or leaves it as it was, and what it wrote is
-- taken away again by the owner it names.
use network_manager_rs.Common.{
  ℕ, zero, suc, ◌+◌, ◌≡◌, ◌⊎◌, inl, inr, refl, ap, Bool, true, false, not, Option, none, some, [],
  ◌∷◌, Result, ok, err, Str, str, str_eq, str_eq_refl, if◌then◌else◌, arith,
}
use network_manager_rs.Connection.Ip.{DnsConfig, DnsOwnership, DnsError}
use network_manager_rs.Linux.Model.{IpAddr}
use network_manager_rs.Linux.Dns.{
  read_owner, free_name, after_rename, after_write, write_through, write_atomic, marked, owned,
  write_owned, take_over, apply_to, apply_dns_config, remove_dns_config, from_io, serialize_dns,
}
use network_manager_rs.Linux.Dns.Files.{FileSystem, IsLawful, IoError, io_not_found}
use network_manager_rs.Linux.Dns.Owner.{IsOwner, parse_owner-sentinel}
use network_manager_rs.Linux.Dns.Ownership.{has_content}

module _ {F : Type 0} (files : FileSystem F) (lawful : IsLawful files) (show : IpAddr → Str)
    (path : Str) (temporary : ℕ → Str) (fuel : ℕ)
    (apart : (k : ℕ) → str_eq path (temporary k) ≡ false) where
  abbrev read : F → Result Str IoError
  read s = files.read_to_string s path

  -- An answer that is no error has the file read as `after`; an error leaves it as it was.
  abbrev pub Writes :
      {A : Type 0} → A → Result Str IoError → Result Str IoError → Result A DnsError × F → Type 0
  Writes a before after r =
      ((r.0 ≡ ok a) × (read r.1 ≡ after)) ⊎ ((e : DnsError) × (r.0 ≡ err e) × (read r.1 ≡ before))

  free_name-temporary :
      (n counter : ℕ) (s : F) (name : Str)
      → free_name files show path temporary fuel n counter s ≡ some name
      → str_eq path name ≡ false
  unfolding free_name
  free_name-temporary zero counter s name h = cc
  free_name-temporary (suc n) counter s name h =
      ground (arith, free_name-temporary n (counter + 1) s name, apart counter)

  after_rename-Writes :
      (s : F) (name : Str) (r : Result (Unit {0}) IoError × F)
      → files.rename s name path ≡ r
      → str_eq path name ≡ false
      → Writes tt
          (read s)
          (files.read_to_string s name)
          (after_rename files show path temporary fuel name r)
  after_rename-Writes s name (ok _, s') e d =
      inl (refl, rw e at (lawful.read-rename s name path (ap (λ r. r.0) e)))
  after_rename-Writes s name (err reason, s') e d =
      let same : s' ≡ s = rw e at (lawful.rename_failed s name path reason (ap (λ r. r.0) e)) in
      inr (from_io reason, refl, rw (lawful.remove_elsewhere s' name path d, same) refl)

  after_write-Writes :
      (s : F) (name contents : Str) (r : Result (Unit {0}) IoError × F)
      → files.write s name contents ≡ r
      → str_eq path name ≡ false
      → Writes tt (read s) (ok contents) (after_write files show path temporary fuel name r)
  after_write-Writes s name contents (err reason, s') e d =
      inr (from_io reason, refl, rw e at (lawful.write_elsewhere s name path contents d))
  after_write-Writes s name contents (ok _, s') e d =
      let here : files.read_to_string s' name ≡ ok contents =
        rw e at (lawful.read-write s name contents (ap (λ r. r.0) e)) in
      let there : read s' ≡ read s = rw e at (lawful.write_elsewhere s name path contents d) in
      rw (here, there) at (after_rename-Writes s' name (files.rename s' name path) refl d)

  write_through-Writes :
      (s : F) (contents : Str) (name : Option Str)
      → free_name files show path temporary fuel fuel 0 s ≡ name
      → Writes tt
          (read s)
          (ok contents)
          (write_through files show path temporary fuel name contents s)
  write_through-Writes s contents none e = inr (DnsError.io 0, refl, refl)
  write_through-Writes s contents (some name) e =
      after_write-Writes s name contents (files.write s name contents) refl
        (free_name-temporary fuel 0 s name e)

  owned-Writes :
      (owner contents : Str) (s : F) (r : Result (Unit {0}) DnsError × F)
      → Writes tt (read s) (ok contents) r
      → Writes
          (record { owner = owner; path = path })
          (read s)
          (ok contents)
          (owned files show path temporary fuel owner r)
  owned-Writes owner contents s (ok _, s') (inl (e, h)) = inl (refl, h)
  owned-Writes owner contents s (ok _, s') (inr (_, e, h)) = absurd (cc e)
  owned-Writes owner contents s (err reason, s') (inl (e, h)) = absurd (cc e)
  owned-Writes owner contents s (err reason, s') (inr (_, e, h)) = inr (reason, refl, h)

  -- What a call that writes the given configuration for `owner` leaves and answers.
  abbrev pub WritesOwned : F → Str → DnsConfig → Result DnsOwnership DnsError × F → Type 0
  WritesOwned s owner config =
      Writes (record { owner = owner; path = path }) (read s)
        (ok (marked files show path temporary fuel owner config))

  write_owned-WritesOwned :
      (s : F) (owner : Str) (config : DnsConfig)
      → WritesOwned s owner config (write_owned files show path temporary fuel s owner config)
  unfolding write_atomic
  write_owned-WritesOwned s owner config =
      let contents = marked files show path temporary fuel owner config in
      owned-Writes owner contents s (write_atomic files show path temporary fuel contents s)
        (write_through-Writes s contents (free_name files show path temporary fuel fuel 0 s) refl)

  refused-WritesOwned :
      (s : F) (owner : Str) (config : DnsConfig) (refused : Bool) (e : DnsError)
      → WritesOwned s owner config (
          if refused then (err e, s) else write_owned files show path temporary fuel s owner config)
  refused-WritesOwned s owner config true e = inr (e, refl, refl)
  refused-WritesOwned s owner config false e = write_owned-WritesOwned s owner config

  take_over-WritesOwned :
      (s : F) (owner : Str) (config : DnsConfig) (found : Result Str IoError)
      → WritesOwned s owner config (take_over files show path temporary fuel s owner config found)
  take_over-WritesOwned s owner config (err e) = write_owned-WritesOwned s owner config
  take_over-WritesOwned s owner config (ok content) =
      refused-WritesOwned s owner config (has_content content) (DnsError.foreign_managed path)

  apply_to-WritesOwned :
      (s : F) (owner : Str) (config : DnsConfig) (found : Result (Option Str) DnsError)
      → WritesOwned s owner config (apply_to files show path temporary fuel s owner config found)
  apply_to-WritesOwned s owner config (err e) = inr (e, refl, refl)
  apply_to-WritesOwned s owner config (ok (some existing)) =
      refused-WritesOwned s owner config (not (str_eq existing owner))
        (DnsError.foreign_managed path)
  apply_to-WritesOwned s owner config (ok none) =
      take_over-WritesOwned s owner config (files.read_to_string s path)

  -- A call of `apply` either answers with the ownership and leaves exactly the marked configuration, or
  -- answers with an error and leaves the file to be read as before.
  pub apply_dns_config-WritesOwned :
      (s : F) (owner : Str) (config : DnsConfig)
      → WritesOwned s owner config (apply_dns_config files show path temporary fuel s owner config)
  unfolding apply_dns_config
  apply_dns_config-WritesOwned s [] config =
      inr (DnsError.invalid_config (str "owner must not be empty"), refl, refl)
  apply_dns_config-WritesOwned s (c ∷ cs) config =
      apply_to-WritesOwned s (c ∷ cs) config (read_owner files show path temporary fuel s)

  read_owner-marked :
      (s : F) (owner : Str) (config : DnsConfig)
      → IsOwner owner
      → read s ≡ ok (marked files show path temporary fuel owner config)
      → read_owner files show path temporary fuel s ≡ ok (some owner)
  unfolding read_owner
  read_owner-marked s owner config h e =
      rw (e, parse_owner-sentinel owner (serialize_dns show config) h) refl

  removed_again :
      (s : F) (owner : Str) (config : DnsConfig) (o : DnsOwnership)
      → IsOwner owner
      → (r : Result DnsOwnership DnsError × F) → WritesOwned s owner config r
      → r.0 ≡ ok o
      → (files.remove_file r.1 path).0 ≡ ok tt
      → (read_owner files show path temporary fuel r.1 ≡ ok (some owner))
        × ((remove_dns_config files show path temporary fuel r.1 o).0 ≡ ok tt)
        × (read (remove_dns_config files show path temporary fuel r.1 o).1 ≡ err io_not_found)
  unfolding remove_dns_config
  removed_again s owner config o h r (inr (e, k, _)) a removable = absurd (cc)
  removed_again s owner config o h r (inl (k, e)) a removable =
      let same : o ≡ record { owner = owner; path = path } = cc in
      let found = read_owner-marked r.1 owner config h e in
      rw (same, found, str_eq_refl owner) (refl, refl, lawful.read-remove_file r.1 path removable)

  -- On files that keep the laws of the file system, with temporary names other than that of the file, and
  -- for an owner that is not empty and has no white space: what an `apply` that answered with an
  -- ownership wrote is read as owned by that owner, and if the file system then answers the removal of
  -- the file with Ok, `remove` with that ownership answers Ok and the file is not found any more.
  pub remove_dns_config-apply_dns_config :
      (s : F) (owner : Str) (config : DnsConfig) (o : DnsOwnership)
      → IsOwner owner
      → (apply_dns_config files show path temporary fuel s owner config).0 ≡ ok o
      → (files.remove_file
          (apply_dns_config files show path temporary fuel s owner config).1
          path).0
        ≡ ok tt
      → (read_owner files show path temporary fuel
            (apply_dns_config files show path temporary fuel s owner config).1
          ≡ ok (some owner))
        × ((remove_dns_config files show path temporary fuel
              (apply_dns_config files show path temporary fuel s owner config).1
              o).0
            ≡ ok tt)
        × (read
              (remove_dns_config files show path temporary fuel
                (apply_dns_config files show path temporary fuel s owner config).1
                o).1
            ≡ err io_not_found)
  remove_dns_config-apply_dns_config s owner config o h a removable =
      removed_again s owner config o h
        (apply_dns_config files show path temporary fuel s owner config)
        (apply_dns_config-WritesOwned s owner config) a removable
