-- ===== src/Linux/Dns/Ownership.antt =====
-- src/linux/dns.rs: which files the manager touches, and what a successful call leaves behind.
use network_manager_rs.Common.{
  ℕ, ◌≡◌, ◌≢◌, ◌⊎◌, inl, inr, refl, Bool, true, false, not, none, some, List, [], ◌∷◌, any, ok, Str,
  str_eq, str_eq_iff, arith, All,
}
use network_manager_rs.Connection.Ip.{DnsConfig, DnsOwnership}
use network_manager_rs.Linux.Model.{IpAddr}
use network_manager_rs.Linux.Dns.{read_owner, apply_dns_config, remove_dns_config}
use network_manager_rs.Linux.Dns.Files.{FileSystem}
use network_manager_rs.Linux.Dns.Owner.{lines, is_blank, parse_owner}

-- One call of the manager.
pub data DnsCall : Type 0 where
  applies : Str → DnsConfig → DnsCall
  removes : DnsOwnership → DnsCall

-- Some line of the text says something.
abbrev pub has_content : Str → Bool
has_content content = any (λ line. not (is_blank line)) (lines content)

-- What a manager that acts for `owner` leaves alone: a text without a sentinel that says something, or
-- one whose sentinel names somebody else.
abbrev pub IsForeign : Str → Str → Type 0
IsForeign content owner =
    ((parse_owner content ≡ none) × (has_content content ≡ true))
    ⊎ ((o : Str) × (parse_owner content ≡ some o) × (o ≢ owner))

str_ne : (s t : Str) → s ≢ t → str_eq s t ≡ false
str_ne s t h = ground (arith, str_eq_iff s t)

module _ {F : Type 0} (files : FileSystem F) (show : IpAddr → Str) (path : Str)
    (temporary : ℕ → Str) (fuel : ℕ) where
  abbrev pub dns_calls : F → List DnsCall → F
  dns_calls s [] = s
  dns_calls s (applies owner config ∷ rest) =
      dns_calls (apply_dns_config files show path temporary fuel s owner config).1 rest
  dns_calls s (removes ownership ∷ rest) =
      dns_calls (remove_dns_config files show path temporary fuel s ownership).1 rest

  -- The name under which the calls of a history act.
  abbrev pub caller : DnsCall → Str
  caller (applies owner config) = owner
  caller (removes ownership) = ownership.owner

  apply_foreign :
      (s : F) (content owner : Str) (config : DnsConfig)
      → files.read_to_string s path ≡ ok content
      → IsForeign content owner
      → (apply_dns_config files show path temporary fuel s owner config).1 ≡ s
  unfolding apply_dns_config read_owner
  apply_foreign s content [] config h f = refl
  apply_foreign s content (c ∷ cs) config h (inl (e, b)) = rw (h, read_owner, e, h, b) refl
  apply_foreign s content (c ∷ cs) config h (inr (o, e, n)) =
      rw (h, read_owner, e, str_ne o (c ∷ cs) n) refl

  remove_foreign :
      (s : F) (content : Str) (ownership : DnsOwnership)
      → files.read_to_string s path ≡ ok content
      → IsForeign content ownership.owner
      → (remove_dns_config files show path temporary fuel s ownership).1 ≡ s
  unfolding remove_dns_config read_owner
  remove_foreign s content ownership h (inl (e, b)) = rw (h, read_owner, e) refl
  remove_foreign s content ownership h (inr (o, e, n)) =
      rw (h, read_owner, e, str_ne o ownership.owner n) refl

  -- No history of calls changes a file that is foreign to every caller.
  pub dns_calls-IsForeign :
      (s : F) (content : Str) (history : List DnsCall)
      → files.read_to_string s path ≡ ok content
      → All (λ c. IsForeign content (caller c)) history
      → dns_calls s history ≡ s
  dns_calls-IsForeign s content [] h f = refl
  dns_calls-IsForeign s content (applies owner config ∷ rest) h f =
      rw (apply_foreign s content owner config h f.0) (dns_calls-IsForeign s content rest h f.1)
  dns_calls-IsForeign s content (removes ownership ∷ rest) h f =
      rw (remove_foreign s content ownership h f.0) (dns_calls-IsForeign s content rest h f.1)
