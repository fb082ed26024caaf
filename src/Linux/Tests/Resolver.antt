-- ===== src/Linux/Tests/Resolver.antt =====
-- The DNS manager on a disk in memory.
use network_manager_rs.Common.{
  ℕ, zero, suc, ◌≡◌, inl, refl, true, false, Option, none, some, [], ◌∷◌, ◌++◌, Result, ok, err,
  Str, str, str_eq, str_eq_refl, arith, if◌then◌else◌,
}
use network_manager_rs.Connection.Ip.{DnsConfig, DnsOwnership}
use network_manager_rs.Connection.Profile.{is_some}
use network_manager_rs.Linux.Model.{IpAddr}
use network_manager_rs.Linux.Dns.{
  apply_dns_config, remove_dns_config, read_owner, temporary_path, temporary_base,
}
use network_manager_rs.Linux.Dns.Files.{FileSystem, IsLawful, IoError, io_not_found}
use network_manager_rs.Linux.Dns.Owner.{
  parse_owner, IsOwner, is_white, lines, lines_of, line_of, split_lines, is_blank, trim, trim_start,
  trim_end, keep_before, strip_prefix,
}
use network_manager_rs.Linux.Dns.Ownership.{
  applies, removes, dns_calls, dns_calls-IsForeign, has_content,
}
use network_manager_rs.Linux.Dns.Atomic.{
  WritesOwned, apply_dns_config-WritesOwned, remove_dns_config-apply_dns_config,
}
use network_manager_rs.Linux.Dns.Granted.{apply_dns_config-IsOpenTo}

abbrev Disk : Type 0
Disk = Str → Option Str

abbrev update : Disk → Str → Option Str → Disk
update d p o q = if str_eq q p then o else d q

abbrev content_of : Option Str → Result Str IoError
content_of none = err io_not_found
content_of (some content) = ok content

abbrev rename_on : Disk → Str → Str → Option Str → Result (Unit {0}) IoError × Disk
rename_on d p q none = (err io_not_found, d)
rename_on d p q (some content) = (ok tt, update (update d p none) q (some content))

abbrev disk : FileSystem Disk
disk = record {
  read_to_string = λ d p. content_of (d p);
  exists = λ d p. is_some (d p);
  write = λ d p content. (ok tt, update d p (some content));
  rename = λ d p q. rename_on d p q (d p);
  remove_file = λ d p. (ok tt, update d p none);
}

renamed :
    (d : Disk) (p q : Str) (o : Option Str)
    → (rename_on d p q o).0 ≡ ok tt
    → content_of ((rename_on d p q o).1 q) ≡ content_of o
renamed d p q none h = absurd (cc h)
renamed d p q (some content) h = rw (str_eq_refl q) refl

not_renamed :
    (d : Disk) (p q : Str) (o : Option Str) (e : IoError)
    → (rename_on d p q o).0 ≡ err e
    → (rename_on d p q o).1 ≡ d
not_renamed d p q none e h = refl
not_renamed d p q (some content) e h = absurd (cc h)

disk-IsLawful : IsLawful disk
disk-IsLawful = record {
  read-write = λ d p content h. rw (str_eq_refl p) refl;
  write_elsewhere = λ d p q content h. rw h refl;
  read-rename = λ d p q h. renamed d p q (d p) h;
  rename_failed = λ d p q e h. not_renamed d p q (d p) e h;
  remove_elsewhere = λ d p q h. rw h refl;
  read-remove_file = λ d p h. rw (str_eq_refl p) refl;
}

abbrev resolv : Str
resolv = str "/etc/resolv.conf"

abbrev attempt : ℕ → Str
attempt k = temporary_path (λ name. str "/etc/" ++ name) (some (str "resolv.conf")) 1 k

abbrev no_text : IpAddr → Str
no_text a = []

abbrev home_dns : DnsConfig
home_dns = record { search_domains = str "lan" ∷ str "home" ∷ []; servers = [] }

abbrev empty_disk : Disk
empty_disk p = none

abbrev foreign_disk : Disk
foreign_disk = update empty_disk resolv (some (str "nameserver 127.0.0.53"))

abbrev me : Str
me = str "nmd/home/wlan0"

abbrev mine : DnsOwnership
mine = record { owner = me; path = resolv }

attempt_apart : (k : ℕ) → str_eq resolv (attempt k) ≡ false
unfolding str_eq temporary_path temporary_base
attempt_apart zero = refl
attempt_apart (suc k) = refl

me-IsOwner : IsOwner me
unfolding is_white
me-IsOwner = record { filled = λ e. absurd (cc e); solid = ground arith }

disk_read : disk.read_to_string foreign_disk resolv ≡ ok (str "nameserver 127.0.0.53")
unfolding str_eq
disk_read = refl

says_something :
    (parse_owner (str "nameserver 127.0.0.53") ≡ none)
    × (has_content (str "nameserver 127.0.0.53") ≡ true)
unfolding parse_owner lines lines_of line_of split_lines strip_prefix is_blank trim trim_start
    trim_end is_white keep_before
says_something = (refl, refl)

dns_calls-IsForeign_example :
    dns_calls disk no_text resolv attempt 1 foreign_disk (applies me home_dns ∷ removes mine ∷ [])
    ≡ foreign_disk
dns_calls-IsForeign_example =
    dns_calls-IsForeign disk no_text resolv attempt 1 foreign_disk (str "nameserver 127.0.0.53")
      (applies me home_dns ∷ removes mine ∷ []) disk_read
      (inl says_something, (inl says_something, tt))

apply_dns_config-WritesOwned_example :
    WritesOwned disk disk-IsLawful no_text resolv attempt 1 attempt_apart empty_disk me home_dns
      (apply_dns_config disk no_text resolv attempt 1 empty_disk me home_dns)
apply_dns_config-WritesOwned_example =
    apply_dns_config-WritesOwned disk disk-IsLawful no_text resolv attempt 1 attempt_apart
      empty_disk me home_dns

apply_dns_config-IsOpenTo_example :
    (apply_dns_config disk no_text resolv attempt 1 empty_disk me home_dns).0 ≡ ok mine
apply_dns_config-IsOpenTo_example =
    apply_dns_config-IsOpenTo disk no_text resolv attempt 1 empty_disk 0 (omega arith) refl
      (λ name contents. refl) (λ name contents. rw (str_eq_refl name) refl) me home_dns
      (λ e. absurd (cc e)) (inl refl)

remove_dns_config-apply_dns_config_example :
    (read_owner disk no_text resolv attempt 1
        (apply_dns_config disk no_text resolv attempt 1 empty_disk me home_dns).1
      ≡ ok (some me))
    × ((remove_dns_config disk no_text resolv attempt 1
          (apply_dns_config disk no_text resolv attempt 1 empty_disk me home_dns).1
          mine).0
        ≡ ok tt)
    × (content_of (
          (remove_dns_config disk no_text resolv attempt 1
              (apply_dns_config disk no_text resolv attempt 1 empty_disk me home_dns).1
              mine).1
            resolv)
        ≡ err io_not_found)
remove_dns_config-apply_dns_config_example =
    remove_dns_config-apply_dns_config disk disk-IsLawful no_text resolv attempt 1 attempt_apart
      empty_disk me home_dns mine me-IsOwner
      (apply_dns_config-IsOpenTo disk no_text resolv attempt 1 empty_disk 0 (omega arith) refl
        (λ name contents. refl) (λ name contents. rw (str_eq_refl name) refl) me home_dns
        (λ e. absurd (cc e)) (inl refl))
      refl
