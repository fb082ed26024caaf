-- ===== src/Linux/Dns.antt =====
-- src/linux/dns.rs: the DNS manager, which writes a `resolv.conf` that carries its owner's name and
-- leaves every other file alone. Texts are lists of characters here.
pub mod Files
pub mod Owner
pub mod Ownership
pub mod Atomic
pub mod Granted
use network_manager_rs.Common.{
  ℕ, zero, suc, ◌+◌, Bool, true, false, not, Option, none, some, List, [], ◌∷◌, ◌++◌, any, Result,
  ok, err, Str, str, str_eq, decimal, if◌then◌else◌,
}
use network_manager_rs.Connection.Ip.{
  DnsConfig, DnsOwnership, DnsError, foreign_managed, invalid_config,
}
use network_manager_rs.Linux.Model.{IpAddr}
use network_manager_rs.Linux.IpEngine.Backends.{DnsManager}
use Files.{FileSystem, IoError, io_not_found, io_other}
use Owner.{lines, trim, is_blank, sentinel_prefix, parse_owner}

-- `search_domains` with a blank between two.
unfoldable pub separated : List Str → Str
separated [] = []
separated (domain ∷ []) = domain
separated (domain ∷ (next ∷ rest)) = domain ++ (32 ∷ separated (next ∷ rest))

unfoldable pub search_line : List Str → Str
search_line [] = []
search_line (domain ∷ rest) = str "search " ++ (separated (domain ∷ rest) ++ (10 ∷ []))

-- `show` is the text of an address.
unfoldable pub nameservers : (IpAddr → Str) → List IpAddr → Str
nameservers show [] = []
nameservers show (server ∷ rest) =
    str "nameserver " ++ (show server ++ (10 ∷ nameservers show rest))

unfoldable pub serialize_dns : (IpAddr → Str) → DnsConfig → Str
serialize_dns show config = search_line config.search_domains ++ nameservers show config.servers

-- `impl From<io::Error> for DnsError`, with the raw code of the error.
abbrev pub from_io : IoError → DnsError
from_io io_not_found = DnsError.io 2
from_io (io_other code) = DnsError.io code

-- The attempts at a temporary name in the directory: `join` puts a name into it, and `file_name` is the
-- last part of the path.
unfoldable pub temporary_base : Option Str → ℕ → Str
temporary_base none pid = str ".resolv.conf.tmp" ++ decimal pid
temporary_base (some name) pid = str "." ++ (name ++ (str ".tmp" ++ decimal pid))

unfoldable pub temporary_path : (Str → Str) → Option Str → ℕ → ℕ → Str
temporary_path join file_name pid zero = join (temporary_base file_name pid)
temporary_path join file_name pid (suc k) =
    join (temporary_base file_name pid ++ (str "." ++ decimal (suc k)))

-- The manager of the file at `path`, over a file system of type F; `temporary` names the attempts at
-- a temporary file beside it, of which `fuel` are made at most.
module _ {F : Type 0} (files : FileSystem F) (show : IpAddr → Str) (path : Str)
    (temporary : ℕ → Str) (fuel : ℕ) where
  abbrev pub owner_in : Result Str IoError → Result (Option Str) DnsError
  owner_in (ok content) = ok (parse_owner content)
  owner_in (err io_not_found) = ok none
  owner_in (err (io_other code)) = err (DnsError.io code)

  unfoldable pub read_owner : F → Result (Option Str) DnsError
  read_owner s = owner_in (files.read_to_string s path)

  -- `while temporary.exists()`, from the given counter on.
  unfoldable pub free_name : ℕ → ℕ → F → Option Str
  free_name zero counter s = none
  free_name (suc n) counter s =
      let rest = free_name n (counter + 1) s in
      if files.exists s (temporary counter) then rest else some (temporary counter)

  abbrev pub after_rename : Str → Result (Unit {0}) IoError × F → Result (Unit {0}) DnsError × F
  after_rename name (ok _, s) = (ok tt, s)
  after_rename name (err e, s) = (err (from_io e), (files.remove_file s name).1)

  abbrev pub after_write : Str → Result (Unit {0}) IoError × F → Result (Unit {0}) DnsError × F
  after_write name (err e, s) = (err (from_io e), s)
  after_write name (ok _, s) = after_rename name (files.rename s name path)

  -- Where the attempts run out, nothing is written.
  abbrev pub write_through : Option Str → Str → F → Result (Unit {0}) DnsError × F
  write_through none contents s = (err (DnsError.io 0), s)
  write_through (some name) contents s = after_write name (files.write s name contents)

  unfoldable pub write_atomic : Str → F → Result (Unit {0}) DnsError × F
  write_atomic contents s = write_through (free_name fuel 0 s) contents s

  abbrev pub marked : Str → DnsConfig → Str
  marked owner config = sentinel_prefix ++ (owner ++ (10 ∷ serialize_dns show config))

  abbrev pub owned : Str → Result (Unit {0}) DnsError × F → Result DnsOwnership DnsError × F
  owned owner (ok _, s) = (ok (record { owner = owner; path = path }), s)
  owned owner (err e, s) = (err e, s)

  abbrev pub write_owned : F → Str → DnsConfig → Result DnsOwnership DnsError × F
  write_owned s owner config = owned owner (write_atomic (marked owner config) s)

  -- Without a sentinel, only a file that is absent or blank is taken over.
  abbrev pub take_over : F → Str → DnsConfig → Result Str IoError → Result DnsOwnership DnsError × F
  take_over s owner config (err _) = write_owned s owner config
  take_over s owner config (ok content) =
      if any (λ line. not (is_blank line)) (lines content)
      then (err (foreign_managed path), s)
      else write_owned s owner config

  abbrev pub apply_to :
      F → Str → DnsConfig → Result (Option Str) DnsError → Result DnsOwnership DnsError × F
  apply_to s owner config (err e) = (err e, s)
  apply_to s owner config (ok (some existing)) =
      if not (str_eq existing owner)
      then (err (foreign_managed path), s)
      else write_owned s owner config
  apply_to s owner config (ok none) = take_over s owner config (files.read_to_string s path)

  abbrev pub apply_owner : F → Str → DnsConfig → Result DnsOwnership DnsError × F
  apply_owner s [] config = (err (invalid_config (str "owner must not be empty")), s)
  apply_owner s (c ∷ cs) config = apply_to s (c ∷ cs) config (read_owner s)

  unfoldable pub apply_dns_config : F → Str → DnsConfig → Result DnsOwnership DnsError × F
  apply_dns_config s owner config = apply_owner s owner config

  abbrev pub remove_owned : F → Str → Result (Option Str) DnsError → Result (Unit {0}) DnsError × F
  remove_owned s owner (err e) = (err e, s)
  remove_owned s owner (ok none) = (ok tt, s)
  remove_owned s owner (ok (some existing)) =
      if str_eq existing owner
      then (ok tt, (files.remove_file s path).1)
      else (err (foreign_managed path), s)

  unfoldable pub remove_dns_config : F → DnsOwnership → Result (Unit {0}) DnsError × F
  remove_dns_config s ownership = remove_owned s ownership.owner (read_owner s)

  -- The DNS backend of the IP engine.
  unfoldable pub linux_dns : DnsManager F
  linux_dns = record { apply = apply_dns_config; remove = remove_dns_config }
