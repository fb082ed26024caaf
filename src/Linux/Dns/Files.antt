-- ===== src/Linux/Dns/Files.antt =====
-- The files that src/linux/dns.rs reads and writes: the calls of `std::fs`, and what they promise.
use network_manager_rs.Common.{◌≡◌, Bool, false, Result, ok, err, Str, str_eq, ℕ}

-- `io::Error`, by what the program tells apart: its kind, and otherwise its raw code.
pub data IoError : Type 0 where
  io_not_found : IoError
  io_other : ℕ → IoError

pub record FileSystem (F : Type 0) : Type 0 where
  pub read_to_string : F → Str → Result Str IoError
  pub exists : F → Str → Bool
  pub write : F → Str → Str → Result (Unit {0}) IoError × F
  pub rename : F → Str → Str → Result (Unit {0}) IoError × F
  pub remove_file : F → Str → Result (Unit {0}) IoError × F

-- What a call that succeeds does, and what no call does: a file that it does not name is read as
-- before, and a removal or a renaming that fails changes nothing.
pub record IsLawful {F : Type 0} (files : FileSystem F) : Type 0 where
  pub read-write :
      (s : F) (p content : Str)
      → (files.write s p content).0 ≡ ok tt
      → files.read_to_string (files.write s p content).1 p ≡ ok content
  pub write_elsewhere :
      (s : F) (p q content : Str)
      → str_eq q p ≡ false
      → files.read_to_string (files.write s p content).1 q ≡ files.read_to_string s q
  pub read-rename :
      (s : F) (p q : Str)
      → (files.rename s p q).0 ≡ ok tt
      → files.read_to_string (files.rename s p q).1 q ≡ files.read_to_string s p
  pub rename_failed :
      (s : F) (p q : Str) (e : IoError)
      → (files.rename s p q).0 ≡ err e
      → (files.rename s p q).1 ≡ s
  pub remove_elsewhere :
      (s : F) (p q : Str)
      → str_eq q p ≡ false
      → files.read_to_string (files.remove_file s p).1 q ≡ files.read_to_string s q
  pub read-remove_file :
      (s : F) (p : Str)
      → (files.remove_file s p).0 ≡ ok tt
      → files.read_to_string (files.remove_file s p).1 p ≡ err io_not_found
