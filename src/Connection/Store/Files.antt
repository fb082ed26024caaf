-- ===== src/Connection/Store/Files.antt =====
-- src/connection/store.rs: the store with one TOML file for each profile. The files, the paths and TOML
-- are parameters.
pub mod Kept
pub mod RoundTrip
use network_manager_rs.Common.{
  ℕ, ◌≡◌, Bool, true, false, Option, none, some, List, [], ◌∷◌, ◌++◌, Result, ok, err, Str, str,
  str_eq, str_lt, ◌>>=◌, map_err, ok_or, if◌then◌else◌,
}
use network_manager_rs.Common.Sorting.{sort_by}
use network_manager_rs.Connection.Profile.{ConnectionProfile, ProfileValidationError, validate}
use network_manager_rs.Connection.Store.{
  StoreError, not_found, already_exists, invalid, malformed, io, ProfileStore,
}

-- The calls of `std::fs` and `std::path` that the store makes, over the state F of the file system.
pub record ProfileFiles (F : Type 0) : Type 0 where
  pub create_dir_all : F → Str → Result (Unit {0}) ℕ × F
  pub is_file : F → Str → Bool
  pub read_to_string : F → Str → Result Str ℕ
  pub write : F → Str → Str → Result (Unit {0}) ℕ × F
  pub remove_file : F → Str → Result (Unit {0}) ℕ × F
  pub read_dir : F → Str → Result (List (Result Str ℕ)) ℕ
  pub join : Str → Str → Str
  pub extension : Str → Option Str
  pub file_stem : Str → Option Str  -- none where it is not UTF-8
  pub path_before : Str → Str → Bool
  pub display : Str → Str

-- A call that succeeds does what it says, and leaves every other file as it was.
pub record IsFiles {F : Type 0} (files : ProfileFiles F) : Type 0 where
  pub read-write :
      (s : F) (p content : Str)
      → (files.write s p content).0 ≡ ok tt
      → files.read_to_string (files.write s p content).1 p ≡ ok content
  pub is_file-write :
      (s : F) (p content : Str)
      → (files.write s p content).0 ≡ ok tt
      → files.is_file (files.write s p content).1 p ≡ true
  pub read-write_elsewhere :
      (s : F) (p q content : Str)
      → str_eq q p ≡ false
      → files.read_to_string (files.write s p content).1 q ≡ files.read_to_string s q
  pub is_file-write_elsewhere :
      (s : F) (p q content : Str)
      → str_eq q p ≡ false
      → files.is_file (files.write s p content).1 q ≡ files.is_file s q
  pub is_file-remove_file :
      (s : F) (p : Str)
      → (files.remove_file s p).0 ≡ ok tt
      → files.is_file (files.remove_file s p).1 p ≡ false
  pub read-remove_elsewhere :
      (s : F) (p q : Str)
      → str_eq q p ≡ false
      → files.read_to_string (files.remove_file s p).1 q ≡ files.read_to_string s q
  pub is_file-remove_elsewhere :
      (s : F) (p q : Str)
      → str_eq q p ≡ false
      → files.is_file (files.remove_file s p).1 q ≡ files.is_file s q

-- `toml::to_string` and `toml::from_str` with the texts of their errors, and two texts of this crate.
pub record ProfileTexts : Type 0 where
  pub to_toml : ConnectionProfile → Result Str Str
  pub from_toml : Str → Result ConnectionProfile Str
  pub mismatch : Str → Str
  pub reason_of : ProfileValidationError → Str

module _ {F : Type 0} (files : ProfileFiles F) (texts : ProfileTexts) (directory : Str) where
  abbrev pub answer_io : Result (Unit {0}) ℕ × F → Result (Unit {0}) StoreError × F
  answer_io (r, s) = (map_err io r, s)

  -- `FileProfileStore::new`.
  unfoldable pub open_files : F → Result (Unit {0}) StoreError × F
  open_files s = answer_io (files.create_dir_all s directory)

  unfoldable pub path_for : Str → Str
  path_for id = files.join directory (id ++ str ".toml")

  abbrev pub write_serialized :
      F → ConnectionProfile → Result Str Str → Result (Unit {0}) StoreError × F
  write_serialized s p (err reason) = (err (malformed p.id reason), s)
  write_serialized s p (ok content) = answer_io (files.write s (path_for p.id) content)

  abbrev pub write_validated :
      F
      → ConnectionProfile
      → Result (Unit {0}) ProfileValidationError
      → Result (Unit {0}) StoreError × F
  write_validated s p (err e) = (err (invalid e), s)
  write_validated s p (ok _) = write_serialized s p (texts.to_toml p)

  unfoldable pub write_profile : F → ConnectionProfile → Result (Unit {0}) StoreError × F
  write_profile s p = write_validated s p (validate p)

  -- The checks on a profile that was read from the file of an id.
  abbrev pub accept_profile : Str → ConnectionProfile → Result ConnectionProfile StoreError
  accept_profile id p =
      if str_eq p.id id
      then map_err (λ e. malformed id (texts.reason_of e)) (validate p) >>= (λ _. ok p)
      else err (malformed id (texts.mismatch p.id))

  unfoldable pub parse_profile : Str → Str → Result ConnectionProfile StoreError
  parse_profile id contents = do
    p ← map_err (malformed id) (texts.from_toml contents)
    accept_profile id p

  unfoldable pub read_profile : F → Str → Result ConnectionProfile StoreError
  read_profile s id = do
    contents ← map_err io (files.read_to_string s (path_for id))
    parse_profile id contents

  abbrev pub is_toml : Option Str → Bool
  is_toml none = false
  is_toml (some ext) = str_eq ext (str "toml")

  abbrev pub push_path : Str → List Str → List Str
  push_path path paths = if is_toml (files.extension path) then path ∷ paths else paths

  -- The entries of the directory; the first that cannot be read ends the loop.
  abbrev pub toml_paths : List (Result Str ℕ) → Result (List Str) StoreError
  toml_paths [] = ok []
  toml_paths (entry ∷ rest) =
      let later = toml_paths rest in
      (map_err io entry >>= (λ path. later >>= (λ paths. ok (push_path path paths))))

  unfoldable pub profile_paths : F → Result (List Str) StoreError
  profile_paths s = do
    entries ← map_err io (files.read_dir s directory)
    paths ← toml_paths entries
    ok (sort_by files.path_before paths)

  abbrev pub read_listed : F → Str → Result ConnectionProfile StoreError
  read_listed s path = do
    id ← ok_or (files.file_stem path) (malformed (files.display path) (str "invalid file name"))
    contents ← map_err io (files.read_to_string s path)
    parse_profile id contents

  abbrev pub read_all : F → List Str → Result (List ConnectionProfile) StoreError
  read_all s [] = ok []
  read_all s (path ∷ rest) =
      let later = read_all s rest in (read_listed s path >>= (λ p. later >>= (λ ps. ok (p ∷ ps))))

  unfoldable pub list_files : F → Result (List ConnectionProfile) StoreError
  list_files s = do
    paths ← profile_paths s
    profiles ← read_all s paths
    ok (sort_by (λ a b. str_lt a.id b.id) profiles)

  unfoldable pub get_file : F → Str → Result ConnectionProfile StoreError
  get_file s id = if files.is_file s (path_for id) then read_profile s id else err (not_found id)

  unfoldable pub create_file : F → ConnectionProfile → Result (Unit {0}) StoreError × F
  create_file s p =
      if files.is_file s (path_for p.id) then (err (already_exists p.id), s) else write_profile s p

  unfoldable pub update_file : F → ConnectionProfile → Result (Unit {0}) StoreError × F
  update_file s p =
      if files.is_file s (path_for p.id) then write_profile s p else (err (not_found p.id), s)

  unfoldable pub delete_file : F → Str → Result (Unit {0}) StoreError × F
  delete_file s id =
      if files.is_file s (path_for id)
      then answer_io (files.remove_file s (path_for id))
      else (err (not_found id), s)

  abbrev pub in_files : ProfileStore F
  in_files = record {
    list_all = list_files;
    get_one = get_file;
    create_one = create_file;
    update_one = update_file;
    delete_one = delete_file;
  }
