-- ===== src/Connection/Tests/Folder.antt =====
-- The store of files on a disk in memory, which knows the text of one profile.
use network_manager_rs.Common.{
  ℕ, refl, false, Option, none, some, [], ◌++◌, Result, ok, err, Str, str, str_eq, str_eq_refl,
  if◌then◌else◌,
}
use network_manager_rs.Connection.Profile.{
  is_some, validate, validate_type, validate_security, validate_ip_config, validate_method,
}
use network_manager_rs.Connection.Profile.Build.{psk}
use network_manager_rs.Connection.Store.Refines.{creates}
use network_manager_rs.Connection.Store.Files.{
  ProfileFiles, IsFiles, ProfileTexts, create_file, write_profile,
}
use network_manager_rs.Connection.Store.Files.RoundTrip.{file_call, Keeps, file_call-Keeps}
use network_manager_rs.Connection.Tests.Data.{home}

abbrev pub Disk : Type 0
Disk = Str → Option Str

abbrev set_content : Disk → Str → Option Str → Disk
set_content d p o q = if str_eq q p then o else d q

abbrev read_content : Option Str → Result Str ℕ
read_content none = err 2
read_content (some content) = ok content

abbrev pub disk : ProfileFiles Disk
disk = record {
  create_dir_all = λ d p. (ok tt, d);
  is_file = λ d p. is_some (d p);
  read_to_string = λ d p. read_content (d p);
  write = λ d p content. (ok tt, set_content d p (some content));
  remove_file = λ d p. (ok tt, set_content d p none);
  read_dir = λ d p. ok [];
  join = λ d f. d ++ (str "/" ++ f);
  extension = λ p. some (str "toml");
  file_stem = λ p. some p;
  path_before = λ p q. false;
  display = λ p. p;
}

disk-IsFiles : IsFiles disk
disk-IsFiles = record {
  read-write = λ d p content h. rw (str_eq_refl p) refl;
  is_file-write = λ d p content h. rw (str_eq_refl p) refl;
  read-write_elsewhere = λ d p q content h. rw h refl;
  is_file-write_elsewhere = λ d p q content h. rw h refl;
  is_file-remove_file = λ d p h. rw (str_eq_refl p) refl;
  read-remove_elsewhere = λ d p q h. rw h refl;
  is_file-remove_elsewhere = λ d p q h. rw h refl;
}

abbrev pub toml : ProfileTexts
toml = record {
  to_toml = λ p. ok (str "id = \"home\"");
  from_toml = λ text. ok home;
  mismatch = λ id. id;
  reason_of = λ e. str "invalid";
}

abbrev pub folder : Str
folder = str "/etc/nmd"

abbrev empty_folder : Disk
empty_folder p = none

abbrev pub home_folder : Disk
home_folder p = some (str "id = \"home\"")

file_call-Keeps_example :
    Keeps disk disk-IsFiles toml folder
      (creates home)
      empty_folder
      (file_call disk disk-IsFiles toml folder empty_folder (creates home)).1
unfolding create_file write_profile validate validate_type validate_security psk validate_ip_config
    validate_method
file_call-Keeps_example =
    file_call-Keeps disk disk-IsFiles toml folder empty_folder (creates home) (λ content h. refl)
      refl
