-- ===== src/Connection/Store/Files/RoundTrip.antt =====
-- src/connection/store.rs: what is written to the files is read back from them.
use network_manager_rs.Common.{
  ℕ, ◌≡◌, refl, sym, ap, ◌∙◌, true, false, Result, ok, err, Str, str_eq, str_eq_refl, Bool-cases,
  inl, inr, map_err,
}
use network_manager_rs.Connection.Profile.{ConnectionProfile, ProfileValidationError, validate}
use network_manager_rs.Connection.Store.{StoreError, not_found, already_exists, io}
use network_manager_rs.Connection.Store.Refines.{Call, creates, updates, deletes}
use network_manager_rs.Connection.Store.Files.{
  ProfileFiles, IsFiles, ProfileTexts, path_for, write_profile, write_validated, write_serialized,
  answer_io, parse_profile, read_profile, get_file, create_file, update_file, delete_file,
}

module _ {F : Type 0} (files : ProfileFiles F) (lawful : IsFiles files) (texts : ProfileTexts)
    (directory : Str) where
  -- The other ids are read from `t` as from `s`: those whose file is not that of `id`.
  abbrev pub Untouched : Str → F → F → Type 0
  Untouched id s t =
      (other : Str)
      → str_eq (path_for files texts directory other) (path_for files texts directory id) ≡ false
      → get_file files texts directory t other ≡ get_file files texts directory s other

  got-same :
      (s t : F) (id : Str)
      → files.is_file t (path_for files texts directory id)
        ≡ files.is_file s (path_for files texts directory id)
      → files.read_to_string t (path_for files texts directory id)
        ≡ files.read_to_string s (path_for files texts directory id)
      → get_file files texts directory t id ≡ get_file files texts directory s id
  unfolding get_file read_profile
  got-same s t id h k = rw (h, k) refl

  write-Untouched :
      (s : F) (id content : Str)
      → Untouched id s (files.write s (path_for files texts directory id) content).1
  write-Untouched s id content other n =
      got-same s (files.write s (path_for files texts directory id) content).1 other
        (lawful.is_file-write_elsewhere s (path_for files texts directory id)
          (path_for files texts directory other) content n)
        (lawful.read-write_elsewhere s (path_for files texts directory id)
          (path_for files texts directory other) content n)

  remove-Untouched :
      (s : F) (id : Str)
      → Untouched id s (files.remove_file s (path_for files texts directory id)).1
  remove-Untouched s id other n =
      got-same s (files.remove_file s (path_for files texts directory id)).1 other
        (lawful.is_file-remove_elsewhere s (path_for files texts directory id)
          (path_for files texts directory other) n)
        (lawful.read-remove_elsewhere s (path_for files texts directory id)
          (path_for files texts directory other) n)

  -- A valid profile in its own file is read back.
  read_own :
      (s : F) (p : ConnectionProfile) (content : Str)
      → files.is_file s (path_for files texts directory p.id) ≡ true
      → files.read_to_string s (path_for files texts directory p.id) ≡ ok content
      → texts.from_toml content ≡ ok p
      → validate p ≡ ok tt
      → get_file files texts directory s p.id ≡ ok p
  unfolding get_file read_profile parse_profile
  read_own s p content f r t v = rw (f, r, t, str_eq_refl p.id, v) refl

  ok_io : (r : Result (Unit {0}) ℕ) → map_err {F = StoreError} io r ≡ ok tt → r ≡ ok tt
  ok_io (ok u) h = refl
  ok_io (err e) h = absurd (cc h)

  -- TOML gives the profile back.
  abbrev pub ReadsBack : ConnectionProfile → Type 0
  ReadsBack p = (content : Str) → texts.to_toml p ≡ ok content → texts.from_toml content ≡ ok p

  -- What a store that took in a profile answers.
  abbrev pub Stores : ConnectionProfile → F → F → Type 0
  Stores p s t = (get_file files texts directory t p.id ≡ ok p) × Untouched p.id s t

  serialized-Stores :
      (s : F) (p : ConnectionProfile) (r : Result Str Str)
      → ReadsBack p
      → texts.to_toml p ≡ r
      → validate p ≡ ok tt
      → (write_serialized files texts directory s p r).0 ≡ ok tt
      → Stores p s (write_serialized files texts directory s p r).1
  serialized-Stores s p (err e) b t v h = absurd (cc h)
  serialized-Stores s p (ok content) b t v h =
      let path = path_for files texts directory p.id in
      let written : (files.write s path content).0 ≡ ok tt =
        ok_io (files.write s path content).0 h in
      (
        read_own (files.write s path content).1 p content
            (lawful.is_file-write s path content written) (lawful.read-write s path content written)
            (b content t) v,
        write-Untouched s p.id content,
      )

  validated-Stores :
      (s : F) (p : ConnectionProfile) (r : Result (Unit {0}) ProfileValidationError)
      → ReadsBack p
      → validate p ≡ r
      → (write_validated files texts directory s p r).0 ≡ ok tt
      → Stores p s (write_validated files texts directory s p r).1
  validated-Stores s p (err e) b v h = absurd (cc h)
  validated-Stores s p (ok u) b v h = serialized-Stores s p (texts.to_toml p) b refl v h

  write_profile-Stores :
      (s : F) (p : ConnectionProfile)
      → ReadsBack p
      → (write_profile files texts directory s p).0 ≡ ok tt
      → Stores p s (write_profile files texts directory s p).1
  unfolding write_profile
  write_profile-Stores s p b h = validated-Stores s p (validate p) b refl h

  absent :
      (s : F) (id : Str)
      → files.is_file s (path_for files texts directory id) ≡ false
      → get_file files texts directory s id ≡ err (not_found id)
  unfolding get_file
  absent s id e = rw e refl

  abbrev pub file_call : F → Call → Result (Unit {0}) StoreError × F
  file_call s (creates p) = create_file files texts directory s p
  file_call s (updates p) = update_file files texts directory s p
  file_call s (deletes id) = delete_file files texts directory s id

  abbrev pub Readable : Call → Type 0
  Readable (creates p) = ReadsBack p
  Readable (updates p) = ReadsBack p
  Readable (deletes id) = Unit

  abbrev pub Keeps : Call → F → F → Type 0
  Keeps (creates p) s t =
      (get_file files texts directory s p.id ≡ err (not_found p.id)) × Stores p s t
  Keeps (updates p) s t = Stores p s t
  Keeps (deletes id) s t =
      (get_file files texts directory t id ≡ err (not_found id)) × Untouched id s t

  -- On files that keep the laws of the file system, and for a profile that TOML gives back, a call that
  -- answers Ok took effect: a profile that was created, under an id that had none, or updated
  -- is read back as it was given, one that was deleted is not found, and every id with another file is
  -- read as before.
  pub file_call-Keeps :
      (s : F) (c : Call) → Readable c → (file_call s c).0 ≡ ok tt → Keeps c s (file_call s c).1
  unfolding create_file update_file delete_file
  file_call-Keeps s (creates p) b h =
      elim (Bool-cases (files.is_file s (path_for files texts directory p.id))) [
        | inl e ↦
            let refused : (create_file files texts directory s p).0 ≡ err (already_exists p.id) =
              rw e refl in
            absurd (cc (sym refused ∙ h))
        | inr e ↦
            let taken : create_file files texts directory s p
                ≡ write_profile files texts directory s p =
              rw e refl in
            rw taken (absent s p.id e, write_profile-Stores s p b (sym (ap (λ r. r.0) taken) ∙ h))
      ]
  file_call-Keeps s (updates p) b h =
      elim (Bool-cases (files.is_file s (path_for files texts directory p.id))) [
        | inl e ↦
            let taken : update_file files texts directory s p
                ≡ write_profile files texts directory s p =
              rw e refl in
            rw taken (write_profile-Stores s p b (sym (ap (λ r. r.0) taken) ∙ h))
        | inr e ↦
            let refused : (update_file files texts directory s p).0 ≡ err (not_found p.id) =
              rw e refl in
            absurd (cc (sym refused ∙ h))
      ]
  file_call-Keeps s (deletes id) b h =
      elim (Bool-cases (files.is_file s (path_for files texts directory id))) [
        | inl e ↦
            let path = path_for files texts directory id in
            let taken : delete_file files texts directory s id
                ≡ answer_io files texts directory (files.remove_file s path) =
              rw e refl in
            rw taken (
              absent (files.remove_file s path).1 id (
                  lawful.is_file-remove_file s path
                    (ok_io (files.remove_file s path).0 (sym (ap (λ r. r.0) taken) ∙ h))),
              remove-Untouched s id,
            )
        | inr e ↦
            let refused : (delete_file files texts directory s id).0 ≡ err (not_found id) =
              rw e refl in
            absurd (cc (sym refused ∙ h))
      ]
