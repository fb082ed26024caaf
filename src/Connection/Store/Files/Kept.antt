-- ===== src/Connection/Store/Files/Kept.antt =====
-- What src/connection/store.rs reads back from its files.
use network_manager_rs.Common.{
  ℕ, ◌≡◌, refl, sym, ◌∙◌, true, false, Result, ok, err, Str, str_eq, str_eq_iff, Bool-cases, inl,
  inr, map_err, ◌>>=◌,
}
use network_manager_rs.Connection.Profile.{ConnectionProfile, ProfileValidationError, validate}
use network_manager_rs.Connection.Store.{not_found, malformed, io}
use network_manager_rs.Connection.Store.Files.{
  ProfileFiles, ProfileTexts, path_for, accept_profile, parse_profile, read_profile, get_file,
}

module _ {F : Type 0} (files : ProfileFiles F) (texts : ProfileTexts) (directory : Str) where
  -- A profile that is stored under its own id, and valid.
  abbrev pub IsOwn : Str → ConnectionProfile → Type 0
  IsOwn id p = (p.id ≡ id) × (validate p ≡ ok tt)

  accept-IsOwn :
      (id : Str) (p q : ConnectionProfile)
      → accept_profile files texts directory id p ≡ ok q
      → IsOwn id q
  accept-IsOwn id p q h = elim (Bool-cases (str_eq p.id id)) [
    | inl e ↦ checked e (validate p) refl (sym (opened e) ∙ h)
    | inr e ↦ absurd (cc (sym (refused e) ∙ h))
  ]
    where
      opened :
          str_eq p.id id ≡ true
          → accept_profile files texts directory id p
            ≡ map_err (λ e. malformed id (texts.reason_of e)) (validate p) >>= (λ _. ok p)
      opened e = rw e refl

      refused :
          str_eq p.id id ≡ false
          → accept_profile files texts directory id p ≡ err (malformed id (texts.mismatch p.id))
      refused e = rw e refl

      checked :
          str_eq p.id id ≡ true
          → (r : Result (Unit {0}) ProfileValidationError) → validate p ≡ r
          → (map_err (λ e. malformed id (texts.reason_of e)) r >>= (λ _. ok p)) ≡ ok q
          → IsOwn id q
      checked e (ok u) v k =
          let same : p ≡ q = cc k in
          let named : p.id ≡ id = (str_eq_iff p.id id).0 e in rw (sym same) (named, v)
      checked e (err x) v k = absurd (cc k)

  parse-IsOwn :
      (id : Str) (q : ConnectionProfile) (r : Result ConnectionProfile Str)
      → (map_err (malformed id) r >>= accept_profile files texts directory id) ≡ ok q
      → IsOwn id q
  parse-IsOwn id q (ok p) h = accept-IsOwn id p q h
  parse-IsOwn id q (err e) h = absurd (cc h)

  read-IsOwn :
      (id : Str) (q : ConnectionProfile) (r : Result Str ℕ)
      → (map_err io r >>= parse_profile files texts directory id) ≡ ok q
      → IsOwn id q
  unfolding parse_profile
  read-IsOwn id q (ok contents) h = parse-IsOwn id q (texts.from_toml contents) h
  read-IsOwn id q (err e) h = absurd (cc h)

  -- Whatever files the directory holds, a profile that the store hands out for an id is valid and has that
  -- id.
  pub get_file-IsOwn :
      (s : F) (id : Str) (q : ConnectionProfile)
      → get_file files texts directory s id ≡ ok q
      → (q.id ≡ id) × (validate q ≡ ok tt)
  unfolding get_file read_profile
  get_file-IsOwn s id q h =
      elim (Bool-cases (files.is_file s (path_for files texts directory id))) [
        | inl e ↦
            read-IsOwn id q (files.read_to_string s (path_for files texts directory id))
              (sym (found e) ∙ h)
        | inr e ↦ absurd (cc (sym (missing e) ∙ h))
      ]
    where
      found :
          files.is_file s (path_for files texts directory id) ≡ true
          → get_file files texts directory s id ≡ read_profile files texts directory s id
      found e = rw (e, get_file) refl

      missing :
          files.is_file s (path_for files texts directory id) ≡ false
          → get_file files texts directory s id ≡ err (not_found id)
      missing e = rw (e, get_file) refl
