-- ===== src/Linux/Nl80211/Security.antt =====
-- The security that a network is reported with.
use network_manager_rs.Common.{
  ℕ, zero, suc, ◌+◌, ◌≡◌, arith, refl, ap, ◌∙◌, Bool, true, false, not, ◌&&◌, Option, List, [],
  length, drop, ltb, ◌==◌, Result, ok, err, ◌>>=◌, Result-cases, Bool-cases, inl, inr, get_or,
}
use mathlib.Core.Path.{subst}
use network_manager_rs.Linux.Model.{NetlinkError}
use network_manager_rs.Linux.Model.Wireless.{WifiAuthSuite, AccessPointSecurity}
use network_manager_rs.Linux.Netlink.Wire.{part}
use network_manager_rs.Linux.Nl80211.Elements.{
  Seen, nothing_seen, see_rsn, see_wpa, element_round, elements_loop, parse_security, security_of,
  parse_rsn_ie, parse_wpa_ie, is_wpa, is_private, ie_rsn, ie_vendor,
}

-- Without an RSN and without a WPA element, nothing was learnt.
abbrev pub IsConsistent : Seen → Type 0
IsConsistent seen =
    seen.rsn_seen ≡ false
    → seen.wpa_seen ≡ false
    → (seen.auth_suites ≡ []) × (seen.management_frame_protection ≡ false)

rsn_IsConsistent :
    (read : List WifiAuthSuite × Bool) (seen : Seen) → IsConsistent (see_rsn seen read)
rsn_IsConsistent (suites, mfp) seen r w = absurd (cc r)

wpa_IsConsistent : (suites : List WifiAuthSuite) (seen : Seen) → IsConsistent (see_wpa seen suites)
wpa_IsConsistent suites seen r w = absurd (cc w)

-- An answer, if there is one, and the state after it.
bind_IsConsistent {ℓ} :
    {A : Type ℓ} (f : A → Seen) (answer : Result A NetlinkError) (seen' : Seen)
    → ((a : A) → IsConsistent (f a))
    → (answer >>= λ a. ok (f a)) ≡ ok seen'
    → IsConsistent seen'
bind_IsConsistent f (ok a) seen' h e = subst IsConsistent (cc e) (h a)
bind_IsConsistent f (err x) seen' h e = absurd (cc e)

element_round-IsConsistent :
    (id : ℕ) (body : List ℕ) (seen seen' : Seen)
    → IsConsistent seen
    → element_round id body seen ≡ ok seen'
    → IsConsistent seen'
unfolding element_round
element_round-IsConsistent id body seen seen' h e = elim (Bool-cases (id == ie_rsn)) [
  | inl r ↦
      bind_IsConsistent (see_rsn seen) (parse_rsn_ie body) seen'
        (λ read. rsn_IsConsistent read seen) (rw r at e)
  | inr r ↦ elim (Bool-cases (id == ie_vendor && is_wpa body)) [
    | inl w ↦
        bind_IsConsistent (see_wpa seen) (parse_wpa_ie (drop 4 body)) seen'
          (λ suites. wpa_IsConsistent suites seen) (rw (r, w) at e)
    | inr w ↦ let same : ok seen ≡ ok seen' = rw (r, w) at e in subst IsConsistent (cc same) h
  ]
]

elements_loop-IsConsistent :
    (fuel : ℕ) (ies : List ℕ) (seen seen' : Seen)
    → IsConsistent seen
    → elements_loop fuel ies seen ≡ ok seen'
    → IsConsistent seen'
unfolding elements_loop
elements_loop-IsConsistent zero ies seen seen' h e = subst IsConsistent (cc e) h
elements_loop-IsConsistent (suc fuel) ies seen seen' h e = elim (Bool-cases (ltb (length ies) 2)) [
  | inl a ↦ let same : ok seen ≡ ok seen' = rw a at e in subst IsConsistent (cc same) h
  | inr a ↦ elim (Bool-cases (ltb (length ies) (2 + get_or ies 1 0))) [
    | inl b ↦ absurd (cc (rw (a, b) at e))
    | inr b ↦
        elim (Result-cases (element_round (get_or ies 0 0) (part 2 (get_or ies 1 0) ies) seen)) [
          | inl (next, c) ↦
              elements_loop-IsConsistent fuel (drop (2 + get_or ies 1 0) ies) next seen'
                (element_round-IsConsistent _ _ seen next h c) (rw (a, b, c) at e)
          | inr (x, c) ↦ absurd (cc (rw (a, b, c) at e))
        ]
  ]
]

-- A network is reported with WEP only where nothing else is reported of its security: neither WPA,
-- WPA2, WPA3 nor an enterprise network, no authentication suite and no protection of management
-- frames.
pub parse_security-wep :
    (ies : List ℕ) (capability : Option ℕ) (s : AccessPointSecurity)
    → parse_security ies capability ≡ ok s
    → s.wep ≡ true
    → (s.wpa1 ≡ false)
      × (s.wpa2 ≡ false)
      × (s.wpa3 ≡ false)
      × (s.enterprise ≡ false)
      × (s.management_frame_protection ≡ false)
      × (s.auth_suites ≡ [])
unfolding parse_security
parse_security-wep ies capability s e w =
    elim (Result-cases (elements_loop (length ies) ies nothing_seen)) [
      | inl (seen, c) ↦
          let same : ok (security_of capability seen) ≡ ok s = rw c at e in
          let is : security_of capability seen ≡ s = cc same in
          let wep : (is_private capability && not seen.rsn_seen && not seen.wpa_seen) ≡ true =
            ap (λ x. x.wep) is ∙ w in
          let no_rsn : seen.rsn_seen ≡ false = ground arith in
          let no_wpa : seen.wpa_seen ≡ false = ground arith in
          let nothing =
            elements_loop-IsConsistent _ ies nothing_seen seen (λ _ _. (refl, refl)) c no_rsn
              no_wpa in
          subst
            (λ x.
              (x.wpa1 ≡ false)
              × (x.wpa2 ≡ false)
              × (x.wpa3 ≡ false)
              × (x.enterprise ≡ false)
              × (x.management_frame_protection ≡ false)
              × (x.auth_suites ≡ []))
            is (no_wpa, rw no_rsn refl, rw nothing.0 refl, rw nothing.0 refl, nothing.1, nothing.0)
      | inr (x, c) ↦ absurd (cc (rw c at e))
    ]
