-- ===== src/Linux/Nl80211/Rsn.antt =====
-- The RSN element: its parts in the order of the bytes, and what is read of them.
use network_manager_rs.Common.{
  ℕ, suc, ◌+◌, ◌*◌, ◌≡◌, arith, refl, sym, ap, ◌∙◌, Bool, true, false, not, ◌&&◌, Option, List, [],
  ◌∷◌, ◌++◌, map, length, length-append, length-map, append-nil, drop, drop_all, any, ltb, ok,
  ◌>>=◌, get_or, Octets4, octets, IsU16, Str, str,
}
use network_manager_rs.Linux.Model.Wireless.{WifiAuthSuite, other_suite, auth_suite_from_rsn_akm}
use network_manager_rs.Linux.Netlink.Wire.{le_of, le_bytes, part}
use network_manager_rs.Linux.IpConfig.Values.{take_whole}
use network_manager_rs.Linux.Nl80211.Elements.{
  Seen, nothing_seen, see_rsn, element_round, elements_loop, parse_security, parse_rsn_ie,
  skip_ie_bytes, read_ie_u16, skip_ie_counted, read_suites, counted_suites, has_mfp, is_wpa3,
  is_not_wpa2, is_enterprise, is_private, ie_rsn,
}

abbrev pub suites_bytes : List Octets4 → List ℕ
suites_bytes [] = []
suites_bytes (o ∷ os) = octets o ++ suites_bytes os

-- Version, group cipher, pairwise ciphers, authentication suites, capabilities: a count in front of
-- each list, words in little-endian order, and a suite by its four bytes in their order.
abbrev pub rsn_body : ℕ → Octets4 → List Octets4 → List Octets4 → List ℕ → List ℕ
rsn_body version group pairwise akms caps =
    le_bytes 2 version
    ++ (octets group
        ++ (le_bytes 2 (length pairwise)
            ++ (suites_bytes pairwise
                ++ (le_bytes 2 (length akms) ++ (suites_bytes akms ++ caps)))))

abbrev pub akm_of : Octets4 → WifiAuthSuite
akm_of o = auth_suite_from_rsn_akm (le_of (octets o))

length-suites_bytes : (os : List Octets4) → length (suites_bytes os) ≡ length os * 4
length-suites_bytes [] = refl
length-suites_bytes (o ∷ os) = omega (arith, length-suites_bytes os)

read_suites-suites_bytes :
    (suite : ℕ → WifiAuthSuite) (text : Str) (os : List Octets4) (rest : List ℕ)
    → read_suites suite text (length os) (suites_bytes os ++ rest)
      ≡ ok (map (λ o. suite (le_of (octets o))) os, rest)
unfolding read_suites
read_suites-suites_bytes suite text [] rest = refl
read_suites-suites_bytes suite text (o ∷ os) rest =
    let enough : ltb (length (suites_bytes (o ∷ os) ++ rest)) 4 ≡ false = ground arith in
    rw (enough, read_suites-suites_bytes suite text os rest) refl

module _ (n : ℕ) (rest : List ℕ) where
  read_ie_u16-le : IsU16 n → read_ie_u16 (le_bytes 2 n ++ rest) ≡ ok (n, rest)
  unfolding read_ie_u16
  read_ie_u16-le h =
      let enough : ltb (length (le_bytes 2 n ++ rest)) 2 ≡ false = ground arith in
      let value : le_of (le_bytes 2 n) ≡ n = omega arith in rw (enough, value) refl

skip_all : (xs rest : List ℕ) (n : ℕ) → length xs ≡ n → skip_ie_bytes n (xs ++ rest) ≡ ok rest
unfolding skip_ie_bytes
skip_all xs rest n h =
    let enough : ltb (length (xs ++ rest)) n ≡ false = ground (arith, length-append xs rest) in
    rw (enough, drop_all xs rest n h) refl

skip_pairwise :
    (os : List Octets4) (rest : List ℕ)
    → IsU16 (length os)
    → skip_ie_counted 4 (le_bytes 2 (length os) ++ (suites_bytes os ++ rest)) ≡ ok rest
unfolding skip_ie_counted
skip_pairwise os rest h =
    rw (read_ie_u16-le (length os) (suites_bytes os ++ rest) h)
      (skip_all (suites_bytes os) rest (length os * 4) (length-suites_bytes os))

read_akms :
    (suite : ℕ → WifiAuthSuite) (text : Str) (os : List Octets4) (rest : List ℕ)
    → IsU16 (length os)
    → counted_suites suite text (le_bytes 2 (length os) ++ (suites_bytes os ++ rest))
      ≡ ok (map (λ o. suite (le_of (octets o))) os, rest)
read_akms suite text os rest h =
    let enough : ltb (length (suites_bytes os ++ rest)) (length os * 4) ≡ false =
      ground (arith, length-append (suites_bytes os) rest, length-suites_bytes os) in
    rw (read_ie_u16-le (length os) (suites_bytes os ++ rest) h, enough)
      (read_suites-suites_bytes suite text os rest)

parse_rsn_ie-rsn_body :
    (version : ℕ) (group : Octets4) (pairwise akms : List Octets4) (caps : List ℕ)
    → IsU16 version
    → IsU16 (length pairwise)
    → IsU16 (length akms)
    → parse_rsn_ie (rsn_body version group pairwise akms caps) ≡ ok (map akm_of akms, has_mfp caps)
unfolding parse_rsn_ie
parse_rsn_ie-rsn_body version group pairwise akms caps v p a =
    let at_akms : List ℕ = le_bytes 2 (length akms) ++ (suites_bytes akms ++ caps) in
    let at_pairwise : List ℕ = le_bytes 2 (length pairwise) ++ (suites_bytes pairwise ++ at_akms) in
    rw
      (
        read_ie_u16-le version (octets group ++ at_pairwise) v,
        skip_all (octets group) at_pairwise 4 refl,
        skip_pairwise pairwise at_akms p,
        read_akms auth_suite_from_rsn_akm (str "malformed rsn ie") akms caps a,
      )
      refl

-- A suite of IEEE 802.11 by its number: the three bytes 00-0F-AC of the standard, then the number.
abbrev pub selector : ℕ → Octets4
selector n = record { a = 0; b = 15; c = 172; d = n }

selector_unknown : (n : ℕ) → akm_of (selector n) ≡ other_suite (le_of (octets (selector n)))
unfolding auth_suite_from_rsn_akm
selector_unknown n = ground arith

abbrev unknown : ℕ → WifiAuthSuite
unknown n = other_suite (le_of (octets (selector n)))

all_unknown : (ns : List ℕ) → map akm_of (map selector ns) ≡ map unknown ns
all_unknown [] = refl
all_unknown (n ∷ ns) = rw (selector_unknown n, all_unknown ns) refl

none_is :
    (p : WifiAuthSuite → Bool) (ns : List ℕ)
    → ((value : ℕ) → p (other_suite value) ≡ false)
    → any p (map unknown ns) ≡ false
none_is p [] h = refl
none_is p (n ∷ ns) h = rw (h (le_of (octets (selector n))), none_is p ns h) refl

-- The element: its identifier, its length and its body.
abbrev pub rsn_element : List ℕ → List ℕ
rsn_element body = ie_rsn ∷ length body ∷ body

-- A round of the loop, from what its reads return.
elements_loop_round :
    (fuel id len : ℕ) (ies body rest : List ℕ) (seen : Seen)
    → get_or ies 0 0 ≡ id
    → get_or ies 1 0 ≡ len
    → ltb (length ies) 2 ≡ false
    → ltb (length ies) (2 + len) ≡ false
    → part 2 len ies ≡ body
    → drop (2 + len) ies ≡ rest
    → elements_loop (suc fuel) ies seen ≡ (element_round id body seen >>= elements_loop fuel rest)
unfolding elements_loop
elements_loop_round fuel id len ies body rest seen i l two fits is_body is_rest =
    rw (i, l, two, fits, is_body, is_rest) refl

drop_whole : (xs : List ℕ) (n : ℕ) → length xs ≡ n → drop n xs ≡ []
drop_whole xs n h = ap (drop n) (sym (append-nil xs)) ∙ drop_all xs [] n h

-- One element, and nothing behind it.
one_element :
    (id : ℕ) (body : List ℕ) (seen seen' : Seen)
    → element_round id body seen ≡ ok seen'
    → elements_loop (length (id ∷ length body ∷ body)) (id ∷ length body ∷ body) seen ≡ ok seen'
one_element id body seen seen' e =
    elements_loop_round (suc (length body)) id (length body) (id ∷ length body ∷ body) body [] seen
      refl refl (ground arith) (ground arith) (take_whole body (length body) refl)
      (drop_whole (id ∷ length body ∷ body) (2 + length body) (omega arith))
    ∙ rw e (unfold elements_loop in refl)

not_wep : (b : Bool) → (b && false && true) ≡ false
not_wep true = refl
not_wep false = refl

-- A network whose only element is an RSN element that gives its authentication suites the way IEEE
-- 802.11 writes them, 00-0F-AC and then the number, is reported as neither WPA, WPA2, WPA3 nor
-- enterprise, and every one of its suites as unknown, whatever their numbers are.
pub parse_security-selector :
    (version : ℕ) (group : Octets4) (pairwise : List Octets4) (numbers caps : List ℕ)
    (capability : Option ℕ)
    → IsU16 version
    → IsU16 (length pairwise)
    → IsU16 (length numbers)
    → parse_security
        (rsn_element (rsn_body version group pairwise (map selector numbers) caps))
        capability
      ≡ ok (record {
        wep = false;
        wpa1 = false;
        wpa2 = false;
        wpa3 = false;
        enterprise = false;
        management_frame_protection = has_mfp caps;
        auth_suites = map (λ n. other_suite (le_of (octets (selector n)))) numbers;
      })
unfolding parse_security
parse_security-selector version group pairwise numbers caps capability v p n =
    let body = rsn_body version group pairwise (map selector numbers) caps in
    let few : IsU16 (length (map selector numbers)) =
      omega (arith, length-map numbers selector, n) in
    let read = parse_rsn_ie-rsn_body version group pairwise (map selector numbers) caps v p few in
    let seen = see_rsn nothing_seen (map akm_of (map selector numbers), has_mfp caps) in
    let round : element_round ie_rsn body nothing_seen ≡ ok seen =
      unfold element_round in rw read refl in
    rw
      (
        one_element ie_rsn body nothing_seen seen round,
        all_unknown numbers,
        none_is (λ suite. not (is_not_wpa2 suite)) numbers (λ _. refl),
        none_is is_wpa3 numbers (λ _. refl),
        none_is is_enterprise numbers (λ _. refl),
      )
      (rw (not_wep (is_private capability)) refl)
