-- ===== src/Linux/Nl80211/Elements.antt =====
-- src/linux/nl80211.rs: the information elements of a network, and its security. Where the code
-- moves an offset through a slice, the model drops what lies before it.
use network_manager_rs.Common.{
  ℕ, zero, suc, ◌+◌, ◌*◌, ◌/◌, ◌%◌, Bool, true, false, not, ◌&&◌, ◌||◌, Option, none, some, List,
  [], ◌∷◌, ◌++◌, length, take, drop, get_or, any, leb, ltb, ◌==◌, str_eq, if◌then◌else◌, Result, ok,
  ◌>>=◌, str, Str,
}
use network_manager_rs.Linux.Model.{NetlinkError}
use network_manager_rs.Linux.Model.Wireless.{
  WifiAuthSuite, auth_suite_from_rsn_akm, wpa1_psk, wpa18021x, rsn8021x, rsn_ft8021x,
  rsn8021x_sha256, rsn_sae, rsn_sae_ft, rsn_suite_b, rsn_suite_b192, rsn_ft8021x_sha384, rsn_owe,
  rsn_ft_psk_sha384, rsn_psk_sha384, rsn_pasn, other_suite, AccessPointSecurity,
}
use network_manager_rs.Linux.Netlink.Wire.{le_of, part}
use network_manager_rs.Linux.Netlink.Parse.{malformed}
use network_manager_rs.Linux.Nl80211.Readers.{ssid_from_bytes}

abbrev pub ie_ssid : ℕ
ie_ssid = 0

abbrev pub ie_rsn : ℕ
ie_rsn = 48

abbrev pub ie_vendor : ℕ
ie_vendor = 221

abbrev pub wpa_oui : List ℕ
wpa_oui = 0 ∷ 80 ∷ 242 ∷ []

abbrev pub wpa_oui_type : ℕ
wpa_oui_type = 1

abbrev pub element_text : Str
element_text = str "malformed information element"

-- `skip_ie_bytes`: what is left behind them.
unfoldable pub skip_ie_bytes : ℕ → List ℕ → Result (List ℕ) NetlinkError
skip_ie_bytes count body =
    if ltb (length body) count then malformed element_text else ok (drop count body)

-- `read_ie_u16`: the value, and what is left behind it.
unfoldable pub read_ie_u16 : List ℕ → Result (ℕ × List ℕ) NetlinkError
read_ie_u16 body =
    if ltb (length body) 2 then malformed element_text else ok (le_of (take 2 body), drop 2 body)

unfoldable pub skip_ie_counted : ℕ → List ℕ → Result (List ℕ) NetlinkError
skip_ie_counted element_size body =
    read_ie_u16 body >>= λ counted. skip_ie_bytes (counted.0 * element_size) counted.1

-- `for _ in 0..count`: four bytes each, read as `u32::from_le_bytes`.
unfoldable pub read_suites :
    (ℕ → WifiAuthSuite) → Str → ℕ → List ℕ → Result (List WifiAuthSuite × List ℕ) NetlinkError
read_suites suite text zero body = ok ([], body)
read_suites suite text (suc count) body =
    let rest : Result (List WifiAuthSuite × List ℕ) NetlinkError =
      read_suites suite text count (drop 4 body) in
    if ltb (length body) 4
    then malformed text
    else rest >>= λ read. ok (suite (le_of (take 4 body)) ∷ read.0, read.1)

-- A counted list of suites, whose length is tested first.
abbrev pub counted_suites :
    (ℕ → WifiAuthSuite) → Str → List ℕ → Result (List WifiAuthSuite × List ℕ) NetlinkError
counted_suites suite text body = read_ie_u16 body >>= λ counted.
    if ltb (length counted.1) (counted.0 * 4)
    then malformed text
    else read_suites suite text counted.0 counted.1

-- `capabilities & RSN_CAPABILITY_MFP != 0`, of the two bytes behind the suites.
abbrev pub has_mfp : List ℕ → Bool
has_mfp body = leb 2 (length body) && not (le_of (take 2 body) / 64 % 4 == 0)

unfoldable pub parse_rsn_ie : List ℕ → Result (List WifiAuthSuite × Bool) NetlinkError
parse_rsn_ie body = read_ie_u16 body >>= λ version. skip_ie_bytes 4 version.1 >>= λ at_pairwise.
    skip_ie_counted 4 at_pairwise >>= λ at_akms.
    counted_suites auth_suite_from_rsn_akm (str "malformed rsn ie") at_akms >>= λ read.
    ok (read.0, has_mfp read.1)

abbrev pub wpa_suite : ℕ → WifiAuthSuite
wpa_suite value =
    if value == 1 then wpa18021x else if value == 2 then wpa1_psk else other_suite value

unfoldable pub parse_wpa_ie : List ℕ → Result (List WifiAuthSuite) NetlinkError
parse_wpa_ie body = skip_ie_bytes 2 body >>= λ at_group. skip_ie_bytes 4 at_group >>= λ at_pairwise.
    skip_ie_counted 4 at_pairwise >>= λ at_auth.
    counted_suites wpa_suite (str "malformed wpa ie") at_auth >>= λ read. ok read.0

-- The variables that the loop of `parse_security` fills in.
pub record Seen : Type 0 where
  pub auth_suites : List WifiAuthSuite
  pub rsn_seen : Bool
  pub wpa_seen : Bool
  pub management_frame_protection : Bool

abbrev pub nothing_seen : Seen
nothing_seen = record {
  auth_suites = [];
  rsn_seen = false;
  wpa_seen = false;
  management_frame_protection = false;
}

abbrev pub see_rsn : Seen → List WifiAuthSuite × Bool → Seen
see_rsn seen (suites, mfp) = record seen {
  auth_suites = seen.auth_suites ++ suites;
  rsn_seen = true;
  management_frame_protection = seen.management_frame_protection || mfp;
}

abbrev pub see_wpa : Seen → List WifiAuthSuite → Seen
see_wpa seen suites = record seen { auth_suites = seen.auth_suites ++ suites; wpa_seen = true }

abbrev pub is_wpa : List ℕ → Bool
is_wpa body = leb 4 (length body) && str_eq (take 3 body) wpa_oui && get_or body 3 0 == wpa_oui_type

unfoldable pub element_round : ℕ → List ℕ → Seen → Result Seen NetlinkError
element_round id body seen =
    if id == ie_rsn
    then (parse_rsn_ie body >>= λ read. ok (see_rsn seen read))
    else if id == ie_vendor && is_wpa body
    then (parse_wpa_ie (drop 4 body) >>= λ suites. ok (see_wpa seen suites))
    else ok seen

-- `while offset + 2 <= ies.len()`, on the bytes from `offset` on: an identifier, a length, the body.
unfoldable pub elements_loop : ℕ → List ℕ → Seen → Result Seen NetlinkError
elements_loop zero ies seen = ok seen
elements_loop (suc fuel) ies seen =
    let len = get_or ies 1 0 in
    let rest : Seen → Result Seen NetlinkError = elements_loop fuel (drop (2 + len) ies) in
    if ltb (length ies) 2
    then ok seen
    else if ltb (length ies) (2 + len)
    then malformed element_text
    else element_round (get_or ies 0 0) (part 2 len ies) seen >>= rest

abbrev pub is_wpa3 : WifiAuthSuite → Bool
is_wpa3 rsn_sae = true
is_wpa3 rsn_sae_ft = true
is_wpa3 rsn_owe = true
is_wpa3 rsn_psk_sha384 = true
is_wpa3 rsn_ft8021x_sha384 = true
is_wpa3 rsn_ft_psk_sha384 = true
is_wpa3 rsn_suite_b192 = true
is_wpa3 rsn_pasn = true
is_wpa3 _ = false

-- What the `matches!` of `wpa2` leaves out.
abbrev pub is_not_wpa2 : WifiAuthSuite → Bool
is_not_wpa2 rsn_sae = true
is_not_wpa2 rsn_sae_ft = true
is_not_wpa2 rsn_owe = true
is_not_wpa2 rsn_pasn = true
is_not_wpa2 (other_suite value) = true
is_not_wpa2 _ = false

abbrev pub is_enterprise : WifiAuthSuite → Bool
is_enterprise wpa18021x = true
is_enterprise rsn8021x = true
is_enterprise rsn_ft8021x = true
is_enterprise rsn8021x_sha256 = true
is_enterprise rsn_ft8021x_sha384 = true
is_enterprise rsn_suite_b = true
is_enterprise rsn_suite_b192 = true
is_enterprise _ = false

-- `cap & BSS_CAPABILITY_PRIVACY != 0`; without a capability field, no.
abbrev pub is_private : Option ℕ → Bool
is_private none = false
is_private (some cap) = cap / 16 % 2 == 1

abbrev pub security_of : Option ℕ → Seen → AccessPointSecurity
security_of capability seen = record {
  wep = is_private capability && not seen.rsn_seen && not seen.wpa_seen;
  wpa1 = seen.wpa_seen;
  wpa2 = seen.rsn_seen && any (λ suite. not (is_not_wpa2 suite)) seen.auth_suites;
  wpa3 = any is_wpa3 seen.auth_suites;
  enterprise = any is_enterprise seen.auth_suites;
  management_frame_protection = seen.management_frame_protection;
  auth_suites = seen.auth_suites;
}

unfoldable pub parse_security : List ℕ → Option ℕ → Result AccessPointSecurity NetlinkError
parse_security ies capability =
    elements_loop (length ies) ies nothing_seen >>= λ seen. ok (security_of capability seen)

unfoldable pub ssid_loop : ℕ → List ℕ → Option (List ℕ)
ssid_loop zero ies = none
ssid_loop (suc fuel) ies =
    let len = get_or ies 1 0 in
    let rest = ssid_loop fuel (drop (2 + len) ies) in
    if ltb (length ies) 2
    then none
    else if ltb (length ies) (2 + len)
    then none
    else if get_or ies 0 0 == ie_ssid
    then ssid_from_bytes (part 2 len ies)
    else rest

unfoldable pub ssid_from_ies : List ℕ → Option (List ℕ)
ssid_from_ies ies = ssid_loop (length ies) ies
