-- ===== src/Linux/Tests/Networks.antt =====
-- Networks as nl80211 and their own information elements describe them.
use network_manager_rs.Common.{
  ℕ, ◌≡◌, refl, arith, true, false, some, none, List, [], ◌∷◌, map, ok, octets,
}
use network_manager_rs.Linux.Model.Wireless.{other_suite, AccessPointSecurity, AccessPoint}
use network_manager_rs.Linux.Netlink.Wire.{le_of}
use network_manager_rs.Linux.Netlink.Structs.{Attr}
use network_manager_rs.Linux.Nl80211.Codec.{RawAttr, parse_attrs}
use network_manager_rs.Linux.Nl80211.Elements.{
  parse_security, has_mfp, elements_loop, element_round, ssid_from_ies, ssid_loop,
}
use network_manager_rs.Linux.Netlink.Attributes.{attrs_loop}
use network_manager_rs.Linux.Nl80211.Readers.{
  read_mac, read_u32, read_u16, read_i32, read_u8, read_ssid,
}
use network_manager_rs.Linux.Nl80211.Security.{parse_security-wep}
use network_manager_rs.Linux.Nl80211.Rsn.{selector, rsn_body, rsn_element, parse_security-selector}
use network_manager_rs.Linux.Nl80211.Radios.{bss_from_attrs}
use network_manager_rs.Linux.Nl80211.Bounds.{IsReported, bss_from_attrs-IsReported}

-- A scan of the interface with index 3.
abbrev attrs : List Attr
attrs = (3, 3 ∷ 0 ∷ 0 ∷ 0 ∷ []) ∷ []

-- An old network: its name, and the privacy bit.
abbrev old_elements : List ℕ
old_elements = 0 ∷ 2 ∷ 104 ∷ 105 ∷ []

abbrev old_security : AccessPointSecurity
old_security = record {
  wep = true;
  wpa1 = false;
  wpa2 = false;
  wpa3 = false;
  enterprise = false;
  management_frame_protection = false;
  auth_suites = [];
}

old_found : parse_security old_elements (some 17) ≡ ok old_security
unfolding parse_security elements_loop element_round
old_found = refl

parse_security-wep_example :
    (old_security.wpa1 ≡ false)
    × (old_security.wpa2 ≡ false)
    × (old_security.wpa3 ≡ false)
    × (old_security.enterprise ≡ false)
    × (old_security.management_frame_protection ≡ false)
    × (old_security.auth_suites ≡ [])
parse_security-wep_example = parse_security-wep old_elements (some 17) old_security old_found refl

-- A WPA2 network with a pre-shared key, as its access point announces it.
parse_security-selector_example :
    parse_security
      (rsn_element
        (rsn_body 1 (selector 4) (selector 4 ∷ []) (map selector (2 ∷ [])) (128 ∷ 0 ∷ [])))
      (some 17)
    ≡ ok (record {
      wep = false;
      wpa1 = false;
      wpa2 = false;
      wpa3 = false;
      enterprise = false;
      management_frame_protection = has_mfp (128 ∷ 0 ∷ []);
      auth_suites = map (λ n. other_suite (le_of (octets (selector n)))) (2 ∷ []);
    })
parse_security-selector_example =
    parse_security-selector 1 (selector 4) (selector 4 ∷ []) (2 ∷ []) (128 ∷ 0 ∷ []) (some 17)
      (omega arith) (omega arith) (omega arith)

-- The same network as the kernel lists it, with its address.
abbrev listed : List RawAttr
listed =
    record {
      typ = 47;
      nested = true;
      payload =
          10 ∷ 0 ∷ 1 ∷ 0 ∷ 2 ∷ 0 ∷ 0 ∷ 0 ∷ 0 ∷ 1 ∷ 0 ∷ 0 ∷ 8 ∷ 0 ∷ 6 ∷ 0 ∷ 0 ∷ 2 ∷ 104 ∷ 105 ∷ [];
    }
    ∷ []

abbrev point : AccessPoint
point = record {
  bssid = some (2 ∷ 0 ∷ 0 ∷ 0 ∷ 0 ∷ 1 ∷ []);
  ssid = some (104 ∷ 105 ∷ []);
  frequency = none;
  channel = none;
  signal_dbm = none;
  signal_unspecified = none;
  capability = none;
  security = record old_security { wep = false };
  seen_millis_ago = none;
}

reported : bss_from_attrs listed ≡ ok (some point)
unfolding bss_from_attrs parse_attrs attrs_loop read_mac read_u32 read_u16 read_i32 read_u8
    read_ssid ssid_from_ies ssid_loop parse_security elements_loop element_round
reported = refl

bss_from_attrs-IsReported_example : IsReported point
bss_from_attrs-IsReported_example = bss_from_attrs-IsReported listed point reported
