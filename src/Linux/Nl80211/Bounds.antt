-- ===== src/Linux/Nl80211/Bounds.antt =====
-- The sizes of the names and addresses that a network is reported with.
use mathlib.Core.Path.{subst}
use network_manager_rs.Common.{
  ℕ, zero, suc, ◌+◌, ◌≤◌, ◌≡◌, ap, ◌∙◌, Option, none, some, List, length, drop, ltb, leb, leb→le,
  ◌==◌, ==_iff, if◌then◌else◌, Result, ok, bind_ok, ok_injective, Bool-cases, Option-cases, inl,
  inr, get_or, str,
}
use network_manager_rs.Linux.Model.{NetlinkError}
use network_manager_rs.Linux.Model.Wireless.{AccessPoint}
use network_manager_rs.Linux.Netlink.Wire.{part}
use network_manager_rs.Linux.Netlink.Parse.{malformed}
use network_manager_rs.Linux.IpConfig.Values.{IsSome}
use network_manager_rs.Linux.Nl80211.Codec.{RawAttr, parse_attrs}
use network_manager_rs.Linux.Nl80211.Readers.{
  read_bytes, if_there, fixed, ssid_from_bytes, read_ssid, read_mac, read_u32, read_u16, read_i32,
  read_u8,
}
use network_manager_rs.Linux.Nl80211.Elements.{ssid_loop, ssid_from_ies, parse_security, ie_ssid}
use network_manager_rs.Linux.Nl80211.Radios.{
  or_this, and_then, point_in, access_point, bss_from_attrs, bytes_or_none,
}

-- An SSID has 32 bytes at most, an address six.
abbrev pub IsName : List ℕ → Type 0
IsName bytes = length bytes ≤ 32

abbrev pub IsMac : List ℕ → Type 0
IsMac bytes = length bytes ≡ 6

pub record IsReported (point : AccessPoint) : Type 0 where
  pub ssid_ok : IsSome IsName point.ssid
  pub bssid_ok : IsSome IsMac point.bssid

ssid_from_bytes-IsName : (bytes : List ℕ) → IsSome IsName (ssid_from_bytes bytes)
ssid_from_bytes-IsName bytes = elim (Bool-cases (leb (length bytes) 32)) [
  | inl e ↦ rw e (leb→le (length bytes) 32 e)
  | inr e ↦ rw e tt
]

ssid_loop-IsName : (fuel : ℕ) (ies : List ℕ) → IsSome IsName (ssid_loop fuel ies)
unfolding ssid_loop
ssid_loop-IsName zero ies = tt
ssid_loop-IsName (suc fuel) ies = elim (Bool-cases (ltb (length ies) 2)) [
  | inl a ↦ rw a tt
  | inr a ↦ elim (Bool-cases (ltb (length ies) (2 + get_or ies 1 0))) [
    | inl b ↦ rw (a, b) tt
    | inr b ↦ elim (Bool-cases (get_or ies 0 0 == ie_ssid)) [
      | inl c ↦ rw (a, b, c) (ssid_from_bytes-IsName (part 2 (get_or ies 1 0) ies))
      | inr c ↦ rw (a, b, c) (ssid_loop-IsName fuel (drop (2 + get_or ies 1 0) ies))
    ]
  ]
]

there-IsSome :
    {A : Type 0} (P : A → Type 0) (read : List ℕ → Result (Option A) NetlinkError)
    (there : Option (List ℕ)) (o : Option A)
    → ((bytes : List ℕ) (o : Option A) → read bytes ≡ ok o → IsSome P o)
    → if_there read there ≡ ok o
    → IsSome P o
there-IsSome P read none o h e = let same : none ≡ o = cc e in subst (IsSome P) same tt
there-IsSome P read (some bytes) o h e = h bytes o e

read_ssid-IsName :
    (attrs : List RawAttr) (typ : ℕ) (o : Option (List ℕ))
    → read_ssid attrs typ ≡ ok o
    → IsSome IsName o
unfolding read_ssid
read_ssid-IsName attrs typ o e = there-IsSome IsName _ (read_bytes attrs typ) o ssid_read e
  where
    ssid_read :
        (bytes : List ℕ) (o : Option (List ℕ))
        → (if ltb 32 (length bytes)
            then malformed (str "invalid ssid length")
            else ok (ssid_from_bytes bytes))
          ≡ ok o
        → IsSome IsName o
    ssid_read bytes o e = elim (Bool-cases (ltb 32 (length bytes))) [
      | inl a ↦ absurd (cc (rw a at e))
      | inr a ↦
          let same : ok (ssid_from_bytes bytes) ≡ ok o = rw a at e in
          subst (IsSome IsName) (cc same) (ssid_from_bytes-IsName bytes)
    ]

read_mac-IsMac :
    (attrs : List RawAttr) (typ : ℕ) (o : Option (List ℕ))
    → read_mac attrs typ ≡ ok o
    → IsSome IsMac o
unfolding read_mac
read_mac-IsMac attrs typ o e = there-IsSome IsMac _ (read_bytes attrs typ) o mac_read e
  where
    mac_read :
        (bytes : List ℕ) (o : Option (List ℕ))
        → fixed 6 (str "invalid mac attribute length") (λ bytes. bytes) bytes ≡ ok o
        → IsSome IsMac o
    mac_read bytes o e = elim (Bool-cases (length bytes == 6)) [
      | inl a ↦
          let same : ok (some bytes) ≡ ok o = rw a at e in
          let is : some bytes ≡ o = cc same in
          subst (IsSome IsMac) is ((==_iff (length bytes) 6).0 a)
      | inr a ↦ absurd (cc (rw a at e))
    ]

or_this-IsSome :
    {A : Type 0} (P : A → Type 0) (a b : Option A)
    → IsSome P a
    → IsSome P b
    → IsSome P (or_this a b)
or_this-IsSome P none b h k = k
or_this-IsSome P (some a) b h k = h

and_then-IsName : (ies : Option (List ℕ)) → IsSome IsName (and_then ssid_from_ies ies)
unfolding ssid_from_ies
and_then-IsName none = tt
and_then-IsName (some bytes) = ssid_loop-IsName (length bytes) bytes

access_point-IsReported :
    (attrs bss : List RawAttr) (point : AccessPoint)
    → access_point attrs bss ≡ ok point
    → IsReported point
access_point-IsReported attrs bss point e =
    let (bssid, is_bssid, e1) = bind_ok (read_mac bss 1) _ point e in
    let (frequency, _, e2) = bind_ok (read_u32 bss 2) _ point e1 in
    let (capability, _, e3) = bind_ok (read_u16 bss 5) _ point e2 in
    let (signal, _, e4) = bind_ok (read_i32 bss 7) _ point e3 in
    let (unspecified, _, e5) = bind_ok (read_u8 bss 8) _ point e4 in
    let (seen, _, e6) = bind_ok (read_u32 bss 10) _ point e5 in
    let (ssid, is_ssid, e7) = bind_ok (read_ssid attrs 52) _ point e6 in
    let ies = or_this (read_bytes bss 6) (read_bytes bss 11) in
    let (security, _, e8) = bind_ok (parse_security (bytes_or_none ies) capability) _ point e7 in
    subst IsReported (ok_injective _ point e8) (record {
      ssid_ok =
          or_this-IsSome IsName ssid _ (read_ssid-IsName attrs 52 ssid is_ssid)
            (and_then-IsName ies);
      bssid_ok = read_mac-IsMac bss 1 bssid is_bssid;
    })

-- A network that is reported has a name of at most 32 bytes, if it has one, whether the kernel gives
-- the name or an information element does, and an address of exactly six bytes, if it has one.
pub bss_from_attrs-IsReported :
    (attrs : List RawAttr) (point : AccessPoint)
    → bss_from_attrs attrs ≡ ok (some point)
    → IsReported point
unfolding bss_from_attrs
bss_from_attrs-IsReported attrs point e = elim (Option-cases (read_bytes attrs 47)) [
  | inl n ↦ absurd (cc (rw n at e))
  | inr (payload, n) ↦
      let read : point_in attrs (some payload) ≡ ok (some point) = rw n at e in
      let (bss, _, e1) = bind_ok (parse_attrs payload) _ (some point) read in
      let (found, is_found, e2) = bind_ok (access_point attrs bss) _ (some point) e1 in
      let same : some found ≡ some point = ok_injective _ _ e2 in
      let is : found ≡ point = cc same in
      access_point-IsReported attrs bss point (is_found ∙ ap ok is)
]
