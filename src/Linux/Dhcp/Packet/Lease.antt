-- ===== src/Linux/Dhcp/Packet/Lease.antt =====
-- src/linux/dhcp/packet.rs: the lease that an acknowledgement carries.
use network_manager_rs.Common.{
  ℕ, ◌*◌, ◌≤◌, ◌≡◌, ◌↔◌, refl, sym, ap, false, Option, none, some, List, [], ◌∷◌, Str, str, str_eq,
  str_eq_sound, str_eq_refl, take_all, replicate, Result, ok, ◌>>=◌, ◌>>◌, guard, ok_or, ltb,
  length, All, if◌then◌else◌, arith, Octets4, octets, be32, IsU32, Bool-cases, inl, inr,
}
use network_manager_rs.Common.Int.{ℤ}
use network_manager_rs.Linux.Model.{is_unspecified}
use network_manager_rs.Connection.Ip.{DhcpLease, DhcpError, malformed_packet}
use network_manager_rs.Linux.Dhcp.Packet.{
  DhcpOption, DhcpPacket, ack, parse, option_subnet_mask, option_router, option_dns,
  option_lease_time, option_server_id, option_t1, option_t2,
}
use network_manager_rs.Linux.Dhcp.Packet.Fields.{
  yiaddr, hardware_address, subnet_mask, routers, dns_servers, domain_name, server_identifier,
  lease_seconds, t1_seconds, t2_seconds, get_option, u32_option, string_option, chunks,
}
use network_manager_rs.Linux.Dhcp.Packet.RoundTrip.{u32_of-be32}
use network_manager_rs.Linux.Dhcp.Packet.Options.{IsShort}
use network_manager_rs.Linux.Dhcp.Packet.Build.{base_packet, build_reply, parse-build_reply}
use network_manager_rs.Linux.Dhcp.Packet.Netmask.{prefix_length_from_netmask}

-- The classful default where the mask is missing.
abbrev pub classful : Octets4 → Octets4
classful address =
    if ltb address.a 128
    then record { a = 255; b = 0; c = 0; d = 0 }
    else if ltb address.a 192
    then record { a = 255; b = 255; c = 0; d = 0 }
    else record { a = 255; b = 255; c = 255; d = 0 }

abbrev pub first_of {ℓ} : {A : Type ℓ} → List A → Option A
first_of [] = none
first_of (x ∷ xs) = some x

abbrev list_of {ℓ} : {A : Type ℓ} → Option A → List A
list_of none = []
list_of (some x) = x ∷ []

abbrev or_else {ℓ} : {A : Type ℓ} → Option A → A → A
or_else none d = d
or_else (some x) d = x

module _ (trimmed : List ℕ → Str) where
  -- The lease that `to_lease` builds once its checks are passed.
  abbrev pub lease_of : DhcpPacket → ℤ → Str → Octets4 → DhcpLease
  lease_of p interface_index interface_name address =
      let netmask = or_else (subnet_mask p) (classful address) in
      record {
        interface_index = interface_index;
        interface_name = interface_name;
        address = address;
        prefix_length = prefix_length_from_netmask netmask;
        netmask = netmask;
        gateway = first_of (routers p);
        dns_servers = dns_servers p;
        search_domains = list_of (domain_name trimmed p);
        server_identifier = server_identifier p;
        lease_seconds = lease_seconds p;
        t1_seconds = t1_seconds p;
        t2_seconds = t2_seconds p;
      }

  unfoldable pub to_lease : DhcpPacket → ℤ → Str → List ℕ → Result DhcpLease DhcpError
  to_lease p interface_index interface_name mac = do
    address ← ok_or (yiaddr p) (malformed_packet (str "DHCPACK carried no address"))
    guard (str_eq (hardware_address p) mac)
        (malformed_packet (str "DHCPACK addressed to another client"))
    ok (lease_of p interface_index interface_name address)

  -- `to_lease` succeeds exactly when the message carries an address and is addressed to this client,
  -- and then the lease is the one that its fields describe.
  pub to_lease_iff :
      (p : DhcpPacket) (index : ℤ) (name : Str) (mac : List ℕ) (l : DhcpLease)
      → (to_lease p index name mac ≡ ok l) ↔ (
          (is_unspecified p.yiaddr ≡ false)
          × (hardware_address p ≡ mac)
          × (l ≡ lease_of p index name p.yiaddr))
  unfolding to_lease yiaddr
  to_lease_iff p index name mac l = elim (Bool-cases (is_unspecified p.yiaddr)) [
    | inl e ↦ ((λ h. absurd (cc (rw e at h))), (λ k. absurd (cc (e, k.0))))
    | inr e ↦ elim (Bool-cases (str_eq (hardware_address p) mac)) [
      | inl f ↦ (
        (λ h. (e, str_eq_sound (hardware_address p) mac f, cc (rw (e, f) at h))),
        (λ k. rw (e, f) (ap ok (sym (k.2)))),
      )
      | inr f ↦ ((λ h. absurd (cc (rw (e, f) at h))), (λ k. absurd (cc (f, k.1, str_eq_refl mac))))
    ]
  ]

-- What a server announces beside the address.
pub record Announced : Type 0 where
  pub mask : Octets4
  pub gateway : Octets4
  pub dns : List Octets4
  pub server : Octets4
  pub seconds : ℕ
  pub t1 : ℕ
  pub t2 : ℕ

abbrev pub all_octets : List Octets4 → List ℕ
all_octets [] = []
all_octets (a ∷ rest) = a.a ∷ a.b ∷ a.c ∷ a.d ∷ all_octets rest

abbrev pub announced_options : Announced → List DhcpOption
announced_options s =
    (option_subnet_mask, octets s.mask)
    ∷ (option_router, octets s.gateway)
    ∷ (option_dns, all_octets s.dns)
    ∷ (option_server_id, octets s.server)
    ∷ (option_lease_time, be32 s.seconds)
    ∷ (option_t1, be32 s.t1)
    ∷ (option_t2, be32 s.t2)
    ∷ []

chunks-all_octets : (xs : List Octets4) → chunks (all_octets xs) ≡ xs
chunks-all_octets [] = refl
chunks-all_octets (a ∷ rest) = ap (◌∷◌ a) (chunks-all_octets rest)

length-all_octets : (xs : List Octets4) → length (all_octets xs) ≡ 4 * length xs
length-all_octets [] = refl
length-all_octets (a ∷ rest) = omega (arith, length-all_octets rest)

pub announced-IsShort : (s : Announced) → length s.dns ≤ 63 → All IsShort (announced_options s)
announced-IsShort s h = (
  omega arith,
  (
    omega arith,
    (
      omega (arith, h, length-all_octets s.dns),
      (omega arith, (omega arith, (omega arith, (omega arith, tt)))),
    ),
  ),
)

-- The acknowledgement that a server builds for a client, sent as bytes, gives the client the lease
-- that the server announced: the address, netmask, gateway, name servers, server and times. The
-- address is specified, the hardware address has six bytes, at most 63 name servers are announced,
-- and the numbers are 32-bit words.
pub ack_lease :
    (trimmed : List ℕ → Str) (xid : ℕ) (mac : List ℕ) (address : Octets4) (s : Announced)
    (index : ℤ) (name : Str)
    → IsU32 xid
    → length mac ≡ 6
    → is_unspecified address ≡ false
    → length s.dns ≤ 63
    → IsU32 s.seconds
    → IsU32 s.t1
    → IsU32 s.t2
    → (parse (build_reply ack xid mac address (announced_options s)) >>= λ p.
        to_lease trimmed p index name mac)
      ≡ ok (record {
        interface_index = index;
        interface_name = name;
        address = address;
        prefix_length = prefix_length_from_netmask s.mask;
        netmask = s.mask;
        gateway = some s.gateway;
        dns_servers = s.dns;
        search_domains = [];
        server_identifier = some s.server;
        lease_seconds = some s.seconds;
        t1_seconds = some s.t1;
        t2_seconds = some s.t2;
      })
unfolding to_lease base_packet yiaddr hardware_address subnet_mask routers dns_servers domain_name
    string_option server_identifier lease_seconds t1_seconds t2_seconds u32_option get_option
ack_lease trimmed xid mac address s index name hx hm ha hd hs h1 h2 =
    rw
      (
        parse-build_reply xid mac hx hm ack address (announced_options s) (announced-IsShort s hd),
        ha,
        take_all mac (replicate 10 0) 6 hm,
        str_eq_refl mac,
        chunks-all_octets s.dns,
        u32_of-be32 s.seconds hs,
        u32_of-be32 s.t1 h1,
        u32_of-be32 s.t2 h2,
      )
      refl
