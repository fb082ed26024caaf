-- ===== src/Linux/Dhcp/Client/Exchange.antt =====
-- The exchange of four messages with a server.
use network_manager_rs.Common.{
  ℕ, ◌≤◌, ◌≡◌, ◌⊎◌, inl, inr, refl, ap, ◌∙◌, arith, true, false, some, List, [], ◌∷◌, ◌++◌, length,
  All, ◌==◌, ==_iff, Result, ok, err, Str, Octets4, IsU32, Bool-cases, keep,
}
use network_manager_rs.Connection.Ip.{DhcpRequest, DhcpLease, DhcpError}
use network_manager_rs.Linux.Model.{is_unspecified}
use network_manager_rs.Linux.Dhcp.Packet.{
  DhcpPacket, DhcpMessageType, ack, offer, parse, type_from_u8, type_as_u8, is_written,
}
use network_manager_rs.Linux.Dhcp.Packet.Build.{
  build_reply, build_request, build_discover, base_packet, parse-build_reply, type_option,
  unspecified,
}
use network_manager_rs.Linux.Dhcp.Packet.Fields.{message_type, get_option, yiaddr}
use network_manager_rs.Linux.Dhcp.Packet.Lease.{
  Announced, announced_options, announced-IsShort, to_lease, ack_lease,
}
use network_manager_rs.Linux.Dhcp.Packet.Netmask.{prefix_length_from_netmask}
use network_manager_rs.Linux.Dhcp.Client.{
  Round, expired, fails, datagram, Surroundings, interrupted, all_ones, wait_for_packet,
  send_packet, acquire, checked_offer, checked_ack, server_of, then_call, then_waited, Call, Waited,
}

-- A round that the wait skips: an interrupted call, or a datagram that is not of the transaction.
abbrev pub IsSkipped : ℕ → Round → Type 0
IsSkipped xid (expired) = ⊥
IsSkipped xid (fails code) = (code == interrupted) ≡ true
IsSkipped xid (datagram bytes) =
    ((e : DhcpError) × (parse bytes ≡ err e))
    ⊎ ((p : DhcpPacket) × (parse bytes ≡ ok p) × ((p.xid == xid) ≡ false))

skip_round :
    (xid : ℕ) (name : Str) (round : Round) (rounds : List Round)
    → IsSkipped xid round
    → wait_for_packet xid name (round ∷ rounds) ≡ wait_for_packet xid name rounds
unfolding wait_for_packet
skip_round xid name (expired) rounds h = absurd h
skip_round xid name (fails code) rounds h = rw h refl
skip_round xid name (datagram bytes) rounds (inl (e, h)) = elim (Bool-cases (length bytes == 0)) [
  | inl z ↦ rw z refl
  | inr z ↦ rw (z, h) refl
]
skip_round xid name (datagram bytes) rounds (inr (p, h, k)) =
    elim (Bool-cases (length bytes == 0)) [ inl z ↦ rw z refl | inr z ↦ rw (z, h, k) refl ]

skip_rounds :
    (xid : ℕ) (name : Str) (noise rounds : List Round)
    → All (IsSkipped xid) noise
    → wait_for_packet xid name (noise ++ rounds) ≡ wait_for_packet xid name rounds
skip_rounds xid name [] rounds h = refl
skip_rounds xid name (r ∷ noise) rounds h =
    skip_round xid name r (noise ++ rounds) h.0 ∙ skip_rounds xid name noise rounds h.1

some_bytes : (bytes : List ℕ) (p : DhcpPacket) → parse bytes ≡ ok p → (length bytes == 0) ≡ false
unfolding parse
some_bytes [] p h = cc
some_bytes (b ∷ bs) p h = ground arith

-- The message that a server builds, as the client parses it.
abbrev reply : DhcpMessageType → ℕ → List ℕ → Octets4 → Announced → DhcpPacket
reply t xid mac address a = record (base_packet 2 xid 0 unspecified address mac) {
  options = type_option t ∷ keep is_written (announced_options a);
}

module _ (xid : ℕ) (mac : List ℕ) (address : Octets4) (a : Announced) (name : Str) (hx : IsU32 xid)
    (hm : length mac ≡ 6) (hd : length a.dns ≤ 63) where
  parsed :
      (t : DhcpMessageType)
      → parse (build_reply t xid mac address (announced_options a)) ≡ ok (reply t xid mac address a)
  parsed t =
      parse-build_reply xid mac hx hm t address (announced_options a) (announced-IsShort a hd)

  wait_reply :
      (t : DhcpMessageType) (noise rounds : List Round)
      → All (IsSkipped xid) noise
      → wait_for_packet xid name
          (noise ++ (datagram (build_reply t xid mac address (announced_options a)) ∷ rounds))
        ≡ some (ok (reply t xid mac address a), rounds)
  wait_reply t noise rounds h =
      let ours : (xid == xid) ≡ true = (==_iff xid xid).1 refl in
      skip_rounds xid name noise _ h
      ∙ unfold wait_for_packet base_packet in rw (some_bytes _ _ (parsed t), parsed t, ours) refl

-- The lease that a server announces.
abbrev pub granted : ℕ → DhcpRequest → Octets4 → Announced → DhcpLease
granted xid request address a = record {
  interface_index = request.interface_index;
  interface_name = request.interface_name;
  address = address;
  prefix_length = prefix_length_from_netmask a.mask;
  netmask = a.mask;
  gateway = some a.gateway;
  dns_servers = a.dns;
  search_domains = [];
  server_identifier = some a.server;
  lease_seconds = some a.seconds;
  t1_seconds = some a.t1;
  t2_seconds = some a.t2;
}

sends_all :
    (s : Surroundings) (bytes : List ℕ)
    → ((message : List ℕ) → s.send_to message all_ones ≡ ok (length message))
    → send_packet s bytes all_ones ≡ ok tt
unfolding send_packet
sends_all s bytes h =
    let whole : (length bytes == length bytes) ≡ true = (==_iff _ _).1 refl in
    rw (h bytes, whole) refl

then_call_ok :
    {A B : Type 0} {r : Result A DhcpError} {a : A} (h : r ≡ ok a) (next : A → Call B)
    → then_call r next ≡ next a
then_call_ok h next = ap (λ r. then_call r next) h

then_waited_ok :
    {B : Type 0} {w : Waited} {p : DhcpPacket} {rounds : List Round} (h : w ≡ some (ok p, rounds))
    (next : DhcpPacket → List Round → Call B)
    → then_waited w next ≡ next p rounds
then_waited_ok h next = ap (λ w. then_waited w next) h

offered :
    (xid : ℕ) (mac : List ℕ) (address : Octets4) (a : Announced)
    → is_unspecified address ≡ false
    → checked_offer (reply offer xid mac address a) ≡ ok tt
unfolding message_type get_option yiaddr base_packet type_from_u8 type_as_u8
offered xid mac address a h = rw (h, h) refl

acknowledged :
    (xid : ℕ) (mac : List ℕ) (address : Octets4) (a : Announced)
    → checked_ack (message_type (reply ack xid mac address a)) ≡ ok tt
unfolding message_type get_option base_packet type_from_u8 type_as_u8
acknowledged xid mac address a = refl

-- With a server that offers an address and acknowledges the request for it, the client returns the
-- lease that the server announced, whatever else arrives in between: interrupted calls, datagrams
-- that are no messages and messages of other transactions are skipped. The client's MAC address is
-- known and has six bytes, its socket opens and takes whole messages, the deadline is not reached,
-- and the announcement is as for an acknowledgement.
pub acquire-granted :
    (trimmed : List ℕ → Str) (s : Surroundings) (request : DhcpRequest) (mac : List ℕ)
    (address : Octets4) (a : Announced) (noise noise' rest : List Round)
    → s.mac ≡ ok mac
    → s.opened ≡ ok tt
    → ((message : List ℕ) → s.send_to message all_ones ≡ ok (length message))
    → s.rounds
      ≡ noise
        ++ (datagram (build_reply offer s.xid mac address (announced_options a))
            ∷ (noise'
                ++ (datagram (build_reply ack s.xid mac address (announced_options a)) ∷ rest)))
    → All (IsSkipped s.xid) noise
    → All (IsSkipped s.xid) noise'
    → IsU32 s.xid
    → length mac ≡ 6
    → is_unspecified address ≡ false
    → length a.dns ≤ 63
    → IsU32 a.seconds
    → IsU32 a.t1
    → IsU32 a.t2
    → acquire trimmed s request ≡ some (ok (granted s.xid request address a))
unfolding acquire
acquire-granted trimmed s request mac address a noise noise' rest m o t r n n' hx hm ha hd hs h1
      h2 =
    let name = request.interface_name in
    let first = reply offer s.xid mac address a in
    let second = reply ack s.xid mac address a in
    let leased : to_lease trimmed second request.interface_index name mac
        ≡ ok (granted s.xid request address a) =
      rw (parsed s.xid mac address a name hx hm hd ack) at
        (ack_lease trimmed s.xid mac address a request.interface_index name hx hm ha hd hs h1 h2) in
    let waited =
      ap (wait_for_packet s.xid name) r
      ∙ wait_reply s.xid mac address a name hx hm hd offer noise _ n in
    then_call_ok m _
    ∙ then_call_ok o _
    ∙ then_call_ok
        (sends_all s (build_discover s.xid mac request.hostname request.requested_address) t) _
    ∙ then_waited_ok waited _
    ∙ then_call_ok (offered s.xid mac address a ha) _
    ∙ then_call_ok
        (sends_all s (build_request s.xid mac (yiaddr first) (server_of first) request.hostname) t)
        _
    ∙ then_waited_ok (wait_reply s.xid mac address a name hx hm hd ack noise' rest n') _
    ∙ then_call_ok (acknowledged s.xid mac address a) _
    ∙ ap some leased
