-- ===== src/Linux/Dhcp/Client.antt =====
-- src/linux/dhcp/mod.rs: the client, over what its socket receives.
pub mod Exchange
use network_manager_rs.Common.{
  ℕ, zero, Bool, true, false, not, ◌||◌, Option, none, some, List, [], ◌∷◌, length, ◌==◌,
  if◌then◌else◌, Result, ok, err, ◌>>=◌, guard, map_err, str, Str, Octets4,
}
use network_manager_rs.Connection.Ip.{DhcpRequest, DhcpLease, DhcpError, malformed_packet, timeout}
use network_manager_rs.Linux.Model.{is_unspecified}
use network_manager_rs.Linux.Dhcp.Packet.{DhcpPacket, DhcpMessageType, ack, nak, offer, parse}
use network_manager_rs.Linux.Dhcp.Packet.Build.{build_discover, build_request, build_release}
use network_manager_rs.Linux.Dhcp.Packet.Fields.{
  message_type, yiaddr, server_identifier, source_address,
}
use network_manager_rs.Linux.Dhcp.Packet.Lease.{to_lease}

-- What a round of `wait_for_packet` meets: the deadline, before or in `poll`; an error of `poll` or
-- `recvfrom`, by its code; or a datagram.
pub data Round : Type 0 where
  expired : Round
  fails : (code : ℕ) → Round
  datagram : List ℕ → Round

-- The client's surroundings in one call: its MAC address from sysfs, its transaction id, whether its
-- socket could be opened, what `sendto` answers for a destination, and what is met while waiting.
pub record Surroundings : Type 0 where
  pub mac : Result (List ℕ) DhcpError
  pub xid : ℕ
  pub opened : Result (Unit {0}) DhcpError
  pub send_to : List ℕ → Octets4 → Result ℕ ℕ
  pub rounds : List Round

abbrev pub all_ones : Octets4
all_ones = record { a = 255; b = 255; c = 255; d = 255 }

-- EINTR is `ErrorKind::Interrupted`.
abbrev pub interrupted : ℕ
interrupted = 4

-- What a wait returns, with the rounds that are left; `None` while it goes on.
abbrev pub Waited : Type 0
Waited = Option (Result DhcpPacket DhcpError × List Round)

-- A datagram that is no message of this transaction is skipped.
abbrev pub if_ours : ℕ → List Round → Waited → Result DhcpPacket DhcpError → Waited
if_ours xid rounds rest (ok p) = if p.xid == xid then some (ok p, rounds) else rest
if_ours xid rounds rest (err e) = rest

unfoldable pub wait_for_packet : ℕ → Str → List Round → Waited
wait_for_packet xid interface_name [] = none
wait_for_packet xid interface_name (expired ∷ rounds) = some (err (timeout interface_name), rounds)
wait_for_packet xid interface_name (fails code ∷ rounds) =
    let rest = wait_for_packet xid interface_name rounds in
    if code == interrupted then rest else some (err (DhcpError.io code), rounds)
wait_for_packet xid interface_name (datagram bytes ∷ rounds) =
    let rest = wait_for_packet xid interface_name rounds in
    if length bytes == 0 then rest else if_ours xid rounds rest (parse bytes)

unfoldable pub send_packet : Surroundings → List ℕ → Octets4 → Result (Unit {0}) DhcpError
send_packet s bytes address = map_err DhcpError.io (s.send_to bytes address) >>= λ sent.
    guard (sent == length bytes) (malformed_packet (str "short DHCP send"))

-- `None` while a call waits.
abbrev pub Call : Type 0 → Type 0
Call A = Option (Result A DhcpError)

abbrev pub then_call : {A B : Type 0} → Result A DhcpError → (A → Call B) → Call B
then_call (ok a) next = next a
then_call (err e) next = some (err e)

abbrev pub then_waited : {B : Type 0} → Waited → (DhcpPacket → List Round → Call B) → Call B
then_waited none next = none
then_waited (some (ok p, rounds)) next = next p rounds
then_waited (some (err e, rounds)) next = some (err e)

abbrev pub is_offer : DhcpMessageType → Bool
is_offer offer = true
is_offer _ = false

abbrev pub is_usable : Option Octets4 → Bool
is_usable none = false
is_usable (some address) = not (is_unspecified address)

abbrev pub checked_offer : DhcpPacket → Result (Unit {0}) DhcpError
checked_offer p =
    if not (is_offer (message_type p))
    then err (malformed_packet (str "expected a DHCPOFFER in response to DISCOVER"))
    else guard (is_usable (yiaddr p)) (malformed_packet (str "DHCPOFFER carried no usable address"))

abbrev pub checked_ack : DhcpMessageType → Result (Unit {0}) DhcpError
checked_ack ack = ok tt
checked_ack nak = err (malformed_packet (str "server returned DHCPNAK"))
checked_ack _ = err (malformed_packet (str "expected a DHCPACK in response to REQUEST"))

abbrev pub server_of : DhcpPacket → Option Octets4
server_of p = elim (server_identifier p) [ none ↦ source_address p | some a ↦ some a ]

-- `trimmed` is as for the readers of text options.
module _ (trimmed : List ℕ → Str) (s : Surroundings) where
  -- From the acknowledgement on.
  abbrev pub finish : DhcpRequest → List ℕ → DhcpPacket → List Round → Call DhcpLease
  finish request mac p rounds =
      then_call (checked_ack (message_type p))
        λ _. some (to_lease trimmed p request.interface_index request.interface_name mac)

  -- From the offer on.
  abbrev pub accept_offer : DhcpRequest → List ℕ → DhcpPacket → List Round → Call DhcpLease
  accept_offer request mac p rounds = then_call (checked_offer p) λ _.
      then_call
        (send_packet s (build_request s.xid mac (yiaddr p) (server_of p) request.hostname) all_ones)
        λ _. then_waited (wait_for_packet s.xid request.interface_name rounds) (finish request mac)

  unfoldable pub acquire : DhcpRequest → Call DhcpLease
  acquire request = then_call s.mac λ mac. then_call s.opened λ _.
      then_call
        (send_packet s (build_discover s.xid mac request.hostname request.requested_address)
          all_ones)
        λ _.
          then_waited (wait_for_packet s.xid request.interface_name s.rounds)
            (accept_offer request mac)

abbrev pub server_or_all : Option Octets4 → Octets4
server_or_all none = all_ones
server_or_all (some address) = address

unfoldable pub release : Surroundings → DhcpLease → Result (Unit {0}) DhcpError
release s lease = s.mac >>= λ mac. s.opened >>= λ _.
    let server = server_or_all lease.server_identifier in
    send_packet s (build_release s.xid mac lease.address server) server
