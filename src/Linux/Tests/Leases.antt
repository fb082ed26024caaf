-- ===== src/Linux/Tests/Leases.antt =====
-- A lease from a server that answers between messages of others.
use network_manager_rs.Common.{
  ℕ, ◌≡◌, refl, arith, inl, some, none, List, [], ◌∷◌, str, length, ok, Octets4,
}
use network_manager_rs.Common.Int.{pos}
use network_manager_rs.Connection.Ip.{DhcpRequest}
use network_manager_rs.Linux.Dhcp.Packet.{ack, offer, parse}
use network_manager_rs.Linux.Dhcp.Packet.Build.{build_reply}
use network_manager_rs.Linux.Dhcp.Packet.Lease.{Announced, announced_options}
use network_manager_rs.Linux.Dhcp.Client.{Surroundings, fails, datagram, acquire}
use network_manager_rs.Linux.Dhcp.Client.Exchange.{granted, acquire-granted, IsSkipped}

abbrev host : ℕ → Octets4
host n = record { a = 10; b = 0; c = 0; d = n }

abbrev mac : List ℕ
mac = 2 ∷ 0 ∷ 0 ∷ 0 ∷ 0 ∷ 9 ∷ []

abbrev announced : Announced
announced = record {
  mask = record { a = 255; b = 255; c = 255; d = 0 };
  gateway = host 1;
  dns = host 1 ∷ [];
  server = host 1;
  seconds = 3600;
  t1 = 1800;
  t2 = 3150;
}

abbrev request : DhcpRequest
request = record {
  interface_index = pos 2;
  interface_name = str "eth0";
  hostname = none;
  requested_address = none;
  timeout = 0;
}

-- A datagram that is too short for a message, then the offer; an interrupted call, then the rest.
abbrev surroundings : Surroundings
surroundings = record {
  mac = ok mac;
  xid = 77;
  opened = ok tt;
  send_to = λ bytes to. ok (length bytes);
  rounds =
      datagram (1 ∷ [])
      ∷ datagram (build_reply offer 77 mac (host 20) (announced_options announced))
      ∷ fails 4
      ∷ datagram (build_reply ack 77 mac (host 20) (announced_options announced))
      ∷ [];
}

too_short : IsSkipped 77 (datagram (1 ∷ []))
unfolding parse
too_short = inl (_, refl)

acquire-granted_example :
    acquire (λ bytes. bytes) surroundings request
    ≡ some (ok (granted 77 request (host 20) announced))
acquire-granted_example =
    acquire-granted (λ bytes. bytes) surroundings request mac (host 20) announced
      (datagram (1 ∷ []) ∷ []) (fails 4 ∷ []) [] refl refl (λ message. refl) refl (too_short, tt)
      (refl, tt) (omega arith) refl refl (omega arith) (omega arith) (omega arith) (omega arith)
