-- ===== src/Linux/Tests/Messages.antt =====
-- DHCP messages of one exchange.
use network_manager_rs.Common.{
  ℕ, ◌≡◌, refl, some, List, [], ◌∷◌, replicate, keep, str, ok, arith, Octets4, ◌>>=◌,
}
use network_manager_rs.Common.Int.{pos}
use network_manager_rs.Linux.Dhcp.Packet.{DhcpPacket, ack, serialize, parse, is_written}
use network_manager_rs.Linux.Dhcp.Packet.RoundTrip.{IsPacket, parse-serialize}
use network_manager_rs.Linux.Dhcp.Packet.Build.{unspecified, build_reply}
use network_manager_rs.Linux.Dhcp.Packet.Lease.{Announced, announced_options, to_lease, ack_lease}
use network_manager_rs.Linux.Dhcp.Packet.Netmask.{prefix_length_from_netmask, leading_ones}

abbrev mac : List ℕ
mac = 2 ∷ 0 ∷ 0 ∷ 0 ∷ 0 ∷ 1 ∷ []

abbrev host : ℕ → Octets4
host n = record { a = 192; b = 168; c = 1; d = n }

abbrev packet : DhcpPacket
packet = record {
  op = 1;
  xid = 305419896;
  flags = 32768;
  ciaddr = unspecified;
  yiaddr = host 7;
  siaddr = unspecified;
  giaddr = unspecified;
  chaddr = 2 ∷ 0 ∷ 0 ∷ 0 ∷ 0 ∷ 1 ∷ 0 ∷ 0 ∷ 0 ∷ 0 ∷ 0 ∷ 0 ∷ 0 ∷ 0 ∷ 0 ∷ 0 ∷ [];
  sname = replicate 64 0;
  file = replicate 128 0;
  options = (53, 1 ∷ []) ∷ (0, []) ∷ (12, str "laptop") ∷ [];
}

packet-IsPacket : IsPacket packet
packet-IsPacket = record {
  xid_fits = omega arith;
  flags_fit = omega arith;
  chaddr_size = refl;
  sname_size = refl;
  file_size = refl;
  short = (omega arith, (omega arith, (omega arith, tt)));
}

parse-serialize_example :
    parse (serialize packet) ≡ ok (record packet { options = keep is_written packet.options })
parse-serialize_example = parse-serialize packet packet-IsPacket

abbrev announced : Announced
announced = record {
  mask = record { a = 255; b = 255; c = 255; d = 0 };
  gateway = host 1;
  dns = host 1 ∷ host 2 ∷ [];
  server = host 1;
  seconds = 3600;
  t1 = 1800;
  t2 = 3150;
}

ack_lease_example :
    (parse (build_reply ack 7 mac (host 7) (announced_options announced)) >>= λ p.
    to_lease (λ s. s) p (pos 2) (str "wlan0") mac)
    ≡ ok (record {
      interface_index = pos 2;
      interface_name = str "wlan0";
      address = host 7;
      prefix_length = prefix_length_from_netmask announced.mask;
      netmask = announced.mask;
      gateway = some (host 1);
      dns_servers = host 1 ∷ host 2 ∷ [];
      search_domains = [];
      server_identifier = some (host 1);
      lease_seconds = some 3600;
      t1_seconds = some 1800;
      t2_seconds = some 3150;
    })
ack_lease_example =
    ack_lease (λ s. s) 7 mac (host 7) announced (pos 2) (str "wlan0") (omega arith) refl refl
      (omega arith) (omega arith) (omega arith) (omega arith)

-- A netmask with a gap: the set bits in front of each octet's first gap are added up.
gap : prefix_length_from_netmask (record { a = 255; b = 0; c = 255; d = 0 }) ≡ 16
unfolding prefix_length_from_netmask leading_ones
gap = refl
