-- ===== src/Linux/Dhcp/Packet/Netmask.antt =====
-- src/linux/dhcp/packet.rs: the prefix length of a netmask.
use network_manager_rs.Common.{
  ℕ, zero, suc, ◌+◌, ◌-◌, ◌*◌, ◌/◌, ◌%◌, ◌^◌, ◌≤◌, ◌≡◌, refl, true, leb, ◌==◌, arith, if◌then◌else◌,
  Octets4, all_below, all_below_sound,
}

-- `u8::leading_ones`, over the bits that are left.
unfoldable pub leading_ones : ℕ → ℕ → ℕ
leading_ones zero byte = 0
leading_ones (suc bits) byte =
    let rest = leading_ones bits (byte * 2 % 256) in if leb 128 byte then suc rest else 0

unfoldable pub prefix_length_from_netmask : Octets4 → ℕ
prefix_length_from_netmask m =
    leading_ones 8 m.a + leading_ones 8 m.b + leading_ones 8 m.c + leading_ones 8 m.d

-- The netmask whose n highest bits are set.
abbrev pub netmask_of : ℕ → Octets4
netmask_of n =
    let bits = 2 ^ 32 - 2 ^ (32 - n) in
    record {
      a = bits / 16777216 % 256;
      b = bits / 65536 % 256;
      c = bits / 256 % 256;
      d = bits % 256;
    }

leading_ones_bound : (bits byte : ℕ) → leading_ones bits byte ≤ bits
unfolding leading_ones
leading_ones_bound zero byte = omega arith
leading_ones_bound (suc bits) byte = ground (arith, leading_ones_bound bits (byte * 2 % 256))

-- The prefix length is at most 32, whatever the netmask.
pub prefix_length_bound : (m : Octets4) → prefix_length_from_netmask m ≤ 32
unfolding prefix_length_from_netmask
prefix_length_bound m = omega (
  arith,
  leading_ones_bound 8 m.a,
  leading_ones_bound 8 m.b,
  leading_ones_bound 8 m.c,
  leading_ones_bound 8 m.d,
)

checked : all_below 33 (λ n. prefix_length_from_netmask (netmask_of n) == n) ≡ true
unfolding prefix_length_from_netmask leading_ones
checked = refl

-- The prefix length of the netmask with the n highest bits set is n, for every n up to 32.
pub prefix_length-netmask_of : (n : ℕ) → n ≤ 32 → prefix_length_from_netmask (netmask_of n) ≡ n
prefix_length-netmask_of n h =
    ground
      (arith, all_below_sound 33 (λ n. prefix_length_from_netmask (netmask_of n) == n) n checked)
