-- ===== src/Linux/Netlink/Wire.antt =====
-- src/linux/netlink.rs: the bytes of netlink messages. Structs are `repr(C)`, sent in the byte
-- order of the machine, which is little-endian here; a flag set is the bitwise or of its flags.
use Prim.Native.Nat.{bit_or}
use network_manager_rs.Common.{
  ℕ, zero, suc, ◌+◌, ◌-◌, ◌*◌, ◌/◌, ◌%◌, Bool, List, [], ◌∷◌, length, take, drop, ltb, ◌==◌,
  if◌then◌else◌, Result, ok, err, str,
}
use network_manager_rs.Common.Int.{ℤ, pos, negsuc}
use network_manager_rs.Linux.Model.{NetlinkError, malformed_message}

-- `to_ne_bytes` of a word of `count` bytes, and `from_ne_bytes`.
abbrev pub le_bytes : ℕ → ℕ → List ℕ
le_bytes zero n = []
le_bytes (suc count) n = n % 256 ∷ le_bytes count (n / 256)

abbrev pub le_of : List ℕ → ℕ
le_of [] = 0
le_of (b ∷ bs) = b + 256 * le_of bs

-- An `i32` as its 32 bits, and back.
abbrev pub i32_bits : ℤ → ℕ
i32_bits (pos n) = n
i32_bits (negsuc n) = 4294967295 - n

abbrev pub i32_of_bits : ℕ → ℤ
i32_of_bits n = if ltb n 2147483648 then pos n else negsuc (4294967295 - n)

-- The bytes from `from` on, `count` of them.
abbrev pub part : ℕ → ℕ → List ℕ → List ℕ
part from count bytes = take count (drop from bytes)

abbrev pub nlm_f_request : ℕ
nlm_f_request = 1

abbrev pub nlm_f_ack : ℕ
nlm_f_ack = 4

abbrev pub nlm_f_replace : ℕ
nlm_f_replace = 256

abbrev pub nlm_f_excl : ℕ
nlm_f_excl = 512

abbrev pub nlm_f_dump : ℕ
nlm_f_dump = bit_or 256 512

abbrev pub nlm_f_create : ℕ
nlm_f_create = 1024

-- `flags & NLM_F_CREATE != 0`.
abbrev pub creates : ℕ → Bool
creates flags = flags / nlm_f_create % 2 == 1

abbrev pub nlmsg_error : ℕ
nlmsg_error = 2

abbrev pub nlmsg_done : ℕ
nlmsg_done = 3

abbrev pub rtm_newlink : ℕ
rtm_newlink = 16

abbrev pub rtm_dellink : ℕ
rtm_dellink = 17

abbrev pub rtm_getlink : ℕ
rtm_getlink = 18

abbrev pub rtm_newaddr : ℕ
rtm_newaddr = 20

abbrev pub rtm_deladdr : ℕ
rtm_deladdr = 21

abbrev pub rtm_getaddr : ℕ
rtm_getaddr = 22

abbrev pub rtm_newroute : ℕ
rtm_newroute = 24

abbrev pub rtm_delroute : ℕ
rtm_delroute = 25

abbrev pub rtm_getroute : ℕ
rtm_getroute = 26

abbrev pub ifla_ifname : ℕ
ifla_ifname = 3

abbrev pub ifa_address : ℕ
ifa_address = 1

abbrev pub ifa_local : ℕ
ifa_local = 2

abbrev pub rta_dst : ℕ
rta_dst = 1

abbrev pub rta_oif : ℕ
rta_oif = 4

abbrev pub rta_gateway : ℕ
rta_gateway = 5

abbrev pub rta_priority : ℕ
rta_priority = 6

abbrev pub rt_table_main : ℕ
rt_table_main = 254

abbrev pub rtprot_static : ℕ
rtprot_static = 4

abbrev pub af_inet : ℕ
af_inet = 2

abbrev pub af_inet6 : ℕ
af_inet6 = 10

-- `align(len, 4)`: the low two bits are cleared after rounding up.
abbrev pub align : ℕ → ℕ
align len = (len + 3) / 4 * 4

-- `read_unaligned::<T>`, from the size of `T` and its layout.
abbrev pub read_unaligned {ℓ} : {T : Type ℓ} → ℕ → (List ℕ → T) → List ℕ → Result T NetlinkError
read_unaligned size layout bytes =
    if ltb (length bytes) size
    then err (malformed_message (str "short structured data"))
    else ok (layout bytes)
