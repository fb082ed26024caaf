-- ===== src/Linux/Dhcp/Packet/RoundTrip.antt =====
-- A message written by `serialize` and read back by `parse`.
use network_manager_rs.Common.{
  ℕ, zero, suc, ◌+◌, ◌≤◌, ◌≡◌, refl, ap, ◌∙◌, false, List, [], ◌∷◌, ◌++◌, append-nil, ok, length,
  length-append, drop, take_all, drop_all, keep, All, arith, ltb, str_eq_refl, IsU16, IsU32, be16,
  be32,
}
use network_manager_rs.Linux.Dhcp.Packet.{
  DhcpPacket, is_written, build_options, serialize_with_options, serialize, parse, magic_cookie,
  options_offset, u16_of, u32_of,
}
use network_manager_rs.Linux.Dhcp.Packet.Options.{IsShort, parse_options-build}

-- The sizes that the types of the fields give, and options whose length fits a byte.
pub record IsPacket (p : DhcpPacket) : Type 0 where
  pub xid_fits : IsU32 p.xid
  pub flags_fit : IsU16 p.flags
  pub chaddr_size : length p.chaddr ≡ 16
  pub sname_size : length p.sname ≡ 64
  pub file_size : length p.file ≡ 128
  pub short : All IsShort p.options

drop_more :
    {A : Type 0} (xs ys : List A) (n m k : ℕ)
    → length xs ≡ n
    → n + m ≡ k
    → drop k (xs ++ ys) ≡ drop m ys
drop_more [] ys n m k h e = ap (λ i. drop i ys) (omega arith)
drop_more (x ∷ xs) ys n m zero h e = absurd (omega arith)
drop_more (x ∷ xs) ys zero m (suc k) h e = absurd (omega arith)
drop_more (x ∷ xs) ys (suc n) m (suc k) h e = drop_more xs ys n m k (omega arith) (omega arith)

pub u32_of-be32 : (n : ℕ) → IsU32 n → u32_of (be32 n) ≡ n
u32_of-be32 n h = omega (arith, h)

u16_of-be16 : (n : ℕ) → IsU16 n → u16_of (be16 n) ≡ n
u16_of-be16 n h = omega (arith, h)

-- The bytes behind the addresses.
module _ (p : DhcpPacket) (h : IsPacket p) (tail : List ℕ) where
  abbrev from_file : List ℕ
  from_file = p.file ++ (magic_cookie ++ tail)

  abbrev from_sname : List ℕ
  from_sname = p.sname ++ from_file

  abbrev back : List ℕ
  back = p.chaddr ++ from_sname

  sname_from : drop 16 back ≡ from_sname
  sname_from = drop_all p.chaddr from_sname 16 h.chaddr_size

  file_from : drop 80 back ≡ from_file
  file_from =
      drop_more p.chaddr from_sname 16 64 80 h.chaddr_size refl
      ∙ drop_all p.sname from_file 64 h.sname_size

  cookie_from : drop 208 back ≡ magic_cookie ++ tail
  cookie_from =
      drop_more p.chaddr from_sname 16 192 208 h.chaddr_size refl
      ∙ drop_more p.sname from_file 64 128 192 h.sname_size refl
      ∙ drop_all p.file (magic_cookie ++ tail) 128 h.file_size

  tail_from : drop 212 back ≡ tail
  tail_from =
      drop_more p.chaddr from_sname 16 196 212 h.chaddr_size refl
      ∙ drop_more p.sname from_file 64 132 196 h.sname_size refl
      ∙ drop_more p.file (magic_cookie ++ tail) 128 4 132 h.file_size refl

  long : 212 ≤ length back
  long = omega (
    arith,
    length-append p.chaddr from_sname,
    length-append p.sname from_file,
    length-append p.file (magic_cookie ++ tail),
    h.chaddr_size,
    h.sname_size,
    h.file_size,
  )

-- `parse` reads back what `serialize` writes: the packet itself, less its PAD and END options, which
-- are not written. The packet has the sizes of its arrays, and no option value of 256 bytes or more.
pub parse-serialize :
    (p : DhcpPacket)
    → IsPacket p
    → parse (serialize p) ≡ ok (record p { options = keep is_written p.options })
unfolding parse serialize serialize_with_options
parse-serialize p h =
    let tail : List ℕ = build_options p.options in
    let enough : ltb (length (serialize p)) options_offset ≡ false =
      ground (arith, long p h (build_options (p.options ++ []))) in
    rw
      (
        enough,
        append-nil p.options,
        sname_from p h tail,
        file_from p h tail,
        cookie_from p h tail,
        tail_from p h tail,
        str_eq_refl magic_cookie,
        parse_options-build (length tail) p.options h.short (omega arith),
        u32_of-be32 p.xid h.xid_fits,
        u16_of-be16 p.flags h.flags_fit,
        take_all p.chaddr (from_sname p h tail) 16 h.chaddr_size,
        take_all p.sname (from_file p h tail) 64 h.sname_size,
        take_all p.file (magic_cookie ++ tail) 128 h.file_size,
      )
      refl
