-- ===== src/Linux/Model/Hex.antt =====
-- src/linux/model.rs: MAC addresses and octet strings as hexadecimal text. A text that is scanned by
-- character is the list of its characters (Unicode scalar values), whose `len` counts UTF-8 bytes.
use network_manager_rs.Common.{
  ℕ, ◌+◌, ◌-◌, ◌*◌, ◌/◌, ◌%◌, ◌<◌, ◌≡◌, refl, Bool, true, not, ◌&&◌, Option, none, some, List, [],
  ◌∷◌, length, keep, All, IsByte, ltb, leb, ◌==◌, if◌then◌else◌, arith,
}

-- `char::from_digit(digit, 16)` for a digit below 16.
abbrev pub from_digit : ℕ → ℕ
from_digit d = if ltb d 10 then b'0' + d else b'a' + (d - 10)

-- `char::to_digit(16)`.
unfoldable pub to_digit : ℕ → Option ℕ
to_digit c =
    if leb b'0' c && leb c b'9'
    then some (c - b'0')
    else if leb b'a' c && leb c b'f'
    then some (c - b'a' + 10)
    else if leb b'A' c && leb c b'F'
    then some (c - b'A' + 10)
    else none

-- The two digits of a byte: `byte >> 4` and `byte & 0x0f`.
abbrev pub digits : ℕ → List ℕ → List ℕ
digits byte rest = from_digit (byte / 16) ∷ from_digit (byte % 16) ∷ rest

unfoldable pub encode_hex : List ℕ → List ℕ
encode_hex [] = []
encode_hex (byte ∷ bytes) = digits byte (encode_hex bytes)

abbrev more_octets : List ℕ → List ℕ
more_octets [] = []
more_octets (byte ∷ bytes) = b':' ∷ digits byte (more_octets bytes)

-- A colon stands before every octet but the first.
unfoldable pub format_mac_address : List ℕ → List ℕ
format_mac_address [] = []
format_mac_address (byte ∷ bytes) = digits byte (more_octets bytes)

-- `String::len`: the number of UTF-8 bytes.
abbrev pub utf8_length : List ℕ → ℕ
utf8_length [] = 0
utf8_length (c ∷ cs) =
    (if ltb c 128 then 1 else if ltb c 2048 then 2 else if ltb c 65536 then 3 else 4)
    + utf8_length cs

-- `(high.to_digit(16)? as u8) << 4 | low.to_digit(16)? as u8`, with digits below 16.
abbrev pub octet : Option ℕ → Option ℕ → Option ℕ
octet (some high) (some low) = some (high * 16 + low)
octet _ _ = none

abbrev push : Option ℕ → Option (List ℕ) → Option (List ℕ)
push (some byte) (some bytes) = some (byte ∷ bytes)
push _ _ = none

-- The loop: it ends where two characters are no longer left.
unfoldable pub decode_pairs : List ℕ → Option (List ℕ)
decode_pairs (high ∷ low ∷ rest) = push (octet (to_digit high) (to_digit low)) (decode_pairs rest)
decode_pairs _ = some []

unfoldable pub decode_hex : List ℕ → Option (List ℕ)
decode_hex input =
    let out = decode_pairs input in if not (utf8_length input % 2 == 0) then none else out

-- `try_into` an array of six bytes.
abbrev pub six : Option (List ℕ) → Option (List ℕ)
six none = none
six (some bytes) = if length bytes == 6 then some bytes else none

abbrev pub is_not_colon : ℕ → Bool
is_not_colon c = not (c == b':')

unfoldable pub parse_mac_address : List ℕ → Option (List ℕ)
parse_mac_address input =
    let compact = keep is_not_colon input in
    let bytes = six (decode_hex compact) in if not (utf8_length compact == 12) then none else bytes

to_digit-from_digit : (d : ℕ) → d < 16 → to_digit (from_digit d) ≡ some d
unfolding to_digit
to_digit-from_digit d h = ground arith

decode_pairs-encode :
    (bytes : List ℕ) → All IsByte bytes → decode_pairs (encode_hex bytes) ≡ some bytes
unfolding decode_pairs encode_hex
decode_pairs-encode [] h = refl
decode_pairs-encode (b ∷ bs) h =
    let value : b / 16 * 16 + b % 16 ≡ b = omega arith in
    rw
      (
        to_digit-from_digit (b / 16) (omega (arith, h.0)),
        to_digit-from_digit (b % 16) (omega arith),
        decode_pairs-encode bs h.1,
        value,
      )
      refl

digit_small : (d : ℕ) → d < 16 → from_digit d < 128
digit_small d h = ground arith

utf8_length-encode_hex :
    (bytes : List ℕ) → All IsByte bytes → utf8_length (encode_hex bytes) ≡ 2 * length bytes
unfolding encode_hex
utf8_length-encode_hex [] h = refl
utf8_length-encode_hex (b ∷ bs) h = ground (
  arith,
  utf8_length-encode_hex bs h.1,
  digit_small (b / 16) (omega (arith, h.0)),
  digit_small (b % 16) (omega arith),
)

-- Octets are read back from their hexadecimal text, whatever their number.
pub decode_hex-encode_hex :
    (bytes : List ℕ) → All IsByte bytes → decode_hex (encode_hex bytes) ≡ some bytes
unfolding decode_hex
decode_hex-encode_hex bytes h =
    ground (arith, decode_pairs-encode bytes h, utf8_length-encode_hex bytes h)

digit_kept : (d : ℕ) → d < 16 → is_not_colon (from_digit d) ≡ true
digit_kept d h = ground arith

keep-more_octets :
    (bytes : List ℕ) → All IsByte bytes → keep is_not_colon (more_octets bytes) ≡ encode_hex bytes
unfolding encode_hex
keep-more_octets [] h = refl
keep-more_octets (b ∷ bs) h =
    rw
      (
        digit_kept (b / 16) (omega (arith, h.0)),
        digit_kept (b % 16) (omega arith),
        keep-more_octets bs h.1,
      )
      refl

keep-format_mac_address :
    (bytes : List ℕ)
    → All IsByte bytes
    → keep is_not_colon (format_mac_address bytes) ≡ encode_hex bytes
unfolding encode_hex format_mac_address
keep-format_mac_address [] h = refl
keep-format_mac_address (b ∷ bs) h =
    rw
      (
        digit_kept (b / 16) (omega (arith, h.0)),
        digit_kept (b % 16) (omega arith),
        keep-more_octets bs h.1,
      )
      refl

keep-encode_hex :
    (bytes : List ℕ) → All IsByte bytes → keep is_not_colon (encode_hex bytes) ≡ encode_hex bytes
unfolding encode_hex
keep-encode_hex [] h = refl
keep-encode_hex (b ∷ bs) h =
    rw
      (
        digit_kept (b / 16) (omega (arith, h.0)),
        digit_kept (b % 16) (omega arith),
        keep-encode_hex bs h.1,
      )
      refl

parse_compact :
    (bytes text : List ℕ)
    → All IsByte bytes
    → length bytes ≡ 6
    → keep is_not_colon text ≡ encode_hex bytes
    → parse_mac_address text ≡ some bytes
unfolding parse_mac_address
parse_compact bytes text h l e =
    ground (arith, e, decode_hex-encode_hex bytes h, utf8_length-encode_hex bytes h)

-- Six octets are read back from the MAC address that they are written as, and also from the same
-- text without its colons.
pub parse_mac_address-format :
    (bytes : List ℕ)
    → All IsByte bytes
    → length bytes ≡ 6
    → (parse_mac_address (format_mac_address bytes) ≡ some bytes)
      × (parse_mac_address (encode_hex bytes) ≡ some bytes)
parse_mac_address-format bytes h l = (
  parse_compact bytes (format_mac_address bytes) h l (keep-format_mac_address bytes h),
  parse_compact bytes (encode_hex bytes) h l (keep-encode_hex bytes h),
)
