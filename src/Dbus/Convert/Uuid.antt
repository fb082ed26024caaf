-- ===== src/Dbus/Convert/Uuid.antt =====
-- src/dbus/convert.rs: the UUID that stands for a profile id.
use Prim.Native.Nat.{bit_xor}
use network_manager_rs.Common.{
  ℕ, zero, suc, ◌+◌, ◌-◌, ◌*◌, ◌/◌, ◌%◌, ◌≤◌, ◌<◌, ◌≡◌, refl, List, [], ◌∷◌, ◌++◌, Str, str, length,
  length-append, replicate, length-replicate, ltb, if◌then◌else◌, arith, Bool-cases, inl, inr,
}

unfoldable pub hex_digit : ℕ → ℕ
hex_digit n = if ltb n 10 then 48 + n else 87 + n

-- A number in lower-case hexadecimal, in front of a text; sixteen rounds are enough for a `u64`.
unfoldable pub hex_onto : ℕ → ℕ → Str → Str
hex_onto zero n acc = acc
hex_onto (suc f) n acc =
    let rest = hex_onto f (n / 16) (hex_digit (n % 16) ∷ acc) in
    if ltb n 16 then hex_digit n ∷ acc else rest

-- `{n:0width x}`: padded with zeros to the width at least.
unfoldable pub hex_padded : ℕ → ℕ → Str
hex_padded width n =
    let digits = hex_onto 16 n [] in replicate (width - length digits) b'0' ++ digits

unfoldable pub fnv1a : List ℕ → ℕ → ℕ
fnv1a [] hash = hash
fnv1a (byte ∷ bytes) hash = fnv1a bytes (bit_xor hash byte * 0x100000001b3 % 18446744073709551616)

-- The text that the two hashes are written as.
unfoldable pub uuid_of : ℕ → ℕ → Str
uuid_of first second =
    hex_padded 8 (first / 4294967296 % 4294967296)
    ++ (str "-"
        ++ (hex_padded 4 (first % 65536)
            ++ (str "-5"
                ++ (hex_padded 3 (first / 65536 % 4096)
                    ++ (str "-8"
                        ++ (hex_padded 3 (second % 4096)
                            ++ (str "-" ++ hex_padded 12 (second / 65536 % 281474976710656))))))))

unfoldable pub stable_uuid : Str → Str
stable_uuid id = uuid_of (fnv1a id 0xcbf29ce484222325) (fnv1a id 0x84222325cbf29ce4)

-- The numbers of so many hexadecimal digits.
abbrev pub hex_limit : ℕ → ℕ
hex_limit zero = 1
hex_limit (suc w) = 16 * hex_limit w

length-hex_onto :
    (f w n : ℕ) (acc : Str) → n < hex_limit (suc w) → length (hex_onto f n acc) ≤ suc w + length acc
unfolding hex_onto
length-hex_onto zero w n acc h = omega arith
length-hex_onto (suc f) zero n acc h = elim (Bool-cases (ltb n 16)) [
  | inl small ↦ rw small (omega arith)
  | inr large ↦ absurd (ground arith)
]
length-hex_onto (suc f) (suc w) n acc h = elim (Bool-cases (ltb n 16)) [
  | inl small ↦ rw small (omega arith)
  | inr large ↦
      rw large
        (omega (arith, length-hex_onto f w (n / 16) (hex_digit (n % 16) ∷ acc) (omega arith)))
]

length-hex_padded : (w n : ℕ) → n < hex_limit (suc w) → length (hex_padded (suc w) n) ≡ suc w
unfolding hex_padded
length-hex_padded w n h =
    let digits = hex_onto 16 n [] in
    omega (
      arith,
      length-append (replicate (suc w - length digits) b'0') digits,
      length-replicate {A = ℕ} (suc w - length digits) b'0',
      length-hex_onto 16 w n [] h,
    )

-- A version 5 UUID: groups of 8, 4, 4, 4 and 12 digits, of which the third begins with 5 and the fourth
-- with 8.
pub record IsUuid (uuid : Str) : Type 0 where
  pub time_low : Str
  pub time_mid : Str
  pub time_high : Str
  pub clock : Str
  pub node : Str
  pub written :
      uuid
      ≡ time_low
        ++ (str "-"
            ++ (time_mid
                ++ (str "-5" ++ (time_high ++ (str "-8" ++ (clock ++ (str "-" ++ node)))))))
  pub time_low_length : length time_low ≡ 8
  pub time_mid_length : length time_mid ≡ 4
  pub time_high_length : length time_high ≡ 3
  pub clock_length : length clock ≡ 3
  pub node_length : length node ≡ 12

uuid_of-IsUuid : (first second : ℕ) → IsUuid (uuid_of first second)
unfolding uuid_of
uuid_of-IsUuid first second = record {
  time_low = hex_padded 8 (first / 4294967296 % 4294967296);
  time_mid = hex_padded 4 (first % 65536);
  time_high = hex_padded 3 (first / 65536 % 4096);
  clock = hex_padded 3 (second % 4096);
  node = hex_padded 12 (second / 65536 % 281474976710656);
  written = refl;
  time_low_length = length-hex_padded 7 (first / 4294967296 % 4294967296) (omega arith);
  time_mid_length = length-hex_padded 3 (first % 65536) (omega arith);
  time_high_length = length-hex_padded 2 (first / 65536 % 4096) (omega arith);
  clock_length = length-hex_padded 2 (second % 4096) (omega arith);
  node_length = length-hex_padded 11 (second / 65536 % 281474976710656) (omega arith);
}

-- Every id gets a text of the form of a version 5 UUID: groups of 8, 4, 4, 4 and 12 characters between
-- dashes, the third beginning with 5 and the fourth with 8.
pub stable_uuid-IsUuid : (id : Str) → IsUuid (stable_uuid id)
unfolding stable_uuid
stable_uuid-IsUuid id = uuid_of-IsUuid (fnv1a id 0xcbf29ce484222325) (fnv1a id 0x84222325cbf29ce4)
