-- ===== src/Linux/IpConfig/Values.antt =====
-- The values that a request carries, and what reading their bytes gives back.
use network_manager_rs.Common.{
  ℕ, zero, suc, ◌<◌, ◌≡◌, refl, sym, ap, true, Option, none, some, List, [], ◌∷◌, length, take,
  replicate, arith, IsU32,
}
use network_manager_rs.Common.Int.{ℤ, pos, negsuc}
use network_manager_rs.Linux.Model.{
  IpAddr, v4, v6, IpFamily, ip_v4, ip_v6, Route, all_zero, scope_from_u8, scope_as_u8,
  destination_unspecified,
}
use network_manager_rs.Linux.Netlink.Wire.{le_bytes, le_of, i32_bits, i32_of_bits}
use network_manager_rs.Linux.Netlink.Parse.{
  expected_len, address_from_bytes, is_kept, destination_or_unspecified,
}
use network_manager_rs.Linux.IpConfig.{ip_bytes, index_or_zero}

-- The values of an `i32`.
abbrev pub IsI32 : ℤ → Type 0
IsI32 (pos n) = n < 2147483648
IsI32 (negsuc n) = n < 2147483648

-- An address of the family, with all its bytes.
abbrev pub OfFamily : IpFamily → IpAddr → Type 0
OfFamily ip_v4 (v4 a) = Unit
OfFamily ip_v6 (v6 bytes) = length bytes ≡ 16
OfFamily _ _ = ⊥

abbrev pub IsSome {ℓ κ} : {A : Type ℓ} → (A → Type κ) → Option A → Type κ
IsSome P none = Unit
IsSome P (some a) = P a

-- A route that a request can carry and that the listing keeps.
pub record IsRoute (r : Route) : Type 0 where
  pub destination_ok : OfFamily r.family r.destination
  pub gateway_ok : IsSome (OfFamily r.family) r.gateway
  pub index_ok : IsI32 (index_or_zero r.output_interface)
  pub metric_ok : IsSome IsU32 r.metric
  pub kind_ok : is_kept r.kind ≡ true
  pub scope_ok : scope_from_u8 (scope_as_u8 r.scope) ≡ r.scope

pub i32_read : (i : ℤ) → IsI32 i → i32_of_bits (le_of (le_bytes 4 (i32_bits i))) ≡ i
i32_read (pos n) h = ground arith
i32_read (negsuc n) h = ground arith

pub u32_read : (n : ℕ) → IsU32 n → le_of (le_bytes 4 n) ≡ n
u32_read n h = omega arith

pub length-ip_bytes :
    (f : IpFamily) (a : IpAddr) → OfFamily f a → length (ip_bytes a) ≡ expected_len f
length-ip_bytes ip_v4 (v4 a) h = refl
length-ip_bytes ip_v6 (v6 bytes) h = h
length-ip_bytes ip_v4 (v6 bytes) h = absurd h
length-ip_bytes ip_v6 (v4 a) h = absurd h

pub take_whole {ℓ} : {A : Type ℓ} (xs : List A) (n : ℕ) → length xs ≡ n → take n xs ≡ xs
take_whole [] zero h = refl
take_whole [] (suc n) h = refl
take_whole (x ∷ xs) zero h = absurd (omega (arith, h))
take_whole (x ∷ xs) (suc n) h = ap (◌∷◌ x) (take_whole xs n (omega (arith, h)))

pub address_from-ip_bytes :
    (f : IpFamily) (a : IpAddr) → OfFamily f a → address_from_bytes f (ip_bytes a) ≡ a
unfolding address_from_bytes
address_from-ip_bytes ip_v4 (v4 a) h = refl
address_from-ip_bytes ip_v6 (v6 bytes) h = ap v6 (take_whole bytes 16 h)
address_from-ip_bytes ip_v4 (v6 bytes) h = absurd h
address_from-ip_bytes ip_v6 (v4 a) h = absurd h

pub all_zero_lem :
    (n : ℕ) (bytes : List ℕ) → length bytes ≡ n → all_zero bytes ≡ true → bytes ≡ replicate n 0
all_zero_lem zero [] h z = refl
all_zero_lem zero (b ∷ bs) h z = absurd (omega (arith, h))
all_zero_lem (suc n) [] h z = absurd (omega (arith, h))
all_zero_lem (suc n) (b ∷ bs) h z =
    let zero_b : b ≡ 0 = ground arith in
    let rest : all_zero bs ≡ true = ground arith in
    rw (zero_b, all_zero_lem n bs (omega (arith, h)) rest) refl

pub unspecified_lem :
    (f : IpFamily) (a : IpAddr)
    → OfFamily f a
    → destination_unspecified f a ≡ true
    → destination_or_unspecified f none ≡ a
unspecified_lem ip_v4 (v4 a) h z =
    let a0 : a.a ≡ 0 = ground arith in
    let b0 : a.b ≡ 0 = ground arith in
    let c0 : a.c ≡ 0 = ground arith in let d0 : a.d ≡ 0 = ground arith in rw (a0, b0, c0, d0) refl
unspecified_lem ip_v6 (v6 bytes) h z = ap v6 (sym (all_zero_lem 16 bytes h z))
unspecified_lem ip_v4 (v6 bytes) h z = absurd h
unspecified_lem ip_v6 (v4 a) h z = absurd h
