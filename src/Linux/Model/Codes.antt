-- ===== src/Linux/Model/Codes.antt =====
-- The wire codes of routes.
use network_manager_rs.Common.{ℕ, ◌≡◌, arith}
use network_manager_rs.Linux.Model.{kind_from_u8, kind_as_u8, scope_from_u8, scope_as_u8}

-- A route kind and a route scope that the kernel sends are sent back as the same byte, known or not.
pub as_u8-from_u8 :
    (value : ℕ)
    → (kind_as_u8 (kind_from_u8 value) ≡ value) × (scope_as_u8 (scope_from_u8 value) ≡ value)
unfolding kind_from_u8 kind_as_u8 scope_from_u8 scope_as_u8
as_u8-from_u8 value = ground arith
