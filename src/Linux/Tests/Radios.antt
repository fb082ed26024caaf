-- ===== src/Linux/Tests/Radios.antt =====
-- Channels, codes and hexadecimal texts.
use network_manager_rs.Common.{◌≡◌, refl, some, [], ◌∷◌}
use network_manager_rs.Linux.Model.Hex.{decode_hex, decode_pairs, to_digit}

-- A text of four bytes and three characters: the last character, which is no digit, is dropped.
odd_character : decode_hex (b'0' ∷ b'1' ∷ 233 ∷ []) ≡ some (1 ∷ [])
unfolding decode_hex decode_pairs to_digit
odd_character = refl
