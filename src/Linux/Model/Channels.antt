-- ===== src/Linux/Model/Channels.antt =====
-- src/linux/model.rs: channels and their center frequencies.
use network_manager_rs.Common.{ℕ, ◌+◌, ◌*◌, ◌≤◌, ◌≡◌, some, arith}
use network_manager_rs.Linux.Model.Wireless.{frequency_to_channel}

-- A channel of a band and its center frequency in MHz: the bands at 2.4, 5 and 6 GHz.
pub data IsCenter (channel freq : ℕ) : Type 0 where
  low : 1 ≤ channel → channel ≤ 13 → freq ≡ 2407 + 5 * channel → IsCenter channel freq
  japan : channel ≡ 14 → freq ≡ 2484 → IsCenter channel freq
  middle : channel ≤ 179 → freq ≡ 5000 + 5 * channel → IsCenter channel freq
  high : 1 ≤ channel → channel ≤ 233 → freq ≡ 5950 + 5 * channel → IsCenter channel freq

-- The channel of a center frequency is the one that the band plan gives: 1 to 13 and 14 at 2.4 GHz, 0
-- to 179 at 5 GHz, 1 to 233 at 6 GHz.
pub frequency_to_channel_lem :
    (channel freq : ℕ) → IsCenter channel freq → frequency_to_channel freq ≡ some channel
unfolding frequency_to_channel
frequency_to_channel_lem channel freq (low a b e) = ground arith
frequency_to_channel_lem channel freq (japan a e) = ground arith
frequency_to_channel_lem channel freq (middle a e) = ground arith
frequency_to_channel_lem channel freq (high a b e) = ground arith
