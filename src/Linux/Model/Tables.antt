-- ===== src/Linux/Model/Tables.antt =====
-- src/linux/model.rs: the code tables of the wireless enumerations, read backwards.
use network_manager_rs.Common.{ℕ, ◌≡◌, arith}
use network_manager_rs.Linux.Model.Wireless.{
  InterfaceType, interface_type_from_u8, other_type, unspecified, adhoc, station, ap, ap_vlan, wds,
  monitor, mesh_point, p2p_client, p2p_go, p2p_device, ocb, nan, nan_data, WifiBandId, band_from_u8,
  other_band, ghz2, ghz5, ghz60, ghz6, sub_ghz, lc, WifiCipher, cipher_from_u32, other_cipher,
  wep40, wep104, tkip, ccmp, ccmp256, gcmp, gcmp256, aes_cmac, bip_cmac256, bip_gmac128,
  bip_gmac256, wapi_sms4, WifiAuthSuite, auth_suite_from_rsn_akm, other_suite, wpa1_psk, wpa18021x,
  rsn8021x, rsn_psk, rsn_ft8021x, rsn_ft_psk, rsn8021x_sha256, rsn_psk_sha256, rsn_sae, rsn_sae_ft,
  rsn_ap_psk, rsn_suite_b, rsn_suite_b192, rsn_ft8021x_sha384, rsn_fils_sha256, rsn_fils_sha384,
  rsn_ft_fils_sha256, rsn_ft_fils_sha384, rsn_owe, rsn_ft_psk_sha384, rsn_psk_sha384, rsn_pasn,
}

unfoldable interface_code : InterfaceType → ℕ
interface_code unspecified = 0
interface_code adhoc = 1
interface_code station = 2
interface_code ap = 3
interface_code ap_vlan = 4
interface_code wds = 5
interface_code monitor = 6
interface_code mesh_point = 7
interface_code p2p_client = 8
interface_code p2p_go = 9
interface_code p2p_device = 10
interface_code ocb = 11
interface_code nan = 12
interface_code nan_data = 13
interface_code (other_type value) = value

interface_code-interface_type : (value : ℕ) → interface_code (interface_type_from_u8 value) ≡ value
unfolding interface_code interface_type_from_u8
interface_code-interface_type value = ground arith

unfoldable band_code : WifiBandId → ℕ
band_code ghz2 = 0
band_code ghz5 = 1
band_code ghz60 = 2
band_code ghz6 = 3
band_code sub_ghz = 4
band_code lc = 5
band_code (other_band value) = value

band_code-band : (value : ℕ) → band_code (band_from_u8 value) ≡ value
unfolding band_code band_from_u8
band_code-band value = ground arith

unfoldable cipher_code : WifiCipher → ℕ
cipher_code wep40 = 1027073
cipher_code wep104 = 1027077
cipher_code tkip = 1027074
cipher_code ccmp = 1027076
cipher_code ccmp256 = 1027082
cipher_code gcmp = 1027080
cipher_code gcmp256 = 1027081
cipher_code aes_cmac = 1027078
cipher_code bip_cmac256 = 1027083
cipher_code bip_gmac128 = 1027084
cipher_code bip_gmac256 = 1027085
cipher_code wapi_sms4 = 1339905
cipher_code (other_cipher value) = value

cipher_code-cipher : (value : ℕ) → cipher_code (cipher_from_u32 value) ≡ value
unfolding cipher_code cipher_from_u32
cipher_code-cipher value = ground arith

unfoldable suite_code : WifiAuthSuite → ℕ
suite_code wpa1_psk = 0
suite_code wpa18021x = 0
suite_code rsn8021x = 1027073
suite_code rsn_psk = 1027074
suite_code rsn_ft8021x = 1027075
suite_code rsn_ft_psk = 1027076
suite_code rsn8021x_sha256 = 1027077
suite_code rsn_psk_sha256 = 1027078
suite_code rsn_sae = 1027080
suite_code rsn_sae_ft = 1027081
suite_code rsn_ap_psk = 1027082
suite_code rsn_suite_b = 1027083
suite_code rsn_suite_b192 = 1027084
suite_code rsn_ft8021x_sha384 = 1027085
suite_code rsn_fils_sha256 = 1027086
suite_code rsn_fils_sha384 = 1027087
suite_code rsn_ft_fils_sha256 = 1027088
suite_code rsn_ft_fils_sha384 = 1027089
suite_code rsn_owe = 1027090
suite_code rsn_ft_psk_sha384 = 1027091
suite_code rsn_psk_sha384 = 1027092
suite_code rsn_pasn = 1027093
suite_code (other_suite value) = value

suite_code-auth_suite : (value : ℕ) → suite_code (auth_suite_from_rsn_akm value) ≡ value
unfolding suite_code auth_suite_from_rsn_akm
suite_code-auth_suite value = ground arith

-- No code table maps two codes to one value: the interface types, bands, ciphers and suites that nl80211
-- reports can be told apart by their values, codes without a name included.
pub from_code_injective :
    (a b : ℕ)
    → (interface_type_from_u8 a ≡ interface_type_from_u8 b → a ≡ b)
      × (band_from_u8 a ≡ band_from_u8 b → a ≡ b)
      × (cipher_from_u32 a ≡ cipher_from_u32 b → a ≡ b)
      × (auth_suite_from_rsn_akm a ≡ auth_suite_from_rsn_akm b → a ≡ b)
from_code_injective a b = (
  (λ e. cc (interface_code-interface_type a, interface_code-interface_type b, e)),
  (λ e. cc (band_code-band a, band_code-band b, e)),
  (λ e. cc (cipher_code-cipher a, cipher_code-cipher b, e)),
  (λ e. cc (suite_code-auth_suite a, suite_code-auth_suite b, e)),
)
