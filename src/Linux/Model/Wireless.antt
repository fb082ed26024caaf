-- ===== src/Linux/Model/Wireless.antt =====
-- src/linux/model.rs: the wireless enumerations that nl80211 reports, and channels.
use network_manager_rs.Common.{
  ℕ, ◌-◌, ◌/◌, ◌%◌, Bool, Option, none, some, List, [], ◌∷◌, Str, str, leb, ◌==◌, ◌&&◌,
  if◌then◌else◌, match_code,
}
use network_manager_rs.Common.Int.{ℤ}

-- `frequency_to_channel`; `as u16` keeps the lowest sixteen bits.
unfoldable pub frequency_to_channel : ℕ → Option ℕ
frequency_to_channel freq =
    if leb 2412 freq && leb freq 2472
    then some ((freq - 2407) / 5 % 65536)
    else if freq == 2484
    then some 14
    else if leb 5000 freq && leb freq 5895
    then some ((freq - 5000) / 5 % 65536)
    else if leb 5955 freq && leb freq 7115
    then some ((freq - 5950) / 5 % 65536)
    else none

pub data InterfaceType : Type 0 where
  unspecified adhoc station ap ap_vlan wds monitor mesh_point p2p_client p2p_go p2p_device ocb nan
        nan_data :
      InterfaceType
  other_type : ℕ → InterfaceType

unfoldable pub interface_type_from_u8 : ℕ → InterfaceType
interface_type_from_u8 =
    match_code
      ((0, unspecified)
        ∷ (1, adhoc)
        ∷ (2, station)
        ∷ (3, ap)
        ∷ (4, ap_vlan)
        ∷ (5, wds)
        ∷ (6, monitor)
        ∷ (7, mesh_point)
        ∷ (8, p2p_client)
        ∷ (9, p2p_go)
        ∷ (10, p2p_device)
        ∷ (11, ocb)
        ∷ (12, nan)
        ∷ (13, nan_data)
        ∷ [])
      other_type

pub data WifiBandId : Type 0 where
  ghz2 ghz5 ghz60 ghz6 sub_ghz lc : WifiBandId
  other_band : ℕ → WifiBandId

unfoldable pub band_from_u8 : ℕ → WifiBandId
band_from_u8 =
    match_code ((0, ghz2) ∷ (1, ghz5) ∷ (2, ghz60) ∷ (3, ghz6) ∷ (4, sub_ghz) ∷ (5, lc) ∷ [])
      other_band

pub data WifiCipher : Type 0 where
  wep40 wep104 tkip ccmp ccmp256 gcmp gcmp256 aes_cmac bip_cmac256 bip_gmac128 bip_gmac256
        wapi_sms4 :
      WifiCipher
  other_cipher : ℕ → WifiCipher

unfoldable pub cipher_from_u32 : ℕ → WifiCipher
cipher_from_u32 =
    match_code
      ((1027073, wep40)
        ∷ (1027077, wep104)
        ∷ (1027074, tkip)
        ∷ (1027076, ccmp)
        ∷ (1027082, ccmp256)
        ∷ (1027080, gcmp)
        ∷ (1027081, gcmp256)
        ∷ (1027078, aes_cmac)
        ∷ (1027083, bip_cmac256)
        ∷ (1027084, bip_gmac128)
        ∷ (1027085, bip_gmac256)
        ∷ (1339905, wapi_sms4)
        ∷ [])
      other_cipher

unfoldable pub cipher_as_str : WifiCipher → Str
cipher_as_str wep40 = str "WEP-40"
cipher_as_str wep104 = str "WEP-104"
cipher_as_str tkip = str "TKIP"
cipher_as_str ccmp = str "CCMP"
cipher_as_str ccmp256 = str "CCMP-256"
cipher_as_str gcmp = str "GCMP"
cipher_as_str gcmp256 = str "GCMP-256"
cipher_as_str aes_cmac = str "AES-CMAC"
cipher_as_str bip_cmac256 = str "BIP-CMAC-256"
cipher_as_str bip_gmac128 = str "BIP-GMAC-128"
cipher_as_str bip_gmac256 = str "BIP-GMAC-256"
cipher_as_str wapi_sms4 = str "WAPI-SMS4"
cipher_as_str (other_cipher value) = str "other"

pub data WifiAuthSuite : Type 0 where
  wpa1_psk wpa18021x rsn8021x rsn_psk rsn_ft8021x rsn_ft_psk rsn8021x_sha256 rsn_psk_sha256 rsn_sae
        rsn_sae_ft rsn_ap_psk rsn_suite_b rsn_suite_b192 rsn_ft8021x_sha384 rsn_fils_sha256
        rsn_fils_sha384 rsn_ft_fils_sha256 rsn_ft_fils_sha384 rsn_owe rsn_ft_psk_sha384
        rsn_psk_sha384 rsn_pasn :
      WifiAuthSuite
  other_suite : ℕ → WifiAuthSuite

unfoldable pub auth_suite_from_rsn_akm : ℕ → WifiAuthSuite
auth_suite_from_rsn_akm =
    match_code
      ((1027073, rsn8021x)
        ∷ (1027074, rsn_psk)
        ∷ (1027075, rsn_ft8021x)
        ∷ (1027076, rsn_ft_psk)
        ∷ (1027077, rsn8021x_sha256)
        ∷ (1027078, rsn_psk_sha256)
        ∷ (1027080, rsn_sae)
        ∷ (1027081, rsn_sae_ft)
        ∷ (1027082, rsn_ap_psk)
        ∷ (1027083, rsn_suite_b)
        ∷ (1027084, rsn_suite_b192)
        ∷ (1027085, rsn_ft8021x_sha384)
        ∷ (1027086, rsn_fils_sha256)
        ∷ (1027087, rsn_fils_sha384)
        ∷ (1027088, rsn_ft_fils_sha256)
        ∷ (1027089, rsn_ft_fils_sha384)
        ∷ (1027090, rsn_owe)
        ∷ (1027091, rsn_ft_psk_sha384)
        ∷ (1027092, rsn_psk_sha384)
        ∷ (1027093, rsn_pasn)
        ∷ [])
      other_suite

unfoldable pub auth_suite_as_str : WifiAuthSuite → Str
auth_suite_as_str wpa1_psk = str "WPA-PSK"
auth_suite_as_str wpa18021x = str "WPA-802.1X"
auth_suite_as_str rsn8021x = str "WPA2-802.1X"
auth_suite_as_str rsn_psk = str "WPA2-PSK"
auth_suite_as_str rsn_ft8021x = str "FT-802.1X"
auth_suite_as_str rsn_ft_psk = str "FT-PSK"
auth_suite_as_str rsn8021x_sha256 = str "802.1X-SHA256"
auth_suite_as_str rsn_psk_sha256 = str "PSK-SHA256"
auth_suite_as_str rsn_sae = str "SAE"
auth_suite_as_str rsn_sae_ft = str "FT-SAE"
auth_suite_as_str rsn_ap_psk = str "AP-PSK"
auth_suite_as_str rsn_suite_b = str "SUITE-B"
auth_suite_as_str rsn_suite_b192 = str "SUITE-B-192"
auth_suite_as_str rsn_ft8021x_sha384 = str "FT-802.1X-SHA384"
auth_suite_as_str rsn_fils_sha256 = str "FILS-SHA256"
auth_suite_as_str rsn_fils_sha384 = str "FILS-SHA384"
auth_suite_as_str rsn_ft_fils_sha256 = str "FT-FILS-SHA256"
auth_suite_as_str rsn_ft_fils_sha384 = str "FT-FILS-SHA384"
auth_suite_as_str rsn_owe = str "OWE"
auth_suite_as_str rsn_ft_psk_sha384 = str "FT-PSK-SHA384"
auth_suite_as_str rsn_psk_sha384 = str "PSK-SHA384"
auth_suite_as_str rsn_pasn = str "PASN"
auth_suite_as_str (other_suite value) = str "other"

pub record WifiBand : Type 0 where
  pub id : WifiBandId
  pub channels : List ℕ
  pub frequencies : List ℕ
  pub ht_capabilities : Option ℕ
  pub vht_capabilities : Option ℕ

pub record WifiCapabilities : Type 0 where
  pub supported_interfaces : List InterfaceType
  pub cipher_suites : List WifiCipher
  pub bands : List WifiBand
  pub max_scan_ssids : Option ℕ
  pub scan_supported : Bool

pub record WirelessInterface : Type 0 where
  pub index : ℤ
  pub name : Str
  pub wiphy_index : Option ℕ
  pub wiphy_name : Option Str
  pub interface_type : InterfaceType
  pub mac : Option (List ℕ)
  pub up : Bool
  pub capabilities : WifiCapabilities

pub record AccessPointSecurity : Type 0 where
  pub wep : Bool
  pub wpa1 : Bool
  pub wpa2 : Bool
  pub wpa3 : Bool
  pub enterprise : Bool
  pub management_frame_protection : Bool
  pub auth_suites : List WifiAuthSuite

pub record AccessPoint : Type 0 where
  pub bssid : Option (List ℕ)
  pub ssid : Option (List ℕ)
  pub frequency : Option ℕ
  pub channel : Option ℕ
  pub signal_dbm : Option ℤ
  pub signal_unspecified : Option ℕ
  pub capability : Option ℕ
  pub security : AccessPointSecurity
  pub seen_millis_ago : Option ℕ
