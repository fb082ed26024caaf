-- ===== src/Dbus/Convert/Prefix.antt =====
-- src/dbus/convert.rs: a prefix length that no byte holds.
use network_manager_rs.Common.{
  ℕ, ◌%◌, ◌≡◌, refl, Bool, true, false, Option, some, [], ◌∷◌, Str, str, str_eq, str_lt, IsU32, ok,
  filter_map,
}
use network_manager_rs.Connection.Profile.{IpConfig, manual, bool_ne}
use network_manager_rs.Connection.Store.Tree.{get, put, get-put}
use network_manager_rs.Linux.Model.{IpAddr, is_ipv4}
use network_manager_rs.Dbus.Error.{ErrorTexts}
use network_manager_rs.Dbus.Convert.Variant.{
  Values, IsLawful, Section, get_dict_array, get_str, get_str_array, get_u32, and_convert,
}
use network_manager_rs.Dbus.Convert.{parse_manual, unwrap_or}

same_family : (b : Bool) → bool_ne b b ≡ false
same_family true = refl
same_family false = refl

module _ {V : Type 0} (values : Values V) (lawful : IsLawful values) (show : IpAddr → Str)
    (read : Str → Option IpAddr) (texts : ErrorTexts) where
  -- `address-data` with one address and its prefix length.
  abbrev pub with_prefix : Str → ℕ → Section V → Section V
  with_prefix text prefix section =
      put (str "address-data")
        (values.val_dict_array (
          put (str "prefix") (values.val_u32 prefix) (put (str "address") (values.val_str text) [])
          ∷ []))
        section

  -- A manual configuration with an address of its family is accepted whatever the prefix length, which is
  -- taken modulo 256.
  pub parse_manual-with_prefix :
      (section : Section V) (text : Str) (address : IpAddr) (prefix : ℕ)
      → read text ≡ some address
      → IsU32 prefix
      → (c : IpConfig) × (parse_manual values show read texts
            (with_prefix text prefix section)
            (is_ipv4 address)
          ≡ ok c)
        × (c.address ≡ some address)
        × (c.prefix_length ≡ some (prefix % 256))
  unfolding parse_manual get_dict_array get_str get_u32 get put str_eq str_lt
  parse_manual-with_prefix section text address prefix e h = (
    record {
      method = manual;
      address = some address;
      prefix_length = some (prefix % 256);
      gateway = and_convert (get_str values (with_prefix text prefix section) (str "gateway")) read;
      dns_servers =
          filter_map read
            (unwrap_or (get_str_array values (with_prefix text prefix section) (str "dns")) []);
      routes = [];
    },
    rw
        (
          get-put,
          lawful.dict_array_back (
              put (str "prefix") (values.val_u32 prefix)
                (put (str "address") (values.val_str text) [])
              ∷ []),
          lawful.str_back text,
          e,
          same_family (is_ipv4 address),
          lawful.u32_back prefix h,
        )
        refl,
    refl,
    refl,
  )
