-- ===== src/Dbus/Convert/Variant.antt =====
-- The values of a settings dictionary: what src/dbus/convert.rs uses of `zbus::zvariant`, and the
-- builders and accessors that stand on it.
use network_manager_rs.Common.{ℕ, ◌≡◌, Bool, Option, none, some, List, [], ◌∷◌, map, Str, IsU32}
use network_manager_rs.Common.Int.{ℤ}
use network_manager_rs.Connection.Store.Tree.{get}

-- `HashMap<String, OwnedValue>` and `a{sa{sv}}`, whose order is not observed: in the order of the keys.
abbrev pub Section : Type 0 → Type 0
Section V = List (Str × V)

abbrev pub SettingsDict : Type 0 → Type 0
SettingsDict V = List (Str × Section V)

-- `(dest, prefix, next_hop, metric)` of `a(ayuayu)`.
pub record V6Entry : Type 0 where
  pub dest : List ℕ
  pub prefix : ℕ
  pub next_hop : List ℕ
  pub metric : ℕ

-- `OwnedValue`, with its conversions from and to the types of Rust.
pub record Values (V : Type 0) : Type 0 where
  pub val_str : Str → V
  pub val_u32 : ℕ → V
  pub val_i32 : ℤ → V
  pub val_bool : Bool → V
  pub val_bytes : List ℕ → V
  pub val_dict_array : List (Section V) → V
  pub val_str_array : List Str → V
  pub val_v4_routes : List (List ℕ) → V
  pub val_v6_routes : List V6Entry → V
  pub to_str : V → Option Str
  pub to_u32 : V → Option ℕ
  pub to_i32 : V → Option ℤ
  pub to_bool : V → Option Bool
  pub to_bytes : V → Option (List ℕ)
  pub to_dict_array : V → Option (List (Section V))
  pub to_array : V → Option (List V)
  pub to_v4_routes : V → Option (List (List ℕ))
  pub to_v6_routes : V → Option (List V6Entry)

-- A conversion gives back what the value was built from.
pub record IsLawful {V : Type 0} (values : Values V) : Type 0 where
  pub str_back : (s : Str) → values.to_str (values.val_str s) ≡ some s
  pub u32_back : (n : ℕ) → IsU32 n → values.to_u32 (values.val_u32 n) ≡ some n
  pub i32_back : (n : ℤ) → values.to_i32 (values.val_i32 n) ≡ some n
  pub bool_back : (b : Bool) → values.to_bool (values.val_bool b) ≡ some b
  pub bytes_back : (bs : List ℕ) → values.to_bytes (values.val_bytes bs) ≡ some bs
  pub dict_array_back :
      (ds : List (Section V)) → values.to_dict_array (values.val_dict_array ds) ≡ some ds
  pub str_array_back :
      (ss : List Str) → values.to_array (values.val_str_array ss) ≡ some (map values.val_str ss)
  pub v4_routes_back :
      (rs : List (List ℕ)) → values.to_v4_routes (values.val_v4_routes rs) ≡ some rs
  pub v6_routes_back : (rs : List V6Entry) → values.to_v6_routes (values.val_v6_routes rs) ≡ some rs

-- `section.get(key)?` and a conversion.
abbrev pub and_convert {ℓ κ} : {A : Type ℓ} {B : Type κ} → Option A → (A → Option B) → Option B
and_convert none f = none
and_convert (some a) f = f a

-- `collect` into an `Option`.
abbrev pub cons_some {ℓ} : {A : Type ℓ} → Option A → Option (List A) → Option (List A)
cons_some none rest = none
cons_some (some a) none = none
cons_some (some a) (some as') = some (a ∷ as')

module _ {V : Type 0} (values : Values V) where
  unfoldable pub get_str : Section V → Str → Option Str
  get_str section key = and_convert (get key section) values.to_str

  unfoldable pub all_texts : List V → Option (List Str)
  all_texts [] = some []
  all_texts (v ∷ rest) = cons_some (values.to_str v) (all_texts rest)

  unfoldable pub get_str_array : Section V → Str → Option (List Str)
  get_str_array section key = and_convert (and_convert (get key section) values.to_array) all_texts

  unfoldable pub get_u32 : Section V → Str → Option ℕ
  get_u32 section key = and_convert (get key section) values.to_u32

  unfoldable pub get_i32 : Section V → Str → Option ℤ
  get_i32 section key = and_convert (get key section) values.to_i32

  unfoldable pub get_bool : Section V → Str → Option Bool
  get_bool section key = and_convert (get key section) values.to_bool

  unfoldable pub get_bytes : Section V → Str → Option (List ℕ)
  get_bytes section key = and_convert (get key section) values.to_bytes

  unfoldable pub get_dict_array : Section V → Str → Option (List (Section V))
  get_dict_array section key = and_convert (get key section) values.to_dict_array
