-- ===== src/Dbus/Tests/Bus.antt =====
-- Values of the bus with their conversions, and addresses as texts.
use network_manager_rs.Common.{
  ℕ, zero, suc, ◌≡◌, refl, ap, Bool, Option, none, some, List, [], ◌∷◌, map, Str, str,
}
use network_manager_rs.Common.Int.{ℤ}
use network_manager_rs.Linux.Model.{IpAddr, v4, v6}
use network_manager_rs.Dbus.Error.{ErrorTexts}
use network_manager_rs.Dbus.Convert.Variant.{Values, IsLawful, Section, V6Entry}

mutual
  pub data Variant : Type 0 where
    text : Str → Variant
    word : ℕ → Variant
    int : ℤ → Variant
    flag : Bool → Variant
    bytes : List ℕ → Variant
    dicts : Dicts → Variant
    array : Variants → Variant
    words : List (List ℕ) → Variant
    entries : List V6Entry → Variant

  pub data Dicts : Type 0 where
    no_dicts : Dicts
    dict : Entries → Dicts → Dicts

  pub data Entries : Type 0 where
    no_entries : Entries
    entry : Str → Variant → Entries → Entries

  pub data Variants : Type 0 where
    no_variants : Variants
    variant : Variant → Variants → Variants

abbrev entries_of : Section Variant → Entries
entries_of [] = no_entries
entries_of ((k, v) ∷ rest) = entry k v (entries_of rest)

abbrev section_of : Entries → Section Variant
section_of no_entries = []
section_of (entry k v rest) = (k, v) ∷ section_of rest

abbrev dicts_of : List (Section Variant) → Dicts
dicts_of [] = no_dicts
dicts_of (s ∷ rest) = dict (entries_of s) (dicts_of rest)

abbrev sections_of : Dicts → List (Section Variant)
sections_of no_dicts = []
sections_of (dict es rest) = section_of es ∷ sections_of rest

abbrev variants_of : List Variant → Variants
variants_of [] = no_variants
variants_of (v ∷ rest) = variant v (variants_of rest)

abbrev list_of : Variants → List Variant
list_of no_variants = []
list_of (variant v rest) = v ∷ list_of rest

section_of-entries_of : (s : Section Variant) → section_of (entries_of s) ≡ s
section_of-entries_of [] = refl
section_of-entries_of ((k, v) ∷ rest) = ap (◌∷◌ (k, v)) (section_of-entries_of rest)

sections_of-dicts_of : (ss : List (Section Variant)) → sections_of (dicts_of ss) ≡ ss
sections_of-dicts_of [] = refl
sections_of-dicts_of (s ∷ rest) = rw (section_of-entries_of s, sections_of-dicts_of rest) refl

list_of-variants_of : (vs : List Variant) → list_of (variants_of vs) ≡ vs
list_of-variants_of [] = refl
list_of-variants_of (v ∷ rest) = ap (◌∷◌ v) (list_of-variants_of rest)

abbrev pub bus : Values Variant
bus = record {
  val_str = text;
  val_u32 = word;
  val_i32 = int;
  val_bool = flag;
  val_bytes = bytes;
  val_dict_array = λ ss. dicts (dicts_of ss);
  val_str_array = λ ss. array (variants_of (map text ss));
  val_v4_routes = words;
  val_v6_routes = entries;
  to_str = λ v. elim v [ text s ↦ some s | _ ↦ none ];
  to_u32 = λ v. elim v [ word n ↦ some n | _ ↦ none ];
  to_i32 = λ v. elim v [ int n ↦ some n | _ ↦ none ];
  to_bool = λ v. elim v [ flag b ↦ some b | _ ↦ none ];
  to_bytes = λ v. elim v [ bytes bs ↦ some bs | _ ↦ none ];
  to_dict_array = λ v. elim v [ dicts ds ↦ some (sections_of ds) | _ ↦ none ];
  to_array = λ v. elim v [ array vs ↦ some (list_of vs) | _ ↦ none ];
  to_v4_routes = λ v. elim v [ words ws ↦ some ws | _ ↦ none ];
  to_v6_routes = λ v. elim v [ entries es ↦ some es | _ ↦ none ];
}

pub bus-IsLawful : IsLawful bus
bus-IsLawful = record {
  str_back = λ s. refl;
  u32_back = λ n h. refl;
  i32_back = λ n. refl;
  bool_back = λ b. refl;
  bytes_back = λ bs. refl;
  dict_array_back = λ ds. ap some (sections_of-dicts_of ds);
  str_array_back = λ ss. ap some (list_of-variants_of (map text ss));
  v4_routes_back = λ rs. refl;
  v6_routes_back = λ rs. refl;
}

-- Addresses as texts of their octets behind a mark for the family.
abbrev pub show : IpAddr → Str
show (v4 o) = 4 ∷ o.a ∷ o.b ∷ o.c ∷ o.d ∷ []
show (v6 bs) = 6 ∷ bs

abbrev pub read : Str → Option IpAddr
read (suc (suc (suc (suc zero))) ∷ a ∷ b ∷ c ∷ d ∷ []) =
    some (v4 (record { a = a; b = b; c = c; d = d }))
read (suc (suc (suc (suc (suc (suc zero))))) ∷ bs) = some (v6 bs)
read _ = none

pub read-show : (a : IpAddr) → read (show a) ≡ some a
read-show (v4 o) = refl
read-show (v6 bs) = refl

abbrev pub texts : ErrorTexts
texts = record {
  validation = λ e. str "invalid";
  store = λ e. str "store";
  activation = λ e. str "activation";
  netlink = λ e. str "netlink";
  quoted = λ s. s;
}
