-- ===== src/Dbus/Convert/Addresses.antt =====
-- src/dbus/convert.rs: the settings of an IP configuration are read back as what a client sees of it.
use network_manager_rs.Common.{
  ℕ, ◌%◌, ◌≤◌, ◌≡◌, refl, ap, ◌∙◌, Bool, true, false, not, Option, none, some, List, [], ◌∷◌, map,
  keep, filter_map, Str, str, str_eq, str_lt, Result, ok, if◌then◌else◌, arith,
}
use network_manager_rs.Connection.Profile.{
  IpMethod, automatic, manual, disabled, IpConfig, is_empty, bool_ne,
}
use network_manager_rs.Connection.Profile.Validate.{IsIpConfig, IsManual}
use network_manager_rs.Connection.Store.Tree.{get, put}
use network_manager_rs.Linux.Model.{IpAddr, is_ipv4, ip_v4, ip_v6, family_eq, Route}
use network_manager_rs.Dbus.Error.{FacadeError, ErrorTexts}
use network_manager_rs.Dbus.Convert.Variant.{
  Values, IsLawful, Section, get_str, get_str_array, get_u32, get_dict_array, all_texts,
  and_convert,
}
use network_manager_rs.Dbus.Convert.Routes.{
  route_v4_entry, route_v6_entry, collect_v4-map, collect_v6-map,
}
use network_manager_rs.Dbus.Convert.Sections.{get-put_if, get-put_some, built_or}
use network_manager_rs.Dbus.Convert.{
  method_string, ip_config_section, parse_ip_config, parse_manual, parse_by_method, parse_routes,
  routes_if, routes_of, routes_value, put_manual, address_entry, unwrap_or, put_some,
}
use network_manager_rs.Dbus.Convert.Shown.{
  shown_routes, shown_method, shown_ip, HasRoutes, no_routes, prefix_small,
  parse_method-method_string,
}

module _ {V : Type 0} (values : Values V) (lawful : IsLawful values) (show : IpAddr → Str)
    (read : Str → Option IpAddr) (texts : ErrorTexts)
    (read-show : (a : IpAddr) → read (show a) ≡ some a) where
  routes_back :
      (expect_v4 : Bool) (routes : List Route)
      → HasRoutes expect_v4 routes
      → routes_of values show read texts expect_v4
          (routes_value values show read texts expect_v4 routes)
        ≡ ok (shown_routes expect_v4 routes)
  unfolding shown_routes
  routes_back true routes h =
      let rs = keep (λ r. family_eq r.family ip_v4) routes in
      rw (lawful.v4_routes_back (map route_v4_entry rs)) (collect_v4-map rs h)
  routes_back false routes h =
      let rs = keep (λ r. family_eq r.family ip_v6) routes in
      rw (lawful.v6_routes_back (map route_v6_entry rs)) (collect_v6-map rs h)

  texts_back : (texts' : List Str) → all_texts values (map values.val_str texts') ≡ some texts'
  unfolding all_texts
  texts_back [] = refl
  texts_back (t ∷ ts) = rw (lawful.str_back t, texts_back ts) refl

  filter_map-map : (as' : List IpAddr) → filter_map read (map show as') ≡ as'
  filter_map-map [] = refl
  filter_map-map (a ∷ as') = rw (filter_map, read-show a) (ap (◌∷◌ a) (filter_map-map as'))

  -- What the section holds under each of its names.
  module _ (c : IpConfig) (expect_v4 : Bool) where
    section : Section V
    section = ip_config_section values show read texts c expect_v4

    put_manual_elsewhere :
        (m : IpMethod) (j : Str) (s : Section V)
        → str_eq j (str "dns") ≡ false
        → str_eq j (str "gateway") ≡ false
        → str_eq j (str "address-data") ≡ false
        → get j (put_manual values show read texts m c s) ≡ get j s
    put_manual_elsewhere automatic j s d g a = refl
    put_manual_elsewhere disabled j s d g a = refl
    put_manual_elsewhere manual j s d g a =
        rw (get-put_if, d, get-put_some, g, get-put_some, a) refl

    section-method : get (str "method") section ≡ some (values.val_str (method_string c.method))
    unfolding section ip_config_section str_eq get put
    section-method =
        rw (get-put_if, put_manual_elsewhere c.method (str "method") _ refl refl refl) refl

    section-routes : get (str "routes") section ≡ (
        if not (is_empty c.routes)
        then some (routes_value values show read texts expect_v4 c.routes)
        else none)
    unfolding section ip_config_section str_eq get put
    section-routes =
        rw (get-put_if, put_manual_elsewhere c.method (str "routes") _ refl refl refl) refl

  gateway_back :
      (g : Option IpAddr)
      → and_convert
          (and_convert (built_or (λ a. values.val_str (show a)) g none) values.to_str)
          read
        ≡ g
  gateway_back none = refl
  gateway_back (some a) = rw (lawful.str_back (show a), read-show a) refl

  abbrev dns_value : List IpAddr → Option V
  dns_value servers =
      if not (is_empty servers) then some (values.val_str_array (map show servers)) else none

  dns_back :
      (servers : List IpAddr)
      → filter_map read (
          unwrap_or
            (and_convert (and_convert (dns_value servers) values.to_array) (all_texts values))
            [])
        ≡ servers
  dns_back [] = refl
  dns_back (a ∷ rest) =
      rw (lawful.str_array_back (map show (a ∷ rest)), texts_back (map show (a ∷ rest)))
        (filter_map-map (a ∷ rest))

  same_family : (b : Bool) → bool_ne b b ≡ false
  same_family true = refl
  same_family false = refl

  -- A section that holds a manual configuration under its names is read as that configuration.
  parse_manual_back :
      (s : Section V) (a : IpAddr) (n : ℕ) (g : Option IpAddr) (servers : List IpAddr)
      (expect_v4 : Bool)
      → get (str "address-data") s ≡ some (address_entry values show read texts (some n) a)
      → get (str "gateway") s ≡ built_or (λ b. values.val_str (show b)) g none
      → get (str "dns") s ≡ dns_value servers
      → is_ipv4 a ≡ expect_v4
      → n ≤ 128
      → parse_manual values show read texts s expect_v4
        ≡ ok (record {
          method = manual;
          address = some a;
          prefix_length = some n;
          gateway = g;
          dns_servers = servers;
          routes = [];
        })
  unfolding parse_manual get_dict_array get_str get_u32 get_str_array get put str_eq str_lt
  parse_manual_back s a n g servers expect_v4 ha hg hd f b =
      let small : n % 256 ≡ n = omega arith in
      rw
        (
          ha,
          lawful.dict_array_back (
              put_some (str "prefix") values.val_u32 (some n)
                (put (str "address") (values.val_str (show a)) [])
              ∷ []),
          lawful.str_back (show a),
          read-show a,
          f,
          same_family expect_v4,
          lawful.u32_back n (omega arith),
          small,
          hg,
          gateway_back g,
          hd,
          dns_back servers,
        )
        refl

  put_manual_here :
      (c : IpConfig) (s : Section V)
      → get (str "address-data") s ≡ none
      → get (str "gateway") s ≡ none
      → get (str "dns") s ≡ none
      → (get (str "address-data") (put_manual values show read texts manual c s)
          ≡ built_or (address_entry values show read texts c.prefix_length) c.address none)
        × (get (str "gateway") (put_manual values show read texts manual c s)
            ≡ built_or (λ a. values.val_str (show a)) c.gateway none)
        × (get (str "dns") (put_manual values show read texts manual c s) ≡ dns_value c.dns_servers)
  unfolding str_eq
  put_manual_here c s a g d = (
    rw (get-put_if, get-put_some, get-put_some, a) refl,
    rw (get-put_if, get-put_some, get-put_some, g) refl,
    rw (get-put_if, get-put_some, get-put_some, d) refl,
  )

  module _ (c : IpConfig) (expect_v4 : Bool) where
    abbrev method_only : Section V
    method_only = put (str "method") (values.val_str (method_string c.method)) []

    section_manual :
        (j : Str)
        → str_eq j (str "routes") ≡ false
        → c.method ≡ manual
        → get j (section c expect_v4)
          ≡ get j (put_manual values show read texts manual c method_only)
    unfolding section ip_config_section
    section_manual j r e =
        rw (get-put_if, r) (ap (λ m. get j (put_manual values show read texts m c method_only)) e)

    found :
        (a : IpAddr) (n : ℕ)
        → c.address ≡ some a
        → c.prefix_length ≡ some n
        → built_or (address_entry values show read texts c.prefix_length) c.address none
          ≡ some (address_entry values show read texts (some n) a)
    found a n ea en = rw (ea, en) refl

    same_manual :
        (a : IpAddr) (n : ℕ)
        → c.address ≡ some a
        → c.prefix_length ≡ some n
        → ◌≡◌ {A = Result IpConfig FacadeError}
            (ok (record {
              method = manual;
              address = some a;
              prefix_length = some n;
              gateway = c.gateway;
              dns_servers = c.dns_servers;
              routes = [];
            }))
            (ok (record c { method = manual; routes = [] }))
    same_manual a n ea en = ground arith

    manual_back :
        c.method ≡ manual
        → IsManual c.address c.prefix_length expect_v4
        → parse_manual values show read texts (section c expect_v4) expect_v4
          ≡ ok (record c { method = manual; routes = [] })
    unfolding get put str_eq str_lt
    manual_back e (a, n, ea, en, f, b) =
        let (here_a, here_g, here_d) = put_manual_here c method_only refl refl refl in
        parse_manual_back (section c expect_v4) a n c.gateway c.dns_servers expect_v4
          (section_manual (str "address-data") refl e ∙ here_a ∙ found a n ea en)
          (section_manual (str "gateway") refl e ∙ here_g)
          (section_manual (str "dns") refl e ∙ here_d) f (prefix_small expect_v4 n b)
        ∙ same_manual a n ea en

    by_method_back :
        (m : IpMethod)
        → c.method ≡ m
        → IsIpConfig c expect_v4
        → parse_by_method values show read texts m (section c expect_v4) expect_v4
          ≡ ok (record (shown_method m c) { method = m })
    by_method_back automatic e h = refl
    by_method_back disabled e h = refl
    by_method_back manual e h = manual_back e (h e)

    some_routes :
        (routes : List Route)
        → HasRoutes expect_v4 routes
        → routes_if values show read texts expect_v4 (
            if not (is_empty routes)
            then some (routes_value values show read texts expect_v4 routes)
            else none)
          ≡ ok (shown_routes expect_v4 routes)
    unfolding shown_routes
    some_routes [] h = rw (no_routes expect_v4) refl
    some_routes (r ∷ rs) h = routes_back expect_v4 (r ∷ rs) h

    -- The section of a configuration is read as what a client sees of it.
    pub parse_ip_config-ip_config_section :
        IsIpConfig c expect_v4
        → HasRoutes expect_v4 c.routes
        → parse_ip_config values show read texts
            (ip_config_section values show read texts c expect_v4)
            expect_v4
          ≡ ok (shown_ip c expect_v4)
    unfolding parse_ip_config parse_routes get_str shown_ip section
    parse_ip_config-ip_config_section h r =
        rw
          (
            section-method c expect_v4,
            lawful.str_back (method_string c.method),
            parse_method-method_string texts c.method,
            by_method_back c.method refl h,
            section-routes c expect_v4,
            some_routes c.routes r,
          )
          refl
