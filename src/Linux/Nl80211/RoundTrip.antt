-- ===== src/Linux/Nl80211/RoundTrip.antt =====
-- A generic netlink message, written and read back.
use network_manager_rs.Common.{
  ℕ, ◌≡◌, arith, sym, ap, ◌∙◌, List, [], ◌∷◌, ◌++◌, map, append-nil, append_assoc, All, ok,
}
use network_manager_rs.Linux.Netlink.Structs.{Attr, push_attrs}
use network_manager_rs.Linux.Netlink.Attributes.{each_attr, IsAttr, attrs_loop-push_attrs}
use network_manager_rs.Linux.Netlink.Streams.{Message}
use network_manager_rs.Linux.Nl80211.Codec.{RawAttr, raw_attr, push_raw, parse_attrs, nlattr_text}

each_attr-push_raw :
    (attrs : List Attr) (found : List RawAttr)
    → each_attr push_raw attrs found ≡ ok (found ++ map raw_attr attrs)
unfolding each_attr
each_attr-push_raw [] found = ap ok (sym (append-nil found))
each_attr-push_raw (a ∷ attrs) found =
    each_attr-push_raw attrs (found ++ (raw_attr a ∷ []))
    ∙ ap ok (append_assoc found (raw_attr a ∷ []) (map raw_attr attrs))

-- The attributes that are written are read back in order, with the type's flag bits taken off.
pub parse_attrs-push_attrs :
    (attrs : List Attr)
    → All IsAttr attrs
    → parse_attrs (push_attrs attrs) ≡ ok (map raw_attr attrs)
unfolding parse_attrs
parse_attrs-push_attrs attrs h =
    attrs_loop-push_attrs nlattr_text push_raw _ attrs [] h (omega arith)
    ∙ each_attr-push_raw attrs []

-- The message as one of netlink.rs.
abbrev pub command : ℕ → ℕ → ℕ → List Attr → Message
command family_id cmd flags attrs = record {
  message_type = family_id;
  flags = flags;
  payload = cmd ∷ 1 ∷ 0 ∷ 0 ∷ push_attrs attrs;
}
