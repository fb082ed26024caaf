-- ===== src/Linux/IpConfig/Listed.antt =====
-- The listing of the routes that the kernel holds, as their requests describe them.
use mathlib.Core.List.{Perm}
use network_manager_rs.Common.{
  ℕ, ◌≡◌, arith, refl, ap, ◌∙◌, true, false, some, List, [], ◌∷◌, map, All, ok, str_lt_asym,
  str_lt_trans, str_lt_total,
}
use network_manager_rs.Common.Sorting.{IsSorted, sort_by, sort_by-perm, sort_by-IsSorted}
use network_manager_rs.Linux.Model.{Route}
use network_manager_rs.Linux.Netlink.Wire.{rtm_newroute}
use network_manager_rs.Linux.Netlink.Structs.{route_dump_request}
use network_manager_rs.Linux.Netlink.Parse.{parse_route}
use network_manager_rs.Linux.Netlink.Messages.{parse_route_messages}
use network_manager_rs.Linux.Netlink.Streams.{Message}
use network_manager_rs.Linux.Netlink.Sockets.{
  Socket, Received, by_key, route_key, collect, get_routes,
}
use network_manager_rs.Linux.Netlink.Answers.{Sends, exchange_lem}
use network_manager_rs.Linux.Netlink.Listing.{IsEntry, joined, dump_buffers, collect-dump_buffers}
use network_manager_rs.Linux.IpConfig.Values.{IsRoute}
use network_manager_rs.Linux.IpConfig.Payloads.{requested, parse_route-route_payload}
use network_manager_rs.Linux.IpConfig.Announced.{route_message, route_IsMessage}

-- The message of a dump that describes a route: one part of several.
abbrev pub route_entry : Route → Message
route_entry = route_message rtm_newroute 2

entries :
    (rs : List Route)
    → All IsRoute rs
    → All (IsEntry rtm_newroute parse_route route_entry requested) rs
entries [] h = tt
entries (r ∷ rs) h = (
  record {
    is_message = route_IsMessage rtm_newroute 2 r h.0 (omega arith) (omega arith);
    is_type = refl;
    is_listed = refl;
    is_not_done = refl;
    is_parsed = parse_route-route_payload r h.0;
  },
  entries rs h.1,
)

all_entries :
    (bufs : List (List Route))
    → All (All IsRoute) bufs
    → All (All (IsEntry rtm_newroute parse_route route_entry requested)) bufs
all_entries [] h = tt
all_entries (rs ∷ bufs) h = (entries rs h.0, all_entries bufs h.1)

module _ {ℓ} {A : Type ℓ} (key : A → List ℕ) where
  by_key_asym : (a b : A) → by_key key a b ≡ true → by_key key b a ≡ false
  by_key_asym a b h = str_lt_asym (key a) (key b) h

  by_key_negtrans :
      (a b c : A) → by_key key a b ≡ false → by_key key b c ≡ false → by_key key a c ≡ false
  by_key_negtrans a b c h k =
      ground (arith, str_lt_total (key a) (key b), str_lt_trans (key b) (key a) (key c))

-- The listing returns every route of the dump, in all its buffers, exactly as often as the kernel
-- sent it and nothing else, sorted by family, destination, prefix length, metric and interface, for
-- routes that a request can carry, on a socket that opens and takes the whole request.
pub get_routes-listed :
    (socket : Socket) (bufs : List (List Route)) (last : List Route) (more : List Received)
    → Sends socket (route_dump_request 3)
    → socket.received ≡ dump_buffers rtm_newroute parse_route route_entry requested bufs last more
    → All (All IsRoute) bufs
    → All IsRoute last
    → (listing : List Route) × (get_routes socket ≡ some (ok listing))
      × Perm listing
          (map requested (joined rtm_newroute parse_route route_entry requested bufs last))
      × IsSorted (by_key route_key) listing
unfolding get_routes
get_routes-listed socket bufs last more s r h l =
    let all = map requested (joined rtm_newroute parse_route route_entry requested bufs last) in
    let found : collect parse_route_messages socket.received [] ≡ some (ok all) =
      ap (λ received. collect parse_route_messages received []) r
      ∙ unfold parse_route_messages in
        collect-dump_buffers rtm_newroute parse_route route_entry requested bufs last more []
          (all_entries bufs h) (entries last l) in
    (
      sort_by (by_key route_key) all,
      rw
          (
            exchange_lem socket (route_dump_request 3)
                (λ received. collect parse_route_messages received []) s,
            found,
          )
          refl,
      sort_by-perm (by_key route_key) all,
      sort_by-IsSorted (by_key route_key) (by_key_asym route_key) (by_key_negtrans route_key) all,
    )
