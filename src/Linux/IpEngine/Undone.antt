-- ===== src/Linux/IpEngine/Undone.antt =====
-- A teardown after the IPv4 phase: whatever the phase asked to install is asked to be removed.
use network_manager_rs.Common.{
  ◌≡◌, refl, ◌⊎◌, inl, inr, true, false, List, [], ◌∷◌, ◌++◌, map, All, some, Str,
}
use network_manager_rs.Common.Int.{ℤ}
use network_manager_rs.Connection.Ip.{ActiveIpv4}
use network_manager_rs.Connection.Profile.{IpConfig}
use network_manager_rs.Linux.Model.{Route}
use network_manager_rs.Linux.IpEngine.Backends.{IpConfigurator, DhcpClient, DnsManager, World}
use network_manager_rs.Linux.IpEngine.Teardown.{teardown}
use network_manager_rs.Linux.IpEngine.Ipv4.{activate_ipv4}
use network_manager_rs.Linux.IpEngine.Attempts.{
  Removal, logged, removals, removals_v4, removals_v6, address_removals_v4, teardown_attempts,
}
use network_manager_rs.Linux.IpEngine.Tracked.{Has, first, later, Item, tracked, Covers4}
use network_manager_rs.Linux.IpEngine.Recorded.{Recorded4, activate_ipv4-Recorded4}

-- The removal takes back what the item installs.
abbrev pub Undoes : Item → Removal → Type 0
Undoes (Item.route r) (Removal.route s) = r ≡ s
Undoes (Item.address_v4 i x p) (Removal.address_v4 j y) =
    (i ≡ j) × (x ≡ y.address) × (p ≡ y.prefix_length)
Undoes (Item.address_v6 i x p) (Removal.address_v6 j y) =
    (i ≡ j) × (x ≡ y.address) × (p ≡ y.prefix_length)
Undoes _ _ = true ≡ false

abbrev pub IsUndone : List Removal → Item → Type 0
IsUndone [] item = true ≡ false
IsUndone (r ∷ rs) item = Undoes item r ⊎ IsUndone rs item

IsUndone-left : (xs ys : List Removal) (item : Item) → IsUndone xs item → IsUndone (xs ++ ys) item
IsUndone-left [] ys item h = absurd (cc h)
IsUndone-left (x ∷ xs) ys item (inl h) = inl h
IsUndone-left (x ∷ xs) ys item (inr h) = inr (IsUndone-left xs ys item h)

IsUndone-right : (xs ys : List Removal) (item : Item) → IsUndone ys item → IsUndone (xs ++ ys) item
IsUndone-right [] ys item h = h
IsUndone-right (x ∷ xs) ys item h = inr (IsUndone-right xs ys item h)

route-IsUndone :
    (r : Route) (rs : List Route) → Has r rs → IsUndone (map Removal.route rs) (Item.route r)
route-IsUndone r [] h = elim h [ ]
route-IsUndone r (s ∷ rs) first = inl refl
route-IsUndone r (s ∷ rs) (later h) = inr (route-IsUndone r rs h)

Covers4-IsUndone :
    (a : ActiveIpv4) (item : Item) → Covers4 a item → IsUndone (removals_v4 (some a)) item
Covers4-IsUndone a (Item.route r) h =
    IsUndone-left (map Removal.route a.routes) (address_removals_v4 a) (Item.route r)
      (route-IsUndone r a.routes h)
Covers4-IsUndone a (Item.address_v4 i x p) h =
    IsUndone-right (map Removal.route a.routes) (address_removals_v4 a) (Item.address_v4 i x p)
      (inl h)
Covers4-IsUndone a (Item.address_v6 i x p) h = absurd (cc h)

All-IsUndone :
    (a : ActiveIpv4) (rest : List Removal) (items : List Item)
    → All (Covers4 a) items
    → All (IsUndone (removals_v4 (some a) ++ rest)) items
All-IsUndone a rest [] h = tt
All-IsUndone a rest (item ∷ items) h = (
  IsUndone-left (removals_v4 (some a)) rest item (Covers4-IsUndone a item h.0),
  All-IsUndone a rest items h.1,
)

module _ {C D N : Type 0} (ips : IpConfigurator C) (client : DhcpClient D)
    (names : DnsManager N) where
  Recorded4-IsUndone :
      (w : World (C × List Item) D N) → Recorded4 w → All (IsUndone (removals w.state)) (w.ip.1)
  Recorded4-IsUndone w (inl e) = rw e tt
  Recorded4-IsUndone w (inr (a, e, h)) = rw e (All-IsUndone a (removals_v6 w.state.ipv6) (w.ip.1) h)

  -- Whatever the backends answer and whether or not the IPv4 phase succeeds: started with nothing asked
  -- for, a teardown of the state that the phase recorded, on backends in any later condition, asks for
  -- the removal of every address and route that the phase asked to install, the connected route of the
  -- address and the default route through the gateway included.
  pub activate_ipv4-teardown :
      (i : ℤ) (name : Str) (config : IpConfig) (owner : Str) (w : World (C × List Item) D N)
      (v : World (C × List Removal) D N)
      → w.ip.1 ≡ []
      → (rs : List Removal) × ((teardown
            (logged ips)
            client
            names
            (activate_ipv4 (tracked ips) client names i name config owner w).1.state
            v).1.ip.1
          ≡ v.ip.1 ++ rs)
        × All
            (IsUndone rs)
            ((activate_ipv4 (tracked ips) client names i name config owner w).1.ip.1)
  activate_ipv4-teardown i name config owner w v h =
      let w' = (activate_ipv4 (tracked ips) client names i name config owner w).1 in
      (
        removals w'.state,
        teardown_attempts ips client names w'.state v,
        Recorded4-IsUndone w' (activate_ipv4-Recorded4 ips client names i name config owner w h),
      )
