-- ===== src/Route/Routes.antt =====
-- subsys/lockgrid/lg_route.c: the routes to nodes below this one.
pub mod Lookup
use lockgrid.Prelude.{
  ℕ, zero, suc, ◌+◌, ◌≤◌, ◌<◌, ◌^◌, ◌%◌, Bool, true, false, not, ◌&&◌, ◌||◌, List, [], ◌∷◌, Option,
  none, some, ltb, leb, ◌==◌, if◌then◌else◌, set, get_elem?,
}
use lockgrid.Types.{Neigh, is_linked, addr_invalid, u64}
use lockgrid.Neigh.{find}
use lockgrid.Route.{Downward, Grid, parent, route_lifetime_us}

-- The loop of `route_find`, from entry `i` on.
unfoldable pub route_find_from : ℕ → List Downward → ℕ → Option ℕ
route_find_from i [] dst = none
route_find_from i (r ∷ rest) dst =
    let later = route_find_from (suc i) rest dst in if r.dst == dst then some i else later

-- `route_find`
unfoldable pub route_find : List Downward → ℕ → Option ℕ
route_find l dst = route_find_from 0 l dst

-- The loop of `lg_route_add` for a place: the entry and the expiry of the one that expires soonest so
-- far are carried along.
unfoldable pub pick_place : ℕ → ℕ → List Downward → Option (ℕ × ℕ) → Option ℕ
pick_place now i [] none = none
pick_place now i [] (some (j, soonest)) = some j
pick_place now i (r ∷ rest) best =
    let sooner : Bool = elim best [ none ↦ true | some (j, soonest) ↦ ltb r.expiry_us soonest ] in
    let later = pick_place now (suc i) rest (if sooner then some (i, r.expiry_us) else best) in
    if (r.dst == addr_invalid) || leb r.expiry_us now then some i else later

unfoldable pub place_for : ℕ → List Downward → ℕ → Option ℕ
place_for now l dst = elim (route_find l dst) [ none ↦ pick_place now 0 l none | some i ↦ some i ]

-- The entry that `lg_route_add` leaves in the place of `r`.
unfoldable pub refreshed : ℕ → ℕ → ℕ → ℕ → Downward → Downward
refreshed now dst via hops r =
    let until = u64 (now + route_lifetime_us) in
    if (r.dst == dst) && (ltb now r.expiry_us && ltb r.hops hops)
    then record r { expiry_us = until }
    else record { dst = dst; next_hop = via; hops = hops; expiry_us = until }

-- `lg_route_add`
unfoldable pub route_add : ℕ → Grid → ℕ → ℕ → ℕ → Grid
route_add now g dst via hops =
    if (dst == addr_invalid) || (dst == g.addr) then g else elim (place_for now g.routes dst) [
      | none ↦ g
      | some i ↦ elim (get_elem? g.routes i) [
        | none ↦ g
        | some r ↦ record g { routes = set g.routes i (refreshed now dst via hops r) }
      ]
    ]

abbrev pub no_route : Downward
no_route = record { dst = 0; next_hop = 0; hops = 0; expiry_us = 0 }

-- `lg_route_flush_via`, on the entries.
unfoldable pub flush_via : List Downward → ℕ → List Downward
flush_via [] via = []
flush_via (r ∷ rest) via = (if r.next_hop == via then no_route else r) ∷ flush_via rest via

-- Whether an address is that of a neighbour with a link.
unfoldable pub has_link : List Neigh → ℕ → Bool
has_link l addr = elim (find l addr) [
  | none ↦ false
  | some i ↦ elim (get_elem? l i) [ none ↦ false | some n ↦ is_linked n.state ]
]

-- `lg_route_next_hop`; `upward` is the flag LG_DATA_F_UPWARD. The address, and the state with a route
-- whose child is gone cleared.
unfoldable pub next_hop : ℕ → Grid → ℕ → Bool → ℕ × Grid
next_hop now g final upward =
    if upward
    then (parent g.neigh, g)
    else if has_link g.neigh final
    then (final, g)
    else elim (route_find g.routes final) [
      | none ↦ (parent g.neigh, g)
      | some i ↦ elim (get_elem? g.routes i) [
        | none ↦ (parent g.neigh, g)
        | some r ↦
            if ltb now r.expiry_us
            then if has_link g.neigh r.next_hop
              then (r.next_hop, g)
              else (parent g.neigh, record g { routes = set g.routes i no_route })
            else (parent g.neigh, g)
      ]
    ]
