-- ===== src/Route/Adverts.antt =====
-- subsys/lockgrid/lg_route.c: advertisements, registrations, and what is known of nodes by hearsay.
pub mod Count
use lockgrid.Prelude.{
  ℕ, zero, suc, ◌+◌, ◌-◌, ◌*◌, min, Bool, true, false, not, ◌&&◌, ◌||◌, List, [], ◌∷◌, Option, none,
  some, ltb, leb, ◌==◌, if◌then◌else◌, set, get_or, get_elem?, length, replicate,
}
use lockgrid.Types.{
  u16, u64, Neigh, is_linked, role_code, addr_invalid, rank_infinite, usec_per_sec,
}
use lockgrid.Config.{Config}
use lockgrid.Frame.{put_le16, get_le16}
use lockgrid.Neigh.{find}
use lockgrid.Route.{Grid, recompute, is_backhaul}
use lockgrid.Route.Routes.{route_add, no_route}
use lockgrid.Route.Duplicates.{dup_cache_size}

-- LG_ADV_MAX_ENTRIES, LG_GOSSIP_SEEK_MARGIN, LG_WANT_TIMEOUT_US, LG_CTRL_ROUTE_ADV
abbrev pub adv_max_entries : ℕ
adv_max_entries = 6

abbrev pub gossip_seek_margin : ℕ
gossip_seek_margin = 8

abbrev pub want_timeout_us : ℕ
want_timeout_us = 20 * usec_per_sec

abbrev pub ctrl_route_adv : ℕ
ctrl_route_adv = 4

-- The loop of `lg_route_build_adv`, with `off` and `n_entries` carried along.
unfoldable pub build_from : ℕ → List Neigh → List ℕ → ℕ → ℕ → List ℕ × ℕ × ℕ
build_from cap [] buf off count = (buf, off, count)
build_from cap (n ∷ rest) buf off count =
    let takes = is_linked n.state in
    let next =
      build_from cap rest
        (if takes then put_le16 (put_le16 buf off n.addr) (off + 2) n.link_cost else buf)
        (if takes then off + 4 else off) (if takes then count + 1 else count) in
    if leb adv_max_entries count || (takes && ltb cap (off + 4)) then (buf, off, count) else next

-- `lg_route_build_adv` into a buffer of which `cap` bytes may be used: the buffer and the length.
unfoldable pub build_adv : Grid → List ℕ → ℕ → List ℕ × ℕ
build_adv g buf cap =
    let head = set (put_le16 (set buf 0 ctrl_route_adv) 1 g.rank) 3 (role_code g.role) in
    let r = build_from cap g.neigh head 5 0 in if ltb cap 5 then (buf, 0) else (set r.0 4 r.2, r.1)

-- `struct lg_gossip`
pub record Gossip : Type 0 where
  pub addr : ℕ
  pub rank : ℕ
  pub heard_us : ℕ

-- The loop of `gossip_record`, from place `i` on; the place and the time of the choice so far are carried
-- along.
unfoldable pub gossip_slot : ℕ → ℕ → List Gossip → Option (ℕ × ℕ) → Option ℕ
gossip_slot addr i [] none = none
gossip_slot addr i [] (some (j, heard)) = some j
gossip_slot addr i (g ∷ rest) slot =
    let older : Bool = elim slot [ none ↦ true | some s ↦ ltb g.heard_us s.1 ] in
    let idle = (g.addr == addr_invalid) || (g.addr == 0) in
    let later =
      gossip_slot addr (suc i) rest (if idle || older then some (i, g.heard_us) else slot) in
    if g.addr == addr then some i else later

-- `gossip_record`
unfoldable pub gossip_record : ℕ → Grid → ℕ → ℕ → List Gossip → List Gossip
gossip_record now g addr rank l =
    let known : Bool = elim (find g.neigh addr) [ none ↦ false | some i ↦ true ] in
    if (addr == g.addr) || ((addr == addr_invalid) || known)
    then l
    else elim (gossip_slot addr 0 l none) [
      | none ↦ l
      | some i ↦ set l i (record { addr = addr; rank = rank; heard_us = now })
    ]

-- Whether a node known by hearsay is worth going to look for.
unfoldable pub worth_seeking : Grid → Gossip → Bool
worth_seeking g h =
    let known : Bool = elim (find g.neigh h.addr) [ none ↦ false | some i ↦ true ] in
    not ((h.addr == addr_invalid) || (h.addr == 0))
    && (not ((h.rank == rank_infinite) || known)
        && ((g.rank == rank_infinite) || ltb (h.rank + gossip_seek_margin) g.rank))

-- The loop of `gossip_consider_seeking`.
unfoldable pub best_gossip : Grid → List Gossip → Option Gossip → Option Gossip
best_gossip g [] best = best
best_gossip g (h ∷ rest) best =
    let better : Bool = elim best [ none ↦ true | some b ↦ ltb h.rank b.rank ] in
    best_gossip g rest (if worth_seeking g h && better then some h else best)

-- `gossip_consider_seeking`, for `want_addr` and `want_until_us`; whether discovery is retuned.
unfoldable pub consider_seeking : ℕ → Grid → List Gossip → ℕ → ℕ → ℕ × ℕ × Bool
consider_seeking now g l want until =
    if not (want == addr_invalid) && ltb now until
    then (want, until, false)
    else elim (best_gossip g l none) [
      | none ↦ (want, until, false)
      | some b ↦ (b.addr, u64 (now + want_timeout_us), true)
    ]

-- What one entry of an advertisement of the neighbour `via` with the rank `peer_rank` does.
unfoldable pub take_entry : ℕ → ℕ → ℕ → ℕ → ℕ → Grid × List Gossip → Grid × List Gossip
take_entry now via peer_rank addr cost (g, l) = (
  if ltb g.rank peer_rank && not (g.rank == rank_infinite) then route_add now g addr via 2 else g,
  if peer_rank == rank_infinite
      then l
      else gossip_record now g addr (u16 (min (peer_rank + cost) (rank_infinite - 1))) l,
)

-- The loop of `lg_route_handle_adv`, for the entries that are left.
unfoldable pub take_entries :
    ℕ → ℕ → ℕ → List ℕ → ℕ → ℕ → ℕ → Grid × List Gossip → Grid × List Gossip
take_entries now via peer_rank buf len zero off s = s
take_entries now via peer_rank buf len (suc k) off s =
    let next =
      take_entries now via peer_rank buf len k (off + 4)
        (take_entry now via peer_rank (get_le16 buf off) (get_le16 buf (off + 2)) s) in
    if leb (off + 4) len then next else s

-- `lg_route_handle_adv` of the neighbour in slot `i`, up to the end of the loop.
unfoldable pub take_adv : ℕ → ℕ → Neigh → List ℕ → ℕ → Grid × List Gossip → Grid × List Gossip
take_adv now i n buf len (g, l) =
    let n' = record n {
      advert = record n.advert { role = get_or buf 3 0; peer_rank = get_le16 buf 1 };
      bookkeeping = record n.bookkeeping { route_adv_us = now };
    } in
    take_entries now n.addr (get_le16 buf 1) buf len (get_or buf 4 0) 5
      (record g { neigh = set g.neigh i n' }, l)

-- What `lg_route_handle_adv` leaves: the hearsay, the two fields that name who is looked for, and whether
-- the application is told of a new parent and discovery is retuned.
pub record Heeded : Type 0 where
  pub grid : Grid
  pub gossip : List Gossip
  pub want_addr : ℕ
  pub want_until_us : ℕ
  pub changed : Bool
  pub retunes : Bool

-- `lg_route_handle_adv`
unfoldable pub handle_adv :
    Config → ℕ → ℕ → Neigh → List ℕ → ℕ → Grid → List Gossip → ℕ → ℕ → Heeded
handle_adv cfg now i n buf len g l want until =
    let s = take_adv now i n buf len (g, l) in
    let r = recompute cfg s.0 in
    let seek = consider_seeking now r.grid s.1 want until in
    if ltb len 5
    then record {
      grid = g;
      gossip = l;
      want_addr = want;
      want_until_us = until;
      changed = false;
      retunes = false;
    }
    else record {
      grid = r.grid;
      gossip = s.1;
      want_addr = seek.0;
      want_until_us = seek.1;
      changed = r.changed;
      retunes = seek.2;
    }

-- The loop of `lg_route_handle_reg`.
unfoldable pub take_regs : ℕ → ℕ → List ℕ → ℕ → ℕ → ℕ → Grid → Grid
take_regs now via buf len zero off g = g
take_regs now via buf len (suc k) off g =
    let next = take_regs now via buf len k (off + 2) (route_add now g (get_le16 buf off) via 1) in
    if leb (off + 2) len then next else g

-- `lg_route_handle_reg`
unfoldable pub handle_reg : ℕ → ℕ → List ℕ → ℕ → Grid → Grid
handle_reg now via buf len g =
    if ltb len 2 then g else take_regs now via buf len (get_or buf 1 0) 2 g

-- LG_GOSSIP_SIZE
abbrev pub gossip_size : ℕ
gossip_size = 4

-- `lg_route_init`: the state, the hearsay and the address that is looked for.
unfoldable pub route_init : Config → Grid → Grid × List Gossip × ℕ
route_init cfg g = (
  record g {
    routes = replicate cfg.max_routes no_route;
    dup_cache = replicate dup_cache_size (record { origin = 0; msg_id = 0 });
    dup_next = 0;
    rank = if is_backhaul g.role then 0 else rank_infinite;
  },
  replicate gossip_size (record { addr = 0; rank = 0; heard_us = 0 }),
  addr_invalid,
)
