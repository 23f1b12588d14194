-- ===== src/Route.antt =====
-- subsys/lockgrid/lg_route.c: rank, parents, downward routes and duplicate suppression. The fields
-- of `lg` that this file works on, and its own static ones, are one record.
pub mod Best
pub mod Parents
pub mod Rank
pub mod Mismatch
pub mod Routes
pub mod Duplicates
pub mod Adverts
mod Tests
use lockgrid.Prelude.{
  ℕ, zero, suc, ◌+◌, ◌-◌, ◌*◌, ◌/◌, ◌%◌, ◌^◌, ◌≤◌, ◌<◌, min, max, Bool, true, false, not, ◌&&◌,
  ◌||◌, List, [], ◌∷◌, Option, none, some, ltb, leb, ◌==◌, if◌then◌else◌, set, get_elem?, replicate,
  length,
}
use lockgrid.Types.{
  u8, u16, u32, u64, Neigh, Bookkeeping, Role, leaf, router, backhaul, is_linked, addr_invalid,
  rank_infinite, usec_per_sec,
}
use lockgrid.Config.{Config}
use lockgrid.Neigh.{find}

-- LG_RANK_HYSTERESIS
abbrev pub rank_hysteresis : ℕ
rank_hysteresis = 4

-- LG_ROUTE_LIFETIME_US
abbrev pub route_lifetime_us : ℕ
route_lifetime_us = 120 * usec_per_sec

-- `struct lg_route`
pub record Downward : Type 0 where
  pub dst : ℕ
  pub next_hop : ℕ
  pub hops : ℕ
  pub expiry_us : ℕ

-- An entry of the duplicate cache.
pub record Heard : Type 0 where
  pub origin : ℕ
  pub msg_id : ℕ

pub record Grid : Type 0 where
  pub addr : ℕ
  pub role : Role
  pub rank : ℕ
  pub neigh : List Neigh
  pub routes : List Downward
  pub dup_cache : List Heard
  pub dup_next : ℕ
  pub adv_urgent : Bool
  pub parent_switches : ℕ

abbrev pub is_backhaul : Role → Bool
is_backhaul backhaul = true
is_backhaul _ = false

-- `rank_through`
unfoldable pub rank_through : Config → Neigh → ℕ
rank_through cfg n =
    let cost = n.peer_rank + n.link_cost in
    if not (is_linked n.state) || (n.peer_rank == rank_infinite)
    then rank_infinite
    else if leb cfg.max_rank cost
    then rank_infinite
    else cost

-- `lg_parent`
unfoldable pub parent : List Neigh → ℕ
parent [] = addr_invalid
parent (n ∷ rest) =
    let later = parent rest in if n.is_parent && is_linked n.state then n.addr else later

-- An entry of `best_cost` and `best`; `none` is the null pointer.
pub record Slot : Type 0 where
  pub cost : ℕ
  pub who : Option ℕ

abbrev pub empty_slot : Slot
empty_slot = record { cost = rank_infinite; who = none }

-- The entries behind a place move down by one, and the last is dropped.
unfoldable pub shift : Slot → List Slot → List Slot
shift s [] = []
shift s (t ∷ rest) = s ∷ shift t rest

-- The insertion of one candidate.
unfoldable pub insert : Slot → List Slot → List Slot
insert s [] = []
insert s (t ∷ rest) =
    let later = insert s rest in if ltb s.cost t.cost then s ∷ shift t rest else t ∷ later

-- The two tests that a candidate has to pass.
unfoldable pub is_candidate : Config → Neigh → Bool
is_candidate cfg n = ltb (rank_through cfg n) rank_infinite && ltb n.peer_rank (rank_through cfg n)

-- The loop over the neighbours, from slot `i` on.
unfoldable pub gather : Config → ℕ → List Neigh → List Slot → List Slot
gather cfg i [] best = best
gather cfg i (n ∷ rest) best = gather cfg (suc i) rest (
    if is_candidate cfg n
    then insert (record { cost = rank_through cfg n; who = some i }) best
    else best)

abbrev pub holds : Slot → ℕ → Bool
holds s i = elim s.who [ none ↦ false | some j ↦ j == i ]

-- `found`, and the set with `head` in the place of the first entry that holds slot `i`.
unfoldable pub swap_in : Slot → ℕ → List Slot → Option (List Slot)
swap_in head i [] = none
swap_in head i (s ∷ rest) =
    let later = swap_in head i rest in
    if holds s i then some (head ∷ rest) else elim later [ none ↦ none | some r ↦ some (s ∷ r) ]

-- The incumbent, in slot `i` at `cost`, goes back to the head of the set, if it is in the set.
unfoldable pub restore : ℕ → ℕ → List Slot → List Slot
restore i cost [] = []
restore i cost (head ∷ rest) = elim (swap_in head i rest) [
  | none ↦ head ∷ rest
  | some r ↦ record { cost = cost; who = some i } ∷ r
]

abbrev pub cost_at : Config → List Neigh → ℕ → ℕ
cost_at cfg l i = elim (get_elem? l i) [ none ↦ rank_infinite | some n ↦ rank_through cfg n ]

abbrev pub addr_at : List Neigh → ℕ → ℕ
addr_at l i = elim (get_elem? l i) [ none ↦ addr_invalid | some n ↦ n.addr ]

unfoldable pub head_cost : List Slot → ℕ
head_cost [] = rank_infinite
head_cost (s ∷ rest) = s.cost

unfoldable pub head_who : List Slot → Option ℕ
head_who [] = none
head_who (s ∷ rest) = s.who

-- The hysteresis.
unfoldable pub keep_incumbent : Config → List Neigh → ℕ → List Slot → List Slot
keep_incumbent cfg l old best = elim (head_who best) [
  | none ↦ best
  | some b ↦
      if not (old == addr_invalid) && not (addr_at l b == old)
      then elim (find l old) [
        | none ↦ best
        | some cur ↦
            let cost = cost_at cfg l cur in
            if ltb cost rank_infinite && leb cost (head_cost best + rank_hysteresis)
            then restore cur cost best
            else best
      ]
      else best
]

unfoldable pub in_set : ℕ → List Slot → Bool
in_set i [] = false
in_set i (s ∷ rest) = holds s i || in_set i rest

abbrev pub set_parent : Neigh → Bool → Neigh
set_parent n b = record n { bookkeeping = record n.bookkeeping { is_parent = b } }

-- `is_parent` of every neighbour, from slot `i` on.
unfoldable pub mark_parents : ℕ → List Slot → List Neigh → List Neigh
mark_parents i best [] = []
mark_parents i best (n ∷ rest) = set_parent n (in_set i best) ∷ mark_parents (suc i) best rest

unfoldable pub clear_parents : List Neigh → List Neigh
clear_parents [] = []
clear_parents (n ∷ rest) = set_parent n false ∷ clear_parents rest

unfoldable pub clear_urgent : List Neigh → List Neigh
clear_urgent [] = []
clear_urgent (n ∷ rest) =
    record n { bookkeeping = record n.bookkeeping { adv_urgent_done = false } } ∷ clear_urgent rest

-- The parent set, with the old parent's address.
unfoldable pub choose : Config → List Neigh → List Slot
choose cfg l =
    keep_incumbent cfg l (parent l) (gather cfg 0 l (replicate cfg.max_parents empty_slot))

unfoldable pub rank_of : List Slot → ℕ
rank_of best = elim (head_who best) [
  | none ↦ rank_infinite
  | some i ↦ u16 (min (head_cost best) (rank_infinite - 1))
]

-- What `lg_route_recompute` returns, and whether it reports LG_EVT_ROUTE_LOST.
pub record Outcome : Type 0 where
  pub grid : Grid
  pub changed : Bool
  pub route_lost : Bool

-- `lg_route_recompute`
unfoldable pub recompute : Config → Grid → Outcome
recompute cfg g =
    if is_backhaul g.role
    then record {
      grid = record g { rank = 0; neigh = clear_parents g.neigh };
      changed = false;
      route_lost = false;
    }
    else let best = choose cfg g.neigh in
      let marked = mark_parents 0 best g.neigh in
      let rank = rank_of best in
      let changed = not (parent marked == parent g.neigh) in
      let moved = not (rank == g.rank) in
      record {
        grid = record g {
          rank = rank;
          neigh = if moved then clear_urgent marked else marked;
          adv_urgent = if moved then true else g.adv_urgent;
          parent_switches = if changed then u32 (g.parent_switches + 1) else g.parent_switches;
        };
        changed = changed;
        route_lost = not (g.rank == rank_infinite) && (rank == rank_infinite);
      }

-- `lg_has_route`
unfoldable pub has_route : Grid → Bool
has_route g = is_backhaul g.role || not (g.rank == rank_infinite)
