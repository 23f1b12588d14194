-- ===== src/Disc/Candidate.antt =====
-- subsys/lockgrid/lg_disc.c: which of two nodes starts a handshake.
use lockgrid.Prelude.{
  ℕ, ◌+◌, ◌^◌, ◌<◌, ◌≡◌, Bool, true, false, not, ◌&&◌, ◌||◌, ltb, ◌==◌, if◌then◌else◌, arith, ◌⊎◌,
  inl, inr, Bool-cases,
}
use lockgrid.Prelude.Int.{ℤ, pos, ltb_ℤ, ◌-ℤ◌}
use lockgrid.Types.{rank_infinite}
use lockgrid.Config.{Config}
use lockgrid.Neigh.{linked_count}
use lockgrid.Route.{Grid, has_route, is_backhaul}
use lockgrid.Disc.{Disc}
use lockgrid.Disc.Beacon.{Beacon, beacon_of}

-- The tests of `candidate_is_useful` on the beacon and the signal alone.
unfoldable pub can_offer : Config → Beacon → ℤ → Bool
unfolding ◌-ℤ◌
can_offer cfg b rssi =
    not ((b.role == 0) || (b.link_capacity == 0))
    && (not (ltb_ℤ rssi (◌-ℤ◌ cfg.chan_noise_floor_dbm (pos 10))) && not (b.rank == rank_infinite))

-- `candidate_is_useful`
unfoldable pub is_useful : Config → Grid → Beacon → ℕ → ℤ → Bool
unfolding can_offer
is_useful cfg g b src rssi =
    if not (can_offer cfg b rssi)
    then false
    else if is_backhaul g.role
    then false
    else if not (has_route g)
    then true
    else if ltb (linked_count g.neigh) cfg.min_links_target
    then (if b.rank == g.rank then ltb src g.addr else ltb b.rank g.rank)
    else ltb (b.rank + 4) g.rank

-- The order in which two nodes take on the handshake: by rank, and by address where ranks are equal.
abbrev Before : ℕ → ℕ → ℕ → ℕ → Type 0
Before rank addr rank' addr' = (rank < rank') ⊎ ((rank ≡ rank') × (addr < addr'))

-- A node only starts a handshake towards one that comes before it.
is_useful-Before :
    (cfg : Config) (g : Grid) (b : Beacon) (src : ℕ) (rssi : ℤ)
    → g.rank < 2 ^ 16
    → b.rank < 2 ^ 16
    → is_useful cfg g b src rssi ≡ true
    → Before b.rank src g.rank g.addr
unfolding is_useful has_route
is_useful-Before cfg g b src rssi fits sent_fits h = ground arith

-- Of two nodes that hear the beacons that each of them makes of its present
-- state, at most one finds the other worth a handshake: if one of them does, the other does not. The
-- two may be built with different options, and hear each other with any strength.
pub is_useful-exclusive :
    (cfg cfg' : Config) (g g' : Grid) (d d' : Disc) (offering offering' : Bool) (i i' : ℕ)
    (rssi rssi' : ℤ)
    → g.rank < 2 ^ 16
    → g'.rank < 2 ^ 16
    → is_useful cfg g (beacon_of cfg' g' d' offering' i') g'.addr rssi ≡ true
    → is_useful cfg' g' (beacon_of cfg g d offering i) g.addr rssi' ≡ false
unfolding beacon_of
is_useful-exclusive cfg cfg' g g' d d' offering offering' i i' rssi rssi' fits fits' h =
    let one =
      is_useful-Before cfg g (beacon_of cfg' g' d' offering' i') g'.addr rssi fits fits' h in
    let other = is_useful-Before cfg' g' (beacon_of cfg g d offering i) g.addr rssi' fits' fits in
    elim (Bool-cases (is_useful cfg' g' (beacon_of cfg g d offering i) g.addr rssi')) [
      | inl also ↦ (let two = other also in absurd (omega arith))
      | inr never ↦ never
    ]
