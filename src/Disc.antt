-- ===== src/Disc.antt =====
-- subsys/lockgrid/lg_disc.c: discovery. Time and random numbers are arguments; the fields of `lg`
-- that this file keeps, and its own static ones, are one record.
pub mod Scan
pub mod Beacon
pub mod Candidate
pub mod Jitter
mod Tests
use lockgrid.Prelude.{
  ℕ, zero, suc, ◌+◌, ◌-◌, ◌*◌, ◌/◌, ◌%◌, ◌^◌, ◌≤◌, ◌<◌, bit_and, Bool, true, false, not, ◌&&◌, ◌||◌,
  List, [], ◌∷◌, Option, none, some, ltb, leb, ◌==◌, if◌then◌else◌, get_or,
}
use lockgrid.Types.{
  u8, u16, u32, u64, Neigh, Tracking, is_linked, leaf, time_never, rank_infinite, usec_per_sec,
  NeighState, joining, role_code, addr_invalid,
}
use lockgrid.Config.{Config}
use lockgrid.Neigh.{linked_count}
use lockgrid.Route.{Grid, has_route}
use lockgrid.Core.{Tune}

-- LG_RDV_SLOTS
abbrev pub rdv_slots : ℕ
rdv_slots = 3

-- LG_JOINER_HINT_LIFETIME_US, LG_JOIN_OFFER_GRACE_US
abbrev pub hint_lifetime_us : ℕ
hint_lifetime_us = 5 * usec_per_sec

abbrev pub offer_grace_us : ℕ
offer_grace_us = 90 * usec_per_sec

-- A staged copy of a beacon.
pub record Copy : Type 0 where
  pub pdu : List ℕ
  pub len : ℕ
  pub chan : ℕ

pub record Disc : Type 0 where
  pub network_id : ℕ
  pub chan_map : ℕ
  pub next_beacon_us : ℕ
  pub next_scan_us : ℕ
  pub beacons_heard : ℕ
  pub scan_chan_idx : ℕ
  pub want_addr : ℕ
  pub want_until_us : ℕ
  pub join_win_us : ℕ
  pub joiner_hint_us : ℕ
  pub link_change_us : ℕ
  pub offers_join : Bool
  pub last_join_window_us : ℕ
  pub beacon_epoch : ℕ
  pub planned_us : ℕ
  pub copies : List Copy
  pub copy_idx : ℕ
  pub beacons_tx : ℕ
  pub beacons_rx : ℕ
  pub scans : ℕ
  pub tracked_beacons : ℕ
  pub auth_failures : ℕ

-- `lg_disc_rdv_chan`
unfoldable pub rdv_chan : ℕ → ℕ → ℕ
rdv_chan network_id slot = get_or (15 ∷ 20 ∷ 25 ∷ 26 ∷ []) (bit_and (u32 (network_id + slot)) 3) 0

-- `jitter`, for the number that `sys_rand32_get` returns.
unfoldable pub jitter : ℕ → ℕ → ℕ
jitter nominal draw =
    let span = nominal / 2 in if span == 0 then nominal else u32 (nominal - span / 2 + draw % span)

abbrev pub is_leaf : Grid → Bool
is_leaf g = role_code g.role == 0

-- `should_beacon`
unfoldable pub should_beacon : Grid → Bool
should_beacon g = not (is_leaf g) || not (has_route g)

abbrev pub is_joining : NeighState → Bool
is_joining joining = true
is_joining _ = false

-- `worth_tracking`
unfoldable pub worth_tracking : Config → Grid → Neigh → Bool
worth_tracking cfg g n =
    if (n.next_beacon_us == 0) || (is_linked n.state || is_joining n.state)
    then false
    else if leb 3 n.join_retries
    then false
    else not (has_route g)
      || (ltb (linked_count g.neigh) cfg.min_links_target
          || (not (n.peer_rank == rank_infinite) && ltb (n.peer_rank + 4) g.rank))

-- `tracking_someone`
unfoldable pub tracking_someone : Config → Grid → List Neigh → Bool
tracking_someone cfg g [] = false
tracking_someone cfg g (n ∷ rest) = worth_tracking cfg g n || tracking_someone cfg g rest

-- `scan_interval_us`
unfoldable pub scan_interval_us : Config → Tune → ℕ → Grid → Disc → ℕ
scan_interval_us cfg tune now g d =
    if not (d.want_addr == addr_invalid) && ltb now d.want_until_us
    then tune.scan_unattached_us
    else if tracking_someone cfg g g.neigh
    then tune.scan_seeking_us
    else if not (has_route g)
    then tune.scan_unattached_us
    else if ltb (linked_count g.neigh) cfg.min_links_target
    then tune.scan_seeking_us
    else tune.scan_attached_us

-- `lg_disc_init`, for the random numbers of the scan and of the beacon.
unfoldable pub init : Tune → ℕ → ℕ → ℕ → Grid → Disc → Disc
init tune now scan_draw beacon_draw g d = record d {
  next_scan_us = u64 (now + jitter 20000 scan_draw);
  next_beacon_us =
      if should_beacon g
      then u64 (now + jitter tune.beacon_interval_us beacon_draw)
      else time_never;
  scan_chan_idx = 0;
  beacons_heard = 0;
  join_win_us = 0;
  last_join_window_us = 0;
  link_change_us = now;
  beacon_epoch = 0;
  copy_idx = 0;
}

-- `lg_disc_retune`
unfoldable pub retune : Config → Tune → ℕ → ℕ → ℕ → Grid → Disc → Disc
retune cfg tune now scan_draw beacon_draw g d =
    let interval = scan_interval_us cfg tune now g d in
    record d {
      next_scan_us =
          if ltb (now + interval) d.next_scan_us
          then u64 (now + jitter interval scan_draw)
          else d.next_scan_us;
      next_beacon_us =
          if not (should_beacon g)
          then time_never
          else if d.next_beacon_us == time_never
          then u64 (now + jitter tune.beacon_interval_us beacon_draw)
          else d.next_beacon_us;
      want_addr =
          if not (d.want_addr == addr_invalid) && leb d.want_until_us now
          then addr_invalid
          else d.want_addr;
    }

-- `lg_disc_next_beacon_us`
unfoldable pub next_beacon : Grid → Disc → ℕ
next_beacon g d = if not (should_beacon g) then time_never else d.next_beacon_us

-- The loop of `lg_disc_next_track_us` from index `i` on: the neighbours with stale predictions
-- dropped, the earliest time and the index that `*out` points to.
unfoldable pub track_loop :
    Config → Grid → ℕ → List Neigh → ℕ → ℕ × Option ℕ → List Neigh × (ℕ × Option ℕ)
track_loop cfg g now [] i best = ([], best)
track_loop cfg g now (n ∷ rest) i best =
    let wanted = worth_tracking cfg g n in
    let stale = wanted && ltb n.next_beacon_us now in
    let better = wanted && (not (ltb n.next_beacon_us now) && ltb n.next_beacon_us best.0) in
    let kept =
      if stale then record n { tracking = record n.tracking { next_beacon_us = 0 } } else n in
    let later =
      track_loop cfg g now rest (suc i) (if better then (n.next_beacon_us, some i) else best) in
    (kept ∷ later.0, later.1)

-- `lg_disc_next_track_us`
unfoldable pub next_track : Config → Grid → ℕ → List Neigh × (ℕ × Option ℕ)
next_track cfg g now = track_loop cfg g now g.neigh 0 (time_never, none)

-- `lg_disc_track_result`
unfoldable pub track_result : Tracking → Bool → Tracking
track_result t heard =
    if heard
    then record t { track_misses = 0 }
    else if leb 3 (u8 (t.track_misses + 1))
    then record t { next_beacon_us = 0; track_misses = 0 }
    else record t { next_beacon_us = 0; track_misses = u8 (t.track_misses + 1) }

-- `lg_disc_scan_finish`
unfoldable pub scan_finish : Config → Tune → ℕ → ℕ → Grid → Disc → Disc
scan_finish cfg tune now draw g d = record d {
  scan_chan_idx = (d.scan_chan_idx + 1) % rdv_slots;
  next_scan_us = u64 (now + jitter (scan_interval_us cfg tune now g d) draw);
}
