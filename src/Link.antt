-- ===== src/Link.antt =====
-- subsys/lockgrid/lg_link.c: the schedule of a link. Time is an argument of each operation; a loop
-- that waits on the clock takes fuel, and `none` means that the fuel ran out.
pub mod Data
mod Tests
pub mod Counter
pub mod CatchUp
pub mod Overrun
pub mod Agree
pub mod NextEvent
pub mod Control
use lockgrid.Prelude.{
  ℕ, zero, suc, ◌+◌, ◌-◌, ◌*◌, ◌/◌, ◌%◌, ◌^◌, ◌≤◌, ◌<◌, min, max, Bool, true, false, not, ◌&&◌,
  ◌||◌, Option, none, some, ltb, leb, ◌==◌, if◌then◌else◌,
}
use lockgrid.Prelude.Bits.{has_bit}
use lockgrid.Types.{u16, u32, u64, Neigh, Schedule, linked, is_linked, time_never}
use lockgrid.Config.{Config}
use lockgrid.Chan.{hop}

-- LG_SCHED_LEAD_US
abbrev pub sched_lead_us : ℕ
sched_lead_us = 100

-- LG_WINDOW_JITTER_US
abbrev pub window_jitter_us : ℕ
window_jitter_us = 40

-- The bit numbers LG_CTRL_CHAN_MAP and LG_CTRL_SUBRATE.
abbrev pub ctrl_chan_map : ℕ
ctrl_chan_map = 0

abbrev pub ctrl_subrate : ℕ
ctrl_subrate = 1

-- Time since the last synchronisation.
pub elapsed_us : ℕ → Neigh → ℕ
elapsed_us now n =
    if not (n.last_sync_us == 0) && ltb n.last_sync_us now then now - n.last_sync_us else 0

pub half_window_us : Config → ℕ → Neigh → ℕ
half_window_us cfg now n =
    let ppm = u32 (cfg.clock_accuracy_ppm + n.peer_sca_ppm) in
    let drift = u64 (elapsed_us now n * ppm) / 1000000 in
    u32 (min (u64 (drift + window_jitter_us + cfg.rx_window_min_us / 2)) (cfg.rx_window_max_us / 2))

-- `lg_link_window_us`: the half-width, and the neighbour with its new `rx_window_us`.
unfoldable pub window_us : Config → ℕ → Neigh → ℕ × Neigh
unfolding half_window_us elapsed_us
window_us cfg now n =
    if n.initiator
    then (cfg.rx_window_min_us / 2, n)
    else let half = half_window_us cfg now n in
      (half, record n { sync = record n.sync { rx_window_us = u32 (half * 2) } })

unfoldable pub counter_of : Schedule → ℕ
counter_of s =
    if s.interval_us == 0 || ltb s.anchor_us s.epoch_us
    then 0
    else u16 ((s.anchor_us - s.epoch_us + s.interval_us / 2) / s.interval_us)

unfoldable pub anchor_set : Schedule → ℕ → Schedule
anchor_set s target = record s {
  anchor_us = u64 (s.epoch_us + target * s.interval_us);
  counter = target;
}

-- MAX(n->subrate, 1)
abbrev pub step_of : Schedule → ℕ
step_of s = max s.subrate 1

unfoldable pub next_active : Schedule → ℕ → ℕ
next_active s after = u16 ((after / step_of s + 1) * step_of s)

unfoldable pub to_next : Schedule → Schedule
to_next s = anchor_set s (next_active s (counter_of s))

-- The `while` of `anchor_catch_up`, with the count of skipped events.
unfoldable pub catch_up_loop : ℕ → ℕ → Schedule → ℕ → Option (Schedule × ℕ)
catch_up_loop zero limit s skipped = none
catch_up_loop (suc fuel) limit s skipped =
    let rest = catch_up_loop fuel limit (to_next s) (u32 (skipped + 1)) in
    if ltb s.anchor_us limit then rest else some (s, skipped)

-- The jump onto an active event ahead of that loop.
unfoldable pub align : Schedule → Schedule
align s = if counter_of s % step_of s == 0 then s else to_next s

-- `anchor_catch_up`; the window is computed first, and stored.
unfoldable pub anchor_catch_up : Config → ℕ → ℕ → Neigh → ℕ → Option (Neigh × ℕ)
anchor_catch_up cfg fuel now n skipped =
    let (half, n') = window_us cfg now n in
    let limit = u64 (now + (sched_lead_us + half + 200)) in
    if n.interval_us == 0
    then some (n', skipped)
    else elim (catch_up_loop fuel limit (align n'.schedule) skipped) [
      | none ↦ none
      | some (s, count) ↦ some (record n' { schedule = s }, count)
    ]

-- `lg_link_next_event_us`
unfoldable pub next_event_us : Config → ℕ → ℕ → Neigh → ℕ → Option (ℕ × Neigh × ℕ)
next_event_us cfg fuel now n skipped =
    if not (is_linked n.state) || (n.interval_us == 0)
    then some (time_never, n, skipped)
    else elim (anchor_catch_up cfg fuel now n skipped) [
      | none ↦ none
      | some (n', count) ↦ some (n'.anchor_us, n', count)
    ]

-- `lg_link_next_chan`
unfoldable pub next_chan : Schedule → ℕ
next_chan s = hop s.chan_map s.hop_seed (counter_of s)

-- The change that `lg_link_advance` applies when it is due and confirmed.
unfoldable pub apply_change : Schedule → Schedule
apply_change s =
    let mapped =
      if has_bit s.pending_ctrl ctrl_chan_map
      then record s { chan_map = s.pending_chan_map }
      else s in
    if has_bit s.pending_ctrl ctrl_subrate
    then record mapped { subrate = max s.pending_subrate 1 }
    else mapped

-- `lg_link_advance`
unfoldable pub advance : Schedule → Schedule
advance s0 =
    let s = to_next s0 in
    if not (s.pending_ctrl == 0) && leb s.instant s.counter
    then (let t = if not s.initiator || s.ctrl_acked then apply_change s else s in
        record t { pending_ctrl = 0; ctrl_acked = false })
    else s

-- `epoch + (int32_t)(air_start - anchor)` on an `uint64_t`.
unfoldable pub shift_epoch : ℕ → ℕ → ℕ → ℕ
shift_epoch epoch anchor air_start =
    let err = (air_start + 2 ^ 64 - anchor) % 2 ^ 32 in
    if ltb err (2 ^ 31) then u64 (epoch + err) else u64 (epoch + err + (2 ^ 64 - 2 ^ 32))

-- The lines of `link_rx_done` that move a responder's anchor to the frame that it measured.
unfoldable pub reanchor : Schedule → ℕ → ℕ → Schedule
reanchor s ev_anchor air_start = record s {
  epoch_us = shift_epoch s.epoch_us ev_anchor air_start;
  anchor_us = air_start;
}
