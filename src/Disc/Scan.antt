-- ===== src/Disc/Scan.antt =====
-- subsys/lockgrid/lg_disc.c: the handlers of scan events and of events that track one beacon. A
-- handler posts what it received, and either opens a receive window or ends the event.
use lockgrid.Prelude.{ℕ, ◌+◌, ◌-◌, ◌^◌, Bool, true, false, not, ◌&&◌, ltb, ◌==◌, if◌then◌else◌}
use lockgrid.Types.{u32, u64, Tracking, addr_invalid}
use lockgrid.Frame.{get_le16, rampup_us}
use lockgrid.Core.Ring.{Ring, RxRec, rx_post}
use lockgrid.Disc.{Disc, track_result}

-- LG_SYNC_WINDOW_US, LG_TRACK_MARGIN_US
abbrev pub sync_window_us : ℕ
sync_window_us = 160

abbrev pub track_margin_us : ℕ
track_margin_us = 1500

-- The fields of `struct lg_event` that the handlers read.
pub record Window : Type 0 where
  pub anchor_us : ℕ
  pub close_us : ℕ
  pub chan : ℕ

-- `enum lg_phy_rx_fail`
pub data RxFail : Type 0 where
  timeout crc filtered aborted : RxFail

abbrev pub is_timeout : RxFail → Bool
is_timeout timeout = true
is_timeout _ = false

-- What the radio is told: a window from one time to another on a channel, or that the event is over.
pub data Listen : Type 0 where
  event_done : Listen
  rx_window : ℕ → ℕ → ℕ → Listen

-- A call of `lg_phy_rx_window`, where `accepted` is whether it returns 0.
abbrev pub open_window : Bool → ℕ → ℕ → ℕ → Listen
open_window accepted from close chan = if accepted then rx_window from close chan else event_done

-- The end of the receive handlers: listen on while enough of the window is left. `lg_ts_now_us` is
-- called twice, `now` and then `later`.
unfoldable pub listen_on : Bool → ℕ → ℕ → Window → Listen
listen_on accepted now later w =
    if ltb (u64 (now + sync_window_us)) w.close_us
    then open_window accepted (u64 (later + rampup_us + 20)) w.close_us w.chan
    else event_done

-- `scan_start`
unfoldable pub scan_start : Bool → Window → Disc → Disc × Listen
scan_start accepted w d =
    (record d { scans = u32 (d.scans + 1) }, open_window accepted w.anchor_us w.close_us w.chan)

-- `scan_rx_done`
unfoldable pub scan_rx_done :
    Bool → ℕ → ℕ → Window → Ring RxRec → RxRec → Disc → Ring RxRec × Disc × Listen
scan_rx_done accepted now later w ring rx d =
    let posted = rx_post ring (record rx { chan = w.chan }) in
    if not (d.want_addr == addr_invalid) && (get_le16 rx.pdu 6 == d.want_addr)
    then (posted, record d { want_addr = addr_invalid }, event_done)
    else (posted, d, listen_on accepted now later w)

-- `scan_rx_fail`
unfoldable pub scan_rx_fail : Bool → ℕ → ℕ → Window → RxFail → Listen
scan_rx_fail accepted now later w reason =
    if is_timeout reason then event_done else listen_on accepted now later w

-- `track_start`; the start of the window is an `uint64_t`.
unfoldable pub track_start : Bool → Window → Disc → Disc × Listen
track_start accepted w d = (
  record d { tracked_beacons = u32 (d.tracked_beacons + 1) },
  open_window accepted (u64 (w.anchor_us + 2 ^ 64 - track_margin_us)) w.close_us w.chan,
)

-- `track_rx_done`, with the tracking of the neighbour of the event.
unfoldable pub track_rx_done :
    Window → Ring RxRec → RxRec → Tracking → Ring RxRec × Tracking × Listen
track_rx_done w ring rx t =
    (rx_post ring (record rx { chan = w.chan }), track_result t true, event_done)

-- `track_rx_fail`, and `track_aborted` by its first part.
unfoldable pub track_rx_fail : RxFail → Tracking → Tracking × Listen
track_rx_fail reason t = (track_result t false, event_done)

unfoldable pub track_aborted : Tracking → Tracking
track_aborted t = track_result t false
