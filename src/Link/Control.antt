-- ===== src/Link/Control.antt =====
-- subsys/lockgrid/lg_link.c: control frames, and the changes of parameters that they carry.
pub mod Change
pub mod Settle
pub mod Deliver
pub mod Agree
pub mod Subrate
mod Tests
use lockgrid.Prelude.{
  ℕ, ◌+◌, ◌*◌, ◌-◌, ◌/◌, ◌%◌, ◌^◌, ◌≤◌, ◌<◌, min, max, bit_or, bit_and, Bool, true, false, not,
  ◌&&◌, ◌||◌, List, [], ◌∷◌, length, get_or, ltb, leb, ◌==◌, if◌then◌else◌, drop,
}
use lockgrid.Prelude.Bits.{has_bit}
use lockgrid.Types.{u8, u16, u32, Neigh, Schedule}
use lockgrid.Config.{Config}
use lockgrid.Frame.{put_le16, get_le16, get_le32}
use lockgrid.Link.{ctrl_chan_map, ctrl_subrate, counter_of, advance, reanchor}

-- The other operations of `enum lg_ctrl_op`.
abbrev pub ctrl_interval : ℕ
ctrl_interval = 2

abbrev pub ctrl_route_adv : ℕ
ctrl_route_adv = 4

abbrev pub ctrl_route_reg : ℕ
ctrl_route_reg = 5

abbrev pub ctrl_teardown : ℕ
ctrl_teardown = 6

-- LG_TD_LOCAL_CLOSE
abbrev pub td_local_close : ℕ
td_local_close = 0

-- The body that `lg_link_stage_tx` builds for a pending change; none leaves it empty.
unfoldable pub change_body : Schedule → List ℕ
change_body s =
    if has_bit s.pending_ctrl ctrl_chan_map
    then put_le16 (put_le16 (ctrl_chan_map ∷ 0 ∷ 0 ∷ 0 ∷ 0 ∷ []) 1 s.pending_chan_map) 3 s.instant
    else if has_bit s.pending_ctrl ctrl_subrate
    then put_le16 (ctrl_subrate ∷ u8 s.pending_subrate ∷ 0 ∷ 0 ∷ []) 2 s.instant
    else []

-- What a control frame asks of the parts other than the schedule.
pub data Request : Type 0 where
  nothing handle_adv handle_reg : Request
  link_down : ℕ → Request

abbrev pub clamp_interval : Config → ℕ → ℕ
clamp_interval cfg v =
    let low = u32 (cfg.conn_interval_min_ms * 1000) in
    if leb v low then low else min v (u32 (cfg.conn_interval_max_ms * 1000))

abbrev pub set_pending : Schedule → ℕ → ℕ
set_pending s k = u8 (bit_or s.pending_ctrl (2 ^ k))

-- `handle_ctrl`
unfoldable pub handle_ctrl : Config → Schedule → List ℕ → ℕ → Schedule × Request
handle_ctrl cfg s body len =
    let op = get_or body 0 0 in
    if len == 0
    then (s, nothing)
    else if op == ctrl_chan_map
    then (if leb 5 len
        then (
          record s {
            pending_chan_map = get_le16 body 1;
            instant = get_le16 body 3;
            pending_ctrl = set_pending s ctrl_chan_map;
          },
          nothing,
        )
        else (s, nothing))
    else if op == ctrl_subrate
    then (if leb 4 len
        then (
          record s {
            pending_subrate = get_or body 1 0;
            instant = get_le16 body 2;
            pending_ctrl = set_pending s ctrl_subrate;
          },
          nothing,
        )
        else (s, nothing))
    else if op == ctrl_interval
    then (if leb 7 len
        then (record s { interval_us = clamp_interval cfg (get_le32 body 1) }, nothing)
        else (s, nothing))
    else if op == ctrl_route_adv
    then (s, handle_adv)
    else if op == ctrl_route_reg
    then (s, handle_reg)
    else if op == ctrl_teardown
    then (s, link_down (if leb 2 len then get_or body 1 0 else td_local_close))
    else (s, nothing)

-- The factor that `subrate_update` wants; `waiting` is `lg_txq_pending` of the neighbour.
unfoldable pub wanted_subrate : Bool → Neigh → ℕ
wanted_subrate waiting n =
    if waiting || not (n.pending_ctrl == 0)
    then 1
    else if not (n.consec_misses == 0)
    then 1
    else u8 (min (n.subrate * 2) n.subrate_max)

-- The lines of `subrate_update` that offer the factor `want`.
unfoldable pub offer_subrate : Neigh → ℕ → Neigh
offer_subrate n want = record n {
  schedule = record n.schedule {
    pending_subrate = want;
    instant = u16 (counter_of n.schedule + 6);
    ctrl_acked = false;
    pending_ctrl = set_pending n.schedule ctrl_subrate;
  };
}

-- `subrate_update`
unfoldable pub subrate_update : Bool → Neigh → Neigh
subrate_update waiting n =
    let want = wanted_subrate waiting n in
    if not n.initiator || leb n.subrate_max 1
    then n
    else if (want == n.subrate) || not (n.pending_ctrl == 0)
    then n
    else offer_subrate n want

-- How one event of a link goes: the initiator's frame is lost, or the reply is, or neither.
pub data Outcome : Type 0 where
  missed unanswered answered : Outcome

-- The schedules at the two ends of a link.
pub record Ends : Type 0 where
  pub initiator : Schedule
  pub responder : Schedule

-- A link between two events: the ends, and the body of the change in the frame that each end has staged
-- for the next event. It is empty for any other frame.
pub record Air : Type 0 where
  pub ends : Ends
  pub asks : List ℕ
  pub echoes : List ℕ

-- The test of `link_rx_done` for an initiator: the reply confirms the change if the frame carried one.
unfoldable pub confirm : Schedule → Schedule
confirm s = if s.tx_was_ctrl then record s { ctrl_acked = true } else s

-- `handle_ctrl` on a body, for the schedule.
abbrev pub receive : Config → List ℕ → Schedule → Schedule
receive cfg body t = (handle_ctrl cfg t body (length body)).0

-- The responder once it has heard the initiator, whose frame is on the air at its anchor: it moves its
-- anchor to the frame, and then handles what the frame carries. Both ends read one clock.
unfoldable pub hear : Config → Air → Schedule
hear cfg x =
    let t = x.ends.responder in
    receive cfg x.asks (reanchor t t.anchor_us x.ends.initiator.anchor_us)

-- What each end makes of the frames of an event. The initiator handles the body of the reply too.
unfoldable pub deliver : Config → Air → Outcome → Ends
deliver cfg x missed = x.ends
deliver cfg x unanswered = record x.ends { responder = hear cfg x }
deliver cfg x answered = record {
  initiator = receive cfg x.echoes (confirm x.ends.initiator);
  responder = hear cfg x;
}

-- The lines of `lg_link_stage_tx` that choose a control frame.
unfoldable pub flag_staged : Schedule → Schedule
flag_staged s = record s { tx_was_ctrl = not (length (change_body s) == 0) }

unfoldable pub restage : Ends → Air
restage e = record {
  ends = record { initiator = flag_staged e.initiator; responder = flag_staged e.responder };
  asks = change_body e.initiator;
  echoes = change_body e.responder;
}

-- An event while a change is pending at the initiator: each end then advances and stages its next frame,
-- as `lg_link_event_finish` does. `subrate_update`, which stands between the two there, does nothing
-- while a change is pending, and is left out of the event at which the change is due.
unfoldable pub exchange : Config → Air → Outcome → Air
exchange cfg x o =
    let d = deliver cfg x o in
    restage (record { initiator = advance d.initiator; responder = advance d.responder })

unfoldable pub exchanges : Config → Air → List Outcome → Air
exchanges cfg x [] = x
exchanges cfg x (o ∷ os) = exchanges cfg (exchange cfg x o) os
