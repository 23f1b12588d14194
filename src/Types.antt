-- ===== src/Types.antt =====
-- include/lockgrid/lockgrid.h and subsys/lockgrid/lg_internal.h: addresses, roles, and `struct
-- lg_neigh`, whose fields stand in one record for each group of the struct's own comments.
use lockgrid.Prelude.{ltb, if◌then◌else◌, ℕ, ◌^◌, ◌-◌, ◌%◌, Bool, true, false, List, replicate}
use lockgrid.Prelude.Int.{ℤ, pos, negsuc, scale, div_trunc, ◌+ℤ◌, ltb_ℤ, neg_part, pos_part}

abbrev pub u8 : ℕ → ℕ
u8 n = n % 2 ^ 8

abbrev pub u16 : ℕ → ℕ
u16 n = n % 2 ^ 16

abbrev pub u32 : ℕ → ℕ
u32 n = n % 2 ^ 32

abbrev pub u64 : ℕ → ℕ
u64 n = n % 2 ^ 64

abbrev pub addr_invalid : ℕ
addr_invalid = 0

abbrev pub addr_broadcast : ℕ
addr_broadcast = 0xffff

abbrev pub addr_backhaul : ℕ
addr_backhaul = 0xfffe

abbrev pub rank_infinite : ℕ
rank_infinite = 0xffff

-- LG_ETX_ONE
abbrev pub etx_one : ℕ
etx_one = 16

-- INT8_MIN
abbrev pub int8_min : ℤ
int8_min = negsuc 127

-- UINT64_MAX
abbrev pub time_never : ℕ
time_never = 2 ^ 64 - 1

abbrev pub usec_per_sec : ℕ
usec_per_sec = 1000000

pub data Role : Type 0 where
  leaf router backhaul : Role

-- The value of the enumerator.
abbrev pub role_code : Role → ℕ
role_code leaf = 0
role_code router = 1
role_code backhaul = 2

pub data NeighState : Type 0 where
  free heard joining linked lost : NeighState

abbrev pub is_free : NeighState → Bool
is_free free = true
is_free _ = false

abbrev pub is_linked : NeighState → Bool
is_linked linked = true
is_linked _ = false

pub data JoinStep : Type 0 where
  idle send_req wait_rsp send_cfm wait_ack : JoinStep
  wait_req send_rsp wait_cfm send_ack : JoinStep
  send_resume wait_resume_rsp wait_resume done failed : JoinStep

-- What the neighbour advertises.
pub record Advert : Type 0 where
  pub role : ℕ
  pub peer_rank : ℕ
  pub peer_chan_map : ℕ
  pub peer_links : ℕ
  pub peer_capacity : ℕ

-- Link schedule.
pub record Schedule : Type 0 where
  pub initiator : Bool
  pub anchor_us : ℕ
  pub epoch_us : ℕ
  pub interval_us : ℕ
  pub counter : ℕ
  pub chan_map : ℕ
  pub hop_seed : ℕ
  pub subrate : ℕ
  pub subrate_max : ℕ
  pub instant : ℕ
  pub pending_ctrl : ℕ
  pub pending_chan_map : ℕ
  pub pending_subrate : ℕ
  pub ctrl_acked : Bool
  pub tx_was_ctrl : Bool

-- Synchronisation.
pub record Sync : Type 0 where
  pub last_sync_us : ℕ
  pub peer_sca_ppm : ℕ
  pub rx_window_us : ℕ
  pub sync_err_us : ℤ

-- Supervision.
pub record Supervision : Type 0 where
  pub last_rx_us : ℕ
  pub sup_timeout_us : ℕ
  pub consec_misses : ℕ

-- Quality.
pub record Quality : Type 0 where
  pub rssi : ℤ
  pub etx_q4 : ℕ
  pub per_permille : ℕ
  pub link_cost : ℕ
  pub tx_attempts : ℕ
  pub tx_acked : ℕ

-- Sequencing and keys.
pub record Keys : Type 0 where
  pub tx_seq : ℕ
  pub rx_seq : ℕ
  pub rx_seq_valid : Bool
  pub tx_ctr : ℕ
  pub rx_ctr : ℕ
  pub replay_mask : ℕ
  pub link_key : List ℕ
  pub key_id : ℕ
  pub has_key : Bool
  pub ltk : List ℕ
  pub has_ltk : Bool

-- Handshake.
pub record Handshake : Type 0 where
  pub join_step : JoinStep
  pub join_next_us : ℕ
  pub join_retries : ℕ
  pub join_backoff_us : ℕ
  pub join_spread_us : ℕ
  pub nonce_local : List ℕ
  pub nonce_peer : List ℕ
  pub eph_pub_peer : List ℕ
  pub peer_static_pub : List ℕ
  pub transcript : List ℕ

-- Staged outbound frame for the next event.
pub record Staged : Type 0 where
  pub txbuf : List ℕ
  pub txlen : ℕ
  pub tx_pending : Bool
  pub tx_needs_ack : Bool
  pub tx_tries : ℕ

-- Beacon tracking.
pub record Tracking : Type 0 where
  pub next_beacon_us : ℕ
  pub track_misses : ℕ

-- Routing bookkeeping.
pub record Bookkeeping : Type 0 where
  pub is_parent : Bool
  pub route_adv_us : ℕ
  pub adv_urgent_done : Bool

pub record Neigh : Type 0 where
  pub state : NeighState
  pub addr : ℕ
  pub advert : Advert
  pub open advert use *
  pub schedule : Schedule
  pub open schedule use *
  pub sync : Sync
  pub open sync use *
  pub supervision : Supervision
  pub open supervision use *
  pub quality : Quality
  pub open quality use *
  pub keys : Keys
  pub open keys use *
  pub handshake : Handshake
  pub open handshake use *
  pub staged : Staged
  pub open staged use *
  pub tracking : Tracking
  pub open tracking use *
  pub bookkeeping : Bookkeeping
  pub open bookkeeping use *

-- `memset(n, 0, sizeof(*n))`
abbrev pub zero_neigh : Neigh
zero_neigh = record {
  state = free;
  addr = 0;
  advert = record { role = 0; peer_rank = 0; peer_chan_map = 0; peer_links = 0; peer_capacity = 0 };
  schedule = record {
    initiator = false;
    anchor_us = 0;
    epoch_us = 0;
    interval_us = 0;
    counter = 0;
    chan_map = 0;
    hop_seed = 0;
    subrate = 0;
    subrate_max = 0;
    instant = 0;
    pending_ctrl = 0;
    pending_chan_map = 0;
    pending_subrate = 0;
    ctrl_acked = false;
    tx_was_ctrl = false;
  };
  sync = record { last_sync_us = 0; peer_sca_ppm = 0; rx_window_us = 0; sync_err_us = pos 0 };
  supervision = record { last_rx_us = 0; sup_timeout_us = 0; consec_misses = 0 };
  quality = record {
    rssi = pos 0;
    etx_q4 = 0;
    per_permille = 0;
    link_cost = 0;
    tx_attempts = 0;
    tx_acked = 0;
  };
  keys = record {
    tx_seq = 0;
    rx_seq = 0;
    rx_seq_valid = false;
    tx_ctr = 0;
    rx_ctr = 0;
    replay_mask = 0;
    link_key = replicate 16 0;
    key_id = 0;
    has_key = false;
    ltk = replicate 16 0;
    has_ltk = false;
  };
  handshake = record {
    join_step = idle;
    join_next_us = 0;
    join_retries = 0;
    join_backoff_us = 0;
    join_spread_us = 0;
    nonce_local = replicate 8 0;
    nonce_peer = replicate 8 0;
    eph_pub_peer = replicate 64 0;
    peer_static_pub = replicate 64 0;
    transcript = replicate 32 0;
  };
  staged = record {
    txbuf = replicate 125 0;
    txlen = 0;
    tx_pending = false;
    tx_needs_ack = false;
    tx_tries = 0;
  };
  tracking = record { next_beacon_us = 0; track_misses = 0 };
  bookkeeping = record { is_parent = false; route_adv_us = 0; adv_urgent_done = false };
}

-- `lg_ewma`: C divides towards zero.
unfoldable pub ewma : ℤ → ℤ → Bool → ℤ
unfolding scale div_trunc ◌+ℤ◌
ewma old sample seeded = if seeded then div_trunc (scale old 7 +ℤ sample) 8 else sample

-- The cast to `int8_t`.
unfoldable pub to_i8 : ℤ → ℤ
to_i8 a =
    let v = if ltb_ℤ a (pos 0) then (2 ^ 8 - neg_part a % 2 ^ 8) % 2 ^ 8 else pos_part a % 2 ^ 8 in
    if ltb v 128 then pos v else negsuc (2 ^ 8 - v - 1)
