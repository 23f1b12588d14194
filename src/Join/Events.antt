-- ===== src/Join/Events.antt =====
-- subsys/lockgrid/lg_join.c: the start of a handshake, its radio events, the frames that come in, and the
-- end of a slot, for the neighbour of the handshake. What only the node as a whole can do is the
-- result: a handshake goes on, has failed, or brings the link up.
use lockgrid.Prelude.{
  ℕ, ◌+◌, ◌-◌, ◌*◌, ◌%◌, ◌^◌, max, Bool, true, false, not, ◌&&◌, ◌||◌, List, Option, none, some,
  ltb, leb, ◌==◌, if◌then◌else◌, length, slice,
}
use lockgrid.Prelude.Int.{ℤ}
use lockgrid.Types.{
  u8, u64, Neigh, joining, lost, heard, is_linked, idle, done, send_req, send_resume, usec_per_sec,
}
use lockgrid.Frame.{airtime_us, frame_type}
use lockgrid.Neigh.{rx_rssi}
use lockgrid.Sec.Protect.{Aead, SecStats}
use lockgrid.Sec.Identity.{forget_key, cert_len}
use lockgrid.Disc.Scan.{Listen, event_done, open_window, listen_on, Window, RxFail, is_timeout}
use lockgrid.Core.Ring.{Ring, RxRec, rx_post}
use lockgrid.Join.{
  Context, no_handshake, zero_xfer, build_fragment, reassemble, slot_next_from_clock, is_joining,
  has_peer, is_peer, frag_gap_us, join_rx_margin_us, ft_join_req, ft_join_rsp, ft_join_cfm,
  ft_join_ack, ft_resume_req, ft_resume_rsp,
}
use lockgrid.Join.Params.{LinkParams, unpack, params_size}
use lockgrid.Join.Steps.{
  Talk, Self, set_keys, build_join_req, build_resume_req, handle_join_req, handle_join_rsp,
  handle_join_cfm, handle_resume_req,
}

-- LG_JOIN_MAX_RETRIES, LG_JOIN_BACKOFF_US, LG_JOIN_IDLE_LIMIT, LG_JOIN_IDLE_LIMIT_RESUME
abbrev pub join_max_retries : ℕ
join_max_retries = 3

abbrev pub join_backoff_us : ℕ
join_backoff_us = 10 * usec_per_sec

abbrev pub join_idle_limit : ℕ
join_idle_limit = 8

abbrev pub join_idle_limit_resume : ℕ
join_idle_limit_resume = 5

-- `lg_join_start` and the functions below: the handshake is left alone, goes on, has failed with
-- `join_fail` still to be called, has been cleared, or the link comes up with these parameters, this node
-- the initiator or not.
pub data Fate : Type 0 where
  refused : Neigh → Fate
  goes_on : Talk → Fate
  fails : Talk → Fate
  cleared : Fate
  links : Talk → LinkParams → Bool → Fate

-- What `join_fail` does to the neighbour.
unfoldable pub fail_neigh : ℕ → Neigh → Neigh
unfolding forget_key
fail_neigh now n =
    let retries = u8 (n.join_retries + 1) in
    record n {
      keys = forget_key n.keys;
      state = if n.has_ltk then lost else heard;
      handshake = record n.handshake {
        join_step = idle;
        join_retries = retries;
        join_backoff_us =
            if leb join_max_retries retries then u64 (now + join_backoff_us) else n.join_backoff_us;
      };
    }

-- The context that `lg_join_start` sets up for the neighbour in slot `i`.
abbrev pub begin : ℕ → Neigh → Context
begin i n = record no_handshake {
  peer = some i;
  joiner = true;
  t0_us = u64 (n.join_next_us + n.join_spread_us);
  resuming = n.has_ltk;
  slot_limit = if n.has_ltk then 24 else 48;
}

-- The neighbour with its backoff served.
abbrev pub serve_backoff : Neigh → Neigh
serve_backoff n =
    if n.join_backoff_us == 0
    then n
    else record n { handshake = record n.handshake { join_backoff_us = 0; join_retries = 0 } }

-- Its end, once the first message is built.
unfoldable pub started : Bool → Talk × Option (Unit {0}) → Fate
started resuming (t, none) = fails t
started resuming (t, some _) = goes_on (record t {
  neigh = record t.neigh {
    state = joining;
    handshake = record t.neigh.handshake { join_step = if resuming then send_resume else send_req };
  };
})

-- `lg_join_start`, for the context that is there, the frame buffer and the statistics.
unfoldable pub join_start : Self → ℕ → ℕ → Neigh → Context → List ℕ → SecStats → Fate
unfolding started
join_start self now i n hs frame st =
    let n' = serve_backoff n in
    let t : Talk = record { neigh = n'; hs = begin i n'; frame = frame; stats = st } in
    if (has_peer hs && not (is_peer hs i)) || is_linked n.state
    then refused n
    else if not (n.join_backoff_us == 0) && ltb now n.join_backoff_us
    then refused n
    else if leb join_max_retries n'.join_retries || not (length self.own.cert == cert_len)
    then refused n'
    else started n.has_ltk ((if n.has_ltk then build_resume_req self else build_join_req self) t)

-- What a transmit event does next: the frame of the talk in the air from a time on, or its end.
pub data Emit : Type 0 where
  tx_over : Emit
  tx_at : ℕ → Emit

-- Fragment `idx` in `join_frame`.
unfoldable pub put_fragment : Aead → Self → ℕ → Talk → Talk
put_fragment crypto self idx t =
    let b =
      build_fragment self.cfg crypto (self.network_id % 2 ^ 16) self.addr t.neigh t.hs idx t.frame
        t.stats in
    record t {
      neigh = b.neigh;
      hs = record t.hs { last_tx_len = b.len };
      frame = b.out;
      stats = b.stats;
    }

-- `join_tx_start`; `accepted` is whether `lg_phy_tx_at` returns 0.
unfoldable pub tx_start : Aead → Self → Bool → ℕ → Talk → Talk × Emit
tx_start crypto self accepted anchor t =
    let t' =
      put_fragment crypto self 0 (record t { hs = record t.hs { was_tx = true; frag_idx = 0 } }) in
    (t', if (t'.hs.last_tx_len == 0) || not accepted then tx_over else tx_at anchor)

-- `join_tx_done`
unfoldable pub tx_end : Aead → Self → Bool → ℕ → Talk → Talk × Emit
tx_end crypto self accepted air_end t =
    let idx = u8 (t.hs.frag_idx + 1) in
    let t' = record t {
      hs = record t.hs {
        last_tx_air_start_us = u64 (air_end + 2 ^ 64 - airtime_us t.hs.last_tx_len);
        frag_idx = idx;
      };
    } in
    let next = put_fragment crypto self idx t' in
    if ltb idx t.hs.frag_total
    then (
      next,
      if (next.hs.last_tx_len == 0) || not accepted
          then tx_over
          else tx_at (u64 (air_end + frag_gap_us)),
    )
    else (t', tx_over)

-- `join_rx_start`
unfoldable pub rx_start : Bool → Window → Context → Context × Listen
rx_start accepted w hs = (
  record hs { was_tx = false },
  open_window accepted (u64 (w.anchor_us + 2 ^ 64 - join_rx_margin_us)) w.close_us w.chan,
)

-- `join_rx_done`
unfoldable pub rx_done : Bool → ℕ → ℕ → Window → Ring RxRec → RxRec → Ring RxRec × Listen
rx_done accepted now later w ring rx =
    (rx_post ring (record rx { chan = w.chan }), listen_on accepted now later w)

-- `join_rx_fail`
unfoldable pub rx_fail : Bool → ℕ → ℕ → Window → RxFail → Listen
rx_fail accepted now later w reason =
    if is_timeout reason then event_done else listen_on accepted now later w

-- `join_aborted`
unfoldable pub aborted : Context → Context
aborted hs = record hs { was_tx = false; progressed = false; slot_refused = true }

-- Whether a router has just sent the message that completes the handshake.
abbrev pub sent_last : Context → Bool
sent_last hs =
    not hs.joiner && (hs.was_tx && ((hs.tx_type == ft_join_ack) || (hs.tx_type == ft_resume_rsp)))

-- The neighbour whose handshake is done, with its anchor.
abbrev pub joined : Neigh → ℕ → Neigh
joined n anchor = record n {
  schedule = record n.schedule { anchor_us = anchor };
  handshake = record n.handshake { join_step = done; join_retries = 0 };
}

-- The context after the slot that has just run.
unfoldable pub next_slot : ℕ → Context → Context
unfolding slot_next_from_clock
next_slot now hs = record hs {
  owe_tx = if hs.was_tx then false else if hs.progressed then hs.owe_tx else not (hs.tx_len == 0);
  idle_slots =
      if hs.progressed
      then 0
      else if hs.slot_refused
      then hs.idle_slots
      else u8 (hs.idle_slots + 1);
  slot_refused = false;
  slot = max (u8 (hs.slot + 1)) (slot_next_from_clock now hs);
  progressed = false;
}

-- `lg_join_event_finish` with a handshake under way
unfoldable pub finish : ℕ → Talk → Fate
finish now t =
    let hs = next_slot now t.hs in
    let pp = unpack (slice t.hs.tx 0 params_size) in
    let anchor = u64 (t.hs.last_tx_air_start_us + pp.anchor_offset) in
    if not (is_joining t.neigh.state)
    then cleared
    else if sent_last t.hs
    then links (record t { neigh = joined t.neigh anchor }) pp true
    else if leb (if hs.resuming then join_idle_limit_resume else join_idle_limit) hs.idle_slots
    then fails (record t { hs = hs })
    else if leb hs.slot_limit hs.slot
    then fails (record t { hs = hs })
    else if hs.owe_tx && (hs.tx_len == 0)
    then fails (record t { hs = hs })
    else goes_on (record t { hs = hs })

-- The end of `lg_join_rx_pdu` after a step.
unfoldable pub stepped : Talk × Option (Unit {0}) → Fate
stepped (t, none) = fails t
stepped (t, some _) = goes_on (record t { hs = record t.hs { progressed = true; rx = zero_xfer } })

-- After `handle_resume_req`: where it fails, the long-term key is given up.
unfoldable pub resumed : Talk × Option (Unit {0}) → Fate
unfolding stepped
resumed (t, none) =
    fails (record t { neigh = set_keys (λ k. record k { has_ltk = false }) t.neigh })
resumed (t, some u) = stepped (t, some u)

-- The message that completes the handshake at the joiner.
unfoldable pub take_params : ℕ → List ℕ → Talk → Fate
take_params air_start msg t =
    let pp = unpack msg in
    if not (length msg == params_size)
    then fails t
    else links (record t { neigh = joined t.neigh (u64 (air_start + pp.anchor_offset)) }) pp false

-- The `switch` of `lg_join_rx_pdu`, on a whole message.
unfoldable pub dispatch : Self → ℕ → ℕ → List ℕ → Talk → Fate
unfolding stepped resumed take_params
dispatch self air_start type msg t =
    if type == ft_join_req
    then stepped (handle_join_req self msg t)
    else if type == ft_join_rsp
    then stepped (handle_join_rsp self msg t)
    else if type == ft_join_cfm
    then stepped (handle_join_cfm self msg t)
    else if (type == ft_join_ack) || (type == ft_resume_rsp)
    then take_params air_start msg t
    else if type == ft_resume_req
    then resumed (handle_resume_req self msg t)
    else goes_on t

-- `lg_join_rx_pdu` from the signal strength on, for a frame of the handshake's neighbour.
unfoldable pub receive : Aead → Self → ℤ → ℕ → List ℕ → ℕ → Talk → Fate
receive crypto self rssi air_start pdu len t =
    let r = reassemble self.cfg crypto (rx_rssi t.neigh rssi) t.hs pdu len t.stats in
    let t' = record t { neigh = r.neigh; hs = r.hs; stats = r.stats } in
    if r.whole
    then dispatch self air_start (frame_type pdu) (slice r.hs.rx.buf 0 r.hs.rx.len) t'
    else goes_on t'
