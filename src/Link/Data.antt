-- ===== src/Link/Data.antt =====
-- subsys/lockgrid/lg_link.c: the body of a data frame, `handle_data`, and the end of an event for the
-- message that was sent.
pub mod Bounds
pub mod Carry
mod Tests
use lockgrid.Prelude.{
  ℕ, ◌+◌, ◌-◌, ◌^◌, ◌%◌, Bool, true, false, not, ◌&&◌, ◌||◌, List, ◌++◌, Option, none, some, bit_or,
  ltb, leb, ◌==◌, if◌then◌else◌, set, get_or, length, slice, take, drop, replicate,
}
use lockgrid.Prelude.Bits.{has_bit}
use lockgrid.Prelude.Int.{ℤ}
use lockgrid.Types.{u8, addr_invalid, addr_backhaul, leaf}
use lockgrid.Frame.{put_le16, get_le16}
use lockgrid.Route.{Grid, parent, is_backhaul}
use lockgrid.Route.Routes.{next_hop}
use lockgrid.Route.Duplicates.{is_duplicate}
use lockgrid.Disc.{is_leaf}
use lockgrid.Core.Queue.{
  TxMsg, Outbox, send_forward, is_sent, payload_max, data_upward, data_broadcast, data_downward,
  peek, free,
}

-- `struct lg_data_hdr`
pub record DataHdr : Type 0 where
  pub flags : ℕ
  pub origin : ℕ
  pub final : ℕ
  pub hops : ℕ
  pub port : ℕ
  pub msg_id : ℕ

-- `sizeof(struct lg_data_hdr)`
abbrev pub data_hdr_size : ℕ
data_hdr_size = 9

unfoldable pub write_hdr : DataHdr → List ℕ
write_hdr d =
    let raw = set (replicate data_hdr_size 0) 0 (u8 d.flags) in
    let ends = put_le16 (put_le16 raw 1 d.origin) 3 d.final in
    put_le16 (set (set ends 5 (u8 d.hops)) 6 (u8 d.port)) 7 d.msg_id

unfoldable pub read_hdr : List ℕ → DataHdr
read_hdr raw = record {
  flags = get_or raw 0 0;
  origin = get_le16 raw 1;
  final = get_le16 raw 3;
  hops = get_or raw 5 0;
  port = get_or raw 6 0;
  msg_id = get_le16 raw 7;
}

-- What `lg_link_stage_tx` puts behind the header for a message.
unfoldable pub data_body : TxMsg → List ℕ
data_body m =
    write_hdr (record {
      flags = m.flags;
      origin = m.origin;
      final = m.final;
      hops = m.hops;
      port = m.port;
      msg_id = m.msg_id;
    })
    ++ take m.len m.payload

-- LG_HOPS_MAX
abbrev pub hops_max : ℕ
hops_max = 12

-- What the application is given: `struct lg_rx_info` and the payload.
pub record Delivery : Type 0 where
  pub src : ℕ
  pub prev_hop : ℕ
  pub port : ℕ
  pub rssi : ℤ
  pub hops : ℕ
  pub payload : List ℕ

-- The node after a data frame: a delivery, and whether `msgs_forwarded` or `msgs_dropped_no_route` was
-- incremented.
pub record Handled : Type 0 where
  pub grid : Grid
  pub queue : List TxMsg
  pub delivered : Option Delivery
  pub forwarded : Bool
  pub dropped : Bool

-- `for_us` of `handle_data`
unfoldable pub for_us : Grid → DataHdr → Bool
for_us g d =
    (d.final == g.addr)
    || ((has_bit d.flags data_upward && is_backhaul g.role) || has_bit d.flags data_broadcast)

-- The end of `handle_data`, with the flags for the next hop.
unfoldable pub pass_on :
    ℕ → Bool → Grid → List TxMsg → DataHdr → List ℕ → ℕ → Option Delivery → Handled
pass_on now started g q d payload flags got =
    let r =
      send_forward now started g q d.origin d.final d.port payload flags (u8 (d.hops + 1))
        d.msg_id in
    record {
      grid = r.grid;
      queue = r.queue;
      delivered = got;
      forwarded = is_sent r.status;
      dropped = not (is_sent r.status);
    }

-- `handle_data` from "Forward it" on, with what was delivered before.
unfoldable pub forward : ℕ → Bool → Grid → List TxMsg → DataHdr → List ℕ → Option Delivery → Handled
unfolding pass_on
forward now started g q d payload got =
    let hop = next_hop now g d.final false in
    let down = bit_or d.flags (if hop.0 == parent hop.1.neigh then 0 else 2 ^ data_downward) in
    if is_leaf g || leb hops_max d.hops
    then record { grid = g; queue = q; delivered = got; forwarded = false; dropped = true }
    else if has_bit d.flags data_upward || (d.final == addr_backhaul)
    then pass_on now started g q d payload d.flags got
    else if hop.0 == addr_invalid
    then record { grid = hop.1; queue = q; delivered = got; forwarded = false; dropped = true }
    else pass_on now started hop.1 q d payload down got

-- `handle_data` for a frame of the neighbour `prev_hop`; `rx` is what the application is given.
unfoldable pub handle_data : ℕ → Bool → Grid → List TxMsg → ℕ → List ℕ → ℤ → Handled
unfolding forward
handle_data now started g q prev_hop body rssi =
    let d = read_hdr body in
    let payload = drop data_hdr_size body in
    let dup = is_duplicate g (record { origin = d.origin; msg_id = d.msg_id }) in
    let got = some (record {
      src = d.origin;
      prev_hop = prev_hop;
      port = d.port;
      rssi = rssi;
      hops = d.hops;
      payload = payload;
    }) in
    if ltb (length body) data_hdr_size || ltb (data_hdr_size + payload_max) (length body)
    then record { grid = g; queue = q; delivered = none; forwarded = false; dropped = false }
    else if dup.1
    then record { grid = dup.0; queue = q; delivered = none; forwarded = false; dropped = false }
    else if for_us dup.0 d && (not (has_bit d.flags data_broadcast) || (d.final == g.addr))
    then record { grid = dup.0; queue = q; delivered = got; forwarded = false; dropped = false }
    else forward now started dup.0 q d payload (if for_us dup.0 d then got else none)

-- The messages after `lg_link_event_finish`, for what the event saw and the neighbour at `addr`.
unfoldable pub settle : ℕ → Grid → List TxMsg → ℕ → Bool → Bool → Bool → List TxMsg
settle now g q addr got_rx sent_tx needs_ack =
    if got_rx && (needs_ack && sent_tx)
    then elim (peek now addr g q).0 [ none ↦ q | some i ↦ free q i ]
    else q
