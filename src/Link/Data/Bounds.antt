-- ===== src/Link/Data/Bounds.antt =====
-- subsys/lockgrid/lg_link.c: what data frames do to the messages that wait.
use lockgrid.Prelude.{
  ℕ, [], ◌∷◌, ◌+◌, ◌<◌, ◌≡◌, ◌^◌, refl, Bool, true, false, not, ◌&&◌, ◌||◌, List, length, Option,
  none, some, arith, ltb, leb, ◌==◌, if◌then◌else◌, drop, bit_or,
}
use lockgrid.Prelude.Int.{ℤ}
use lockgrid.Prelude.Bits.{has_bit}
use lockgrid.Types.{u8, addr_invalid, addr_backhaul}
use lockgrid.Disc.{is_leaf}
use lockgrid.Route.{Grid, parent}
use lockgrid.Route.Routes.{next_hop}
use lockgrid.Route.Duplicates.{is_duplicate}
use lockgrid.Core.Queue.{
  TxMsg, expedite_at, free, peek, send, send_forward, is_sent, payload_max, data_upward,
  data_broadcast, data_downward, flags_for,
}
use lockgrid.Core.Queue.Sound.{Sound, if-Outbox, send_forward-Sound, free-Sound}
use lockgrid.Link.Data.{
  DataHdr, Delivery, Handled, data_hdr_size, hops_max, handle_data, forward, pass_on, settle,
  read_hdr, for_us,
}

-- What the application and the radio can do to the queue.
pub data QueueEvent : Type 0 where
  sends : Bool → ℕ → ℕ → ℕ → List ℕ → Bool → QueueEvent
  hears : Bool → ℕ → List ℕ → ℤ → QueueEvent
  settles : ℕ → Bool → Bool → Bool → QueueEvent

-- The queue after an event at a time, on a node in some state of the routing.
unfoldable pub happen : ℕ → Grid → List TxMsg → QueueEvent → List TxMsg
happen now g q (sends started msg_id dst port buf urgent) =
    (send now started g q msg_id dst port buf urgent).0.queue
happen now g q (hears started prev_hop body rssi) =
    (handle_data now started g q prev_hop body rssi).queue
happen now g q (settles addr got_rx sent_tx needs_ack) =
    settle now g q addr got_rx sent_tx needs_ack

-- A run of events, each at its time and with the state of the routing that it finds.
unfoldable pub run : List TxMsg → List (ℕ × Grid × QueueEvent) → List TxMsg
run q [] = q
run q (e ∷ rest) = run (happen e.0 e.1 q e.2) rest

if-Sound :
    (k : ℕ) (b : Bool) (r r' : Handled)
    → Sound hops_max k r.queue
    → Sound hops_max k r'.queue
    → Sound hops_max k (if b then r else r').queue
if-Sound k true r r' s s' = s
if-Sound k false r r' s s' = s'

unless-Sound :
    (k : ℕ) (b : Bool) (r r' : Handled)
    → Sound hops_max k r.queue
    → (b ≡ false → Sound hops_max k r'.queue)
    → Sound hops_max k (if b then r else r').queue
unless-Sound k true r r' s t = s
unless-Sound k false r r' s t = t refl

pass_on-Sound :
    (k now : ℕ) (started : Bool) (g : Grid) (q : List TxMsg) (d : DataHdr) (payload : List ℕ)
    (flags : ℕ) (got : Option Delivery)
    → d.hops < hops_max
    → Sound hops_max k q
    → Sound hops_max k (pass_on now started g q d payload flags got).queue
unfolding pass_on
pass_on-Sound k now started g q d payload flags got few s =
    send_forward-Sound hops_max k now started g q d.origin d.final d.port payload flags
      (u8 (d.hops + 1)) d.msg_id (omega arith) s

forward-Sound :
    (k now : ℕ) (started : Bool) (g : Grid) (q : List TxMsg) (d : DataHdr) (payload : List ℕ)
    (got : Option Delivery)
    → Sound hops_max k q
    → Sound hops_max k (forward now started g q d payload got).queue
unfolding forward
forward-Sound k now started g q d payload got s =
    let hop = next_hop now g d.final false in
    let down = bit_or d.flags (if hop.0 == parent hop.1.neigh then 0 else 2 ^ data_downward) in
    let drops : Handled = record {
      grid = g;
      queue = q;
      delivered = got;
      forwarded = false;
      dropped = true;
    } in
    let lost : Handled = record {
      grid = hop.1;
      queue = q;
      delivered = got;
      forwarded = false;
      dropped = true;
    } in
    let up = pass_on now started g q d payload d.flags got in
    let on = pass_on now started hop.1 q d payload down got in
    unless-Sound k (is_leaf g || leb hops_max d.hops) drops _ s (λ passed.
      let few : d.hops < hops_max = ground arith in
      if-Sound k (has_bit d.flags data_upward || (d.final == addr_backhaul)) up _
        (pass_on-Sound k now started g q d payload d.flags got few s)
        (if-Sound k (hop.0 == addr_invalid) lost on s
          (pass_on-Sound k now started hop.1 q d payload down got few s)))

handle_data-Sound :
    (k now : ℕ) (started : Bool) (g : Grid) (q : List TxMsg) (prev_hop : ℕ) (body : List ℕ)
    (rssi : ℤ)
    → Sound hops_max k q
    → Sound hops_max k (handle_data now started g q prev_hop body rssi).queue
unfolding handle_data
handle_data-Sound k now started g q prev_hop body rssi s =
    let d = read_hdr body in
    let payload = drop data_hdr_size body in
    let dup = is_duplicate g (record { origin = d.origin; msg_id = d.msg_id }) in
    let got : Option Delivery = some (record {
      src = d.origin;
      prev_hop = prev_hop;
      port = d.port;
      rssi = rssi;
      hops = d.hops;
      payload = payload;
    }) in
    let ends : Grid → Option Delivery → Handled =
      λ h o. record { grid = h; queue = q; delivered = o; forwarded = false; dropped = false } in
    let on = if for_us dup.0 d then got else none in
    if-Sound k (ltb (length body) data_hdr_size || ltb (data_hdr_size + payload_max) (length body))
      (ends g none) _ s
      (if-Sound k dup.1 (ends dup.0 none) _ s (
        if-Sound k (for_us dup.0 d && (not (has_bit d.flags data_broadcast) || (d.final == g.addr)))
          (ends dup.0 got) (forward now started dup.0 q d payload on) s
          (forward-Sound k now started dup.0 q d payload on s)))

settle-Sound :
    (k now : ℕ) (g : Grid) (q : List TxMsg) (addr : ℕ) (got_rx sent_tx needs_ack : Bool)
    → Sound hops_max k q
    → Sound hops_max k (settle now g q addr got_rx sent_tx needs_ack)
unfolding settle
settle-Sound k now g q addr got_rx sent_tx needs_ack s =
    go (got_rx && (needs_ack && sent_tx)) (peek now addr g q).0
  where
    go :
        (b : Bool) (o : Option ℕ)
        → Sound hops_max k (if b then elim o [ none ↦ q | some i ↦ free q i ] else q)
    go false o = s
    go true none = s
    go true (some i) = free-Sound hops_max k q i s

send-Sound :
    (k now : ℕ) (started : Bool) (g : Grid) (q : List TxMsg) (msg_id dst port : ℕ) (buf : List ℕ)
    (urgent : Bool)
    → Sound hops_max k q
    → Sound hops_max k (send now started g q msg_id dst port buf urgent).0.queue
unfolding send
send-Sound k now started g q msg_id dst port buf urgent s =
    let r = send_forward now started g q g.addr dst port buf (flags_for dst) 0 msg_id in
    let kept : Sound hops_max k r.queue =
      send_forward-Sound hops_max k now started g q g.addr dst port buf (flags_for dst) 0 msg_id
        (omega arith) s in
    let nh = if dst == addr_backhaul then parent r.grid.neigh else dst in
    if-Outbox hops_max k (is_sent r.status && urgent)
      (record r { grid = expedite_at now nh r.grid }) r kept kept

happen-Sound :
    (k now : ℕ) (g : Grid) (q : List TxMsg) (e : QueueEvent)
    → Sound hops_max k q
    → Sound hops_max k (happen now g q e)
unfolding happen
happen-Sound k now g q (sends started msg_id dst port buf urgent) s =
    send-Sound k now started g q msg_id dst port buf urgent s
happen-Sound k now g q (hears started prev_hop body rssi) s =
    handle_data-Sound k now started g q prev_hop body rssi s
happen-Sound k now g q (settles addr got_rx sent_tx needs_ack) s =
    settle-Sound k now g q addr got_rx sent_tx needs_ack s

-- Whatever a node sends, hears and settles, in whatever order, at whatever times and with whatever state
-- of the routing: its queue keeps its number of places, each with a buffer of 64 bytes and a length
-- within it, and none with a message that has taken more than 12 hops, if that held before.
pub run-Sound :
    (k : ℕ) (es : List (ℕ × Grid × QueueEvent)) (q : List TxMsg)
    → Sound hops_max k q
    → Sound hops_max k (run q es)
unfolding run
run-Sound k [] q s = s
run-Sound k (e ∷ rest) q s =
    run-Sound k rest (happen e.0 e.1 q e.2) (happen-Sound k e.0 e.1 q e.2 s)
