-- ===== src/Core/Queue.antt =====
-- subsys/lockgrid/lg_core.c: the queue of messages that wait, and sending; and `lg_sched_expedite` of
-- subsys/lockgrid/lg_link.c. A pointer to a message is its place in the queue. The routing state goes
-- through, since `lg_route_next_hop` clears routes whose child is gone.
pub mod Sound
use lockgrid.Prelude.{
  ℕ, zero, suc, ◌+◌, ◌^◌, ◌%◌, Bool, true, false, not, ◌&&◌, ◌||◌, List, [], ◌∷◌, Option, none,
  some, bit_or, ltb, leb, ◌==◌, if◌then◌else◌, set, length, write_at, get_elem?, replicate,
}
use lockgrid.Prelude.Bits.{has_bit}
use lockgrid.Types.{u8, u16, u64, Neigh, is_linked, addr_invalid, addr_broadcast, addr_backhaul}
use lockgrid.Neigh.{find}
use lockgrid.Route.{Grid, parent}
use lockgrid.Route.Routes.{next_hop}

-- LG_PAYLOAD_MAX, LG_EXPEDITE_LEAD_US
abbrev pub payload_max : ℕ
payload_max = 64

abbrev pub expedite_lead_us : ℕ
expedite_lead_us = 3000

-- The bit numbers of LG_DATA_F_UPWARD, LG_DATA_F_BROADCAST and LG_DATA_F_DOWNWARD.
abbrev pub data_upward : ℕ
data_upward = 0

abbrev pub data_broadcast : ℕ
data_broadcast = 1

abbrev pub data_downward : ℕ
data_downward = 2

-- `struct lg_txmsg`
pub record TxMsg : Type 0 where
  pub used : Bool
  pub final : ℕ
  pub origin : ℕ
  pub flags : ℕ
  pub port : ℕ
  pub hops : ℕ
  pub msg_id : ℕ
  pub len : ℕ
  pub retries : ℕ
  pub enqueued_us : ℕ
  pub payload : List ℕ

-- What `lg_txq_free` leaves.
abbrev pub no_message : TxMsg
no_message = record {
  used = false;
  final = 0;
  origin = 0;
  flags = 0;
  port = 0;
  hops = 0;
  msg_id = 0;
  len = 0;
  retries = 0;
  enqueued_us = 0;
  payload = replicate payload_max 0;
}

-- `msg_next_hop`
unfoldable pub msg_next_hop : ℕ → Grid → TxMsg → ℕ × Grid
msg_next_hop now g m =
    if has_bit m.flags data_broadcast
    then (m.final, g)
    else next_hop now g m.final (has_bit m.flags data_upward)

-- The loop of `lg_txq_peek`, from place `i` on; `oldest` is the place and the time of the oldest message
-- so far.
unfoldable pub peek_from : ℕ → ℕ → Grid → ℕ → List TxMsg → Option (ℕ × ℕ) → Option (ℕ × ℕ) × Grid
peek_from now peer g i [] oldest = (oldest, g)
peek_from now peer g i (m ∷ rest) oldest =
    let hop = msg_next_hop now g m in
    let older : Bool = elim oldest [ none ↦ true | some o ↦ ltb m.enqueued_us o.1 ] in
    let takes = m.used && ((hop.0 == peer) && older) in
    peek_from now peer (if m.used then hop.1 else g) (suc i) rest
      (if takes then some (i, m.enqueued_us) else oldest)

-- `lg_txq_peek`
unfoldable pub peek : ℕ → ℕ → Grid → List TxMsg → Option ℕ × Grid
peek now peer g q =
    let r = peek_from now peer g 0 q none in (elim r.0 [ none ↦ none | some o ↦ some o.0 ], r.1)

-- `lg_txq_free`
unfoldable pub free : List TxMsg → ℕ → List TxMsg
free q i = set q i no_message

-- `txq_alloc`, with what the caller writes into the place.
unfoldable pub store : (TxMsg → TxMsg) → List TxMsg → Option (List TxMsg)
store f [] = none
store f (m ∷ rest) =
    let later = store f rest in
    if not m.used then some (f m ∷ rest) else elim later [ none ↦ none | some q ↦ some (m ∷ q) ]

-- The assignments of `lg_send_forward` to a place, for a message to `final`.
unfoldable pub filled : ℕ → ℕ → ℕ → ℕ → List ℕ → ℕ → ℕ → ℕ → TxMsg → TxMsg
filled now origin final port buf flags hops msg_id m = record m {
  used = true;
  origin = origin;
  final = final;
  flags = flags;
  port = port;
  hops = hops;
  msg_id = msg_id;
  len = u8 (length buf);
  enqueued_us = now;
  payload = write_at m.payload 0 buf;
}

-- `lg_sched_expedite`, on the neighbour.
unfoldable pub expedite : ℕ → Neigh → Neigh
expedite now n =
    let soon = u64 (now + expedite_lead_us) in
    if is_linked n.state && (n.initiator && ltb soon n.anchor_us)
    then record n { schedule = record n.schedule { anchor_us = soon; subrate = 1 } }
    else n

-- The loop of a broadcast over the neighbours: the neighbours, the queue, and whether a copy was stored.
unfoldable pub spread :
    ℕ → (ℕ → TxMsg → TxMsg) → List Neigh → List TxMsg → List Neigh × List TxMsg × Bool
spread now f [] q = ([], q, false)
spread now f (n ∷ rest) q =
    let place = if is_linked n.state then store (f n.addr) q else none in
    let r = spread now f rest (elim place [ none ↦ q | some q' ↦ q' ]) in
    if not (is_linked n.state)
    then (n ∷ r.0, r.1, r.2)
    else elim place [ none ↦ (n ∷ rest, q, false) | some q' ↦ (expedite now n ∷ r.0, r.1, true) ]

-- What `lg_send_forward` returns: 0, or an error by its name.
pub data Sent : Type 0 where
  sent too_long not_started not_connected no_memory : Sent

pub record Outbox : Type 0 where
  pub grid : Grid
  pub queue : List TxMsg
  pub status : Sent

-- `lg_send_forward` of a message to one node, once the next hop `nh` is asked for.
unfoldable pub send_one : Grid → ℕ → (TxMsg → TxMsg) → List TxMsg → Outbox
send_one g nh f q =
    if nh == addr_invalid
    then record { grid = g; queue = q; status = not_connected }
    else elim (store f q) [
      | none ↦ record { grid = g; queue = q; status = no_memory }
      | some q' ↦ record { grid = g; queue = q'; status = sent }
    ]

-- `lg_send_forward`
unfoldable pub send_forward : ℕ → Bool → Grid → List TxMsg → ℕ → ℕ → ℕ → List ℕ → ℕ → ℕ → ℕ → Outbox
unfolding send_one
send_forward now started g q origin final port buf flags hops msg_id =
    let copies = spread now (λ a. filled now origin a port buf flags hops msg_id) g.neigh q in
    let hop = next_hop now g final (has_bit flags data_upward) in
    if ltb payload_max (length buf)
    then record { grid = g; queue = q; status = too_long }
    else if not started
    then record { grid = g; queue = q; status = not_started }
    else if has_bit flags data_broadcast
    then record {
      grid = record g { neigh = copies.0 };
      queue = copies.1;
      status = if copies.2 then sent else not_connected;
    }
    else send_one hop.1 hop.0 (filled now origin final port buf flags hops msg_id) q

-- The flags of `lg_send` for a destination.
abbrev pub flags_for : ℕ → ℕ
flags_for dst =
    if dst == addr_backhaul
    then 2 ^ data_upward
    else if dst == addr_broadcast
    then 2 ^ data_broadcast
    else 0

abbrev pub is_sent : Sent → Bool
is_sent sent = true
is_sent _ = false

-- The neighbour at an address is expedited.
abbrev pub expedite_at : ℕ → ℕ → Grid → Grid
expedite_at now addr g = elim (find g.neigh addr) [
  | none ↦ g
  | some i ↦ elim (get_elem? g.neigh i) [
    | none ↦ g
    | some n ↦ record g { neigh = set g.neigh i (expedite now n) }
  ]
]

-- `lg_send`, with `msg_id_next` for the message; `urgent` is LG_TX_URGENT.
unfoldable pub send : ℕ → Bool → Grid → List TxMsg → ℕ → ℕ → ℕ → List ℕ → Bool → Outbox × ℕ
send now started g q msg_id dst port buf urgent =
    let flags = flags_for dst in
    let r = send_forward now started g q g.addr dst port buf flags 0 msg_id in
    let nh = if dst == addr_backhaul then parent r.grid.neigh else dst in
    (
      if is_sent r.status && urgent then record r { grid = expedite_at now nh r.grid } else r,
      u16 (msg_id + 1),
    )
