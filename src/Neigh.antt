-- ===== src/Neigh.antt =====
-- subsys/lockgrid/lg_neigh.c: the neighbour table and the link metrics. `lg.neigh` is a list, a
-- pointer into it the index of a slot.
pub mod Metrics
mod Tests
use lockgrid.Prelude.{
  ℕ, zero, suc, ◌+◌, ◌-◌, ◌*◌, ◌/◌, ◌%◌, ◌^◌, ◌≤◌, ◌<◌, min, max, Bool, true, false, not, ◌&&◌,
  ◌||◌, List, [], ◌∷◌, Option, none, some, ltb, leb, ◌==◌, if◌then◌else◌, set, length,
}
use lockgrid.Prelude.Int.{ℤ, pos, negsuc, pos_part, neg_part, eqb_ℤ, ltb_ℤ}
use lockgrid.Types.{
  u8, u16, u32, Neigh, Quality, NeighState, free, heard, joining, linked, lost, is_free, is_linked,
  zero_neigh, addr_invalid, rank_infinite, etx_one, int8_min, ewma, to_i8,
}

-- LG_ETX_MAX
abbrev pub etx_max : ℕ
etx_max = etx_one * 8

-- The loop of `lg_neigh_find`, from slot `i` on.
unfoldable pub find_from : ℕ → List Neigh → ℕ → Option ℕ
find_from i [] addr = none
find_from i (n ∷ rest) addr =
    let later = find_from (suc i) rest addr in
    if not (is_free n.state) && (n.addr == addr) then some i else later

-- `lg_neigh_find`
unfoldable pub find : List Neigh → ℕ → Option ℕ
find l addr = if addr == addr_invalid then none else find_from 0 l addr

unfoldable pub first_free : ℕ → List Neigh → Option ℕ
first_free i [] = none
first_free i (n ∷ rest) =
    let later = first_free (suc i) rest in if is_free n.state then some i else later

-- A neighbour that was just heard of.
abbrev pub new_neigh : ℕ → Neigh
new_neigh addr = record zero_neigh {
  state = heard;
  addr = addr;
  advert = record zero_neigh.advert { peer_rank = rank_infinite };
  schedule = record zero_neigh.schedule { subrate = 1; subrate_max = 1 };
  quality = record zero_neigh.quality {
    rssi = int8_min;
    etx_q4 = etx_one;
    link_cost = rank_infinite;
  };
}

-- `lg_neigh_alloc`: the table and the slot.
unfoldable pub alloc : List Neigh → ℕ → List Neigh × Option ℕ
alloc l addr = elim (find l addr) [
  | some i ↦ (l, some i)
  | none ↦ elim (first_free 0 l) [ none ↦ (l, none) | some i ↦ (set l i (new_neigh addr), some i) ]
]

-- `lg_neigh_linked_count`, on an `uint8_t`.
unfoldable pub linked_count : List Neigh → ℕ
linked_count [] = 0
linked_count (n ∷ rest) = u8 (linked_count rest + (if is_linked n.state then 1 else 0))

-- `lg_neigh_update_cost`, on the metrics.
unfoldable pub update_cost : Quality → Quality
update_cost q =
    let weak = not (eqb_ℤ q.rssi int8_min) && ltb_ℤ q.rssi (negsuc 87) in
    let cost = if weak then q.etx_q4 + u32 (neg_part q.rssi - 88) * 2 else q.etx_q4 in
    record q { link_cost = u16 (min cost (rank_infinite - 1)) }

-- The moving average of `lg_neigh_tx_result`, clamped.
unfoldable pub next_etx : ℕ → Bool → ℕ
unfolding ewma
next_etx etx acked =
    let sample = if acked then etx_one else etx_one * 4 in
    let average = pos_part (ewma (pos etx) (pos sample) true) in
    u16 (max etx_one (min average etx_max))

-- The error rate of that many attempts; `tx_attempts - tx_acked` is an `uint32_t`.
unfoldable pub error_rate : ℕ → ℕ → ℕ → ℕ
error_rate attempts acked old =
    let missing = u32 (attempts + 2 ^ 32 - acked) in
    if attempts == 0 then old else u16 (u32 (missing * 1000) / attempts)

unfoldable pub count_tx : Quality → Bool → Quality
count_tx q acked =
    let attempts = u32 (q.tx_attempts + 1) in
    let good = if acked then u32 (q.tx_acked + 1) else q.tx_acked in
    let halve = leb 128 attempts in
    record q {
      tx_attempts = if halve then attempts / 2 else attempts;
      tx_acked = if halve then good / 2 else good;
      etx_q4 = next_etx q.etx_q4 acked;
      per_permille = error_rate attempts good q.per_permille;
    }

-- `lg_neigh_tx_result`
unfoldable pub tx_result : Neigh → Bool → Neigh
tx_result n acked = record n {
  supervision = record n.supervision {
    consec_misses = if acked then 0 else u8 (n.consec_misses + 1);
  };
  quality = update_cost (count_tx n.quality acked);
}

-- `lg_neigh_rx_rssi`
unfoldable pub rx_rssi : Neigh → ℤ → Neigh
rx_rssi n rssi = record n {
  quality = record n.quality { rssi = to_i8 (ewma n.rssi rssi (not (eqb_ℤ n.rssi int8_min))) };
}

-- A slot and the cost of its link: the `worst` of `lg_neigh_make_room`.
unfoldable pub worse_of : Option (ℕ × ℕ) → ℕ → ℕ → Option (ℕ × ℕ)
worse_of none i cost = some (i, cost)
worse_of (some (j, worst)) i cost = if ltb worst cost then some (i, cost) else some (j, worst)

-- What the first loop of `lg_neigh_make_room` ends with.
pub data Idle : Type 0 where
  open_slot : ℕ → Idle
  worst_idle : Option (ℕ × ℕ) → Idle

abbrev pub is_idle : NeighState → Bool
is_idle heard = true
is_idle lost = true
is_idle _ = false

unfoldable pub idle_loop : ℕ → List Neigh → Option (ℕ × ℕ) → Idle
idle_loop i [] worst = worst_idle worst
idle_loop i (n ∷ rest) worst =
    let worst' = if is_idle n.state then worse_of worst i n.link_cost else worst in
    let later = idle_loop (suc i) rest worst' in if is_free n.state then open_slot i else later

-- The second loop, over links; `cand_cost + LG_ETX_ONE` is an `uint32_t`.
unfoldable pub link_loop : ℕ → List Neigh → ℕ → Option (ℕ × ℕ) → Option (ℕ × ℕ)
link_loop i [] cand worst = worst
link_loop i (n ∷ rest) cand worst = link_loop (suc i) rest cand (
    if not n.is_parent && ltb (cand + etx_one) n.link_cost
    then worse_of worst i n.link_cost
    else worst)

-- How `lg_neigh_make_room` answers: with a slot that was free, with one that it freed of a neighbour
-- without a link, with one of which it took the link down first, or with none.
pub data Room : Type 0 where
  was_free : ℕ → Room
  forgot : ℕ → Room
  displaced : ℕ → Room
  no_room : Room

unfoldable pub make_room : List Neigh → ℕ → Room
make_room l cand = elim (idle_loop 0 l none) [
  | open_slot i ↦ was_free i
  | worst_idle (some (i, cost)) ↦ forgot i
  | worst_idle none ↦ elim (link_loop 0 l cand none) [
    | some (i, cost) ↦ displaced i
    | none ↦ no_room
  ]
]
