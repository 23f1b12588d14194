-- ===== src/Core/Ring.antt =====
-- subsys/lockgrid/lg_core.c: the rings that carry received frames and notifications to the work
-- queue. Head and tail are `uint32_t` that run on; each ring has eight places.
pub mod Fifo
use lockgrid.Prelude.{
  ℕ, zero, suc, ◌+◌, ◌-◌, ◌%◌, ◌^◌, ◌≤◌, ◌<◌, Bool, true, false, List, [], ◌∷◌, Option, none, some,
  leb, ltb, ◌==◌, if◌then◌else◌, get_or, set,
}
use lockgrid.Types.{u32, u8}
use lockgrid.Prelude.Int.{ℤ}
use lockgrid.Frame.{pdu_max}

-- LG_RX_RING_SIZE and LG_NOTIFY_RING_SIZE
abbrev pub ring_size : ℕ
ring_size = 8

-- `struct lg_rx_rec`
pub record RxRec : Type 0 where
  pub pdu : List ℕ
  pub len : ℕ
  pub rssi : ℤ
  pub chan : ℕ
  pub air_start_us : ℕ

pub record Ring (A : Type 0) : Type 0 where
  pub places : List A
  pub head : ℕ
  pub tail : ℕ

-- How many entries wait: `head - tail`.
abbrev pub waiting : {A : Type 0} → Ring A → ℕ
waiting r = u32 (r.head + 2 ^ 32 - r.tail)

-- `lg_notify`, which drops the entry when the ring is full.
unfoldable pub post : {A : Type 0} → Ring A → A → Ring A
post r x =
    if leb ring_size (waiting r)
    then r
    else record r { places = set r.places (r.head % ring_size) x; head = u32 (r.head + 1) }

-- `lg_rx_post`
unfoldable pub rx_post : Ring RxRec → RxRec → Ring RxRec
rx_post r x = if ltb pdu_max x.len then r else post r x

-- One round of the loops of `notify_handler` and `rx_handler`: the entry that is handed on, and the
-- ring. `spare` is what is read out of bounds.
unfoldable pub take : {A : Type 0} → A → Ring A → Option (A × Ring A)
take spare r =
    if r.tail == r.head
    then none
    else some (get_or r.places (r.tail % ring_size) spare, record r { tail = u32 (r.tail + 1) })
