-- ===== src/Join.antt =====
-- subsys/lockgrid/lg_join.c: the handshake. Its context `hs` is one record, in which the neighbour is
-- the index of its slot; here stand the context, the slots and the fragments of a message.
pub mod Fragments
pub mod Params
pub mod Steps
pub mod Events
pub mod Slots
pub mod Ends
pub mod Forged
pub mod Resume
pub mod Agree
mod Tests
use lockgrid.Prelude.{
  ℕ, ◌+◌, ◌-◌, ◌*◌, ◌/◌, ◌^◌, min, max, bit_and, bit_or, Bool, true, false, not, ◌&&◌, ◌||◌, List,
  Option, none, some, ltb, leb, ◌==◌, if◌then◌else◌, get_or, set, slice, write_at, replicate,
}
use lockgrid.Prelude.Bits.{has_bit}
use lockgrid.Types.{u8, u16, u64, Neigh, NeighState, joining, time_never}
use lockgrid.Config.{Config}
use lockgrid.Frame.{hdr_put, hdr_len, hdr_len_sec, sec_overhead, fcf_sec, pdu_max}
use lockgrid.Sec.Protect.{Aead, SecStats, Code, ok, encrypt, decrypt}

-- LG_XFER_MAX
abbrev pub xfer_max : ℕ
xfer_max = 288

-- LG_JOIN_SLOT_US, LG_JOIN_RX_MARGIN_US, LG_FRAG_GAP_US, LG_FRAG_HDR_LEN
abbrev pub join_slot_us : ℕ
join_slot_us = 40000

abbrev pub join_rx_margin_us : ℕ
join_rx_margin_us = 1500

abbrev pub frag_gap_us : ℕ
frag_gap_us = 500

abbrev pub frag_hdr_len : ℕ
frag_hdr_len = 2

-- LG_FRAG_CAP, LG_FRAG_CAP_SEC
abbrev pub frag_cap : ℕ
frag_cap = pdu_max - hdr_len - frag_hdr_len

abbrev pub frag_cap_sec : Config → ℕ
frag_cap_sec cfg = pdu_max - sec_overhead cfg - frag_hdr_len

-- The handshake's part of the frame types.
abbrev pub ft_join_req : ℕ
ft_join_req = 1

abbrev pub ft_join_rsp : ℕ
ft_join_rsp = 2

abbrev pub ft_join_cfm : ℕ
ft_join_cfm = 3

abbrev pub ft_join_ack : ℕ
ft_join_ack = 4

abbrev pub ft_resume_req : ℕ
ft_resume_req = 5

abbrev pub ft_resume_rsp : ℕ
ft_resume_rsp = 6

-- `struct lg_xfer`
pub record Xfer : Type 0 where
  pub buf : List ℕ
  pub len : ℕ
  pub frags_seen : ℕ
  pub complete : Bool

abbrev pub zero_xfer : Xfer
zero_xfer = record { buf = replicate xfer_max 0; len = 0; frags_seen = 0; complete = false }

-- `hs`; `peer` is none where `hs.n` is the null pointer.
pub record Context : Type 0 where
  pub peer : Option ℕ
  pub t0_us : ℕ
  pub slot : ℕ
  pub resuming : Bool
  pub joiner : Bool
  pub eph_priv : List ℕ
  pub eph_pub : List ℕ
  pub tx : List ℕ
  pub tx_len : ℕ
  pub tx_type : ℕ
  pub tx_secured : Bool
  pub frag_idx : ℕ
  pub frag_total : ℕ
  pub last_tx_air_start_us : ℕ
  pub last_tx_len : ℕ
  pub rx : Xfer
  pub rx_type : ℕ
  pub progressed : Bool
  pub owe_tx : Bool
  pub slot_limit : ℕ
  pub idle_slots : ℕ
  pub was_tx : Bool
  pub slot_refused : Bool

-- `memset(&hs, 0, sizeof(hs))`, which is `lg_join_init`
abbrev pub no_handshake : Context
no_handshake = record {
  peer = none;
  t0_us = 0;
  slot = 0;
  resuming = false;
  joiner = false;
  eph_priv = replicate 32 0;
  eph_pub = replicate 64 0;
  tx = replicate xfer_max 0;
  tx_len = 0;
  tx_type = 0;
  tx_secured = false;
  frag_idx = 0;
  frag_total = 0;
  last_tx_air_start_us = 0;
  last_tx_len = 0;
  rx = zero_xfer;
  rx_type = 0;
  progressed = false;
  owe_tx = false;
  slot_limit = 0;
  idle_slots = 0;
  was_tx = false;
  slot_refused = false;
}

-- The capacity of a fragment.
abbrev pub cap_of : Config → Bool → ℕ
cap_of cfg secured = if secured then frag_cap_sec cfg else frag_cap

-- `stage_message`
unfoldable pub stage_message : Config → ℕ → Bool → ℕ → Context → Context
stage_message cfg type secured len hs =
    let cap = cap_of cfg secured in
    let total = u8 ((len + cap - 1) / cap) in
    record hs {
      owe_tx = true;
      tx_type = type;
      tx_secured = secured;
      tx_len = len;
      frag_idx = 0;
      frag_total = if total == 0 then 1 else total;
    }

-- The bytes of `hs.tx` in fragment `idx`.
abbrev pub chunk_of : ℕ → ℕ → Context → ℕ
chunk_of cap idx hs =
    let off = u16 (idx * cap) in min cap (if ltb off hs.tx_len then hs.tx_len - off else 0)

-- `build_fragment` before the frame is encrypted: the frame and its length.
unfoldable pub plain_fragment : Config → ℕ → ℕ → Neigh → Context → ℕ → List ℕ → List ℕ × ℕ
plain_fragment cfg netid addr n hs idx out =
    let cap = cap_of cfg hs.tx_secured in
    let fcf = bit_or hs.tx_type (if hs.tx_secured then 2 ^ fcf_sec else 0) in
    let (p, h) =
      hdr_put out netid (record { fcf = fcf; seq = n.tx_seq; dst = n.addr; src = addr }) in
    let chunk = chunk_of cap idx hs in
    let body = slice hs.tx (u16 (idx * cap)) chunk in
    (
      write_at (set (set p h (u8 idx)) (h + 1) hs.frag_total) (h + frag_hdr_len) body,
      u8 (h + frag_hdr_len + chunk),
    )

-- What `build_fragment` returns, and what it leaves behind.
pub record Built : Type 0 where
  pub len : ℕ
  pub out : List ℕ
  pub neigh : Neigh
  pub stats : SecStats

-- The number in the counter of frames is used up.
abbrev pub used_seq : Neigh → Neigh
used_seq n = record n { keys = record n.keys { tx_seq = u8 (n.tx_seq + 1) } }

abbrev pub is_ok : Code → Bool
is_ok ok = true
is_ok _ = false

-- `build_fragment` of the node `addr`
unfoldable pub build_fragment :
    Config → Aead → ℕ → ℕ → Neigh → Context → ℕ → List ℕ → SecStats → Built
build_fragment cfg crypto netid addr n hs idx out st =
    let (pdu, len) = plain_fragment cfg netid addr n hs idx out in
    let n' = used_seq n in
    let p = encrypt cfg crypto addr n'.keys pdu hdr_len_sec len st in
    if hs.tx_secured
    then record {
      len = if is_ok p.code then p.len else 0;
      out = p.pdu;
      neigh = record n' { keys = p.keys };
      stats = p.stats;
    }
    else record { len = len; out = pdu; neigh = n'; stats = st }

-- `reassemble` behind the decryption, for a frame with the header length `hdr` and the capacity `cap`.
unfoldable pub take_fragment : ℕ → ℕ → ℕ → List ℕ → ℕ → Context → Context × Bool
take_fragment hdr cap type pdu len hs =
    let idx = get_or pdu hdr 0 in
    let total = get_or pdu (hdr + 1) 0 in
    let chunk = u16 (len - hdr - frag_hdr_len) in
    let fresh = not (hs.rx_type == type) || (idx == 0) in
    let old = if fresh then zero_xfer else hs.rx in
    let seen = u8 (bit_or old.frags_seen (2 ^ idx)) in
    let size = if idx == total - 1 then u16 (idx * cap + chunk) else old.len in
    let whole = (seen == 2 ^ total - 1) && not (size == 0) in
    if ltb len (hdr + frag_hdr_len)
    then (hs, false)
    else if (total == 0) || (ltb 8 total || leb total idx)
    then (hs, false)
    else if ltb xfer_max (idx * cap + chunk)
    then (hs, false)
    else (
      record hs {
        rx_type = type;
        rx = record {
          buf = write_at old.buf (idx * cap) (slice pdu (hdr + frag_hdr_len) chunk);
          len = size;
          frags_seen = seen;
          complete = if whole then true else old.complete;
        };
      },
      whole,
    )

-- What `reassemble` leaves behind, and whether the message is whole.
pub record Reassembled : Type 0 where
  pub neigh : Neigh
  pub hs : Context
  pub whole : Bool
  pub stats : SecStats

-- `reassemble`
unfoldable pub reassemble : Config → Aead → Neigh → Context → List ℕ → ℕ → SecStats → Reassembled
reassemble cfg crypto n hs pdu len st =
    let fcf = get_or pdu 2 0 in
    let type = bit_and fcf 0x0f in
    let p = decrypt cfg crypto n.keys pdu len st in
    let opened = take_fragment hdr_len_sec (frag_cap_sec cfg) type p.pdu p.len hs in
    let plain = take_fragment hdr_len frag_cap type pdu len hs in
    if has_bit fcf fcf_sec
    then record {
      neigh = record n { keys = p.keys };
      hs = if is_ok p.code then opened.0 else hs;
      whole = is_ok p.code && opened.1;
      stats = p.stats;
    }
    else record { neigh = n; hs = plain.0; whole = plain.1; stats = st }

-- `slot_time`
unfoldable pub slot_time : Context → ℕ → ℕ
slot_time hs slot = u64 (hs.t0_us + slot * join_slot_us)

-- `slot_next_from_clock`
unfoldable pub slot_next_from_clock : ℕ → Context → ℕ
slot_next_from_clock now hs =
    if leb now hs.t0_us then 0 else min ((now - hs.t0_us) / join_slot_us + 1) 255

abbrev pub is_joining : NeighState → Bool
is_joining joining = true
is_joining _ = false

abbrev pub is_peer : Context → ℕ → Bool
is_peer hs i = elim hs.peer [ none ↦ false | some j ↦ i == j ]

abbrev pub has_peer : Context → Bool
has_peer hs = elim hs.peer [ none ↦ false | some j ↦ true ]

-- `lg_join_next_us` of the neighbour `n` in slot `i`
unfoldable pub next_us : ℕ → Context → ℕ → Neigh → ℕ
next_us now hs i n =
    if not (is_peer hs i) || not (is_joining n.state)
    then time_never
    else if hs.slot == 0
    then slot_time hs 0
    else slot_time hs (max hs.slot (slot_next_from_clock now hs))

-- `lg_join_slot_is_tx`
unfoldable pub slot_is_tx : Context → Bool
slot_is_tx hs = has_peer hs && hs.owe_tx
