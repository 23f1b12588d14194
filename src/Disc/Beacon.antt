-- ===== src/Disc/Beacon.antt =====
-- subsys/lockgrid/lg_disc.c: the beacon, its three copies, and the join window that follows them; with
-- the protection of beacons of subsys/lockgrid/lg_sec.c.
pub mod Bytes
pub mod Window
use lockgrid.Prelude.{
  ℕ, zero, suc, ◌+◌, ◌-◌, ◌*◌, ◌/◌, ◌%◌, ◌^◌, ◌≤◌, ◌<◌, Bool, true, false, not, ◌&&◌, ◌||◌, List,
  [], ◌∷◌, ◌++◌, ltb, leb, ◌==◌, if◌then◌else◌, get_or, get_elem?, set, Option, none, some, slice,
  write_at, length, replicate, take,
}
use lockgrid.Types.{u8, u16, u32, u64, addr_broadcast, role_code}
use lockgrid.Config.{Config}
use lockgrid.Frame.{
  Header, hdr_put, hdr_len, airtime_us, put_le16, put_le32, get_le16, get_le32, pdu_max,
}
use lockgrid.Neigh.{linked_count}
use lockgrid.Route.{Grid, has_route}
use lockgrid.Core.{Tune}
use lockgrid.Disc.{Disc, Copy, jitter, rdv_chan, rdv_slots, hint_lifetime_us, offer_grace_us}

-- LG_BEACON_COPY_GAP_US, LG_JOIN_OFFSET_US, LG_JOIN_TRAIN_US, LG_JOIN_CONTEND_SLOTS
abbrev pub copy_gap_us : ℕ
copy_gap_us = 600

abbrev pub join_offset_us : ℕ
join_offset_us = 5000

abbrev pub join_train_us : ℕ
join_train_us = 9500

abbrev pub join_contend_slots : ℕ
join_contend_slots = 4

-- LG_JOIN_WINDOW_US
abbrev pub join_window_us : ℕ
join_window_us = join_contend_slots * join_train_us + 2000

-- `sizeof(struct lg_beacon)`, LG_BEACON_MIC_LEN, LG_FT_BEACON
abbrev pub beacon_size : ℕ
beacon_size = 23

abbrev pub beacon_mic_len : ℕ
beacon_mic_len = 4

abbrev pub ft_beacon : ℕ
ft_beacon = 0

-- `struct lg_beacon`
pub record Beacon : Type 0 where
  pub network_id : ℕ
  pub epoch : ℕ
  pub rank : ℕ
  pub chan_map : ℕ
  pub role : ℕ
  pub link_count : ℕ
  pub link_capacity : ℕ
  pub join_offset : ℕ
  pub join_window : ℕ
  pub next_beacon_offset : ℕ

-- The bytes of the packed structure.
unfoldable pub pack : Beacon → List ℕ
pack b =
    let blank = replicate beacon_size 0 in
    let counters = put_le32 (put_le32 blank 0 b.network_id) 4 b.epoch in
    let place = put_le16 (put_le16 counters 8 b.rank) 10 b.chan_map in
    let links = set (set (set place 12 (u8 b.role)) 13 (u8 b.link_count)) 14 (u8 b.link_capacity) in
    put_le32 (put_le16 (put_le16 links 15 b.join_offset) 17 b.join_window) 19 b.next_beacon_offset

unfoldable pub unpack : List ℕ → Beacon
unpack raw = record {
  network_id = get_le32 raw 0;
  epoch = get_le32 raw 4;
  rank = get_le16 raw 8;
  chan_map = get_le16 raw 10;
  role = get_or raw 12 0;
  link_count = get_or raw 13 0;
  link_capacity = get_or raw 14 0;
  join_offset = get_le16 raw 15;
  join_window = get_le16 raw 17;
  next_beacon_offset = get_le32 raw 19;
}

-- Air time of one copy.
abbrev pub copy_air_us : ℕ
copy_air_us = airtime_us (hdr_len + beacon_size + beacon_mic_len)

-- The loop over `j` for `total_air`, by the number of copies that are left, this one included.
unfoldable pub total_air : ℕ → ℕ
total_air zero = 0
total_air (suc zero) = copy_air_us
total_air (suc (suc r)) = copy_air_us + copy_gap_us + total_air (suc r)

-- `join_window_worthwhile`; differences are of `uint64_t`.
unfoldable pub join_window_worthwhile : Config → Tune → ℕ → Grid → Disc → Bool
join_window_worthwhile cfg tune now g d =
    if not (d.joiner_hint_us == 0) && ltb (u64 (now + 2 ^ 64 - d.joiner_hint_us)) hint_lifetime_us
    then true
    else if not (has_route g)
    then false
    else if ltb (linked_count g.neigh) cfg.min_links_target
        && ltb (u64 (now + 2 ^ 64 - d.link_change_us)) offer_grace_us
    then true
    else leb tune.join_window_floor_us (u64 (now + 2 ^ 64 - d.last_join_window_us))

-- Whether `beacon_stage` offers a join window.
unfoldable pub offers : Config → Tune → ℕ → Grid → Disc → Bool
offers cfg tune now g d =
    ltb (linked_count g.neigh) cfg.max_links && join_window_worthwhile cfg tune now g d

-- The beacon that `beacon_stage` puts into copy `i`.
unfoldable pub beacon_of : Config → Grid → Disc → Bool → ℕ → Beacon
beacon_of cfg g d offering i =
    let linked = linked_count g.neigh in
    let copy_off = u32 (i * (copy_air_us + copy_gap_us)) in
    record {
      network_id = d.network_id;
      epoch = d.beacon_epoch;
      rank = g.rank;
      chan_map = d.chan_map;
      role = role_code g.role;
      link_count = linked;
      link_capacity = if ltb linked cfg.max_links then u8 (cfg.max_links - linked) else 0;
      join_offset = u16 (total_air (rdv_slots - i) + join_offset_us);
      join_window = if offering then join_window_us else 0;
      next_beacon_offset = u32 (d.planned_us + 2 ^ 64 - (d.next_beacon_us + copy_off));
    }

-- `lg_sec_beacon_seal`, where `mac` is `beacon_mac` on the first bytes of a frame.
unfoldable pub seal : (List ℕ → Option (List ℕ)) → List ℕ → ℕ → Option (List ℕ × ℕ)
seal mac pdu len =
    if ltb pdu_max (len + beacon_mic_len) then none else elim (mac (slice pdu 0 len)) [
      | none ↦ none
      | some tag ↦ some (write_at pdu len tag, u8 (len + beacon_mic_len))
    ]

-- `beacon_mac`, where `tag_of` is `psa_aead_encrypt` with the grid key and a shortened tag, at a nonce
-- and additional data, on the empty text.
unfoldable pub beacon_mac : (List ℕ → List ℕ → Option (List ℕ)) → List ℕ → Option (List ℕ)
beacon_mac tag_of frame = elim (tag_of (b'B' ∷ replicate 12 0) frame) [
  | none ↦ none
  | some out ↦ if ltb (length out) beacon_mic_len then none else some (take beacon_mic_len out)
]

-- `memcmp(a, b, n) == 0`
unfoldable pub same_bytes : List ℕ → List ℕ → Bool
same_bytes [] [] = true
same_bytes (x ∷ xs) (y ∷ ys) = (x == y) && same_bytes xs ys
same_bytes _ _ = false

-- `lg_sec_beacon_open`: the length without the tag.
unfoldable pub unseal : (List ℕ → Option (List ℕ)) → List ℕ → ℕ → Option ℕ
unseal mac pdu len =
    let body_len = u8 (len - beacon_mic_len) in
    if leb len beacon_mic_len then none else elim (mac (slice pdu 0 body_len)) [
      | none ↦ none
      | some expect ↦
          if same_bytes expect (slice pdu body_len beacon_mic_len) then some body_len else none
    ]

-- One round of the loop of `beacon_stage`.
unfoldable pub stage_copy :
    Config → (List ℕ → Option (List ℕ)) → Grid → Disc → Bool → ℕ → Copy → Copy
stage_copy cfg mac g d offering i old =
    let (pdu, h) =
      hdr_put old.pdu (u16 d.network_id)
        (record { fcf = ft_beacon; seq = 0; dst = addr_broadcast; src = g.addr }) in
    let full = write_at pdu h (pack (beacon_of cfg g d offering i)) in
    elim (seal mac full (u8 (h + beacon_size))) [
      | none ↦ record old { pdu = full; len = 0 }
      | some (done, len) ↦ record { pdu = done; len = len; chan = rdv_chan d.network_id i }
    ]

-- That loop, from copy `i` on.
unfoldable pub stage_copies :
    Config → (List ℕ → Option (List ℕ)) → Grid → Disc → Bool → ℕ → List Copy → List Copy
stage_copies cfg mac g d offering i [] = []
stage_copies cfg mac g d offering i (c ∷ rest) =
    stage_copy cfg mac g d offering i c ∷ stage_copies cfg mac g d offering (suc i) rest

-- `beacon_stage`
unfoldable pub stage : Config → Tune → (List ℕ → Option (List ℕ)) → ℕ → Grid → Disc → Disc
stage cfg tune mac now g d =
    let offering = offers cfg tune now g d in
    record d {
      beacon_epoch = u32 (d.beacon_epoch + 1);
      offers_join = offering;
      copies = stage_copies cfg mac g d offering 0 d.copies;
    }

-- `beacon_urgent`
unfoldable pub urgent : Config → ℕ → Grid → Disc → Bool
urgent cfg now g d =
    if not (has_route g) || ltb (linked_count g.neigh) cfg.min_links_target
    then true
    else not (d.joiner_hint_us == 0) && ltb (u64 (now + 2 ^ 64 - d.joiner_hint_us)) hint_lifetime_us

-- `beacon_interval_us`
unfoldable pub interval_us : Config → Tune → ℕ → Grid → Disc → ℕ
interval_us cfg tune now g d =
    if urgent cfg now g d
    then tune.beacon_interval_us
    else u32 (tune.beacon_interval_us * tune.beacon_idle_factor)

-- `lg_disc_beacon_finish` up to `beacon_stage`: the time of the next beacon and of the one after it,
-- for two random numbers.
unfoldable pub plan : Config → Tune → ℕ → ℕ → ℕ → Grid → Disc → Disc
plan cfg tune now draw planned_draw g d =
    let interval = interval_us cfg tune now g d in
    let next =
      if ltb (u64 (now + 2000)) d.planned_us
      then d.planned_us
      else u64 (now + jitter interval draw) in
    record d {
      next_beacon_us = next;
      planned_us = u64 (next + jitter interval planned_draw);
      beacons_heard = 0;
    }

-- `lg_disc_beacon_finish`
unfoldable pub finish : Config → Tune → (List ℕ → Option (List ℕ)) → ℕ → ℕ → ℕ → Grid → Disc → Disc
finish cfg tune mac now draw planned_draw g d =
    stage cfg tune mac now g (plan cfg tune now draw planned_draw g d)

-- What an event does next: a frame on the air, or its end.
pub data Next : Type 0 where
  event_done : Next
  tx_at : ℕ → Copy → Next

abbrev pub no_copy : Copy
no_copy = record { pdu = []; len = 0; chan = 0 }

abbrev pub copy_at : Disc → ℕ → Copy
copy_at d i = get_or d.copies i no_copy

-- `beacon_start`; `accepted` is whether `lg_phy_tx_at` returns 0.
unfoldable pub start : Config → Bool → ℕ → Disc → Disc × Next
start cfg accepted anchor d =
    let d' = record d { copy_idx = 0 } in
    if leb cfg.beacon_suppress_threshold d.beacons_heard
    then (record d' { beacons_heard = 0 }, event_done)
    else if ((copy_at d 0).len == 0) || not accepted
    then (d', event_done)
    else (d', tx_at anchor (copy_at d 0))

-- The end of `beacon_tx_done`.
abbrev pub close : ℕ → ℕ → Disc → Disc
close now air_end d =
    if d.offers_join
    then record d { join_win_us = u64 (air_end + join_offset_us); last_join_window_us = now }
    else d

-- `beacon_tx_done`
unfoldable pub tx_done : Bool → ℕ → ℕ → Disc → Disc × Next
tx_done accepted now air_end d0 =
    let i = u8 (d0.copy_idx + 1) in
    let d = record d0 { beacons_tx = u32 (d0.beacons_tx + 1); copy_idx = i } in
    if ltb i rdv_slots && (not ((copy_at d i).len == 0) && accepted)
    then (d, tx_at (u64 (air_end + copy_gap_us)) (copy_at d i))
    else (close now air_end d, event_done)
