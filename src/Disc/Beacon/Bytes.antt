-- ===== src/Disc/Beacon/Bytes.antt =====
-- What a beacon says is what a listener reads out of the frame.
use native.Mathlib.Nat.{mod-eq_of_lt}
use lockgrid.Prelude.{
  ℕ, ◌+◌, ◌^◌, ◌≤◌, ◌<◌, ◌≡◌, ◌∙◌, refl, sym, ap, List, length, slice, write_at, some, Option,
  arith, Bool, slice-prefix, slice-write_at, take-write_at, length-set,
}
use lockgrid.Prelude.Bits.{has_bit}
use lockgrid.Types.{u16, addr_broadcast}
use lockgrid.Config.{Config}
use lockgrid.Frame.{hdr_put, hdr_len, put_le16, put_le32, get_le16, get_le32, pdu_max}
use lockgrid.Frame.RoundTrip.{word16, word32}
use lockgrid.Frame.Bytes.{length-put_le16}
use lockgrid.Route.{Grid}
use lockgrid.Disc.{Disc, Copy}
use lockgrid.Disc.Beacon.{
  Beacon, pack, unpack, beacon_size, beacon_mic_len, ft_beacon, beacon_of, stage_copy, seal,
}

-- The fields fit their types.
pub record Fits (b : Beacon) : Type 0 where
  pub network_fits : b.network_id < 2 ^ 32
  pub epoch_fits : b.epoch < 2 ^ 32
  pub rank_fits : b.rank < 2 ^ 16
  pub map_fits : b.chan_map < 2 ^ 16
  pub role_fits : b.role < 2 ^ 8
  pub count_fits : b.link_count < 2 ^ 8
  pub capacity_fits : b.link_capacity < 2 ^ 8
  pub offset_fits : b.join_offset < 2 ^ 16
  pub window_fits : b.join_window < 2 ^ 16
  pub next_fits : b.next_beacon_offset < 2 ^ 32

pub unpack-pack : (b : Beacon) → Fits b → unpack (pack b) ≡ b
unfolding pack unpack put_le16 put_le32 get_le16 get_le32
unpack-pack b f = rw (
  word32 b.network_id f.network_fits,
  word32 b.epoch f.epoch_fits,
  word16 b.rank f.rank_fits,
  word16 b.chan_map f.map_fits,
  mod-eq_of_lt f.role_fits,
  mod-eq_of_lt f.count_fits,
  mod-eq_of_lt f.capacity_fits,
  word16 b.join_offset f.offset_fits,
  word16 b.join_window f.window_fits,
  word32 b.next_beacon_offset f.next_fits,
)

length-pack : (b : Beacon) → length (pack b) ≡ beacon_size
unfolding pack put_le16 put_le32
length-pack b = refl

-- The beacon that stands in a frame.
abbrev pub heard : List ℕ → Beacon
heard pdu = unpack (slice pdu hdr_len beacon_size)

-- The tag is computed, and has its length.
pub record Macs (mac : List ℕ → Option (List ℕ)) : Type 0 where
  pub tags :
      (frame : List ℕ) → (tag : List ℕ) × (mac frame ≡ some tag) × (length tag ≡ beacon_mic_len)

-- The frame with its header, before the beacon is copied into it.
headed : Grid → Disc → List ℕ → List ℕ
headed g d pdu =
    (hdr_put pdu (u16 d.network_id)
      (record { fcf = ft_beacon; seq = 0; dst = addr_broadcast; src = g.addr })).0

length-headed : (g : Grid) (d : Disc) (pdu : List ℕ) → length (headed g d pdu) ≡ length pdu
unfolding headed hdr_put
length-headed g d pdu =
    rw (length-put_le16, length-put_le16, length-set, length-set, length-put_le16) refl

-- A tag behind the beacon leaves the beacon as it is.
heard-tagged :
    (p tag : List ℕ) (b : Beacon)
    → hdr_len + beacon_size ≤ length p
    → Fits b
    → heard (write_at (write_at p hdr_len (pack b)) (hdr_len + beacon_size) tag) ≡ b
heard-tagged p tag b room f =
    let full = write_at p hdr_len (pack b) in
    let size = length-pack b in
    let same =
      slice-prefix (write_at full (hdr_len + beacon_size) tag) full hdr_len beacon_size
        (take-write_at full (hdr_len + beacon_size) (hdr_len + beacon_size) tag (omega arith)) in
    let back : slice full hdr_len beacon_size ≡ pack b =
      ap (λ (n : ℕ). slice full hdr_len n) (sym size)
      ∙ slice-write_at p hdr_len (pack b) (omega (arith, size, room)) in
    ap unpack (same ∙ back) ∙ unpack-pack b f

-- A staged copy carries the beacon, and has its full length.
pub stage_copy-heard :
    (cfg : Config) (mac : List ℕ → Option (List ℕ)) (g : Grid) (d : Disc) (offering : Bool) (i : ℕ)
    (old : Copy)
    → Macs mac
    → length old.pdu ≡ pdu_max
    → Fits (beacon_of cfg g d offering i)
    → (heard (stage_copy cfg mac g d offering i old).pdu ≡ beacon_of cfg g d offering i)
      × ((stage_copy cfg mac g d offering i old).len ≡ 35)
unfolding stage_copy seal hdr_put has_bit headed
stage_copy-heard cfg mac g d offering i old m full f =
    let b = beacon_of cfg g d offering i in
    let p = headed g d old.pdu in
    let (tag, e, l) = m.tags (slice (write_at p hdr_len (pack b)) 0 31) in
    let size = length-headed g d old.pdu in
    rw e (heard-tagged p tag b (omega (arith, size, full)) f, refl)
