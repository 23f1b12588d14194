-- ===== src/Frame.antt =====
-- subsys/lockgrid/lg_frame.c, lg_frame.h and the byte helpers of lg_internal.h.
-- A buffer is the list of its bytes.
mod Tests
pub mod RoundTrip
pub mod Bytes
use lockgrid.Prelude.{
  ℕ, ◌+◌, ◌*◌, ◌/◌, ◌%◌, ◌^◌, ◌≤◌, ◌<◌, min, bit_and, bit_or, Bool, true, false, Option, none, some,
  List, ltb, leb, ◌==◌, if◌then◌else◌, get_or, set, not,
}
use lockgrid.Prelude.Bits.{has_bit}
use lockgrid.Types.{u8, u16, u32}
use lockgrid.Config.{Config}

unfoldable pub put_le16 : List ℕ → ℕ → ℕ → List ℕ
put_le16 p off v = set (set p off (u8 v)) (off + 1) (u8 (v / 2 ^ 8))

unfoldable pub get_le16 : List ℕ → ℕ → ℕ
get_le16 p off = bit_or (get_or p off 0) (get_or p (off + 1) 0 * 2 ^ 8)

unfoldable pub put_le32 : List ℕ → ℕ → ℕ → List ℕ
put_le32 p off v =
    set (set (set (set p off (u8 v)) (off + 1) (u8 (v / 2 ^ 8))) (off + 2) (u8 (v / 2 ^ 16)))
      (off + 3) (u8 (v / 2 ^ 24))

unfoldable pub get_le32 : List ℕ → ℕ → ℕ
get_le32 p off =
    bit_or
      (bit_or (bit_or (get_or p off 0) (get_or p (off + 1) 0 * 2 ^ 8))
        (get_or p (off + 2) 0 * 2 ^ 16))
      (get_or p (off + 3) 0 * 2 ^ 24)

-- LG_HDR_LEN, LG_HDR_LEN_SEC, LG_PDU_MAX.
abbrev pub hdr_len : ℕ
hdr_len = 8

abbrev pub hdr_len_sec : ℕ
hdr_len_sec = 12

abbrev pub pdu_max : ℕ
pdu_max = 125

-- LG_SEC_OVERHEAD
abbrev pub sec_overhead : Config → ℕ
sec_overhead cfg = hdr_len_sec + cfg.mic_len

-- The bit numbers of LG_FCF_SEC and LG_FCF_MD.
abbrev pub fcf_sec : ℕ
fcf_sec = 4

abbrev pub fcf_md : ℕ
fcf_md = 5

-- The fields that `lg_frame_hdr_get` writes through its pointers.
pub record Header : Type 0 where
  pub fcf : ℕ
  pub seq : ℕ
  pub dst : ℕ
  pub src : ℕ

-- The buffer written and the bytes of header.
unfoldable pub hdr_put : List ℕ → ℕ → Header → List ℕ × ℕ
hdr_put pdu netid h = (
  put_le16 (put_le16 (set (set (put_le16 pdu 0 netid) 2 h.fcf) 3 h.seq) 4 h.dst) 6 h.src,
  if has_bit h.fcf fcf_sec then hdr_len_sec else hdr_len,
)

read_header : List ℕ → Header
read_header pdu = record {
  fcf = get_or pdu 2 0;
  seq = get_or pdu 3 0;
  dst = get_le16 pdu 4;
  src = get_le16 pdu 6;
}

-- The result, and what was written through the pointers (`none` if nothing was).
unfoldable pub hdr_get : Config → List ℕ → ℕ → ℕ → Bool × Option Header
unfolding read_header
hdr_get cfg pdu len netid =
    if ltb len hdr_len
    then (false, none)
    else if get_le16 pdu 0 == netid
    then (
      leb (if has_bit (get_or pdu 2 0) fcf_sec then sec_overhead cfg else hdr_len) len,
      some (read_header pdu),
    )
    else (false, none)

-- `lg_frame_type`
abbrev pub frame_type : List ℕ → ℕ
frame_type pdu = bit_and (get_or pdu 2 0) 0x0f

-- LG_AIRTIME_US
abbrev pub airtime_us : ℕ → ℕ
airtime_us len = (len + 8) * 32

abbrev pub ifs_us : ℕ
ifs_us = 200

abbrev pub rampup_us : ℕ
rampup_us = 40

-- `lg_frame_event_budget_us`; the sum is an `uint32_t`.
unfoldable pub event_budget_us : ℕ → ℕ → ℕ
event_budget_us max_grant rx_window =
    let frame = airtime_us pdu_max in
    min (u32 (rampup_us + frame + ifs_us + rx_window + frame)) max_grant
