-- ===== src/Frame/RoundTrip.antt =====
-- What is written into a header is what a receiver reads out of it.
use lockgrid.Prelude.{
  ℕ, ◌+◌, ◌*◌, ◌/◌, ◌%◌, ◌^◌, ◌≤◌, ◌<◌, bit_or, ◌≡◌, false, none, some, List, [], ◌∷◌, leb, ltb,
  ◌==◌, if◌then◌else◌, length, arith,
}
use lockgrid.Prelude.Bits.{has_bit, bit_or_fields}
use lockgrid.Config.{Config}
use lockgrid.Frame.{put_le16, get_le16, Header, hdr_put, hdr_get, hdr_len, sec_overhead, fcf_sec}

-- The two bytes of a 16-bit word, put together again.
pub word16 : (v : ℕ) → v < 2 ^ 16 → bit_or (v % 2 ^ 8) (v / 2 ^ 8 % 2 ^ 8 * 2 ^ 8) ≡ v
word16 v h = rw (bit_or_fields 8 (v / 2 ^ 8 % 2 ^ 8) (v % 2 ^ 8) (omega arith)) (omega arith)

-- The four bytes of a 32-bit word.
pub word32 :
    (v : ℕ)
    → v < 2 ^ 32
    → bit_or
        (bit_or (bit_or (v % 2 ^ 8) (v / 2 ^ 8 % 2 ^ 8 * 2 ^ 8)) (v / 2 ^ 16 % 2 ^ 8 * 2 ^ 16))
        (v / 2 ^ 24 % 2 ^ 8 * 2 ^ 24)
      ≡ v
word32 v h =
    rw
      (
        bit_or_fields 8 (v / 2 ^ 8 % 2 ^ 8) (v % 2 ^ 8) (omega arith),
        bit_or_fields 16 (v / 2 ^ 16 % 2 ^ 8) (v % 2 ^ 8 + v / 2 ^ 8 % 2 ^ 8 * 2 ^ 8) (omega arith),
        bit_or_fields 24 (v / 2 ^ 24 % 2 ^ 8)
            (v % 2 ^ 8 + v / 2 ^ 8 % 2 ^ 8 * 2 ^ 8 + v / 2 ^ 16 % 2 ^ 8 * 2 ^ 16) (omega arith),
      )
      (omega arith)

-- The fields of a header fit their bytes.
pub record Fits (h : Header) : Type 0 where
  pub fcf_fits : h.fcf < 2 ^ 8
  pub seq_fits : h.seq < 2 ^ 8
  pub dst_fits : h.dst < 2 ^ 16
  pub src_fits : h.src < 2 ^ 16

-- The bytes that the header of a secured frame, or of a plain one, must be followed by or hold.
abbrev pub needed : Config → ℕ → ℕ
needed cfg fcf = if has_bit fcf fcf_sec then sec_overhead cfg else hdr_len

-- A header written for network `netid` is read by a receiver of that network as it was written,
-- and accepted exactly if the frame has the length that its security bit asks for; a receiver of
-- another network rejects it and writes nothing, and so does every receiver of fewer than 8 bytes.
pub hdr_get-hdr_put :
    (cfg : Config) (pdu : List ℕ) (len netid mine : ℕ) (h : Header)
    → 8 ≤ length pdu
    → netid < 2 ^ 16
    → Fits h
    → hdr_get cfg (hdr_put pdu netid h).0 len mine ≡ (
        if ltb len 8
        then (false, none)
        else if netid == mine
        then (leb (needed cfg h.fcf) len, some h)
        else (false, none))
unfolding hdr_put hdr_get put_le16 get_le16
hdr_get-hdr_put cfg [] len netid mine h l n f = absurd (omega arith)
hdr_get-hdr_put cfg (a ∷ []) len netid mine h l n f = absurd (omega arith)
hdr_get-hdr_put cfg (a ∷ b ∷ []) len netid mine h l n f = absurd (omega arith)
hdr_get-hdr_put cfg (a ∷ b ∷ c ∷ []) len netid mine h l n f = absurd (omega arith)
hdr_get-hdr_put cfg (a ∷ b ∷ c ∷ d ∷ []) len netid mine h l n f = absurd (omega arith)
hdr_get-hdr_put cfg (a ∷ b ∷ c ∷ d ∷ e ∷ []) len netid mine h l n f = absurd (omega arith)
hdr_get-hdr_put cfg (a ∷ b ∷ c ∷ d ∷ e ∷ g ∷ []) len netid mine h l n f = absurd (omega arith)
hdr_get-hdr_put cfg (a ∷ b ∷ c ∷ d ∷ e ∷ g ∷ i ∷ []) len netid mine h l n f = absurd (omega arith)
hdr_get-hdr_put cfg (a ∷ b ∷ c ∷ d ∷ e ∷ g ∷ i ∷ j ∷ r) len netid mine h l n f =
    rw (word16 netid n, word16 h.dst f.dst_fits, word16 h.src f.src_fits)
