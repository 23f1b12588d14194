-- ===== src/Join/Fragments.antt =====
-- subsys/lockgrid/lg_join.c: one fragment of a message, as it is built and as it is taken in.
pub mod Carry
use native.Mathlib.Nat.{le_refl}
use mathlib.Core.Path.{ap₂, subst}
use lockgrid.Frame.Bytes.{length-put_le16}
use lockgrid.Prelude.{
  ℕ, zero, suc, ◌+◌, ◌-◌, ◌*◌, ◌/◌, ◌^◌, ◌≤◌, ◌<◌, min, bit_and, bit_or, ◌≡◌, refl, sym, ap, ◌∙◌,
  Bool, true, false, not, ◌&&◌, ◌||◌, List, [], ◌∷◌, ◌++◌, ltb, leb, ◌==◌, if◌then◌else◌, get_or,
  set, slice, take, write_at, length, arith, ◌⊎◌, inl, inr, Option, none, some, take-split,
  take-write_at, slice-write_at, length-write_at, length-slice, length-set,
}
use lockgrid.Prelude.Bits.{has_bit, passes_below, passes_below_at}
use lockgrid.Types.{u8, u16, Neigh}
use lockgrid.Config.{Config}
use lockgrid.Frame.{Header, hdr_put, put_le16, pdu_max}
use lockgrid.Sec.Protect.{Aead, SecStats}
use lockgrid.Join.{
  Context, Xfer, zero_xfer, stage_message, plain_fragment, build_fragment, take_fragment,
  reassemble, xfer_max,
}

-- A plain fragment in the air: its header with another ten bytes of `q`, the body in the rest.
abbrev pub Plain : ℕ → ℕ → ℕ → List ℕ → List ℕ → Type 0
Plain type idx total body p =
    (get_or p 2 0 ≡ type)
    × (get_or p 8 0 ≡ idx)
    × (get_or p 9 0 ≡ total)
    × (slice p 10 (length body) ≡ body)

framed : List ℕ → ℕ → Header → ℕ → ℕ → List ℕ → List ℕ
framed out netid h idx total body =
    write_at (set (set (hdr_put out netid h).0 8 idx) 9 total) 10 body

framed-Plain :
    (out : List ℕ) (netid idx total : ℕ) (h : Header) (body : List ℕ)
    → 10 + length body ≤ length out
    → Plain h.fcf idx total body (framed out netid h idx total body)
unfolding framed hdr_put put_le16
framed-Plain [] netid idx total h body l = absurd (omega arith)
framed-Plain (a ∷ []) netid idx total h body l = absurd (omega arith)
framed-Plain (a ∷ b ∷ []) netid idx total h body l = absurd (omega arith)
framed-Plain (a ∷ b ∷ c ∷ []) netid idx total h body l = absurd (omega arith)
framed-Plain (a ∷ b ∷ c ∷ d ∷ []) netid idx total h body l = absurd (omega arith)
framed-Plain (a ∷ b ∷ c ∷ d ∷ e ∷ []) netid idx total h body l = absurd (omega arith)
framed-Plain (a ∷ b ∷ c ∷ d ∷ e ∷ f ∷ []) netid idx total h body l = absurd (omega arith)
framed-Plain (a ∷ b ∷ c ∷ d ∷ e ∷ f ∷ g ∷ []) netid idx total h body l = absurd (omega arith)
framed-Plain (a ∷ b ∷ c ∷ d ∷ e ∷ f ∷ g ∷ i ∷ []) netid idx total h body l = absurd (omega arith)
framed-Plain (a ∷ b ∷ c ∷ d ∷ e ∷ f ∷ g ∷ i ∷ j ∷ []) netid idx total h body l =
    absurd (omega arith)
framed-Plain (a ∷ b ∷ c ∷ d ∷ e ∷ f ∷ g ∷ i ∷ j ∷ k ∷ q) netid idx total h body l =
    (refl, refl, refl, slice-write_at q 0 body (omega arith))

-- The types of handshake frames have four bits.
type_ok : ℕ → Bool
type_ok t = not (has_bit t 4) && ((bit_or t 0 == t) && (bit_and t 0x0f == t))

type_table : passes_below type_ok 16 ≡ true
unfolding passes_below type_ok has_bit
type_table = refl

type_bits : (t : ℕ) → t < 16 → (has_bit t 4 ≡ false) × (bit_or t 0 ≡ t) × (bit_and t 0x0f ≡ t)
unfolding type_ok
type_bits t h = ground (arith, passes_below_at type_ok 16 t h type_table)

-- The fragments that a message of `len` bytes is cut into, and the bytes that fragment `k` holds.
abbrev pub count_of : ℕ → ℕ
count_of len = (len + 114) / 115

abbrev pub part_of : ℕ → ℕ → ℕ
part_of len k = min 115 (len - k * 115)

-- The header of fragment `k`.
abbrev header_of : ℕ → ℕ → Neigh → Header
header_of addr type n = record { fcf = type; seq = n.tx_seq; dst = n.addr; src = addr }

-- Fragment `k` as `build_fragment` makes it, for a message that was staged unsecured.
built_lem :
    (cfg : Config) (netid addr type len k : ℕ) (n : Neigh) (hs : Context) (out : List ℕ)
    → type < 16
    → k * 115 < len
    → len ≤ 288
    → plain_fragment cfg netid addr n (stage_message cfg type false len hs) k out ≡ (
      framed out netid
          (header_of addr type n)
          k
          (count_of len)
          (slice hs.tx (k * 115) (part_of len k)),
      10 + part_of len k,
    )
unfolding plain_fragment stage_message framed hdr_put
built_lem cfg netid addr type len k n hs out t some_left fits =
    let bits = type_bits type t in
    let total : (if u8 ((len + 115 - 1) / 115) == 0 then 1 else u8 ((len + 115 - 1) / 115))
        ≡ count_of len =
      ground arith in
    let off : u16 (k * 115) ≡ k * 115 = omega arith in
    let more : ltb (k * 115) len ≡ true = ground arith in
    let idx : u8 k ≡ k = omega arith in
    let size : u8 (10 + part_of len k) ≡ 10 + part_of len k = omega arith in
    rw (bits.1, bits.0, total, off, more, idx, size) refl

-- What the receiver has of the bytes `tx` when `k` fragments have come in.
abbrev pub Prefix : ℕ → List ℕ → Xfer → Type 0
Prefix k tx o =
    (o.frags_seen ≡ 2 ^ k - 1)
    × (o.len ≡ 0)
    × (take (k * 115) o.buf ≡ take (k * 115) tx)
    × (length o.buf ≡ xfer_max)

-- The state after one more.
unfoldable pub after : List ℕ → ℕ → ℕ → Xfer → Xfer
after tx len k o = record {
  buf = write_at o.buf (k * 115) (slice tx (k * 115) (part_of len k));
  len = if suc k == count_of len then len else 0;
  frags_seen = 2 ^ suc k - 1;
  complete = if suc k == count_of len then true else o.complete;
}

-- Whether a fragment begins a message.
abbrev pub old_of : ℕ → ℕ → Context → Xfer
old_of type k hs = if not (hs.rx_type == type) || (k == 0) then zero_xfer else hs.rx

seen_next : (k : ℕ) → k < 3 → u8 (bit_or (2 ^ k - 1) (2 ^ k)) ≡ 2 ^ suc k - 1
seen_next k h =
    let which : (k ≡ 0) ⊎ (k ≡ 1) ⊎ (k ≡ 2) = omega arith in
    elim which [ inl e ↦ rw e refl | inr (inl e) ↦ rw e refl | inr (inr e) ↦ rw e refl ]

seen_all :
    (k total : ℕ)
    → suc k ≤ total
    → total ≤ 3
    → ((2 ^ suc k - 1) == (2 ^ total - 1)) ≡ (suc k == total)
seen_all k total h le =
    let which : ((k ≡ 0) × (total ≡ 1))
        ⊎ ((k ≡ 0) × (total ≡ 2))
        ⊎ ((k ≡ 0) × (total ≡ 3))
        ⊎ ((k ≡ 1) × (total ≡ 2))
        ⊎ ((k ≡ 1) × (total ≡ 3))
        ⊎ ((k ≡ 2) × (total ≡ 3)) =
      omega arith in
    elim which [
      | inl e ↦ rw (e.0, e.1) refl
      | inr (inl e) ↦ rw (e.0, e.1) refl
      | inr (inr (inl e)) ↦ rw (e.0, e.1) refl
      | inr (inr (inr (inl e))) ↦ rw (e.0, e.1) refl
      | inr (inr (inr (inr (inl e)))) ↦ rw (e.0, e.1) refl
      | inr (inr (inr (inr (inr e)))) ↦ rw (e.0, e.1) refl
    ]

-- A fragment is taken in behind those before it.
pub take_step :
    (type len k : ℕ) (tx p : List ℕ) (hs : Context) (o : Xfer)
    → k * 115 < len
    → len ≤ 288
    → length tx ≡ 288
    → Plain type k (count_of len) (slice tx (k * 115) (part_of len k)) p
    → old_of type k hs ≡ o
    → Prefix k tx o
    → take_fragment 8 115 type p (10 + part_of len k) hs
      ≡ (record hs { rx_type = type; rx = after tx len k o }, suc k == count_of len)
unfolding take_fragment after
take_step type len k tx p hs o left fits full P e h =
    let size = length-slice tx (k * 115) (part_of len k) (omega (arith, full)) in
    let chunk : u16 (10 + part_of len k - 8 - 2) ≡ part_of len k = omega arith in
    let body : slice p 10 (part_of len k) ≡ slice tx (k * 115) (part_of len k) =
      ap (λ (m : ℕ). slice p 10 m) (sym size) ∙ P.3 in
    let small : k < 3 = omega arith in
    let seen : u8 (bit_or o.frags_seen (2 ^ k)) ≡ 2 ^ suc k - 1 =
      ap (λ (m : ℕ). u8 (bit_or m (2 ^ k))) h.0 ∙ seen_next k small in
    let all = seen_all k (count_of len) (omega arith) (omega arith) in
    let long : ltb (10 + part_of len k) 10 ≡ false = ground arith in
    let bad : ((count_of len == 0) || (ltb 8 (count_of len) || leb (count_of len) k)) ≡ false =
      ground arith in
    let within : ltb 288 (k * 115 + part_of len k) ≡ false = ground arith in
    let length_of : (if k == count_of len - 1 then u16 (k * 115 + part_of len k) else 0)
        ≡ (if suc k == count_of len then len else 0) =
      ground arith in
    let whole : ((suc k == count_of len) && not ((if suc k == count_of len then len else 0) == 0))
        ≡ (suc k == count_of len) =
      ground arith in
    rw (P.1, P.2, e, chunk, seen, h.1, body, long, bad, within, length_of, all, whole) refl
