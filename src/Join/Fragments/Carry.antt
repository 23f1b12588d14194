-- ===== src/Join/Fragments/Carry.antt =====
-- A message that is cut into fragments is put together again.
use native.Mathlib.Nat.{le_refl}
use mathlib.Core.Path.{ap₂, subst}
use lockgrid.Frame.Bytes.{length-put_le16}
use lockgrid.Prelude.{
  ℕ, zero, suc, ◌+◌, ◌-◌, ◌*◌, ◌≤◌, ◌<◌, ◌≡◌, refl, sym, ap, ◌∙◌, true, false, not, ◌||◌, List,
  ◌++◌, ◌==◌, if◌then◌else◌, slice, take, write_at, length, arith, Option, none, some, take-split,
  take-write_at, slice-write_at, length-write_at, length-slice, length-set,
}
use lockgrid.Types.{Neigh}
use lockgrid.Config.{Config}
use lockgrid.Frame.{Header, hdr_put, pdu_max}
use lockgrid.Sec.Protect.{Aead, SecStats}
use lockgrid.Join.{Context, Xfer, zero_xfer, stage_message, build_fragment, reassemble, xfer_max}
use lockgrid.Join.Fragments.{
  framed, framed-Plain, type_bits, built_lem, header_of, count_of, part_of, Prefix, after, old_of,
  take_step,
}

upto_step :
    (tx : List ℕ) (len k : ℕ) (o : Xfer)
    → k * 115 + part_of len k ≤ 288
    → length tx ≡ 288
    → Prefix k tx o
    → take (k * 115 + part_of len k) (after tx len k o).buf ≡ take (k * 115 + part_of len k) tx
unfolding after
upto_step tx len k o room full h =
    let off = k * 115 in
    let part = part_of len k in
    let body = slice tx off part in
    let size = length-slice tx off part (omega (arith, full)) in
    let back : slice (write_at o.buf off body) off part ≡ body =
      ap (λ (n : ℕ). slice (write_at o.buf off body) off n) (sym size)
      ∙ slice-write_at o.buf off body (omega (arith, size, h.3)) in
    let before = take-write_at o.buf off off body (le_refl off) ∙ h.2 in
    take-split off part (write_at o.buf off body)
    ∙ ap₂ (λ (a b : List ℕ). a ++ b) before back
    ∙ sym (take-split off part tx)

after-Prefix :
    (tx : List ℕ) (len k : ℕ) (o : Xfer)
    → suc k < count_of len
    → len ≤ 288
    → length tx ≡ 288
    → Prefix k tx o
    → Prefix (suc k) tx (after tx len k o)
unfolding after
after-Prefix tx len k o more fits full h =
    let part : k * 115 + part_of len k ≡ suc k * 115 = omega arith in
    let not_last : (suc k == count_of len) ≡ false = ground arith in
    let upto = upto_step tx len k o (omega arith) full h in
    (
      refl,
      rw not_last refl,
      ap (λ (n : ℕ). take n (after tx len k o).buf) (sym part)
          ∙ upto
          ∙ ap (λ (n : ℕ). take n tx) part,
      length-write_at o.buf (k * 115) (slice tx (k * 115) (part_of len k)) ∙ h.3,
    )

length-framed :
    (out : List ℕ) (netid idx total : ℕ) (h : Header) (body : List ℕ)
    → length (framed out netid h idx total body) ≡ length out
unfolding framed hdr_put
length-framed out netid idx total h body =
    rw
      (
        length-write_at, length-set, length-set, length-put_le16, length-put_le16, length-set,
        length-set, length-put_le16,
      )
      refl

-- One fragment is built, and reassembled by a receiver, whatever the ciphers do.
one_step :
    (cfg : Config) (crypto crypto' : Aead) (netid addr type len k : ℕ) (n m : Neigh)
    (hs rhs : Context) (out : List ℕ) (st st' : SecStats) (o : Xfer)
    → type < 16
    → k * 115 < len
    → len ≤ 288
    → length hs.tx ≡ 288
    → length out ≡ pdu_max
    → old_of type k rhs ≡ o
    → Prefix k hs.tx o
    → let b =
        build_fragment cfg crypto netid addr n (stage_message cfg type false len hs) k out st in
      reassemble cfg crypto' m rhs b.out b.len st' ≡ record {
        neigh = m;
        hs = record rhs { rx_type = type; rx = after hs.tx len k o };
        whole = suc k == count_of len;
        stats = st';
      }
unfolding build_fragment stage_message reassemble
one_step cfg crypto crypto' netid addr type len k n m hs rhs out st st' o t left fits full room e
      h =
    let built = built_lem cfg netid addr type len k n hs out t left fits in
    let part = part_of len k in
    let body = slice hs.tx (k * 115) part in
    let p = framed out netid (header_of addr type n) k (count_of len) body in
    let size = length-slice hs.tx (k * 115) part (omega (arith, full)) in
    let P =
      framed-Plain out netid k (count_of len) (header_of addr type n) body
        (omega (arith, size, room)) in
    let bits = type_bits type t in
    let step = take_step type len k hs.tx p rhs o left fits full P e h in
    rw built (rw (P.0, bits.0, bits.2, step) refl)

-- The sender builds the fragments from `idx` on, `left` of them, into one buffer, and the receiver
-- reassembles each as it comes. The result is the receiver's context, if the message was whole with the
-- last fragment and not before.
unfoldable pub carry :
    Config
    → Aead
    → Aead
    → ℕ
    → ℕ
    → Neigh
    → Context
    → Neigh
    → Context
    → List ℕ
    → SecStats
    → SecStats
    → ℕ
    → ℕ
    → Option Context
carry cfg crypto crypto' netid addr n hs m rhs out st st' zero idx = none
carry cfg crypto crypto' netid addr n hs m rhs out st st' (suc left) idx =
    let b = build_fragment cfg crypto netid addr n hs idx out st in
    let r = reassemble cfg crypto' m rhs b.out b.len st' in
    let rest =
      carry cfg crypto crypto' netid addr b.neigh hs r.neigh r.hs b.out b.stats r.stats left
        (suc idx) in
    if r.whole then (if left == 0 then some r.hs else none) else rest

-- What the receiver has in the end.
abbrev pub Got : ℕ → ℕ → List ℕ → Option Context → Type 0
Got type len tx r =
    (c : Context) × (r ≡ some c)
    × (c.rx.len ≡ len)
    × (take len c.rx.buf ≡ take len tx)
    × (c.rx_type ≡ type)

module _ (cfg : Config) (crypto crypto' : Aead) (netid addr type len : ℕ) (hs : Context) (m : Neigh)
    (t : type < 16) (some_bytes : 0 < len) (fits : len ≤ 288) (full : length hs.tx ≡ 288) where
  abbrev staged : Context
  staged = stage_message cfg type false len hs

  last_Got :
      (k : ℕ) (o : Xfer) (rhs : Context)
      → suc k ≡ count_of len
      → Prefix k hs.tx o
      → Got type len hs.tx (some (record rhs { rx_type = type; rx = after hs.tx len k o }))
  unfolding after
  last_Got k o rhs last h =
      let flag : (suc k == count_of len) ≡ true = ground arith in
      let part : k * 115 + part_of len k ≡ len = omega arith in
      let upto = upto_step hs.tx len k o (omega arith) full h in
      (
        record rhs { rx_type = type; rx = after hs.tx len k o },
        refl,
        rw flag refl,
        ap (λ (a : ℕ). take a (after hs.tx len k o).buf) (sym part)
            ∙ upto
            ∙ ap (λ (a : ℕ). take a hs.tx) part,
        refl,
      )

  staged-plain : staged.tx_secured ≡ false
  unfolding stage_message
  staged-plain = refl

  built_len :
      (k : ℕ) (n : Neigh) (out : List ℕ) (st : SecStats)
      → k * 115 < len
      → length (build_fragment cfg crypto netid addr n staged k out st).out ≡ length out
  unfolding build_fragment stage_message
  built_len k n out st left =
      let body = slice hs.tx (k * 115) (part_of len k) in
      rw (built_lem cfg netid addr type len k n hs out t left fits)
        (length-framed out netid k (count_of len) (header_of addr type n) body)

  carry_from :
      (left k : ℕ) (n : Neigh) (rhs : Context) (out : List ℕ) (o : Xfer) (st st' : SecStats)
      → k + suc left ≡ count_of len
      → length out ≡ pdu_max
      → old_of type k rhs ≡ o
      → Prefix k hs.tx o
      → Got type len hs.tx
          (carry cfg crypto crypto' netid addr n staged m rhs out st st' (suc left) k)
  unfolding carry
  carry_from zero k n rhs out o st st' sum room e h =
      let step =
        one_step cfg crypto crypto' netid addr type len k n m hs rhs out st st' o t (omega arith)
          fits full room e h in
      let flag : (suc k == count_of len) ≡ true = ground arith in
      rw (step, flag) (last_Got k o rhs (omega arith) h)
  carry_from (suc left) k n rhs out o st st' sum room e h =
      let b = build_fragment cfg crypto netid addr n staged k out st in
      let step =
        one_step cfg crypto crypto' netid addr type len k n m hs rhs out st st' o t (omega arith)
          fits full room e h in
      let flag : (suc k == count_of len) ≡ false = ground arith in
      let known : (not (type == type) || (suc k == 0)) ≡ false = ground arith in
      rw (step, flag)
        (carry_from left (suc k) b.neigh (record rhs { rx_type = type; rx = after hs.tx len k o })
          b.out (after hs.tx len k o) b.stats st' (omega arith)
          (built_len k n out st (omega arith) ∙ room) (rw known refl)
          (after-Prefix hs.tx len k o (omega arith) fits full h))

total_lem :
    (cfg : Config) (type len : ℕ) (hs : Context)
    → 0 < len
    → len ≤ 288
    → (stage_message cfg type false len hs).frag_total ≡ suc (count_of len - 1)
unfolding stage_message
total_lem cfg type len hs some_bytes fits = ground arith

-- A handshake message of 1 to 288 bytes, of a type below 16, staged unsecured, in buffers of 288 bytes
-- for messages and 125 for frames: its fragments, built in order and received
-- in order, make the message whole with the last of them and not before, and then the receiver has
-- the message's length, its bytes and its type. That holds whatever the receiver had of an earlier
-- message, or of an earlier attempt at the same one.
pub carry-stage_message :
    (cfg : Config) (crypto crypto' : Aead) (netid addr type len : ℕ) (n m : Neigh)
    (hs rhs : Context) (out : List ℕ) (st st' : SecStats)
    → type < 16
    → 0 < len
    → len ≤ xfer_max
    → length hs.tx ≡ xfer_max
    → length out ≡ pdu_max
    → let s = stage_message cfg type false len hs in
      Got type len hs.tx (carry cfg crypto crypto' netid addr n s m rhs out st st' s.frag_total 0)
carry-stage_message cfg crypto crypto' netid addr type len n m hs rhs out st st' t some_bytes fits
      full room =
    let s = stage_message cfg type false len hs in
    let first : (not (rhs.rx_type == type) || true) ≡ true = ground arith in
    subst
      (λ (k : ℕ). Got type len hs.tx (carry cfg crypto crypto' netid addr n s m rhs out st st' k 0))
      (sym (total_lem cfg type len hs some_bytes fits))
      (carry_from cfg crypto crypto' netid addr type len hs m t some_bytes fits full
        (count_of len - 1) 0 n rhs out zero_xfer st st' (omega arith) room (rw first refl)
        (refl, refl, refl, refl))
