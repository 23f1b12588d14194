-- ===== src/Sec/Protect/RoundTrip.antt =====
-- What one end protects, the other end reads.
use mathlib.Core.Path.{subst}
use lockgrid.Prelude.{
  inl, ℕ, ◌+◌, ◌-◌, ◌^◌, ◌<◌, ◌≤◌, ◌≡◌, sym, ap, ◌∙◌, refl, Bool, true, false, not, Option, some,
  List, length, slice, write_at, ltb, arith, take, take-take, take-split, take-write_at,
  slice-write_at, slice-prefix, length-slice,
}
use lockgrid.Types.{u8, u32, Keys}
use lockgrid.Config.{Config}
use lockgrid.Frame.{hdr_len_sec, sec_overhead, pdu_max, get_le32, get_le16, put_le32}
use lockgrid.Frame.Bytes.{
  get_le32-put_le32, get_or-put_le32, get_le16-prefix, get_le32-prefix, length-put_le32,
}
use lockgrid.Sec.{replay_check}
use lockgrid.Sec.Nonce.{nonce_build}
use lockgrid.Sec.Protect.{
  Aead, SameKey, ok, SecStats, Protected, encrypt, decrypt, sealed, stamp, opened, admit, off_fctr,
  off_src,
}

-- A frame that is ready for `lg_sec_encrypt`: it stands in a buffer of full size, its header names the
-- sender, its body and the tag fit, and the keys are there with a counter that does not run over.
pub record Ready (cfg : Config) (addr : ℕ) (k : Keys) (pdu : List ℕ) (len : ℕ) : Type 0 where
  pub buffer : length pdu ≡ pdu_max
  pub from_us : get_le16 pdu off_src ≡ addr
  pub has_header : hdr_len_sec ≤ len
  pub fits : len + cfg.mic_len ≤ pdu_max
  pub keyed : k.has_key ≡ true
  pub counter_left : k.tx_ctr + 1 < 2 ^ 32

-- The frame that the code puts on the air: the counter in the header, and the sealed body.
pub stamped : Keys → List ℕ → List ℕ
stamped k pdu = put_le32 pdu off_fctr (k.tx_ctr + 1)

pub record Delivered (cfg : Config) (kr : Keys) (ctr : ℕ) (frame : List ℕ) (len : ℕ) (st : SecStats)
    (r : Protected) : Type 0 where
  pub code_ok : r.code ≡ ok
  pub len_back : r.len ≡ len
  pub bytes_back : take len r.pdu ≡ take len frame
  pub keys_next : r.keys ≡ (replay_check cfg kr ctr).0
  pub stats_same : r.stats ≡ st

module _ (cfg : Config) (addr : ℕ) (k : Keys) (pdu : List ℕ) (len : ℕ)
    (r : Ready cfg addr k pdu len) where
  nonce_used : List ℕ
  nonce_used = nonce_build addr (k.tx_ctr + 1)

  header : List ℕ
  header = take hdr_len_sec (stamped k pdu)

  body : List ℕ
  body = slice (stamped k pdu) hdr_len_sec (len - hdr_len_sec)

  buffer_left : length (stamped k pdu) ≡ pdu_max
  unfolding stamped
  buffer_left = length-put_le32 pdu off_fctr (k.tx_ctr + 1) ∙ r.buffer

  length-body : length body ≡ len - hdr_len_sec
  unfolding body
  length-body =
      length-slice (stamped k pdu) hdr_len_sec (len - hdr_len_sec)
        (omega (arith, buffer_left, r.fits, r.has_header))

  -- The result of `lg_sec_encrypt` for the counter `c` and the sealed text `out`.
  sent_with : SecStats → List ℕ → ℕ → Protected
  sent_with st out c = record {
    code = ok;
    keys = record k { tx_ctr = c };
    pdu = write_at (put_le32 pdu off_fctr c) hdr_len_sec out;
    len = len + cfg.mic_len;
    stats = st;
  }

  sent : SecStats → List ℕ → Protected
  sent st out = sent_with st out (k.tx_ctr + 1)

  encrypt-sent :
      (crypto : Aead) (st : SecStats) (out : List ℕ)
      → crypto.seal k.key_id nonce_used header body ≡ some out
      → length out ≡ length body + cfg.mic_len
      → encrypt cfg crypto addr k pdu hdr_len_sec len st ≡ sent st out
  unfolding encrypt stamp sealed sent sent_with nonce_used header body stamped
  encrypt-sent crypto st out e l =
      let ctr : u32 (k.tx_ctr + 1) ≡ k.tx_ctr + 1 = omega (arith, r.counter_left) in
      let whole : u8 (len - hdr_len_sec) ≡ len - hdr_len_sec = omega (arith, r.fits) in
      let unkeyed : not k.has_key ≡ false = rw r.keyed refl in
      let short : ltb len hdr_len_sec ≡ false = ground (arith, r.has_header) in
      let long : ltb pdu_max (hdr_len_sec + (len - hdr_len_sec) + cfg.mic_len) ≡ false =
        ground (arith, r.fits, r.has_header) in
      let total : u8 (hdr_len_sec + u8 (length out)) ≡ len + cfg.mic_len =
        omega (arith, l, length-body, r.fits, r.has_header) in
      rw (unkeyed, short, whole, long, ctr, e, total) (ap (sent_with st out) ctr)

  module _ (out q : List ℕ) (full : length q ≡ pdu_max) (l : length out ≡ length body + cfg.mic_len)
      (same : take (len + cfg.mic_len) q
        ≡ take (len + cfg.mic_len) (write_at (stamped k pdu) hdr_len_sec out)) where
    room : hdr_len_sec + length out ≡ len + cfg.mic_len
    room = omega (arith, l, length-body, r.has_header)

    same_header : take hdr_len_sec q ≡ header
    unfolding header
    same_header =
        sym (take-take q hdr_len_sec (len + cfg.mic_len) (omega (arith, r.has_header)))
        ∙ ap (λ t. take hdr_len_sec t) same
        ∙ take-take (write_at (stamped k pdu) hdr_len_sec out) hdr_len_sec (len + cfg.mic_len)
            (omega (arith, r.has_header))
        ∙ take-write_at (stamped k pdu) hdr_len_sec hdr_len_sec out (omega arith)

    counter_read : get_le32 q off_fctr ≡ k.tx_ctr + 1
    unfolding header stamped
    counter_read =
        get_le32-prefix q (stamped k pdu) hdr_len_sec off_fctr (omega arith) same_header
        ∙ get_le32-put_le32 pdu off_fctr (k.tx_ctr + 1) (omega (arith, r.buffer)) r.counter_left

    source_read : get_le16 q off_src ≡ addr
    unfolding header stamped get_le16
    source_read =
        get_le16-prefix q (stamped k pdu) hdr_len_sec off_src (omega arith) same_header
        ∙ rw
            (
              get_or-put_le32 pdu off_fctr (k.tx_ctr + 1) 6 (inl (omega arith)),
              get_or-put_le32 pdu off_fctr (k.tx_ctr + 1) 7 (inl (omega arith)),
            )
            r.from_us

    sealed_read : slice q hdr_len_sec (length out) ≡ out
    sealed_read =
        slice-prefix q (write_at (stamped k pdu) hdr_len_sec out) hdr_len_sec (length out)
          (rw room same)
        ∙ slice-write_at (stamped k pdu) hdr_len_sec out (omega (arith, room, r.fits, buffer_left))

    admit-Delivered :
        (kr : Keys) (st : SecStats)
        → (replay_check cfg kr (k.tx_ctr + 1)).1 ≡ true
        → Delivered cfg kr
            (k.tx_ctr + 1)
            (stamped k pdu)
            len
            st
            (admit cfg kr q (len + cfg.mic_len) st body)
    unfolding admit header body
    admit-Delivered kr st fresh =
        let whole : u8 (hdr_len_sec + u8 (length body)) ≡ len =
          omega (arith, length-body, r.fits, r.has_header) in
        rw (counter_read, fresh)
          (record {
            code_ok = refl;
            len_back = whole;
            bytes_back = bytes;
            keys_next = refl;
            stats_same = refl;
          })
      where
        parts : hdr_len_sec + length body ≡ len
        parts = omega (arith, length-body, r.has_header)

        bytes : take len (write_at q hdr_len_sec body) ≡ take len (stamped k pdu)
        bytes =
            ap (λ (n : ℕ). take n (write_at q hdr_len_sec body)) (sym parts)
            ∙ take-split hdr_len_sec (length body) (write_at q hdr_len_sec body)
            ∙ rw
                (
                  take-write_at q hdr_len_sec hdr_len_sec body (omega arith),
                  slice-write_at q hdr_len_sec body (omega (arith, parts, r.fits, full)),
                  same_header,
                )
                refl
            ∙ sym (take-split hdr_len_sec (len - hdr_len_sec) (stamped k pdu))
            ∙ ap (λ (n : ℕ). take n (stamped k pdu)) (omega (arith, r.has_header))

    answer-body :
        (crypto : Aead) (b : ℕ)
        → crypto.unseal b nonce_used header out ≡ some body
        → crypto.unseal b
            (nonce_build (get_le16 q off_src) (get_le32 q off_fctr))
            (slice q 0 hdr_len_sec)
            (slice q hdr_len_sec (u8 (len + cfg.mic_len - hdr_len_sec)))
          ≡ some body
    unfolding nonce_used
    answer-body crypto b e =
        let whole : u8 (len + cfg.mic_len - hdr_len_sec) ≡ length out =
          omega (arith, room, r.fits) in
        rw (whole, sealed_read, counter_read, source_read, same_header) e

    decrypt-Delivered :
        (crypto : Aead) (kr : Keys) (st : SecStats)
        → kr.has_key ≡ true
        → crypto.unseal kr.key_id nonce_used header out ≡ some body
        → (replay_check cfg kr (k.tx_ctr + 1)).1 ≡ true
        → Delivered cfg kr
            (k.tx_ctr + 1)
            (stamped k pdu)
            len
            st
            (decrypt cfg crypto kr q (len + cfg.mic_len) st)
    unfolding decrypt
    decrypt-Delivered crypto kr st keyed e fresh =
        let n = len + cfg.mic_len in
        let short : ltb n (sec_overhead cfg) ≡ false = ground (arith, r.has_header) in
        let answer = answer-body crypto kr.key_id e in
        let path =
          ap (λ (b : Bool). opened cfg kr q n st b (ltb n (sec_overhead cfg)) (given crypto kr))
            keyed
          ∙ ap (λ (b : Bool). opened cfg kr q n st true b (given crypto kr)) short
          ∙ ap (λ (o : Option (List ℕ)). opened cfg kr q n st true false o) answer in
        subst (λ (x : Protected). Delivered cfg kr (k.tx_ctr + 1) (stamped k pdu) len st x)
          (sym path) (admit-Delivered kr st fresh)
      where
        given : Aead → Keys → Option (List ℕ)
        given c j =
            c.unseal j.key_id (nonce_build (get_le16 q off_src) (get_le32 q off_fctr))
              (slice q 0 hdr_len_sec) (slice q hdr_len_sec (u8 (len + cfg.mic_len - hdr_len_sec)))

-- A frame of a sender that is ready, under a cipher that works with a key both ends hold: encryption
-- returns 0 and a frame longer by the tag. A receiver that gets these bytes, in whatever buffer, and
-- for whose replay filter the counter is new, decrypts it with 0 to the length and the bytes of the
-- frame with its counter, and goes on with the replay filter after that counter.
pub decrypt-encrypt :
    (cfg : Config) (sender receiver : Aead) (addr : ℕ) (k kr : Keys) (pdu q : List ℕ) (len : ℕ)
    (st str : SecStats)
    → SameKey cfg.mic_len sender k.key_id receiver kr.key_id
    → Ready cfg addr k pdu len
    → kr.has_key ≡ true
    → (replay_check cfg kr (k.tx_ctr + 1)).1 ≡ true
    → length q ≡ pdu_max
    → take (len + cfg.mic_len) q
      ≡ take (len + cfg.mic_len) (encrypt cfg sender addr k pdu hdr_len_sec len st).pdu
    → ((encrypt cfg sender addr k pdu hdr_len_sec len st).code ≡ ok)
      × ((encrypt cfg sender addr k pdu hdr_len_sec len st).len ≡ len + cfg.mic_len)
      × Delivered cfg kr
          (k.tx_ctr + 1)
          (stamped k pdu)
          len
          str
          (decrypt cfg receiver kr q (len + cfg.mic_len) str)
unfolding sent sent_with stamped
decrypt-encrypt cfg sender receiver addr k kr pdu q len st str key r keyed fresh full same =
    let at =
      key.works (nonce_used cfg addr k pdu len r) (header cfg addr k pdu len r)
        (body cfg addr k pdu len r) in
    let (out, seals, longer, opens) = at in
    let e = encrypt-sent cfg addr k pdu len r sender st out seals longer in
    (
      ap (λ (x : Protected). x.code) e,
      ap (λ (x : Protected). x.len) e,
      decrypt-Delivered cfg addr k pdu len r out q full longer
          (same ∙ ap (λ (x : Protected). take (len + cfg.mic_len) x.pdu) e) receiver kr str keyed
          opens fresh,
    )
