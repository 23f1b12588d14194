-- ===== src/Sec/Protect.antt =====
-- subsys/lockgrid/lg_sec.c: the protection of a frame. The cipher is not part of this code: `Aead` is
-- what the code calls of it.
mod Tests
pub mod RoundTrip
pub mod Failure
use lockgrid.Prelude.{
  ℕ, ◌+◌, ◌-◌, ◌^◌, ◌%◌, ◌*◌, ◌/◌, ◌<◌, ◌≡◌, Bool, true, false, not, Option, none, some, List,
  length, slice, write_at, ltb, if◌then◌else◌,
}
use lockgrid.Types.{u8, u32, Keys}
use lockgrid.Config.{Config}
use lockgrid.Frame.{pdu_max, hdr_len_sec, sec_overhead, put_le32, get_le32, get_le16}
use lockgrid.Sec.{replay_check}
use lockgrid.Sec.Nonce.{nonce_build}

-- `psa_aead_encrypt` and `psa_aead_decrypt` with LG_CCM_ALG, at a key identifier, a nonce, the
-- additional data and the input; `none` is any status but PSA_SUCCESS.
pub record Aead : Type 0 where
  pub seal : ℕ → List ℕ → List ℕ → List ℕ → Option (List ℕ)
  pub unseal : ℕ → List ℕ → List ℕ → List ℕ → Option (List ℕ)

-- The documented behaviour of a working cipher for two key stores, where the identifiers `a` of the
-- one and `b` of the other stand for the same key: a text is sealed, the sealed text is longer by the
-- tag, and it is opened again.
pub record SameKey (mic_len : ℕ) (sender : Aead) (a : ℕ) (receiver : Aead) (b : ℕ) : Type 0 where
  pub works :
      (nonce aad body : List ℕ)
      → (out : List ℕ) × (sender.seal a nonce aad body ≡ some out)
        × (length out ≡ length body + mic_len)
        × (receiver.unseal b nonce aad out ≡ some body)

-- 0 and the error numbers that the two functions return.
pub data Code : Type 0 where
  ok enokey einval emsgsize eio ebadmsg ealready : Code

-- The counters of `lg_stats` that these functions raise.
pub record SecStats : Type 0 where
  pub auth_failures : ℕ
  pub replays_dropped : ℕ

-- What the two functions return, and what they leave behind their pointers.
pub record Protected : Type 0 where
  pub code : Code
  pub keys : Keys
  pub pdu : List ℕ
  pub len : ℕ
  pub stats : SecStats

-- LG_OFF_SRC, LG_OFF_FCTR
abbrev pub off_src : ℕ
off_src = 6

abbrev pub off_fctr : ℕ
off_fctr = 8

-- A return of an error number.
abbrev pub refuse : Code → Keys → List ℕ → ℕ → SecStats → Protected
refuse c k p n st = record { code = c; keys = k; pdu = p; len = n; stats = st }

-- The header with its counter, and the keys with the counter used.
unfoldable pub stamp : Keys → List ℕ → Keys × List ℕ
stamp k pdu = let ctr = u32 (k.tx_ctr + 1) in (record k { tx_ctr = ctr }, put_le32 pdu off_fctr ctr)

-- The end of `lg_sec_encrypt`, for the frame with its counter, with the cipher's answer.
unfoldable pub sealed : Keys → List ℕ → ℕ → ℕ → SecStats → Bool → Option (List ℕ) → Protected
sealed k pdu hdr_len len st long answer =
    if long then refuse emsgsize k pdu len st else elim answer [
      | none ↦ refuse eio k pdu len st
      | some out ↦ record {
        code = ok;
        keys = k;
        pdu = write_at pdu hdr_len out;
        len = u8 (hdr_len + u8 (length out));
        stats = st;
      }
    ]

-- `lg_sec_encrypt` of the node with address `addr`
unfoldable pub encrypt : Config → Aead → ℕ → Keys → List ℕ → ℕ → ℕ → SecStats → Protected
encrypt cfg crypto addr k pdu hdr_len len st =
    let body_len = u8 (len - hdr_len) in
    let (k', p) = stamp k pdu in
    let nonce = nonce_build addr k'.tx_ctr in
    let answer = crypto.seal k.key_id nonce (slice p 0 hdr_len) (slice p hdr_len body_len) in
    if not k.has_key
    then refuse enokey k pdu len st
    else if ltb len hdr_len
    then refuse einval k pdu len st
    else sealed k' p hdr_len len st (ltb pdu_max (hdr_len + body_len + cfg.mic_len)) answer

-- The end of `lg_sec_decrypt`, for a frame whose tag has verified.
pub admit : Config → Keys → List ℕ → ℕ → SecStats → List ℕ → Protected
admit cfg k pdu len st out =
    let (k', fresh) = replay_check cfg k (get_le32 pdu off_fctr) in
    if fresh
    then record {
      code = ok;
      keys = k';
      pdu = write_at pdu hdr_len_sec out;
      len = u8 (hdr_len_sec + u8 (length out));
      stats = st;
    }
    else record {
      code = ealready;
      keys = k';
      pdu = pdu;
      len = len;
      stats = record st { replays_dropped = u32 (st.replays_dropped + 1) };
    }

-- `lg_sec_decrypt`, with the key test, the length test and the cipher's answer.
abbrev pub opened :
    Config → Keys → List ℕ → ℕ → SecStats → Bool → Bool → Option (List ℕ) → Protected
opened cfg k pdu len st keyed short answer =
    if not keyed
    then refuse enokey k pdu len st
    else if short
    then refuse einval k pdu len st
    else elim answer [
      | none ↦ refuse ebadmsg k pdu len (record st { auth_failures = u32 (st.auth_failures + 1) })
      | some out ↦ admit cfg k pdu len st out
    ]

-- `lg_sec_decrypt`
unfoldable pub decrypt : Config → Aead → Keys → List ℕ → ℕ → SecStats → Protected
decrypt cfg crypto k pdu len st =
    let nonce = nonce_build (get_le16 pdu off_src) (get_le32 pdu off_fctr) in
    let body = slice pdu hdr_len_sec (u8 (len - hdr_len_sec)) in
    opened cfg k pdu len st k.has_key (ltb len (sec_overhead cfg))
      (crypto.unseal k.key_id nonce (slice pdu 0 hdr_len_sec) body)
