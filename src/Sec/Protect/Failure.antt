-- ===== src/Sec/Protect/Failure.antt =====
-- A frame that is not accepted leaves no trace but a counter.
use lockgrid.Prelude.{
  ℕ, ◌+◌, ◌-◌, ◌≡◌, ◌≢◌, refl, Bool, true, false, Option, none, some, List, slice, ltb, arith,
  Bool-cases, inl, inr,
}
use lockgrid.Prelude.Bits.{has_bit}
use lockgrid.Types.{u8, u32, Keys}
use lockgrid.Config.{Config}
use lockgrid.Frame.{hdr_len_sec, sec_overhead, get_le32, get_le16}
use lockgrid.Sec.{replay_check}
use lockgrid.Sec.Nonce.{nonce_build}
use lockgrid.Sec.Protect.{
  Aead, Code, ok, ebadmsg, ealready, SecStats, Protected, decrypt, admit, opened, off_fctr, off_src,
}

replay_check-refused :
    (cfg : Config) (k : Keys) (ctr : ℕ)
    → (replay_check cfg k ctr).1 ≡ false
    → (replay_check cfg k ctr).0 ≡ k
unfolding replay_check has_bit
replay_check-refused cfg k ctr h = ground arith

-- The counter that each code raises.
pub counted : Code → SecStats → SecStats
counted ebadmsg st = record st { auth_failures = u32 (st.auth_failures + 1) }
counted ealready st = record st { replays_dropped = u32 (st.replays_dropped + 1) }
counted _ st = st

pub record Untouched (k : Keys) (pdu : List ℕ) (len : ℕ) (st : SecStats) (r : Protected)
    : Type 0 where
  pub keys_same : r.keys ≡ k
  pub pdu_same : r.pdu ≡ pdu
  pub len_same : r.len ≡ len
  pub count : r.stats ≡ counted r.code st

admit-Untouched :
    (cfg : Config) (k : Keys) (pdu : List ℕ) (len : ℕ) (st : SecStats) (out : List ℕ)
    → (admit cfg k pdu len st out).code ≢ ok
    → Untouched k pdu len st (admit cfg k pdu len st out)
unfolding admit counted
admit-Untouched cfg k pdu len st out h =
    elim (Bool-cases (replay_check cfg k (get_le32 pdu off_fctr)).1) [
      | inl fresh ↦ absurd (h (rw fresh refl))
      | inr stale ↦ rw stale (record {
        keys_same = replay_check-refused cfg k (get_le32 pdu off_fctr) stale;
        pdu_same = refl;
        len_same = refl;
        count = refl;
      })
    ]

opened-Untouched :
    (cfg : Config) (k : Keys) (pdu : List ℕ) (len : ℕ) (st : SecStats) (keyed short : Bool)
    (answer : Option (List ℕ))
    → (opened cfg k pdu len st keyed short answer).code ≢ ok
    → Untouched k pdu len st (opened cfg k pdu len st keyed short answer)
unfolding counted
opened-Untouched cfg k pdu len st false short answer h = record {
  keys_same = refl;
  pdu_same = refl;
  len_same = refl;
  count = refl;
}
opened-Untouched cfg k pdu len st true true answer h = record {
  keys_same = refl;
  pdu_same = refl;
  len_same = refl;
  count = refl;
}
opened-Untouched cfg k pdu len st true false none h = record {
  keys_same = refl;
  pdu_same = refl;
  len_same = refl;
  count = refl;
}
opened-Untouched cfg k pdu len st true false (some out) h = admit-Untouched cfg k pdu len st out h

-- When decryption returns an error, whatever the cipher answers: the keys with the replay window, the
-- frame and its length are as before, and the statistics differ in the one counter of that error.
pub decrypt-Untouched :
    (cfg : Config) (crypto : Aead) (k : Keys) (pdu : List ℕ) (len : ℕ) (st : SecStats)
    → (decrypt cfg crypto k pdu len st).code ≢ ok
    → Untouched k pdu len st (decrypt cfg crypto k pdu len st)
unfolding decrypt
decrypt-Untouched cfg crypto k pdu len st h =
    opened-Untouched cfg k pdu len st k.has_key (ltb len (sec_overhead cfg))
      (crypto.unseal k.key_id (nonce_build (get_le16 pdu off_src) (get_le32 pdu off_fctr))
        (slice pdu 0 hdr_len_sec) (slice pdu hdr_len_sec (u8 (len - hdr_len_sec))))
      h
