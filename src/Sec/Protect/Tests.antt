-- ===== src/Sec/Protect/Tests.antt =====
-- subsys/lockgrid/lg_sec.c: the theorems on protected frames at concrete frames, with a cipher that
-- only appends a tag.
use mathlib.Core.Path.{◌≡◌, refl}
use lockgrid.Prelude.{
  ℕ, ◌+◌, ◌-◌, true, some, none, List, ◌++◌, length, replicate, set, take, take-append,
  length-append, arith, if◌then◌else◌, ltb, ◌≢◌, false,
}
use lockgrid.Types.{Keys, zero_neigh}
use lockgrid.Config.{default_config}
use lockgrid.Frame.{get_le16, get_le32, put_le32}
use lockgrid.Prelude.Bits.{has_bit}
use lockgrid.Sec.{replay_check}
use lockgrid.Sec.Protect.{
  Aead, SameKey, ok, ealready, SecStats, encrypt, decrypt, sealed, stamp, admit,
}
use lockgrid.Sec.Protect.Failure.{Untouched, decrypt-Untouched}
use lockgrid.Sec.Protect.RoundTrip.{Ready, Delivered, decrypt-encrypt, stamped}

abbrev tagging : Aead
tagging = record {
  seal = λ k nonce aad body. some (body ++ replicate 4 0);
  unseal = λ k nonce aad out. if ltb (length out) 4 then none else some (take (length out - 4) out);
}

tagging-SameKey : (a b : ℕ) → SameKey 4 tagging a tagging b
tagging-SameKey a b = record {
  works = λ nonce aad body. (body ++ replicate 4 0, refl, sum body, opens body);
}
  where
    sum : (body : List ℕ) → length (body ++ replicate 4 0) ≡ length body + 4
    sum body = length-append body (replicate 4 0)

    opens :
        (body : List ℕ)
        → (if ltb (length (body ++ replicate 4 0)) 4
            then none
            else some (take (length (body ++ replicate 4 0) - 4) (body ++ replicate 4 0)))
          ≡ some body
    opens body =
        let long : ltb (length body + 4) 4 ≡ false = ground arith in
        let rest : length body + 4 - 4 ≡ length body = omega arith in
        rw (sum body, long, rest, take-append body (replicate 4 0)) refl

abbrev keyed_keys : Keys
keyed_keys = record zero_neigh.keys { has_key = true; tx_ctr = 6 }

-- An acknowledgement of node 5, with two bytes of body.
abbrev frame : List ℕ
frame = set (set (set (replicate 125 0) 6 5) 12 0xab) 13 0xcd

abbrev no_stats : SecStats
no_stats = record { auth_failures = 0; replays_dropped = 0 }

frame-Ready : Ready default_config 5 keyed_keys frame 14
unfolding get_le16
frame-Ready = record {
  buffer = refl;
  from_us = refl;
  has_header = omega arith;
  fits = omega arith;
  keyed = refl;
  counter_left = omega arith;
}

decrypt-encrypt_example :
    ((encrypt default_config tagging 5 keyed_keys frame 12 14 no_stats).code ≡ ok)
    × ((encrypt default_config tagging 5 keyed_keys frame 12 14 no_stats).len ≡ 18)
    × Delivered default_config keyed_keys 7 (stamped keyed_keys frame) 14 no_stats (
        decrypt default_config tagging keyed_keys
          (encrypt default_config tagging 5 keyed_keys frame 12 14 no_stats).pdu
          18
          no_stats)
unfolding replay_check has_bit encrypt sealed stamp put_le32
decrypt-encrypt_example =
    decrypt-encrypt default_config tagging tagging 5 keyed_keys keyed_keys frame
      (encrypt default_config tagging 5 keyed_keys frame 12 14 no_stats).pdu 14 no_stats no_stats
      (tagging-SameKey 0 0) frame-Ready refl refl refl refl

-- A frame with the counter 0 is refused as a replay.
decrypt-Untouched_example :
    Untouched keyed_keys frame 18 no_stats
      (decrypt default_config tagging keyed_keys frame 18 no_stats)
unfolding decrypt replay_check get_le32 get_le16 admit
decrypt-Untouched_example =
    decrypt-Untouched default_config tagging keyed_keys frame 18 no_stats refused
  where
    refused : ealready ≢ ok
    refused e = ground arith
