-- ===== src/Join/Agree/Exchange.antt =====
-- subsys/lockgrid/lg_join.c: the four messages of the handshake between two honest nodes.
use lockgrid.Prelude.{
  ℕ, ◌≤◌, ◌≡◌, refl, sym, ◌∙◌, true, false, List, ◌++◌, length, slice, write_at, arith, some,
  slice-write_at, length-write_at,
}
use lockgrid.Sec.Identity.{Claim, verify, hash, kdf}
use lockgrid.Join.{stage_message, xfer_max}
use lockgrid.Join.Params.{pack, length-pack}
use lockgrid.Join.Steps.{Talk, Self, hello, transcript_build}
use lockgrid.Join.Agree.Fields.{fields_only, fields_signed}
use lockgrid.Join.Agree.{req_lem, rsp_lem, freshened, answered, confirmed, put}
use lockgrid.Join.Agree.Honest.{
  staged, Holds, asks, answers, confirms, ends, Drawn, Draws, Trusts, Computes, Binds, staged-put,
  build_lem, cfm_lem, keypair-Draws, sign-size, cert-size,
}

module _ (joiner router : Self) (tj tr : Talk) (v w : Drawn) (cj cr : Claim)
    (secret T key ltk : List ℕ) (draws_j : Draws joiner v) (draws_r : Draws router w)
    (trusts_r : Trusts router joiner cj) (trusts_j : Trusts joiner router cr)
    (binds_j : Binds joiner v w router.addr secret T key ltk)
    (same_net : router.network_id ≡ joiner.network_id)
    (same_hash : router.psa.hash ≡ joiner.psa.hash) (same_hkdf : router.psa.hkdf ≡ joiner.psa.hkdf)
    (computes_j : Computes joiner v w.point secret T key)
    (computes_r : Computes router w v.point secret T key)
    (good_r : verify joiner.psa cr.pub_key T w.sig ≡ true)
    (good_j : verify router.psa cj.pub_key T v.sig ≡ true) (knows_j : tj.neigh.addr ≡ router.addr)
    (knows_r : tr.neigh.addr ≡ joiner.addr) (room_j : length tj.hs.tx ≡ xfer_max)
    (room_r : length tr.hs.tx ≡ xfer_max) where
  greeting : List ℕ
  greeting = hello joiner v.nonce v.point

  asked : Talk
  asked = put joiner 1 false greeting (freshened joiner v.nonce (v.point, v.priv) tj)

  ask_lem : asks joiner tj ≡ (asked, some tt)
  unfolding asked greeting
  ask_lem = build_lem joiner v tj draws_j.0 (keypair-Draws joiner v draws_j)

  greeting-fields :
      (slice greeting 0 8 ≡ v.nonce)
      × (slice greeting 8 64 ≡ v.point)
      × (slice greeting 72 140 ≡ joiner.own.cert)
      × (length greeting ≡ 212)
  unfolding greeting
  greeting-fields =
      fields_only v.nonce v.point joiner.own.cert draws_j.1 draws_j.3
        (cert-size router joiner cj trusts_r)

  staged_request : staged asked ≡ greeting
  unfolding asked
  staged_request =
      let fits : 212 ≤ xfer_max = omega arith in
      staged-put joiner 1 false greeting (freshened joiner v.nonce (v.point, v.priv) tj)
        (rw (greeting-fields.3, room_j) fits)

  answer : Talk
  answer = answered router greeting w.nonce (w.point, w.priv) T key ltk w.id w.sig cj tr

  binds_r :
      (transcript_build router.psa router.network_id
          (slice greeting 0 8)
          w.nonce
          (slice greeting 8 64)
          w.point
          tr.neigh.addr
          router.addr
        ≡ some T)
      × (kdf router.psa secret T "LockGrid link v1" ≡ some key)
      × (kdf router.psa secret T "LockGrid ltk v1" ≡ some ltk)
  unfolding transcript_build hash kdf
  binds_r =
      rw (same_hash, same_hkdf, same_net, knows_r, greeting-fields.0, greeting-fields.1) binds_j

  answer_lem : answers joiner router tj tr ≡ (answer, some tt)
  unfolding answer
  answer_lem =
      rw (ask_lem, staged_request)
        (req_lem router greeting w.nonce T secret key ltk w.sig (w.point, w.priv) cj w.id tr
          greeting-fields.3 (rw greeting-fields.2 trusts_r.0) (trusts_r.1 ∙ sym knows_r) draws_r.0
          (keypair-Draws router w draws_r) binds_r.0 (rw greeting-fields.1 computes_r.0) binds_r.1
          binds_r.2 computes_r.1 computes_r.2)

  response : List ℕ
  response = hello router w.nonce w.point ++ w.sig

  response-fields :
      (slice response 0 8 ≡ w.nonce)
      × (slice response 8 64 ≡ w.point)
      × (slice response 72 140 ≡ router.own.cert)
      × (slice response 212 64 ≡ w.sig)
      × (length response ≡ 276)
  unfolding response
  response-fields =
      fields_signed w.nonce w.point router.own.cert w.sig draws_r.1 draws_r.3
        (cert-size joiner router cr trusts_j) (sign-size router T w.sig computes_r.2)

  staged_response : staged answer ≡ response
  unfolding answer response stage_message
  staged_response = let long = response-fields.4 in slice-write_at tr.hs.tx 0 response (omega arith)

  confirmation : Talk
  confirmation = confirmed joiner response T key ltk v.id v.sig cr asked

  confirm_lem : confirms joiner router tj tr ≡ (confirmation, some tt)
  unfolding confirmation asked stage_message
  confirm_lem =
      rw (answer_lem, ask_lem, staged_response)
        (rsp_lem joiner response T secret key ltk v.sig cr v.id asked response-fields.4
          (rw response-fields.2 trusts_j.0) (trusts_j.1 ∙ sym knows_j)
          (rw (response-fields.0, response-fields.1, knows_j) binds_j.0)
          (rw response-fields.3 good_r) (rw response-fields.1 computes_j.0) binds_j.1 binds_j.2
          computes_j.1 computes_j.2)

  staged_confirmation : staged confirmation ≡ v.sig
  unfolding confirmation asked stage_message
  staged_confirmation =
      let long = sign-size joiner T v.sig computes_j.2 in
      let same = length-write_at tj.hs.tx 0 greeting in
      slice-write_at (write_at tj.hs.tx 0 greeting) 0 v.sig (omega arith)

  end_lem : ends joiner router tj tr ≡ (put router 4 true (pack router.params) answer, some tt)
  unfolding answer stage_message
  end_lem =
      rw (confirm_lem, answer_lem, staged_confirmation)
        (cfm_lem router v.sig answer (sign-size joiner T v.sig computes_j.2) good_j)

  staged_params : staged (put router 4 true (pack router.params) answer) ≡ pack router.params
  unfolding answer stage_message response
  staged_params =
      let same = length-write_at tr.hs.tx 0 response in
      let size = length-pack router.params in
      slice-write_at (write_at tr.hs.tx 0 response) 0 (pack router.params) (omega arith)

  -- Of a joiner and a router of the same network, which know each other's addresses, trust each other's
  -- certificates, whose message buffers have their 288 bytes, and whose generators and crypto succeed
  -- and agree on what both compute: the request,
  -- the answer, the confirmation and its handling all succeed, each on the bytes that the step before it
  -- staged. Then the two sides hold the same transcript, link key and long-term key, each has installed
  -- the link key, and the last message is the router's link parameters.
  pub exchange-Holds :
      (asks joiner tj).1 ≡ some tt
      × (answers joiner router tj tr).1 ≡ some tt
      × (confirms joiner router tj tr).1 ≡ some tt
      × (ends joiner router tj tr).1 ≡ some tt
      × Holds T key ltk (confirms joiner router tj tr).0
      × Holds T key ltk (ends joiner router tj tr).0
      × staged (ends joiner router tj tr).0 ≡ pack router.params
  unfolding confirmation answer asked stage_message
  exchange-Holds =
      rw (end_lem, confirm_lem, answer_lem, ask_lem)
        (refl, refl, refl, refl, (refl, refl, refl, refl), (refl, refl, refl, refl), staged_params)
