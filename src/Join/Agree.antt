-- ===== src/Join/Agree.antt =====
-- subsys/lockgrid/lg_join.c: two honest nodes end the handshake with the same keys.
use lockgrid.Prelude.{
  ℕ, ◌+◌, ◌*◌, ◌-◌, ◌≤◌, ◌<◌, ◌≡◌, refl, ap, sym, ◌∙◌, Bool, true, false, not, ◌&&◌, ◌||◌, List, [],
  ◌∷◌, ◌++◌, length, slice, take, drop, write_at, arith, ◌==◌, if◌then◌else◌, Option, some, none,
  length-append, slice-write_at, length-slice, take-append,
}
use lockgrid.Types.{Neigh}
use lockgrid.Sec.Identity.{
  Psa, Credentials, Claim, cert_verify, keypair, ecdh, sign, verify, hash, concat, kdf, install_key,
}
use lockgrid.Join.{Context, stage_message, xfer_max}
use lockgrid.Join.Params.{LinkParams, pack}
use lockgrid.Join.Steps.{
  M, Talk, Self, hello, build_join_req, handle_join_req, handle_join_rsp, handle_join_cfm,
  put_message, fresh, accept_hello, agree_keys, derive_keys, install, set_nonce_local, set_peer,
  set_keys, set_transcript, ◌>>=◌, ◌>>◌, lift, sign_transcript, answer_req, answer_rsp,
  transcript_build,
}
mod Fields
pub mod Honest
pub mod Exchange

-- A step that succeeds, and what follows on it.
pub ok_then :
    {A B : Type 0} (m : M A) (f : A → M B) {t t' : Talk} {a : A} {r : Talk × Option B}
    → m t ≡ (t', some a)
    → f a t' ≡ r
    → (m >>= f) t ≡ r
ok_then {A} {B} m f p q =
    ap {B = Talk × Option B}
      (λ (x : Talk × Option A). elim x.1 [ none ↦ (x.0, none) | some a ↦ f a x.0 ]) p
    ∙ q

pub and_then :
    {B : Type 0} (m : M (Unit {0})) (k : M B) {t t' : Talk} {r : Talk × Option B}
    → m t ≡ (t', some tt)
    → k t' ≡ r
    → (m >> k) t ≡ r
and_then m k p q = ok_then m (λ _. k) p q

-- The parts of a step, where each call of the library succeeds with these values.
module _ (self : Self) where
  abbrev pub freshened : List ℕ → List ℕ × List ℕ → Talk → Talk
  freshened nonce pair t = record t {
    neigh = set_nonce_local nonce t.neigh;
    hs = record t.hs { eph_pub = pair.0; eph_priv = pair.1 };
  }

  pub fresh_lem :
      (nonce : List ℕ) (pair : List ℕ × List ℕ) (t : Talk)
      → self.nonce ≡ some nonce
      → keypair self.pair ≡ some pair
      → fresh self t ≡ (freshened nonce pair t, some tt)
  unfolding fresh
  fresh_lem nonce pair t e f = rw (e, f) refl

  abbrev pub accepted : List ℕ → Claim → Talk → Talk
  accepted msg c t = record t { neigh = set_peer (slice msg 0 8) (slice msg 8 64) c t.neigh }

  accept_lem :
      (msg : List ℕ) (c : Claim) (t : Talk)
      → cert_verify self.psa self.own (slice msg 72 140) ≡ some c
      → c.addr ≡ t.neigh.addr
      → accept_hello self msg t ≡ (accepted msg c t, some c)
  unfolding accept_hello
  accept_lem msg c t e f =
      let same : (c.addr == t.neigh.addr) ≡ true = ground arith in rw (e, same) refl

  abbrev pub keyed : List ℕ → List ℕ → ℕ → Talk → Talk
  keyed k l id t = record t {
    neigh =
        set_keys
          (λ o. record o {
            ltk = l;
            has_ltk = true;
            link_key = k;
            key_id = id;
            has_key = true;
            tx_ctr = 0;
            rx_ctr = 0;
            replay_mask = 0;
          })
          t.neigh;
  }

  install_lem :
      (k : List ℕ) (id : ℕ) (t : Talk)
      → self.psa.import_aes k ≡ some id
      → install self k t ≡ (
        record t {
          neigh =
              set_keys
                (λ o. record o {
                  link_key = k;
                  key_id = id;
                  has_key = true;
                  tx_ctr = 0;
                  rx_ctr = 0;
                  replay_mask = 0;
                })
                t.neigh;
        },
        some tt,
      )
  unfolding install install_key
  install_lem k id t e = rw (e, install_key) refl

  agree_lem :
      (T s k l : List ℕ) (id : ℕ) (t : Talk)
      → ecdh self.psa t.hs.eph_priv t.neigh.eph_pub_peer ≡ some s
      → kdf self.psa s T "LockGrid link v1" ≡ some k
      → kdf self.psa s T "LockGrid ltk v1" ≡ some l
      → self.psa.import_aes k ≡ some id
      → agree_keys self T t ≡ (keyed k l id t, some tt)
  unfolding agree_keys derive_keys
  agree_lem T s k l id t e f g h =
      rw (e, f, g)
        (install_lem k id
          (record t { neigh = set_keys (λ o. record o { ltk = l; has_ltk = true }) t.neigh }) h)

  abbrev pub put : ℕ → Bool → List ℕ → Talk → Talk
  put type secured bytes t = record t {
    hs =
        stage_message self.cfg type secured (length bytes)
          (record t.hs { tx = write_at t.hs.tx 0 bytes });
  }

  signed_lem :
      (T s k l sig : List ℕ) (id : ℕ) (t : Talk)
      → ecdh self.psa t.hs.eph_priv t.neigh.eph_pub_peer ≡ some s
      → kdf self.psa s T "LockGrid link v1" ≡ some k
      → kdf self.psa s T "LockGrid ltk v1" ≡ some l
      → self.psa.import_aes k ≡ some id
      → sign self.psa self.own T ≡ some sig
      → sign_transcript self T t
        ≡ (keyed k l id (record t { neigh = set_transcript T t.neigh }), some sig)
  unfolding sign_transcript
  signed_lem T s k l sig id t e f g h sg =
      and_then (agree_keys self T) (lift (sign self.psa self.own T))
        (agree_lem T s k l id (record t { neigh = set_transcript T t.neigh }) e f g h) (rw sg refl)

  -- The router after a request.
  abbrev pub answered :
      List ℕ
      → List ℕ
      → List ℕ × List ℕ
      → List ℕ
      → List ℕ
      → List ℕ
      → ℕ
      → List ℕ
      → Claim
      → Talk
      → Talk
  answered msg nonce pair T k l id sig c t =
      let t1 = freshened nonce pair (accepted msg c t) in
      let t2 : Talk = record t1 { neigh = set_transcript T t1.neigh } in
      put 2 false (hello self nonce pair.0 ++ sig) (keyed k l id t2)

  pub req_lem :
      (msg nonce T s k l sig : List ℕ) (pair : List ℕ × List ℕ) (c : Claim) (id : ℕ) (t : Talk)
      → length msg ≡ 212
      → cert_verify self.psa self.own (slice msg 72 140) ≡ some c
      → c.addr ≡ t.neigh.addr
      → self.nonce ≡ some nonce
      → keypair self.pair ≡ some pair
      → transcript_build self.psa self.network_id
          (slice msg 0 8)
          nonce
          (slice msg 8 64)
          pair.0
          t.neigh.addr
          self.addr
        ≡ some T
      → ecdh self.psa pair.1 (slice msg 8 64) ≡ some s
      → kdf self.psa s T "LockGrid link v1" ≡ some k
      → kdf self.psa s T "LockGrid ltk v1" ≡ some l
      → self.psa.import_aes k ≡ some id
      → sign self.psa self.own T ≡ some sig
      → handle_join_req self msg t ≡ (answered msg nonce pair T k l id sig c t, some tt)
  unfolding handle_join_req answer_req put_message
  req_lem msg nonce T s k l sig pair c id t size cert named draw gen bound sec key long imp sg =
      let t1 = freshened nonce pair (accepted msg c t) in
      rw size (
        ok_then (accept_hello self msg) (λ _. fresh self >> answer_req self)
          (accept_lem msg c t cert named)
          (and_then (fresh self) (answer_req self)
            (fresh_lem nonce pair (accepted msg c t) draw gen)
            (rw bound (
              ok_then (sign_transcript self T)
                (λ x. put_message self 2 false (hello self nonce pair.0 ++ x))
                (signed_lem T s k l sig id t1 sec key long imp sg) refl))))

  -- The joiner after the response.
  abbrev pub confirmed : List ℕ → List ℕ → List ℕ → List ℕ → ℕ → List ℕ → Claim → Talk → Talk
  confirmed msg T k l id sig c t =
      let t1 = accepted msg c t in
      put 3 true sig (keyed k l id (record t1 { neigh = set_transcript T t1.neigh }))

  pub rsp_lem :
      (msg T s k l sig : List ℕ) (c : Claim) (id : ℕ) (t : Talk)
      → length msg ≡ 276
      → cert_verify self.psa self.own (slice msg 72 140) ≡ some c
      → c.addr ≡ t.neigh.addr
      → transcript_build self.psa self.network_id t.neigh.nonce_local
          (slice msg 0 8)
          t.hs.eph_pub
          (slice msg 8 64)
          self.addr
          t.neigh.addr
        ≡ some T
      → verify self.psa c.pub_key T (slice msg 212 64) ≡ true
      → ecdh self.psa t.hs.eph_priv (slice msg 8 64) ≡ some s
      → kdf self.psa s T "LockGrid link v1" ≡ some k
      → kdf self.psa s T "LockGrid ltk v1" ≡ some l
      → self.psa.import_aes k ≡ some id
      → sign self.psa self.own T ≡ some sig
      → handle_join_rsp self msg t ≡ (confirmed msg T k l id sig c t, some tt)
  unfolding handle_join_rsp answer_rsp put_message
  rsp_lem msg T s k l sig c id t size cert named bound ver sec key long imp sg = rw size (
      ok_then (accept_hello self msg) (λ x. answer_rsp self x (slice msg 212 64))
        (accept_lem msg c t cert named)
        (rw (bound, ver)
          (ok_then (sign_transcript self T) (put_message self 3 true)
            (signed_lem T s k l sig id (accepted msg c t) sec key long imp sg) refl)))
