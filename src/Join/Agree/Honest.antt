-- ===== src/Join/Agree/Honest.antt =====
-- subsys/lockgrid/lg_join.c: what an honest node draws and computes, and its first and its last step.
use lockgrid.Prelude.{
  ℕ, suc, ◌≤◌, ◌≡◌, refl, ap, Bool, true, false, List, ◌∷◌, length, slice, arith, Option, some,
  none, slice-write_at, Bool-cases, inl, inr, ◌==◌,
}
use lockgrid.Sec.Identity.{Claim, cert_verify, keypair, ecdh, sign, verify, kdf}
use lockgrid.Join.{stage_message}
use lockgrid.Join.Params.{pack}
use lockgrid.Join.Steps.{
  Talk, Self, hello, build_join_req, handle_join_req, handle_join_rsp, handle_join_cfm, put_message,
  fresh, transcript_build,
}
use lockgrid.Join.Agree.{and_then, fresh_lem, freshened, put}

-- The message that is staged.
abbrev pub staged : Talk → List ℕ
staged t = slice t.hs.tx 0 t.hs.tx_len

-- What a side of the handshake has worked out when it is done: the transcript and the keys.
abbrev pub Holds : List ℕ → List ℕ → List ℕ → Talk → Type 0
Holds transcript link_key ltk t =
    (t.neigh.transcript ≡ transcript)
    × (t.neigh.link_key ≡ link_key)
    × (t.neigh.ltk ≡ ltk)
    × (t.neigh.has_key ≡ true)

-- The handshake: each step on the message that the one before it staged.
abbrev pub asks : Self → Talk → Talk × Option (Unit {0})
asks joiner tj = build_join_req joiner tj

abbrev pub answers : Self → Self → Talk → Talk → Talk × Option (Unit {0})
answers joiner router tj tr = handle_join_req router (staged (asks joiner tj).0) tr

abbrev pub confirms : Self → Self → Talk → Talk → Talk × Option (Unit {0})
confirms joiner router tj tr =
    handle_join_rsp joiner (staged (answers joiner router tj tr).0) (asks joiner tj).0

abbrev pub ends : Self → Self → Talk → Talk → Talk × Option (Unit {0})
ends joiner router tj tr =
    handle_join_cfm router (staged (confirms joiner router tj tr).0) (answers joiner router tj tr).0

-- What a side draws and computes of its own: its nonce, its ephemeral key, the identifier of the imported
-- key and its signature.
pub record Drawn : Type 0 where
  pub nonce : List ℕ
  pub point : List ℕ
  pub priv : List ℕ
  pub id : ℕ
  pub sig : List ℕ

-- The generators succeed, and their values have the sizes that were asked for.
abbrev pub Draws : Self → Drawn → Type 0
Draws self v =
    (self.nonce ≡ some v.nonce)
    × (length v.nonce ≡ 8)
    × (self.pair ≡ some (4 ∷ v.point, v.priv))
    × (length v.point ≡ 64)
    × (length v.priv ≡ 32)

-- The certificate of `holder` is good for `by`, and names the holder's address.
abbrev pub Trusts : Self → Self → Claim → Type 0
Trusts by holder c = (cert_verify by.psa by.own holder.own.cert ≡ some c) × (c.addr ≡ holder.addr)

-- The crypto of one side succeeds with these values.
abbrev pub Computes : Self → Drawn → List ℕ → List ℕ → List ℕ → List ℕ → Type 0
Computes self v peer secret transcript key =
    (ecdh self.psa v.priv peer ≡ some secret)
    × (self.psa.import_aes key ≡ some v.id)
    × (sign self.psa self.own transcript ≡ some v.sig)

-- The transcript and the two keys, worked out with the crypto of one side.
abbrev pub Binds : Self → Drawn → Drawn → ℕ → List ℕ → List ℕ → List ℕ → List ℕ → Type 0
Binds joiner v w addr secret transcript key ltk =
    (transcript_build joiner.psa joiner.network_id v.nonce w.nonce v.point w.point joiner.addr addr
      ≡ some transcript)
    × (kdf joiner.psa secret transcript "LockGrid link v1" ≡ some key)
    × (kdf joiner.psa secret transcript "LockGrid ltk v1" ≡ some ltk)

pub staged-put :
    (self : Self) (type : ℕ) (secured : Bool) (bytes : List ℕ) (t : Talk)
    → length bytes ≤ length t.hs.tx
    → staged (put self type secured bytes t) ≡ bytes
unfolding stage_message
staged-put self type secured bytes t fits = slice-write_at t.hs.tx 0 bytes (omega arith)

pub build_lem :
    (self : Self) (v : Drawn) (t : Talk)
    → self.nonce ≡ some v.nonce
    → keypair self.pair ≡ some (v.point, v.priv)
    → build_join_req self t ≡ (
      put self 1 false (hello self v.nonce v.point) (freshened self v.nonce (v.point, v.priv) t),
      some tt,
    )
unfolding build_join_req put_message
build_lem self v t draw gen =
    and_then (fresh self)
      (λ t'. put_message self 1 false (hello self t'.neigh.nonce_local t'.hs.eph_pub) t')
      (fresh_lem self v.nonce (v.point, v.priv) t draw gen) refl

pub cfm_lem :
    (self : Self) (msg : List ℕ) (t : Talk)
    → length msg ≡ 64
    → verify self.psa t.neigh.peer_static_pub t.neigh.transcript msg ≡ true
    → handle_join_cfm self msg t ≡ (put self 4 true (pack self.params) t, some tt)
unfolding handle_join_cfm put_message
cfm_lem self msg t size ver = rw (size, ver) refl

pub keypair-Draws :
    (self : Self) (v : Drawn) → Draws self v → keypair self.pair ≡ some (v.point, v.priv)
unfolding keypair
keypair-Draws self v d =
    let long : length (4 ∷ v.point) ≡ 65 = ap suc d.3 in rw (d.2, long, d.4) refl

pub sign-size :
    (self : Self) (h sig : List ℕ) → sign self.psa self.own h ≡ some sig → length sig ≡ 64
unfolding sign
sign-size self h sig e = ground arith

eq_of : (n : ℕ) → (n == 140) ≡ true → n ≡ 140
eq_of n e = ground arith

pub cert-size : (by holder : Self) (c : Claim) → Trusts by holder c → length holder.own.cert ≡ 140
unfolding cert_verify
cert-size by holder c e = elim (Bool-cases (length holder.own.cert == 140)) [
  | inl t ↦ eq_of (length holder.own.cert) t
  | inr f ↦
      let refused : cert_verify by.psa by.own holder.own.cert ≡ none = rw f refl in ground arith
]
