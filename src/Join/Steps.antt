-- ===== src/Join/Steps.antt =====
-- subsys/lockgrid/lg_join.c: the steps of the handshake. A step works on the neighbour and the context,
-- and keeps what it did to them also where it fails.
use lockgrid.Prelude.{
  ℕ, ◌+◌, min, max, Bool, true, false, ◌&&◌, List, [], ◌∷◌, ◌++◌, Option, none, some, ◌==◌,
  if◌then◌else◌, length, slice, write_at, replicate,
}
use lockgrid.Types.{Neigh, Keys}
use lockgrid.Config.{Config}
use lockgrid.Frame.{put_le16, put_le32}
use lockgrid.Sec.Protect.{SecStats}
use lockgrid.Sec.Identity.{
  Psa, Credentials, Claim, hash, kdf, keypair, ecdh, sign, verify, cert_verify, install_key,
  ec_pub_len, nonce_len, cert_len, sig_len,
}
use lockgrid.Join.{
  Context, stage_message, ft_join_req, ft_join_rsp, ft_join_cfm, ft_join_ack, ft_resume_req,
  ft_resume_rsp,
}
use lockgrid.Join.Params.{LinkParams, pack}

-- What a step works on; `frame` is `join_frame`.
pub record Talk : Type 0 where
  pub neigh : Neigh
  pub hs : Context
  pub frame : List ℕ
  pub stats : SecStats

-- What a step reads of the node: the library and the crypto, its credentials, address and network, and
-- the parameters that it would give a link. The values that are drawn at random are those of the call:
-- `none` is an error.
pub record Self : Type 0 where
  pub cfg : Config
  pub psa : Psa
  pub own : Credentials
  pub addr : ℕ
  pub network_id : ℕ
  pub params : LinkParams
  pub nonce : Option (List ℕ)
  pub pair : Option (List ℕ × List ℕ)

-- A step that may fail.
abbrev pub M : Type 0 → Type 0
M A = Talk → Talk × Option A

infixl 5 ◌>>=◌ ◌>>◌
abbrev pub ◌>>=◌ : {A B : Type 0} → M A → (A → M B) → M B
◌>>=◌ m f t = let r = m t in elim r.1 [ none ↦ (r.0, none) | some a ↦ f a r.0 ]

abbrev pub ◌>>◌ : {B : Type 0} → M (Unit {0}) → M B → M B
m >> k = m >>= λ _. k

abbrev pub read : M Talk
read t = (t, some t)

abbrev pub lift : {A : Type 0} → Option A → M A
lift o t = (t, o)

abbrev pub guard : Bool → M (Unit {0})
guard b t = (t, if b then some tt else none)

abbrev pub set_neigh : (Neigh → Neigh) → M (Unit {0})
set_neigh f t = (record t { neigh = f t.neigh }, some tt)

abbrev pub set_hs : (Context → Context) → M (Unit {0})
set_hs f t = (record t { hs = f t.hs }, some tt)

-- Assignments to fields of the neighbour.
abbrev pub set_nonce_local : List ℕ → Neigh → Neigh
set_nonce_local x n = record n { handshake = record n.handshake { nonce_local = x } }

abbrev pub set_nonce_peer : List ℕ → Neigh → Neigh
set_nonce_peer x n = record n { handshake = record n.handshake { nonce_peer = x } }

abbrev pub set_transcript : List ℕ → Neigh → Neigh
set_transcript x n = record n { handshake = record n.handshake { transcript = x } }

-- What both sides keep of the other's first message.
abbrev pub set_peer : List ℕ → List ℕ → Claim → Neigh → Neigh
set_peer nonce pub_key c n = record n {
  advert = record n.advert { role = c.role };
  handshake = record n.handshake {
    nonce_peer = nonce;
    eph_pub_peer = pub_key;
    peer_static_pub = c.pub_key;
  };
}

abbrev pub set_keys : (Keys → Keys) → Neigh → Neigh
set_keys f n = record n { keys = f n.keys }

-- `transcript_build`
unfoldable pub transcript_build :
    Psa → ℕ → List ℕ → List ℕ → List ℕ → List ℕ → ℕ → ℕ → Option (List ℕ)
transcript_build psa network nonce_j nonce_r pub_j pub_r addr_j addr_r =
    let ids = put_le16 (put_le16 (put_le32 (replicate 8 0) 0 network) 4 addr_j) 6 addr_r in
    hash psa (ids ∷ nonce_j ∷ nonce_r ∷ pub_j ∷ pub_r ∷ [])

-- `lg_sec_install_key` on the neighbour
unfoldable pub install : Self → List ℕ → M (Unit {0})
install self key t =
    let r = install_key self.psa t.neigh.keys key in
    (record t { neigh = set_keys (λ _. r.0) t.neigh }, if r.1 then some tt else none)

-- `derive_keys`
unfoldable pub derive_keys : Self → List ℕ → List ℕ → M (Unit {0})
derive_keys self secret transcript = do
  link_key ← lift (kdf self.psa secret transcript "LockGrid link v1")
  ltk ← lift (kdf self.psa secret transcript "LockGrid ltk v1")
  set_neigh (set_keys (λ k. record k { ltk = ltk; has_ltk = true }))
  install self link_key

-- `derive_resume_key`
unfoldable pub derive_resume_key : Self → List ℕ → M (Unit {0})
derive_resume_key self nonce_j = do
  t ← read
  let low = min self.addr t.neigh.addr
  let high = max self.addr t.neigh.addr
  let salt = put_le16 (put_le16 (nonce_j ++ replicate 4 0) 8 low) 10 high
  key ← lift (kdf self.psa t.neigh.ltk salt "LockGrid resume v1")
  install self key

-- The nonce, the ephemeral key and the certificate, which begin both first messages.
abbrev pub hello : Self → List ℕ → List ℕ → List ℕ
hello self nonce eph_pub = nonce ++ (eph_pub ++ self.own.cert)

-- A new nonce and a new ephemeral key.
unfoldable pub fresh : Self → M (Unit {0})
fresh self = do
  nonce ← lift self.nonce
  set_neigh (set_nonce_local nonce)
  pair ← lift (keypair self.pair)
  set_hs (λ hs. record hs { eph_pub = pair.0; eph_priv = pair.1 })

-- Bytes for `hs.tx`, and the message staged.
unfoldable pub put_message : Self → ℕ → Bool → List ℕ → M (Unit {0})
put_message self type secured bytes = set_hs (λ hs.
    stage_message self.cfg type secured (length bytes) (record hs { tx = write_at hs.tx 0 bytes }))

-- `build_join_req`
unfoldable pub build_join_req : Self → M (Unit {0})
build_join_req self = do
  fresh self
  t ← read
  put_message self ft_join_req false (hello self t.neigh.nonce_local t.hs.eph_pub)

-- The checks of a certificate that came with the first message of the neighbour, and what is kept.
unfoldable pub accept_hello : Self → List ℕ → M Claim
accept_hello self msg = do
  c ← lift (cert_verify self.psa self.own (slice msg (nonce_len + ec_pub_len) cert_len))
  t ← read
  guard (c.addr == t.neigh.addr)
  set_neigh (set_peer (slice msg 0 nonce_len) (slice msg nonce_len ec_pub_len) c)
  lift (some c)

-- The shared secret, and the keys from it.
unfoldable pub agree_keys : Self → List ℕ → M (Unit {0})
agree_keys self transcript = do
  t ← read
  secret ← lift (ecdh self.psa t.hs.eph_priv t.neigh.eph_pub_peer)
  derive_keys self secret transcript

-- The transcript kept, the keys derived, and the signature of the transcript.
unfoldable pub sign_transcript : Self → List ℕ → M (List ℕ)
sign_transcript self transcript = do
  set_neigh (set_transcript transcript)
  agree_keys self transcript
  lift (sign self.psa self.own transcript)

-- `handle_join_req` once the nonce and the ephemeral key are drawn.
unfoldable pub answer_req : Self → M (Unit {0})
answer_req self = do
  t ← read
  let n = t.neigh
  transcript ← lift (
      transcript_build self.psa self.network_id n.nonce_peer n.nonce_local n.eph_pub_peer
        t.hs.eph_pub n.addr self.addr)
  sig ← sign_transcript self transcript
  put_message self ft_join_rsp false (hello self n.nonce_local t.hs.eph_pub ++ sig)

-- `handle_join_req`
unfoldable pub handle_join_req : Self → List ℕ → M (Unit {0})
handle_join_req self msg = do
  guard (length msg == nonce_len + ec_pub_len + cert_len)
  c ← accept_hello self msg
  fresh self
  answer_req self

-- `handle_join_rsp` once the router's certificate is accepted, with the router's signature.
unfoldable pub answer_rsp : Self → Claim → List ℕ → M (Unit {0})
answer_rsp self c sig_r = do
  t ← read
  let n = t.neigh
  transcript ← lift (
      transcript_build self.psa self.network_id n.nonce_local n.nonce_peer t.hs.eph_pub
        n.eph_pub_peer self.addr n.addr)
  guard (verify self.psa c.pub_key transcript sig_r)
  sig ← sign_transcript self transcript
  put_message self ft_join_cfm true sig

-- `handle_join_rsp`
unfoldable pub handle_join_rsp : Self → List ℕ → M (Unit {0})
handle_join_rsp self msg = do
  guard (length msg == nonce_len + ec_pub_len + cert_len + sig_len)
  c ← accept_hello self msg
  answer_rsp self c (slice msg (nonce_len + ec_pub_len + cert_len) sig_len)

-- `handle_join_cfm`
unfoldable pub handle_join_cfm : Self → List ℕ → M (Unit {0})
handle_join_cfm self msg = do
  guard (length msg == sig_len)
  t ← read
  guard (verify self.psa t.neigh.peer_static_pub t.neigh.transcript msg)
  put_message self ft_join_ack true (pack self.params)

-- `build_resume_req`
unfoldable pub build_resume_req : Self → M (Unit {0})
build_resume_req self = do
  nonce ← lift self.nonce
  set_neigh (set_nonce_local nonce)
  put_message self ft_resume_req false nonce

-- `handle_resume_req`
unfoldable pub handle_resume_req : Self → List ℕ → M (Unit {0})
handle_resume_req self msg = do
  t ← read
  guard ((length msg == nonce_len) && t.neigh.has_ltk)
  set_neigh (set_nonce_peer msg)
  derive_resume_key self msg
  put_message self ft_resume_rsp true (pack self.params)
