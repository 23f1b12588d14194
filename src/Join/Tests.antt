-- ===== src/Join/Tests.antt =====
-- subsys/lockgrid/lg_join.c: two nodes with a long-term key, and the theorems there.
use lockgrid.Prelude.{ℕ, ◌+◌, ◌≡◌, refl, true, false, ◌∷◌, List, replicate, some, none, arith}
use lockgrid.Prelude.Int.{negsuc}
use lockgrid.Types.{Neigh, zero_neigh, heard}
use lockgrid.Config.{default_config}
use lockgrid.Frame.{get_le16}
use lockgrid.Sec.Protect.{Aead, SecStats}
use lockgrid.Sec.Identity.{Psa, Claim, install_key, kdf, ecdh, sign, verify, hash, cert_verify}
use lockgrid.Sec.Nonce.{nonce_build}
use lockgrid.Join.{Context, no_handshake, stage_message}
use lockgrid.Join.Params.{LinkParams, unpack, pack}
use lockgrid.Join.Fragments.Carry.{carry, Got, carry-stage_message}
use lockgrid.Join.Steps.{
  Talk, Self, transcript_build, handle_resume_req, derive_resume_key, install, put_message,
  build_resume_req,
}
use lockgrid.Join.Events.{goes_on, links, join_start, receive}
use lockgrid.Join.Ends.{finishes, run, is_over, join_start-IsOver}
use lockgrid.Join.Forged.{PlainAck-links}
use lockgrid.Join.Resume.{resume_again}
use lockgrid.Join.Agree.Honest.{Drawn, Holds, staged, asks, answers, confirms, ends}
use lockgrid.Join.Agree.Exchange.{exchange-Holds}

-- A cipher that refuses everything, and a library whose answers are fixed.
deaf : Aead
deaf = record { seal = λ key nonce aad body. none; unseal = λ key nonce aad body. none }

fixed : Psa
fixed = record {
  hash = λ bytes. some (replicate 32 1);
  hkdf = λ secret salt info. some (replicate 16 2);
  agree = λ priv point. some (replicate 32 3);
  sign_hash = λ priv h. some (replicate 64 4);
  takes_point = λ point. true;
  verify_hash = λ point h sig. true;
  import_aes = λ key. some 5;
}

abbrev params : LinkParams
params = record {
  interval = 200000;
  anchor_offset = 400000;
  chan_map = 0xffff;
  hop_seed = 77;
  sup_timeout_cs = 2000;
  subrate_max = 16;
  sca_ppm = 250;
  role = 1;
  rank = 20;
}

abbrev self : Self
self = record {
  cfg = default_config;
  psa = fixed;
  own = record { cert = replicate 140 0; priv_key = replicate 32 0; ca_pub = replicate 64 0 };
  addr = 1;
  network_id = 7;
  params = params;
  nonce = some (replicate 8 6);
  pair = none;
}

abbrev stats : SecStats
stats = record { auth_failures = 0; replays_dropped = 0 }

abbrev peer : Neigh
peer = record zero_neigh {
  state = heard;
  addr = 2;
  keys = record zero_neigh.keys { has_ltk = true };
}

abbrev talk : Talk
talk = record { neigh = peer; hs = no_handshake; frame = replicate 125 0; stats = stats }

-- Of a message of 276 bytes, which takes three fragments, to a receiver that has had nothing.
abbrev sender : Context
sender = record no_handshake { tx = replicate 288 9 }

carry-stage_message_example : Got 2 276 (replicate 288 9) (
    carry default_config deaf deaf 7 1 peer
      (stage_message default_config 2 false 276 sender)
      peer
      no_handshake
      (replicate 125 0)
      stats
      stats
      (stage_message default_config 2 false 276 sender).frag_total
      0)
carry-stage_message_example =
    carry-stage_message default_config deaf deaf 7 1 2 276 peer peer sender no_handshake
      (replicate 125 0) stats stats (omega arith) (omega arith) (omega arith) refl refl

-- The node of address 2 is asked to resume the link.
begun : Talk
unfolding join_start
begun = elim (join_start self 1000 0 peer no_handshake (replicate 125 0) stats) [
  | goes_on t ↦ t
  | _ ↦ talk
]

begins : join_start self 1000 0 peer no_handshake (replicate 125 0) stats ≡ goes_on begun
unfolding begun join_start build_resume_req put_message
begins = refl

join_start-IsOver_example : is_over (run deaf self begun (replicate 24 (finishes 2000))) ≡ true
join_start-IsOver_example =
    join_start-IsOver deaf self self 1000 0 peer no_handshake (replicate 125 0) stats begun
      (replicate 24 (finishes 2000)) begins (omega arith)

-- Twenty bytes of a stranger, in a frame of type 4.
abbrev stray : List ℕ
stray = 7 ∷ 0 ∷ 4 ∷ 0 ∷ 1 ∷ 0 ∷ 2 ∷ 0 ∷ 0 ∷ 1 ∷ replicate 115 3

PlainAck-links_example :
    (t' : Talk) × (receive deaf self (negsuc 59) 5000 stray 30 begun
      ≡ links t' (unpack (replicate 20 3)) false)
    × (t'.neigh.keys ≡ begun.neigh.keys)
PlainAck-links_example =
    PlainAck-links deaf self (negsuc 59) 5000 stray (replicate 20 3) begun refl
      (refl, refl, refl, refl)

-- The answers to the same request, before and after.
first : Talk
first = (handle_resume_req self (replicate 8 6) talk).0

second : Talk
second = (handle_resume_req self (replicate 8 6) first).0

resume_again_example :
    (second.neigh.link_key ≡ first.neigh.link_key)
    × (nonce_build 1 (second.neigh.tx_ctr + 1) ≡ nonce_build 1 (first.neigh.tx_ctr + 1))
    × (first.neigh.tx_ctr ≡ 0)
    × (second.neigh.tx_ctr ≡ 0)
    × (second.neigh.rx_ctr ≡ 0)
    × (second.neigh.replay_mask ≡ 0)
    × (first.neigh.ltk ≡ talk.neigh.ltk)
unfolding first second handle_resume_req derive_resume_key install install_key put_message kdf fixed
resume_again_example =
    resume_again self params (replicate 8 6) talk first first second refl refl refl refl

-- A joiner of address 1 and a router of address 2, whose certificates say so.
abbrev cert : ℕ → ℕ → List ℕ
cert addr role = addr ∷ 0 ∷ role ∷ replicate 137 0

abbrev drawn : ℕ → Drawn
drawn x = record {
  nonce = replicate 8 x;
  point = replicate 64 x;
  priv = replicate 32 x;
  id = 5;
  sig = replicate 64 4;
}

abbrev node : ℕ → ℕ → Drawn → Self
node addr role v = record self {
  own = record { cert = cert addr role; priv_key = replicate 32 0; ca_pub = replicate 64 0 };
  addr = addr;
  nonce = some v.nonce;
  pair = some (4 ∷ v.point, v.priv);
}

abbrev side : ℕ → Talk
side addr = record talk { neigh = record zero_neigh { addr = addr } }

claim : ℕ → ℕ → Claim
claim addr role = record { addr = addr; role = role; pub_key = replicate 64 0 }

exchange-Holds_example :
    let joiner = node 1 2 (drawn 8) in
    let router = node 2 1 (drawn 9) in
    (asks joiner (side 2)).1 ≡ some tt
    × (answers joiner router (side 2) (side 1)).1 ≡ some tt
    × (confirms joiner router (side 2) (side 1)).1 ≡ some tt
    × (ends joiner router (side 2) (side 1)).1 ≡ some tt
    × Holds
        (replicate 32 1)
        (replicate 16 2)
        (replicate 16 2)
        (confirms joiner router (side 2) (side 1)).0
    × Holds
        (replicate 32 1)
        (replicate 16 2)
        (replicate 16 2)
        (ends joiner router (side 2) (side 1)).0
    × staged (ends joiner router (side 2) (side 1)).0 ≡ pack params
unfolding fixed claim cert_verify ecdh kdf sign verify transcript_build hash get_le16
exchange-Holds_example =
    exchange-Holds (node 1 2 (drawn 8)) (node 2 1 (drawn 9)) (side 2) (side 1) (drawn 8) (drawn 9)
      (claim 1 2) (claim 2 1) (replicate 32 3) (replicate 32 1) (replicate 16 2) (replicate 16 2)
      (refl, refl, refl, refl, refl) (refl, refl, refl, refl, refl) (refl, refl) (refl, refl)
      (refl, refl, refl) refl refl refl (refl, refl, refl) (refl, refl, refl) refl refl refl refl
      refl refl
