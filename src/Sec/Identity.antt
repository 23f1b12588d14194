-- ===== src/Sec/Identity.antt =====
-- subsys/lockgrid/lg_sec.c: hashes, derived keys, elliptic curves, certificates, and the key of a link.
-- `Psa` is what the code calls of PSA Crypto, which is not part of it. A result of `none` is an error
-- number.
use Prim.Native.String.{String}
use lockgrid.Prelude.{
  ℕ, ◌+◌, Bool, true, false, not, ◌&&◌, ◌||◌, List, [], ◌∷◌, ◌++◌, Option, none, some, ◌==◌,
  if◌then◌else◌, length, slice, drop, get_or, replicate,
}
use lockgrid.Types.{Keys, addr_invalid, addr_broadcast, addr_backhaul}
use lockgrid.Frame.{get_le16}

-- The calls, `none` for any status but PSA_SUCCESS: SHA-256 of the bytes that the updates feed, HKDF of a
-- secret, a salt and a label, ECDH of a private key and a point, ECDSA signatures of a hash, the import
-- of a point as a public key and of the bytes of an AES key, with its identifier.
pub record Psa : Type 0 where
  pub hash : List ℕ → Option (List ℕ)
  pub hkdf : List ℕ → List ℕ → String → Option (List ℕ)
  pub agree : List ℕ → List ℕ → Option (List ℕ)
  pub sign_hash : List ℕ → List ℕ → Option (List ℕ)
  pub takes_point : List ℕ → Bool
  pub verify_hash : List ℕ → List ℕ → List ℕ → Bool
  pub import_aes : List ℕ → Option ℕ

-- What a node is given: its certificate, its private key and the public key of the authority. A null
-- pointer is the empty list.
pub record Credentials : Type 0 where
  pub cert : List ℕ
  pub priv_key : List ℕ
  pub ca_pub : List ℕ

-- LG_EC_PUB_LEN, LG_EC_PRIV_LEN, LG_SIG_LEN, LG_HASH_LEN, LG_KEY_LEN, LG_NONCE_LEN
abbrev pub ec_pub_len : ℕ
ec_pub_len = 64

abbrev pub ec_priv_len : ℕ
ec_priv_len = 32

abbrev pub sig_len : ℕ
sig_len = 64

abbrev pub hash_len : ℕ
hash_len = 32

abbrev pub key_len : ℕ
key_len = 16

abbrev pub nonce_len : ℕ
nonce_len = 8

-- LG_CERT_BODY_LEN, LG_CERT_LEN
abbrev pub cert_body_len : ℕ
cert_body_len = 2 + 1 + 1 + 4 + 4 + ec_pub_len

abbrev pub cert_len : ℕ
cert_len = cert_body_len + sig_len

unfoldable pub concat : List (List ℕ) → List ℕ
concat [] = []
concat (p ∷ ps) = p ++ concat ps

-- `lg_sec_hash`
unfoldable pub hash : Psa → List (List ℕ) → Option (List ℕ)
hash psa parts = psa.hash (concat parts)

-- `lg_sec_kdf`
unfoldable pub kdf : Psa → List ℕ → List ℕ → String → Option (List ℕ)
kdf psa secret salt info = psa.hkdf secret salt info

-- `lg_sec_ecdh_keypair`, for the point and the private key of a key that was generated.
unfoldable pub keypair : Option (List ℕ × List ℕ) → Option (List ℕ × List ℕ)
keypair none = none
keypair (some (point, priv)) =
    if (length point == 65) && (length priv == ec_priv_len) then some (drop 1 point, priv) else none

-- `lg_sec_ecdh`
unfoldable pub ecdh : Psa → List ℕ → List ℕ → Option (List ℕ)
ecdh psa priv peer_pub = elim (psa.agree priv (4 ∷ peer_pub)) [
  | none ↦ none
  | some secret ↦ if length secret == ec_priv_len then some secret else none
]

-- `lg_sec_sign`
unfoldable pub sign : Psa → Credentials → List ℕ → Option (List ℕ)
sign psa own h =
    if not (length own.priv_key == ec_priv_len) then none else elim (psa.sign_hash own.priv_key h) [
      | none ↦ none
      | some sig ↦ if length sig == sig_len then some sig else none
    ]

-- Whether `lg_sec_verify` returns 0.
unfoldable pub verify : Psa → List ℕ → List ℕ → List ℕ → Bool
verify psa pub_key h sig = psa.takes_point (4 ∷ pub_key) && psa.verify_hash (4 ∷ pub_key) h sig

-- What a certificate says.
pub record Claim : Type 0 where
  pub addr : ℕ
  pub role : ℕ
  pub pub_key : List ℕ

abbrev pub reserved : ℕ → Bool
reserved a = (a == addr_invalid) || ((a == addr_broadcast) || (a == addr_backhaul))

-- `lg_sec_cert_verify`
unfoldable pub cert_verify : Psa → Credentials → List ℕ → Option Claim
unfolding hash concat verify
cert_verify psa own cert =
    if not (length cert == cert_len) || not (length own.ca_pub == ec_pub_len)
    then none
    else elim (hash psa (slice cert 0 cert_body_len ∷ [])) [
      | none ↦ none
      | some h ↦
          if not (verify psa own.ca_pub h (slice cert cert_body_len sig_len))
            || reserved (get_le16 cert 0)
          then none
          else some (record {
            addr = get_le16 cert 0;
            role = get_or cert 2 0;
            pub_key = slice cert 12 ec_pub_len;
          })
    ]

-- `lg_sec_install_key`: the keys, and whether it returns 0.
unfoldable pub install_key : Psa → Keys → List ℕ → Keys × Bool
install_key psa k key = elim (psa.import_aes key) [
  | none ↦ (record k { link_key = key; key_id = 0; has_key = false }, false)
  | some id ↦ (
    record k {
      link_key = key;
      key_id = id;
      has_key = true;
      tx_ctr = 0;
      rx_ctr = 0;
      replay_mask = 0;
    },
    true,
  )
]

-- `lg_sec_forget_key`
unfoldable pub forget_key : Keys → Keys
forget_key k = record k { link_key = replicate key_len 0; key_id = 0; has_key = false }
