-- ===== src/Sec/Nonce.antt =====
-- subsys/lockgrid/lg_sec.c: the nonce of a frame.
use lockgrid.Prelude.{ℕ, ◌<◌, ◌^◌, ◌≡◌, sym, ap, ◌∙◌, List, replicate, set}
use lockgrid.Frame.{put_le16, put_le32, get_le16, get_le32}
use lockgrid.Frame.RoundTrip.{word16, word32}

-- LG_CCM_NONCE_LEN, LG_NONCE_FORMAT_V1
abbrev pub nonce_len : ℕ
nonce_len = 13

abbrev pub nonce_format : ℕ
nonce_format = 1

-- `nonce_build`
unfoldable pub nonce_build : ℕ → ℕ → List ℕ
nonce_build src ctr = put_le32 (set (put_le16 (replicate nonce_len 0) 0 src) 2 nonce_format) 3 ctr

nonce-src : (src ctr : ℕ) → src < 2 ^ 16 → get_le16 (nonce_build src ctr) 0 ≡ src
unfolding nonce_build put_le32 put_le16 get_le16
nonce-src src ctr h = word16 src h

nonce-ctr : (src ctr : ℕ) → ctr < 2 ^ 32 → get_le32 (nonce_build src ctr) 3 ≡ ctr
unfolding nonce_build put_le32 put_le16 get_le32
nonce-ctr src ctr h = word32 ctr h

-- Nonces that are equal were built for the same source address and the same counter, for all
-- addresses of 16 bits and counters of 32.
pub nonce_build-injective :
    (src src' ctr ctr' : ℕ)
    → src < 2 ^ 16
    → src' < 2 ^ 16
    → ctr < 2 ^ 32
    → ctr' < 2 ^ 32
    → nonce_build src ctr ≡ nonce_build src' ctr'
    → (src ≡ src') × (ctr ≡ ctr')
nonce_build-injective src src' ctr ctr' a b c d e = (
  sym (nonce-src src ctr a) ∙ ap (λ n. get_le16 n 0) e ∙ nonce-src src' ctr' b,
  sym (nonce-ctr src ctr c) ∙ ap (λ n. get_le32 n 3) e ∙ nonce-ctr src' ctr' d,
)
