-- ===== src/Join/Agree/Fields.antt =====
-- subsys/lockgrid/lg_join.c: the fields of the first messages of the handshake, as the handlers cut them.
use lockgrid.Prelude.{
  ℕ, zero, suc, ◌+◌, ◌≡◌, refl, ap, sym, ◌∙◌, List, [], ◌∷◌, ◌++◌, length, slice, take, drop, arith,
  length-append, take-append,
}

take-front : (xs ys : List ℕ) (n : ℕ) → length xs ≡ n → take n (xs ++ ys) ≡ xs
take-front xs ys n e = rw (sym e) (take-append xs ys)

append-nil : (xs : List ℕ) → xs ++ [] ≡ xs
append-nil [] = refl
append-nil (x ∷ xs) = ap (λ t. x ∷ t) (append-nil xs)

take_whole : (xs : List ℕ) (n : ℕ) → length xs ≡ n → take n xs ≡ xs
take_whole xs n e = ap (λ p. take n p) (sym (append-nil xs)) ∙ take-front xs [] n e

drop-append : (xs ys : List ℕ) → drop (length xs) (xs ++ ys) ≡ ys
drop-append [] ys = refl
drop-append (x ∷ xs) ys = drop-append xs ys

drop-front : (xs ys : List ℕ) (n : ℕ) → length xs ≡ n → drop n (xs ++ ys) ≡ ys
drop-front xs ys n e = rw (sym e) (drop-append xs ys)

append_assoc : (xs ys zs : List ℕ) → (xs ++ ys) ++ zs ≡ xs ++ (ys ++ zs)
append_assoc [] ys zs = refl
append_assoc (x ∷ xs) ys zs = ap (λ t. x ∷ t) (append_assoc xs ys zs)

drop-drop : (p : List ℕ) (a b : ℕ) → drop b (drop a p) ≡ drop (a + b) p
drop-drop p zero b = let whole : 0 + b ≡ b = omega arith in rw whole refl
drop-drop [] (suc a) zero = let shift : suc a + 0 ≡ suc a = omega arith in rw shift refl
drop-drop [] (suc a) (suc b) =
    let shift : suc a + suc b ≡ suc (a + suc b) = omega arith in rw shift refl
drop-drop (x ∷ p) (suc a) b =
    let shift : suc a + b ≡ suc (a + b) = omega arith in rw shift (drop-drop p a b)

-- The fields of a first message.
module _ (nonce point cert tail : List ℕ) (a : length nonce ≡ 8) (b : length point ≡ 64)
    (c : length cert ≡ 140) where
  abbrev pub whole : List ℕ
  whole = nonce ++ (point ++ (cert ++ tail))

  after_nonce : drop 8 whole ≡ point ++ (cert ++ tail)
  after_nonce = drop-front nonce (point ++ (cert ++ tail)) 8 a

  after_point : drop 72 whole ≡ cert ++ tail
  after_point =
      sym (drop-drop whole 8 64)
      ∙ ap (λ p. drop 64 p) after_nonce
      ∙ drop-front point (cert ++ tail) 64 b

  pub after_cert : drop 212 whole ≡ tail
  after_cert =
      sym (drop-drop whole 72 140) ∙ ap (λ p. drop 140 p) after_point ∙ drop-front cert tail 140 c

  pub fields :
      (slice whole 0 8 ≡ nonce)
      × (slice whole 8 64 ≡ point)
      × (slice whole 72 140 ≡ cert)
      × (length whole ≡ 212 + length tail)
  fields = (
    take-front nonce (point ++ (cert ++ tail)) 8 a,
    ap (λ p. take 64 p) after_nonce ∙ take-front point (cert ++ tail) 64 b,
    ap (λ p. take 140 p) after_point ∙ take-front cert tail 140 c,
    length_lem,
  )
    where
      length_lem : length whole ≡ 212 + length tail
      length_lem =
          rw
            (
              length-append nonce (point ++ (cert ++ tail)),
              length-append point (cert ++ tail),
              length-append cert tail,
            )
            (omega arith)

-- The same, where nothing follows.
pub fields_only :
    (nonce point cert : List ℕ)
    → length nonce ≡ 8
    → length point ≡ 64
    → length cert ≡ 140
    → let p = nonce ++ (point ++ cert) in
      (slice p 0 8 ≡ nonce) × (slice p 8 64 ≡ point) × (slice p 72 140 ≡ cert) × (length p ≡ 212)
fields_only nonce point cert a b c = rw (append-nil cert) at (fields nonce point cert [] a b c)

-- The same, where a signature follows.
pub fields_signed :
    (nonce point cert sig : List ℕ)
    → length nonce ≡ 8
    → length point ≡ 64
    → length cert ≡ 140
    → length sig ≡ 64
    → let p = (nonce ++ (point ++ cert)) ++ sig in
      (slice p 0 8 ≡ nonce)
      × (slice p 8 64 ≡ point)
      × (slice p 72 140 ≡ cert)
      × (slice p 212 64 ≡ sig)
      × (length p ≡ 276)
fields_signed nonce point cert sig a b c d =
    let f = fields nonce point cert sig a b c in
    let cut : slice (whole nonce point cert sig a b c) 212 64 ≡ sig =
      ap (λ p. take 64 p) (after_cert nonce point cert sig a b c) ∙ take_whole sig 64 d in
    let long : length (whole nonce point cert sig a b c) ≡ 276 = f.3 ∙ ap (λ n. 212 + n) d in
    rw (append_assoc nonce (point ++ cert) sig, append_assoc point cert sig)
      (f.0, f.1, f.2, cut, long)
