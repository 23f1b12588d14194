-- ===== src/Prelude/Lists.antt =====
-- C arrays as lists with native indices.
use Prim.Native.Nat.{ℕ, zero, suc, ◌+◌, ◌<◌, ◌≤◌}
use mathlib.Core.Path.{◌≡◌, refl, ap, sym, ◌∙◌}
use mathlib.Core.Logic.{◌≢◌}
use mathlib.Core.List.{List, [], ◌∷◌, ◌++◌}
use mathlib.Core.Option.{Option, none, some}
use native.Mathlib.Omega.{arith}

module _ {ℓ} {A : Type ℓ} where
  abbrev pub length : List A → ℕ
  length [] = 0
  length (x ∷ xs) = suc (length xs)

  abbrev pub get_elem? : List A → ℕ → Option A
  get_elem? [] i = none
  get_elem? (x ∷ xs) zero = some x
  get_elem? (x ∷ xs) (suc i) = get_elem? xs i

  abbrev pub get_or : List A → ℕ → A → A
  get_or [] i d = d
  get_or (x ∷ xs) zero d = x
  get_or (x ∷ xs) (suc i) d = get_or xs i d

  -- A write out of bounds changes nothing.
  abbrev pub set : List A → ℕ → A → List A
  set [] i v = []
  set (x ∷ xs) zero v = v ∷ xs
  set (x ∷ xs) (suc i) v = x ∷ set xs i v

  abbrev pub replicate : ℕ → A → List A
  replicate zero a = []
  replicate (suc n) a = a ∷ replicate n a

module _ {ℓ} {A : Type ℓ} where
  pub length-append : (xs ys : List A) → length (xs ++ ys) ≡ length xs + length ys
  length-append [] ys = omega arith
  length-append (x ∷ xs) ys = omega (arith, length-append xs ys)

  pub length-set : (xs : List A) (i : ℕ) (v : A) → length (set xs i v) ≡ length xs
  length-set [] i v = refl
  length-set (x ∷ xs) zero v = refl
  length-set (x ∷ xs) (suc i) v = ap suc (length-set xs i v)

  pub get_or-set_self :
      (xs : List A) (i : ℕ) (v d : A) → i < length xs → get_or (set xs i v) i d ≡ v
  get_or-set_self [] i v d h = absurd (omega arith)
  get_or-set_self (x ∷ xs) zero v d h = refl
  get_or-set_self (x ∷ xs) (suc i) v d h = get_or-set_self xs i v d (omega arith)

  pub get_or-set_ne :
      (xs : List A) (i j : ℕ) (v d : A) → i ≢ j → get_or (set xs i v) j d ≡ get_or xs j d
  get_or-set_ne [] i j v d h = refl
  get_or-set_ne (x ∷ xs) zero zero v d h = absurd (h refl)
  get_or-set_ne (x ∷ xs) zero (suc j) v d h = refl
  get_or-set_ne (x ∷ xs) (suc i) zero v d h = refl
  get_or-set_ne (x ∷ xs) (suc i) (suc j) v d h = get_or-set_ne xs i j v d (λ e. h (ap suc e))

  pub length-replicate : (n : ℕ) (a : A) → length (replicate n a) ≡ n
  length-replicate zero a = refl
  length-replicate (suc n) a = ap suc (length-replicate n a)

-- Every element has the property.
abbrev pub All {ℓ κ} : {A : Type ℓ} → (A → Type κ) → List A → Type κ
All P [] = Unit
All P (x ∷ xs) = P x × All P xs

pub get_or_beyond {ℓ} :
    {A : Type ℓ} (xs : List A) (i : ℕ) (d : A) → length xs ≤ i → get_or xs i d ≡ d
get_or_beyond [] i d h = refl
get_or_beyond (x ∷ xs) zero d h = absurd (omega arith)
get_or_beyond (x ∷ xs) (suc i) d h = get_or_beyond xs i d (omega arith)

module _ {ℓ} {A : Type ℓ} where
  abbrev pub take : ℕ → List A → List A
  take zero xs = []
  take (suc n) [] = []
  take (suc n) (x ∷ xs) = x ∷ take n xs

  abbrev pub drop : ℕ → List A → List A
  drop zero xs = xs
  drop (suc n) [] = []
  drop (suc n) (x ∷ xs) = drop n xs

  -- The n elements from an offset on, `&p[off]` with a length.
  abbrev pub slice : List A → ℕ → ℕ → List A
  slice p off n = take n (drop off p)

  -- `memcpy(&p[off], src, length src)`; what would not fit is not written.
  abbrev pub write_at : List A → ℕ → List A → List A
  write_at [] off src = []
  write_at (x ∷ p) zero [] = x ∷ p
  write_at (x ∷ p) zero (s ∷ src) = s ∷ write_at p zero src
  write_at (x ∷ p) (suc off) src = x ∷ write_at p off src

  take-nil : (n : ℕ) → take n [] ≡ []
  take-nil zero = refl
  take-nil (suc n) = refl

  pub take-split : (a b : ℕ) (p : List A) → take (a + b) p ≡ take a p ++ slice p a b
  take-split zero b p = let whole : 0 + b ≡ b = omega arith in rw whole refl
  take-split (suc a) b [] =
      let shift : suc a + b ≡ suc (a + b) = omega arith in rw (shift, take-nil b)
  take-split (suc a) b (x ∷ p) =
      let shift : suc a + b ≡ suc (a + b) = omega arith in
      rw shift (ap (λ t. x ∷ t) (take-split a b p))

  pub length-slice : (p : List A) (off n : ℕ) → off + n ≤ length p → length (slice p off n) ≡ n
  length-slice p zero zero h = refl
  length-slice [] zero (suc n) h = absurd (omega arith)
  length-slice (x ∷ p) zero (suc n) h = ap suc (length-slice p zero n (omega arith))
  length-slice [] (suc off) n h = absurd (omega arith)
  length-slice (x ∷ p) (suc off) n h = length-slice p off n (omega arith)

  pub length-write_at :
      (p : List A) (off : ℕ) (src : List A) → length (write_at p off src) ≡ length p
  length-write_at [] off src = refl
  length-write_at (x ∷ p) zero [] = refl
  length-write_at (x ∷ p) zero (s ∷ src) = ap suc (length-write_at p zero src)
  length-write_at (x ∷ p) (suc off) src = ap suc (length-write_at p off src)

  -- What was written is read back.
  pub slice-write_at :
      (p : List A) (off : ℕ) (src : List A)
      → off + length src ≤ length p
      → slice (write_at p off src) off (length src) ≡ src
  slice-write_at p zero [] h = refl
  slice-write_at [] zero (s ∷ src) h = absurd (omega arith)
  slice-write_at (x ∷ p) zero (s ∷ src) h =
      ap (λ t. s ∷ t) (slice-write_at p zero src (omega arith))
  slice-write_at [] (suc off) src h = absurd (omega arith)
  slice-write_at (x ∷ p) (suc off) src h = slice-write_at p off src (omega arith)

  -- What lies before the offset stays.
  pub take-write_at :
      (p : List A) (n off : ℕ) (src : List A) → n ≤ off → take n (write_at p off src) ≡ take n p
  take-write_at p zero off src h = refl
  take-write_at [] (suc n) off src h = refl
  take-write_at (x ∷ p) (suc n) zero src h = absurd (omega arith)
  take-write_at (x ∷ p) (suc n) (suc off) src h =
      ap (λ t. x ∷ t) (take-write_at p n off src (omega arith))

  pub get_or-take : (p : List A) (n j : ℕ) (d : A) → j < n → get_or p j d ≡ get_or (take n p) j d
  get_or-take p zero j d h = absurd (omega arith)
  get_or-take [] (suc n) j d h = refl
  get_or-take (x ∷ p) (suc n) zero d h = refl
  get_or-take (x ∷ p) (suc n) (suc j) d h = get_or-take p n j d (omega arith)

  pub take-set : (p : List A) (n i : ℕ) (v : A) → take n (set p i v) ≡ set (take n p) i v
  take-set p zero i v = refl
  take-set [] (suc n) i v = refl
  take-set (x ∷ p) (suc n) zero v = refl
  take-set (x ∷ p) (suc n) (suc i) v = ap (λ t. x ∷ t) (take-set p n i v)

  pub take-take : (p : List A) (n m : ℕ) → n ≤ m → take n (take m p) ≡ take n p
  take-take p zero m h = refl
  take-take [] (suc n) zero h = refl
  take-take [] (suc n) (suc m) h = refl
  take-take (x ∷ p) (suc n) zero h = absurd (omega arith)
  take-take (x ∷ p) (suc n) (suc m) h = ap (λ t. x ∷ t) (take-take p n m (omega arith))

  pub slice-prefix :
      (p q : List A) (off n : ℕ)
      → take (off + n) p ≡ take (off + n) q
      → slice p off n ≡ slice q off n
  slice-prefix p q off n e = slice-drop p off n ∙ ap (λ t. drop off t) e ∙ sym (slice-drop q off n)
    where
      slice-drop : (r : List A) (a b : ℕ) → slice r a b ≡ drop a (take (a + b) r)
      slice-drop r zero b = let whole : 0 + b ≡ b = omega arith in rw whole refl
      slice-drop [] (suc a) b =
          let shift : suc a + b ≡ suc (a + b) = omega arith in rw (shift, take-nil b) refl
      slice-drop (x ∷ r) (suc a) b =
          let shift : suc a + b ≡ suc (a + b) = omega arith in rw shift (slice-drop r a b)

  pub take-append : (xs ys : List A) → take (length xs) (xs ++ ys) ≡ xs
  take-append [] ys = refl
  take-append (x ∷ xs) ys = ap (λ t. x ∷ t) (take-append xs ys)
