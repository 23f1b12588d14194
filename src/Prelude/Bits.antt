-- ===== src/Prelude/Bits.antt =====
-- Facts about the bit operations at variables, by the digit recursion.
use Prim.Native.Nat.{
  ℕ, zero, suc, ◌+◌, ◌*◌, ◌/◌, ◌%◌, ◌^◌, ◌≤◌, ◌<◌, ◌-◌, min, max, bit_and, bit_or, digits, bitwise,
  bit_and-bitwise, bit_or-bitwise,
}
use mathlib.Core.Path.{◌≡◌, refl, ap, sym, ◌∙◌}
use mathlib.Core.Bool.{Bool, true, false, not, ◌&&◌, ◌||◌}
use native.Mathlib.Nat.{
  le_refl, pow-suc, one-le-pow, div-add-mod, mod-lt, mod-eq_of_lt, mul-add-mod_self_left,
}
use native.Mathlib.Omega.{arith}
use lockgrid.Prelude.Tests.{◌==◌, leb}

-- The lowest digit of a native operation that works digit by digit, `e` where the left number has
-- run out and `op` before that.
module _ (e : ℕ → ℕ) (op : ℕ → ℕ → ℕ) where
  run_out : (fuel y : ℕ) → digits e op fuel 0 y ≡ e y
  run_out zero y = refl
  run_out (suc k) y = refl

  -- More fuel than the left number changes nothing.
  spare : (k x y extra : ℕ) → x ≤ k → digits e op (extra + k) x y ≡ digits e op k x y
  spare k zero y extra p = run_out (extra + k) y ∙ sym (run_out k y)
  spare zero (suc x) y extra p = absurd (omega arith)
  spare (suc k) (suc x) y extra p =
      let shift : extra + suc k ≡ suc (extra + k) = omega arith in
      rw (shift, spare k (suc x / 2) (y / 2) extra (omega arith))

  lowest :
      (x y : ℕ)
      → bitwise e op (suc x) y ≡ op (suc x % 2) (y % 2) + 2 * bitwise e op (suc x / 2) (y / 2)
  lowest x y =
      let h = suc x / 2 in
      let whole : x - h + h ≡ x = omega arith in
      let more = spare h h (y / 2) (x - h) (le_refl h) in
      omega (arith, ap (λ (n : ℕ). digits e op n h (y / 2)) (sym whole) ∙ more)

bit_or_step : (a b : ℕ) → bit_or a b ≡ bit_or (a / 2) (b / 2) * 2 + max (a % 2) (b % 2)
bit_or_step zero b = rw (bit_or-bitwise 0 b, bit_or-bitwise 0 (b / 2)) (omega arith)
bit_or_step (suc a) b =
    omega
      (arith, bit_or-bitwise (suc a) b, bit_or-bitwise (suc a / 2) (b / 2), lowest (λ y. y) max a b)

bit_and_step : (a b : ℕ) → bit_and a b ≡ bit_and (a / 2) (b / 2) * 2 + min (a % 2) (b % 2)
bit_and_step zero b = rw (bit_and-bitwise 0 b, bit_and-bitwise 0 (b / 2)) (omega arith)
bit_and_step (suc a) b =
    omega (
      arith,
      bit_and-bitwise (suc a) b,
      bit_and-bitwise (suc a / 2) (b / 2),
      lowest (λ y. 0) min a b,
    )

-- Bit k of m.
unfoldable pub bit : ℕ → ℕ → Bool
bit m zero = m % 2 == 1
bit m (suc k) = bit (m / 2) k

-- The C test `m & BIT(k)`.
unfoldable pub has_bit : ℕ → ℕ → Bool
has_bit m k = not (bit_and m (2 ^ k) == 0)

bit_or-half : (a b : ℕ) → bit_or a b / 2 ≡ bit_or (a / 2) (b / 2)
bit_or-half a b = omega (arith, bit_or_step a b)

bit_and-half : (a b : ℕ) → bit_and a b / 2 ≡ bit_and (a / 2) (b / 2)
bit_and-half a b = omega (arith, bit_and_step a b)

two-pow-suc : (k : ℕ) → 2 ^ suc k ≡ 2 * 2 ^ k
two-pow-suc k = omega (arith, pow-suc 2 k)

two-pow-half : (k : ℕ) → 2 ^ suc k / 2 ≡ 2 ^ k
two-pow-half k = omega (arith, two-pow-suc k)

shl-suc : (m s : ℕ) → m * 2 ^ suc s ≡ 2 * (m * 2 ^ s)
shl-suc m s = omega (arith, ap (λ (t : ℕ). m * t) (two-pow-suc s))

shl-half : (m s : ℕ) → m * 2 ^ suc s / 2 ≡ m * 2 ^ s
shl-half m s = omega (arith, shl-suc m s)

split_double : (m p : ℕ) → m ≡ 2 * (p * (m / (2 * p))) + m % (2 * p)
split_double m p = omega (arith, div-add-mod m (2 * p))

mod-half : (m p : ℕ) → 0 < p → m % (2 * p) / 2 ≡ m / 2 % p
mod-half m p h =
    let q = m / (2 * p) in
    let r = m % (2 * p) in
    let e : m / 2 ≡ p * q + r / 2 = omega (arith, split_double m p) in
    rw (e, mul-add-mod_self_left p q (r / 2))
      (sym (mod-eq_of_lt (omega (arith, mod-lt m {m = 2 * p} (omega arith)))))

mod-parity : (m p : ℕ) → m % (2 * p) % 2 ≡ m % 2
mod-parity m p = omega (arith, split_double m p)

pub bit-bit_or : (a b k : ℕ) → bit (bit_or a b) k ≡ (bit a k || bit b k)
unfolding bit
bit-bit_or a b zero = ground (arith, bit_or_step a b)
bit-bit_or a b (suc k) = rw (bit_or-half a b) (bit-bit_or (a / 2) (b / 2) k)

pub bit-zero : (k : ℕ) → bit 0 k ≡ false
unfolding bit
bit-zero zero = refl
bit-zero (suc k) = bit-zero k

pub bit-two-pow : (j k : ℕ) → bit (2 ^ j) k ≡ (j == k)
unfolding bit
bit-two-pow zero zero = refl
bit-two-pow zero (suc k) = rw (bit-zero k) (ground arith)
bit-two-pow (suc j) zero = ground (arith, two-pow-suc j)
bit-two-pow (suc j) (suc k) = rw (two-pow-half j, bit-two-pow j k) (ground arith)

bit_and-zero_left : (b : ℕ) → bit_and 0 b ≡ 0
bit_and-zero_left b = bit_and-bitwise 0 b

-- Nothing in common with zero.
cleared : (digit_count m : ℕ) → m ≤ digit_count → bit_and m 0 ≡ 0
cleared k zero small = refl
cleared zero (suc m) small = absurd (omega arith)
cleared (suc k) (suc m) small =
    let halved = cleared k (suc m / 2) (omega arith) in
    omega (arith, halved, bit_and_step (suc m) 0)

pub has_bit-bit : (m k : ℕ) → has_bit m k ≡ bit m k
unfolding bit has_bit
has_bit-bit m zero = ground (arith, bit_and_step m 1, cleared (m / 2) (m / 2) (omega arith))
has_bit-bit m (suc k) =
    ground (arith, bit_and_step m (2 ^ suc k), two-pow-suc k, two-pow-half k, has_bit-bit (m / 2) k)

-- A shift to the left within w bits.
pub bit-shl : (s m k : ℕ) → bit (m * 2 ^ s) k ≡ (leb s k && bit m (k - s))
unfolding bit
bit-shl zero m k = ground arith
bit-shl (suc s) m zero = ground (arith, shl-suc m s)
bit-shl (suc s) m (suc k) = rw (shl-half m s, bit-shl s m k) (ground arith)

pub bit-mod : (w m k : ℕ) → k < w → bit (m % 2 ^ w) k ≡ bit m k
unfolding bit
bit-mod zero m k h = absurd (omega arith)
bit-mod (suc w) m zero h = rw (two-pow-suc w, mod-parity m (2 ^ w))
bit-mod (suc w) m (suc k) h = rw (
  two-pow-suc w,
  mod-half m (2 ^ w) (one-le-pow w 2 (omega arith)),
  bit-mod w (m / 2) k (omega arith),
)

bit_or-zero_fuel : (n a : ℕ) → a ≤ n → bit_or 0 a ≡ a
bit_or-zero_fuel n zero h = refl
bit_or-zero_fuel zero (suc a) h = absurd (omega arith)
bit_or-zero_fuel (suc n) (suc a) h =
    omega (arith, bit_or_step 0 (suc a), bit_or-zero_fuel n (suc a / 2) (omega arith))

-- `r | (q << k)` is a sum when `r` fits `k` bits.
pub bit_or_fields : (k q r : ℕ) → r < 2 ^ k → bit_or r (q * 2 ^ k) ≡ r + q * 2 ^ k
bit_or_fields zero q r h =
    let e : r ≡ 0 = omega arith in
    rw (e, bit_or-zero_fuel (q * 1) (q * 1) (omega arith)) (omega arith)
bit_or_fields (suc k) q r h = omega (
  arith,
  bit_or_step r (q * 2 ^ suc k),
  shl-suc q k,
  shl-half q k,
  two-pow-suc k,
  ap (λ (t : ℕ). bit_or (r / 2) t) (shl-half q k),
  bit_or_fields k q (r / 2) (omega (arith, two-pow-suc k)),
)

pub bit-bit_and : (a b k : ℕ) → bit (bit_and a b) k ≡ (bit a k && bit b k)
unfolding bit
bit-bit_and a b zero = ground (arith, bit_and_step a b)
bit-bit_and a b (suc k) = rw (bit_and-half a b) (bit-bit_and (a / 2) (b / 2) k)

-- A test that passes at each of the first numbers.
unfoldable pub passes_below : (ℕ → Bool) → ℕ → Bool
passes_below test zero = true
passes_below test (suc m) = passes_below test m && test m

pub passes_below_at :
    (test : ℕ → Bool) (m i : ℕ) → i < m → passes_below test m ≡ true → test i ≡ true
unfolding passes_below
passes_below_at test zero i small h = absurd (omega arith)
passes_below_at test (suc m) i small h = ground (arith, passes_below_at test m i)

abbrev pub same : Bool → Bool → Bool
same true b = b
same false b = not b

pub same-eq : (a b : Bool) → same a b ≡ true → a ≡ b
same-eq a b h = ground arith
