-- ===== src/Chan/Map.antt =====
-- `lg_chan_reevaluate` keeps enough channels in the map.
use lockgrid.Prelude.{
  ℕ, zero, suc, ◌+◌, ◌-◌, ◌^◌, ◌≤◌, ◌<◌, true, false, not, ◌&&◌, ◌||◌, List, [], ◌∷◌, ◌==◌, length,
  ◌≡◌, ◌≢◌, refl, arith, bit_and, bit_or, sym, ◌∙◌,
}
use native.Mathlib.Decide.{ℕ_discrete}
use lockgrid.Prelude.Bits.{
  bit, passes_below, passes_below_at, same, same-eq, has_bit, has_bit-bit, bit-bit_or, bit-bit_and,
  bit-two-pow,
}
use lockgrid.Config.{Config, InRange}
use lockgrid.Chan.{
  chan_count, count_from, map_count, ChanStat, Channels, clear_bit, set_bit, retire, revive, round,
  rounds, reevaluate, init, reset_all, reset_stat,
}

-- Two maps that agree on the bits from `i` on hold as many of them.
count_from-ext :
    (a b i k : ℕ)
    → ((j : ℕ) → i ≤ j → j < i + k → has_bit a j ≡ has_bit b j)
    → count_from a i k ≡ count_from b i k
unfolding count_from
count_from-ext a b i zero h = refl
count_from-ext a b i (suc k) h =
    rw (h i (omega arith) (omega arith))
      (omega (arith, count_from-ext a b (suc i) k (λ j p q. h j (omega arith) (omega arith))))

-- A map with bit `p` cleared holds one channel less, if the bit was set.
count_from-clear :
    (a b p i k : ℕ)
    → i ≤ p
    → p < i + k
    → has_bit a p ≡ true
    → has_bit b p ≡ false
    → ((j : ℕ) → j ≢ p → j < i + k → has_bit a j ≡ has_bit b j)
    → count_from a i k ≡ suc (count_from b i k)
unfolding count_from
count_from-clear a b p i zero lo hi ha hb h = absurd (omega arith)
count_from-clear a b p i (suc k) lo hi ha hb h = elim (ℕ_discrete i p) [
  | yes e ↦
      let rest = count_from-ext a b (suc i) k (λ j l u. h j (omega arith) (omega arith)) in
      ground (arith, rest)
  | no n ↦ ground (
    arith,
    h i n (omega arith),
    count_from-clear a b p (suc i) k (omega arith) (omega arith) ha hb
        (λ j q u. h j q (omega arith)),
  )
]

mask_table :
    passes_below (λ i. passes_below (λ j. same (bit (0xffff - 2 ^ i) j) (not (i == j))) 16) 16
    ≡ true
unfolding passes_below bit
mask_table = refl

mask_bit : (i j : ℕ) → i < 16 → j < 16 → bit (0xffff - 2 ^ i) j ≡ not (i == j)
mask_bit i j hi hj = same-eq _ _ (passes_below_at _ 16 j hj (passes_below_at _ 16 i hi mask_table))

-- Clearing bit `i` changes no other bit.
clear_bit_bit :
    (map i j : ℕ) → i < 16 → j < 16 → has_bit (clear_bit map i) j ≡ (has_bit map j && not (i == j))
unfolding clear_bit
clear_bit_bit map i j hi hj = rw (
  has_bit-bit (bit_and map (0xffff - 2 ^ i)) j,
  has_bit-bit map j,
  bit-bit_and map (0xffff - 2 ^ i) j,
  mask_bit i j hi hj,
)

set_bit_bit : (map i j : ℕ) → has_bit (set_bit map i) j ≡ (has_bit map j || (i == j))
unfolding set_bit
set_bit_bit map i j = rw (
  has_bit-bit (bit_or map (2 ^ i)) j,
  has_bit-bit map j,
  bit-bit_or map (2 ^ i) j,
  bit-two-pow i j,
)

map_count-clear_bit :
    (map i : ℕ) → i < 16 → has_bit map i ≡ true → map_count map ≡ suc (map_count (clear_bit map i))
unfolding map_count
map_count-clear_bit map i h on =
    count_from-clear map (clear_bit map i) i 0 16 (omega arith) (omega arith) on
      (ground (arith, clear_bit_bit map i i h h))
      (λ j n u. ground (arith, clear_bit_bit map i j h (omega arith)))

map_count-set_bit :
    (map i : ℕ) → i < 16 → has_bit map i ≡ false → map_count (set_bit map i) ≡ suc (map_count map)
unfolding map_count
map_count-set_bit map i h off =
    count_from-clear (set_bit map i) map i 0 16 (omega arith) (omega arith)
      (ground (arith, set_bit_bit map i i)) off (λ j n u. ground (arith, set_bit_bit map i j))

-- One round keeps the least number of channels.
round_count :
    (cfg : Config) (map i : ℕ) (cs : ChanStat) (count : ℕ)
    → i < 16
    → cfg.chan_min_good ≤ map_count map
    → cfg.chan_min_good ≤ map_count (round cfg map i cs count).map
unfolding round retire revive
round_count cfg map i cs count h enough =
    ground (arith, map_count-clear_bit map i h, map_count-set_bit map i h)

-- One round changes bit `i` alone, and leaves the channel's mark as the opposite of it.
round_bits :
    (cfg : Config) (map i j : ℕ) (cs : ChanStat) (count : ℕ)
    → i < 16
    → j < 16
    → i ≢ j
    → has_bit (round cfg map i cs count).map j ≡ has_bit map j
unfolding round retire revive
round_bits cfg map i j cs count hi hj n =
    ground (arith, clear_bit_bit map i j hi hj, set_bit_bit map i j)

round_mark :
    (cfg : Config) (map i : ℕ) (cs : ChanStat) (count : ℕ)
    → i < 16
    → cs.blacklisted ≡ not (has_bit map i)
    → let r = round cfg map i cs count in r.stat.blacklisted ≡ not (has_bit r.map i)
unfolding round retire revive
round_mark cfg map i cs count h m = ground (arith, clear_bit_bit map i i h h, set_bit_bit map i i)

-- A channel is marked as blacklisted exactly if its bit of the map is clear.
abbrev pub Marked : ℕ → ℕ → List ChanStat → Type 0
Marked map i [] = Unit {0}
Marked map i (cs ∷ rest) = (cs.blacklisted ≡ not (has_bit map i)) × Marked map (suc i) rest

Marked-ext :
    (a b i : ℕ) (l : List ChanStat)
    → ((j : ℕ) → i ≤ j → j < i + length l → has_bit a j ≡ has_bit b j)
    → Marked a i l
    → Marked b i l
Marked-ext a b i [] h m = tt
Marked-ext a b i (cs ∷ rest) h m = (
  rw (← h i (omega arith) (omega arith)) m.0,
  Marked-ext a b (suc i) rest (λ j p q. h j (omega arith) (omega arith)) m.1,
)

-- What the loop keeps, started at channel index `i`.
record Kept (cfg : Config) (map i : ℕ) (out : List ChanStat × ℕ × ℕ) : Type 0 where
  marked : Marked out.1 i out.0
  enough : cfg.chan_min_good ≤ map_count out.1
  below : (j : ℕ) → j < i → has_bit out.1 j ≡ has_bit map j

rounds-Kept :
    (cfg : Config) (map i : ℕ) (l : List ChanStat) (count : ℕ)
    → i + length l ≤ 16
    → Marked map i l
    → cfg.chan_min_good ≤ map_count map
    → Kept cfg map i (rounds cfg map i l count)
unfolding rounds
rounds-Kept cfg map i [] count h m e = record { marked = tt; enough = e; below = λ j p. refl }
rounds-Kept cfg map i (cs ∷ rest) count h m e =
    let r = round cfg map i cs count in
    let kept =
      rounds-Kept cfg r.map (suc i) rest r.retired (omega arith)
        (Marked-ext map r.map (suc i) rest
          (λ j p q. sym (round_bits cfg map i j cs count (omega arith) (omega arith) (omega arith)))
          m.1)
        (round_count cfg map i cs count (omega arith) e) in
    record {
      marked = (
        rw (kept.below i (omega arith)) (round_mark cfg map i cs count (omega arith) m.0),
        kept.marked,
      );
      enough = kept.enough;
      below = λ j p.
          kept.below j (omega arith)
          ∙ round_bits cfg map i j cs count (omega arith) (omega arith) (omega arith);
    }

-- What holds of the channels between two evaluations.
pub record IsValid (cfg : Config) (c : Channels) : Type 0 where
  pub all_there : length c.chan ≡ chan_count
  pub enough : cfg.chan_min_good ≤ map_count c.chan_map
  pub marked : Marked c.chan_map 0 c.chan

length-rounds :
    (cfg : Config) (map i : ℕ) (l : List ChanStat) (count : ℕ)
    → length (rounds cfg map i l count).0 ≡ length l
unfolding rounds
length-rounds cfg map i [] count = refl
length-rounds cfg map i (cs ∷ rest) count =
    let r = round cfg map i cs count in
    omega (arith, length-rounds cfg r.map (suc i) rest r.retired)

-- From a valid state `lg_chan_reevaluate` goes to a valid one: the map keeps the configured least
-- number of channels, and the marks agree with it. The map is what the sixteen rounds leave: the
-- fall-back to the four preferred channels does not happen.
pub reevaluate-IsValid :
    (cfg : Config) (c : Channels)
    → IsValid cfg c
    → IsValid cfg (reevaluate cfg c).0
      × ((reevaluate cfg c).0.chan_map ≡ (rounds cfg c.chan_map 0 c.chan c.channels_blacklisted).1)
unfolding reevaluate
reevaluate-IsValid cfg c v =
    let out = rounds cfg c.chan_map 0 c.chan c.channels_blacklisted in
    let kept =
      rounds-Kept cfg c.chan_map 0 c.chan c.channels_blacklisted (omega (arith, v.all_there))
        v.marked v.enough in
    ground (
      arith,
      kept.enough,
      kept.marked,
      length-rounds cfg c.chan_map 0 c.chan c.channels_blacklisted,
      v.all_there,
    )

full_table : passes_below (has_bit 0xffff) 16 ≡ true
unfolding passes_below has_bit
full_table = refl

full_count : map_count 0xffff ≡ 16
unfolding map_count count_from has_bit
full_count = refl

reset_all-Marked : (i : ℕ) (l : List ChanStat) → i + length l ≤ 16 → Marked 0xffff i (reset_all l)
unfolding reset_all reset_stat
reset_all-Marked i [] h = tt
reset_all-Marked i (cs ∷ rest) h = (
  ground (arith, passes_below_at (has_bit 0xffff) 16 i (omega arith) full_table),
  reset_all-Marked (suc i) rest (omega arith),
)

length-reset_all : (l : List ChanStat) → length (reset_all l) ≡ length l
unfolding reset_all
length-reset_all [] = refl
length-reset_all (cs ∷ rest) = omega (arith, length-reset_all rest)

-- `lg_chan_init` makes sixteen channels valid, under any configuration in range.
init-IsValid :
    (cfg : Config) (now : ℕ) (c : Channels)
    → InRange cfg
    → length c.chan ≡ chan_count
    → IsValid cfg (init cfg now c)
unfolding init
init-IsValid cfg now c r h = record {
  all_there = omega (arith, length-reset_all c.chan, h);
  enough = omega (arith, full_count, r.min_good_range);
  marked = reset_all-Marked 0 c.chan (omega (arith, h));
}
