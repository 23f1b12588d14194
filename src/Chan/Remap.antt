-- ===== src/Chan/Remap.antt =====
-- The hop sequence stays on the channels of the map and can reach each of them.
use native.Mathlib.Nat.{mod-lt, mod-eq_of_lt}
use lockgrid.Prelude.{
  ℕ, zero, suc, ◌+◌, ◌-◌, ◌%◌, ◌≤◌, ◌<◌, true, List, [], ◌∷◌, ◌==◌, if◌then◌else◌, get_or,
  get_or_beyond, length, ◌≡◌, ◌≢◌, refl, arith, Bool-cases, inl, inr,
}
use lockgrid.Prelude.Bits.{has_bit}
use lockgrid.Chan.{chan_first, chan_last, chan_count, count_from, map_count, remap_loop, remap, hop}

-- The channels of the map with index `i` to `i + k - 1`, in increasing order.
pub channels_from : ℕ → ℕ → ℕ → List ℕ
channels_from map i zero = []
channels_from map i (suc k) =
    let rest = channels_from map (suc i) k in
    if has_bit map i then (chan_first + i) ∷ rest else rest

pub channels : ℕ → List ℕ
channels map = channels_from map 0 chan_count

count_from-length : (map i k : ℕ) → count_from map i k ≡ length (channels_from map i k)
unfolding count_from channels_from
count_from-length map i zero = refl
count_from-length map i (suc k) = ground (arith, count_from-length map (suc i) k)

get_or-pred :
    (x : ℕ) (xs : List ℕ) (i d : ℕ)
    → get_or (x ∷ xs) i d ≡ (if i == 0 then x else get_or xs (i - 1) d)
get_or-pred x xs zero d = refl
get_or-pred x xs (suc i) d = ground arith

remap_loop_lem :
    (k i seen map index : ℕ)
    → seen ≤ index
    → remap_loop k i seen map index ≡ get_or (channels_from map i k) (index - seen) chan_first
unfolding remap_loop channels_from
remap_loop_lem zero i seen map index h = refl
remap_loop_lem (suc k) i seen map index h = elim (Bool-cases (has_bit map i)) [
  | inl on ↦ rw on (
      ground (
        arith,
        remap_loop_lem k (suc i) (seen + 1) map index,
        get_or-pred (chan_first + i) (channels_from map (suc i) k) (index - seen) chan_first,
      ))
  | inr off ↦ rw off (remap_loop_lem k (suc i) seen map index h)
]

-- The map's channel that an index selects: the one at that place in increasing order, counted
-- round and round, and channel 11 for an empty map.
pub remap_lem :
    (map index : ℕ)
    → remap map index ≡ get_or (channels map) (index % length (channels map)) chan_first
unfolding remap channels map_count
remap_lem map index = ground (
  arith,
  count_from-length map 0 chan_count,
  get_or_beyond (channels_from map 0 chan_count) (index % length (channels_from map 0 chan_count))
      chan_first,
  remap_loop_lem chan_count 0 0 map (index % count_from map 0 chan_count) (omega arith),
)

-- A place of the list holds a channel of the map.
abbrev OnMap : ℕ → ℕ → ℕ → ℕ → Type 0
OnMap map i k c =
    (chan_first + i ≤ c) × (c < chan_first + i + k) × (has_bit map (c - chan_first) ≡ true)

cons-OnMap :
    (map i k j : ℕ) (xs : List ℕ)
    → has_bit map i ≡ true
    → ((j : ℕ) → j < length xs → OnMap map (suc i) k (get_or xs j chan_first))
    → j < suc (length xs)
    → OnMap map i (suc k) (get_or ((chan_first + i) ∷ xs) j chan_first)
cons-OnMap map i k zero xs on rest h =
    let e : chan_first + i - chan_first ≡ i = omega arith in (omega arith, omega arith, rw e on)
cons-OnMap map i k (suc j) xs on rest h =
    let r = rest j (omega arith) in (omega (arith, r.0), omega (arith, r.1), r.2)

channels_from-OnMap :
    (map i k j : ℕ)
    → j < length (channels_from map i k)
    → OnMap map i k (get_or (channels_from map i k) j chan_first)
unfolding channels_from
channels_from-OnMap map i zero j h = absurd (omega arith)
channels_from-OnMap map i (suc k) j h = elim (Bool-cases (has_bit map i)) [
  | inl on ↦ rw on (
      cons-OnMap map i k j (channels_from map (suc i) k) on (channels_from-OnMap map (suc i) k)
        (rw on at h))
  | inr off ↦
      let r = channels_from-OnMap map (suc i) k j (rw off at h) in
      rw off (omega (arith, r.0), omega (arith, r.1), r.2)
]

remap-OnMap : (map index : ℕ) → map_count map ≢ 0 → OnMap map 0 chan_count (remap map index)
unfolding map_count channels
remap-OnMap map index h = rw (remap_lem map index) (
    channels_from-OnMap map 0 chan_count (index % length (channels_from map 0 chan_count))
      (mod-lt index (omega (arith, count_from-length map 0 chan_count))))

-- On a map with a channel, whatever the seed and the event counter, a hop lands on a channel from
-- 11 to 26 whose bit in the map is set.
pub hop_on_map :
    (map seed counter : ℕ)
    → map_count map ≢ 0
    → (chan_first ≤ hop map seed counter)
      × (hop map seed counter ≤ chan_last)
      × (has_bit map (hop map seed counter - chan_first) ≡ true)
unfolding hop
hop_on_map map seed counter h =
    let r = remap-OnMap map _ h in (omega (arith, r.0), omega (arith, r.1), r.2)

channels_from-place :
    (map i k j p : ℕ)
    → j < k
    → p ≡ i + j
    → has_bit map p ≡ true
    → (count_from map i j < length (channels_from map i k))
      × (get_or (channels_from map i k) (count_from map i j) chan_first ≡ chan_first + p)
unfolding channels_from count_from
channels_from-place map i zero j p h e on = absurd (omega arith)
channels_from-place map i (suc k) zero p h e on =
    let e' : p ≡ i = omega arith in
    let on' : has_bit map i ≡ true = rw e' at on in rw on' (omega arith, omega arith)
channels_from-place map i (suc k) (suc j) p h e on = ground (
  arith,
  channels_from-place map (suc i) k j p (omega arith) (omega arith) on,
  get_or-pred (chan_first + i) (channels_from map (suc i) k) (1 + count_from map (suc i) j)
      chan_first,
)

-- Each channel of a map is the one that some index below the number of channels selects.
remap_reaches :
    (map i : ℕ)
    → i < chan_count
    → has_bit map i ≡ true
    → (count_from map 0 i < map_count map) × (remap map (count_from map 0 i) ≡ chan_first + i)
unfolding map_count channels
remap_reaches map i h on =
    let r = channels_from-place map 0 chan_count i i h (omega arith) on in
    let small = mod-eq_of_lt r.0 in
    (
      omega (arith, r.0, count_from-length map 0 chan_count),
      rw (remap_lem map (count_from map 0 i), small) (r.1),
    )
