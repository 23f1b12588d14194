-- ===== src/Chan.antt =====
-- subsys/lockgrid/lg_chan.c: channel statistics, the channel map and the hop sequence.
-- `lg.chan`, `lg.chan_map` and the two counters of `lg.stats` that this file writes are one record.
mod Tests
pub mod Remap
pub mod Map
pub mod Stats
use lockgrid.Prelude.{
  ℕ, zero, suc, ◌+◌, ◌-◌, ◌*◌, ◌/◌, ◌%◌, ◌^◌, ◌≤◌, ◌<◌, bit_and, bit_or, bit_xor, Bool, true, false,
  not, ◌&&◌, ◌||◌, List, [], ◌∷◌, ltb, leb, ◌==◌, if◌then◌else◌, get_elem?, set, replicate, Option,
  none, some,
}
use lockgrid.Prelude.Bits.{has_bit}
use lockgrid.Prelude.Int.{ℤ, pos, eqb_ℤ, ltb_ℤ}
use lockgrid.Types.{u8, u16, u32, u64, int8_min, ewma, to_i8}
use lockgrid.Config.{Config}

abbrev pub chan_first : ℕ
chan_first = 11

abbrev pub chan_last : ℕ
chan_last = 26

abbrev pub chan_count : ℕ
chan_count = 16

-- LG_CHAN_MIN_SAMPLES, LG_CHAN_DECAY_AT
abbrev pub min_samples : ℕ
min_samples = 12

abbrev pub decay_at : ℕ
decay_at = 64

-- LG_CHAN_PREFERRED_MASK: channels 15, 20, 25 and 26.
abbrev pub preferred_mask : ℕ
preferred_mask = 0xc210

pub record ChanStat : Type 0 where
  pub frames_ok : ℕ
  pub frames_bad : ℕ
  pub per_permille : ℕ
  pub noise_dbm : ℤ
  pub blacklisted : Bool
  pub probing : Bool
  pub last_eval_us : ℕ

pub record Channels : Type 0 where
  pub chan : List ChanStat
  pub chan_map : ℕ
  pub next_chan_eval_us : ℕ
  pub channels_blacklisted : ℕ
  pub chan_map_updates : ℕ

reset_stat : ChanStat → ChanStat
reset_stat cs = record cs {
  noise_dbm = int8_min;
  per_permille = 0;
  blacklisted = false;
  frames_ok = 0;
  frames_bad = 0;
}

reset_all : List ChanStat → List ChanStat
reset_all [] = []
reset_all (cs ∷ rest) = reset_stat cs ∷ reset_all rest

-- `lg_chan_init`
unfoldable pub init : Config → ℕ → Channels → Channels
unfolding reset_all reset_stat
init cfg now c = record c {
  chan = reset_all c.chan;
  chan_map = 2 ^ chan_count - 1;
  next_chan_eval_us = u64 (now + cfg.chan_eval_period_ms * 1000);
}

-- The bits that are set among the next `k`, from bit `i` on.
unfoldable pub count_from : ℕ → ℕ → ℕ → ℕ
count_from map i zero = 0
count_from map i (suc k) = (if has_bit map i then 1 else 0) + count_from map (suc i) k

-- `lg_chan_map_count`
unfoldable pub map_count : ℕ → ℕ
map_count map = count_from map 0 chan_count

-- The loop of `lg_chan_remap`: `k` rounds are left, of which the next looks at bit `i`.
unfoldable pub remap_loop : ℕ → ℕ → ℕ → ℕ → ℕ → ℕ
remap_loop zero i seen map index = chan_first
remap_loop (suc k) i seen map index =
    let rest = remap_loop k (suc i) (if has_bit map i then seen + 1 else seen) map index in
    if has_bit map i && (seen == index) then chan_first + i else rest

-- `lg_chan_remap`
unfoldable pub remap : ℕ → ℕ → ℕ
remap map index =
    let n = map_count map in
    if n == 0 then chan_first else remap_loop chan_count 0 0 map (index % n)

-- `csa_permute`, on an `uint16_t`.
unfoldable pub csa_permute : ℕ → ℕ
csa_permute v =
    let a = u16 (bit_or (bit_and v 0xaaaa / 2 ^ 1) (bit_and v 0x5555 * 2 ^ 1)) in
    let b = u16 (bit_or (bit_and a 0xcccc / 2 ^ 2) (bit_and a 0x3333 * 2 ^ 2)) in
    let c = u16 (bit_or (bit_and b 0xf0f0 / 2 ^ 4) (bit_and b 0x0f0f * 2 ^ 4)) in
    u16 (bit_or (c / 2 ^ 8) (c * 2 ^ 8))

unfoldable pub csa_mam : ℕ → ℕ → ℕ
csa_mam a b = u16 (17 * a + b)

unfoldable pub mix16 : ℕ → ℕ
mix16 x =
    let a = u16 (bit_xor x (x / 2 ^ 8) * 0x2b9d) in
    let b = u16 (bit_xor a (a / 2 ^ 7) * 0x1b2d) in bit_xor b (b / 2 ^ 9)

unfoldable pub hop_round : ℕ → ℕ → ℕ
hop_round prn seed = csa_mam (csa_permute prn) seed

-- `lg_chan_hop`
unfoldable pub hop : ℕ → ℕ → ℕ → ℕ
hop map seed counter =
    let prn = hop_round (hop_round (hop_round (bit_xor counter seed) seed) seed) seed in
    remap map (mix16 (bit_xor prn seed))

-- One outcome on one channel: the counters are `uint16_t`, their sum an `int`.
pub count_result : ChanStat → Bool → ChanStat
count_result cs ok =
    let good = if ok then u16 (cs.frames_ok + 1) else cs.frames_ok in
    let bad = if ok then cs.frames_bad else u16 (cs.frames_bad + 1) in
    let halve = leb decay_at (good + bad) in
    let good' = if halve then good / 2 else good in
    let bad' = if halve then bad / 2 else bad in
    let total = good' + bad' in
    record cs {
      frames_ok = good';
      frames_bad = bad';
      per_permille = if total == 0 then cs.per_permille else u16 (u32 (bad' * 1000) / total);
    }

pub update : List ChanStat → ℕ → (ChanStat → ChanStat) → List ChanStat
update [] i f = []
update (cs ∷ rest) zero f = f cs ∷ rest
update (cs ∷ rest) (suc i) f = cs ∷ update rest i f

in_band : ℕ → Bool
in_band chan = leb chan_first chan && leb chan chan_last

-- `lg_chan_result`
unfoldable pub result : Channels → ℕ → Bool → Channels
unfolding count_result update in_band
result c chan ok =
    if in_band chan
    then record c { chan = update c.chan (chan - chan_first) (λ cs. count_result cs ok) }
    else c

note_noise : ℕ → ℤ → ChanStat → ChanStat
note_noise now dbm cs = record cs {
  noise_dbm = if eqb_ℤ cs.noise_dbm int8_min then dbm else to_i8 (ewma cs.noise_dbm dbm true);
  last_eval_us = now;
}

-- `lg_chan_noise`
unfoldable pub noise : ℕ → Channels → ℕ → ℤ → Channels
unfolding note_noise update in_band
noise now c chan dbm =
    if in_band chan && not (eqb_ℤ dbm int8_min)
    then record c { chan = update c.chan (chan - chan_first) (note_noise now dbm) }
    else c

-- `lg_chan_next_eval`: the channel, and the static counter after the call.
unfoldable pub next_eval : ℕ → ℕ × ℕ
next_eval next = (chan_first + next % chan_count, u8 (next + 1))

-- The body of the loop of `lg_chan_reevaluate`, for channel index `i`: the map, the channel's
-- statistics and the count of retirements after it.
pub record Round : Type 0 where
  pub map : ℕ
  pub stat : ChanStat
  pub retired : ℕ

unfoldable pub is_noisy : Config → ChanStat → Bool
is_noisy cfg cs = not (eqb_ℤ cs.noise_dbm int8_min) && ltb_ℤ cfg.chan_noise_floor_dbm cs.noise_dbm

unfoldable pub is_errored : Config → ChanStat → Bool
is_errored cfg cs =
    leb min_samples (cs.frames_ok + cs.frames_bad) && leb cfg.chan_bad_per_permille cs.per_permille

-- `map & ~BIT(i)` on an `uint16_t`, and `map | BIT(i)`.
unfoldable pub clear_bit : ℕ → ℕ → ℕ
clear_bit map i = bit_and map (0xffff - 2 ^ i)

unfoldable pub set_bit : ℕ → ℕ → ℕ
set_bit map i = bit_or map (2 ^ i)

unfoldable pub retire : Config → ℕ → ℕ → ChanStat → ℕ → Round
retire cfg map i cs count =
    if (is_errored cfg cs || is_noisy cfg cs) && ltb cfg.chan_min_good (map_count map)
    then record {
      map = clear_bit map i;
      stat = record cs { blacklisted = true; probing = false };
      retired = u32 (count + 1);
    }
    else record { map = map; stat = cs; retired = count }

unfoldable pub revive : Config → ℕ → ℕ → ChanStat → ℕ → Round
revive cfg map i cs count =
    if not (is_noisy cfg cs) && (not (eqb_ℤ cs.noise_dbm int8_min) || cs.probing)
    then if ltb (cs.frames_ok + cs.frames_bad) min_samples
        || leb cs.per_permille cfg.chan_good_per_permille
      then record {
        map = set_bit map i;
        stat = record cs {
          blacklisted = false;
          probing = false;
          frames_ok = 0;
          frames_bad = 0;
          per_permille = 0;
        };
        retired = count;
      }
      else record {
        map = map;
        stat = record cs { probing = true; frames_ok = 0; frames_bad = 0 };
        retired = count;
      }
    else record { map = map; stat = cs; retired = count }

unfoldable pub round : Config → ℕ → ℕ → ChanStat → ℕ → Round
round cfg map i cs count =
    if has_bit map i then retire cfg map i cs count else revive cfg map i cs count

-- The loop, from channel index `i` on.
unfoldable pub rounds : Config → ℕ → ℕ → List ChanStat → ℕ → List ChanStat × ℕ × ℕ
rounds cfg map i [] count = ([], map, count)
rounds cfg map i (cs ∷ rest) count =
    let r = round cfg map i cs count in
    let (done, map', count') = rounds cfg r.map (suc i) rest r.retired in
    (r.stat ∷ done, map', count')

-- `lg_chan_reevaluate`
unfoldable pub reevaluate : Config → Channels → Channels × Bool
reevaluate cfg c =
    let (done, map, count) = rounds cfg c.chan_map 0 c.chan c.channels_blacklisted in
    let final = if ltb (map_count map) cfg.chan_min_good then preferred_mask else map in
    let c' = record c { chan = done; chan_map = final; channels_blacklisted = count } in
    if final == c.chan_map
    then (c', false)
    else (record c' { chan_map_updates = u32 (c.chan_map_updates + 1) }, true)
