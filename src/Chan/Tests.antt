-- ===== src/Chan/Tests.antt =====
-- subsys/lockgrid/lg_chan.c: tests of the hop sequence and the map, and the theorems at concrete
-- maps and statistics.
use lockgrid.Prelude.{
  ℕ, ◌-◌, ◌%◌, ◌≤◌, true, false, replicate, ◌≡◌, refl, arith, All, get_or, length,
}
use lockgrid.Prelude.Bits.{has_bit}
use lockgrid.Prelude.Int.{negsuc}
use lockgrid.Config.{default_config}
use lockgrid.Chan.{
  chan_first, chan_last, ChanStat, Channels, count_from, map_count, remap_loop, remap, hop, result,
  rounds, reevaluate,
}
use lockgrid.Chan.Remap.{channels, remap_lem, hop_on_map}
use lockgrid.Chan.Map.{Marked, IsValid, reevaluate-IsValid}
use lockgrid.Chan.Stats.{InBounds, result-InBounds}

-- The channels 15, 20, 25 and 26.
abbrev wifi_gaps : ℕ
wifi_gaps = 0xc210

remap_test : remap wifi_gaps 6 ≡ 25
unfolding remap map_count count_from remap_loop has_bit
remap_test = refl

gaps-count : map_count wifi_gaps ≡ 4
unfolding map_count count_from has_bit
gaps-count = refl

remap_lem_example :
    remap wifi_gaps 6 ≡ get_or (channels wifi_gaps) (6 % length (channels wifi_gaps)) chan_first
remap_lem_example = remap_lem wifi_gaps 6

hop_on_map_example :
    (chan_first ≤ hop wifi_gaps 0x3a5c 77)
    × (hop wifi_gaps 0x3a5c 77 ≤ chan_last)
    × (has_bit wifi_gaps (hop wifi_gaps 0x3a5c 77 - chan_first) ≡ true)
hop_on_map_example = hop_on_map wifi_gaps 0x3a5c 77 (omega (arith, gaps-count))

-- A channel on which twenty of forty frames were lost.
abbrev lossy : ChanStat
lossy = record {
  frames_ok = 20;
  frames_bad = 20;
  per_permille = 500;
  noise_dbm = negsuc 89;
  blacklisted = false;
  probing = false;
  last_eval_us = 0;
}

abbrev all_lossy : Channels
all_lossy = record {
  chan = replicate 16 lossy;
  chan_map = 0xffff;
  next_chan_eval_us = 0;
  channels_blacklisted = 0;
  chan_map_updates = 0;
}

all_lossy-count : map_count 0xffff ≡ 16
unfolding map_count count_from has_bit
all_lossy-count = refl

all_lossy-Marked : Marked 0xffff 0 all_lossy.chan
unfolding has_bit
all_lossy-Marked = ground arith

all_lossy-IsValid : IsValid default_config all_lossy
all_lossy-IsValid = record {
  all_there = refl;
  enough = omega (arith, all_lossy-count);
  marked = all_lossy-Marked;
}

reevaluate-IsValid_example :
    IsValid default_config (reevaluate default_config all_lossy).0
    × ((reevaluate default_config all_lossy).0.chan_map
        ≡ (rounds default_config 0xffff 0 all_lossy.chan 0).1)
reevaluate-IsValid_example = reevaluate-IsValid default_config all_lossy all_lossy-IsValid

All-lossy-InBounds : All InBounds all_lossy.chan
All-lossy-InBounds = omega arith

result-InBounds_example : All InBounds (result all_lossy 20 false).chan
result-InBounds_example = result-InBounds all_lossy 20 false All-lossy-InBounds
