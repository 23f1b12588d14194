-- ===== src/Core/Tests.antt =====
-- subsys/lockgrid/lg_core.c: a tuning that asks for too much, a ring whose counters wrap, and the
-- theorems there.
use lockgrid.Prelude.{
  ℕ, ◌*◌, ◌-◌, ◌^◌, ◌≤◌, ◌≡◌, ◌⊎◌, refl, arith, [], ◌∷◌, ◌++◌, none, some, leb, if◌then◌else◌,
  length,
}
use lockgrid.Config.{default_config, default_config-InRange}
use lockgrid.Core.{Tune, tuning_set, subrate_ceiling}
use lockgrid.Core.Tuning.{tuning_set_lem}
use lockgrid.Core.Ring.{ring_size, Ring, post, take}
use lockgrid.Core.Ring.Fifo.{IsRing, entries, queue, post-queue, take-queue}

-- Half a second of supervision for links of a second.
abbrev greedy : Tune
greedy = record {
  conn_interval_us = 1000000;
  subrate_max = 40;
  sup_timeout_us = 500000;
  scan_unattached_us = 0;
  scan_seeking_us = 0;
  scan_attached_us = 0;
  scan_window_us = 30000;
  beacon_interval_us = 0;
  beacon_idle_factor = 0;
  join_window_floor_us = 0;
}

tuning_set_test : (tuning_set default_config greedy).subrate_max ≡ 1
unfolding tuning_set subrate_ceiling
tuning_set_test = refl

tuning_set_lem_example :
    ((tuning_set default_config greedy).subrate_max
        * ((tuning_set default_config greedy).conn_interval_us * 3)
      ≤ (tuning_set default_config greedy).sup_timeout_us)
    × (1 ≤ (tuning_set default_config greedy).subrate_max)
    × ((tuning_set default_config greedy).subrate_max ≤ 32)
    × ((tuning_set default_config greedy).conn_interval_us * 4
        ≤ (tuning_set default_config greedy).sup_timeout_us)
    × ((tuning_set default_config greedy).scan_window_us
        ≤ (tuning_set default_config greedy).scan_unattached_us)
    × ((tuning_set default_config greedy).scan_window_us
        ≤ (tuning_set default_config greedy).scan_seeking_us)
    × ((tuning_set default_config greedy).scan_window_us
        ≤ (tuning_set default_config greedy).scan_attached_us)
tuning_set_lem_example = tuning_set_lem default_config greedy default_config-InRange

-- A ring with two entries, between the last place and the first, where the counters wrap.
abbrev wrapping : Ring ℕ
wrapping = record { places = 20 ∷ 0 ∷ 0 ∷ 0 ∷ 0 ∷ 0 ∷ 0 ∷ 10 ∷ []; head = 1; tail = 2 ^ 32 - 1 }

wrapping-IsRing : IsRing wrapping
wrapping-IsRing = record { size = refl; words = omega arith; room = omega arith }

queue_test : queue 0 wrapping ≡ 10 ∷ 20 ∷ []
unfolding queue entries
queue_test = refl

post-queue_example :
    (queue 0 (post wrapping 30) ≡ (
      if leb ring_size (length (queue 0 wrapping))
      then queue 0 wrapping
      else queue 0 wrapping ++ (30 ∷ [])))
    × IsRing (post wrapping 30)
post-queue_example = post-queue 0 wrapping 30 wrapping-IsRing

take-queue_example :
    ((take 0 wrapping ≡ none) × (queue 0 wrapping ≡ []))
    ⊎ ((x : ℕ) × (r' : Ring ℕ) × (take 0 wrapping ≡ some (x, r'))
        × (queue 0 wrapping ≡ x ∷ queue 0 r')
        × IsRing r')
take-queue_example = take-queue 0 wrapping wrapping-IsRing
