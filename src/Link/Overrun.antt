-- ===== src/Link/Overrun.antt =====
-- What the 16-bit event number does to a link that lives longer than 65535 intervals.
use lockgrid.Prelude.{ℕ, zero, suc, ◌+◌, ◌*◌, ◌<◌, ◌≤◌, ◌≡◌, refl, arith, none, lt→ltb}
use lockgrid.Types.{Schedule, u32}
use lockgrid.Link.{counter_of, anchor_set, next_active, to_next, catch_up_loop}

product-le : (a b i : ℕ) → a ≤ b → a * i ≤ b * i
product-le a b i h = grind arith

pub same_limit :
    (s : Schedule) (limit : ℕ)
    → s.epoch_us + 65535 * s.interval_us < limit
    → (to_next s).epoch_us + 65535 * (to_next s).interval_us < limit
unfolding to_next anchor_set
same_limit s limit h = h

pub overrun_step :
    (s : Schedule) (limit : ℕ)
    → s.epoch_us + 65535 * s.interval_us < limit
    → (to_next s).anchor_us < limit
unfolding to_next anchor_set next_active
overrun_step s limit h =
    let t = next_active s (counter_of s) in
    let small : t ≤ 65535 = omega arith in omega (arith, product-le t 65535 s.interval_us small)

-- Once the limit has passed the last event that a 16-bit number can name, the catch-up loop never
-- ends: it returns nothing on any fuel, whatever the counter and the subrate.
pub catch_up_loop-overrun :
    (fuel limit : ℕ) (s : Schedule) (skipped : ℕ)
    → s.anchor_us < limit
    → s.epoch_us + 65535 * s.interval_us < limit
    → catch_up_loop fuel limit s skipped ≡ none
unfolding catch_up_loop
catch_up_loop-overrun zero limit s skipped early over = refl
catch_up_loop-overrun (suc fuel) limit s skipped early over = rw (lt→ltb _ _ early) (
    catch_up_loop-overrun fuel limit (to_next s) (u32 (skipped + 1)) (overrun_step s limit over)
      (same_limit s limit over))
