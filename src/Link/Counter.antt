-- ===== src/Link/Counter.antt =====
-- Event numbers and anchors determine each other.
use native.Mathlib.Nat.{
  mul-add-div_right, div-eq_of_lt, mod-eq_of_lt, div-add-mod', add-mul, one-mul,
}
use lockgrid.Prelude.{ℕ, ◌+◌, ◌-◌, ◌*◌, ◌/◌, ◌%◌, ◌^◌, ◌≤◌, ◌<◌, ◌≡◌, arith}
use lockgrid.Types.{Schedule}
use lockgrid.Link.{counter_of, anchor_set, next_active, step_of, to_next, reanchor, shift_epoch}

rounded : (c i : ℕ) → 0 < i → (c * i + i / 2) / i ≡ c
rounded c i h =
    rw (mul-add-div_right h c (i / 2), div-eq_of_lt {n = i / 2} {m = i} (omega arith)) (omega arith)

-- The schedule stands at event `c`.
pub record At (s : Schedule) (c : ℕ) : Type 0 where
  pub running : 0 < s.interval_us
  pub anchored : s.anchor_us ≡ s.epoch_us + c * s.interval_us
  pub word : c < 2 ^ 16

pub counter_of-At : (s : Schedule) (c : ℕ) → At s c → counter_of s ≡ c
unfolding counter_of
counter_of-At s c a =
    let e : s.anchor_us - s.epoch_us ≡ c * s.interval_us = omega (arith, a.anchored) in
    rw (e, counter_of)
      (ground (arith, rounded c s.interval_us a.running, a.running, a.anchored, a.word))

pub anchor_set-At :
    (s : Schedule) (c : ℕ)
    → 0 < s.interval_us
    → c < 2 ^ 16
    → s.epoch_us + c * s.interval_us < 2 ^ 64
    → At (anchor_set s c) c
unfolding anchor_set
anchor_set-At s c r w f = record { running = r; anchored = mod-eq_of_lt f; word = w }

pub next_active_lem :
    (s : Schedule) (c : ℕ)
    → c % step_of s ≡ 0
    → c + step_of s < 2 ^ 16
    → next_active s c ≡ c + step_of s
unfolding next_active
next_active_lem s c m h =
    let k = step_of s in
    let e : (c / k + 1) * k ≡ c + k =
      omega (arith, div-add-mod' c k, add-mul (c / k) 1 k, one-mul k) in
    rw e (mod-eq_of_lt h)

-- From an active event the schedule goes to the next active one.
pub to_next-At :
    (s : Schedule) (c : ℕ)
    → At s c
    → c % step_of s ≡ 0
    → c + step_of s < 2 ^ 16
    → s.epoch_us + (c + step_of s) * s.interval_us < 2 ^ 64
    → At (to_next s) (c + step_of s)
unfolding to_next
to_next-At s c a m h f =
    rw (counter_of-At s c a, next_active_lem s c m h)
      (anchor_set-At s (c + step_of s) a.running h f)

-- A responder that moves its anchor to a measured frame moves the epoch with it, so the event
-- number, on which the channel depends, stays what it was. The measured error is less than 2 ^ 31
-- microseconds either way, and no time wraps.
pub reanchor-counter_of :
    (s : Schedule) (air_start : ℕ)
    → s.epoch_us ≤ s.anchor_us
    → s.anchor_us < 2 ^ 63
    → s.anchor_us ≤ s.epoch_us + air_start
    → air_start < s.anchor_us + 2 ^ 31
    → s.anchor_us ≤ air_start + 2 ^ 31
    → counter_of (reanchor s s.anchor_us air_start) ≡ counter_of s
unfolding reanchor shift_epoch counter_of
reanchor-counter_of s air_start le fit later near near' =
    let e : shift_epoch s.epoch_us s.anchor_us air_start ≡ s.epoch_us + air_start - s.anchor_us =
      ground arith in
    let d : air_start - (s.epoch_us + air_start - s.anchor_us) ≡ s.anchor_us - s.epoch_us =
      omega arith in
    rw (e, shift_epoch) (ground (arith, d, e))
