-- ===== src/Link/Agree.antt =====
-- The next event of a link, as the two ends compute it.
use native.Mathlib.Decide.{dec_lt}
use native.Mathlib.Nat.{mod-eq_of_lt, add-mod_right, add-mul}
use lockgrid.Prelude.{◌-◌, ◌≤◌, ◌↔◌, sym, ap, ◌∙◌, ℕ, ◌+◌, ◌*◌, ◌%◌, ◌<◌, ◌≡◌, arith, some}
use lockgrid.Types.{Schedule}
use lockgrid.Link.{counter_of, step_of, catch_up_loop}
use lockgrid.Link.Counter.{At, counter_of-At}
use lockgrid.Link.CatchUp.{
  HasRoom, IsFirst, catch_up_loop-Caught, IsFirst-unique, times_mono, Caught-grid,
}

-- Two schedules of one link: the same epoch, interval and subrate, whatever each end skipped.
pub record OneLink (s t : Schedule) : Type 0 where
  pub epoch : s.epoch_us ≡ t.epoch_us
  pub interval : s.interval_us ≡ t.interval_us
  pub subrate : s.subrate ≡ t.subrate

IsFirst-OneLink :
    (s t : Schedule) (limit c : ℕ) → OneLink s t → IsFirst t limit c → IsFirst s limit c
IsFirst-OneLink s t limit c o f = record {
  active = rw o.subrate f.active;
  late_enough = rw (o.epoch, o.interval) f.late_enough;
  not_later = rw (o.epoch, o.interval, o.subrate) f.not_later;
}

-- No active event falls between the two limits.
abbrev pub SameGap : Schedule → ℕ → ℕ → Type 0
SameGap s limit limit' =
    (x : ℕ)
    → x % step_of s ≡ 0
    → (limit ≤ s.epoch_us + x * s.interval_us) ↔ (limit' ≤ s.epoch_us + x * s.interval_us)

multiple_before : (k e : ℕ) → 0 < k → e % k ≡ 0 → 0 < e → (k ≤ e) × ((e - k) % k ≡ 0)
multiple_before k e pos m some_e =
    let le : k ≤ e = elim (dec_lt e k) [
      | yes l ↦ absurd (omega (arith, mod-eq_of_lt l, m))
      | no n ↦ omega arith
    ] in
    let whole : e - k + k ≡ e = omega arith in
    (le, sym (add-mod_right (e - k) k) ∙ ap (λ (x : ℕ). x % k) whole ∙ m)

-- The first active event for one limit is that for the other.
IsFirst-SameGap :
    (s : Schedule) (limit limit' c e : ℕ)
    → SameGap s limit limit'
    → s.epoch_us + c * s.interval_us < limit + step_of s * s.interval_us
    → IsFirst s limit' e
    → IsFirst s limit e
IsFirst-SameGap s limit limit' c e gap near f = record {
  active = f.active;
  late_enough = (gap e f.active).1 f.late_enough;
  not_later = elim (dec_lt 0 e) [
    | no n ↦ omega (arith, near, times_mono s.epoch_us s.interval_us e c (omega arith))
    | yes pos ↦
        let k = step_of s in
        let before = multiple_before k e (omega arith) f.active pos in
        let whole : e - k + k ≡ e = omega (arith, before.0) in
        let times : e * s.interval_us ≡ (e - k) * s.interval_us + k * s.interval_us =
          ap (λ (x : ℕ). x * s.interval_us) (sym whole) ∙ add-mul (e - k) k s.interval_us in
        elim (dec_lt (s.epoch_us + e * s.interval_us) (limit + k * s.interval_us)) [
          | yes l ↦ l
          | no n ↦
              absurd
                (omega (arith, times, f.not_later, (gap (e - k) before.1).0 (omega (arith, times))))
        ]
  ];
}

-- Two ends of one link, each with a limit of its own, such that no active event of the link falls between
-- the limits. Standing at any two active events that are not past their limits by a whole step, with
-- room and fuel, they catch up to the same event at the same time, that of the event on the grid of the
-- epoch, however many events each of them skipped. Nothing of a schedule changes but its anchor and its
-- event number. Both read one clock.
pub catch_up_agrees :
    (fuel limit limit' c d m m' : ℕ) (s t : Schedule) (skipped skipped' : ℕ)
    → OneLink s t
    → SameGap s limit limit'
    → At s c
    → At t d
    → c % step_of s ≡ 0
    → d % step_of t ≡ 0
    → HasRoom s limit m
    → HasRoom t limit' m'
    → s.anchor_us < limit + step_of s * s.interval_us
    → t.anchor_us < limit' + step_of t * t.interval_us
    → m < fuel
    → m' < fuel
    → (e : ℕ) × (s' t' : Schedule) × (i j : ℕ) × (catch_up_loop fuel limit s skipped ≡ some (s', i))
      × (catch_up_loop fuel limit' t skipped' ≡ some (t', j))
      × (counter_of s' ≡ e)
      × (counter_of t' ≡ e)
      × (s' ≡ record s { anchor_us = s.epoch_us + e * s.interval_us; counter = s'.counter })
      × (t' ≡ record t { anchor_us = s.epoch_us + e * s.interval_us; counter = t'.counter })
catch_up_agrees fuel limit limit' c d m m' s t skipped skipped' o gap a b act act' room room' near
      near' f f' =
    let x =
      catch_up_loop-Caught fuel limit c m s skipped a act room near (omega arith) (omega arith) in
    let y =
      catch_up_loop-Caught fuel limit' d m' t skipped' b act' room' near' (omega arith)
        (omega arith) in
    let first =
      IsFirst-SameGap s limit limit' c y.event gap (omega (arith, a.anchored))
        (IsFirst-OneLink s t limit' y.event o y.first) in
    let same = IsFirst-unique s limit x.event y.event x.first first in
    let grid : y.final
        ≡ record t { anchor_us = s.epoch_us + x.event * s.interval_us; counter = y.final.counter } =
      rw (same, o.epoch, o.interval) (Caught-grid t limit' _ y) in
    (
      x.event,
      x.final,
      y.final,
      x.skips,
      y.skips,
      x.returned,
      y.returned,
      counter_of-At x.final x.event x.at,
      counter_of-At y.final y.event y.at ∙ sym same,
      Caught-grid s limit _ x,
      grid,
    )
