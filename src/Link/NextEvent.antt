-- ===== src/Link/NextEvent.antt =====
-- `lg_link_next_event_us`, which the scheduler asks of every link.
use native.Mathlib.Nat.{add-mul, div-add-mod', one-mul, mod-eq_of_lt, mul-mod_left, mod-lt}
use lockgrid.Prelude.{
  ℕ, Bool, true, false, if◌then◌else◌, ◌+◌, ◌*◌, ◌/◌, ◌%◌, ◌^◌, ◌≤◌, ◌<◌, ◌≡◌, refl, sym, ◌∙◌,
  arith, ◌==◌, none, some, Bool-cases, inl, inr, ap,
}
use lockgrid.Types.{Schedule, Neigh, linked, u64}
use lockgrid.Config.{Config}
use lockgrid.Link.{
  anchor_set, counter_of, next_active, step_of, to_next, align, window_us, anchor_catch_up,
  next_event_us, sched_lead_us,
}
use lockgrid.Link.Counter.{At, anchor_set-At, counter_of-At}
use lockgrid.Link.CatchUp.{HasRoom, IsFirst, catch_up_loop-Caught, times_mono, Caught-grid}
use lockgrid.Link.Overrun.{catch_up_loop-overrun, overrun_step, same_limit}

-- The time before which an event cannot be used any more.
abbrev pub limit_of : Config → ℕ → Neigh → ℕ
limit_of cfg now n = u64 (now + (sched_lead_us + (window_us cfg now n).0 + 200))

-- Computing the window leaves the schedule alone.
window_us-schedule :
    (cfg : Config) (now : ℕ) (n : Neigh) → (window_us cfg now n).1.schedule ≡ n.schedule
unfolding window_us
window_us-schedule cfg now n = ground arith

align-overrun :
    (s : Schedule) (limit : ℕ)
    → s.anchor_us < limit
    → s.epoch_us + 65535 * s.interval_us < limit
    → ((align s).anchor_us < limit) × ((align s).epoch_us + 65535 * (align s).interval_us < limit)
unfolding align
align-overrun s limit early over =
    ground (arith, overrun_step s limit over, same_limit s limit over)

-- Asked for the next event of a link whose anchor is due, when the last event that a 16-bit number
-- names is due too, `lg_link_next_event_us` does not return: on any fuel the model has no result.
pub next_event_us-overrun :
    (cfg : Config) (fuel now : ℕ) (n : Neigh) (skipped : ℕ)
    → n.state ≡ linked
    → 0 < n.interval_us
    → n.anchor_us < limit_of cfg now n
    → n.epoch_us + 65535 * n.interval_us < limit_of cfg now n
    → next_event_us cfg fuel now n skipped ≡ none
unfolding next_event_us anchor_catch_up
next_event_us-overrun cfg fuel now n skipped l r early over =
    let a = align-overrun n.schedule (limit_of cfg now n) early over in
    ground (
      arith,
      l,
      r,
      window_us-schedule cfg now n,
      catch_up_loop-overrun fuel (limit_of cfg now n) (align n.schedule) skipped a.0 a.1,
    )

room_bound : (e i c m limit : ℕ) → e + c * i ≤ limit → limit ≤ e + m * i → 0 < i → c ≤ m
room_bound e i c m limit h k p = grind arith

-- The event that the alignment lands on.
record Aligned (s : Schedule) (c : ℕ) : Type 0 where
  event : ℕ
  at : At (align s) event
  active : event % step_of s ≡ 0
  from : c ≤ event
  within : event < c + step_of s

later_multiple : (k c : ℕ) → 0 < k → (c < (c / k + 1) * k) × ((c / k + 1) * k + c % k ≡ c + k)
later_multiple k c h =
    let e = div-add-mod' c k in
    let d = add-mul (c / k) 1 k in
    let r = mod-lt c {m = k} h in
    (omega (arith, e, d, one-mul k, r), omega (arith, e, d, one-mul k))

multiple-mod : (q k : ℕ) → q * k % k ≡ 0
multiple-mod q k = mul-mod_left q k

align-Aligned :
    (s : Schedule) (c : ℕ)
    → At s c
    → c + step_of s < 2 ^ 16
    → s.epoch_us + (c + step_of s) * s.interval_us < 2 ^ 64
    → Aligned s c
unfolding align to_next next_active
align-Aligned s c a w f = elim (Bool-cases (c % step_of s == 0)) [
  | inl on ↦
      let e : align s ≡ s = rw (align, counter_of-At s c a, on) in
      record {
        event = c;
        at = rw e a;
        active = ground arith;
        from = omega arith;
        within = omega arith;
      }
  | inr off ↦
      let k = step_of s in
      let t = (c / k + 1) * k in
      let b = later_multiple k c (omega arith) in
      let small = mod-eq_of_lt {n = t} {m = 2 ^ 16} (omega (arith, b.1)) in
      let e : align s ≡ anchor_set s t =
        rw (align, to_next, next_active, counter_of-At s c a, off, small) in
      record {
        event = t;
        at = rw e (
            anchor_set-At s t a.running (omega (arith, b.1)) (
              omega
                (arith, f, times_mono s.epoch_us s.interval_us t (c + k) (omega (arith, b.1)))));
        active = multiple-mod (c / k + 1) k;
        from = omega (arith, b.0);
        within = ground (arith, b.1);
      }
]

align-frame :
    (s : Schedule)
    → (step_of (align s) ≡ step_of s)
      × ((align s).epoch_us ≡ s.epoch_us)
      × ((align s).interval_us ≡ s.interval_us)
unfolding align to_next anchor_set
align-frame s = ground arith

-- The alignment moves nothing but the anchor and the event number.
align_rest :
    (s : Schedule) (a c : ℕ)
    → record (align s) { anchor_us = a; counter = c } ≡ record s { anchor_us = a; counter = c }
unfolding align to_next anchor_set
align_rest s a c = go (counter_of s % step_of s == 0)
  where
    go :
        (b : Bool)
        → record (if b then s else to_next s) { anchor_us = a; counter = c }
          ≡ record s { anchor_us = a; counter = c }
    go true = refl
    go false = refl

IsFirst-frame :
    (s t : Schedule) (limit c : ℕ)
    → (step_of t ≡ step_of s) × (t.epoch_us ≡ s.epoch_us) × (t.interval_us ≡ s.interval_us)
    → IsFirst t limit c
    → IsFirst s limit c
IsFirst-frame s t limit c fr f = record {
  active = ap (λ (x : ℕ). c % x) (sym fr.0) ∙ f.active;
  late_enough = rw (sym fr.1, sym fr.2) f.late_enough;
  not_later = rw (sym fr.0, sym fr.1, sym fr.2) f.not_later;
}

align_near :
    (s t : Schedule) (limit c event : ℕ)
    → At s c
    → At t event
    → (step_of t ≡ step_of s) × (t.epoch_us ≡ s.epoch_us) × (t.interval_us ≡ s.interval_us)
    → event + 1 ≤ c + step_of s
    → s.anchor_us ≤ limit
    → t.anchor_us < limit + step_of t * t.interval_us
align_near s t limit c event a b fr w due = omega (
  arith,
  a.anchored,
  a.running,
  b.anchored,
  ap (λ (x : ℕ). event * x) fr.2,
  fr.0,
  fr.1,
  fr.2,
  times_mono s.epoch_us s.interval_us (event + 1) (c + step_of s) w,
  add-mul c (step_of s) s.interval_us,
  add-mul event 1 s.interval_us,
  one-mul s.interval_us,
  ap (λ (x : ℕ). x * s.interval_us) fr.0,
  ap (λ (x : ℕ). step_of t * x) fr.2,
)

-- Asked for the next event of a link whose anchor is not later than the limit, with an event `m`
-- that is late enough and neither number nor time wrapping, `lg_link_next_event_us` returns on
-- fuel above `m`: the time, on the grid of the link's epoch, of the first active event that is not before
-- the limit. It has moved the anchor to that time and the link to that event, and left the rest of the
-- schedule as it was.
pub next_event_us-IsFirst :
    (cfg : Config) (fuel now c m : ℕ) (n : Neigh) (skipped : ℕ)
    → n.state ≡ linked
    → At n.schedule c
    → n.anchor_us ≤ limit_of cfg now n
    → HasRoom n.schedule (limit_of cfg now n) m
    → m < fuel
    → (e at count : ℕ) × (n' : Neigh) × (next_event_us cfg fuel now n skipped
        ≡ some (at, n', count))
      × (at ≡ n.epoch_us + e * n.interval_us)
      × (n'.schedule ≡ record n.schedule { anchor_us = at; counter = n'.counter })
      × (counter_of n'.schedule ≡ e)
      × IsFirst n.schedule (limit_of cfg now n) e
unfolding next_event_us anchor_catch_up
next_event_us-IsFirst cfg fuel now c m n skipped l a due room f =
    let s = n.schedule in
    let limit = limit_of cfg now n in
    let k = step_of s in
    let c≤m =
      room_bound s.epoch_us s.interval_us c m limit (omega (arith, a.anchored)) room.late
        a.running in
    let al = align-Aligned s c a (omega (arith, room.numbers)) (
      omega
        (arith, room.times, times_mono s.epoch_us s.interval_us (c + k) (m + k) (omega arith))) in
    let fr = align-frame s in
    let room' : HasRoom (align s) limit m = record {
      late = rw (fr.1, fr.2) room.late;
      numbers = rw fr.0 room.numbers;
      times = rw (fr.0, fr.1, fr.2) room.times;
    } in
    let near = align_near s (align s) limit c al.event a al.at fr (omega (arith, al.within)) due in
    let x =
      catch_up_loop-Caught fuel limit al.event m (align s) skipped al.at (rw fr.0 al.active) room'
        near (omega arith) (omega (arith, al.from)) in
    let grid : x.final.anchor_us ≡ s.epoch_us + x.event * s.interval_us =
      ap (λ (t : Schedule). t.anchor_us) (Caught-grid (align s) limit _ x)
      ∙ ap (λ (v : ℕ). v + x.event * (align s).interval_us) fr.1
      ∙ ap (λ (v : ℕ). s.epoch_us + x.event * v) fr.2 in
    (
      x.event,
      x.final.anchor_us,
      x.skips,
      record (window_us cfg now n).1 { schedule = x.final },
      ground (arith, l, a.running, x.returned, window_us-schedule cfg now n),
      grid,
      x.rest_kept ∙ align_rest s x.final.anchor_us x.final.counter,
      counter_of-At x.final x.event x.at,
      IsFirst-frame s (align s) limit x.event fr x.first,
    )
