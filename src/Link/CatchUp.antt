-- ===== src/Link/CatchUp.antt =====
-- The catch-up loop: it ends, on the first active event that is not too early, and two ends that
-- skipped different events meet again.
use native.Mathlib.Nat.{add-mul, add-mod_right, div-add-mod', one-mul}
use native.Mathlib.Decide.{dec_lt}
use lockgrid.Prelude.{
  ℕ, zero, suc, ◌+◌, ◌*◌, ◌/◌, ◌%◌, ◌^◌, ◌≤◌, ◌<◌, ◌≡◌, refl, ap, ◌∙◌, arith, ltb, Option, some,
  Bool-cases, inl, inr, ltb→lt,
}
use lockgrid.Types.{Schedule, u32}
use lockgrid.Link.{anchor_set, step_of, to_next, catch_up_loop}
use lockgrid.Link.Counter.{At, to_next-At}

-- Event `c` is the first active one whose anchor is not before `limit`: it is active, its anchor is
-- late enough, and that of the active event before it is not.
pub record IsFirst (s : Schedule) (limit c : ℕ) : Type 0 where
  pub active : c % step_of s ≡ 0
  pub late_enough : limit ≤ s.epoch_us + c * s.interval_us
  pub not_later : s.epoch_us + c * s.interval_us < limit + step_of s * s.interval_us

-- Room to catch up in: the event `m` is late enough, and neither the 16-bit event number nor the
-- time wraps on the way to the active event behind it.
pub record HasRoom (s : Schedule) (limit m : ℕ) : Type 0 where
  pub late : limit ≤ s.epoch_us + m * s.interval_us
  pub numbers : m + step_of s < 2 ^ 16
  pub times : s.epoch_us + (m + step_of s) * s.interval_us < 2 ^ 64

-- What a run of the loop ends with.
pub record Caught (s : Schedule) (limit : ℕ) (out : Option (Schedule × ℕ)) : Type 0 where
  pub event : ℕ
  pub final : Schedule
  pub skips : ℕ
  pub returned : out ≡ some (final, skips)
  pub at : At final event
  pub rest_kept : final ≡ record s { anchor_us = final.anchor_us; counter = final.counter }
  pub first : IsFirst s limit event

-- The step onto the next event changes neither the epoch, nor the interval, nor the subrate.
same_frame :
    (s : Schedule)
    → (step_of (to_next s) ≡ step_of s)
      × ((to_next s).epoch_us ≡ s.epoch_us)
      × ((to_next s).interval_us ≡ s.interval_us)
unfolding to_next anchor_set
same_frame s = (refl, refl, refl)

before_room : (e i c m limit : ℕ) → e + c * i < limit → limit ≤ e + m * i → c < m
before_room e i c m limit h k = grind arith

pub times_mono : (e i a b : ℕ) → a ≤ b → e + a * i ≤ e + b * i
times_mono e i a b h = grind arith

HasRoom-to_next : (s : Schedule) (limit m : ℕ) → HasRoom s limit m → HasRoom (to_next s) limit m
unfolding to_next anchor_set
HasRoom-to_next s limit m r = record { late = r.late; numbers = r.numbers; times = r.times }

Caught-to_next :
    (s : Schedule) (limit : ℕ) (out : Option (Schedule × ℕ))
    → Caught (to_next s) limit out
    → Caught s limit out
unfolding to_next anchor_set
Caught-to_next s limit out c = record {
  event = c.event;
  final = c.final;
  skips = c.skips;
  returned = c.returned;
  at = c.at;
  rest_kept = c.rest_kept;
  first = record {
    active = c.first.active;
    late_enough = c.first.late_enough;
    not_later = c.first.not_later;
  };
}

-- From an active event, with room and fuel for each event up to the late one, the loop ends, and
-- stands on the first active event that is not before the limit.
pub catch_up_loop-Caught :
    (fuel limit c m : ℕ) (s : Schedule) (skipped : ℕ)
    → At s c
    → c % step_of s ≡ 0
    → HasRoom s limit m
    → s.anchor_us < limit + step_of s * s.interval_us
    → 0 < fuel
    → m < c + fuel
    → Caught s limit (catch_up_loop fuel limit s skipped)
unfolding catch_up_loop to_next anchor_set
catch_up_loop-Caught zero limit c m s skipped a act room near pos f = absurd (omega arith)
catch_up_loop-Caught (suc fuel) limit c m s skipped a act room near pos f =
    elim (Bool-cases (ltb s.anchor_us limit)) [
      | inl early ↦
          let k = step_of s in
          let before = ltb→lt _ _ early in
          let c<m =
            before_room s.epoch_us s.interval_us c m limit (omega (arith, a.anchored)) room.late in
          let same = same_frame s in
          let moved = add-mul c k s.interval_us in
          let here = to_next-At s c a act (omega (arith, room.numbers)) (
            omega (
              arith,
              room.times,
              times_mono s.epoch_us s.interval_us (c + k) (m + k) (omega arith),
            )) in
          rw early (
            Caught-to_next s limit _ (
              catch_up_loop-Caught fuel limit (c + k) m (to_next s) (u32 (skipped + 1)) here
                (rw same.0 (omega (arith, add-mod_right c k, act))) (HasRoom-to_next s limit m room)
                (omega (arith, here.anchored, same.0, same.1, same.2, moved, a.anchored))
                (omega arith) (omega arith)))
      | inr late ↦ rw late (record {
        event = c;
        final = s;
        skips = skipped;
        returned = refl;
        at = a;
        rest_kept = refl;
        first = record {
          active = act;
          late_enough = ground arith;
          not_later = omega (arith, a.anchored);
        };
      })
    ]

quotient_lt : (k a b : ℕ) → a * k < b * k → a < b
quotient_lt k a b h = elim (dec_lt a b) [
  | yes l ↦ l
  | no n ↦ absurd (omega (arith, times_mono 0 k b a (omega arith)))
]

-- Two different multiples of `k` are at least `k` apart.
multiple_gap : (k c d : ℕ) → c % k ≡ 0 → d % k ≡ 0 → c < d → c + k ≤ d
multiple_gap k c d hc hd h =
    let ec : c / k * k ≡ c = omega (arith, div-add-mod' c k) in
    let ed : d / k * k ≡ d = omega (arith, div-add-mod' d k) in
    let q : c / k < d / k = quotient_lt k (c / k) (d / k) (omega arith) in
    omega
      (arith, times_mono 0 k (c / k + 1) (d / k) (omega (arith, q)), add-mul (c / k) 1 k, one-mul k)

IsFirst-le : (s : Schedule) (limit c d : ℕ) → IsFirst s limit c → IsFirst s limit d → d ≤ c
IsFirst-le s limit c d f g = elim (dec_lt c d) [
  | yes h ↦
      let k = step_of s in
      let gap = multiple_gap k c d f.active g.active h in
      absurd (
        omega (
          arith,
          f.late_enough,
          g.not_later,
          times_mono s.epoch_us s.interval_us (c + k) d gap,
          add-mul c k s.interval_us,
        ))
  | no n ↦ omega arith
]

-- There is one first active event for each limit.
pub IsFirst-unique : (s : Schedule) (limit c d : ℕ) → IsFirst s limit c → IsFirst s limit d → c ≡ d
IsFirst-unique s limit c d f g =
    omega (arith, IsFirst-le s limit c d f g, IsFirst-le s limit d c g f)

-- The loop leaves the schedule as it was, on the grid of its epoch at the event.
pub Caught-grid :
    (s : Schedule) (limit : ℕ) (out : Option (Schedule × ℕ)) (c : Caught s limit out)
    → c.final
      ≡ record s { anchor_us = s.epoch_us + c.event * s.interval_us; counter = c.final.counter }
Caught-grid s limit out c =
    let e : c.final.epoch_us ≡ s.epoch_us = ap (λ (t : Schedule). t.epoch_us) c.rest_kept in
    let i : c.final.interval_us ≡ s.interval_us =
      ap (λ (t : Schedule). t.interval_us) c.rest_kept in
    let grid : c.final.anchor_us ≡ s.epoch_us + c.event * s.interval_us =
      c.at.anchored
      ∙ ap (λ (x : ℕ). x + c.event * c.final.interval_us) e
      ∙ ap (λ (x : ℕ). s.epoch_us + c.event * x) i in
    c.rest_kept ∙ ap (λ (a : ℕ). record s { anchor_us = a; counter = c.final.counter }) grid
