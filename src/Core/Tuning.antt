-- ===== src/Core/Tuning.antt =====
-- The tuning that is in force can be kept: links survive two missed events.
use native.Mathlib.Nat.{div-add-mod', mod-lt}
use native.Mathlib.Decide.{dec_lt}
use lockgrid.Prelude.{ℕ, ◌*◌, ◌/◌, ◌^◌, ◌≤◌, ◌<◌, min, max, ◌≡◌, ap, arith}
use lockgrid.Types.{u32}
use lockgrid.Config.{Config, InRange}
use lockgrid.Core.{Tune, subrate_ceiling, tuning_set, clamp}

quotient-le : (d c i t : ℕ) → d * (i * 3) ≤ t → c ≤ d → c * (i * 3) ≤ t
quotient-le d c i t h k = grind arith

quotient_pos : (d t : ℕ) → 0 < d → d ≤ t → 1 ≤ t / d
quotient_pos d t p h = elim (dec_lt 0 (t / d)) [
  | yes q ↦ omega (arith, q)
  | no n ↦
      let z : t / d ≡ 0 = omega arith in
      absurd (omega (arith, mod-lt t {m = d} p, div-add-mod' t d, ap (λ (x : ℕ). x * d) z))
]

ceiling-bounds : (i t : ℕ) → (1 ≤ subrate_ceiling i t) × (subrate_ceiling i t ≤ 32)
unfolding subrate_ceiling
ceiling-bounds i t = ground arith

-- A subrate up to the ceiling leaves room for three events in the timeout.
ceiling-room :
    (i t c : ℕ) → 0 < i → i * 3 ≤ t → i * 3 < 2 ^ 32 → c ≤ subrate_ceiling i t → c * (i * 3) ≤ t
unfolding subrate_ceiling
ceiling-room i t c p h w k =
    let e = div-add-mod' t (i * 3) in
    let whole : u32 (i * 3) ≡ i * 3 = omega arith in
    let q = ap (λ (x : ℕ). t / x) whole in
    let one = quotient_pos (i * 3) t (omega arith) h in
    quotient-le (t / (i * 3)) c i t (omega (arith, e)) (ground (arith, k, p, h, q, one))

-- Whatever values it is given, `lg_tuning_set` stores ones with which three events of a link at the
-- largest subrate fit into the supervision timeout, the subrate is from 1 to 32, the timeout is at
-- least four intervals, and each scan interval is at least a scan window.
pub tuning_set_lem :
    (cfg : Config) (t : Tune)
    → InRange cfg
    → ((tuning_set cfg t).subrate_max * ((tuning_set cfg t).conn_interval_us * 3)
        ≤ (tuning_set cfg t).sup_timeout_us)
      × (1 ≤ (tuning_set cfg t).subrate_max)
      × ((tuning_set cfg t).subrate_max ≤ 32)
      × ((tuning_set cfg t).conn_interval_us * 4 ≤ (tuning_set cfg t).sup_timeout_us)
      × ((tuning_set cfg t).scan_window_us ≤ (tuning_set cfg t).scan_unattached_us)
      × ((tuning_set cfg t).scan_window_us ≤ (tuning_set cfg t).scan_seeking_us)
      × ((tuning_set cfg t).scan_window_us ≤ (tuning_set cfg t).scan_attached_us)
unfolding tuning_set
tuning_set_lem cfg t r =
    let i =
      clamp t.conn_interval_us (u32 (cfg.conn_interval_min_ms * 1000))
        (u32 (cfg.conn_interval_max_ms * 1000)) in
    let n = max t.sup_timeout_us (u32 (i * 4)) in
    let b : (0 < i) × (i ≤ 32000000) = ground (arith, r.interval_min_range, r.interval_max_range) in
    let longer : i * 4 ≤ n = omega (arith, b) in
    let c = ceiling-bounds i n in
    let sub = max 1 (min t.subrate_max (subrate_ceiling i n)) in
    let room =
      ceiling-room i n sub b.0 (omega (arith, longer)) (omega (arith, b)) (omega (arith, c)) in
    (room, omega arith, omega (arith, c), longer, omega arith, omega arith, omega arith)
