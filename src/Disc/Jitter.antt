-- ===== src/Disc/Jitter.antt =====
-- How far the random part moves a time.
use lockgrid.Prelude.{ℕ, ◌+◌, ◌*◌, ◌^◌, ◌≤◌, ◌<◌, arith}
use lockgrid.Disc.{jitter}

-- For every random number the period is within a quarter of the nominal one, up to the rounding of
-- odd numbers; the nominal period is below 2 ^ 31, so that the sum does not wrap.
pub jitter-bounds :
    (nominal draw : ℕ)
    → nominal < 2 ^ 31
    → (3 * nominal ≤ 4 * jitter nominal draw + 3) × (4 * jitter nominal draw ≤ 5 * nominal + 3)
unfolding jitter
jitter-bounds nominal draw h = ground arith
