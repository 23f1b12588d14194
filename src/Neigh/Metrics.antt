-- ===== src/Neigh/Metrics.antt =====
-- The metrics of a link stay in their ranges, and move the way each outcome says.
use native.Mathlib.Nat.{div-le_of_le-mul}
use lockgrid.Prelude.{ℕ, ◌+◌, ◌-◌, ◌*◌, ◌/◌, ◌≤◌, ◌<◌, Bool, true, false, ◌≡◌, refl, arith}
use lockgrid.Prelude.Int.{neg_part, scale, div_trunc, ◌+ℤ◌}
use lockgrid.Types.{Neigh, Quality, etx_one, ewma}
use lockgrid.Neigh.{next_etx, error_rate, count_tx, update_cost, tx_result}

-- The metrics of a link in use: the transmissions per frame between one and four, the counters
-- below their halving point, the rate a rate, and the cost that of a path that exists.
pub record IsSane (q : Quality) : Type 0 where
  pub etx_range : (etx_one ≤ q.etx_q4) × (q.etx_q4 ≤ 64)
  pub counted : (q.tx_acked ≤ q.tx_attempts) × (q.tx_attempts < 128)
  pub rate : q.per_permille ≤ 1000
  pub signal : neg_part q.rssi ≤ 128

next_etx-range :
    (etx : ℕ) (acked : Bool)
    → etx_one ≤ etx
    → etx ≤ 64
    → (etx_one ≤ next_etx etx acked) × (next_etx etx acked ≤ 64)
unfolding next_etx ewma scale div_trunc ◌+ℤ◌
next_etx-range etx true h k = ground arith
next_etx-range etx false h k = ground arith

next_etx-way :
    (etx : ℕ) → etx_one ≤ etx → etx ≤ 64 → (next_etx etx true ≤ etx) × (etx ≤ next_etx etx false)
unfolding next_etx ewma scale div_trunc ◌+ℤ◌
next_etx-way etx h k = ground arith

lost_rate : (total good : ℕ) → (total - good) * 1000 / total ≤ 1000
lost_rate total good = div-le_of_le-mul total (omega arith)

error_rate-le :
    (attempts acked old : ℕ)
    → acked ≤ attempts
    → attempts ≤ 128
    → old ≤ 1000
    → error_rate attempts acked old ≤ 1000
unfolding error_rate
error_rate-le attempts acked old h k r = ground (arith, lost_rate attempts acked)

update_cost-bounds :
    (q : Quality)
    → etx_one ≤ q.etx_q4
    → q.etx_q4 ≤ 64
    → neg_part q.rssi ≤ 128
    → (etx_one ≤ (update_cost q).link_cost) × ((update_cost q).link_cost ≤ 144)
unfolding update_cost
update_cost-bounds q h k r = ground arith

count_tx-IsSane : (q : Quality) (acked : Bool) → IsSane q → IsSane (count_tx q acked)
unfolding count_tx
count_tx-IsSane q acked s =
    let e = next_etx-range q.etx_q4 acked s.etx_range.0 s.etx_range.1 in
    ground (
      arith,
      e,
      s.etx_range,
      s.counted,
      s.rate,
      s.signal,
      error_rate-le (q.tx_attempts + 1) (q.tx_acked + 1) q.per_permille (omega (arith, s.counted))
          (omega (arith, s.counted)) s.rate,
      error_rate-le (q.tx_attempts + 1) q.tx_acked q.per_permille (omega (arith, s.counted))
          (omega (arith, s.counted)) s.rate,
    )

update_cost-IsSane : (q : Quality) → IsSane q → IsSane (update_cost q)
unfolding update_cost
update_cost-IsSane q s = record {
  etx_range = s.etx_range;
  counted = s.counted;
  rate = s.rate;
  signal = s.signal;
}

update_cost-etx : (q : Quality) → (update_cost q).etx_q4 ≡ q.etx_q4
unfolding update_cost
update_cost-etx q = refl

count_tx-etx : (q : Quality) (acked : Bool) → (count_tx q acked).etx_q4 ≡ next_etx q.etx_q4 acked
unfolding count_tx
count_tx-etx q acked = refl

-- Each outcome of a transmission on a link with metrics in range keeps them in range and gives the
-- link a finite cost from 16 to 144. An acknowledged one never raises the transmissions per frame
-- and clears the run of misses; a lost one never lowers them.
pub tx_result-IsSane :
    (n : Neigh)
    → IsSane n.quality
    → ((acked : Bool)
        → IsSane (tx_result n acked).quality
          × (etx_one ≤ (tx_result n acked).link_cost)
          × ((tx_result n acked).link_cost ≤ 144))
      × ((tx_result n true).etx_q4 ≤ n.etx_q4)
      × ((tx_result n true).consec_misses ≡ 0)
      × (n.etx_q4 ≤ (tx_result n false).etx_q4)
unfolding tx_result
tx_result-IsSane n s =
    let way = next_etx-way n.etx_q4 s.etx_range.0 s.etx_range.1 in
    (
      λ acked.
          let q = count_tx n.quality acked in
          let c = count_tx-IsSane n.quality acked s in
          let b = update_cost-bounds q c.etx_range.0 c.etx_range.1 c.signal in
          (update_cost-IsSane q c, b.0, b.1),
      omega (arith, way, update_cost-etx (count_tx n.quality true), count_tx-etx n.quality true),
      refl,
      omega (arith, way, update_cost-etx (count_tx n.quality false), count_tx-etx n.quality false),
    )
