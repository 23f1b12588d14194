-- ===== src/Link/Control/Subrate.antt =====
-- The subrate that an initiator asks for.
use lockgrid.Prelude.{
  ℕ, ◌+◌, ◌*◌, ◌^◌, ◌≤◌, ◌<◌, ◌≡◌, ◌⊎◌, inl, inr, refl, Bool, true, false, arith, leb, ◌==◌, not,
  ◌||◌, Bool-cases,
}
use lockgrid.Types.{u16, Neigh}
use lockgrid.Link.{counter_of}
use lockgrid.Link.Control.{offer_subrate, subrate_update, wanted_subrate}
use lockgrid.Link.Control.Change.{Holds, new_subrate}

-- An offer of the subrate `k`, six events ahead, in `n'`.
pub record Offers (n n' : Neigh) (k : ℕ) : Type 0 where
  pub holds : Holds n'.schedule (new_subrate k) (u16 (counter_of n.schedule + 6))
  pub unconfirmed : n'.ctrl_acked ≡ false
  pub lowest : 1 ≤ k
  pub highest : k ≤ n.subrate_max
  pub one_step : k ≤ 2 * n.subrate
  pub differs : (k == n.subrate) ≡ false
  pub ours : n.initiator ≡ true
  pub rest_kept : n' ≡ record n {
    schedule = record n.schedule {
      pending_ctrl = n'.pending_ctrl;
      pending_subrate = n'.pending_subrate;
      instant = n'.instant;
      ctrl_acked = n'.ctrl_acked;
    };
  }

wanted_subrate-bounds :
    (waiting : Bool) (n : Neigh)
    → 1 ≤ n.subrate
    → 1 ≤ n.subrate_max
    → n.subrate < 2 ^ 7
    → (1 ≤ wanted_subrate waiting n)
      × (wanted_subrate waiting n ≤ n.subrate_max)
      × (wanted_subrate waiting n ≤ 2 * n.subrate)
unfolding wanted_subrate
wanted_subrate-bounds waiting n low ceiling high = ground arith

offer_subrate-Offers :
    (n : Neigh) (k : ℕ)
    → n.initiator ≡ true
    → n.pending_ctrl ≡ 0
    → 1 ≤ k
    → k ≤ n.subrate_max
    → k ≤ 2 * n.subrate
    → (k == n.subrate) ≡ false
    → Offers n (offer_subrate n k) k
unfolding offer_subrate
offer_subrate-Offers n k ours clear low high step differs = record {
  holds = (rw clear refl, refl, refl);
  unconfirmed = refl;
  lowest = low;
  highest = high;
  one_step = step;
  differs = differs;
  ours = ours;
  rest_kept = refl;
}

-- `subrate_update`, for a subrate between 1 and 127: it changes nothing, or it offers a
-- subrate that is new, between 1 and the ceiling and at most twice the present one, for the event six
-- ahead, unconfirmed; and it does that for an initiator only. Nothing else of the neighbour changes.
pub subrate_update-Offers :
    (waiting : Bool) (n : Neigh)
    → 1 ≤ n.subrate
    → n.subrate < 2 ^ 7
    → (subrate_update waiting n ≡ n) ⊎ ((k : ℕ) × Offers n (subrate_update waiting n) k)
unfolding subrate_update
subrate_update-Offers waiting n low high =
    let want = wanted_subrate waiting n in
    elim (Bool-cases (not n.initiator || leb n.subrate_max 1)) [
      | inl off ↦ inl (rw off refl)
      | inr on ↦ elim (Bool-cases ((want == n.subrate) || not (n.pending_ctrl == 0))) [
        | inl stay ↦ inl (rw (on, stay) refl)
        | inr move ↦
            let ours : n.initiator ≡ true = ground arith in
            let ceiling : 1 ≤ n.subrate_max = ground arith in
            let clear : n.pending_ctrl ≡ 0 = ground arith in
            let differs : (want == n.subrate) ≡ false = ground arith in
            let bounds = wanted_subrate-bounds waiting n low ceiling high in
            inr (
              want,
              rw (on, move)
                  (offer_subrate-Offers n want ours clear bounds.0 bounds.1 bounds.2 differs),
            )
      ]
    ]
