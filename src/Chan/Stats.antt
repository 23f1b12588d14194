-- ===== src/Chan/Stats.antt =====
-- The statistics of a channel stay small, whatever happens on it.
use native.Mathlib.Nat.{div-le_of_le-mul}
use lockgrid.Prelude.{
  ℕ, zero, suc, ◌+◌, ◌-◌, ◌*◌, ◌/◌, ◌≤◌, ◌<◌, Bool, true, false, List, [], ◌∷◌, arith, All,
}
use lockgrid.Chan.{decay_at, ChanStat, Channels, count_result, update, result}

-- Fewer frames than the decay limit, and an error rate of at most a thousand per mille.
abbrev pub InBounds : ChanStat → Type 0
InBounds cs = (cs.frames_ok + cs.frames_bad < decay_at) × (cs.per_permille ≤ 1000)

rate-le : (bad total : ℕ) → bad ≤ total → bad * 1000 / total ≤ 1000
rate-le bad total h = div-le_of_le-mul total (grind arith)

count_result-InBounds : (cs : ChanStat) (ok : Bool) → InBounds cs → InBounds (count_result cs ok)
unfolding count_result
count_result-InBounds cs true h = ground (
  arith,
  rate-le cs.frames_bad (cs.frames_ok + 1 + cs.frames_bad) (omega arith),
  rate-le (cs.frames_bad / 2) ((cs.frames_ok + 1) / 2 + cs.frames_bad / 2) (omega arith),
)
count_result-InBounds cs false h = ground (
  arith,
  rate-le (cs.frames_bad + 1) (cs.frames_ok + (cs.frames_bad + 1)) (omega arith),
  rate-le ((cs.frames_bad + 1) / 2) (cs.frames_ok / 2 + (cs.frames_bad + 1) / 2) (omega arith),
)

update-InBounds :
    (l : List ChanStat) (i : ℕ) (f : ChanStat → ChanStat)
    → ((cs : ChanStat) → InBounds cs → InBounds (f cs))
    → All InBounds l
    → All InBounds (update l i f)
unfolding update
update-InBounds [] i f keep h = tt
update-InBounds (cs ∷ rest) zero f keep h = (keep cs h.0, h.1)
update-InBounds (cs ∷ rest) (suc i) f keep h = (h.0, update-InBounds rest i f keep h.1)

-- Every outcome, on whatever channel number, keeps each channel's count of frames under the decay
-- limit of 64, so no 16-bit counter wraps, and its error rate at most 1000 per mille.
pub result-InBounds :
    (c : Channels) (chan : ℕ) (ok : Bool)
    → All InBounds c.chan
    → All InBounds (result c chan ok).chan
unfolding result
result-InBounds c chan ok h = ground (
  arith,
  update-InBounds c.chan (chan - 11) (λ cs. count_result cs ok)
      (λ cs v. count_result-InBounds cs ok v) h,
)
