-- ===== src/Sched.antt =====
-- subsys/lockgrid/lg_sched.c: which of the events that want the radio gets it.
pub mod Select
mod Tests
use lockgrid.Prelude.{
  ℕ, zero, suc, ◌+◌, ◌^◌, ◌%◌, ◌≤◌, ◌<◌, Bool, true, false, not, ◌&&◌, ◌||◌, List, [], ◌∷◌, Option,
  none, some, ltb, leb, ◌==◌, if◌then◌else◌, length, ◌++◌,
}
use lockgrid.Types.{time_never}
use lockgrid.Config.{Config}

-- `enum lg_ev_kind`
pub data EvKind : Type 0 where
  ev_none ev_link ev_beacon ev_scan ev_track ev_join_tx ev_join_rx ev_chan_eval : EvKind

-- LG_SCHED_CONTEND_US
abbrev pub contend_us : ℕ
contend_us = 45000

-- A candidate; `neigh` is the index of a slot, or nothing.
pub record Candidate : Type 0 where
  pub kind : EvKind
  pub anchor_us : ℕ
  pub neigh : Option ℕ
  pub prio : ℕ

-- LG_CAND_MAX
abbrev pub cand_max : Config → ℕ
cand_max cfg = cfg.max_neighbors + 5

-- `add_candidate`
unfoldable pub add_candidate : Config → List Candidate → Candidate → List Candidate
add_candidate cfg l c =
    if (c.anchor_us == time_never) || leb (cand_max cfg) (length l) then l else l ++ (c ∷ [])

-- The first loop of `select_candidate`: the earliest.
unfoldable pub earliest : List Candidate → Candidate → Candidate
earliest [] best = best
earliest (c ∷ rest) best = earliest rest (if ltb c.anchor_us best.anchor_us then c else best)

-- Whether the second loop leaves the best one for `c`; the sum is an `uint64_t`.
unfoldable pub beats : Candidate → Candidate → Bool
beats c best =
    not (ltb ((best.anchor_us + contend_us) % 2 ^ 64) c.anchor_us)
    && (ltb best.prio c.prio || ((c.prio == best.prio) && ltb c.anchor_us best.anchor_us))

-- The second loop.
unfoldable pub contend : List Candidate → Candidate → Candidate
contend [] best = best
contend (c ∷ rest) best = contend rest (if beats c best then c else best)

-- `select_candidate`
unfoldable pub select_candidate : List Candidate → Option Candidate
select_candidate [] = none
select_candidate (c ∷ rest) = some (contend (c ∷ rest) (earliest rest c))
