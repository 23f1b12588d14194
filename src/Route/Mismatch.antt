-- ===== src/Route/Mismatch.antt =====
-- The parent that frames go to is not the one that the rank stands for.
use lockgrid.Prelude.{
  ℕ, zero, suc, ◌-◌, ◌≤◌, ◌<◌, true, false, not, List, [], ◌∷◌, some, ◌==◌, get_elem?, replicate,
  ◌≡◌, refl, ◌∙◌, ap, arith,
}
use lockgrid.Types.{Neigh, is_linked, rank_infinite, addr_invalid}
use lockgrid.Config.{Config, InRange}
use lockgrid.Route.{
  rank_through, Slot, empty_slot, is_candidate, gather, head_cost, head_who, keep_incumbent, in_set,
  choose, rank_of, Grid, recompute, is_backhaul, parent,
}
use lockgrid.Route.{insert, shift}
use lockgrid.Route.Parents.{
  map_at, finish, recompute-get, candidate-cost, finish-is_parent, finish-plain,
}
use lockgrid.Route.Rank.{recompute-rank_of}

slot_of : Config → Neigh → ℕ → Slot
slot_of cfg n i = record { cost = rank_through cfg n; who = some i }

shift_empty : (k : ℕ) → shift empty_slot (replicate k empty_slot) ≡ replicate k empty_slot
unfolding shift
shift_empty zero = refl
shift_empty (suc k) = ap (λ (r : List Slot). empty_slot ∷ r) (shift_empty k)

insert_first :
    (s : Slot) (k : ℕ)
    → s.cost < rank_infinite
    → insert s (replicate (suc k) empty_slot) ≡ s ∷ replicate k empty_slot
unfolding insert
insert_first s k h = ground (arith, shift_empty k)

insert_ahead :
    (s t : Slot) (k : ℕ)
    → s.cost < t.cost
    → insert s (t ∷ replicate (suc k) empty_slot) ≡ s ∷ t ∷ replicate k empty_slot
unfolding insert shift
insert_ahead s t k h = ground (arith, shift_empty k)

-- Without a parent there is no hysteresis.
keep_nobody :
    (cfg : Config) (l : List Neigh) (old : ℕ) (best : List Slot)
    → old ≡ addr_invalid
    → keep_incumbent cfg l old best ≡ best
unfolding keep_incumbent head_who
keep_nobody cfg l old best h = ground (arith, h)

-- The set of two such neighbours: both, the cheaper one first.
two-choose :
    (cfg : Config) (b p : Neigh) (k : ℕ)
    → InRange cfg
    → cfg.max_parents ≡ suc (suc k)
    → b.is_parent ≡ false
    → p.is_parent ≡ false
    → is_candidate cfg b ≡ true
    → is_candidate cfg p ≡ true
    → rank_through cfg p < rank_through cfg b
    → choose cfg (b ∷ p ∷ []) ≡ slot_of cfg p 1 ∷ slot_of cfg b 0 ∷ replicate k empty_slot
unfolding choose gather insert shift keep_incumbent parent head_who slot_of rank_through
two-choose cfg b p k r m nb np cb cp cheaper =
    let x = candidate-cost cfg b r cb in
    let y = candidate-cost cfg p r cp in
    let nobody : parent (b ∷ p ∷ []) ≡ addr_invalid = ground (arith, nb, np) in
    rw
      (
        cb,
        cp,
        m,
        insert_first (slot_of cfg b 0) (suc k) (omega (arith, x.0, r.rank_range)),
        insert_ahead (slot_of cfg p 1) (slot_of cfg b 0) k cheaper,
      )
      (keep_nobody cfg (b ∷ p ∷ []) _ _ nobody)

both_marked :
    (cfg : Config) (b p : Neigh) (k : ℕ)
    → in_set 0 (slot_of cfg p 1 ∷ slot_of cfg b 0 ∷ replicate k empty_slot) ≡ true
unfolding in_set slot_of
both_marked cfg b p k = refl

pair-rank :
    (cfg : Config) (b p : Neigh) (k : ℕ)
    → InRange cfg
    → is_candidate cfg p ≡ true
    → rank_of (slot_of cfg p 1 ∷ slot_of cfg b 0 ∷ replicate k empty_slot) ≡ rank_through cfg p
unfolding rank_of head_who head_cost slot_of
pair-rank cfg b p k r c = ground (arith, candidate-cost cfg p r c, r.rank_range)

parent-first :
    (l : List Neigh) (x : Neigh)
    → get_elem? l 0 ≡ some x
    → x.is_parent ≡ true
    → is_linked x.state ≡ true
    → parent l ≡ x.addr
unfolding parent
parent-first [] x e p s = cc
parent-first (n ∷ rest) x e p s =
    let q : n ≡ x = cc in
    let a : n.is_parent ≡ true = ap (λ (m : Neigh). m.is_parent) q ∙ p in
    let b : is_linked n.state ≡ true = ap (λ (m : Neigh). is_linked m.state) q ∙ s in
    rw (a, b) (ap (λ (m : Neigh). m.addr) q)

-- On a node that is no backhaul and may have two parents or more, with exactly two neighbours in its
-- table, neither a parent before and both qualifying, of which the one in the first slot is the dearer:
-- `lg_route_recompute` takes the rank of the path through the second, but the parent that frames go to
-- is the first.
pub parent_by_index :
    (cfg : Config) (g : Grid) (b p : Neigh)
    → InRange cfg
    → 2 ≤ cfg.max_parents
    → is_backhaul g.role ≡ false
    → g.neigh ≡ b ∷ p ∷ []
    → b.is_parent ≡ false
    → p.is_parent ≡ false
    → is_candidate cfg b ≡ true
    → is_candidate cfg p ≡ true
    → rank_through cfg p < rank_through cfg b
    → ((recompute cfg g).grid.rank ≡ rank_through cfg p)
      × (parent (recompute cfg g).grid.neigh ≡ b.addr)
parent_by_index cfg g b p r two back table nb np cb cp cheaper =
    let k = cfg.max_parents - 2 in
    let pair = slot_of cfg p 1 ∷ slot_of cfg b 0 ∷ replicate k empty_slot in
    let c : choose cfg g.neigh ≡ pair =
      ap (choose cfg) table ∙ two-choose cfg b p k r (omega arith) nb np cb cp cheaper in
    let moved = not (rank_of (choose cfg g.neigh) == g.rank) in
    let marked = ap (in_set 0) c ∙ both_marked cfg b p k in
    let first =
      recompute-get cfg g 0 back
      ∙ ap
          (λ (l : List Neigh).
            map_at (finish moved (in_set 0 (choose cfg g.neigh))) (get_elem? l 0))
          table in
    let x = finish-plain moved (in_set 0 (choose cfg g.neigh)) b in
    (
      recompute-rank_of cfg g back ∙ ap rank_of c ∙ pair-rank cfg b p k r cp,
      parent-first _ _ first (finish-is_parent moved _ b ∙ marked)
            (ap is_linked x.0 ∙ (candidate-cost cfg b r cb).2)
          ∙ x.1,
    )
