-- ===== src/Route/Rank.antt =====
-- The rank that `lg_route_recompute` gives the node.
use mathlib.Core.Path.{subst}
use lockgrid.Prelude.{
  ℕ, ◌+◌, ◌≤◌, ◌<◌, true, false, not, List, [], ◌∷◌, Option, some, ◌==◌, get_elem?, ◌≡◌, refl, sym,
  ◌∙◌, ap, ◌⊎◌, arith, Option-cases, inl, inr,
}
use lockgrid.Types.{Neigh, rank_infinite}
use lockgrid.Config.{Config, InRange}
use lockgrid.Route.{
  rank_through, Slot, is_candidate, head_cost, head_who, in_set, rank_hysteresis, choose, rank_of,
  Grid, recompute, is_backhaul,
}
use lockgrid.Route.Best.{Names, AllName}
use lockgrid.Route.Parents.{
  map_at, finish, recompute-get, choose-AllName, choose-head_cost, candidate-cost, finish-is_parent,
  finish-candidate,
}

-- Where the rank of a choice comes from: nowhere, or the neighbour at the head.
data Source (cfg : Config) (l : List Neigh) (best : List Slot) : Type 0 where
  nowhere : rank_of best ≡ rank_infinite → head_cost best ≡ rank_infinite → Source cfg l best
  through :
      (i : ℕ) (n : Neigh)
      → get_elem? l i ≡ some n
      → is_candidate cfg n ≡ true
      → in_set i best ≡ true
      → rank_of best ≡ rank_through cfg n
      → head_cost best ≡ rank_through cfg n
      → Source cfg l best

same-same : (i : ℕ) → (i == i) ≡ true
same-same i = ground arith

rank_of-Source :
    (cfg : Config) (l : List Neigh) (best : List Slot)
    → InRange cfg
    → AllName cfg l best
    → Source cfg l best
unfolding rank_of head_who head_cost in_set
rank_of-Source cfg l [] r h = nowhere refl refl
rank_of-Source cfg l (s ∷ rest) r h = elim (Option-cases s.who) [
  | inl missing ↦
      nowhere (ground (arith, missing)) (subst (λ (w : Option ℕ). Names cfg l s.cost w) missing h.0)
  | inr (i, there) ↦
      let named = subst (λ (w : Option ℕ). Names cfg l s.cost w) there h.0 in
      let x = candidate-cost cfg named.0 r named.2 in
      through i named.0 named.1 named.2 (ground (arith, there, same-same i))
        (ground (arith, there, named.3, x.0, r.rank_range)) named.3
]

pub recompute-rank_of :
    (cfg : Config) (g : Grid)
    → is_backhaul g.role ≡ false
    → (recompute cfg g).grid.rank ≡ rank_of (choose cfg g.neigh)
unfolding recompute
recompute-rank_of cfg g b = ground (arith, b)

-- After `lg_route_recompute` on a node that is no backhaul, the node has no rank, or its rank is
-- the cost of the path through a neighbour that is now marked as a parent.
pub recompute-rank :
    (cfg : Config) (g : Grid)
    → InRange cfg
    → is_backhaul g.role ≡ false
    → ((recompute cfg g).grid.rank ≡ rank_infinite)
      ⊎ ((i : ℕ) × (n : Neigh) × (get_elem? (recompute cfg g).grid.neigh i ≡ some n)
          × (n.is_parent ≡ true)
          × ((recompute cfg g).grid.rank ≡ rank_through cfg n))
recompute-rank cfg g r b =
    let best = choose cfg g.neigh in
    let moved = not (rank_of best == g.rank) in
    let e = recompute-rank_of cfg g b in
    elim (rank_of-Source cfg g.neigh best r (choose-AllName cfg g.neigh)) [
      | nowhere inf h ↦ inl (e ∙ inf)
      | through i n at c in_best is_rank h ↦
          let f = finish moved (in_set i best) in
          inr (
            i,
            f n,
            recompute-get cfg g i b ∙ ap (map_at f) at,
            finish-is_parent moved (in_set i best) n ∙ in_best,
            e ∙ is_rank ∙ sym (finish-candidate cfg moved (in_set i best) n).1,
          )
    ]

-- If a node that is no backhaul has a neighbour that qualifies as a parent, `lg_route_recompute`
-- gives it a finite rank, below the ceiling, and at most four above the cost of the path through
-- that neighbour, so that no neighbour is left that is better by more than the hysteresis.
pub recompute_best :
    (cfg : Config) (g : Grid) (k : ℕ) (n : Neigh)
    → InRange cfg
    → is_backhaul g.role ≡ false
    → get_elem? g.neigh k ≡ some n
    → is_candidate cfg n ≡ true
    → ((recompute cfg g).grid.rank ≤ rank_through cfg n + rank_hysteresis)
      × ((recompute cfg g).grid.rank < cfg.max_rank)
recompute_best cfg g k n r b at c =
    let best = choose cfg g.neigh in
    let e = recompute-rank_of cfg g b in
    let near = choose-head_cost cfg g.neigh k n r.parents_range.0 at c in
    let x = candidate-cost cfg n r c in
    elim (rank_of-Source cfg g.neigh best r (choose-AllName cfg g.neigh)) [
      | nowhere inf h ↦ absurd (omega (arith, near, h, x.0, r.rank_range))
      | through i m there cm in_best is_rank h ↦
          let y = candidate-cost cfg m r cm in
          (omega (arith, e, is_rank, h, near), omega (arith, e, is_rank, y.0))
    ]
