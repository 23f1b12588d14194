-- ===== src/Route/Parents.antt =====
-- What `lg_route_recompute` leaves: the rank, and the neighbours that are marked as parents.
use lockgrid.Prelude.{
  ℕ, zero, suc, ◌+◌, ◌-◌, ◌≤◌, ◌<◌, Bool, true, false, not, List, [], ◌∷◌, Option, none, some, ◌==◌,
  if◌then◌else◌, get_elem?, replicate, ◌≡◌, refl, sym, ◌∙◌, ap, arith, Bool-cases, Option-cases,
  inl, inr,
}
use lockgrid.Types.{Neigh, is_linked}
use lockgrid.Config.{Config, InRange}
use lockgrid.Route.{
  rank_through, Slot, empty_slot, is_candidate, gather, holds, cost_at, head_cost, in_set,
  rank_hysteresis, set_parent, mark_parents, clear_urgent, choose, rank_of, Grid, recompute,
  is_backhaul, parent,
}
use lockgrid.Route.Best.{
  Names, AllName, gather-AllName, gather-le, keep_incumbent-AllName, keep_incumbent-head_cost,
  holds-Names,
}

abbrev pub map_at : (Neigh → Neigh) → Option Neigh → Option Neigh
map_at f none = none
map_at f (some n) = some (f n)

clear_one : Neigh → Neigh
clear_one n = record n { bookkeeping = record n.bookkeeping { adv_urgent_done = false } }

mark_parents-get :
    (i : ℕ) (best : List Slot) (l : List Neigh) (k : ℕ)
    → get_elem? (mark_parents i best l) k
      ≡ map_at (λ n. set_parent n (in_set (i + k) best)) (get_elem? l k)
unfolding mark_parents
mark_parents-get i best [] k = refl
mark_parents-get i best (n ∷ rest) zero = let e : i + 0 ≡ i = omega arith in rw e refl
mark_parents-get i best (n ∷ rest) (suc k) =
    let e : i + suc k ≡ suc i + k = omega arith in rw e (mark_parents-get (suc i) best rest k)

clear_urgent-get :
    (l : List Neigh) (k : ℕ) → get_elem? (clear_urgent l) k ≡ map_at clear_one (get_elem? l k)
unfolding clear_urgent clear_one
clear_urgent-get [] k = refl
clear_urgent-get (n ∷ rest) zero = refl
clear_urgent-get (n ∷ rest) (suc k) = clear_urgent-get rest k

-- The neighbour in a slot after the call, from what it was before.
pub finish : Bool → Bool → Neigh → Neigh
unfolding clear_one
finish moved p n = if moved then clear_one (set_parent n p) else set_parent n p

pub recompute-get :
    (cfg : Config) (g : Grid) (k : ℕ)
    → is_backhaul g.role ≡ false
    → get_elem? (recompute cfg g).grid.neigh k
      ≡ map_at
          (finish (not (rank_of (choose cfg g.neigh) == g.rank)) (in_set k (choose cfg g.neigh)))
          (get_elem? g.neigh k)
unfolding recompute finish clear_one
recompute-get cfg g k b =
    let best = choose cfg g.neigh in
    let m = mark_parents-get 0 best g.neigh k in
    let c = clear_urgent-get (mark_parents 0 best g.neigh) k in
    let z : 0 + k ≡ k = omega arith in ground (arith, b, m, c, z)

replicate-AllName : (cfg : Config) (l : List Neigh) (k : ℕ) → AllName cfg l (replicate k empty_slot)
replicate-AllName cfg l zero = tt
replicate-AllName cfg l (suc k) = (refl, replicate-AllName cfg l k)

pub choose-AllName : (cfg : Config) (l : List Neigh) → AllName cfg l (choose cfg l)
unfolding choose
choose-AllName cfg l = keep_incumbent-AllName cfg l (parent l) _ (
    gather-AllName cfg l 0 l _ (λ k. ap (λ (x : ℕ). get_elem? l x) (omega arith))
      (replicate-AllName cfg l cfg.max_parents))

pub choose-head_cost :
    (cfg : Config) (l : List Neigh) (k : ℕ) (n : Neigh)
    → 1 ≤ cfg.max_parents
    → get_elem? l k ≡ some n
    → is_candidate cfg n ≡ true
    → head_cost (choose cfg l) ≤ rank_through cfg n + rank_hysteresis
unfolding choose
choose-head_cost cfg l k n p e c =
    let s : cfg.max_parents ≡ suc (cfg.max_parents - 1) = omega arith in
    omega (
      arith,
      keep_incumbent-head_cost cfg l (parent l)
          (gather cfg 0 l (replicate cfg.max_parents empty_slot)),
      ap (λ (m : ℕ). head_cost (gather cfg 0 l (replicate m empty_slot))) s,
      gather-le cfg 0 l empty_slot (replicate (cfg.max_parents - 1) empty_slot) k n e c,
    )

pub candidate-cost :
    (cfg : Config) (n : Neigh)
    → InRange cfg
    → is_candidate cfg n ≡ true
    → (rank_through cfg n < cfg.max_rank)
      × (n.peer_rank < rank_through cfg n)
      × (is_linked n.state ≡ true)
unfolding is_candidate rank_through
candidate-cost cfg n r c = ground (arith, r.rank_range)

in_set-Names :
    (cfg : Config) (l : List Neigh) (i : ℕ) (best : List Slot)
    → AllName cfg l best
    → in_set i best ≡ true
    → Names cfg l (cost_at cfg l i) (some i)
unfolding in_set
in_set-Names cfg l i [] h e = cc
in_set-Names cfg l i (s ∷ rest) h e = elim (Bool-cases (holds s i)) [
  | inl here ↦ holds-Names cfg l s i h.0 here
  | inr off ↦ in_set-Names cfg l i rest h.1 (ground (arith, off, e))
]

pub finish-is_parent : (moved p : Bool) (n : Neigh) → (finish moved p n).is_parent ≡ p
unfolding finish clear_one
finish-is_parent moved p n = ground arith

pub finish-plain :
    (moved p : Bool) (n : Neigh)
    → ((finish moved p n).state ≡ n.state) × ((finish moved p n).addr ≡ n.addr)
unfolding finish clear_one
finish-plain true p n = (refl, refl)
finish-plain false p n = (refl, refl)

pub finish-candidate :
    (cfg : Config) (moved p : Bool) (n : Neigh)
    → (is_candidate cfg (finish moved p n) ≡ is_candidate cfg n)
      × (rank_through cfg (finish moved p n) ≡ rank_through cfg n)
unfolding finish clear_one is_candidate rank_through
finish-candidate cfg true p n = (refl, refl)
finish-candidate cfg false p n = (refl, refl)

some-injective : (a b : Neigh) → some a ≡ some b → a ≡ b
some-injective a b e = cc

-- After `lg_route_recompute` on a node that is no backhaul, each neighbour that is marked as a
-- parent is linked, offers a path below the rank ceiling, and has a rank of its own below the cost
-- of that path.
pub recompute-parents :
    (cfg : Config) (g : Grid) (k : ℕ) (n : Neigh)
    → InRange cfg
    → is_backhaul g.role ≡ false
    → get_elem? (recompute cfg g).grid.neigh k ≡ some n
    → n.is_parent ≡ true
    → (is_linked n.state ≡ true)
      × (rank_through cfg n < cfg.max_rank)
      × (n.peer_rank < rank_through cfg n)
recompute-parents cfg g k n r b e p = elim (Option-cases (get_elem? g.neigh k)) [
  | inl missing ↦ absurd (cc (recompute-get cfg g k b, missing, e))
  | inr (m, there) ↦
      let best = choose cfg g.neigh in
      let moved = not (rank_of best == g.rank) in
      let q : n ≡ finish moved (in_set k best) m =
        some-injective _ _
          (sym e ∙ recompute-get cfg g k b ∙ ap (map_at (finish moved (in_set k best))) there) in
      let named = in_set-Names cfg g.neigh k best (choose-AllName cfg g.neigh) (
        sym (finish-is_parent moved (in_set k best) m)
        ∙ ap (λ (x : Neigh). x.is_parent) (sym q)
        ∙ p) in
      let same : m ≡ named.0 = some-injective _ _ (sym there ∙ named.1) in
      let c : is_candidate cfg n ≡ true =
        ap (is_candidate cfg) q
        ∙ (finish-candidate cfg moved (in_set k best) m).0
        ∙ ap (is_candidate cfg) same
        ∙ named.2 in
      let x = candidate-cost cfg n r c in (x.2, x.0, x.1)
]
