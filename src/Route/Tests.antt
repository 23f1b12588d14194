-- ===== src/Route/Tests.antt =====
-- subsys/lockgrid/lg_route.c: a node between a cheap parent and a dear neighbour, and the theorems
-- there.
use lockgrid.Prelude.{
  ℕ, ◌+◌, ◌≤◌, ◌<◌, true, false, [], ◌∷◌, replicate, get_elem?, some, ◌≡◌, ◌⊎◌, refl, arith,
}
use lockgrid.Types.{Neigh, leaf, linked, zero_neigh, is_linked, rank_infinite, addr_invalid}
use lockgrid.Config.{default_config, default_config-InRange}
use lockgrid.Route.{
  Grid, Heard, rank_through, is_candidate, rank_hysteresis, recompute, parent, choose, rank_of,
  head_who, head_cost, gather, insert, shift, keep_incumbent, mark_parents, clear_urgent, in_set,
}
use lockgrid.Route.Parents.{recompute-parents}
use lockgrid.Route.Adverts.{build_adv}
use lockgrid.Route.Adverts.Count.{build_adv-count}
use lockgrid.Route.Rank.{recompute-rank, recompute_best}
use lockgrid.Route.Mismatch.{parent_by_index}
use lockgrid.Route.Duplicates.{in_cache, is_duplicate, hear_all, is_duplicate_lem}
use lockgrid.Route.Routes.{next_hop, no_route}
use lockgrid.Route.Routes.Lookup.{LinkTo, next_hop-LinkTo}

abbrev peer : ℕ → ℕ → Neigh
peer addr rank = record zero_neigh {
  state = linked;
  addr = addr;
  advert = record zero_neigh.advert { peer_rank = rank };
  quality = record zero_neigh.quality { link_cost = 20 };
}

-- The first neighbour has rank 60 and can only be further from the backhaul than this node.
abbrev node : Grid
node = record {
  addr = 1;
  role = leaf;
  rank = rank_infinite;
  neigh = peer 2 60 ∷ peer 3 0 ∷ [];
  routes = replicate 4 no_route;
  dup_cache = replicate 16 (record { origin = 0; msg_id = 0 });
  dup_next = 0;
  adv_urgent = false;
  parent_switches = 0;
}

far-candidate : is_candidate default_config (peer 2 60) ≡ true
unfolding is_candidate rank_through
far-candidate = refl

near-candidate : is_candidate default_config (peer 3 0) ≡ true
unfolding is_candidate rank_through
near-candidate = refl

cheaper : rank_through default_config (peer 3 0) < rank_through default_config (peer 2 60)
unfolding rank_through
cheaper = omega arith

parent_by_index_example :
    ((recompute default_config node).grid.rank ≡ rank_through default_config (peer 3 0))
    × (parent (recompute default_config node).grid.neigh ≡ 2)
parent_by_index_example =
    parent_by_index default_config node (peer 2 60) (peer 3 0) default_config-InRange (omega arith)
      refl refl refl refl far-candidate near-candidate cheaper

recompute-rank_example :
    ((recompute default_config node).grid.rank ≡ rank_infinite)
    ⊎ ((i : ℕ) × (n : Neigh) × (get_elem? (recompute default_config node).grid.neigh i ≡ some n)
        × (n.is_parent ≡ true)
        × ((recompute default_config node).grid.rank ≡ rank_through default_config n))
recompute-rank_example = recompute-rank default_config node default_config-InRange refl

recompute_best_example :
    ((recompute default_config node).grid.rank
      ≤ rank_through default_config (peer 3 0) + rank_hysteresis)
    × ((recompute default_config node).grid.rank < default_config.max_rank)
recompute_best_example =
    recompute_best default_config node 1 (peer 3 0) default_config-InRange refl refl near-candidate

-- The neighbour in the second slot after the call.
abbrev chosen : Neigh
chosen = record (peer 3 0) {
  bookkeeping = record zero_neigh.bookkeeping { is_parent = true; adv_urgent_done = false };
}

chosen-there : get_elem? (recompute default_config node).grid.neigh 1 ≡ some chosen
unfolding recompute choose rank_of head_who head_cost gather insert shift keep_incumbent parent
    is_candidate rank_through mark_parents clear_urgent in_set
chosen-there = refl

recompute-parents_example :
    (is_linked linked ≡ true)
    × (rank_through default_config chosen < default_config.max_rank)
    × (0 < rank_through default_config chosen)
recompute-parents_example =
    recompute-parents default_config node 1 chosen default_config-InRange refl chosen-there refl

abbrev message : ℕ → Heard
message k = record { origin = 7; msg_id = k }

is_duplicate_lem_example :
    (is_duplicate
      (hear_all (is_duplicate node (message 1)).0 (message 2 ∷ message 1 ∷ message 3 ∷ []))
      (message 1)).1
    ≡ true
unfolding is_duplicate in_cache
is_duplicate_lem_example =
    is_duplicate_lem node (message 1) (message 2 ∷ message 1 ∷ message 3 ∷ []) refl (omega arith)
      refl (omega arith)

next_hop-LinkTo_example :
    ((next_hop 1000 node 9 false).0 ≡ addr_invalid)
    ⊎ LinkTo node.neigh (next_hop 1000 node 9 false).0
next_hop-LinkTo_example = next_hop-LinkTo 1000 node 9 false

build_adv-count_example : (build_adv node (replicate 28 0) 28).1 ≡ 13
build_adv-count_example = build_adv-count node (replicate 28 0)
