-- ===== src/Neigh/Tests.antt =====
-- subsys/lockgrid/lg_neigh.c: tests of the table and the metrics, and the theorem at a concrete link.
use lockgrid.Prelude.{◌≤◌, Bool, true, false, [], ◌∷◌, ◌≡◌, refl, arith}
use lockgrid.Prelude.Int.{negsuc}
use lockgrid.Types.{Neigh, linked, heard, zero_neigh, etx_one}
use lockgrid.Neigh.{tx_result, make_room, forgot, idle_loop, worse_of}
use lockgrid.Neigh.Metrics.{IsSane, tx_result-IsSane}

-- A link that lost half of its last forty frames, heard at -90 dBm.
abbrev weak : Neigh
weak = record zero_neigh {
  state = linked;
  addr = 5;
  quality = record zero_neigh.quality {
    rssi = negsuc 89;
    etx_q4 = 40;
    per_permille = 500;
    link_cost = 44;
    tx_attempts = 40;
    tx_acked = 20;
  };
}

weak-IsSane : IsSane weak.quality
weak-IsSane = record {
  etx_range = omega arith;
  counted = omega arith;
  rate = omega arith;
  signal = omega arith;
}

tx_result-IsSane_example :
    ((acked : Bool)
      → IsSane (tx_result weak acked).quality
        × (etx_one ≤ (tx_result weak acked).link_cost)
        × ((tx_result weak acked).link_cost ≤ 144))
    × ((tx_result weak true).etx_q4 ≤ 40)
    × ((tx_result weak true).consec_misses ≡ 0)
    × (40 ≤ (tx_result weak false).etx_q4)
tx_result-IsSane_example = tx_result-IsSane weak weak-IsSane

make_room_test : make_room (weak ∷ record weak { state = heard } ∷ []) 20 ≡ forgot 1
unfolding make_room idle_loop worse_of
make_room_test = refl
