-- ===== src/Disc/Tests.antt =====
-- subsys/lockgrid/lg_disc.c: a router that offers a join window, a leaf that hears it, and the theorems
-- there.
use lockgrid.Prelude.{
  ℕ, true, false, [], ◌∷◌, List, replicate, some, Option, ◌≡◌, refl, arith, length, All,
}
use lockgrid.Prelude.Int.{negsuc}
use lockgrid.Types.{Neigh, leaf, router, linked, zero_neigh, rank_infinite}
use lockgrid.Config.{default_config}
use lockgrid.Neigh.{linked_count}
use lockgrid.Route.{Grid, has_route}
use lockgrid.Route.Routes.{no_route}
use lockgrid.Core.{Tune, tuning_init}
use lockgrid.Disc.{Disc, Copy}
use lockgrid.Disc.Beacon.{beacon_of, offers, stage, start, join_window_worthwhile}
use lockgrid.Disc.Beacon.Bytes.{Macs}
use lockgrid.Disc.Beacon.Window.{Staging, transmit, Points, transmit-Points}
use lockgrid.Disc.Candidate.{is_useful, is_useful-exclusive}

abbrev peer : Neigh
peer = record zero_neigh { state = linked; addr = 3 }

-- A router of rank 20 with one link, and a leaf with none.
abbrev routed : Grid
routed = record {
  addr = 1;
  role = router;
  rank = 20;
  neigh = peer ∷ [];
  routes = replicate 4 no_route;
  dup_cache = replicate 16 (record { origin = 0; msg_id = 0 });
  dup_next = 0;
  adv_urgent = false;
  parent_switches = 0;
}

abbrev lonely : Grid
lonely = record routed { addr = 2; role = leaf; rank = rank_infinite; neigh = [] }

abbrev blank : Copy
blank = record { pdu = replicate 125 0; len = 0; chan = 0 }

abbrev disc : Disc
disc = record {
  network_id = 7;
  chan_map = 0xffff;
  next_beacon_us = 1000000;
  next_scan_us = 2000000;
  beacons_heard = 0;
  scan_chan_idx = 0;
  want_addr = 0;
  want_until_us = 0;
  join_win_us = 0;
  joiner_hint_us = 900000;
  link_change_us = 0;
  offers_join = false;
  last_join_window_us = 0;
  beacon_epoch = 4;
  planned_us = 1500000;
  copies = blank ∷ blank ∷ blank ∷ [];
  copy_idx = 0;
  beacons_tx = 0;
  beacons_rx = 0;
  scans = 0;
  tracked_beacons = 0;
  auth_failures = 0;
}

abbrev tune : Tune
tune = tuning_init default_config

zero_mac : List ℕ → Option (List ℕ)
zero_mac frame = some (replicate 4 0)

zero_mac-Macs : Macs zero_mac
unfolding zero_mac
zero_mac-Macs = record { tags = λ frame. (replicate 4 0, refl, refl) }

offered : offers default_config tune 999000 routed disc ≡ true
unfolding offers join_window_worthwhile linked_count
offered = refl

staged_in : Staging routed disc blank blank blank
staged_in = record {
  three = refl;
  buffers = (refl, refl, refl);
  network_fits = omega arith;
  epoch_fits = omega arith;
  map_fits = omega arith;
  rank_fits = omega arith;
  after = omega arith;
  near = omega arith;
  no_wrap = omega arith;
}

transmit-Points_example :
    let staged = stage default_config tune zero_mac 999000 routed disc in
    let begun = start default_config true 1000000 staged in
    let done = transmit 4 30 begun.0 begun.1 in
    (length done.1 ≡ 3) × All (Points done.0.join_win_us 1500000) done.1
transmit-Points_example =
    transmit-Points default_config tune zero_mac 999000 30 routed disc blank blank blank
      zero_mac-Macs staged_in (omega arith) offered

leaf_wants_router :
    is_useful default_config lonely (beacon_of default_config routed disc true 0) 1 (negsuc 59)
    ≡ true
unfolding is_useful beacon_of linked_count has_route
leaf_wants_router = refl

is_useful-exclusive_example :
    is_useful default_config routed (beacon_of default_config lonely disc true 1) 2 (negsuc 59)
    ≡ false
is_useful-exclusive_example =
    is_useful-exclusive default_config default_config lonely routed disc disc true true 1 0
      (negsuc 59) (negsuc 59) (omega arith) (omega arith) leaf_wants_router
