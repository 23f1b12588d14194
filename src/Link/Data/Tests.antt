-- ===== src/Link/Data/Tests.antt =====
-- subsys/lockgrid/lg_link.c: a message of five bytes to node 2, and the theorems there.
use lockgrid.Prelude.{
  ℕ, zero, suc, ◌≡◌, refl, true, false, arith, List, [], ◌∷◌, some, replicate, ◌++◌,
}
use lockgrid.Prelude.Int.{negsuc}
use lockgrid.Types.{router, zero_neigh, linked}
use lockgrid.Route.{Grid}
use lockgrid.Route.Duplicates.{is_duplicate, in_cache}
use lockgrid.Core.Queue.{TxMsg, no_message}
use lockgrid.Core.Queue.Sound.{Sound, AllFine}
use lockgrid.Link.Data.{data_body, handle_data, hops_max}
use lockgrid.Link.Data.Bounds.{QueueEvent, sends, hears, settles, run, run-Sound}
use lockgrid.Link.Data.Carry.{Fits, handle_data-data_body}

abbrev here : Grid
here = record {
  addr = 2;
  role = router;
  rank = 20;
  neigh = record zero_neigh { state = linked; addr = 1 } ∷ [];
  routes = [];
  dup_cache = replicate 16 (record { origin = 0; msg_id = 0 });
  dup_next = 0;
  adv_urgent = false;
  parent_switches = 0;
}

abbrev hello : TxMsg
hello = record no_message {
  used = true;
  final = 2;
  origin = 7;
  port = 3;
  hops = 4;
  msg_id = 900;
  len = 5;
  payload = (1 ∷ 2 ∷ 3 ∷ 4 ∷ 5 ∷ []) ++ replicate 59 0;
}

hello-Fits : Fits hello
hello-Fits = record {
  flags_word = omega arith;
  origin_word = omega arith;
  final_word = omega arith;
  hops_word = omega arith;
  port_word = omega arith;
  msg_id_word = omega arith;
  short = omega arith;
  buffer = refl;
}

abbrev places : List TxMsg
places = replicate 8 no_message

free-AllFine : (k : ℕ) → AllFine hops_max (replicate k no_message)
free-AllFine zero = tt
free-AllFine (suc k) = ((refl, omega arith, omega arith), free-AllFine k)

handle_data-data_body_example :
    handle_data 5000 true here places 1 (data_body hello) (negsuc 59) ≡ record {
      grid = (is_duplicate here (record { origin = 7; msg_id = 900 })).0;
      queue = places;
      delivered = some (record {
        src = 7;
        prev_hop = 1;
        port = 3;
        rssi = negsuc 59;
        hops = 4;
        payload = 1 ∷ 2 ∷ 3 ∷ 4 ∷ 5 ∷ [];
      });
      forwarded = false;
      dropped = false;
    }
unfolding is_duplicate in_cache
handle_data-data_body_example =
    handle_data-data_body 5000 true here places 1 (negsuc 59) hello hello-Fits refl refl

-- A message to neighbour 1 is sent, one for node 9 is heard, and an event with neighbour 1 ends.
abbrev events : List (ℕ × Grid × QueueEvent)
events =
    (5000, here, sends true 17 1 3 (1 ∷ 2 ∷ []) true)
    ∷ (6000, here, hears true 1 (data_body (record hello { final = 9 })) (negsuc 59))
    ∷ (7000, here, settles 1 true true true)
    ∷ []

run-Sound_example : Sound hops_max 8 (run places events)
run-Sound_example = run-Sound 8 events places (free-AllFine 8, refl)
