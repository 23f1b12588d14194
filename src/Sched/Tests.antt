-- ===== src/Sched/Tests.antt =====
-- subsys/lockgrid/lg_sched.c: three candidates, of which the handshake is chosen.
use lockgrid.Prelude.{List, [], ◌∷◌, none, some, ◌≡◌, refl, arith}
use lockgrid.Sched.{
  Candidate, ev_scan, ev_link, ev_join_tx, select_candidate, earliest, contend, beats,
}
use lockgrid.Sched.Select.{Chosen, Over, Timely, select_candidate_lem}

abbrev link : Candidate
link = record { kind = ev_link; anchor_us = 1020000; neigh = some 0; prio = 1 }

abbrev handshake : Candidate
handshake = record { kind = ev_join_tx; anchor_us = 1040000; neigh = some 1; prio = 3 }

abbrev scan : Candidate
scan = record { kind = ev_scan; anchor_us = 1000000; neigh = none; prio = 0 }

abbrev three : List Candidate
three = link ∷ handshake ∷ scan ∷ []

select_candidate_test : select_candidate three ≡ some handshake
unfolding select_candidate earliest contend beats
select_candidate_test = refl

three-Timely : Timely 1000000 three
three-Timely = omega arith

select_candidate_lem_example :
    (x : Candidate) × (select_candidate three ≡ some x) × Chosen three x × Over x link
select_candidate_lem_example =
    select_candidate_lem 1000000 three 0 link three-Timely refl (omega arith)
