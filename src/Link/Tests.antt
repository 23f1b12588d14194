-- ===== src/Link/Tests.antt =====
-- subsys/lockgrid/lg_link.c: the theorems on the schedule of a link, at a concrete link.
use lockgrid.Prelude.{ℕ, ◌+◌, ◌*◌, true, false, none, some, ◌≡◌, refl, arith}
use lockgrid.Types.{Schedule, Neigh, linked, zero_neigh}
use lockgrid.Config.{default_config}
use lockgrid.Link.{
  counter_of, reanchor, catch_up_loop, next_event_us, window_us, half_window_us, elapsed_us,
}
use lockgrid.Link.Counter.{At, reanchor-counter_of}
use lockgrid.Link.CatchUp.{IsFirst, HasRoom}
use lockgrid.Link.Agree.{OneLink, catch_up_agrees}
use lockgrid.Link.NextEvent.{limit_of, next_event_us-overrun, next_event_us-IsFirst}

-- Event 6 of a link that started at one second, with an event each 100 ms of which every third is
-- used.
abbrev sixth : Schedule
sixth = record zero_neigh.schedule {
  initiator = true;
  epoch_us = 1000000;
  interval_us = 100000;
  anchor_us = 1600000;
  counter = 6;
  subrate = 3;
}

-- The other end of that link, at event 9.
abbrev ninth : Schedule
ninth = record sixth { initiator = false; anchor_us = 1900000; counter = 9 }

sixth-At : At sixth 6
sixth-At = record { running = omega arith; anchored = refl; word = omega arith }

ninth-At : At ninth 9
ninth-At = record { running = omega arith; anchored = refl; word = omega arith }

sixth-HasRoom : HasRoom sixth 2050000 12
sixth-HasRoom = record { late = omega arith; numbers = omega arith; times = omega arith }

same_link : OneLink sixth ninth
same_link = record { epoch = refl; interval = refl; subrate = refl }

catch_up_agrees_example :
    (e : ℕ) × (s' t' : Schedule) × (i j : ℕ) × (catch_up_loop 13 2050000 sixth 0 ≡ some (s', i))
    × (catch_up_loop 13 2050300 ninth 0 ≡ some (t', j))
    × (counter_of s' ≡ e)
    × (counter_of t' ≡ e)
    × (s' ≡ record sixth { anchor_us = 1000000 + e * 100000; counter = s'.counter })
    × (t' ≡ record ninth { anchor_us = 1000000 + e * 100000; counter = t'.counter })
catch_up_agrees_example =
    catch_up_agrees 13 2050000 2050300 6 9 12 12 sixth ninth 0 0 same_link
      (λ x h. (λ l. omega arith, λ l. omega arith)) sixth-At ninth-At refl refl sixth-HasRoom
      (record { late = omega arith; numbers = omega arith; times = omega arith }) (omega arith)
      (omega arith) (omega arith) (omega arith)

reanchor-counter_of_example : counter_of (reanchor ninth 1900000 1900037) ≡ counter_of ninth
reanchor-counter_of_example =
    reanchor-counter_of ninth 1900037 (omega arith) (omega arith) (omega arith) (omega arith)
      (omega arith)

abbrev peer : Neigh
peer = record zero_neigh { state = linked; schedule = sixth }

-- At two seconds the limit is 2000400.
peer-limit : limit_of default_config 2000000 peer ≡ 2000400
unfolding window_us half_window_us elapsed_us
peer-limit = refl

next_event_us-IsFirst_example :
    (e at count : ℕ) × (n' : Neigh) × (next_event_us default_config 13 2000000 peer 0
      ≡ some (at, n', count))
    × (at ≡ 1000000 + e * 100000)
    × (n'.schedule ≡ record sixth { anchor_us = at; counter = n'.counter })
    × (counter_of n'.schedule ≡ e)
    × IsFirst sixth (limit_of default_config 2000000 peer) e
next_event_us-IsFirst_example =
    next_event_us-IsFirst default_config 13 2000000 6 12 peer 0 refl sixth-At
      (omega (arith, peer-limit))
      (record { late = omega (arith, peer-limit); numbers = omega arith; times = omega arith })
      (omega arith)

-- Two hours on, at an interval of 100 ms, the event numbers have run out.
late-limit : limit_of default_config 8200000000 peer ≡ 8200000400
unfolding window_us half_window_us elapsed_us
late-limit = refl

next_event_us-overrun_example : next_event_us default_config 1000000 8200000000 peer 0 ≡ none
next_event_us-overrun_example =
    next_event_us-overrun default_config 1000000 8200000000 peer 0 refl (omega arith)
      (omega (arith, late-limit)) (omega (arith, late-limit))
