-- ===== src/Arbiter/Tests.antt =====
-- subsys/lockgrid/lg_ts_direct.c: a grant and its extension, and the theorem there.
use lockgrid.Prelude.{true, false, ◌≡◌, refl, arith}
use lockgrid.Arbiter.{
  Arbiter, reset, step, do_request, do_timer, do_extend, request, grant_handler, extend, busy,
}
use lockgrid.Arbiter.Grant.{IsBounded, step-IsBounded}

-- A grant of 90 ms from one second on.
abbrev holding : Arbiter
holding = record {
  granted = true;
  grant_end_us = 1090000;
  req_pending = false;
  req_refuse = false;
  req_at_us = 1000000;
  req_len_us = 90000;
}

grant_test :
    step (step reset (do_request 999000 1000000 90000 false true)) (do_timer 1000000) ≡ holding
unfolding step request grant_handler
grant_test = refl

extend_test : (extend holding 10001).1 ≡ busy
unfolding extend
extend_test = refl

holding-IsBounded : IsBounded 1000000 holding
holding-IsBounded = record { asked = omega arith; timely = omega arith; held = λ h. omega arith }

step-IsBounded_example : IsBounded 1000000 (step holding (do_extend 10000))
step-IsBounded_example = step-IsBounded 1000000 holding (do_extend 10000) refl holding-IsBounded
