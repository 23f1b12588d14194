-- ===== src/Arbiter/Grant.antt =====
-- No grant is longer than the arbiter's ceiling.
use lockgrid.Prelude.{ℕ, not, ◌&&◌, if◌then◌else◌, ◌+◌, ◌^◌, ◌≤◌, ◌<◌, true, ◌≡◌, arith}
use lockgrid.Arbiter.{
  max_grant_us, Arbiter, request, grant_handler, release, extend, uninit, Op, do_request, do_timer,
  do_release, do_extend, do_uninit, step,
}

-- The request is no longer than the ceiling and ends before the clock wraps, and a grant that is held,
-- which began at `start`, is no longer than the ceiling.
pub record IsBounded (start : ℕ) (a : Arbiter) : Type 0 where
  pub asked : a.req_len_us ≤ max_grant_us
  pub timely : a.req_at_us + max_grant_us < 2 ^ 64
  pub held : a.granted ≡ true → (start ≤ a.grant_end_us) × (a.grant_end_us ≤ start + max_grant_us)

-- When the grant began that is held after a step, from that before: only the timer begins one, at the
-- time that was asked for.
abbrev pub start_after : ℕ → Arbiter → Op → ℕ
start_after start a (do_timer expire) =
    if a.req_pending && not a.req_refuse then a.req_at_us else start
start_after start a _ = start

-- The layer above keeps its side: no request for a time near the end of the clock, and no extension once
-- it has asked for a time other than that at which the grant began.
abbrev pub Obeys : ℕ → Arbiter → Op → Type 0
Obeys start a (do_request now at len refuse armed) = at + max_grant_us < 2 ^ 64
Obeys start a (do_extend extra) = a.req_at_us ≡ start
Obeys start a (do_timer expire) = Unit {0}
Obeys start a do_release = Unit {0}
Obeys start a do_uninit = Unit {0}

-- Every operation keeps each grant within 100 ms of its start and the request within its bounds, requests
-- that are made while a grant is held included. The layer above asks for no time within 100 ms of the
-- end of the clock, and extends a grant only while its latest request is for the time of that grant.
pub step-IsBounded :
    (start : ℕ) (a : Arbiter) (op : Op)
    → Obeys start a op
    → IsBounded start a
    → IsBounded (start_after start a op) (step a op)
unfolding step request grant_handler release extend uninit
step-IsBounded start a (do_request now at len refuse armed) o b =
    ground (arith, o, b.asked, b.timely, b.held)
step-IsBounded start a (do_timer expire) o b = ground (arith, b.asked, b.timely, b.held)
step-IsBounded start a do_release o b = ground (arith, b.asked, b.timely, b.held)
step-IsBounded start a (do_extend extra) o b = ground (arith, o, b.asked, b.timely, b.held)
step-IsBounded start a do_uninit o b = ground (arith, b.asked, b.timely, b.held)
