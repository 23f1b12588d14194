-- ===== src/Arbiter.antt =====
-- subsys/lockgrid/lg_ts_direct.c: the arbiter of a node that owns its radio. The timer of the chip is
-- a parameter of the operations that arm it: whether arming a compare channel fails. The random
-- number of the synthetic contention is one too.
pub mod Grant
mod Tests
use lockgrid.Prelude.{
  ℕ, ◌+◌, ◌-◌, ◌%◌, ◌^◌, ◌≤◌, ◌<◌, min, Bool, true, false, not, ◌&&◌, ◌||◌, ltb, leb, ◌==◌,
  if◌then◌else◌,
}
use lockgrid.Types.{u32, u64}

-- LG_TS_MAX_GRANT_US, LG_TS_MIN_LEAD_US
abbrev pub max_grant_us : ℕ
max_grant_us = 100000

abbrev pub min_lead_us : ℕ
min_lead_us = 5

-- The fields of `ts` that are not handles of the timer or callbacks.
pub record Arbiter : Type 0 where
  pub granted : Bool
  pub grant_end_us : ℕ
  pub req_pending : Bool
  pub req_refuse : Bool
  pub req_at_us : ℕ
  pub req_len_us : ℕ

-- What an operation returns, or which callback a timer interrupt makes.
pub data Reply : Type 0 where
  accepted : Reply
  invalid : Reply
  timer_error : Reply
  busy : Reply

pub data Callback : Type 0 where
  silent : Callback
  granted_cb : ℕ → Callback
  failed_cb : Callback

-- `refuse_request`, on the configured share and the random number.
unfoldable pub refuse_request : ℕ → ℕ → Bool
refuse_request permille random = if permille == 0 then false else ltb (random % 1000) permille

-- `lg_ts_request`: `refuse` is what `refuse_request` returned, `armed` whether the timer could be set.
unfoldable pub request : Arbiter → ℕ → ℕ → ℕ → Bool → Bool → Arbiter × Reply
request a now at len refuse armed =
    if ltb at (u64 (now + min_lead_us))
    then (a, invalid)
    else let asked = record a {
      req_at_us = at;
      req_len_us = min len max_grant_us;
      req_pending = true;
      req_refuse = refuse;
    } in
      if armed then (asked, accepted) else (record asked { req_pending = false }, timer_error)

-- `grant_handler`, at the time that the compare channel was set to.
unfoldable pub grant_handler : Arbiter → ℕ → Arbiter × Callback
grant_handler a expire =
    if not a.req_pending
    then (a, silent)
    else if a.req_refuse
    then (record a { req_pending = false; req_refuse = false }, failed_cb)
    else (
      record a {
        req_pending = false;
        granted = true;
        grant_end_us = u64 (a.req_at_us + a.req_len_us);
      },
      granted_cb expire,
    )

-- `lg_ts_release`
unfoldable pub release : Arbiter → Arbiter
release a = record a { granted = false; grant_end_us = 0 }

-- `lg_ts_extend`; the difference and the sum are of `uint64_t`.
unfoldable pub extend : Arbiter → ℕ → Arbiter × Reply
extend a extra =
    if not a.granted
    then (a, busy)
    else if ltb max_grant_us (u64 (u64 (a.grant_end_us + 2 ^ 64 - a.req_at_us) + extra))
    then (a, busy)
    else (record a { grant_end_us = u64 (a.grant_end_us + extra) }, accepted)

-- `lg_ts_uninit`, on these fields.
unfoldable pub uninit : Arbiter → Arbiter
uninit a = record a { granted = false; req_pending = false }

-- `lg_ts_grant_end_us`
unfoldable pub grant_end : Arbiter → ℕ
grant_end a = if a.granted then a.grant_end_us else 0

-- The steps of the arbiter: what the layer above and the timer do to it, at a time each.
pub data Op : Type 0 where
  do_request : ℕ → ℕ → ℕ → Bool → Bool → Op
  do_timer : ℕ → Op
  do_release : Op
  do_extend : ℕ → Op
  do_uninit : Op

unfoldable pub step : Arbiter → Op → Arbiter
step a (do_request now at len refuse armed) = (request a now at len refuse armed).0
step a (do_timer expire) = (grant_handler a expire).0
step a do_release = release a
step a (do_extend extra) = (extend a extra).0
step a do_uninit = uninit a

abbrev pub reset : Arbiter
reset = record {
  granted = false;
  grant_end_us = 0;
  req_pending = false;
  req_refuse = false;
  req_at_us = 0;
  req_len_us = 0;
}
