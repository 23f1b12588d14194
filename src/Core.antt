-- ===== src/Core.antt =====
-- subsys/lockgrid/lg_core.c: the runtime tuning, and the rings (Core/Ring). The retuning of discovery and of
-- the scheduler that `lg_tuning_set` ends with is not part of it.
pub mod Tuning
pub mod Ring
pub mod Queue
mod Tests
use lockgrid.Prelude.{
  ℕ, ◌+◌, ◌*◌, ◌/◌, ◌%◌, ◌^◌, ◌≤◌, ◌<◌, min, max, Bool, true, false, ◌||◌, ltb, leb, ◌==◌,
  if◌then◌else◌,
}
use lockgrid.Types.{u8, u32}
use lockgrid.Config.{Config}

-- `struct lg_tuning`
pub record Tune : Type 0 where
  pub conn_interval_us : ℕ
  pub subrate_max : ℕ
  pub sup_timeout_us : ℕ
  pub scan_unattached_us : ℕ
  pub scan_seeking_us : ℕ
  pub scan_attached_us : ℕ
  pub scan_window_us : ℕ
  pub beacon_interval_us : ℕ
  pub beacon_idle_factor : ℕ
  pub join_window_floor_us : ℕ

-- `lg_subrate_ceiling`
unfoldable pub subrate_ceiling : ℕ → ℕ → ℕ
subrate_ceiling interval timeout =
    if (interval == 0) || (timeout == 0)
    then 1
    else u8 (min (max (timeout / u32 (interval * 3)) 1) 32)

-- `lg_tuning_init`
unfoldable pub tuning_init : Config → Tune
tuning_init cfg =
    let interval = u32 (cfg.conn_interval_ms * 1000) in
    let timeout = u32 (cfg.supervision_timeout_ms * 1000) in
    record {
      conn_interval_us = interval;
      subrate_max = min (u8 cfg.subrate_max) (subrate_ceiling interval timeout);
      sup_timeout_us = timeout;
      scan_unattached_us = u32 (cfg.scan_interval_unattached_ms * 1000);
      scan_seeking_us = u32 (cfg.scan_interval_seeking_ms * 1000);
      scan_attached_us = u32 (cfg.scan_interval_attached_ms * 1000);
      scan_window_us = cfg.scan_window_us;
      beacon_interval_us = u32 (cfg.beacon_interval_ms * 1000);
      beacon_idle_factor = u8 cfg.beacon_idle_factor;
      join_window_floor_us = u32 (cfg.join_window_floor_ms * 1000);
    }

-- CLAMP
abbrev pub clamp : ℕ → ℕ → ℕ → ℕ
clamp v low high = if leb v low then low else min v high

-- What `lg_tuning_set` stores for the values that it is given.
unfoldable pub tuning_set : Config → Tune → Tune
tuning_set cfg t =
    let interval =
      clamp t.conn_interval_us (u32 (cfg.conn_interval_min_ms * 1000))
        (u32 (cfg.conn_interval_max_ms * 1000)) in
    let timeout = max t.sup_timeout_us (u32 (interval * 4)) in
    let window = max t.scan_window_us 2000 in
    record t {
      conn_interval_us = interval;
      sup_timeout_us = timeout;
      subrate_max = max 1 (min t.subrate_max (subrate_ceiling interval timeout));
      scan_window_us = window;
      scan_unattached_us = max t.scan_unattached_us window;
      scan_seeking_us = max t.scan_seeking_us window;
      scan_attached_us = max t.scan_attached_us window;
      beacon_interval_us = max t.beacon_interval_us 100000;
      beacon_idle_factor = max 1 t.beacon_idle_factor;
    }
