-- ===== src/Config.antt =====
-- subsys/lockgrid/Kconfig: the build's constants, and the ranges that Kconfig enforces.
use lockgrid.Prelude.{ℕ, ◌≤◌, arith}
use lockgrid.Prelude.Int.{ℤ, negsuc}

pub record Config : Type 0 where
  pub max_neighbors : ℕ
  pub max_links : ℕ
  pub max_parents : ℕ
  pub router_density_target : ℕ
  pub max_routes : ℕ
  pub tx_queue_size : ℕ
  pub conn_interval_ms : ℕ
  pub conn_interval_min_ms : ℕ
  pub conn_interval_max_ms : ℕ
  pub subrate_max : ℕ
  pub supervision_timeout_ms : ℕ
  pub clock_accuracy_ppm : ℕ
  pub rx_window_min_us : ℕ
  pub rx_window_max_us : ℕ
  pub beacon_interval_ms : ℕ
  pub join_window_floor_ms : ℕ
  pub beacon_idle_factor : ℕ
  pub beacon_suppress_threshold : ℕ
  pub scan_window_us : ℕ
  pub scan_interval_unattached_ms : ℕ
  pub scan_interval_seeking_ms : ℕ
  pub scan_interval_attached_ms : ℕ
  pub max_rank : ℕ
  pub min_links_target : ℕ
  pub chan_eval_period_ms : ℕ
  pub chan_min_good : ℕ
  pub chan_bad_per_permille : ℕ
  pub chan_good_per_permille : ℕ
  pub chan_noise_floor_dbm : ℤ
  pub mic_len : ℕ
  pub replay_window : ℕ

pub record InRange (c : Config) : Type 0 where
  pub neighbors_range : (2 ≤ c.max_neighbors) × (c.max_neighbors ≤ 32)
  pub parents_range : (1 ≤ c.max_parents) × (c.max_parents ≤ 4)
  pub density_range : (1 ≤ c.router_density_target) × (c.router_density_target ≤ 8)
  pub interval_range : (20 ≤ c.conn_interval_ms) × (c.conn_interval_ms ≤ 4000)
  pub interval_min_range : (10 ≤ c.conn_interval_min_ms) × (c.conn_interval_min_ms ≤ 4000)
  pub interval_max_range : (20 ≤ c.conn_interval_max_ms) × (c.conn_interval_max_ms ≤ 32000)
  pub subrate_range : (1 ≤ c.subrate_max) × (c.subrate_max ≤ 32)
  pub supervision_range : (500 ≤ c.supervision_timeout_ms) × (c.supervision_timeout_ms ≤ 60000)
  pub accuracy_range : (1 ≤ c.clock_accuracy_ppm) × (c.clock_accuracy_ppm ≤ 500)
  pub window_min_range : (100 ≤ c.rx_window_min_us) × (c.rx_window_min_us ≤ 5000)
  pub window_max_range : (500 ≤ c.rx_window_max_us) × (c.rx_window_max_us ≤ 60000)
  pub rank_range : (64 ≤ c.max_rank) × (c.max_rank ≤ 32768)
  pub min_good_range : (2 ≤ c.chan_min_good) × (c.chan_min_good ≤ 16)
  pub bad_range : (10 ≤ c.chan_bad_per_permille) × (c.chan_bad_per_permille ≤ 900)
  pub good_range : (5 ≤ c.chan_good_per_permille) × (c.chan_good_per_permille ≤ 500)
  pub mic_range : (4 ≤ c.mic_len) × (c.mic_len ≤ 16)
  pub replay_range : (1 ≤ c.replay_window) × (c.replay_window ≤ 64)

-- The default of each option.
abbrev pub default_config : Config
default_config = record {
  max_neighbors = 8;
  max_links = 4;
  max_parents = 2;
  router_density_target = 2;
  max_routes = 16;
  tx_queue_size = 8;
  conn_interval_ms = 200;
  conn_interval_min_ms = 50;
  conn_interval_max_ms = 2000;
  subrate_max = 16;
  supervision_timeout_ms = 20000;
  clock_accuracy_ppm = 250;
  rx_window_min_us = 200;
  rx_window_max_us = 8000;
  beacon_interval_ms = 500;
  join_window_floor_ms = 30000;
  beacon_idle_factor = 16;
  beacon_suppress_threshold = 3;
  scan_window_us = 30000;
  scan_interval_unattached_ms = 50;
  scan_interval_seeking_ms = 3000;
  scan_interval_attached_ms = 60000;
  max_rank = 512;
  min_links_target = 2;
  chan_eval_period_ms = 30000;
  chan_min_good = 4;
  chan_bad_per_permille = 300;
  chan_good_per_permille = 150;
  chan_noise_floor_dbm = negsuc 74;
  mic_len = 4;
  replay_window = 16;
}

pub default_config-InRange : InRange default_config
default_config-InRange = omega arith
