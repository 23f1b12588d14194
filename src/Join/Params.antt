-- ===== src/Join/Params.antt =====
-- `struct lg_link_params` of subsys/lockgrid/lg_frame.h, and `link_params_fill` of
-- subsys/lockgrid/lg_join.c.
use lockgrid.Prelude.{ℕ, ◌≡◌, refl, length, ◌*◌, ◌/◌, List, get_or, set, replicate}
use lockgrid.Types.{u8, u16, u32, role_code}
use lockgrid.Config.{Config}
use lockgrid.Frame.{put_le16, put_le32, get_le16, get_le32}
use lockgrid.Core.{Tune}
use lockgrid.Route.{Grid}

pub record LinkParams : Type 0 where
  pub interval : ℕ
  pub anchor_offset : ℕ
  pub chan_map : ℕ
  pub hop_seed : ℕ
  pub sup_timeout_cs : ℕ
  pub subrate_max : ℕ
  pub sca_ppm : ℕ
  pub role : ℕ
  pub rank : ℕ

-- `sizeof(struct lg_link_params)`
abbrev pub params_size : ℕ
params_size = 20

-- The bytes of the packed structure.
unfoldable pub pack : LinkParams → List ℕ
pack p =
    let times = put_le32 (put_le32 (replicate params_size 0) 0 p.interval) 4 p.anchor_offset in
    let hops =
      put_le16 (put_le16 (put_le16 times 8 p.chan_map) 10 p.hop_seed) 12 p.sup_timeout_cs in
    put_le16 (set (put_le16 (set hops 14 (u8 p.subrate_max)) 15 p.sca_ppm) 17 (u8 p.role)) 18 p.rank

pub length-pack : (p : LinkParams) → length (pack p) ≡ params_size
unfolding pack put_le16 put_le32
length-pack p = refl

unfoldable pub unpack : List ℕ → LinkParams
unpack raw = record {
  interval = get_le32 raw 0;
  anchor_offset = get_le32 raw 4;
  chan_map = get_le16 raw 8;
  hop_seed = get_le16 raw 10;
  sup_timeout_cs = get_le16 raw 12;
  subrate_max = get_or raw 14 0;
  sca_ppm = get_le16 raw 15;
  role = get_or raw 17 0;
  rank = get_le16 raw 18;
}

-- `link_params_fill`; `seed` is what `lg_sec_rand` leaves in `hop_seed`.
unfoldable pub fill : Config → Tune → Grid → ℕ → ℕ → LinkParams
fill cfg tune g map seed = record {
  interval = tune.conn_interval_us;
  anchor_offset = u32 (tune.conn_interval_us * 2);
  chan_map = map;
  hop_seed = seed;
  sup_timeout_cs = u16 (tune.sup_timeout_us / 10000);
  subrate_max = tune.subrate_max;
  sca_ppm = u16 cfg.clock_accuracy_ppm;
  role = role_code g.role;
  rank = g.rank;
}
