-- ===== src/Sec.antt =====
-- subsys/lockgrid/lg_sec.c: the replay filter, and the nonce (Sec/Nonce).
mod Tests
pub mod Seen
pub mod Replay
pub mod Once
pub mod Nonce
pub mod Protect
pub mod Identity
use lockgrid.Prelude.{
  ℕ, ◌+◌, ◌-◌, ◌*◌, ◌^◌, ◌%◌, ◌<◌, min, bit_or, Bool, true, false, List, [], ◌∷◌, ltb, leb, ◌==◌,
  if◌then◌else◌,
}
use lockgrid.Prelude.Bits.{has_bit}
use lockgrid.Types.{Keys, u32}
use lockgrid.Config.{Config}

-- MIN(CONFIG_LOCKGRID_REPLAY_WINDOW, 32)
abbrev pub window : Config → ℕ
window cfg = min cfg.replay_window 32

-- `replay_check`, on the fields of the neighbour that it reads and writes.
pub replay_check : Config → Keys → ℕ → Keys × Bool
replay_check cfg k ctr =
    if ctr == 0
    then (k, false)
    else if ltb k.rx_ctr ctr
    then (
      let shift = ctr - k.rx_ctr in
          let moved = if leb 32 shift then 0 else u32 (k.replay_mask * 2 ^ shift) in
          record k { replay_mask = bit_or moved 1; rx_ctr = ctr },
      true,
    )
    else let behind = k.rx_ctr - ctr in
      if leb (window cfg) behind
      then (k, false)
      else if has_bit k.replay_mask behind
      then (k, false)
      else (record k { replay_mask = bit_or k.replay_mask (2 ^ behind) }, true)

-- The counters that a sequence of checks accepts, in order.
pub accepted : Config → Keys → List ℕ → List ℕ
accepted cfg k [] = []
accepted cfg k (ctr ∷ ctrs) =
    let (k', fresh) = replay_check cfg k ctr in
    let rest = accepted cfg k' ctrs in if fresh then ctr ∷ rest else rest
