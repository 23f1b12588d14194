-- ===== src/Sec/Replay.antt =====
-- The sliding window refines the set of all accepted counters.
use lockgrid.Prelude.{
  ℕ, ◌-◌, ◌*◌, ◌^◌, ◌<◌, ◌≤◌, max, bit_or, false, leb, ◌==◌, if◌then◌else◌, ◌≡◌, arith, inl, inr,
  Bool-cases, ◌&&◌, ◌||◌,
}
use lockgrid.Prelude.Bits.{bit, has_bit-bit, bit-bit_or, bit-two-pow, bit-shl, bit-mod, bit-zero}
use lockgrid.Types.{Keys, u32}
use lockgrid.Config.{Config}
use lockgrid.Sec.{window, replay_check}
use lockgrid.Sec.Seen.{Seen, mark, receive}

-- Bit `i` of the mask says whether the counter `i` below the largest one was accepted.
abbrev Bits : ℕ → Seen → Type 0
Bits m s = (i : ℕ) → i < 32 → i < s.highest → bit m i ≡ s.seen (s.highest - i)

pub record Agrees (s : Seen) (k : Keys) : Type 0 where
  pub top : k.rx_ctr ≡ s.highest
  pub bits : Bits k.replay_mask s
  pub above : (c : ℕ) → s.highest < c → s.seen c ≡ false
  pub zero_unseen : s.seen 0 ≡ false

-- The bits of the mask after a move by `shift` and the mark of the new counter.
moved_bit :
    (m shift i : ℕ)
    → i < 32
    → bit (bit_or (if leb 32 shift then 0 else u32 (m * 2 ^ shift)) 1) i
      ≡ ((leb shift i && bit m (i - shift)) || (0 == i))
moved_bit m shift i h = elim (Bool-cases (leb 32 shift)) [
  | inl far ↦ rw (far, bit-bit_or 0 1 i, bit-zero i, bit-two-pow 0 i) (ground arith)
  | inr near ↦ rw (
    near,
    bit-bit_or (u32 (m * 2 ^ shift)) 1 i,
    bit-mod 32 (m * 2 ^ shift) i h,
    bit-shl shift m i,
    bit-two-pow 0 i,
  )
]

forward-Bits :
    (m : ℕ) (s : Seen) (ctr : ℕ)
    → Bits m s
    → ((c : ℕ) → s.highest < c → s.seen c ≡ false)
    → s.highest < ctr
    → Bits
        (bit_or (if leb 32 (ctr - s.highest) then 0 else u32 (m * 2 ^ (ctr - s.highest))) 1)
        (mark s ctr)
unfolding mark
forward-Bits m s ctr b above h i small below =
    let e : max s.highest ctr ≡ ctr = omega arith in
    rw (moved_bit m (ctr - s.highest) i small, e)
      (ground (arith, above (ctr - i), b (i - (ctr - s.highest))))

behind-Bits :
    (m : ℕ) (s : Seen) (ctr : ℕ)
    → Bits m s
    → ctr ≤ s.highest
    → Bits (bit_or m (2 ^ (s.highest - ctr))) (mark s ctr)
unfolding mark
behind-Bits m s ctr b h i small below =
    let e : max s.highest ctr ≡ s.highest = omega arith in
    rw (bit-bit_or m (2 ^ (s.highest - ctr)) i, bit-two-pow (s.highest - ctr) i, e)
      (ground (arith, b i))

-- On every counter the filter decides as the set of all accepted counters does, and goes on
-- agreeing with it, accepted or not.
pub replay_check_refines :
    (cfg : Config) (s : Seen) (k : Keys) (ctr : ℕ)
    → Agrees s k
    → ((replay_check cfg k ctr).1 ≡ (receive (window cfg) s ctr).1)
      × Agrees (receive (window cfg) s ctr).0 (replay_check cfg k ctr).0
unfolding replay_check receive
replay_check_refines cfg s k ctr a = ground (
  arith,
  forward-Bits k.replay_mask s ctr a.bits a.above,
  behind-Bits k.replay_mask s ctr a.bits,
  a.bits (s.highest - ctr),
  a.above ctr,
  has_bit-bit k.replay_mask (s.highest - ctr),
)
