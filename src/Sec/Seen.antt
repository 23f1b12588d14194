-- ===== src/Sec/Seen.antt =====
-- What the replay filter promises: the set of all counters ever accepted, and the largest one.
use lockgrid.Prelude.{ℕ, ◌-◌, Bool, true, false, ◌||◌, ◌&&◌, not, ltb, ◌==◌, if◌then◌else◌, max}

pub record Seen : Type 0 where
  pub highest : ℕ
  pub seen : ℕ → Bool

-- Nothing has been accepted.
abbrev pub nothing : Seen
nothing = record { highest = 0; seen = λ _. false }

-- A counter is fresh if it is not zero, was never accepted, and is not `w` or more behind.
unfoldable pub is_fresh : ℕ → Seen → ℕ → Bool
is_fresh w s ctr =
    not (ctr == 0) && (not (s.seen ctr) && (ltb s.highest ctr || ltb (s.highest - ctr) w))

unfoldable pub mark : Seen → ℕ → Seen
mark s ctr = record { highest = max s.highest ctr; seen = λ c. c == ctr || s.seen c }

unfoldable pub receive : ℕ → Seen → ℕ → Seen × Bool
unfolding is_fresh mark
receive w s ctr = if is_fresh w s ctr then (mark s ctr, true) else (s, false)
