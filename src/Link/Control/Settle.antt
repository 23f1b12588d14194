-- ===== src/Link/Control/Settle.antt =====
-- The two ends of a link over the events until a change of parameters is due.
use lockgrid.Prelude.{
  ℕ, ◌+◌, ◌*◌, ◌%◌, ◌^◌, ◌≤◌, ◌<◌, ◌≡◌, ap, max, Bool, true, false, ◌||◌, ◌&&◌, List, [], ◌∷◌, leb,
  if◌then◌else◌, arith,
}
use lockgrid.Types.{Schedule}
use lockgrid.Link.{advance, step_of}
use lockgrid.Link.Counter.{At}
use lockgrid.Link.Control.{Ends, Outcome, missed, answered}
use lockgrid.Link.Control.Change.{
  Change, new_map, new_subrate, Holds, moved, settled, advance-clear, advance-holds, map_after,
  subrate_after,
}

-- The responder has the change pending if it heard it, and nothing otherwise.
abbrev pub Taken : Schedule → Change → ℕ → Bool → Type 0
Taken t ch i true = Holds t ch i
Taken t ch i false = t.pending_ctrl ≡ 0

-- The parameters that the two ends share before the change.
pub record Shared : Type 0 where
  pub epoch : ℕ
  pub interval : ℕ
  pub map : ℕ
  pub seed : ℕ
  pub subrate : ℕ

-- MAX(subrate, 1)
abbrev pub stride : Shared → ℕ
stride b = max b.subrate 1

pub record Shares (s : Schedule) (b : Shared) (c : ℕ) : Type 0 where
  pub epoch_is : s.epoch_us ≡ b.epoch
  pub interval_is : s.interval_us ≡ b.interval
  pub map_is : s.chan_map ≡ b.map
  pub seed_is : s.hop_seed ≡ b.seed
  pub subrate_is : s.subrate ≡ b.subrate
  pub running : 0 < b.interval
  pub anchored : s.anchor_us ≡ b.epoch + c * b.interval

-- The two ends stand at the active event `c`, before the event `i` at which the change is due.
pub record Waiting (e : Ends) (b : Shared) (ch : Change) (i c : ℕ) (acked heard : Bool)
    : Type 0 where
  pub here : Shares e.initiator b c
  pub there : Shares e.responder b c
  pub active : c % stride b ≡ 0
  pub ahead : c < i
  pub first : e.initiator.initiator ≡ true
  pub second : e.responder.initiator ≡ false
  pub offered : Holds e.initiator ch i
  pub ack : e.initiator.ctrl_acked ≡ acked
  pub taken : Taken e.responder ch i heard

abbrev pub is_answered : Outcome → Bool
is_answered answered = true
is_answered _ = false

abbrev pub is_heard : Outcome → Bool
is_heard missed = false
is_heard _ = true

-- Whether an exchange of a kind happened among those whose frame carries the change; `loaded` is whether
-- the first of them does.
abbrev pub ever : (Outcome → Bool) → Bool → Bool → List Outcome → Bool
ever test loaded b [] = b
ever test loaded b (o ∷ os) = ever test true (b || (loaded && test o)) os

-- An end after the change: at event `c`, with the new parameters if it applied the change.
pub record Done (s : Schedule) (b : Shared) (ch : Change) (c : ℕ) (applied : Bool) : Type 0 where
  pub at : At s c
  pub epoch_is : s.epoch_us ≡ b.epoch
  pub interval_is : s.interval_us ≡ b.interval
  pub seed_is : s.hop_seed ≡ b.seed
  pub map_is : s.chan_map ≡ (if applied then map_after ch b.map else b.map)
  pub subrate_is : s.subrate ≡ (if applied then subrate_after ch b.subrate else b.subrate)
  pub clear : s.pending_ctrl ≡ 0

unfoldable pub advance_both : Ends → Ends
advance_both e = record { initiator = advance e.initiator; responder = advance e.responder }

-- The responder at its next event.
responder_next : Schedule → ℕ → Change → ℕ → Bool → Schedule
responder_next t n ch i true = settled (moved t n) ch i
responder_next t n ch i false = moved t n

advance-responder :
    (t : Schedule) (c : ℕ) (ch : Change) (i : ℕ) (heard : Bool)
    → At t c
    → c % step_of t ≡ 0
    → c + step_of t < 2 ^ 16
    → t.epoch_us + (c + step_of t) * t.interval_us < 2 ^ 64
    → Taken t ch i heard
    → advance t ≡ responder_next t (c + step_of t) ch i heard
unfolding responder_next
advance-responder t c ch i true a m w f h = advance-holds t c a m w f ch i h
advance-responder t c ch i false a m w f h = advance-clear t c a m w f h

-- Both ends at their next event.
pub next_ends : Ends → ℕ → Change → ℕ → Bool → Ends
next_ends e n ch i heard = record {
  initiator = settled (moved e.initiator n) ch i;
  responder = responder_next e.responder n ch i heard;
}

At-Shares : (s : Schedule) (b : Shared) (c : ℕ) → Shares s b c → c < 2 ^ 16 → At s c
At-Shares s b c h w = ground arith

pub advance_both_lem :
    (e : Ends) (b : Shared) (ch : Change) (i c : ℕ) (acked heard : Bool)
    → Waiting e b ch i c acked heard
    → c + stride b < 2 ^ 16
    → b.epoch + (c + stride b) * b.interval < 2 ^ 64
    → advance_both e ≡ next_ends e (c + stride b) ch i heard
unfolding advance_both next_ends
advance_both_lem e b ch i c acked heard w word time =
    let s = e.initiator in
    let t = e.responder in
    let k : step_of s ≡ stride b = ap (λ (n : ℕ). max n 1) w.here.subrate_is in
    let l : step_of t ≡ stride b = ap (λ (n : ℕ). max n 1) w.there.subrate_is in
    let x =
      advance-holds s c (At-Shares s b c w.here (omega arith)) (rw k w.active) (rw k word)
        (rw (k, w.here.epoch_is, w.here.interval_is) time) ch i w.offered in
    let y =
      advance-responder t c ch i heard (At-Shares t b c w.there (omega arith)) (rw l w.active)
        (rw l word) (rw (l, w.there.epoch_is, w.there.interval_is) time) w.taken in
    cc (x, y, k, l)

pub next-Waiting :
    (e : Ends) (b : Shared) (ch : Change) (i c n : ℕ) (acked heard : Bool)
    → Waiting e b ch i c acked heard
    → n < i
    → n % stride b ≡ 0
    → Waiting (next_ends e n ch i heard) b ch i n acked heard
unfolding next_ends responder_next
next-Waiting e b (new_map m) i c n acked true w before active =
    let early : leb i n ≡ false = ground arith in rw early (ground arith)
next-Waiting e b (new_subrate m) i c n acked true w before active =
    let early : leb i n ≡ false = ground arith in rw early (ground arith)
next-Waiting e b (new_map m) i c n acked false w before active =
    let early : leb i n ≡ false = ground arith in rw early (ground arith)
next-Waiting e b (new_subrate m) i c n acked false w before active =
    let early : leb i n ≡ false = ground arith in rw early (ground arith)

pub initiator-Done :
    (e : Ends) (b : Shared) (ch : Change) (i c n : ℕ) (acked heard : Bool)
    → Waiting e b ch i c acked heard
    → n < 2 ^ 16
    → i ≤ n
    → Done (next_ends e n ch i heard).initiator b ch n acked
unfolding next_ends
initiator-Done e b (new_map m) i c n true heard w word due =
    let late : leb i n ≡ true = ground arith in rw (late, w.first, w.ack) (ground arith)
initiator-Done e b (new_subrate m) i c n true heard w word due =
    let late : leb i n ≡ true = ground arith in rw (late, w.first, w.ack) (ground arith)
initiator-Done e b (new_map m) i c n false heard w word due =
    let late : leb i n ≡ true = ground arith in rw (late, w.first, w.ack) (ground arith)
initiator-Done e b (new_subrate m) i c n false heard w word due =
    let late : leb i n ≡ true = ground arith in rw (late, w.first, w.ack) (ground arith)

pub responder-Done :
    (e : Ends) (b : Shared) (ch : Change) (i c n : ℕ) (acked heard : Bool)
    → Waiting e b ch i c acked heard
    → n < 2 ^ 16
    → i ≤ n
    → Done (next_ends e n ch i heard).responder b ch n heard
unfolding next_ends responder_next
responder-Done e b (new_map m) i c n acked true w word due =
    let late : leb i n ≡ true = ground arith in rw (late, w.second) (ground arith)
responder-Done e b (new_subrate m) i c n acked true w word due =
    let late : leb i n ≡ true = ground arith in rw (late, w.second) (ground arith)
responder-Done e b (new_map m) i c n acked false w word due = ground arith
responder-Done e b (new_subrate m) i c n acked false w word due = ground arith
