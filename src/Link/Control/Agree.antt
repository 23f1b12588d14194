-- ===== src/Link/Control/Agree.antt =====
-- Where the two ends of a link stand once a change of parameters was due.
use native.Mathlib.Nat.{mul-le-mul_right, add-mul, one-mul, add-mod_right}
use lockgrid.Prelude.{
  ℕ, suc, ◌+◌, ◌*◌, ◌%◌, ◌^◌, ◌≤◌, ◌<◌, ◌≡◌, refl, ◌∙◌, ap, Bool, true, false, ◌||◌, ◌&&◌, List, [],
  ◌∷◌, length, arith,
}
use lockgrid.Config.{Config}
use lockgrid.Link.{next_chan}
use lockgrid.Link.Counter.{counter_of-At}
use lockgrid.Link.Control.{
  Ends, Air, Outcome, missed, unanswered, answered, exchange, exchanges, restage,
}
use lockgrid.Link.Control.Change.{Change, Fits, map_after, subrate_after}
use lockgrid.Link.Control.Settle.{
  advance_both, Shared, stride, Waiting, Done, is_answered, is_heard, ever, advance_both_lem,
  next_ends, next-Waiting, initiator-Done, responder-Done,
}
use lockgrid.Link.Control.Deliver.{
  Carries, taken_ends, deliver_lem, taken-Waiting, staged-Waiting, staged-Carries, staged-Done,
}

-- Each end alone, after the events `os` from event `c` on.
record Finished (e : Ends) (b : Shared) (ch : Change) (c : ℕ) (acked heard : Bool) : Type 0 where
  initiator_done : Done e.initiator b ch c acked
  responder_done : Done e.responder b ch c heard

stride-suc : (b : Shared) (c n : ℕ) → c + suc n * stride b ≡ c + stride b + n * stride b
stride-suc b c n =
    let k = stride b in
    let e : suc n * k ≡ n * k + k = omega (arith, add-mul n 1 k, one-mul k) in omega arith

module _ (cfg : Config) (b : Shared) (ch : Change) (i : ℕ) (fits : Fits ch)
    (word : i + stride b < 2 ^ 16) (time : b.epoch + (i + stride b) * b.interval < 2 ^ 64) where
  event_time : (n : ℕ) → n ≤ i + stride b → b.epoch + n * b.interval < 2 ^ 64
  event_time n h = omega (arith, mul-le-mul_right b.interval h)

  -- The air after an exchange, in closed form.
  exchange-next :
      (x : Air) (c : ℕ) (acked heard loaded : Bool) (o : Outcome)
      → Waiting x.ends b ch i c acked heard
      → Carries x ch i loaded
      → exchange cfg x o
        ≡ restage (
            next_ends
              (taken_ends loaded o ch i x.ends)
              (c + stride b)
              ch
              i
              (heard || (loaded && is_heard o)))
  unfolding exchange advance_both
  exchange-next x c acked heard loaded o w k =
      let start = event_time 0 (omega arith) in
      ap (λ (e : Ends). restage (advance_both e))
        (deliver_lem cfg ch i fits (omega arith) x b o c acked heard loaded w k (omega arith))
      ∙ ap restage (
          advance_both_lem (taken_ends loaded o ch i x.ends) b ch i c
            (acked || (loaded && is_answered o)) (heard || (loaded && is_heard o))
            (taken-Waiting cfg ch i fits (omega arith) x.ends b o c acked heard loaded w)
            (omega (arith, w.ahead)) (event_time (c + stride b) (omega (arith, w.ahead))))

  exchanges-cons :
      (x : Air) (o : Outcome) (os : List Outcome)
      → exchanges cfg x (o ∷ os) ≡ exchanges cfg (exchange cfg x o) os
  unfolding exchanges
  exchanges-cons x o os = refl

  finish :
      (os : List Outcome) (x : Air) (c : ℕ) (acked heard loaded : Bool)
      → Waiting x.ends b ch i c acked heard
      → Carries x ch i loaded
      → i ≤ c + length os * stride b
      → c + length os * stride b < i + stride b
      → Finished
          (exchanges cfg x os).ends
          b
          ch
          (c + length os * stride b)
          (ever is_answered loaded acked os)
          (ever is_heard loaded heard os)
  unfolding exchanges
  finish [] x c acked heard loaded w k due last = absurd (omega (arith, w.ahead))
  finish (o ∷ []) x c acked heard loaded w k due last =
      let acked' = acked || (loaded && is_answered o) in
      let heard' = heard || (loaded && is_heard o) in
      let e = taken_ends loaded o ch i x.ends in
      let w' = taken-Waiting cfg ch i fits (omega arith) x.ends b o c acked heard loaded w in
      let n = c + stride b in
      let one : c + 1 * stride b ≡ c + stride b = omega arith in
      let ended =
        staged-Done (next_ends e n ch i heard') b ch n acked' heard'
          (initiator-Done e b ch i c n acked' heard' w' (omega arith) (omega arith))
          (responder-Done e b ch i c n acked' heard' w' (omega arith) (omega arith)) in
      rw (one, exchange-next x c acked heard loaded o w k)
        (record { initiator_done = ended.0; responder_done = ended.1 })
  finish (o ∷ p ∷ os) x c acked heard loaded w k due last =
      let acked' = acked || (loaded && is_answered o) in
      let heard' = heard || (loaded && is_heard o) in
      let e = taken_ends loaded o ch i x.ends in
      let w' = taken-Waiting cfg ch i fits (omega arith) x.ends b o c acked heard loaded w in
      let more = stride-suc b c (suc (length os)) in
      let more' = stride-suc b (c + stride b) (length os) in
      let active : (c + stride b) % stride b ≡ 0 = add-mod_right c (stride b) ∙ w.active in
      let n = c + stride b in
      let next = next-Waiting e b ch i c n acked' heard' w' (omega (arith, more, more')) active in
      rw (exchanges-cons x o (p ∷ os), exchange-next x c acked heard loaded o w k, more)
        (finish (p ∷ os) (restage (next_ends e n ch i heard')) n acked' heard' true
          (staged-Waiting (next_ends e n ch i heard') b ch i n acked' heard' next)
          (staged-Carries (next_ends e n ch i heard') b ch i n acked' heard' next)
          (omega (arith, more')) (omega (arith, more')))

-- The initiator has a change pending for event `i`, and the exchanges `os` are those up to it, lost or
-- answered in any order. The frame that the initiator has staged carries the change if `loaded`, and no
-- change otherwise; then the exchanges that count begin with the second. Afterwards, before
-- `subrate_update` looks for a further change, neither end has anything pending, both stand at the same event, and the initiator has the new parameter exactly if
-- some exchange that counts was answered, the responder exactly if it heard one. The responder expects
-- the initiator where it is, both read one clock, and event numbers and times do not wrap before then.
pub exchanges-Done :
    (cfg : Config) (b : Shared) (ch : Change) (i c : ℕ) (loaded : Bool) (os : List Outcome)
    (x : Air)
    → Fits ch
    → i + stride b < 2 ^ 16
    → b.epoch + (i + stride b) * b.interval < 2 ^ 64
    → Waiting x.ends b ch i c false false
    → Carries x ch i loaded
    → i ≤ c + length os * stride b
    → c + length os * stride b < i + stride b
    → Done
        (exchanges cfg x os).ends.initiator
        b
        ch
        (c + length os * stride b)
        (ever is_answered loaded false os)
      × Done
          (exchanges cfg x os).ends.responder
          b
          ch
          (c + length os * stride b)
          (ever is_heard loaded false os)
exchanges-Done cfg b ch i c loaded os x fits word time w k due last =
    let f = finish cfg b ch i fits word time os x c false false loaded w k due last in
    (f.initiator_done, f.responder_done)

ever-true :
    (test : Outcome → Bool) (loaded : Bool) (os : List Outcome) → ever test loaded true os ≡ true
ever-true test loaded [] = refl
ever-true test loaded (o ∷ os) = ever-true test true os

heard-answered :
    (os : List Outcome) (x loaded : Bool)
    → ever is_answered loaded false os ≡ true
    → ever is_heard loaded x os ≡ true
heard-answered os true loaded h = ever-true is_heard loaded os
heard-answered [] false loaded h = h
heard-answered (o ∷ os) false false h = heard-answered os false true h
heard-answered (missed ∷ os) false true h = heard-answered os false true h
heard-answered (unanswered ∷ os) false true h = ever-true is_heard true os
heard-answered (answered ∷ os) false true h = ever-true is_heard true os

-- The initiator has a change pending for event `i`, the responder expects it where it is, both read one
-- clock, and neither event numbers nor times wrap up to that event. If at least one of the exchanges up
-- to it was answered of which the initiator's frame carried the change, as those from the second on do
-- and the first does if `loaded`, both ends have made the change: they go on with the same channel for
-- their next event, the same channel map and the same subrate, with the new value.
pub exchanges_agree :
    (cfg : Config) (b : Shared) (ch : Change) (i c : ℕ) (loaded : Bool) (os : List Outcome)
    (x : Air)
    → Fits ch
    → i + stride b < 2 ^ 16
    → b.epoch + (i + stride b) * b.interval < 2 ^ 64
    → Waiting x.ends b ch i c false false
    → Carries x ch i loaded
    → i ≤ c + length os * stride b
    → c + length os * stride b < i + stride b
    → ever is_answered loaded false os ≡ true
    → let r = (exchanges cfg x os).ends in
      (next_chan r.initiator ≡ next_chan r.responder)
      × (r.initiator.chan_map ≡ map_after ch b.map)
      × (r.responder.chan_map ≡ map_after ch b.map)
      × (r.initiator.subrate ≡ subrate_after ch b.subrate)
      × (r.responder.subrate ≡ subrate_after ch b.subrate)
unfolding next_chan
exchanges_agree cfg b ch i c loaded os x fits word time w c' due last ok =
    let n = c + length os * stride b in
    let s = (exchanges cfg x os).ends.initiator in
    let t = (exchanges cfg x os).ends.responder in
    let d = exchanges-Done cfg b ch i c loaded os x fits word time w c' due last in
    let heard = heard-answered os false loaded ok in
    let m : s.chan_map ≡ map_after ch b.map = d.0.map_is ∙ rw ok refl in
    let m' : t.chan_map ≡ map_after ch b.map = d.1.map_is ∙ rw heard refl in
    let k : s.subrate ≡ subrate_after ch b.subrate = d.0.subrate_is ∙ rw ok refl in
    let k' : t.subrate ≡ subrate_after ch b.subrate = d.1.subrate_is ∙ rw heard refl in
    let same : next_chan s ≡ next_chan t =
      rw (m, m', d.0.seed_is, d.1.seed_is, counter_of-At s n d.0.at, counter_of-At t n d.1.at)
        refl in
    (same, m, m', k, k')
