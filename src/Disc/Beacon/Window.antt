-- ===== src/Disc/Beacon/Window.antt =====
-- The copies of a beacon, the join window that they announce, and the next beacon.
use mathlib.Core.Path.{subst}
use lockgrid.Prelude.{
  ℕ, zero, suc, ◌+◌, ◌-◌, ◌*◌, ◌^◌, ◌≤◌, ◌<◌, ◌≡◌, refl, ap, sym, ◌∙◌, Bool, true, false, List, [],
  ◌∷◌, length, Option, arith, ltb, leb, All, ◌⊎◌, inl, inr,
}
use lockgrid.Types.{Neigh, Role, leaf, router, backhaul, u8, u16, u32, u64, role_code}
use lockgrid.Config.{Config}
use lockgrid.Frame.{pdu_max}
use lockgrid.Route.{Grid}
use lockgrid.Neigh.{linked_count}
use lockgrid.Core.{Tune}
use lockgrid.Disc.{Disc, Copy, rdv_slots}
use lockgrid.Disc.Beacon.{
  Beacon, beacon_of, copy_air_us, offers, stage, stage_copies, stage_copy, start, tx_done, Next,
  event_done, tx_at, total_air, copy_at, copy_gap_us, close,
}
use lockgrid.Disc.Beacon.Bytes.{Fits, Macs, heard, stage_copy-heard}

-- A beacon event that the radio carries out: what is on the air and when, and the state at the end.
-- `delay` is the time from the end of a frame to its interrupt; at most `n` frames are sent.
unfoldable pub transmit : ℕ → ℕ → Disc → Next → Disc × List (ℕ × Copy)
transmit zero delay d x = (d, [])
transmit (suc n) delay d event_done = (d, [])
transmit (suc n) delay d (tx_at t c) =
    let air_end = t + copy_air_us in
    let (d', x) = tx_done true (air_end + delay) air_end d in
    let (d'', sent) = transmit n delay d' x in (d'', (t, c) ∷ sent)

-- What a listener that hears the copy `c` at `t` works out: when the join window opens, as
-- `lg_disc_beacon_rx` sets `join_next_us`, and when the next beacon comes.
abbrev pub Points : ℕ → ℕ → ℕ × Copy → Type 0
Points window planned (t, c) =
    (t + (heard c.pdu).join_offset ≡ window) × (t + (heard c.pdu).next_beacon_offset ≡ planned)

-- A node with three staged copies in full buffers, and times that do not wrap.
pub record Staging (g : Grid) (d : Disc) (a b c : Copy) : Type 0 where
  pub three : d.copies ≡ a ∷ b ∷ c ∷ []
  pub buffers : (length a.pdu ≡ pdu_max) × (length b.pdu ≡ pdu_max) × (length c.pdu ≡ pdu_max)
  pub network_fits : d.network_id < 2 ^ 32
  pub epoch_fits : d.beacon_epoch < 2 ^ 32
  pub map_fits : d.chan_map < 2 ^ 16
  pub rank_fits : g.rank < 2 ^ 16
  pub after : d.next_beacon_us + 3952 ≤ d.planned_us
  pub near : d.planned_us < d.next_beacon_us + 2 ^ 32
  pub no_wrap : d.planned_us + 2 ^ 32 < 2 ^ 64

linked_count-fits : (ns : List Neigh) → linked_count ns < 2 ^ 8
unfolding linked_count
linked_count-fits [] = omega arith
linked_count-fits (n ∷ ns) = omega arith

role_code-fits : (r : Role) → role_code r < 2 ^ 8
role_code-fits leaf = omega arith
role_code-fits router = omega arith
role_code-fits backhaul = omega arith

beacon_of-Fits :
    (cfg : Config) (g : Grid) (d : Disc) (a b c : Copy) (offering : Bool) (i : ℕ)
    → Staging g d a b c
    → Fits (beacon_of cfg g d offering i)
unfolding beacon_of
beacon_of-Fits cfg g d a b c offering i s = record {
  network_fits = s.network_fits;
  epoch_fits = s.epoch_fits;
  rank_fits = s.rank_fits;
  map_fits = s.map_fits;
  role_fits = role_code-fits g.role;
  count_fits = linked_count-fits g.neigh;
  capacity_fits = ground arith;
  offset_fits = omega arith;
  window_fits = ground arith;
  next_fits = omega arith;
}

air_left : (i : ℕ) → i < 3 → u16 (total_air (3 - i) + 5000) + 1976 * i ≡ 10328
unfolding total_air
air_left i h =
    let which : (i ≡ 0) ⊎ (i ≡ 1) ⊎ (i ≡ 2) = omega arith in
    elim which [ inl e ↦ rw e refl | inr (inl e) ↦ rw e refl | inr (inr e) ↦ rw e refl ]

-- A copy that goes out at its place in the event points at the window and at the next beacon.
copy-Points :
    (cfg : Config) (mac : List ℕ → Option (List ℕ)) (g : Grid) (d : Disc) (a b c : Copy) (i : ℕ)
    (old : Copy)
    → Macs mac
    → Staging g d a b c
    → length old.pdu ≡ pdu_max
    → i < 3
    → Points
        (d.next_beacon_us + 10328)
        d.planned_us
        (d.next_beacon_us + 1976 * i, stage_copy cfg mac g d true i old)
unfolding beacon_of
copy-Points cfg mac g d a b c i old m s full small =
    let h =
      stage_copy-heard cfg mac g d true i old m full (beacon_of-Fits cfg g d a b c true i s) in
    let x = ap (λ (b : Beacon). b.join_offset) h.0 in
    let y = ap (λ (b : Beacon). b.next_beacon_offset) h.0 in
    let left = air_left i small in
    (rw x (omega (arith, left)), rw y (omega (arith, s.after, s.near, s.no_wrap)))

Points-at :
    (window planned t t' : ℕ) (c : Copy)
    → t ≡ t'
    → Points window planned (t, c)
    → Points window planned (t', c)
Points-at window planned t t' c e h = (rw (← e) h.0, rw (← e) h.1)

-- The state after a copy that is followed by another.
pub counted : Disc → Disc
counted d = record d { beacons_tx = u32 (d.beacons_tx + 1); copy_idx = u8 (d.copy_idx + 1) }

tx_done-more :
    (d : Disc) (now air_end t : ℕ) (c : Copy)
    → ltb (u8 (d.copy_idx + 1)) rdv_slots ≡ true
    → copy_at d (u8 (d.copy_idx + 1)) ≡ c
    → c.len ≡ 35
    → u64 (air_end + copy_gap_us) ≡ t
    → tx_done true now air_end d ≡ (counted d, tx_at t c)
unfolding tx_done counted
tx_done-more d now air_end t c more e l time = rw (more, e, l, time) refl

tx_done-last :
    (d : Disc) (now air_end : ℕ)
    → ltb (u8 (d.copy_idx + 1)) rdv_slots ≡ false
    → tx_done true now air_end d ≡ (close now air_end (counted d), event_done)
unfolding tx_done counted
tx_done-last d now air_end last = rw last refl

start-first :
    (cfg : Config) (t : ℕ) (e : Disc) (a : Copy)
    → e.beacons_heard < cfg.beacon_suppress_threshold
    → copy_at e 0 ≡ a
    → a.len ≡ 35
    → start cfg true t e ≡ (record e { copy_idx = 0 }, tx_at t a)
unfolding start
start-first cfg t e a quiet f l =
    let heard_less : leb cfg.beacon_suppress_threshold e.beacons_heard ≡ false = ground arith in
    rw (heard_less, f, l) refl

prepend : ℕ × Copy → Disc × List (ℕ × Copy) → Disc × List (ℕ × Copy)
prepend y r = (r.0, y ∷ r.1)

transmit-step :
    (n delay : ℕ) (d d' : Disc) (t : ℕ) (c : Copy) (x : Next)
    → tx_done true (t + copy_air_us + delay) (t + copy_air_us) d ≡ (d', x)
    → transmit (suc n) delay d (tx_at t c) ≡ prepend (t, c) (transmit n delay d' x)
unfolding transmit prepend
transmit-step n delay d d' t c x e =
    ap (λ (p : Disc × Next). prepend (t, c) (transmit n delay p.0 p.1)) e

-- The event of a node with three staged copies.
module _ (cfg : Config) (e : Disc) (a b c : Copy) (delay t : ℕ) (three : e.copies ≡ a ∷ b ∷ c ∷ [])
    (lens : (a.len ≡ 35) × (b.len ≡ 35) × (c.len ≡ 35))
    (quiet : e.beacons_heard < cfg.beacon_suppress_threshold) (fits : t + 2 ^ 32 < 2 ^ 64) where
  first_state : Disc
  first_state = record e { copy_idx = 0 }

  last_state : Disc
  last_state =
      close (t + 3952 + copy_air_us + delay) (t + 3952 + copy_air_us)
        (counted (counted (counted first_state)))

  event_lem :
      transmit 4 delay (start cfg true t e).0 (start cfg true t e).1
      ≡ (last_state, (t, a) ∷ (t + 1976, b) ∷ (t + 3952, c) ∷ [])
  unfolding transmit prepend first_state last_state counted
  event_lem =
      let s0 = first_state in
      let s1 = counted s0 in
      let s2 = counted s1 in
      let begun = start-first cfg t e a quiet (rw three refl) lens.0 in
      let one = transmit-step 3 delay s0 s1 t a (tx_at (t + 1976) b) (
        tx_done-more s0 (t + copy_air_us + delay) (t + copy_air_us) (t + 1976) b refl
          (rw three refl) lens.1 (omega arith)) in
      let two = transmit-step 2 delay s1 s2 (t + 1976) b (tx_at (t + 3952) c) (
        tx_done-more s1 (t + 1976 + copy_air_us + delay) (t + 1976 + copy_air_us) (t + 3952) c refl
          (rw three refl) lens.2 (omega arith)) in
      let three_sent =
        transmit-step 1 delay s2 last_state (t + 3952) c event_done
          (tx_done-last s2 (t + 3952 + copy_air_us + delay) (t + 3952 + copy_air_us) refl) in
      ap (λ (p : Disc × Next). transmit 4 delay p.0 p.1) begun
      ∙ one
      ∙ ap (prepend (t, a)) (two ∙ ap (prepend (t + 1976, b)) three_sent)

  opened : e.offers_join ≡ true → last_state.join_win_us ≡ t + 10328
  unfolding last_state counted first_state
  opened offering = rw offering (omega arith)

-- A beacon of three copies that offers a join window, sent from its planned start on: all three go out,
-- and whichever of them a listener hears, it works out the time at which the sender opens the window
-- and the time that the sender has planned for its next beacon. Both the offset of the window and that
-- of the next beacon count from the start of the copy on the air, not from its end. The tag is
-- computed, the beacon is not suppressed, and the numbers are in range.
pub transmit-Points :
    (cfg : Config) (tune : Tune) (mac : List ℕ → Option (List ℕ)) (now delay : ℕ) (g : Grid)
    (d : Disc) (a b c : Copy)
    → Macs mac
    → Staging g d a b c
    → d.beacons_heard < cfg.beacon_suppress_threshold
    → offers cfg tune now g d ≡ true
    → let staged = stage cfg tune mac now g d in
      let begun = start cfg true d.next_beacon_us staged in
      let done = transmit 4 delay begun.0 begun.1 in
      (length done.1 ≡ 3) × All (Points done.0.join_win_us d.planned_us) done.1
unfolding stage stage_copies
transmit-Points cfg tune mac now delay g d a b c m s quiet offering =
    let e = stage cfg tune mac now g d in
    let t = d.next_beacon_us in
    let copy = λ (i : ℕ) (old : Copy). stage_copy cfg mac g d true i old in
    let three : e.copies ≡ copy 0 a ∷ copy 1 b ∷ copy 2 c ∷ [] = rw (offering, s.three) refl in
    let heard_len = λ (i : ℕ) (old : Copy) (f : length old.pdu ≡ pdu_max).
      (stage_copy-heard cfg mac g d true i old m f (beacon_of-Fits cfg g d a b c true i s)).1 in
    let lens : ((copy 0 a).len ≡ 35) × ((copy 1 b).len ≡ 35) × ((copy 2 c).len ≡ 35) =
      (heard_len 0 a s.buffers.0, heard_len 1 b s.buffers.1, heard_len 2 c s.buffers.2) in
    let fits : t + 2 ^ 32 < 2 ^ 64 = omega (arith, s.after, s.no_wrap) in
    let run = event_lem cfg e (copy 0 a) (copy 1 b) (copy 2 c) delay t three lens quiet fits in
    let window =
      opened cfg e (copy 0 a) (copy 1 b) (copy 2 c) delay t three lens quiet fits offering in
    let at = λ (i : ℕ) (old : Copy) (f : length old.pdu ≡ pdu_max) (small : i < 3).
      copy-Points cfg mac g d a b c i old m s f small in
    let first =
      Points-at (t + 10328) d.planned_us (t + 1976 * 0) t (copy 0 a) (omega arith)
        (at 0 a s.buffers.0 (omega arith)) in
    let second =
      Points-at (t + 10328) d.planned_us (t + 1976 * 1) (t + 1976) (copy 1 b) (omega arith)
        (at 1 b s.buffers.1 (omega arith)) in
    let third =
      Points-at (t + 10328) d.planned_us (t + 1976 * 2) (t + 3952) (copy 2 c) (omega arith)
        (at 2 c s.buffers.2 (omega arith)) in
    subst
      (λ (r : Disc × List (ℕ × Copy)).
        (length r.1 ≡ 3) × All (Points r.0.join_win_us d.planned_us) r.1)
      (sym run) (refl, rw window (first, (second, (third, tt))))
