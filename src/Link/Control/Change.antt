-- ===== src/Link/Control/Change.antt =====
-- A change of parameters in a control frame, and at the event where it is due.
use native.Mathlib.Nat.{mod-eq_of_lt}
use lockgrid.Prelude.{
  sym, true, List, [], ◌∷◌, length, ℕ, ◌+◌, ◌*◌, ◌%◌, ◌^◌, ◌<◌, ◌≡◌, ◌⊎◌, inl, inr, refl, max, ap,
  bit_or, ◌∙◌, false, not, ◌&&◌, ◌||◌, leb, ◌==◌, if◌then◌else◌,
}
use lockgrid.Prelude.Bits.{has_bit}
use lockgrid.Types.{u8, Schedule}
use lockgrid.Config.{Config}
use lockgrid.Frame.{put_le16, get_le16}
use lockgrid.Frame.RoundTrip.{word16}
use lockgrid.Link.{to_next, advance, apply_change, step_of, anchor_set}
use lockgrid.Link.Counter.{At, counter_of-At, next_active_lem}
use lockgrid.Link.Control.{change_body, handle_ctrl, receive}

-- The change of one parameter.
pub data Change : Type 0 where
  new_map new_subrate : ℕ → Change

abbrev pub Fits : Change → Type 0
Fits (new_map m) = m < 2 ^ 16
Fits (new_subrate k) = k < 2 ^ 8

-- The schedule has this change, and no other, pending for event `i`.
abbrev pub Holds : Schedule → Change → ℕ → Type 0
Holds s (new_map m) i = (s.pending_ctrl ≡ 1) × (s.pending_chan_map ≡ m) × (s.instant ≡ i)
Holds s (new_subrate k) i = (s.pending_ctrl ≡ 2) × (s.pending_subrate ≡ k) × (s.instant ≡ i)

abbrev pub with_pending : Schedule → Change → ℕ → Schedule
with_pending t (new_map m) i = record t { pending_chan_map = m; instant = i; pending_ctrl = 1 }
with_pending t (new_subrate k) i = record t { pending_subrate = k; instant = i; pending_ctrl = 2 }

-- The channel map and the subrate after the change, from those before.
abbrev pub map_after : Change → ℕ → ℕ
map_after (new_map m) old = m
map_after (new_subrate k) old = old

abbrev pub subrate_after : Change → ℕ → ℕ
subrate_after (new_map m) old = old
subrate_after (new_subrate k) old = max k 1

-- The body of a control frame with the change.
unfoldable pub body_of : Change → ℕ → List ℕ
body_of (new_map m) i = put_le16 (put_le16 (0 ∷ 0 ∷ 0 ∷ 0 ∷ 0 ∷ []) 1 m) 3 i
body_of (new_subrate k) i = put_le16 (1 ∷ u8 k ∷ 0 ∷ 0 ∷ []) 2 i

pub body_lem : (s : Schedule) (ch : Change) (i : ℕ) → Holds s ch i → change_body s ≡ body_of ch i
unfolding change_body body_of has_bit
body_lem s (new_map m) i (p, v, n) = rw (p, v, n) refl
body_lem s (new_subrate k) i (p, v, n) = rw (p, v, n) refl

pub body-clear : (s : Schedule) → s.pending_ctrl ≡ 0 → change_body s ≡ []
unfolding change_body has_bit
body-clear s p = rw p refl

pub body_some : (ch : Change) (i : ℕ) → not (length (body_of ch i) == 0) ≡ true
unfolding body_of put_le16
body_some (new_map m) i = refl
body_some (new_subrate k) i = refl

-- A change that is sent is the change that the peer has pending.
pub receive_lem :
    (cfg : Config) (t : Schedule) (ch : Change) (i : ℕ)
    → Fits ch
    → i < 2 ^ 16
    → (t.pending_ctrl ≡ 0) ⊎ (Holds t ch i)
    → receive cfg (body_of ch i) t ≡ with_pending t ch i
unfolding body_of handle_ctrl put_le16 get_le16 has_bit
receive_lem cfg t (new_map m) i f w o =
    let same : bit_or t.pending_ctrl 1 % 2 ^ 8 ≡ 1 = elim o [
      | inl e ↦ rw e refl
      | inr e ↦ rw e.0 refl
    ] in
    rw (word16 m f, word16 i w)
      (ap (λ (b : ℕ). record t { pending_chan_map = m; instant = i; pending_ctrl = b }) same)
receive_lem cfg t (new_subrate k) i f w o =
    let same : bit_or t.pending_ctrl 2 % 2 ^ 8 ≡ 2 = elim o [
      | inl e ↦ rw e refl
      | inr e ↦ rw e.0 refl
    ] in
    let whole : k % 2 ^ 8 ≡ k = mod-eq_of_lt f in
    rw (whole, word16 i w)
      (ap (λ (b : ℕ). record t { pending_subrate = k; instant = i; pending_ctrl = b }) same)

-- A change that is pending already is not changed by its echo.
pub pending_again : (s : Schedule) (ch : Change) (i : ℕ) → Holds s ch i → with_pending s ch i ≡ s
pending_again s (new_map m) i (p, v, n) =
    ap (λ (b : ℕ). record s { pending_chan_map = m; instant = i; pending_ctrl = b }) (sym p)
    ∙ ap (λ (b : ℕ). record s { pending_chan_map = b; instant = i }) (sym v)
    ∙ ap (λ (b : ℕ). record s { instant = b }) (sym n)
pending_again s (new_subrate k) i (p, v, n) =
    ap (λ (b : ℕ). record s { pending_subrate = k; instant = i; pending_ctrl = b }) (sym p)
    ∙ ap (λ (b : ℕ). record s { pending_subrate = b; instant = i }) (sym v)
    ∙ ap (λ (b : ℕ). record s { instant = b }) (sym n)

-- The schedule at the event `c`.
abbrev pub moved : Schedule → ℕ → Schedule
moved s c = record s { anchor_us = s.epoch_us + c * s.interval_us; counter = c }

pub to_next-moved :
    (s : Schedule) (c : ℕ)
    → At s c
    → c % step_of s ≡ 0
    → c + step_of s < 2 ^ 16
    → s.epoch_us + (c + step_of s) * s.interval_us < 2 ^ 64
    → to_next s ≡ moved s (c + step_of s)
unfolding to_next anchor_set
to_next-moved s c a m h f = rw (counter_of-At s c a, next_active_lem s c m h, mod-eq_of_lt f)

abbrev pub changed : Schedule → Change → Schedule
changed s (new_map m) = record s { chan_map = m }
changed s (new_subrate k) = record s { subrate = max k 1 }

-- The schedule after the event where a change is due.
abbrev pub concluded : Schedule → Change → Schedule
concluded s ch =
    let t = if not s.initiator || s.ctrl_acked then changed s ch else s in
    record t { pending_ctrl = 0; ctrl_acked = false }

abbrev pub settled : Schedule → Change → ℕ → Schedule
settled s ch i = if leb i s.counter then concluded s ch else s

pub apply_change_lem :
    (s : Schedule) (ch : Change) (i : ℕ) → Holds s ch i → apply_change s ≡ changed s ch
unfolding apply_change has_bit
apply_change_lem s (new_map m) i (p, v, n) = rw (p, v) refl
apply_change_lem s (new_subrate k) i (p, v, n) = rw (p, v) refl

-- `lg_link_advance` after its first line.
abbrev apply_due : Schedule → Schedule
apply_due s =
    if not (s.pending_ctrl == 0) && leb s.instant s.counter
    then (let t = if not s.initiator || s.ctrl_acked then apply_change s else s in
        record t { pending_ctrl = 0; ctrl_acked = false })
    else s

apply_due_lem : (s : Schedule) (ch : Change) (i : ℕ) → Holds s ch i → apply_due s ≡ settled s ch i
apply_due_lem s (new_map m) i h = rw (apply_change_lem s (new_map m) i h) (rw (h.0, h.2) refl)
apply_due_lem s (new_subrate k) i h =
    rw (apply_change_lem s (new_subrate k) i h) (rw (h.0, h.2) refl)

module _ (s : Schedule) (c : ℕ) (a : At s c) (m : c % step_of s ≡ 0) (w : c + step_of s < 2 ^ 16)
    (f : s.epoch_us + (c + step_of s) * s.interval_us < 2 ^ 64) where
  pub advance-clear : s.pending_ctrl ≡ 0 → advance s ≡ moved s (c + step_of s)
  unfolding advance
  advance-clear p = ap apply_due (to_next-moved s c a m w f) ∙ rw p refl

  pub advance-holds :
      (ch : Change) (i : ℕ) → Holds s ch i → advance s ≡ settled (moved s (c + step_of s)) ch i
  unfolding advance
  advance-holds ch i h =
      ap apply_due (to_next-moved s c a m w f)
      ∙ apply_due_lem (moved s (c + step_of s)) ch i (Holds-moved ch h)
    where
      Holds-moved : (x : Change) → Holds s x i → Holds (moved s (c + step_of s)) x i
      Holds-moved (new_map v) g = g
      Holds-moved (new_subrate v) g = g
