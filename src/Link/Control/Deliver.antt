-- ===== src/Link/Control/Deliver.antt =====
-- The frames of an event, and what they change at the two ends of a link.
use mathlib.Core.Path.{ap₂}
use lockgrid.Prelude.{
  not, length, ◌==◌, sym, ◌∙◌, ◌-◌, ℕ, ◌+◌, ◌%◌, ◌^◌, ◌<◌, ◌≡◌, ◌⊎◌, inl, inr, refl, ap, Bool, true,
  false, ◌||◌, ◌&&◌, List, [], if◌then◌else◌, arith,
}
use lockgrid.Types.{Schedule}
use lockgrid.Config.{Config}
use lockgrid.Link.{reanchor, shift_epoch}
use lockgrid.Link.Control.{
  Ends, Air, Outcome, missed, unanswered, answered, deliver, confirm, hear, receive, handle_ctrl,
  restage, flag_staged, change_body,
}
use lockgrid.Link.Control.Change.{
  Change, new_map, new_subrate, Fits, Holds, with_pending, receive_lem, body_of, body_lem,
  body-clear, body_some, pending_again,
}
use lockgrid.Link.Control.Settle.{Shared, Taken, Waiting, Done, is_answered, is_heard}

-- The frame that the initiator has staged carries the change if `loaded`, and none otherwise; that of the
-- responder carries the change or none.
pub record Carries (x : Air) (ch : Change) (i : ℕ) (loaded : Bool) : Type 0 where
  pub asks_is : x.asks ≡ (if loaded then body_of ch i else [])
  pub flag_is : x.ends.initiator.tx_was_ctrl ≡ loaded
  pub echoes_is : (x.echoes ≡ []) ⊎ (x.echoes ≡ body_of ch i)

Taken-or :
    (t : Schedule) (ch : Change) (i : ℕ) (heard : Bool)
    → Taken t ch i heard
    → (t.pending_ctrl ≡ 0) ⊎ Holds t ch i
Taken-or t ch i true h = inr h
Taken-or t ch i false h = inl h

Holds-with_pending : (t : Schedule) (ch : Change) (i : ℕ) → Holds (with_pending t ch i) ch i
Holds-with_pending t (new_map m) i = (refl, refl, refl)
Holds-with_pending t (new_subrate k) i = (refl, refl, refl)

-- Only the fields of the change differ after `with_pending`.
Waiting-with_pending :
    (e : Ends) (b : Shared) (ch : Change) (i c : ℕ) (acked heard : Bool)
    → Waiting e b ch i c acked heard
    → Waiting (record e { responder = with_pending e.responder ch i }) b ch i c acked true
Waiting-with_pending e b (new_map m) i c acked heard w = ground arith
Waiting-with_pending e b (new_subrate m) i c acked heard w = ground arith

Waiting-acked :
    (e : Ends) (b : Shared) (ch : Change) (i c : ℕ) (acked heard : Bool)
    → Waiting e b ch i c acked heard
    → Waiting
        (record e { initiator = record e.initiator { ctrl_acked = true } })
        b
        ch
        i
        c
        true
        heard
Waiting-acked e b (new_map m) i c acked true w = ground arith
Waiting-acked e b (new_subrate m) i c acked true w = ground arith
Waiting-acked e b (new_map m) i c acked false w = ground arith
Waiting-acked e b (new_subrate m) i c acked false w = ground arith

or-false : (b : Bool) → (b || false) ≡ b
or-false true = refl
or-false false = refl

or-true : (b : Bool) → (b || true) ≡ true
or-true true = refl
or-true false = refl

-- The ends after an event of which the frame carries the change, or carries none.
pub taken_ends : Bool → Outcome → Change → ℕ → Ends → Ends
taken_ends false o ch i e = e
taken_ends true missed ch i e = e
taken_ends true unanswered ch i e = record e { responder = with_pending e.responder ch i }
taken_ends true answered ch i e = record {
  initiator = record e.initiator { ctrl_acked = true };
  responder = with_pending e.responder ch i;
}

-- A responder that hears the initiator where it expects it keeps its anchor.
reanchor_same :
    (t : Schedule) (a : ℕ) → a ≡ t.anchor_us → t.epoch_us < 2 ^ 64 → reanchor t t.anchor_us a ≡ t
unfolding reanchor shift_epoch
reanchor_same t a e h =
    let whole : a + 2 ^ 64 - t.anchor_us ≡ 2 ^ 64 = omega arith in
    let still : (a + 2 ^ 64 - t.anchor_us) % 2 ^ 32 ≡ 0 = rw whole refl in
    let kept : shift_epoch t.epoch_us t.anchor_us a ≡ t.epoch_us =
      rw (shift_epoch, still) (ground arith) in
    ap (λ (v : ℕ). record t { anchor_us = a; epoch_us = v }) kept
    ∙ ap (λ (v : ℕ). record t { anchor_us = v }) e

abbrev pair_up : Schedule → Schedule → Ends
pair_up s t = record { initiator = s; responder = t }

module _ (cfg : Config) (ch : Change) (i : ℕ) (fits : Fits ch) (word : i < 2 ^ 16) where
  receive_if :
      (loaded : Bool) (t : Schedule)
      → (t.pending_ctrl ≡ 0) ⊎ Holds t ch i
      → receive cfg (if loaded then body_of ch i else []) t
        ≡ (if loaded then with_pending t ch i else t)
  unfolding handle_ctrl
  receive_if true t o = receive_lem cfg t ch i fits word o
  receive_if false t o = refl

  hear_lem :
      (x : Air) (b : Shared) (c : ℕ) (acked heard loaded : Bool)
      → Waiting x.ends b ch i c acked heard
      → Carries x ch i loaded
      → b.epoch < 2 ^ 64
      → hear cfg x ≡ (if loaded then with_pending x.ends.responder ch i else x.ends.responder)
  unfolding hear
  hear_lem x b c acked heard loaded w k h =
      let t = x.ends.responder in
      let epoch = w.there.epoch_is in
      let same =
        reanchor_same t x.ends.initiator.anchor_us (w.here.anchored ∙ sym w.there.anchored)
          (omega arith) in
      ap (λ (r : Schedule). receive cfg x.asks r) same
      ∙ ap (λ (l : List ℕ). receive cfg l t) k.asks_is
      ∙ receive_if loaded t (Taken-or t ch i heard w.taken)

  Holds-acked :
      (x : Change) (s : Schedule) (loaded : Bool)
      → Holds s x i
      → Holds (if loaded then record s { ctrl_acked = true } else s) x i
  Holds-acked (new_map m) s true h = h
  Holds-acked (new_subrate k) s true h = h
  Holds-acked x s false h = h

  -- The initiator confirms, and the echo tells it nothing new.
  reply_lem :
      (x : Air) (loaded : Bool)
      → Holds x.ends.initiator ch i
      → Carries x ch i loaded
      → receive cfg x.echoes (confirm x.ends.initiator)
        ≡ (if loaded then record x.ends.initiator { ctrl_acked = true } else x.ends.initiator)
  unfolding confirm handle_ctrl
  reply_lem x loaded h k =
      let s = x.ends.initiator in
      let s' : Schedule = if loaded then record s { ctrl_acked = true } else s in
      let holds = Holds-acked ch s loaded h in
      ap (λ (f : Bool). receive cfg x.echoes (if f then record s { ctrl_acked = true } else s))
        k.flag_is
      ∙ elim k.echoes_is [
        | inl e ↦ ap (λ (l : List ℕ). receive cfg l s') e
        | inr e ↦
            ap (λ (l : List ℕ). receive cfg l s') e
            ∙ receive_lem cfg s' ch i fits word (inr holds)
            ∙ pending_again s' ch i holds
      ]

  pub deliver_lem :
      (x : Air) (b : Shared) (o : Outcome) (c : ℕ) (acked heard loaded : Bool)
      → Waiting x.ends b ch i c acked heard
      → Carries x ch i loaded
      → b.epoch < 2 ^ 64
      → deliver cfg x o ≡ taken_ends loaded o ch i x.ends
  unfolding deliver taken_ends
  deliver_lem x b missed c acked heard true w k h = refl
  deliver_lem x b missed c acked heard false w k h = refl
  deliver_lem x b unanswered c acked heard true w k h =
      ap (λ (t : Schedule). record x.ends { responder = t }) (hear_lem x b c acked heard true w k h)
  deliver_lem x b unanswered c acked heard false w k h =
      ap (λ (t : Schedule). record x.ends { responder = t })
        (hear_lem x b c acked heard false w k h)
  deliver_lem x b answered c acked heard true w k h =
      ap₂ (λ (s t : Schedule). pair_up s t) (reply_lem x true w.offered k)
        (hear_lem x b c acked heard true w k h)
  deliver_lem x b answered c acked heard false w k h =
      ap₂ (λ (s t : Schedule). pair_up s t) (reply_lem x false w.offered k)
        (hear_lem x b c acked heard false w k h)

  pub taken-Waiting :
      (e : Ends) (b : Shared) (o : Outcome) (c : ℕ) (acked heard loaded : Bool)
      → Waiting e b ch i c acked heard
      → Waiting
          (taken_ends loaded o ch i e)
          b
          ch
          i
          c
          (acked || (loaded && is_answered o))
          (heard || (loaded && is_heard o))
  unfolding taken_ends
  taken-Waiting e b o c acked heard false w = rw (or-false acked, or-false heard) w
  taken-Waiting e b missed c acked heard true w = rw (or-false acked, or-false heard) w
  taken-Waiting e b unanswered c acked heard true w =
      rw (or-false acked, or-true heard) (Waiting-with_pending e b ch i c acked heard w)
  taken-Waiting e b answered c acked heard true w =
      rw (or-true acked, or-true heard)
        (Waiting-acked (record e { responder = with_pending e.responder ch i }) b ch i c acked true
          (Waiting-with_pending e b ch i c acked heard w))

-- Staging the next frames changes nothing that the events depend on.
pub staged-Waiting :
    (e : Ends) (b : Shared) (ch : Change) (i c : ℕ) (acked heard : Bool)
    → Waiting e b ch i c acked heard
    → Waiting (restage e).ends b ch i c acked heard
unfolding restage flag_staged
staged-Waiting e b (new_map m) i c acked true w = ground arith
staged-Waiting e b (new_subrate m) i c acked true w = ground arith
staged-Waiting e b (new_map m) i c acked false w = ground arith
staged-Waiting e b (new_subrate m) i c acked false w = ground arith

staged-echo :
    (t : Schedule) (ch : Change) (i : ℕ) (heard : Bool)
    → Taken t ch i heard
    → (change_body t ≡ []) ⊎ (change_body t ≡ body_of ch i)
staged-echo t ch i true h = inr (body_lem t ch i h)
staged-echo t ch i false h = inl (body-clear t h)

-- While the change is pending, the next frame of the initiator carries it.
pub staged-Carries :
    (e : Ends) (b : Shared) (ch : Change) (i c : ℕ) (acked heard : Bool)
    → Waiting e b ch i c acked heard
    → Carries (restage e) ch i true
unfolding restage flag_staged
staged-Carries e b ch i c acked heard w =
    let body = body_lem e.initiator ch i w.offered in
    record {
      asks_is = body;
      flag_is = ap (λ (l : List ℕ). not (length l == 0)) body ∙ body_some ch i;
      echoes_is = staged-echo e.responder ch i heard w.taken;
    }

pub staged-Done :
    (e : Ends) (b : Shared) (ch : Change) (c : ℕ) (acked heard : Bool)
    → Done e.initiator b ch c acked
    → Done e.responder b ch c heard
    → Done (restage e).ends.initiator b ch c acked × Done (restage e).ends.responder b ch c heard
unfolding restage flag_staged
staged-Done e b ch c acked heard d d' = (again e.initiator acked d, again e.responder heard d')
  where
    again :
        (s : Schedule) (applied : Bool)
        → Done s b ch c applied
        → Done (flag_staged s) b ch c applied
    again s applied x = record {
      at = record { running = x.at.running; anchored = x.at.anchored; word = x.at.word };
      epoch_is = x.epoch_is;
      interval_is = x.interval_is;
      seed_is = x.seed_is;
      map_is = x.map_is;
      subrate_is = x.subrate_is;
      clear = x.clear;
    }
