-- ===== src/Join/Ends.antt =====
-- A handshake ends: the slots that it may take are counted, whatever happens in them.
use mathlib.Core.Path.{subst}
use lockgrid.Prelude.{
  ◌≢◌, ℕ, suc, ◌+◌, ◌≤◌, ◌<◌, ◌≡◌, refl, Bool, true, false, not, ◌&&◌, ◌||◌, List, [], ◌∷◌, Option,
  none, some, ltb, leb, ◌==◌, if◌then◌else◌, arith, length,
}
use lockgrid.Prelude.Int.{ℤ}
use lockgrid.Types.{Neigh, is_linked}
use lockgrid.Sec.Protect.{Aead, SecStats}
use lockgrid.Sec.Identity.{cert_len}
use lockgrid.Disc.Scan.{Window}
use lockgrid.Join.{Context, has_peer, is_peer, stage_message}
use lockgrid.Join.Steps.{Talk, Self, fresh, put_message, build_join_req, build_resume_req}
use lockgrid.Join.Events.{
  Fate, refused, goes_on, fails, cleared, links, tx_start, tx_end, put_fragment, rx_start, aborted,
  finish, next_slot, receive, begin, serve_backoff, started, join_start, join_max_retries,
}
use lockgrid.Join.Slots.{SameSlot, Keeps, GoesSame, if-GoesSame, receive-GoesSame}

-- What can happen to a handshake that is under way.
pub data Happening : Type 0 where
  starts_tx : Bool → ℕ → Happening
  ends_tx : Bool → ℕ → Happening
  starts_rx : Bool → Window → Happening
  aborts : Happening
  receives : Self → ℤ → ℕ → List ℕ → ℕ → Happening
  finishes : ℕ → Happening

unfoldable pub happen : Aead → Self → Talk → Happening → Fate
happen crypto self t (starts_tx accepted anchor) =
    goes_on (tx_start crypto self accepted anchor t).0
happen crypto self t (ends_tx accepted air_end) = goes_on (tx_end crypto self accepted air_end t).0
happen crypto self t (starts_rx accepted w) =
    goes_on (record t { hs = (rx_start accepted w t.hs).0 })
happen crypto self t aborts = goes_on (record t { hs = aborted t.hs })
happen crypto self t (receives now rssi air_start pdu len) =
    receive crypto now rssi air_start pdu len t
happen crypto self t (finishes now) = finish now t

-- All that happens, as long as the handshake is under way.
unfoldable pub run : Aead → Self → Talk → List Happening → Fate
run crypto self t [] = goes_on t
run crypto self t (h ∷ rest) = elim (happen crypto self t h) [
  | goes_on t' ↦ run crypto self t' rest
  | other ↦ other
]

-- Whether a handshake is no longer under way.
abbrev pub is_over : Fate → Bool
is_over (goes_on t) = false
is_over _ = true

-- The slots that come to their end.
abbrev pub slots_in : List Happening → ℕ
slots_in [] = 0
slots_in (finishes now ∷ rest) = suc (slots_in rest)
slots_in (_ ∷ rest) = slots_in rest

-- The handshake is within its slots.
abbrev InTime : Context → Type 0
InTime hs = (hs.slot < hs.slot_limit) × (hs.slot_limit ≤ 48)

-- A slot that ends without ending the handshake takes it at least one slot on, within its limit.
finish-Advances :
    (now : ℕ) (t t' : Talk)
    → InTime t.hs
    → finish now t ≡ goes_on t'
    → (t.hs.slot < t'.hs.slot)
      × (t'.hs.slot < t'.hs.slot_limit)
      × (t'.hs.slot_limit ≡ t.hs.slot_limit)
unfolding finish next_slot
finish-Advances now t t' h e = ground arith

same-InTime : (a b : Context) → SameSlot a b → InTime b → InTime a
same-InTime a b h k = omega arith

-- How much of the limit is still to be used up.
abbrev EndsWithin : ℕ → Talk → Type 0
EndsWithin slots t = InTime t.hs × (t.hs.slot_limit ≤ t.hs.slot + slots)

same-EndsWithin :
    (slots : ℕ) (t t' : Talk) → SameSlot t'.hs t.hs → EndsWithin slots t → EndsWithin slots t'
same-EndsWithin slots t t' h k = (omega arith, omega arith)

abbrev IsOver : Fate → Type 0
IsOver f = (t : Talk) → f ≢ goes_on t

-- What follows on one happening.
go_on : Aead → Self → List Happening → Fate → Fate
go_on crypto self rest f = elim f [ goes_on t ↦ run crypto self t rest | other ↦ other ]

go_on-IsOver :
    (crypto : Aead) (self : Self) (rest : List Happening) (f : Fate)
    → ((t : Talk) → f ≡ goes_on t → IsOver (run crypto self t rest))
    → IsOver (go_on crypto self rest f)
unfolding go_on
go_on-IsOver crypto self rest (goes_on t) h t' = h t refl t'
go_on-IsOver crypto self rest (refused n) h t = cc
go_on-IsOver crypto self rest (fails t') h t = cc
go_on-IsOver crypto self rest cleared h t = cc
go_on-IsOver crypto self rest (links t' p i) h t = cc

tx_end-Same :
    (crypto : Aead) (self : Self) (accepted : Bool) (air_end : ℕ) (t : Talk)
    → SameSlot (tx_end crypto self accepted air_end t).0.hs t.hs
unfolding tx_end put_fragment
tx_end-Same crypto self accepted air_end t = ground arith

-- Only the end of a slot moves the slot.
happen-GoesSame :
    (crypto : Aead) (self : Self) (t : Talk) (h : Happening)
    → slots_in (h ∷ []) ≡ 0
    → GoesSame t.hs (happen crypto self t h)
unfolding happen tx_start put_fragment rx_start aborted
happen-GoesSame crypto self t (starts_tx accepted anchor) z = (refl, refl)
happen-GoesSame crypto self t (ends_tx accepted air_end) z =
    tx_end-Same crypto self accepted air_end t
happen-GoesSame crypto self t (starts_rx accepted w) z = (refl, refl)
happen-GoesSame crypto self t aborts z = (refl, refl)
happen-GoesSame crypto self t (receives now rssi air_start pdu len) z =
    receive-GoesSame crypto now rssi air_start pdu len t
happen-GoesSame crypto self t (finishes now) z = absurd (omega arith)

slots_in-zero :
    (h : Happening) (rest : List Happening)
    → slots_in (h ∷ []) ≡ 0
    → slots_in (h ∷ rest) ≡ slots_in rest
slots_in-zero (starts_tx accepted anchor) rest z = refl
slots_in-zero (ends_tx accepted air_end) rest z = refl
slots_in-zero (starts_rx accepted w) rest z = refl
slots_in-zero aborts rest z = refl
slots_in-zero (receives now rssi air_start pdu len) rest z = refl
slots_in-zero (finishes now) rest z = absurd (omega arith)

quiet-EndsWithin :
    (crypto : Aead) (self : Self) (t t' : Talk) (h : Happening) (rest : List Happening)
    → slots_in (h ∷ []) ≡ 0
    → EndsWithin (slots_in (h ∷ rest)) t
    → happen crypto self t h ≡ goes_on t'
    → EndsWithin (slots_in rest) t'
quiet-EndsWithin crypto self t t' h rest z k e =
    let same : SameSlot t'.hs t.hs =
      subst (λ (f : Fate). GoesSame t.hs f) e (happen-GoesSame crypto self t h z) in
    let count = slots_in-zero h rest z in
    same-EndsWithin (slots_in rest) t t' same (k.0, omega (arith, count, k.1))

happen-EndsWithin :
    (crypto : Aead) (self : Self) (t t' : Talk) (h : Happening) (rest : List Happening)
    → EndsWithin (slots_in (h ∷ rest)) t
    → happen crypto self t h ≡ goes_on t'
    → EndsWithin (slots_in rest) t'
unfolding happen
happen-EndsWithin crypto self t t' (finishes now) rest k e =
    let next = finish-Advances now t t' k.0 e in ((next.1, omega arith), omega arith)
happen-EndsWithin crypto self t t' h rest k e = quiet-EndsWithin crypto self t t' h rest refl k e

run-IsOver :
    (crypto : Aead) (self : Self) (t : Talk) (es : List Happening)
    → EndsWithin (slots_in es) t
    → IsOver (run crypto self t es)
unfolding run go_on
run-IsOver crypto self t [] h = λ t' e. absurd (omega arith)
run-IsOver crypto self t (h ∷ rest) k =
    go_on-IsOver crypto self rest (happen crypto self t h)
      (λ t' e. run-IsOver crypto self t' rest (happen-EndsWithin crypto self t t' h rest k e))

build-Keeps :
    (self : Self) (resuming : Bool)
    → Keeps (if resuming then build_resume_req self else build_join_req self)
unfolding build_resume_req build_join_req fresh put_message stage_message
build-Keeps self resuming t = ground arith

started-GoesSame :
    (hs : Context) (resuming : Bool) (r : Talk × Option (Unit {0}))
    → SameSlot r.0.hs hs
    → GoesSame hs (started resuming r)
unfolding started
started-GoesSame hs resuming (t, none) h = tt
started-GoesSame hs resuming (t, some u) h = h

join_start-GoesSame :
    (self : Self) (now i : ℕ) (n : Neigh) (hs : Context) (frame : List ℕ) (st : SecStats)
    → GoesSame (begin i (serve_backoff n)) (join_start self now i n hs frame st)
unfolding join_start
join_start-GoesSame self now i n hs frame st =
    let n' = serve_backoff n in
    let h0 = begin i n' in
    let t : Talk = record { neigh = n'; hs = h0; frame = frame; stats = st } in
    let r = (if n.has_ltk then build_resume_req self else build_join_req self) t in
    let f3 = started n.has_ltk r in
    let f2 =
      if leb join_max_retries n'.join_retries || not (length self.own.cert == cert_len)
      then refused n'
      else f3 in
    let f1 = if not (n.join_backoff_us == 0) && ltb now n.join_backoff_us then refused n else f2 in
    if-GoesSame h0 ((has_peer hs && not (is_peer hs i)) || is_linked n.state) (refused n) f1 tt (
      if-GoesSame h0 (not (n.join_backoff_us == 0) && ltb now n.join_backoff_us) (refused n) f2 tt (
        if-GoesSame h0
          (leb join_max_retries n'.join_retries || not (length self.own.cert == cert_len))
          (refused n') f3 tt (started-GoesSame h0 n.has_ltk r (build-Keeps self n.has_ltk t))))

begin-EndsWithin :
    (i : ℕ) (n : Neigh) (t : Talk) (slots : ℕ)
    → SameSlot t.hs (begin i (serve_backoff n))
    → (if n.has_ltk then 24 else 48) ≤ slots
    → EndsWithin slots t
begin-EndsWithin i n t slots h enough = ground arith

over : (f : Fate) → IsOver f → is_over f ≡ true
over (refused n) h = refl
over (goes_on t) h = absurd (h t refl)
over (fails t) h = refl
over cleared h = refl
over (links t p b) h = refl

-- A handshake that `lg_join_start` began is over once 48 slots have come to their end, 24 where it
-- resumes, whatever else happens and however it is interleaved with them: it has failed, has been
-- cleared, or the link has come up.
pub join_start-IsOver :
    (crypto : Aead) (self self' : Self) (now i : ℕ) (n : Neigh) (hs : Context) (frame : List ℕ)
    (st : SecStats) (t : Talk) (es : List Happening)
    → join_start self now i n hs frame st ≡ goes_on t
    → (if n.has_ltk then 24 else 48) ≤ slots_in es
    → is_over (run crypto self' t es) ≡ true
join_start-IsOver crypto self self' now i n hs frame st t es e enough =
    let same : SameSlot t.hs (begin i (serve_backoff n)) =
      subst (λ (f : Fate). GoesSame (begin i (serve_backoff n)) f) e
        (join_start-GoesSame self now i n hs frame st) in
    over (run crypto self' t es)
      (run-IsOver crypto self' t es (begin-EndsWithin i n t (slots_in es) same enough))
