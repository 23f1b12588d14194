-- ===== src/Core/Queue/Sound.antt =====
-- subsys/lockgrid/lg_core.c: messages that wait stay within their bounds.
use lockgrid.Prelude.{
  ℕ, zero, suc, ◌≤◌, ◌≡◌, refl, ap, sym, Bool, true, false, not, List, [], ◌∷◌, Option, none, some,
  length, length-write_at, arith, Bool-cases, inl, inr, ltb, ◌==◌, if◌then◌else◌, length-set, ◌∙◌,
  set,
}
use lockgrid.Types.{Neigh, is_linked, addr_invalid}
use lockgrid.Prelude.Bits.{has_bit}
use lockgrid.Route.{Grid}
use lockgrid.Route.Routes.{next_hop}
use lockgrid.Core.Queue.{
  TxMsg, no_message, payload_max, store, free, filled, not_connected, no_memory, sent, not_started,
  too_long, data_upward, data_broadcast, spread, send_one, send_forward, Outbox, expedite,
}

-- A place of the queue: the buffer has its size, the length is within it, and the hops are at most `h`.
abbrev pub Fine : ℕ → TxMsg → Type 0
Fine h m = (length m.payload ≡ payload_max) × (m.len ≤ payload_max) × (m.hops ≤ h)

abbrev pub AllFine : ℕ → List TxMsg → Type 0
AllFine h [] = Unit {0}
AllFine h (m ∷ rest) = Fine h m × AllFine h rest

-- The queue has `k` places, all of them fine.
abbrev pub Sound : ℕ → ℕ → List TxMsg → Type 0
Sound h k q = AllFine h q × (length q ≡ k)

abbrev Stored : ℕ → ℕ → Option (List TxMsg) → Type 0
Stored h k none = Unit {0}
Stored h k (some q) = Sound h k q

push-Stored :
    (h k : ℕ) (m : TxMsg) (o : Option (List TxMsg))
    → Fine h m
    → Stored h k o
    → Stored h (suc k) (elim o [ none ↦ none | some q ↦ some (m ∷ q) ])
push-Stored h k m none f s = tt
push-Stored h k m (some q) f s = ((f, s.0), ap suc s.1)

if-Stored :
    (h k : ℕ) (b : Bool) (o o' : Option (List TxMsg))
    → Stored h k o
    → Stored h k o'
    → Stored h k (if b then o else o')
if-Stored h k true o o' s s' = s
if-Stored h k false o o' s s' = s'

store-Stored :
    (h : ℕ) (f : TxMsg → TxMsg) (q : List TxMsg)
    → ((m : TxMsg) → Fine h m → Fine h (f m))
    → AllFine h q
    → Stored h (length q) (store f q)
unfolding store
store-Stored h f [] ok a = tt
store-Stored h f (m ∷ rest) ok a =
    if-Stored h (suc (length rest)) (not m.used) (some (f m ∷ rest))
      (elim (store f rest) [ none ↦ none | some q ↦ some (m ∷ q) ]) ((ok m a.0, a.1), refl)
      (push-Stored h (length rest) m (store f rest) a.0 (store-Stored h f rest ok a.1))

filled-Fine :
    (h now origin final port : ℕ) (buf : List ℕ) (flags hops msg_id : ℕ) (m : TxMsg)
    → length buf ≤ payload_max
    → hops ≤ h
    → Fine h m
    → Fine h (filled now origin final port buf flags hops msg_id m)
unfolding filled
filled-Fine h now origin final port buf flags hops msg_id m short few f =
    (length-write_at m.payload 0 buf ∙ f.0, omega arith, few)

abbrev or_else : List TxMsg → Option (List TxMsg) → List TxMsg
or_else q o = elim o [ none ↦ q | some q' ↦ q' ]

or_else-Sound :
    (h k : ℕ) (q : List TxMsg) (o : Option (List TxMsg))
    → Sound h k q
    → Stored h k o
    → Sound h k (or_else q o)
or_else-Sound h k q none s t = s
or_else-Sound h k q (some q') s t = t

place-Stored :
    (h k : ℕ) (b : Bool) (f : TxMsg → TxMsg) (q : List TxMsg)
    → ((m : TxMsg) → Fine h m → Fine h (f m))
    → Sound h k q
    → Stored h k (if b then store f q else none)
place-Stored h k true f q ok s = rw (sym s.1) (store-Stored h f q ok s.0)
place-Stored h k false f q ok s = tt

-- The last steps of the loop, for the rest of it.
spread_step :
    (h k now : ℕ) (n : Neigh) (rest : List Neigh) (q : List TxMsg) (b : Bool)
    (o : Option (List TxMsg)) (r : List Neigh × List TxMsg × Bool)
    → Sound h k q
    → Sound h k r.1
    → let all : List Neigh × List TxMsg × Bool =
        if not b
        then (n ∷ r.0, r.1, r.2)
        else elim o [ none ↦ (n ∷ rest, q, false) | some q' ↦ (expedite now n ∷ r.0, r.1, true) ] in
      Sound h k all.1
spread_step h k now n rest q false o r s t = t
spread_step h k now n rest q true none r s t = s
spread_step h k now n rest q true (some q') r s t = t

spread-Sound :
    (h k now : ℕ) (f : ℕ → TxMsg → TxMsg) (l : List Neigh) (q : List TxMsg)
    → ((a : ℕ) (m : TxMsg) → Fine h m → Fine h (f a m))
    → Sound h k q
    → Sound h k (spread now f l q).1
unfolding spread
spread-Sound h k now f [] q ok s = s
spread-Sound h k now f (n ∷ rest) q ok s =
    let place : Option (List TxMsg) = if is_linked n.state then store (f n.addr) q else none in
    let stored : Stored h k place =
      place-Stored h k (is_linked n.state) (f n.addr) q (ok n.addr) s in
    let later =
      spread-Sound h k now f rest (or_else q place) ok (or_else-Sound h k q place s stored) in
    spread_step h k now n rest q (is_linked n.state) place (spread now f rest (or_else q place)) s
      later

send_one_step :
    (h k : ℕ) (g : Grid) (q : List TxMsg) (b : Bool) (o : Option (List TxMsg))
    → Sound h k q
    → Stored h k o
    → let r : Outbox =
        if b then record { grid = g; queue = q; status = not_connected } else elim o [
          | none ↦ record { grid = g; queue = q; status = no_memory }
          | some q' ↦ record { grid = g; queue = q'; status = sent }
        ] in
      Sound h k r.queue
send_one_step h k g q true o s t = s
send_one_step h k g q false none s t = s
send_one_step h k g q false (some q') s t = t

send_one-Sound :
    (h k : ℕ) (g : Grid) (nh : ℕ) (f : TxMsg → TxMsg) (q : List TxMsg)
    → ((m : TxMsg) → Fine h m → Fine h (f m))
    → Sound h k q
    → Sound h k (send_one g nh f q).queue
unfolding send_one
send_one-Sound h k g nh f q ok s =
    send_one_step h k g q (nh == addr_invalid) (store f q) s (place-Stored h k true f q ok s)

pub if-Outbox :
    (h k : ℕ) (b : Bool) (r r' : Outbox)
    → Sound h k r.queue
    → Sound h k r'.queue
    → Sound h k (if b then r else r').queue
if-Outbox h k true r r' s s' = s
if-Outbox h k false r r' s s' = s'

pub send_forward-Sound :
    (h k now : ℕ) (started : Bool) (g : Grid) (q : List TxMsg) (origin final port : ℕ)
    (buf : List ℕ) (flags hops msg_id : ℕ)
    → hops ≤ h
    → Sound h k q
    → Sound h k (send_forward now started g q origin final port buf flags hops msg_id).queue
unfolding send_forward
send_forward-Sound h k now started g q origin final port buf flags hops msg_id few s =
    let copy = λ (a : ℕ). filled now origin a port buf flags hops msg_id in
    let copies = spread now copy g.neigh q in
    let hop = next_hop now g final (has_bit flags data_upward) in
    let spreads : Outbox = record {
      grid = record g { neigh = copies.0 };
      queue = copies.1;
      status = if copies.2 then sent else not_connected;
    } in
    let alone = send_one hop.1 hop.0 (copy final) q in
    let off : Outbox = record { grid = g; queue = q; status = not_started } in
    let long : Outbox = record { grid = g; queue = q; status = too_long } in
    elim (Bool-cases (ltb payload_max (length buf))) [
      | inl big ↦ rw big s
      | inr short ↦
          let fits : length buf ≤ payload_max = ground arith in
          let ok : (a : ℕ) (m : TxMsg) → Fine h m → Fine h (copy a m) =
            λ a m. filled-Fine h now origin a port buf flags hops msg_id m fits few in
          if-Outbox h k (ltb payload_max (length buf)) long _ s (
            if-Outbox h k (not started) off _ s (
              if-Outbox h k (has_bit flags data_broadcast) spreads alone
                (spread-Sound h k now copy g.neigh q ok s)
                (send_one-Sound h k hop.1 hop.0 (copy final) q (ok final) s)))
    ]

-- A place that is freed is fine.
pub free-Sound : (h k : ℕ) (q : List TxMsg) (i : ℕ) → Sound h k q → Sound h k (free q i)
unfolding free
free-Sound h k q i s = (free-AllFine q i s.0, length-set q i no_message ∙ s.1)
  where
    free-AllFine : (p : List TxMsg) (j : ℕ) → AllFine h p → AllFine h (set p j no_message)
    free-AllFine [] j a = tt
    free-AllFine (m ∷ p) zero a = ((refl, omega arith, omega arith), a.1)
    free-AllFine (m ∷ p) (suc j) a = (a.0, free-AllFine p j a.1)
