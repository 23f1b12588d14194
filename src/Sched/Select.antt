-- ===== src/Sched/Select.antt =====
-- The choice among the candidates.
use lockgrid.Prelude.{
  ℕ, zero, suc, ◌+◌, ◌^◌, ◌≤◌, ◌<◌, Bool, true, false, List, [], ◌∷◌, some, ltb, if◌then◌else◌,
  get_elem?, ◌≡◌, refl, sym, ap, arith, ◌⊎◌, Bool-cases, inl, inr, All,
}
use lockgrid.Sched.{Candidate, contend_us, earliest, beats, contend, select_candidate}

-- One candidate goes before another: its class is higher, or the same and it is no later.
abbrev pub Over : Candidate → Candidate → Type 0
Over x y = (y.prio < x.prio) ⊎ ((y.prio ≡ x.prio) × (x.anchor_us ≤ y.anchor_us))

Over-refl : (x : Candidate) → Over x x
Over-refl x = inr (refl, omega arith)

Over-trans : (x y z : Candidate) → Over x y → Over y z → Over x z
Over-trans x y z (inl p) (inl q) = inl (omega arith)
Over-trans x y z (inl p) (inr q) = inl (omega arith)
Over-trans x y z (inr p) (inl q) = inl (omega arith)
Over-trans x y z (inr p) (inr q) = inr (omega arith)

-- The one of the two that a round keeps.
abbrev kept : Candidate → Candidate → Candidate
kept c best = if beats c best then c else best

kept-Over : (c best : Candidate) → Over (kept c best) best
unfolding beats
kept-Over c best = elim (Bool-cases (beats c best)) [
  | inl e ↦ elim (Bool-cases (ltb best.prio c.prio)) [
    | inl h ↦ rw e (inl (ground (arith, h)))
    | inr h ↦ rw e (inr (ground (arith, h, e), ground (arith, h, e)))
  ]
  | inr e ↦ rw e (Over-refl best)
]

-- In reach of the best one, the round leaves none that should go before.
kept-reach :
    (c best : Candidate)
    → c.anchor_us ≤ best.anchor_us + contend_us
    → best.anchor_us + contend_us < 2 ^ 64
    → Over (kept c best) c
unfolding beats
kept-reach c best near fits = elim (Bool-cases (beats c best)) [
  | inl e ↦ rw e (Over-refl c)
  | inr e ↦ elim (Bool-cases (ltb c.prio best.prio)) [
    | inl h ↦ rw e (inl (ground (arith, h)))
    | inr h ↦ rw e (inr (ground (arith, h, e, near, fits), ground (arith, h, e, near, fits)))
  ]
]

contend-Over : (l : List Candidate) (best : Candidate) → Over (contend l best) best
unfolding contend
contend-Over [] best = Over-refl best
contend-Over (c ∷ rest) best =
    Over-trans (contend rest (kept c best)) (kept c best) best (contend-Over rest (kept c best))
      (kept-Over c best)

-- No candidate is before `from`, and none so late that a sum wraps.
abbrev pub Timely : ℕ → List Candidate → Type 0
Timely from l = All (λ c. (from ≤ c.anchor_us) × (c.anchor_us + contend_us < 2 ^ 64)) l

kept_timely :
    (from : ℕ) (c best : Candidate)
    → (from ≤ c.anchor_us) × (c.anchor_us + contend_us < 2 ^ 64)
    → (from ≤ best.anchor_us) × (best.anchor_us + contend_us < 2 ^ 64)
    → (from ≤ (kept c best).anchor_us) × ((kept c best).anchor_us + contend_us < 2 ^ 64)
kept_timely from c best p q = elim (Bool-cases (beats c best)) [ inl e ↦ rw e p | inr e ↦ rw e q ]

contend-reach :
    (from : ℕ) (l : List Candidate) (best : Candidate) (k : ℕ) (c : Candidate)
    → Timely from l
    → (from ≤ best.anchor_us) × (best.anchor_us + contend_us < 2 ^ 64)
    → get_elem? l k ≡ some c
    → c.anchor_us ≤ from + contend_us
    → Over (contend l best) c
unfolding contend
contend-reach from [] best k c t b g near = cc
contend-reach from (d ∷ rest) best zero c t b g near =
    let same : d ≡ c = cc in
    let same_time : d.anchor_us ≡ c.anchor_us = ap (λ (x : Candidate). x.anchor_us) same in
    let r = kept-reach d best (omega (arith, b, near, same_time)) b.1 in
    let o : Over (contend rest (kept d best)) d =
      Over-trans (contend rest (kept d best)) (kept d best) d (contend-Over rest (kept d best)) r in
    rw (sym same) o
contend-reach from (d ∷ rest) best (suc k) c t b g near =
    contend-reach from rest (kept d best) k c t.1 (kept_timely from d best t.0 b) g near

abbrev sooner_of : Candidate → Candidate → Candidate
sooner_of c best = if ltb c.anchor_us best.anchor_us then c else best

sooner_of-le :
    (c best : Candidate)
    → ((sooner_of c best).anchor_us ≤ c.anchor_us) × ((sooner_of c best).anchor_us ≤ best.anchor_us)
sooner_of-le c best = ground arith

earliest-le : (l : List Candidate) (best : Candidate) → (earliest l best).anchor_us ≤ best.anchor_us
unfolding earliest
earliest-le [] best = omega arith
earliest-le (c ∷ rest) best =
    omega (arith, earliest-le rest (sooner_of c best), sooner_of-le c best)

earliest-le_at :
    (l : List Candidate) (best : Candidate) (k : ℕ) (c : Candidate)
    → get_elem? l k ≡ some c
    → (earliest l best).anchor_us ≤ c.anchor_us
unfolding earliest
earliest-le_at [] best k c g = cc
earliest-le_at (d ∷ rest) best zero c g =
    let same : d ≡ c = cc in
    omega (
      arith,
      earliest-le rest (sooner_of d best),
      sooner_of-le d best,
      ap (λ (x : Candidate). x.anchor_us) same,
    )
earliest-le_at (d ∷ rest) best (suc k) c g = earliest-le_at rest (sooner_of d best) k c g

-- A candidate of a list, by its index.
abbrev pub Chosen : List Candidate → Candidate → Type 0
Chosen l x = (k : ℕ) × (get_elem? l k ≡ some x)

one-Chosen :
    (all : List Candidate) (b : Bool) (c d : Candidate)
    → Chosen all c
    → Chosen all d
    → Chosen all (if b then c else d)
one-Chosen all true c d p q = p
one-Chosen all false c d p q = q

earliest-Chosen :
    (all l : List Candidate) (best : Candidate)
    → ((k : ℕ) (d : Candidate) → get_elem? l k ≡ some d → Chosen all d)
    → Chosen all best
    → Chosen all (earliest l best)
unfolding earliest
earliest-Chosen all [] best h b = b
earliest-Chosen all (c ∷ rest) best h b =
    earliest-Chosen all rest (sooner_of c best) (λ k d g. h (suc k) d g)
      (one-Chosen all (ltb c.anchor_us best.anchor_us) c best (h 0 c refl) b)

contend-Chosen :
    (all l : List Candidate) (best : Candidate)
    → ((k : ℕ) (d : Candidate) → get_elem? l k ≡ some d → Chosen all d)
    → Chosen all best
    → Chosen all (contend l best)
unfolding contend
contend-Chosen all [] best h b = b
contend-Chosen all (c ∷ rest) best h b =
    contend-Chosen all rest (kept c best) (λ k d g. h (suc k) d g)
      (one-Chosen all (beats c best) c best (h 0 c refl) b)

Timely-at :
    (from : ℕ) (l : List Candidate) (k : ℕ) (c : Candidate)
    → Timely from l
    → get_elem? l k ≡ some c
    → (from ≤ c.anchor_us) × (c.anchor_us + contend_us < 2 ^ 64)
Timely-at from [] k c t g = cc
Timely-at from (d ∷ rest) zero c t g =
    let same_time = ap (λ (x : Candidate). x.anchor_us) (head-same d c g) in
    omega (arith, t.0, same_time)
  where
    head-same : (d c : Candidate) → some d ≡ some c → d ≡ c
    head-same d c g = cc
Timely-at from (d ∷ rest) (suc k) c t g = Timely-at from rest k c t.1 g

-- Let no candidate be before the time `from`, nor so late that 45 ms after it the clock of 64 bits
-- wraps. For each candidate that is at most 45 ms after it,
-- `select_candidate` chooses one of the list that goes before that candidate or is as good: of a
-- higher class, or of the same class and no later. With the earliest time for `from`, that is every
-- candidate that contends with the earliest one.
pub select_candidate_lem :
    (from : ℕ) (l : List Candidate) (k : ℕ) (c : Candidate)
    → Timely from l
    → get_elem? l k ≡ some c
    → c.anchor_us ≤ from + contend_us
    → (x : Candidate) × (select_candidate l ≡ some x) × Chosen l x × Over x c
unfolding select_candidate
select_candidate_lem from [] k c t g near = cc
select_candidate_lem from (c0 ∷ rest) k c t g near =
    let l = c0 ∷ rest in
    let e = earliest rest c0 in
    let e_chosen = earliest-Chosen l rest c0 (λ k d g. (suc k, g)) (0, refl) in
    (
      contend l e,
      refl,
      contend-Chosen l l e (λ k d g. (k, g)) e_chosen,
      contend-reach from l e k c t (Timely-at from l e_chosen.0 e t e_chosen.1) g near,
    )
