-- ===== src/Route/Best.antt =====
-- The parent set that the loop over the neighbours gathers, and what the hysteresis makes of it.
use mathlib.Core.Path.{subst}
use lockgrid.Prelude.{
  ℕ, zero, suc, ◌+◌, ◌≤◌, true, not, ◌&&◌, List, [], ◌∷◌, Option, none, some, ltb, leb, ◌==◌,
  get_elem?, ◌≡◌, refl, sym, ◌∙◌, ap, ◌⊎◌, arith, Bool-cases, Option-cases, inl, inr, All,
}
use lockgrid.Types.{Neigh, rank_infinite, addr_invalid}
use lockgrid.Config.{Config}
use lockgrid.Neigh.{find}
use lockgrid.Route.{
  rank_through, Slot, shift, insert, is_candidate, gather, holds, swap_in, restore, cost_at,
  addr_at, head_cost, head_who, keep_incumbent, rank_hysteresis,
}

-- An entry is empty, or names a candidate of the table with its cost.
abbrev pub Names : Config → List Neigh → ℕ → Option ℕ → Type 0
Names cfg l cost none = cost ≡ rank_infinite
Names cfg l cost (some i) =
    (n : Neigh) × (get_elem? l i ≡ some n)
    × (is_candidate cfg n ≡ true)
    × (cost ≡ rank_through cfg n)

abbrev pub AllName : Config → List Neigh → List Slot → Type 0
AllName cfg l best = All (λ s. Names cfg l s.cost s.who) best

shift-AllName :
    (cfg : Config) (l : List Neigh) (s : Slot) (best : List Slot)
    → Names cfg l s.cost s.who
    → AllName cfg l best
    → AllName cfg l (shift s best)
unfolding shift
shift-AllName cfg l s [] p h = tt
shift-AllName cfg l s (t ∷ rest) p h = (p, shift-AllName cfg l t rest h.0 h.1)

insert-AllName :
    (cfg : Config) (l : List Neigh) (s : Slot) (best : List Slot)
    → Names cfg l s.cost s.who
    → AllName cfg l best
    → AllName cfg l (insert s best)
unfolding insert
insert-AllName cfg l s [] p h = tt
insert-AllName cfg l s (t ∷ rest) p h = elim (Bool-cases (ltb s.cost t.cost)) [
  | inl e ↦ rw e (p, shift-AllName cfg l t rest h.0 h.1)
  | inr e ↦ rw e (h.0, insert-AllName cfg l s rest p h.1)
]

-- `l` is what is left of `all` from slot `i` on.
abbrev pub Tail : List Neigh → ℕ → List Neigh → Type 0
Tail all i l = (k : ℕ) → get_elem? l k ≡ get_elem? all (i + k)

pub Tail-next :
    (all : List Neigh) (i : ℕ) (n : Neigh) (rest : List Neigh)
    → Tail all i (n ∷ rest)
    → Tail all (suc i) rest
Tail-next all i n rest t k =
    let e : i + suc k ≡ suc i + k = omega arith in t (suc k) ∙ ap (λ (x : ℕ). get_elem? all x) e

pub Tail-here :
    (all : List Neigh) (i : ℕ) (n : Neigh) (rest : List Neigh)
    → Tail all i (n ∷ rest)
    → get_elem? all i ≡ some n
Tail-here all i n rest t =
    let e : i + 0 ≡ i = omega arith in sym (t 0 ∙ ap (λ (x : ℕ). get_elem? all x) e)

pub gather-AllName :
    (cfg : Config) (all : List Neigh) (i : ℕ) (l : List Neigh) (best : List Slot)
    → Tail all i l
    → AllName cfg all best
    → AllName cfg all (gather cfg i l best)
unfolding gather
gather-AllName cfg all i [] best t h = h
gather-AllName cfg all i (n ∷ rest) best t h = elim (Bool-cases (is_candidate cfg n)) [
  | inl e ↦ rw e (
      gather-AllName cfg all (suc i) rest _ (Tail-next all i n rest t)
        (insert-AllName cfg all _ best (n, Tail-here all i n rest t, e, refl) h))
  | inr e ↦ rw e (gather-AllName cfg all (suc i) rest best (Tail-next all i n rest t) h)
]

insert-head :
    (s t : Slot) (rest : List Slot)
    → (head_cost (insert s (t ∷ rest)) ≤ s.cost) × (head_cost (insert s (t ∷ rest)) ≤ t.cost)
unfolding insert head_cost
insert-head s t rest = ground arith

insert-length :
    (s t : Slot) (rest : List Slot)
    → (u : Slot) × (rest' : List Slot) × (insert s (t ∷ rest) ≡ u ∷ rest')
unfolding insert
insert-length s t rest = elim (Bool-cases (ltb s.cost t.cost)) [
  | inl e ↦ rw e (s, shift t rest, refl)
  | inr e ↦ rw e (t, insert s rest, refl)
]

insert-head_cost :
    (s t u : Slot) (rest rest' : List Slot)
    → insert s (t ∷ rest) ≡ u ∷ rest'
    → (u.cost ≤ s.cost) × (u.cost ≤ t.cost)
unfolding head_cost
insert-head_cost s t u rest rest' e =
    let h = insert-head s t rest in
    let p : head_cost (insert s (t ∷ rest)) ≡ u.cost = ap head_cost e in
    (omega (arith, h.0, p), omega (arith, h.1, p))

pub gather-head :
    (cfg : Config) (i : ℕ) (l : List Neigh) (t : Slot) (rest : List Slot)
    → head_cost (gather cfg i l (t ∷ rest)) ≤ t.cost
unfolding gather
gather-head cfg i [] t rest = unfold head_cost in omega arith
gather-head cfg i (n ∷ l) t rest = elim (Bool-cases (is_candidate cfg n)) [
  | inl e ↦
      let s : Slot = record { cost = rank_through cfg n; who = some i } in
      let x = insert-length s t rest in
      rw (e, x.2)
        (omega (arith, gather-head cfg (suc i) l x.0 x.1, insert-head_cost s t x.0 rest x.1 x.2))
  | inr e ↦ rw e (gather-head cfg (suc i) l t rest)
]

-- Nothing that the loop saw is cheaper than the head of the set.
pub gather-le :
    (cfg : Config) (i : ℕ) (l : List Neigh) (t : Slot) (rest : List Slot) (k : ℕ) (n : Neigh)
    → get_elem? l k ≡ some n
    → is_candidate cfg n ≡ true
    → head_cost (gather cfg i l (t ∷ rest)) ≤ rank_through cfg n
unfolding gather
gather-le cfg i [] t rest k n g c = cc
gather-le cfg i (m ∷ l) t rest zero n g c =
    let same : m ≡ n = cc in
    let e : is_candidate cfg m ≡ true = rw same c in
    let s : Slot = record { cost = rank_through cfg m; who = some i } in
    let x = insert-length s t rest in
    rw (e, x.2)
      (omega (
        arith,
        gather-head cfg (suc i) l x.0 x.1,
        insert-head_cost s t x.0 rest x.1 x.2,
        ap (rank_through cfg) same,
      ))
gather-le cfg i (m ∷ l) t rest (suc k) n g c = elim (Bool-cases (is_candidate cfg m)) [
  | inl e ↦
      let s : Slot = record { cost = rank_through cfg m; who = some i } in
      let x = insert-length s t rest in rw (e, x.2) (gather-le cfg (suc i) l x.0 x.1 k n g c)
  | inr e ↦ rw e (gather-le cfg (suc i) l t rest k n g c)
]

swap_in-AllName :
    (cfg : Config) (l : List Neigh) (head : Slot) (i : ℕ) (best r : List Slot)
    → Names cfg l head.cost head.who
    → AllName cfg l best
    → swap_in head i best ≡ some r
    → AllName cfg l r
unfolding swap_in
swap_in-AllName cfg l head i [] r p h e = cc
swap_in-AllName cfg l head i (s ∷ rest) r p h e = elim (Bool-cases (holds s i)) [
  | inl here ↦ let q : r ≡ head ∷ rest = ground (arith, here, e) in rw q (p, h.1)
  | inr off ↦ elim (Option-cases (swap_in head i rest)) [
    | inl none_there ↦ absurd (ground (arith, off, none_there, e))
    | inr (r', there) ↦
        let q : r ≡ s ∷ r' = ground (arith, off, there, e) in
        rw q (h.0, swap_in-AllName cfg l head i rest r' p h.1 there)
  ]
]

cost_at-at :
    (cfg : Config) (l : List Neigh) (i : ℕ) (n : Neigh)
    → get_elem? l i ≡ some n
    → cost_at cfg l i ≡ rank_through cfg n
cost_at-at cfg l i n e = ground (arith, e)

pub holds-Names :
    (cfg : Config) (l : List Neigh) (s : Slot) (i : ℕ)
    → Names cfg l s.cost s.who
    → holds s i ≡ true
    → Names cfg l (cost_at cfg l i) (some i)
holds-Names cfg l s i h e = elim (Option-cases s.who) [
  | inl missing ↦ absurd (ground (arith, missing, e))
  | inr (j, there) ↦
      let q : j ≡ i = ground (arith, there, e) in
      let p = subst (λ (w : Option ℕ). Names cfg l s.cost w) (there ∙ ap some q) h in
      (p.0, p.1, p.2, cost_at-at cfg l i p.0 p.1)
]

swap_in-candidate :
    (cfg : Config) (l : List Neigh) (head : Slot) (i : ℕ) (best r : List Slot)
    → AllName cfg l best
    → swap_in head i best ≡ some r
    → Names cfg l (cost_at cfg l i) (some i)
unfolding swap_in
swap_in-candidate cfg l head i [] r h e = cc
swap_in-candidate cfg l head i (s ∷ rest) r h e = elim (Bool-cases (holds s i)) [
  | inl here ↦ holds-Names cfg l s i h.0 here
  | inr off ↦ elim (Option-cases (swap_in head i rest)) [
    | inl none_there ↦ absurd (ground (arith, off, none_there, e))
    | inr (r', there) ↦ swap_in-candidate cfg l head i rest r' h.1 there
  ]
]

restore-AllName :
    (cfg : Config) (l : List Neigh) (i : ℕ) (best : List Slot)
    → AllName cfg l best
    → AllName cfg l (restore i (cost_at cfg l i) best)
unfolding restore
restore-AllName cfg l i [] h = tt
restore-AllName cfg l i (s ∷ rest) h = elim (Option-cases (swap_in s i rest)) [
  | inl missing ↦
      let e : restore i (cost_at cfg l i) (s ∷ rest) ≡ s ∷ rest = ground (arith, missing) in
      subst (AllName cfg l) (sym e) h
  | inr (r, there) ↦
      let head : Slot = record { cost = cost_at cfg l i; who = some i } in
      let e : restore i (cost_at cfg l i) (s ∷ rest) ≡ head ∷ r = ground (arith, there) in
      subst (AllName cfg l) (sym e) (
        swap_in-candidate cfg l s i rest r h.1 there,
        swap_in-AllName cfg l s i rest r h.0 h.1 there,
      )
]

restore-head_cost :
    (i cost bound : ℕ) (best : List Slot)
    → cost ≤ bound
    → head_cost best ≤ bound
    → head_cost (restore i cost best) ≤ bound
unfolding restore head_cost
restore-head_cost i cost bound best c h = ground arith

keep_cases :
    (cfg : Config) (l : List Neigh) (old : ℕ) (best : List Slot)
    → (keep_incumbent cfg l old best ≡ best)
      ⊎ ((cur : ℕ) × (keep_incumbent cfg l old best ≡ restore cur (cost_at cfg l cur) best)
          × (cost_at cfg l cur ≤ head_cost best + rank_hysteresis))
unfolding keep_incumbent
keep_cases cfg l old best = elim (Option-cases (head_who best)) [
  | inl e ↦ inl (ground (arith, e))
  | inr (b, e) ↦ elim (Option-cases (find l old)) [
    | inl f ↦ inl (ground (arith, e, f))
    | inr (cur, f) ↦ elim (Bool-cases (not (old == addr_invalid) && not (addr_at l b == old))) [
      | inr off ↦ inl (ground (arith, e, off))
      | inl on ↦
          elim (Bool-cases (
            ltb (cost_at cfg l cur) rank_infinite
            && leb (cost_at cfg l cur) (head_cost best + rank_hysteresis))) [
              | inr dear ↦ inl (ground (arith, e, f, on, dear))
              | inl near ↦ inr (cur, ground (arith, e, f, on, near), ground (arith, near))
            ]
    ]
  ]
]

pub keep_incumbent-AllName :
    (cfg : Config) (l : List Neigh) (old : ℕ) (best : List Slot)
    → AllName cfg l best
    → AllName cfg l (keep_incumbent cfg l old best)
keep_incumbent-AllName cfg l old best h = elim (keep_cases cfg l old best) [
  | inl e ↦ subst (AllName cfg l) (sym e) h
  | inr (cur, e, near) ↦ subst (AllName cfg l) (sym e) (restore-AllName cfg l cur best h)
]

-- The hysteresis makes the path at most four sixteenths dearer.
pub keep_incumbent-head_cost :
    (cfg : Config) (l : List Neigh) (old : ℕ) (best : List Slot)
    → head_cost (keep_incumbent cfg l old best) ≤ head_cost best + rank_hysteresis
keep_incumbent-head_cost cfg l old best = elim (keep_cases cfg l old best) [
  | inl e ↦ omega (arith, ap head_cost e)
  | inr (cur, e, near) ↦ omega (
    arith,
    ap head_cost e,
    restore-head_cost cur (cost_at cfg l cur) (head_cost best + rank_hysteresis) best near
        (omega arith),
  )
]
