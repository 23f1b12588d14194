-- ===== src/Route/Routes/Lookup.antt =====
-- Where the frames of `lg_route_next_hop` can go.
use mathlib.Core.Path.{subst}
use lockgrid.Prelude.{
  ℕ, suc, Bool, true, false, not, ◌&&◌, List, [], ◌∷◌, some, ltb, ◌==◌, get_elem?, ◌≡◌, refl, sym,
  ◌∙◌, ap, arith, ◌⊎◌, inl, inr, Bool-cases, Option-cases,
}
use lockgrid.Types.{Neigh, is_linked, is_free, addr_invalid}
use lockgrid.Neigh.{find, find_from}
use lockgrid.Route.{Grid, parent}
use lockgrid.Route.Best.{Tail, Tail-here, Tail-next}
use lockgrid.Route.Routes.{route_find, has_link, next_hop}

-- The address of a neighbour with a link.
pub record LinkTo (l : List Neigh) (addr : ℕ) : Type 0 where
  pub slot : ℕ
  pub peer : Neigh
  pub there : get_elem? l slot ≡ some peer
  pub up : is_linked peer.state ≡ true
  pub named : peer.addr ≡ addr

LinkTo-cons : (n : Neigh) (l : List Neigh) (addr : ℕ) → LinkTo l addr → LinkTo (n ∷ l) addr
LinkTo-cons n l addr x = record {
  slot = suc x.slot;
  peer = x.peer;
  there = x.there;
  up = x.up;
  named = x.named;
}

parent-LinkTo : (l : List Neigh) → (parent l ≡ addr_invalid) ⊎ LinkTo l (parent l)
unfolding parent
parent-LinkTo [] = inl refl
parent-LinkTo (n ∷ rest) = elim (Bool-cases (n.is_parent && is_linked n.state)) [
  | inl here ↦
      rw here
        (inr (record { slot = 0; peer = n; there = refl; up = ground (arith, here); named = refl }))
  | inr off ↦ elim (parent-LinkTo rest) [
    | inl e ↦ rw off (inl e)
    | inr x ↦ rw off (inr (LinkTo-cons n rest (parent rest) x))
  ]
]

find_from-addr :
    (all : List Neigh) (i : ℕ) (l : List Neigh) (addr j : ℕ) (n : Neigh)
    → Tail all i l
    → find_from i l addr ≡ some j
    → get_elem? all j ≡ some n
    → n.addr ≡ addr
unfolding find_from
find_from-addr all i [] addr j n t e g = cc
find_from-addr all i (m ∷ rest) addr j n t e g =
    elim (Bool-cases (not (is_free m.state) && (m.addr == addr))) [
      | inl here ↦
          let q : i ≡ j = ground (arith, here, e) in
          let at = Tail-here all i m rest t in
          let same : some m ≡ some n = sym at ∙ ap (λ (x : ℕ). get_elem? all x) q ∙ g in
          let mn : m ≡ n = cc in
          let a : m.addr ≡ addr = ground (arith, here) in sym (ap (λ (x : Neigh). x.addr) mn) ∙ a
      | inr off ↦
          find_from-addr all (suc i) rest addr j n (Tail-next all i m rest t)
            (ground (arith, off, e)) g
    ]

find-from : (l : List Neigh) (addr i : ℕ) → find l addr ≡ some i → find_from 0 l addr ≡ some i
unfolding find
find-from l addr i e = ground (arith, e)

has_link-LinkTo : (l : List Neigh) (addr : ℕ) → has_link l addr ≡ true → LinkTo l addr
unfolding has_link
has_link-LinkTo l addr h = elim (Option-cases (find l addr)) [
  | inl missing ↦ absurd (ground (arith, missing, h))
  | inr (i, found) ↦ elim (Option-cases (get_elem? l i)) [
    | inl missing ↦ absurd (ground (arith, found, missing, h))
    | inr (n, there) ↦ record {
      slot = i;
      peer = n;
      there = there;
      up = ground (arith, found, there, h);
      named = find-addr l addr i n found there;
    }
  ]
]
  where
    find-addr :
        (l : List Neigh) (addr i : ℕ) (n : Neigh)
        → find l addr ≡ some i
        → get_elem? l i ≡ some n
        → n.addr ≡ addr
    find-addr l addr i n e g =
        find_from-addr l 0 l addr i n (λ k. ap (λ (x : ℕ). get_elem? l x) (omega arith))
          (find-from l addr i e) g

hop_cases :
    (now : ℕ) (g : Grid) (final : ℕ) (upward : Bool)
    → ((next_hop now g final upward).0 ≡ parent g.neigh)
      ⊎ (has_link g.neigh (next_hop now g final upward).0 ≡ true)
unfolding next_hop
hop_cases now g final true = inl refl
hop_cases now g final false = elim (Bool-cases (has_link g.neigh final)) [
  | inl near ↦ inr (ground (arith, near))
  | inr far ↦ elim (Option-cases (route_find g.routes final)) [
    | inl missing ↦ inl (ground (arith, far, missing))
    | inr (i, found) ↦ elim (Option-cases (get_elem? g.routes i)) [
      | inl missing ↦ inl (ground (arith, far, found, missing))
      | inr (r, there) ↦ elim (Bool-cases (ltb now r.expiry_us && has_link g.neigh r.next_hop)) [
        | inl live ↦ inr (ground (arith, far, found, there, live))
        | inr dead ↦ inl (ground (arith, far, found, there, dead))
      ]
    ]
  ]
]

-- Whatever the destination, the routes and the flag, `lg_route_next_hop` gives no address, or that of
-- a neighbour with a link.
pub next_hop-LinkTo :
    (now : ℕ) (g : Grid) (final : ℕ) (upward : Bool)
    → ((next_hop now g final upward).0 ≡ addr_invalid)
      ⊎ LinkTo g.neigh (next_hop now g final upward).0
next_hop-LinkTo now g final upward = elim (hop_cases now g final upward) [
  | inl e ↦ subst (λ (a : ℕ). (a ≡ addr_invalid) ⊎ LinkTo g.neigh a) (sym e) (parent-LinkTo g.neigh)
  | inr h ↦ inr (has_link-LinkTo g.neigh _ h)
]
