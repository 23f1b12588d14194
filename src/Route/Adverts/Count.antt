-- ===== src/Route/Adverts/Count.antt =====
-- subsys/lockgrid/lg_route.c: how many neighbours an advertisement names.
use lockgrid.Prelude.{
  ℕ, ◌∙◌, Bool-cases, inl, inr, ◌+◌, ◌*◌, ◌≤◌, ◌≡◌, refl, arith, false, List, [], ◌∷◌, leb, ltb,
  if◌then◌else◌, min,
}
use lockgrid.Types.{Neigh, is_linked}
use lockgrid.Frame.{put_le16}
use lockgrid.Route.{Grid}
use lockgrid.Route.Adverts.{build_from, build_adv, adv_max_entries}

-- The neighbours with a link.
abbrev pub links_in : List Neigh → ℕ
links_in [] = 0
links_in (n ∷ rest) = (if is_linked n.state then 1 else 0) + links_in rest

build_from-count :
    (l : List Neigh) (buf : List ℕ) (count : ℕ)
    → count ≤ 5
    → (build_from 28 l buf (5 + count * 4) count).1 ≡ 5 + min 5 (count + links_in l) * 4
unfolding build_from
build_from-count [] buf count h = omega arith
build_from-count (n ∷ rest) buf count h = elim (Bool-cases (is_linked n.state)) [
  | inl up ↦ elim (Bool-cases (ltb 28 (5 + count * 4 + 4))) [
    | inl full ↦
        let five : count ≡ 5 = ground arith in
        let stop : leb adv_max_entries count ≡ false = ground arith in
        rw (stop, up, full) (omega arith)
    | inr room ↦
        let on : leb adv_max_entries count ≡ false = ground arith in
        let moved : 5 + count * 4 + 4 ≡ 5 + (count + 1) * 4 = omega arith in
        let one : count + (1 + links_in rest) ≡ count + 1 + links_in rest = omega arith in
        rw (on, up, room, moved, one)
          (build_from-count rest
            (put_le16 (put_le16 buf (5 + count * 4) n.addr) (5 + count * 4 + 2) n.link_cost)
            (count + 1) (ground arith))
  ]
  | inr down ↦
      let on : leb adv_max_entries count ≡ false = ground arith in
      let none_more : 0 + links_in rest ≡ links_in rest = omega arith in
      rw (on, down, none_more) (build_from-count rest buf count h)
]

-- The advertisement that `lg_link_stage_tx` asks for, with its 28 bytes: it is as long as its header and
-- the entries of all neighbours with a link, but of five at most, although the limit is six.
pub build_adv-count :
    (g : Grid) (buf : List ℕ) → (build_adv g buf 28).1 ≡ 5 + min 5 (links_in g.neigh) * 4
unfolding build_adv
build_adv-count g buf =
    let zero_more : 0 + links_in g.neigh ≡ links_in g.neigh = omega arith in
    build_from-count g.neigh _ 0 (omega arith) ∙ rw zero_more refl
