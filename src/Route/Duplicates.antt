-- ===== src/Route/Duplicates.antt =====
-- subsys/lockgrid/lg_route.c: the cache of messages that were seen.
use lockgrid.Prelude.{
  ℕ, zero, suc, ◌+◌, ◌%◌, ◌≤◌, ◌<◌, Bool, true, false, ◌&&◌, List, [], ◌∷◌, ◌==◌, if◌then◌else◌,
  set, get_or, get_or-set_self, get_or-set_ne, length, length-set, ◌≡◌, ◌≢◌, refl, arith, ◌∙◌,
  Bool-cases, inl, inr,
}
use lockgrid.Route.{Heard, Grid}

-- LG_DUP_CACHE_SIZE
abbrev pub dup_cache_size : ℕ
dup_cache_size = 16

abbrev pub same_message : Heard → Heard → Bool
same_message a b = (a.origin == b.origin) && (a.msg_id == b.msg_id)

unfoldable pub in_cache : Heard → List Heard → Bool
in_cache m [] = false
in_cache m (h ∷ rest) = if same_message h m then true else in_cache m rest

-- `lg_route_is_duplicate`
unfoldable pub is_duplicate : Grid → Heard → Grid × Bool
is_duplicate g m = if in_cache m g.dup_cache then (g, true) else (
  record g {
    dup_cache = set g.dup_cache g.dup_next m;
    dup_next = (g.dup_next + 1) % dup_cache_size;
  },
  false,
)

-- The state after a run of messages.
unfoldable pub hear_all : Grid → List Heard → Grid
hear_all g [] = g
hear_all g (m ∷ rest) = hear_all (is_duplicate g m).0 rest

abbrev blank : Heard
blank = record { origin = 0; msg_id = 0 }

-- The message is in place `p`, which is written again after `16 - d` more new messages.
record Kept (g : Grid) (m : Heard) (p d : ℕ) : Type 0 where
  size : length g.dup_cache ≡ dup_cache_size
  inside : p < dup_cache_size
  here : get_or g.dup_cache p blank ≡ m
  next : g.dup_next ≡ (p + d) % dup_cache_size
  used : 1 ≤ d

same-message : (m : Heard) → same_message m m ≡ true
same-message m = ground arith

in_cache-get_or :
    (m : Heard) (l : List Heard) (p : ℕ) → p < length l → get_or l p blank ≡ m → in_cache m l ≡ true
unfolding in_cache
in_cache-get_or m [] p h e = absurd (omega arith)
in_cache-get_or m (x ∷ rest) zero h e =
    let t : same_message x m ≡ true = rw e (same-message m) in rw t refl
in_cache-get_or m (x ∷ rest) (suc p) h e = ground (arith, in_cache-get_or m rest p (omega arith) e)

step-Kept :
    (g : Grid) (m x : Heard) (p d : ℕ)
    → Kept g m p d
    → d < dup_cache_size
    → (d' : ℕ) × (d' ≤ suc d) × Kept (is_duplicate g x).0 m p d'
unfolding is_duplicate
step-Kept g m x p d k h = elim (Bool-cases (in_cache x g.dup_cache)) [
  | inl known ↦ rw known (d, omega arith, k)
  | inr fresh ↦
      let other : g.dup_next ≢ p = λ e. absurd (omega (arith, e, k.next, k.inside, k.used)) in
      rw fresh (
        suc d,
        omega arith,
        record {
          size = length-set g.dup_cache g.dup_next x ∙ k.size;
          inside = k.inside;
          here = get_or-set_ne g.dup_cache g.dup_next p x blank other ∙ k.here;
          next = omega (arith, k.next);
          used = omega arith;
        },
      )
]

run-Kept :
    (g : Grid) (m : Heard) (p d : ℕ) (xs : List Heard)
    → Kept g m p d
    → d + length xs ≤ dup_cache_size
    → in_cache m (hear_all g xs).dup_cache ≡ true
unfolding hear_all
run-Kept g m p d [] k h = in_cache-get_or m g.dup_cache p (omega (arith, k.size, k.inside)) k.here
run-Kept g m p d (x ∷ rest) k h =
    let s = step-Kept g m x p d k (omega arith) in
    run-Kept (is_duplicate g x).0 m p s.0 rest s.2 (omega (arith, s.1))

-- A message that was new is recognised as a duplicate after any run of up to fifteen other
-- messages, whichever of them are new. The cache has its sixteen places and the next one is among
-- them.
pub is_duplicate_lem :
    (g : Grid) (m : Heard) (xs : List Heard)
    → length g.dup_cache ≡ dup_cache_size
    → g.dup_next < dup_cache_size
    → (is_duplicate g m).1 ≡ false
    → length xs < dup_cache_size
    → (is_duplicate (hear_all (is_duplicate g m).0 xs) m).1 ≡ true
unfolding is_duplicate
is_duplicate_lem g m xs size next fresh few =
    let missing : in_cache m g.dup_cache ≡ false = ground (arith, fresh) in
    let k : Kept (is_duplicate g m).0 m g.dup_next 1 = rw missing (record {
      size = length-set g.dup_cache g.dup_next m ∙ size;
      inside = next;
      here = get_or-set_self g.dup_cache g.dup_next m blank (omega (arith, size));
      next = refl;
      used = omega arith;
    }) in
    let found = run-Kept (is_duplicate g m).0 m g.dup_next 1 xs k (omega arith) in
    ground (arith, found)
