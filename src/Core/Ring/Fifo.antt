-- ===== src/Core/Ring/Fifo.antt =====
-- A ring is a bounded queue.
use lockgrid.Prelude.{
  ℕ, zero, suc, ◌+◌, ◌-◌, ◌%◌, ◌^◌, ◌≤◌, ◌<◌, List, [], ◌∷◌, ◌++◌, none, some, leb, ◌==◌,
  if◌then◌else◌, get_or, get_or-set_self, get_or-set_ne, set, length, length-set, ◌≡◌, ◌≢◌, refl,
  ap, ◌∙◌, ◌⊎◌, arith, Bool-cases, inl, inr,
}
use lockgrid.Types.{u32}
use lockgrid.Core.Ring.{ring_size, Ring, waiting, post, take}

-- The next `k` entries from a position on.
unfoldable pub entries : {A : Type 0} → A → List A → ℕ → ℕ → List A
entries spare l pos zero = []
entries spare l pos (suc k) = get_or l (pos % ring_size) spare ∷ entries spare l (u32 (pos + 1)) k

-- The queue that a ring stands for.
unfoldable pub queue : {A : Type 0} → A → Ring A → List A
unfolding entries
queue spare r = entries spare r.places r.tail (waiting r)

-- The places are there, the counters are words, and no more entries wait than there are places.
pub record IsRing {A : Type 0} (r : Ring A) : Type 0 where
  pub size : length r.places ≡ ring_size
  pub words : (r.head < 2 ^ 32) × (r.tail < 2 ^ 32)
  pub room : waiting r ≤ ring_size

-- A write behind the entries leaves them.
entries-set :
    {A : Type 0} (spare : A) (l : List A) (x : A) (k m pos : ℕ)
    → pos < 2 ^ 32
    → k + m < ring_size
    → entries spare (set l (u32 (pos + (k + m)) % ring_size) x) pos k ≡ entries spare l pos k
unfolding entries
entries-set spare l x zero m pos p h = refl
entries-set spare l x (suc k) m pos p h =
    let other : u32 (pos + (suc k + m)) % ring_size ≢ pos % ring_size =
      λ e. absurd (omega (arith, e)) in
    let moved : u32 (pos + (suc k + m)) ≡ u32 (u32 (pos + 1) + (k + m)) = omega arith in
    let here =
      get_or-set_ne l (u32 (pos + (suc k + m)) % ring_size) (pos % ring_size) x spare other in
    let later = entries-set spare l x k m (u32 (pos + 1)) (omega arith) (omega arith) in
    rw here (
      ap (λ ys. get_or l (pos % ring_size) spare ∷ ys)
        (ap (λ (q : ℕ). entries spare (set l (q % ring_size) x) (u32 (pos + 1)) k) moved ∙ later))

entries-suc :
    {A : Type 0} (spare : A) (l : List A) (k pos : ℕ)
    → pos < 2 ^ 32
    → entries spare l pos (suc k)
      ≡ entries spare l pos k ++ (get_or l (u32 (pos + k) % ring_size) spare ∷ [])
unfolding entries
entries-suc spare l zero pos p =
    let e : pos % ring_size ≡ u32 (pos + 0) % ring_size = omega arith in
    ap (λ (q : ℕ). get_or l q spare ∷ []) e
entries-suc spare l (suc k) pos p =
    let e : u32 (u32 (pos + 1) + k) ≡ u32 (pos + suc k) = omega arith in
    ap (λ ys. get_or l (pos % ring_size) spare ∷ ys)
      (entries-suc spare l k (u32 (pos + 1)) (omega arith)
        ∙ ap (λ (q : ℕ). entries spare l (u32 (pos + 1)) k ++ (get_or l (q % ring_size) spare ∷ []))
            e)

length-entries :
    {A : Type 0} (spare : A) (l : List A) (k pos : ℕ) → length (entries spare l pos k) ≡ k
unfolding entries
length-entries spare l zero pos = refl
length-entries spare l (suc k) pos = ap suc (length-entries spare l k (u32 (pos + 1)))

length-queue : {A : Type 0} (spare : A) (r : Ring A) → length (queue spare r) ≡ waiting r
unfolding queue
length-queue spare r = length-entries spare r.places (waiting r) r.tail

room-queue :
    {A : Type 0} (spare : A) (r : Ring A) (x : A)
    → IsRing r
    → waiting r < ring_size
    → queue spare
        (record r { places = set r.places (r.head % ring_size) x; head = u32 (r.head + 1) })
      ≡ queue spare r ++ (x ∷ [])
unfolding queue
room-queue spare r x v h =
    let k = waiting r in
    let more : u32 (u32 (r.head + 1) + 2 ^ 32 - r.tail) ≡ suc k = omega (arith, v.words) in
    let at : r.head ≡ u32 (r.tail + (k + 0)) = omega (arith, v.words) in
    let at' : u32 (r.tail + k) % ring_size ≡ r.head % ring_size = omega (arith, v.words) in
    let l = set r.places (r.head % ring_size) x in
    let kept =
      ap (λ (q : ℕ). entries spare (set r.places (q % ring_size) x) r.tail k) at
      ∙ entries-set spare r.places x k 0 r.tail v.words.1 (omega (arith, h)) in
    let last : get_or l (u32 (r.tail + k) % ring_size) spare ≡ x =
      ap (λ (q : ℕ). get_or l q spare) at'
      ∙ get_or-set_self r.places (r.head % ring_size) x spare (omega (arith, v.size)) in
    ap (λ (q : ℕ). entries spare l r.tail q) more
    ∙ entries-suc spare l k r.tail v.words.1
    ∙ ap (λ ys. ys ++ (get_or l (u32 (r.tail + k) % ring_size) spare ∷ [])) kept
    ∙ ap (λ y. entries spare r.places r.tail k ++ (y ∷ [])) last

-- On a ring in order, `post` puts an entry behind the ones that wait, or drops it where eight wait,
-- and leaves the ring in order. That holds across the wrap of the counters.
pub post-queue :
    {A : Type 0} (spare : A) (r : Ring A) (x : A)
    → IsRing r
    → (queue spare (post r x) ≡ (
        if leb ring_size (length (queue spare r))
        then queue spare r
        else queue spare r ++ (x ∷ [])))
      × IsRing (post r x)
unfolding post
post-queue spare r x v =
    let n = length-queue spare r in
    elim (Bool-cases (leb ring_size (waiting r))) [
      | inl full ↦ rw (n, full) (refl, v)
      | inr free ↦
          let h : waiting r < ring_size = ground (arith, free) in
          rw (n, free)
            (
              room-queue spare r x v h,
              record {
                size = length-set r.places (r.head % ring_size) x ∙ v.size;
                words = (omega arith, v.words.1);
                room = omega (arith, h, v.words);
              },
            )
    ]

-- On a ring in order, `take` finds nothing where nothing waits; else it hands on the entry that has
-- waited longest, and leaves the others, in order.
pub take-queue :
    {A : Type 0} (spare : A) (r : Ring A)
    → IsRing r
    → ((take spare r ≡ none) × (queue spare r ≡ []))
      ⊎ ((x : A) × (r' : Ring A) × (take spare r ≡ some (x, r'))
          × (queue spare r ≡ x ∷ queue spare r')
          × IsRing r')
unfolding take queue
take-queue spare r v = elim (Bool-cases (r.tail == r.head)) [
  | inl e ↦
      let z : waiting r ≡ 0 = ground (arith, e, v.words) in
      inl (rw e refl, ap (λ (q : ℕ). entries spare r.places r.tail q) z)
  | inr e ↦
      let differ : r.tail ≢ r.head = ground (arith, e) in
      let less : waiting r ≡ suc (u32 (r.head + 2 ^ 32 - u32 (r.tail + 1))) =
        omega (arith, v.words, differ) in
      inr (
        get_or r.places (r.tail % ring_size) spare,
        record r { tail = u32 (r.tail + 1) },
        rw e refl,
        ap (λ (q : ℕ). entries spare r.places r.tail q) less,
        record {
          size = v.size;
          words = (v.words.0, omega arith);
          room = omega (arith, v.room, less);
        },
      )
]
