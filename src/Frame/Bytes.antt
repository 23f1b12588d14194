-- ===== src/Frame/Bytes.antt =====
-- What is written as a word is read back, at any place of a buffer.
use lockgrid.Prelude.{
  ℕ, ◌+◌, ◌*◌, ◌/◌, ◌%◌, ◌^◌, ◌≤◌, ◌<◌, ◌≡◌, List, length, get_or, set, take, arith,
  get_or-set_self, get_or-set_ne, length-set, get_or-take, refl, ◌⊎◌,
}
use lockgrid.Frame.{put_le16, get_le16, put_le32, get_le32}
use lockgrid.Frame.RoundTrip.{word16, word32}

pub length-put_le32 : (p : List ℕ) (off v : ℕ) → length (put_le32 p off v) ≡ length p
unfolding put_le32
length-put_le32 p off v = rw (length-set, length-set, length-set, length-set) refl

pub length-put_le16 : (p : List ℕ) (off v : ℕ) → length (put_le16 p off v) ≡ length p
unfolding put_le16
length-put_le16 p off v = rw (length-set, length-set) refl

pub get_le32-put_le32 :
    (p : List ℕ) (off v : ℕ) → off + 4 ≤ length p → v < 2 ^ 32 → get_le32 (put_le32 p off v) off ≡ v
unfolding put_le32 get_le32
get_le32-put_le32 p off v l h =
    let byte = λ (i : ℕ). v / 2 ^ (8 * i) % 2 ^ 8 in
    let p1 = set p off (v % 2 ^ 8) in
    let p2 = set p1 (off + 1) (v / 2 ^ 8 % 2 ^ 8) in
    let p3 = set p2 (off + 2) (v / 2 ^ 16 % 2 ^ 8) in
    let n1 = length-set p off (v % 2 ^ 8) in
    let n2 = length-set p1 (off + 1) (v / 2 ^ 8 % 2 ^ 8) in
    let n3 = length-set p2 (off + 2) (v / 2 ^ 16 % 2 ^ 8) in
    let d = v / 2 ^ 24 % 2 ^ 8 in
    rw
      (
        get_or-set_ne p3 (off + 3) off d 0 (omega arith),
        get_or-set_ne p2 (off + 2) off (v / 2 ^ 16 % 2 ^ 8) 0 (omega arith),
        get_or-set_ne p1 (off + 1) off (v / 2 ^ 8 % 2 ^ 8) 0 (omega arith),
        get_or-set_self p off (v % 2 ^ 8) 0 (omega arith),
        get_or-set_ne p3 (off + 3) (off + 1) d 0 (omega arith),
        get_or-set_ne p2 (off + 2) (off + 1) (v / 2 ^ 16 % 2 ^ 8) 0 (omega arith),
        get_or-set_self p1 (off + 1) (v / 2 ^ 8 % 2 ^ 8) 0 (omega arith),
        get_or-set_ne p3 (off + 3) (off + 2) d 0 (omega arith),
        get_or-set_self p2 (off + 2) (v / 2 ^ 16 % 2 ^ 8) 0 (omega arith),
        get_or-set_self p3 (off + 3) d 0 (omega arith),
      )
      (word32 v h)

pub get_le16-put_le16 :
    (p : List ℕ) (off v : ℕ) → off + 2 ≤ length p → v < 2 ^ 16 → get_le16 (put_le16 p off v) off ≡ v
unfolding put_le16 get_le16
get_le16-put_le16 p off v l h =
    let p1 = set p off (v % 2 ^ 8) in
    let n1 = length-set p off (v % 2 ^ 8) in
    let d = v / 2 ^ 8 % 2 ^ 8 in
    rw
      (
        get_or-set_ne p1 (off + 1) off d 0 (omega arith),
        get_or-set_self p off (v % 2 ^ 8) 0 (omega arith),
        get_or-set_self p1 (off + 1) d 0 (omega arith),
      )
      (word16 v h)

-- A word that lies outside a write stays.
pub get_or-put_le32 :
    (p : List ℕ) (off v j : ℕ)
    → (j < off) ⊎ (off + 4 ≤ j)
    → get_or (put_le32 p off v) j 0 ≡ get_or p j 0
unfolding put_le32
get_or-put_le32 p off v j h =
    let p1 = set p off (v % 2 ^ 8) in
    let p2 = set p1 (off + 1) (v / 2 ^ 8 % 2 ^ 8) in
    let p3 = set p2 (off + 2) (v / 2 ^ 16 % 2 ^ 8) in
    rw
      (
        get_or-set_ne p3 (off + 3) j (v / 2 ^ 24 % 2 ^ 8) 0 (omega arith),
        get_or-set_ne p2 (off + 2) j (v / 2 ^ 16 % 2 ^ 8) 0 (omega arith),
        get_or-set_ne p1 (off + 1) j (v / 2 ^ 8 % 2 ^ 8) 0 (omega arith),
      )
      (get_or-set_ne p off j (v % 2 ^ 8) 0 (omega arith))

pub get_or-put_le16 :
    (p : List ℕ) (off v j : ℕ)
    → (j < off) ⊎ (off + 2 ≤ j)
    → get_or (put_le16 p off v) j 0 ≡ get_or p j 0
unfolding put_le16
get_or-put_le16 p off v j h =
    rw (get_or-set_ne (set p off (v % 2 ^ 8)) (off + 1) j (v / 2 ^ 8 % 2 ^ 8) 0 (omega arith))
      (get_or-set_ne p off j (v % 2 ^ 8) 0 (omega arith))

-- Words that lie within a common prefix are equal.
pub get_le16-prefix :
    (p q : List ℕ) (n off : ℕ) → off + 2 ≤ n → take n p ≡ take n q → get_le16 p off ≡ get_le16 q off
unfolding get_le16
get_le16-prefix p q n off h e =
    rw
      (
        get_or-take p n off 0 (omega arith),
        get_or-take p n (off + 1) 0 (omega arith),
        get_or-take q n off 0 (omega arith),
        get_or-take q n (off + 1) 0 (omega arith),
        e,
      )
      refl

pub get_le32-prefix :
    (p q : List ℕ) (n off : ℕ) → off + 4 ≤ n → take n p ≡ take n q → get_le32 p off ≡ get_le32 q off
unfolding get_le32
get_le32-prefix p q n off h e =
    rw
      (
        get_or-take p n off 0 (omega arith),
        get_or-take p n (off + 1) 0 (omega arith),
        get_or-take p n (off + 2) 0 (omega arith),
        get_or-take p n (off + 3) 0 (omega arith),
        get_or-take q n off 0 (omega arith),
        get_or-take q n (off + 1) 0 (omega arith),
        get_or-take q n (off + 2) 0 (omega arith),
        get_or-take q n (off + 3) 0 (omega arith),
        e,
      )
      refl
