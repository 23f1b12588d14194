-- ===== src/Link/Data/Carry.antt =====
-- subsys/lockgrid/lg_link.c: a message in a data frame reaches the application of the node it is for.
use lockgrid.Prelude.{
  ℕ, zero, suc, ◌%◌, drop, not, ◌||◌, ltb, ◌+◌, ◌≤◌, ◌<◌, ◌^◌, ◌≡◌, refl, ap, Bool, true, false,
  List, [], ◌∷◌, length, take, some, arith, ◌==◌,
}
use lockgrid.Prelude.Int.{ℤ}
use lockgrid.Frame.{put_le16, get_le16}
use lockgrid.Frame.Bytes.{get_le16-put_le16}
use lockgrid.Route.{Grid, Heard}
use lockgrid.Route.Duplicates.{is_duplicate}
use lockgrid.Core.Queue.{TxMsg, payload_max}
use lockgrid.Link.Data.{DataHdr, data_body, write_hdr, read_hdr, handle_data, for_us}

-- The fields are within their C types, and the length within the buffer.
pub record Fits (m : TxMsg) : Type 0 where
  pub flags_word : m.flags < 2 ^ 8
  pub origin_word : m.origin < 2 ^ 16
  pub final_word : m.final < 2 ^ 16
  pub hops_word : m.hops < 2 ^ 8
  pub port_word : m.port < 2 ^ 8
  pub msg_id_word : m.msg_id < 2 ^ 16
  pub short : m.len ≤ payload_max
  pub buffer : length m.payload ≡ payload_max

abbrev pub heading : TxMsg → DataHdr
heading m = record {
  flags = m.flags;
  origin = m.origin;
  final = m.final;
  hops = m.hops;
  port = m.port;
  msg_id = m.msg_id;
}

word : (v : ℕ) → v < 2 ^ 16 → get_le16 (put_le16 (0 ∷ 0 ∷ []) 0 v) 0 ≡ v
word v h = get_le16-put_le16 (0 ∷ 0 ∷ []) 0 v (omega arith) h

read_lem : (m : TxMsg) → Fits m → read_hdr (data_body m) ≡ heading m
unfolding read_hdr data_body write_hdr put_le16 get_le16
read_lem m f =
    let small : (v : ℕ) → v < 2 ^ 8 → v % 2 ^ 8 ≡ v = λ v h. omega arith in
    rw
      (
        small m.flags f.flags_word,
        small m.hops f.hops_word,
        small m.port f.port_word,
        word m.origin f.origin_word,
        word m.final f.final_word,
        word m.msg_id f.msg_id_word,
      )
      refl

length-take : (n : ℕ) (xs : List ℕ) → n ≤ length xs → length (take n xs) ≡ n
length-take zero xs h = refl
length-take (suc n) [] h = absurd (omega arith)
length-take (suc n) (x ∷ xs) h = ap suc (length-take n xs (omega arith))

size_lem : (m : TxMsg) → Fits m → length (data_body m) ≡ 9 + m.len
unfolding data_body write_hdr put_le16
size_lem m f =
    let short = f.short in
    let room = f.buffer in let size = length-take m.len m.payload (omega arith) in omega arith

bytes_lem : (m : TxMsg) → drop 9 (data_body m) ≡ take m.len m.payload
unfolding data_body write_hdr put_le16
bytes_lem m = refl

addr_lem : (g : Grid) (h : Heard) → (is_duplicate g h).0.addr ≡ g.addr
unfolding is_duplicate
addr_lem g h = ground arith

for_us_lem :
    (g : Grid) (h : Heard) (m : TxMsg)
    → m.final ≡ g.addr
    → for_us (is_duplicate g h).0 (heading m) ≡ true
unfolding for_us
for_us_lem g h m e =
    let same : (m.final == g.addr) ≡ true = ground arith in rw (addr_lem g h, same) refl

-- A message whose fields are in range, in a data frame that its destination hears for the first time:
-- the application there is given it once, with its origin, port and hops, the neighbour that it came
-- from and exactly its bytes, and nothing is forwarded, whatever its flags say.
pub handle_data-data_body :
    (now : ℕ) (started : Bool) (g : Grid) (q : List TxMsg) (prev_hop : ℕ) (rssi : ℤ) (m : TxMsg)
    → Fits m
    → m.final ≡ g.addr
    → let seen = is_duplicate g (record { origin = m.origin; msg_id = m.msg_id }) in
      seen.1 ≡ false
      → handle_data now started g q prev_hop (data_body m) rssi ≡ record {
        grid = seen.0;
        queue = q;
        delivered = some (record {
          src = m.origin;
          prev_hop = prev_hop;
          port = m.port;
          rssi = rssi;
          hops = m.hops;
          payload = take m.len m.payload;
        });
        forwarded = false;
        dropped = false;
      }
unfolding handle_data
handle_data-data_body now started g q prev_hop rssi m f here fresh =
    let short = f.short in
    let h : Heard = record { origin = m.origin; msg_id = m.msg_id } in
    let fits : (ltb (9 + m.len) 9 || ltb 73 (9 + m.len)) ≡ false = ground arith in
    let mine : (m.final == g.addr) ≡ true = ground arith in
    let told : (b : Bool) → (not b || true) ≡ true = λ b. ground arith in
    rw (read_lem m f, size_lem m f, bytes_lem m, fits, fresh, for_us_lem g h m here, mine, told)
      refl
