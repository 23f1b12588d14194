-- ===== src/Join/Forged.antt =====
-- subsys/lockgrid/lg_join.c: what a frame that is not secured can do to a handshake.
use lockgrid.Prelude.{
  ℕ, ◌+◌, ◌≡◌, refl, ap, sym, ◌∙◌, true, false, not, ◌||◌, List, length, slice, arith, ◌==◌,
  write_at, replicate, length-replicate, length-write_at, ◌%◌, ◌^◌, slice-write_at,
}
use lockgrid.Prelude.Int.{ℤ}
use lockgrid.Prelude.Bits.{has_bit}
use lockgrid.Types.{Neigh}
use lockgrid.Neigh.{rx_rssi}
use lockgrid.Sec.Protect.{Aead, SecStats}
use lockgrid.Join.{Context, zero_xfer, take_fragment, xfer_max, reassemble, ft_join_ack}
use lockgrid.Join.Params.{unpack, params_size}
use lockgrid.Join.Steps.{Talk, Self}
use lockgrid.Join.Events.{links, receive, dispatch, take_params, joined}
use lockgrid.Join.Fragments.{Plain, take_step, after}

-- A frame of the type JOIN_ACK without the security bit, which carries `body` as its one fragment.
abbrev pub PlainAck : List ℕ → List ℕ → Type 0
PlainAck body p = Plain ft_join_ack 0 1 body p

-- A transmit buffer that begins with the bytes.
abbrev bytes_of : List ℕ → List ℕ
bytes_of body = write_at (replicate xfer_max 0) 0 body

bytes_of-take : (body : List ℕ) → length body ≡ params_size → slice (bytes_of body) 0 20 ≡ body
bytes_of-take body size =
    ap (λ (n : ℕ). slice (bytes_of body) 0 n) (sym size)
    ∙ slice-write_at (replicate xfer_max 0) 0 body
        (omega (arith, size, length-replicate {A = ℕ} xfer_max 0))

-- What is taken in is read out again.
ack_message :
    (body : List ℕ)
    → length body ≡ params_size
    → let x = after (bytes_of body) 20 0 zero_xfer in slice x.buf 0 x.len ≡ body
unfolding after
ack_message body size = rw (bytes_of-take body size) (bytes_of-take body size)

-- The fragment is the whole message.
ack_taken :
    (p body : List ℕ) (hs : Context)
    → length body ≡ params_size
    → PlainAck body p
    → take_fragment 8 115 ft_join_ack p 30 hs
      ≡ (record hs { rx_type = ft_join_ack; rx = after (bytes_of body) 20 0 zero_xfer }, true)
ack_taken p body hs size P =
    let back = bytes_of-take body size in
    let starts : (not (hs.rx_type == ft_join_ack) || true) ≡ true = ground arith in
    take_step ft_join_ack 20 0 (bytes_of body) p hs zero_xfer (omega arith) (omega arith)
      (length-write_at (replicate xfer_max 0) 0 body ∙ length-replicate {A = ℕ} xfer_max 0)
      (rw back P) (rw starts refl) (refl, refl, refl, refl)

reassembled :
    (self : Self) (crypto : Aead) (n : Neigh) (hs : Context) (p body : List ℕ) (st : SecStats)
    → length body ≡ params_size
    → PlainAck body p
    → reassemble self.cfg crypto n hs p 30 st ≡ record {
      neigh = n;
      hs = record hs { rx_type = ft_join_ack; rx = after (bytes_of body) 20 0 zero_xfer };
      whole = true;
      stats = st;
    }
unfolding reassemble has_bit
reassembled self crypto n hs p body st size P = rw (P.0, ack_taken p body hs size P) refl

-- Whatever handshake a node is in, and whatever it has verified so far, one unsecured JOIN_ACK with 20
-- bytes of its own choice, from the neighbour's address, brings the link up with the parameters in
-- these bytes, this node the responder. The keys stay as they are, with or without a key for the link.
pub PlainAck-links :
    (crypto : Aead) (self : Self) (rssi : ℤ) (air_start : ℕ) (p body : List ℕ) (t : Talk)
    → length body ≡ params_size
    → PlainAck body p
    → (t' : Talk) × (receive crypto self rssi air_start p 30 t ≡ links t' (unpack body) false)
      × (t'.neigh.keys ≡ t.neigh.keys)
unfolding receive dispatch take_params rx_rssi
PlainAck-links crypto self rssi air_start p body t size P =
    let n = rx_rssi t.neigh rssi in
    let hs : Context = record t.hs {
      rx_type = ft_join_ack;
      rx = after (bytes_of body) 20 0 zero_xfer;
    } in
    let anchor = (air_start + (unpack body).anchor_offset) % 2 ^ 64 in
    let msg = ack_message body size in
    (
      record t { neigh = joined n anchor; hs = hs },
      rw (reassembled self crypto n t.hs p body t.stats size P, P.0, msg, size) refl,
      refl,
    )
