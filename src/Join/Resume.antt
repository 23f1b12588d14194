-- ===== src/Join/Resume.antt =====
-- subsys/lockgrid/lg_join.c: the key of a resumed link, where a request to resume comes twice.
use lockgrid.Prelude.{ℕ, ◌+◌, ◌≡◌, List, some, arith}
use lockgrid.Sec.Identity.{install_key, kdf}
use lockgrid.Sec.Nonce.{nonce_build}
use lockgrid.Join.{stage_message}
use lockgrid.Join.Params.{LinkParams}
use lockgrid.Join.Steps.{Talk, Self, handle_resume_req, derive_resume_key, install, put_message}

-- A router that handles one and the same request to resume a second time, with the long-term key that
-- it kept, whatever it sent and received in between and whatever parameters it offers: it installs
-- the same link key again and begins anew with counter zero both ways, so its next frame is sealed
-- under the key and the nonce of the first answer, and the replay filter has forgotten what it saw.
-- The first request leaves the long-term key as it was.
pub resume_again :
    (self : Self) (pp : LinkParams) (msg : List ℕ) (t t1 t2 t3 : Talk)
    → handle_resume_req self msg t ≡ (t1, some tt)
    → t2.neigh.addr ≡ t.neigh.addr
    → t2.neigh.ltk ≡ t1.neigh.ltk
    → handle_resume_req (record self { params = pp }) msg t2 ≡ (t3, some tt)
    → (t3.neigh.link_key ≡ t1.neigh.link_key)
      × (nonce_build self.addr (t3.neigh.tx_ctr + 1) ≡ nonce_build self.addr (t1.neigh.tx_ctr + 1))
      × (t1.neigh.tx_ctr ≡ 0)
      × (t3.neigh.tx_ctr ≡ 0)
      × (t3.neigh.rx_ctr ≡ 0)
      × (t3.neigh.replay_mask ≡ 0)
      × (t1.neigh.ltk ≡ t.neigh.ltk)
unfolding handle_resume_req derive_resume_key install install_key put_message stage_message kdf
resume_again self pp msg t t1 t2 t3 first same_addr same_ltk second = ground arith
