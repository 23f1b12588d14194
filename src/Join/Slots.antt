-- ===== src/Join/Slots.antt =====
-- The steps of a handshake, and the frames that come in, leave its slot alone.
use lockgrid.Prelude.{
  ℕ, ◌≡◌, refl, ◌∙◌, Bool, true, false, ◌||◌, List, Option, none, some, ◌==◌, if◌then◌else◌, arith,
  slice, bit_and, get_or, inl, inr, Bool-cases, length,
}
use lockgrid.Prelude.Int.{ℤ}
use lockgrid.Types.{Neigh}
use lockgrid.Config.{Config}
use lockgrid.Frame.{frame_type}
use lockgrid.Neigh.{rx_rssi}
use lockgrid.Sec.Protect.{Aead, SecStats, decrypt}
use lockgrid.Join.{
  Context, frag_cap_sec, ft_join_req, ft_join_rsp, ft_join_cfm, ft_join_ack, ft_resume_req,
  ft_resume_rsp, stage_message, reassemble, take_fragment,
}
use lockgrid.Join.Steps.{
  Talk, Self, M, install, derive_keys, derive_resume_key, fresh, put_message, accept_hello,
  agree_keys, handle_join_req, answer_req, answer_rsp, sign_transcript, handle_join_rsp,
  handle_join_cfm, handle_resume_req,
}
use lockgrid.Join.Events.{
  Fate, refused, goes_on, fails, cleared, links, receive, dispatch, stepped, resumed, take_params,
}

-- Slot and limit of one context are those of the other.
abbrev pub SameSlot : Context → Context → Type 0
SameSlot a b = (a.slot ≡ b.slot) × (a.slot_limit ≡ b.slot_limit)

-- A step that leaves them alone.
abbrev pub Keeps : {A : Type 0} → M A → Type 0
Keeps m = (t : Talk) → SameSlot (m t).0.hs t.hs

pub handle_join_req-Keeps : (self : Self) (msg : List ℕ) → Keeps (handle_join_req self msg)
unfolding handle_join_req answer_req sign_transcript accept_hello fresh agree_keys derive_keys
    install put_message stage_message
handle_join_req-Keeps self msg t = ground arith

pub handle_join_rsp-Keeps : (self : Self) (msg : List ℕ) → Keeps (handle_join_rsp self msg)
unfolding handle_join_rsp answer_rsp sign_transcript accept_hello agree_keys derive_keys install
    put_message stage_message
handle_join_rsp-Keeps self msg t = ground arith

pub handle_join_cfm-Keeps : (self : Self) (msg : List ℕ) → Keeps (handle_join_cfm self msg)
unfolding handle_join_cfm put_message stage_message
handle_join_cfm-Keeps self msg t = ground arith

pub handle_resume_req-Keeps : (self : Self) (msg : List ℕ) → Keeps (handle_resume_req self msg)
unfolding handle_resume_req derive_resume_key install put_message stage_message
handle_resume_req-Keeps self msg t = ground arith

-- Where the handshake goes on, its slot and limit are as before.
abbrev pub GoesSame : Context → Fate → Type 0
GoesSame hs (goes_on t) = SameSlot t.hs hs
GoesSame hs _ = Unit

pub stepped-GoesSame :
    (hs : Context) (r : Talk × Option (Unit {0})) → SameSlot r.0.hs hs → GoesSame hs (stepped r)
unfolding stepped
stepped-GoesSame hs (t, none) h = tt
stepped-GoesSame hs (t, some u) h = h

pub resumed-GoesSame :
    (hs : Context) (r : Talk × Option (Unit {0})) → SameSlot r.0.hs hs → GoesSame hs (resumed r)
unfolding resumed
resumed-GoesSame hs (t, none) h = tt
resumed-GoesSame hs (t, some u) h = h

pub GoesSame-trans : (a b : Context) (f : Fate) → SameSlot b a → GoesSame b f → GoesSame a f
GoesSame-trans a b (goes_on t) h k = (k.0 ∙ h.0, k.1 ∙ h.1)
GoesSame-trans a b (refused n) h k = tt
GoesSame-trans a b (fails t) h k = tt
GoesSame-trans a b cleared h k = tt
GoesSame-trans a b (links t p i) h k = tt

-- Of both branches, so of the whole.
pub if-GoesSame :
    (hs : Context) (b : Bool) (x y : Fate)
    → GoesSame hs x
    → GoesSame hs y
    → GoesSame hs (if b then x else y)
if-GoesSame hs true x y p q = p
if-GoesSame hs false x y p q = q

pub take_params-GoesSame :
    (air_start : ℕ) (msg : List ℕ) (t : Talk) → GoesSame t.hs (take_params air_start msg t)
unfolding take_params
take_params-GoesSame air_start msg t = elim (Bool-cases (length msg == 20)) [
  | inl e ↦ rw e tt
  | inr e ↦ rw e tt
]

pub dispatch-GoesSame :
    (self : Self) (air_start type : ℕ) (msg : List ℕ) (t : Talk)
    → GoesSame t.hs (dispatch self air_start type msg t)
unfolding dispatch
dispatch-GoesSame self air_start type msg t =
    let either = λ (b : Bool) (x y : Fate). if-GoesSame t.hs b x y in
    let req = handle_join_req self msg t in
    let rsp = handle_join_rsp self msg t in
    let cfm = handle_join_cfm self msg t in
    let resume = handle_resume_req self msg t in
    let f5 = if type == ft_resume_req then resumed resume else goes_on t in
    let f4 =
      if (type == ft_join_ack) || (type == ft_resume_rsp)
      then take_params air_start msg t
      else f5 in
    let f3 = if type == ft_join_cfm then stepped cfm else f4 in
    let f2 = if type == ft_join_rsp then stepped rsp else f3 in
    either (type == ft_join_req) (stepped req) f2
      (stepped-GoesSame t.hs req (handle_join_req-Keeps self msg t))
      (either (type == ft_join_rsp) (stepped rsp) f3
        (stepped-GoesSame t.hs rsp (handle_join_rsp-Keeps self msg t))
        (either (type == ft_join_cfm) (stepped cfm) f4
          (stepped-GoesSame t.hs cfm (handle_join_cfm-Keeps self msg t))
          (either ((type == ft_join_ack) || (type == ft_resume_rsp)) (take_params air_start msg t)
            f5 (take_params-GoesSame air_start msg t)
            (either (type == ft_resume_req) (resumed resume) (goes_on t)
              (resumed-GoesSame t.hs resume (handle_resume_req-Keeps self msg t)) (refl, refl)))))

pub take_fragment-Same :
    (hdr cap type : ℕ) (pdu : List ℕ) (len : ℕ) (hs : Context)
    → SameSlot (take_fragment hdr cap type pdu len hs).0 hs
unfolding take_fragment
take_fragment-Same hdr cap type pdu len hs = ground arith

pub reassemble-Same :
    (cfg : Config) (crypto : Aead) (n : Neigh) (hs : Context) (pdu : List ℕ) (len : ℕ)
    (st : SecStats)
    → SameSlot (reassemble cfg crypto n hs pdu len st).hs hs
unfolding reassemble
reassemble-Same cfg crypto n hs pdu len st =
    let type = bit_and (get_or pdu 2 0) 0x0f in
    let p = decrypt cfg crypto n.keys pdu len st in
    ground (
      arith,
      take_fragment-Same 12 (frag_cap_sec cfg) type p.pdu p.len hs,
      take_fragment-Same 8 115 type pdu len hs,
    )

pub receive-GoesSame :
    (crypto : Aead) (self : Self) (rssi : ℤ) (air_start : ℕ) (pdu : List ℕ) (len : ℕ) (t : Talk)
    → GoesSame t.hs (receive crypto self rssi air_start pdu len t)
unfolding receive
receive-GoesSame crypto self rssi air_start pdu len t =
    let n = rx_rssi t.neigh rssi in
    let r = reassemble self.cfg crypto n t.hs pdu len t.stats in
    let t' : Talk = record t { neigh = r.neigh; hs = r.hs; stats = r.stats } in
    let same = reassemble-Same self.cfg crypto n t.hs pdu len t.stats in
    let msg = slice r.hs.rx.buf 0 r.hs.rx.len in
    if-GoesSame t.hs r.whole (dispatch self air_start (frame_type pdu) msg t') (goes_on t')
      (GoesSame-trans t.hs r.hs (dispatch self air_start (frame_type pdu) msg t') same
        (dispatch-GoesSame self air_start (frame_type pdu) msg t'))
      same
