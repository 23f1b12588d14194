-- ===== src/Sec/Once.antt =====
-- No counter passes the replay filter twice.
use mathlib.Core.Logic.Or
use mathlib.Core.HLevel.{⊥_prop}
use mathlib.Core.List.{Mem, Nodup, Nodup-cons, Nodup-nil, mem-cons, not-mem-nil}
use lockgrid.Prelude.{
  ℕ, Bool, true, false, List, [], ◌∷◌, ◌≡◌, refl, arith, inl, inr, Bool-cases, All, ap,
}
use lockgrid.Types.{Keys}
use lockgrid.Config.{Config}
use lockgrid.Sec.{window, replay_check, accepted}
use lockgrid.Sec.Seen.{Seen, nothing, receive}
use lockgrid.Sec.Replay.{Agrees, replay_check_refines}

not-Mem : (f : ℕ → Bool) (a : ℕ) (xs : List ℕ) → All (λ c. f c ≡ false) xs → f a ≡ true → ¬ Mem a xs
not-Mem f a [] h e m = not-mem-nil m
not-Mem f a (x ∷ xs) h e m =
    Or.elim ⊥_prop (mem-cons.0 m) (λ p. cc (ap f p, h.0)) (λ m'. not-Mem f a xs h.1 e m')

weaken :
    (f g : ℕ → Bool) (xs : List ℕ)
    → ((c : ℕ) → g c ≡ false → f c ≡ false)
    → All (λ c. g c ≡ false) xs
    → All (λ c. f c ≡ false) xs
weaken f g [] imp h = tt
weaken f g (x ∷ xs) imp h = (imp x h.0, weaken f g xs imp h.1)

receive_keeps :
    (w : ℕ) (s : Seen) (ctr c : ℕ) → (receive w s ctr).0.seen c ≡ false → s.seen c ≡ false
unfolding receive
receive_keeps w s ctr c h = ground arith

receive_takes :
    (w : ℕ) (s : Seen) (ctr : ℕ)
    → (receive w s ctr).1 ≡ true
    → ((receive w s ctr).0.seen ctr ≡ true) × (s.seen ctr ≡ false)
unfolding receive
receive_takes w s ctr h = ground arith

accepted_lem :
    (cfg : Config) (s : Seen) (k : Keys) (ctrs : List ℕ)
    → Agrees s k
    → All (λ c. s.seen c ≡ false) (accepted cfg k ctrs) × Nodup (accepted cfg k ctrs)
unfolding accepted
accepted_lem cfg s k [] a = (tt, Nodup-nil)
accepted_lem cfg s k (ctr ∷ ctrs) a =
    let w = window cfg in
    let s' = (receive w s ctr).0 in
    let k' = (replay_check cfg k ctr).0 in
    let step = replay_check_refines cfg s k ctr a in
    let later = accepted_lem cfg s' k' ctrs step.1 in
    let old = weaken s.seen s'.seen (accepted cfg k' ctrs) (receive_keeps w s ctr) later.0 in
    elim (Bool-cases (replay_check cfg k ctr).1) [
      | inl taken ↦
          let t = receive_takes w s ctr (cc step.0) in
          rw taken (
            (t.1, old),
            Nodup-cons.1 (not-Mem s'.seen ctr (accepted cfg k' ctrs) later.0 t.0, later.1),
          )
      | inr refused ↦ rw refused (old, later.1)
    ]

-- A key that was just installed has the counter zero and an empty mask. From there on, whatever
-- counters arrive in whatever order, the list of the accepted ones has no counter twice.
pub accepted-Nodup :
    (cfg : Config) (k : Keys) (ctrs : List ℕ)
    → k.rx_ctr ≡ 0
    → k.replay_mask ≡ 0
    → Nodup (accepted cfg k ctrs)
accepted-Nodup cfg k ctrs r m = (accepted_lem cfg nothing k ctrs fresh).1
  where
    fresh : Agrees nothing k
    fresh = record {
      top = r;
      bits = λ i h b. absurd (omega arith);
      above = λ c h. refl;
      zero_unseen = refl;
    }
