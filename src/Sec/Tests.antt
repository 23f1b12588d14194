-- ===== src/Sec/Tests.antt =====
-- subsys/lockgrid/lg_sec.c: tests of the replay filter, and its theorems at concrete frames.
use mathlib.Core.List.{Nodup}
use lockgrid.Prelude.{ℕ, List, [], ◌∷◌, ◌≡◌, refl, arith}
use lockgrid.Prelude.Bits.{has_bit}
use lockgrid.Types.{Keys, zero_neigh}
use lockgrid.Config.{default_config}
use lockgrid.Sec.{window, replay_check, accepted}
use lockgrid.Sec.Seen.{nothing, receive}
use lockgrid.Sec.Replay.{Agrees, replay_check_refines}
use lockgrid.Sec.Nonce.{nonce_build-injective}
use lockgrid.Sec.Once.{accepted-Nodup}

abbrev fresh_keys : Keys
fresh_keys = zero_neigh.keys

-- A late frame, two replays, and a step past the window.
abbrev arrivals : List ℕ
arrivals = 1 ∷ 4 ∷ 2 ∷ 4 ∷ 2 ∷ 30 ∷ []

accepted_test : accepted default_config fresh_keys arrivals ≡ 1 ∷ 4 ∷ 2 ∷ 30 ∷ []
unfolding accepted replay_check has_bit
accepted_test = refl

accepted-Nodup_example : Nodup (accepted default_config fresh_keys arrivals)
accepted-Nodup_example = accepted-Nodup default_config fresh_keys arrivals refl refl

fresh_keys-Agrees : Agrees nothing fresh_keys
fresh_keys-Agrees = record {
  top = refl;
  bits = λ i h b. absurd (omega arith);
  above = λ c h. refl;
  zero_unseen = refl;
}

replay_check_refines_example :
    ((replay_check default_config fresh_keys 7).1 ≡ (receive (window default_config) nothing 7).1)
    × Agrees
        (receive (window default_config) nothing 7).0
        (replay_check default_config fresh_keys 7).0
replay_check_refines_example =
    replay_check_refines default_config nothing fresh_keys 7 fresh_keys-Agrees

nonce_build-injective_example : (◌≡◌ {A = ℕ} 5 5) × (◌≡◌ {A = ℕ} 0x01020304 0x01020304)
nonce_build-injective_example =
    nonce_build-injective 5 5 0x01020304 0x01020304 (omega arith) (omega arith) (omega arith)
      (omega arith) refl
