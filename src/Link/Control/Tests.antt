-- ===== src/Link/Control/Tests.antt =====
-- subsys/lockgrid/lg_link.c: the theorems on control frames, at a concrete link.
use lockgrid.Prelude.{ℕ, true, false, ◌≡◌, ◌⊎◌, inl, refl, arith, List, [], ◌∷◌}
use lockgrid.Types.{Schedule, Neigh, linked, zero_neigh}
use lockgrid.Config.{default_config}
use lockgrid.Frame.{put_le16}
use lockgrid.Link.{next_chan}
use lockgrid.Link.Control.{
  Ends, Air, Outcome, missed, unanswered, answered, exchanges, subrate_update,
}
use lockgrid.Link.Control.Change.{new_map, new_subrate, body_of}
use lockgrid.Link.Control.Settle.{Shared, Waiting, Done}
use lockgrid.Link.Control.Deliver.{Carries}
use lockgrid.Link.Control.Agree.{exchanges-Done, exchanges_agree}
use lockgrid.Link.Control.Subrate.{Offers, subrate_update-Offers}

-- A link at event 0, whose initiator offers the subrate 2 for event 6.
abbrev offering : Schedule
offering = record zero_neigh.schedule {
  initiator = true;
  epoch_us = 1000000;
  interval_us = 100000;
  anchor_us = 1000000;
  chan_map = 0xffff;
  hop_seed = 7;
  subrate = 1;
  subrate_max = 16;
  pending_ctrl = 2;
  tx_was_ctrl = true;
  pending_subrate = 2;
  instant = 6;
}

abbrev link : Ends
link = record {
  initiator = offering;
  responder = record offering {
    initiator = false;
    tx_was_ctrl = false;
    pending_ctrl = 0;
    pending_subrate = 0;
    instant = 0;
  };
}

-- The offer is staged.
abbrev loaded_link : Air
loaded_link = record { ends = link; asks = 1 ∷ 2 ∷ 6 ∷ 0 ∷ []; echoes = [] }

abbrev shared : Shared
shared = record { epoch = 1000000; interval = 100000; map = 0xffff; seed = 7; subrate = 1 }

link-Waiting : Waiting link shared (new_subrate 2) 6 0 false false
link-Waiting = ground arith

link-Carries : Carries loaded_link (new_subrate 2) 6 true
unfolding body_of put_le16
link-Carries = record { asks_is = refl; flag_is = refl; echoes_is = inl refl }

abbrev mixed : List Outcome
mixed = missed ∷ unanswered ∷ answered ∷ missed ∷ unanswered ∷ answered ∷ []

-- A channel map is offered after the frame for event 0 was staged.
abbrev mapping : Ends
mapping = record {
  initiator = record offering {
    tx_was_ctrl = false;
    pending_ctrl = 1;
    pending_subrate = 0;
    pending_chan_map = 0x00ff;
  };
  responder = link.responder;
}

abbrev unloaded_link : Air
unloaded_link = record { ends = mapping; asks = []; echoes = [] }

mapping-Waiting : Waiting mapping shared (new_map 0x00ff) 6 0 false false
mapping-Waiting = ground arith

mapping-Carries : Carries unloaded_link (new_map 0x00ff) 6 false
mapping-Carries = record { asks_is = refl; flag_is = refl; echoes_is = inl refl }

-- The first event is answered, and of the others the responder hears some, but no reply arrives: the two
-- ends part.
abbrev unheard_replies : List Outcome
unheard_replies = answered ∷ unanswered ∷ missed ∷ missed ∷ unanswered ∷ missed ∷ []

exchanges-Done_example :
    Done
      (exchanges default_config unloaded_link unheard_replies).ends.initiator
      shared
      (new_map 0x00ff)
      6
      false
    × Done
        (exchanges default_config unloaded_link unheard_replies).ends.responder
        shared
        (new_map 0x00ff)
        6
        true
exchanges-Done_example =
    exchanges-Done default_config shared (new_map 0x00ff) 6 0 false unheard_replies unloaded_link
      (omega arith) (omega arith) (omega arith) mapping-Waiting mapping-Carries (omega arith)
      (omega arith)

exchanges_agree_example :
    let r = (exchanges default_config loaded_link mixed).ends in
    (next_chan r.initiator ≡ next_chan r.responder)
    × (r.initiator.chan_map ≡ 0xffff)
    × (r.responder.chan_map ≡ 0xffff)
    × (r.initiator.subrate ≡ 2)
    × (r.responder.subrate ≡ 2)
exchanges_agree_example =
    exchanges_agree default_config shared (new_subrate 2) 6 0 true mixed loaded_link (omega arith)
      (omega arith) (omega arith) link-Waiting link-Carries (omega arith) (omega arith) refl

abbrev idle_peer : Neigh
idle_peer = record zero_neigh {
  state = linked;
  schedule = record offering { pending_ctrl = 0; instant = 0; subrate = 4 };
}

subrate_update-Offers_example :
    (subrate_update false idle_peer ≡ idle_peer)
    ⊎ ((k : ℕ) × Offers idle_peer (subrate_update false idle_peer) k)
subrate_update-Offers_example = subrate_update-Offers false idle_peer (omega arith) (omega arith)
