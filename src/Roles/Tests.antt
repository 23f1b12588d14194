-- ===== src/Roles/Tests.antt =====
-- subsys/lockgrid/lg_role.c: a leaf beside a backhaul, and the theorems there.
use lockgrid.Prelude.{ℕ, ◌≤◌, true, false, [], ◌∷◌, replicate, ◌≡◌, ◌⊎◌, refl}
use lockgrid.Types.{Neigh, leaf, linked, zero_neigh}
use lockgrid.Config.{default_config}
use lockgrid.Route.Routes.{no_route}
use lockgrid.Roles.{RoleState, since, role_dwell_us, evaluate}
use lockgrid.Roles.Decide.{Reason, evaluate-Reason}

abbrev uplink : Neigh
uplink = record zero_neigh {
  state = linked;
  addr = 3;
  advert = record zero_neigh.advert { role = 2 };
  quality = record zero_neigh.quality { link_cost = 20 };
  bookkeeping = record zero_neigh.bookkeeping { is_parent = true };
}

abbrev attached : RoleState
attached = record {
  grid = record {
    addr = 1;
    role = leaf;
    rank = 20;
    neigh = uplink ∷ [];
    routes = replicate 4 no_route;
    dup_cache = replicate 16 (record { origin = 0; msg_id = 0 });
    dup_next = 0;
    adv_urgent = false;
    parent_switches = 1;
  };
  started = true;
  backhaul_active = false;
  unrouted_seen_us = 0;
  role_changed_us = 0;
  role_changes = 0;
  retuned = false;
}

evaluate-Reason_example :
    (evaluate default_config 5000000 attached ≡ attached)
    ⊎ (((◌≡◌ {A = ℕ} 0 0) ⊎ (role_dwell_us ≤ since 5000000 0))
        × Reason default_config 5000000 attached
            (evaluate default_config 5000000 attached).grid.role)
evaluate-Reason_example = evaluate-Reason default_config 5000000 attached refl refl refl
