-- ===== src/Roles.antt =====
-- subsys/lockgrid/lg_role.c: which role a node takes on. The state is that of routing, with the
-- fields that only this file uses. The effects on beaconing, the scheduler and the application are
-- one flag: `apply` has run to its end.
pub mod Decide
mod Tests
use lockgrid.Prelude.{
  ℕ, zero, suc, ◌+◌, ◌-◌, ◌*◌, ◌%◌, ◌^◌, ◌≤◌, ◌<◌, Bool, true, false, not, ◌&&◌, ◌||◌, List, [],
  ◌∷◌, ltb, leb, ◌==◌, if◌then◌else◌,
}
use lockgrid.Types.{
  u8, u32, u64, Role, leaf, router, backhaul, role_code, Neigh, is_free, rank_infinite,
  addr_invalid, usec_per_sec,
}
use lockgrid.Config.{Config}
use lockgrid.Route.{Grid, Downward, is_backhaul, recompute, has_route}

-- LG_UNROUTED_LIFETIME_US, LG_ROLE_DWELL_US
abbrev pub unrouted_lifetime_us : ℕ
unrouted_lifetime_us = 20 * usec_per_sec

abbrev pub role_dwell_us : ℕ
role_dwell_us = 15 * usec_per_sec

pub record RoleState : Type 0 where
  pub grid : Grid
  pub started : Bool
  pub backhaul_active : Bool
  pub unrouted_seen_us : ℕ
  pub role_changed_us : ℕ
  pub role_changes : ℕ
  pub retuned : Bool

abbrev pub same_role : Role → Role → Bool
same_role a b = role_code a == role_code b

-- `routers_heard`, on an `uint8_t`.
unfoldable pub routers_heard : List Neigh → ℕ
routers_heard [] = 0
routers_heard (n ∷ rest) =
    let counts = not (is_free n.state || ((n.role == 0) || (n.peer_rank == rank_infinite))) in
    u8 (routers_heard rest + (if counts then 1 else 0))

-- `has_children`, on the downward routes.
unfoldable pub has_children : ℕ → List Downward → Bool
has_children now [] = false
has_children now (r ∷ rest) =
    (not (r.dst == addr_invalid) && ltb now r.expiry_us) || has_children now rest

-- The difference is of `uint64_t`.
abbrev pub since : ℕ → ℕ → ℕ
since now past = u64 (now + 2 ^ 64 - past)

-- `unrouted_nearby`
unfoldable pub unrouted_nearby : ℕ → RoleState → Bool
unrouted_nearby now s =
    not (s.unrouted_seen_us == 0) && ltb (since now s.unrouted_seen_us) unrouted_lifetime_us

-- `apply`
unfoldable pub apply : Config → ℕ → RoleState → Role → RoleState
apply cfg now s want = if same_role want s.grid.role then s else record s {
  grid = (recompute cfg (record s.grid { role = want })).grid;
  role_changed_us = now;
  role_changes = u32 (s.role_changes + 1);
  retuned = true;
}

-- `lg_role_init`
unfoldable pub init : RoleState → RoleState
init s = record s {
  unrouted_seen_us = 0;
  role_changed_us = 0;
  grid =
      if s.backhaul_active
      then record s.grid { role = backhaul; rank = 0 }
      else record s.grid { role = leaf; rank = rank_infinite };
}

-- The part of `lg_role_evaluate` behind the dwell time.
unfoldable pub reconsider : Config → ℕ → RoleState → RoleState
reconsider cfg now s =
    let routers = routers_heard s.grid.neigh in
    let density = cfg.router_density_target in
    if same_role s.grid.role leaf
    then if not (has_route s.grid)
      then s
      else if unrouted_nearby now s
      then apply cfg now s router
      else if ltb routers density
      then apply cfg now s router
      else s
    else if has_children now s.grid.routes || unrouted_nearby now s
    then s
    else if ltb density routers
    then apply cfg now s leaf
    else s

-- `lg_role_evaluate`
unfoldable pub evaluate : Config → ℕ → RoleState → RoleState
evaluate cfg now s =
    if not s.started
    then s
    else if s.backhaul_active
    then apply cfg now s backhaul
    else if is_backhaul s.grid.role
    then apply cfg now s router
    else if not (s.role_changed_us == 0) && ltb (since now s.role_changed_us) role_dwell_us
    then s
    else reconsider cfg now s

-- `lg_role_note_unrouted`
unfoldable pub note_unrouted : ℕ → RoleState → RoleState
note_unrouted now s = record s { unrouted_seen_us = now }

-- `lg_backhaul_set`
unfoldable pub backhaul_set : Config → ℕ → RoleState → Bool → RoleState
backhaul_set cfg now s up =
    let same = if up then s.backhaul_active else not s.backhaul_active in
    let told = record s { backhaul_active = up } in
    if same
    then s
    else if s.started
    then evaluate cfg now (record told { role_changed_us = 0 })
    else told
