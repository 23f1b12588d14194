-- ===== src/Roles/Decide.antt =====
-- When the role changes, and to what.
use mathlib.Core.Path.{subst}
use lockgrid.Prelude.{
  ℕ, ◌≤◌, ◌<◌, Bool, true, false, not, ◌&&◌, ◌||◌, ltb, ◌==◌, if◌then◌else◌, ◌≡◌, refl, sym, ap,
  ◌∙◌, arith, ◌⊎◌, inl, inr, Bool-cases,
}
use lockgrid.Types.{Role, leaf, router, backhaul}
use lockgrid.Config.{Config}
use lockgrid.Route.{Grid, is_backhaul, recompute, has_route}
use lockgrid.Roles.{
  RoleState, same_role, routers_heard, has_children, since, unrouted_nearby, apply, reconsider,
  evaluate, role_dwell_us,
}

recompute-role : (cfg : Config) (g : Grid) → (recompute cfg g).grid.role ≡ g.role
unfolding recompute
recompute-role cfg g = ground arith

same_role-eq : (a b : Role) → same_role a b ≡ true → a ≡ b
same_role-eq leaf leaf h = refl
same_role-eq leaf router h = cc
same_role-eq leaf backhaul h = cc
same_role-eq router leaf h = cc
same_role-eq router router h = refl
same_role-eq router backhaul h = cc
same_role-eq backhaul leaf h = cc
same_role-eq backhaul router h = cc
same_role-eq backhaul backhaul h = refl

apply-role :
    (cfg : Config) (now : ℕ) (s : RoleState) (want : Role) → (apply cfg now s want).grid.role ≡ want
unfolding apply
apply-role cfg now s want = elim (Bool-cases (same_role want s.grid.role)) [
  | inl e ↦ rw e (sym (same_role-eq want s.grid.role e))
  | inr e ↦ rw e (recompute-role cfg (record s.grid { role = want }))
]

Role-cases : (r : Role) → (r ≡ leaf) ⊎ ((r ≡ router) ⊎ (r ≡ backhaul))
Role-cases leaf = inl refl
Role-cases router = inr (inl refl)
Role-cases backhaul = inr (inr refl)

-- What may change the role behind the dwell time: a leaf becomes a router, or a router a leaf.
abbrev pub Reason : Config → ℕ → RoleState → Role → Type 0
Reason cfg now s want =
    ((s.grid.role ≡ leaf)
      × (want ≡ router)
      × (has_route s.grid ≡ true)
      × ((unrouted_nearby now s || ltb (routers_heard s.grid.neigh) cfg.router_density_target)
          ≡ true))
    ⊎ ((s.grid.role ≡ router)
        × (want ≡ leaf)
        × (has_children now s.grid.routes ≡ false)
        × (unrouted_nearby now s ≡ false)
        × (cfg.router_density_target < routers_heard s.grid.neigh))

waited :
    (now : ℕ) (s : RoleState)
    → (not (s.role_changed_us == 0) && ltb (since now s.role_changed_us) role_dwell_us) ≡ false
    → (s.role_changed_us ≡ 0) ⊎ (role_dwell_us ≤ since now s.role_changed_us)
waited now s h = elim (Bool-cases (s.role_changed_us == 0)) [
  | inl e ↦ inl (ground (arith, e))
  | inr e ↦ inr (ground (arith, e, h))
]

promotes : Config → ℕ → RoleState → Bool
promotes cfg now s =
    has_route s.grid
    && (unrouted_nearby now s || ltb (routers_heard s.grid.neigh) cfg.router_density_target)

demotes : Config → ℕ → RoleState → Bool
demotes cfg now s =
    not (has_children now s.grid.routes || unrouted_nearby now s)
    && ltb cfg.router_density_target (routers_heard s.grid.neigh)

reconsider-leaf :
    (cfg : Config) (now : ℕ) (s : RoleState)
    → s.grid.role ≡ leaf
    → reconsider cfg now s ≡ (if promotes cfg now s then apply cfg now s router else s)
unfolding reconsider promotes
reconsider-leaf cfg now s e = ground (arith, e)

reconsider-router :
    (cfg : Config) (now : ℕ) (s : RoleState)
    → s.grid.role ≡ router
    → reconsider cfg now s ≡ (if demotes cfg now s then apply cfg now s leaf else s)
unfolding reconsider demotes
reconsider-router cfg now s e = ground (arith, e)

reconsider-Reason :
    (cfg : Config) (now : ℕ) (s : RoleState)
    → is_backhaul s.grid.role ≡ false
    → (reconsider cfg now s ≡ s) ⊎ Reason cfg now s (reconsider cfg now s).grid.role
unfolding promotes demotes
reconsider-Reason cfg now s b = elim (Role-cases s.grid.role) [
  | inl e ↦
      let q = reconsider-leaf cfg now s e in
      elim (Bool-cases (promotes cfg now s)) [
        | inl yes_do ↦
            let r : reconsider cfg now s ≡ apply cfg now s router = ground (arith, q, yes_do) in
            inr (
              inl (
                e,
                ap (λ (x : RoleState). x.grid.role) r ∙ apply-role cfg now s router,
                ground (arith, yes_do),
                ground (arith, yes_do),
              ))
        | inr stay ↦ inl (ground (arith, q, stay))
      ]
  | inr (inl e) ↦
      let q = reconsider-router cfg now s e in
      elim (Bool-cases (demotes cfg now s)) [
        | inl yes_do ↦
            let r : reconsider cfg now s ≡ apply cfg now s leaf = ground (arith, q, yes_do) in
            inr (
              inr (
                e,
                ap (λ (x : RoleState). x.grid.role) r ∙ apply-role cfg now s leaf,
                ground (arith, yes_do),
                ground (arith, yes_do),
                ground (arith, yes_do),
              ))
        | inr stay ↦ inl (ground (arith, q, stay))
      ]
  | inr (inr e) ↦ absurd (cc (ap is_backhaul e, b))
]

-- On a node that has started, whose uplink is down and which is no backhaul, `lg_role_evaluate`
-- changes nothing, or a leaf became a router or a router a leaf, and then the role had never changed
-- before (its time of change is 0) or the last change is at least 15 seconds ago. The leaf has a route, and heard a node without one or fewer routers than the
-- target; the router has no children, heard no node without a route, and more routers than the
-- target.
pub evaluate-Reason :
    (cfg : Config) (now : ℕ) (s : RoleState)
    → s.started ≡ true
    → s.backhaul_active ≡ false
    → is_backhaul s.grid.role ≡ false
    → (evaluate cfg now s ≡ s)
      ⊎ (((s.role_changed_us ≡ 0) ⊎ (role_dwell_us ≤ since now s.role_changed_us))
          × Reason cfg now s (evaluate cfg now s).grid.role)
unfolding evaluate
evaluate-Reason cfg now s st up b =
    elim (Bool-cases
      (not (s.role_changed_us == 0) && ltb (since now s.role_changed_us) role_dwell_us)) [
        | inl early ↦ inl (ground (arith, st, up, b, early))
        | inr due ↦
            let q : evaluate cfg now s ≡ reconsider cfg now s = ground (arith, st, up, b, due) in
            elim (reconsider-Reason cfg now s b) [
              | inl e ↦ inl (q ∙ e)
              | inr r ↦ inr (
                waited now s due,
                subst (λ (x : RoleState). Reason cfg now s x.grid.role) (sym q) r,
              )
            ]
      ]

-- On a node that has started, `lg_role_evaluate` leaves the backhaul role exactly where the uplink
-- is up, whatever the role was and however recently it changed.
evaluate-backhaul :
    (cfg : Config) (now : ℕ) (s : RoleState)
    → s.started ≡ true
    → is_backhaul (evaluate cfg now s).grid.role ≡ s.backhaul_active
unfolding evaluate
evaluate-backhaul cfg now s st = elim (Bool-cases s.backhaul_active) [
  | inl up ↦ ground (arith, st, up, apply-role cfg now s backhaul)
  | inr down ↦ elim (Bool-cases (is_backhaul s.grid.role)) [
    | inl b ↦ ground (arith, st, down, b, apply-role cfg now s router)
    | inr b ↦ elim (evaluate-Reason cfg now s st down b) [
      | inl e ↦ ap (λ (x : RoleState). is_backhaul x.grid.role) e ∙ b ∙ sym down
      | inr (w, inl r) ↦ ap is_backhaul r.1 ∙ sym down
      | inr (w, inr r) ↦ ap is_backhaul r.1 ∙ sym down
    ]
  ]
]
