-- ===== src/Rbac/Resolve.antt =====
-- The queries of the registry: rbac-registry.ts.
use at_nova_platform.Prelude.{
  String, ◌≡◌, refl, ◌↔◌, inl, inr, true, false, ◌||◌, List, [], ◌∷◌, Option, none, some, arith,
  eq_iff, ◌==◌, all, is_nil, has, has-add_all, In, has-map-filter, has-map-filter-of-In, map_get,
  Bool-cases,
}
use at_nova_platform.Rbac.{
  CapabilityView, RbacRegistry, grants, add_perms, collect_permissions, permissions_for_roles,
  roles_grant_permission, permissions_satisfy_capability, capability_allowlist,
}

module _ (r : RbacRegistry) where
  has-add_perms :
      (p : String) (granted : List String) (perms : Option (List String))
      → has p (add_perms granted perms) ≡ (has p granted || grants perms p)
  has-add_perms p granted none = ground arith
  has-add_perms p granted (some perms) = has-add_all p granted perms

  has-collect_permissions :
      (p : String) (granted roles : List String)
      → has p (collect_permissions r granted roles)
        ≡ (has p granted || roles_grant_permission r roles p)
  unfolding collect_permissions roles_grant_permission
  has-collect_permissions p granted [] = ground arith
  has-collect_permissions p granted (role ∷ roles) =
      let perms = map_get role r.role_permission_map in
      ground (
        arith,
        has-collect_permissions p (add_perms granted perms) roles,
        has-add_perms p granted perms,
      )

  -- The set that the roles resolve to and the direct test of a permission agree: a permission is in
  -- the set exactly when one of the roles grants it.
  pub permissions_for_roles-roles_grant_permission :
      (p : String) (roles : List String)
      → has p (permissions_for_roles r roles) ≡ roles_grant_permission r roles p
  unfolding permissions_for_roles
  permissions_for_roles-roles_grant_permission p roles = has-collect_permissions p [] roles

-- Every required permission is held.
all-has_iff :
    (required permissions : List String)
    → (all (λ p. has p permissions) required ≡ true)
      ↔ ((p : String) → has p required ≡ true → has p permissions ≡ true)
all-has_iff [] permissions = (λ e p h. cc, λ h. refl)
all-has_iff (q ∷ required) permissions = (
  λ e p h. elim (Bool-cases (p == q)) [
    | inl same ↦ rw ((eq_iff p q).0 same) (ground arith)
    | inr other ↦ (all-has_iff required permissions).0 (ground arith) p (ground arith)
  ],
  λ h. ground (
    arith,
    h q (ground (arith, (eq_iff q q).1 refl)),
    (all-has_iff required permissions).1 (λ p e. h p (ground arith)),
  ),
)

-- A capability may be used if it is enabled and requires something, and all that it requires is held.
pub record IsSatisfied (c : CapabilityView) (permissions : List String) : Type 0 where
  pub enabled : c.enabled ≡ true
  pub requires : is_nil c.required_permissions ≡ false
  pub held : (p : String) → has p c.required_permissions ≡ true → has p permissions ≡ true

pub satisfy_iff :
    (c : CapabilityView) (permissions : List String)
    → (permissions_satisfy_capability c permissions ≡ true) ↔ IsSatisfied c permissions
unfolding permissions_satisfy_capability
satisfy_iff c permissions = (
  λ e. record {
    enabled = ground arith;
    requires = ground arith;
    held = (all-has_iff c.required_permissions permissions).0 (ground arith);
  },
  λ s.
      ground
        (arith, s.enabled, s.requires, (all-has_iff c.required_permissions permissions).1 s.held),
)

-- An id is in the allowlist exactly when a capability of the policy bears it that is enabled,
-- requires at least one permission, and requires none that the set lacks.
pub capability_allowlist_iff :
    (r : RbacRegistry) (permissions : List String) (id : String)
    → (has id (capability_allowlist r permissions) ≡ true) ↔ (
        (c : CapabilityView) × In c r.policy.capabilities × (c.id ≡ id) × IsSatisfied c permissions)
unfolding capability_allowlist
capability_allowlist_iff r permissions id = (to, from)
  where
    to :
        has id (capability_allowlist r permissions) ≡ true
        → (c : CapabilityView) × In c r.policy.capabilities
          × (c.id ≡ id)
          × IsSatisfied c permissions
    to h =
        let (c, at, passes, named) =
          has-map-filter (λ (c : CapabilityView). c.id)
            (λ c. permissions_satisfy_capability c permissions) id r.policy.capabilities h in
        (c, at, named, (satisfy_iff c permissions).0 passes)

    from :
        (c : CapabilityView) × In c r.policy.capabilities × (c.id ≡ id) × IsSatisfied c permissions
        → has id (capability_allowlist r permissions) ≡ true
    from (c, at, named, s) = rw (← named) (
        has-map-filter-of-In (λ (c : CapabilityView). c.id)
          (λ c. permissions_satisfy_capability c permissions) c r.policy.capabilities at
          ((satisfy_iff c permissions).1 s))
