-- ===== src/Rbac/Authorize/Deny.antt =====
-- The verdicts of the middleware: authorize.ts.
use at_nova_platform.Prelude.{
  String, ◌≡◌, refl, ◌≢◌, ◌↔◌, ◌⊎◌, inl, inr, true, List, [], ◌∷◌, Option, none, some, has, arith,
  eq_iff, ◌==◌, Bool-cases,
}
use at_nova_platform.Rbac.{
  route_policy, RoutePolicyKind, public, authenticated, permission, RoutePolicyView, RbacRegistry,
}
use at_nova_platform.Rbac.Authorize.{
  route_id, RouteAccessPolicy, AuthContext, resolve_effective_policy, allowed, unauthenticated,
  forbidden, authorization_denied, holds, gate, gate_permission, authorize,
}

-- The request may pass under the policy: the route is public, or it wants a principal and there is
-- one, or it wants a permission, which is not the empty text, and the principal holds it.
abbrev pub MayPass : RoutePolicyView → Option AuthContext → Type 0
MayPass p auth =
    (p.kind ≡ public)
    ⊎ ((a : AuthContext) × (auth ≡ some a)
        × ((p.kind ≡ authenticated)
            ⊎ ((p.kind ≡ permission)
                × ((required : String) × (p.permission_name ≡ some required)
                    × (required ≢ "")
                    × (has required a.permissions ≡ true)))))

holds_iff :
    (name : Option String) (permissions : List String)
    → (holds name permissions ≡ true) ↔ (
        (required : String) × (name ≡ some required)
        × (required ≢ "")
        × (has required permissions ≡ true))
holds_iff none permissions = (λ e. cc, λ h. cc (h.1))
holds_iff (some required) permissions = (
  λ e. (required, refl, (λ empty. ground (arith, (eq_iff required "").1 empty)), ground arith),
  λ h. from h.0 h.1 h.2 h.3,
)
  where
    from :
        (q : String)
        → some required ≡ some q
        → q ≢ ""
        → has q permissions ≡ true
        → holds (some required) permissions ≡ true
    from q same nonempty held = elim (Bool-cases (required == "")) [
      | inl empty ↦ absurd (nonempty (cc (same, (eq_iff required "").0 empty)))
      | inr other ↦ let e : q ≡ required = cc (same) in ground (arith, rw e at held)
    ]

no_principal : (p : RoutePolicyView) → MayPass p none → p.kind ≡ public
no_principal p (inl h) = h
no_principal p (inr (a, e, h)) = cc

gate_permission_iff :
    (p : RoutePolicyView) (a : AuthContext)
    → p.kind ≡ permission
    → ((gate_permission p a).0 ≡ allowed) ↔ MayPass p (some a)
unfolding gate_permission
gate_permission_iff p a k = (to, from)
  where
    to : (gate_permission p a).0 ≡ allowed → MayPass p (some a)
    to e =
        let held : holds p.permission_name a.permissions ≡ true = ground arith in
        inr (a, refl, inr (k, (holds_iff p.permission_name a.permissions).0 held))

    from : MayPass p (some a) → (gate_permission p a).0 ≡ allowed
    from (inl h) = cc
    from (inr (b, same, inl h)) = cc
    from (inr (b, same, inr h)) =
        let e : b ≡ a = cc in rw ((holds_iff p.permission_name a.permissions).1 (rw e at h.1))

gate_iff :
    (kind : RoutePolicyKind) (p : RoutePolicyView) (auth : Option AuthContext)
    → p.kind ≡ kind
    → ((gate kind p auth).0 ≡ allowed) ↔ MayPass p auth
unfolding gate
gate_iff public p auth k = (λ e. inl k, λ h. refl)
gate_iff authenticated p none k = (λ e. cc, λ h. cc (no_principal p h))
gate_iff authenticated p (some a) k = (λ e. inr (a, refl, inl k), λ h. refl)
gate_iff permission p none k = (λ e. cc, λ h. cc (no_principal p h))
gate_iff permission p (some a) k = gate_permission_iff p a k

-- A request passes the middleware exactly when the effective policy of its route lets it: default
-- deny, also for a permission that is missing, empty or not held.
pub authorize_iff :
    (r : RbacRegistry) (policy : RouteAccessPolicy) (auth : Option AuthContext)
    → ((authorize r policy auth).0 ≡ allowed) ↔ MayPass (resolve_effective_policy r policy) auth
unfolding authorize
authorize_iff r policy auth =
    let effective = resolve_effective_policy r policy in gate_iff effective.kind effective auth refl

-- Without a principal a request that does not pass is refused as unauthenticated, with one as
-- forbidden, and only the latter is logged as a denial.
pub authorize_refusal :
    (r : RbacRegistry) (policy : RouteAccessPolicy) (auth : Option AuthContext)
    → (authorize r policy auth).0 ≢ allowed
    → ((auth ≡ none) × (authorize r policy auth ≡ (unauthenticated, [])))
      ⊎ ((a : AuthContext) × (auth ≡ some a)
          × (authorize r policy auth ≡ (
            forbidden,
            authorization_denied
                  (resolve_effective_policy r policy).route_id
                  (resolve_effective_policy r policy).permission_name
                  a.subject
                ∷ [],
          )))
unfolding authorize
authorize_refusal r policy auth refused =
    let effective = resolve_effective_policy r policy in
    gate_refusal effective.kind effective auth refused
  where
    gate_refusal :
        (kind : RoutePolicyKind) (p : RoutePolicyView) (auth : Option AuthContext)
        → (gate kind p auth).0 ≢ allowed
        → ((auth ≡ none) × (gate kind p auth ≡ (unauthenticated, [])))
          ⊎ ((a : AuthContext) × (auth ≡ some a)
              × (gate kind p auth
                  ≡ (forbidden, authorization_denied p.route_id p.permission_name a.subject ∷ [])))
    gate_refusal public p auth refused = absurd (refused refl)
    gate_refusal authenticated p none refused = inl (refl, refl)
    gate_refusal authenticated p (some a) refused = absurd (refused refl)
    gate_refusal permission p none refused = inl (refl, refl)
    gate_refusal permission p (some a) refused =
        elim (Bool-cases (holds p.permission_name a.permissions)) [
          | inl held ↦ absurd (refused (rw held))
          | inr lacks ↦ inr (a, refl, rw lacks)
        ]

pub resolve_effective_policy-bound :
    (r : RbacRegistry) (policy : RouteAccessPolicy) (bound : RoutePolicyView)
    → route_policy r (route_id policy) ≡ some bound
    → resolve_effective_policy r policy ≡ bound
unfolding resolve_effective_policy
resolve_effective_policy-bound r policy bound e = rw (e, resolve_effective_policy)
