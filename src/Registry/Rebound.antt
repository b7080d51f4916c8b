-- ===== src/Registry/Rebound.antt =====
-- `updateRoutePolicy` of rbac-admin.service.ts as the next request sees it: the change of the tables, the
-- refresh, and the middleware of auth/authorize.ts.
use at_nova_platform.Prelude.{
  String, ◌≡◌, ◌≢◌, ◌↔◌, refl, sym, ap, ◌∙◌, List, [], ◌∷◌, map, Option, some, has, In, In-map,
  map_get-set_all, arith, inl, inr, true,
}
use at_nova_platform.Rbac.{
  public, authenticated, permission, RoutePolicyView, new_registry, route_policy,
}
use at_nova_platform.Rbac.Authorize.{
  RouteAccessPolicy, route_id, AuthContext, allowed, authorize, resolve_effective_policy,
}
use at_nova_platform.Rbac.Authorize.Deny.{MayPass, authorize_iff, resolve_effective_policy-bound}
use at_nova_platform.Admin.Tables.{RbacDb}
use at_nova_platform.Admin.{RbacActor, ok, mutate}
use at_nova_platform.Admin.Bindings.{UpdateRoutePolicyBody, bound_permission, update_route_policy}
use at_nova_platform.Admin.Integrity.{Ensures, Ensures->>=}
use at_nova_platform.Admin.Bindings.Routes.{route_ids, IsRebound, mutate-IsRebound}
use at_nova_platform.Registry.{
  Instance, Reads, reads_of, refresh_from, load_data, mutate_and_refresh,
}

-- A route of the tables has one of its rows in the registry.
load_data-route_policy :
    (reads : Reads) (id : String)
    → has id (route_ids reads.route_policies) ≡ true
    → (r : RoutePolicyView) × In r reads.route_policies
      × (r.route_id ≡ id)
      × (route_policy (new_registry (load_data reads)) id ≡ some r)
unfolding new_registry load_data route_policy
load_data-route_policy reads id there =
    let entry : RoutePolicyView → String × RoutePolicyView = λ p. (p.route_id, p) in
    let (r, at, got) =
      map_get-set_all id [] (map entry reads.route_policies) (keys reads.route_policies ∙ there) in
    let (p, was, made) = In-map entry (id, r) reads.route_policies at in
    let same : r ≡ p = ap (λ (e : String × RoutePolicyView). e.1) made in
    let named : id ≡ p.route_id = ap (λ (e : String × RoutePolicyView). e.0) made in
    (r, rw same was, ap (λ (q : RoutePolicyView). q.route_id) same ∙ sym named, got)
  where
    keys :
        (rows : List RoutePolicyView)
        → has id (
            map
              (λ (e : String × RoutePolicyView). e.0)
              (map (λ (p : RoutePolicyView). (p.route_id, p)) rows))
          ≡ has id (route_ids rows)
    keys [] = refl
    keys (r ∷ rows) = ground (arith, keys rows)

-- What the body of the change lets pass.
pub data Passes (body : UpdateRoutePolicyBody) : Option AuthContext → Type 0 where
  anyone : {auth : Option AuthContext} → body.kind ≡ public → Passes body auth
  signed_in : {a : AuthContext} → body.kind ≡ authenticated → Passes body (some a)
  holder :
      {a : AuthContext} (required : String)
      → body.kind ≡ permission
      → body.permission_name ≡ some required
      → required ≢ ""
      → has required a.permissions ≡ true
      → Passes body (some a)

module _ (body : UpdateRoutePolicyBody) (r : RoutePolicyView) (kind : r.kind ≡ body.kind)
    (name : r.permission_name ≡ bound_permission body) where
  named : body.kind ≡ permission → bound_permission body ≡ body.permission_name
  named is_permission = rw is_permission refl

  passes : (auth : Option AuthContext) → MayPass r auth → Passes body auth
  passes auth (inl open_to_all) = anyone (sym kind ∙ open_to_all)
  passes auth (inr (a, same, inl any_user)) = rw same (signed_in (sym kind ∙ any_user))
  passes auth (inr (a, same, inr (wants, (required, is_required, nonempty, held)))) =
      let bound : body.kind ≡ permission = sym kind ∙ wants in
      rw same (holder required bound (sym (named bound) ∙ sym name ∙ is_required) nonempty held)

  may_pass : (auth : Option AuthContext) → Passes body auth → MayPass r auth
  may_pass auth (anyone open_to_all) = inl (kind ∙ open_to_all)
  may_pass (some a) (signed_in any_user) = inr (a, refl, inl (kind ∙ any_user))
  may_pass (some a) (holder required wants is_required nonempty held) =
      inr
        (a, refl, inr (kind ∙ wants, (required, name ∙ named wants ∙ is_required, nonempty, held)))

module _ (id : String) (body : UpdateRoutePolicyBody) where
  -- The effective policy of the route after the refresh is one of its rows.
  effective :
      (db : RbacDb) (declared : RouteAccessPolicy)
      → route_id declared ≡ id
      → IsRebound id body db.route_policies
      → (r : RoutePolicyView) × (resolve_effective_policy
            (new_registry (load_data (reads_of db)))
            declared
          ≡ r)
        × (r.kind ≡ body.kind)
        × (r.permission_name ≡ bound_permission body)
  effective db declared same rebound =
      let (r, at, r_id, got) = load_data-route_policy (reads_of db) id rebound.there in
      let (kind, name) = rebound.bound r at r_id in
      let registry = new_registry (load_data (reads_of db)) in
      (
        r,
        resolve_effective_policy-bound registry declared r (ap (route_policy registry) same ∙ got),
        kind,
        name,
      )

  abbrev Decides : RbacDb × Instance → Type 0
  Decides out =
      (declared : RouteAccessPolicy) (auth : Option AuthContext)
      → route_id declared ≡ id
      → ((authorize out.1.active declared auth).0 ≡ allowed) ↔ Passes body auth

  decides :
      (db : RbacDb) (i : Instance)
      → IsRebound id body db.route_policies
      → Decides (db, refresh_from (reads_of db) i)
  decides db i rebound declared auth same =
      let registry = new_registry (load_data (reads_of db)) in
      let (r, is_r, kind, name) = effective db declared same rebound in
      let gate = authorize_iff registry declared auth in
      (
        λ pass. passes body r kind name auth (rw is_r at gate.0 pass),
        λ may. gate.1 (rw is_r (may_pass body r kind name auth may)),
      )

-- When an administrator has changed a route's policy, and the instance has refreshed, the middleware lets
-- a request to the route pass exactly when the body of the change does, whatever policy the code
-- declares for the route: anyone for `public`, anyone signed in for `authenticated`, and for
-- `permission` those who hold the permission that the body names.
pub update_route_policy-authorize :
    (actor : RbacActor) (id : String) (body : UpdateRoutePolicyBody) (before after : RbacDb)
    (i next : Instance)
    → mutate_and_refresh actor (update_route_policy id body) (before, i) ≡ ok (after, next)
    → (declared : RouteAccessPolicy) (auth : Option AuthContext) → route_id declared ≡ id
    → ((authorize next.active declared auth).0 ≡ allowed) ↔ Passes body auth
unfolding mutate_and_refresh
update_route_policy-authorize actor id body before after i next went =
    let set = mutate-IsRebound id body before actor in
    let sound : Ensures (Decides id body)
        (mutate_and_refresh actor (update_route_policy id body) (before, i)) =
      Ensures->>= (Decides id body) (mutate actor (update_route_policy id body) before) _
        λ (db : RbacDb) e. decides id body db i (rw e at set) in
    let answers : Decides id body (after, next) = rw went at sound in answers
