-- ===== src/Registry/Allowed.antt =====
-- The capabilities of a registry that is loaded: `loadData` and `capabilityAllowlist`.
use at_nova_platform.Prelude.{
  String, ◌≡◌, refl, sym, ap, ◌∙◌, ◌↔◌, true, false, List, [], ◌∷◌, has, In, In-map, In-map-of,
  arith, eq_refl, is_nil,
}
use at_nova_platform.Rbac.{CapabilityView, new_registry, capability_allowlist}
use at_nova_platform.Rbac.Resolve.{IsSatisfied, capability_allowlist_iff}
use at_nova_platform.Admin.Tables.{CapabilityRow, has_pair}
use at_nova_platform.Registry.{Reads, required_by_capability, capability_view_of, load_data}
use at_nova_platform.Registry.Loaded.{required_by_row}

-- What the rows say of a capability: it is enabled, at least one row requires a permission for it, and
-- all that the rows require is held.
pub record IsAllowed (reads : Reads) (c : CapabilityRow) (permissions : List String) : Type 0 where
  pub enabled : c.enabled ≡ true
  pub guarded : (p : String) × (has_pair c.id p reads.capability_permissions ≡ true)
  pub held :
      (p : String) → has_pair c.id p reads.capability_permissions ≡ true → has p permissions ≡ true

has-some : (xs : List String) → is_nil xs ≡ false → (x : String) × (has x xs ≡ true)
has-some [] h = cc
has-some (x ∷ xs) h = (x, ground (arith, eq_refl x))

is_nil-has : (x : String) (xs : List String) → has x xs ≡ true → is_nil xs ≡ false
is_nil-has x [] h = cc
is_nil-has x (y ∷ xs) h = refl

module _ (reads : Reads) (c : CapabilityRow) (permissions : List String) where
  abbrev view : CapabilityView
  view = capability_view_of (required_by_capability reads.capability_permissions) c

  row :
      (p : String) → has p view.required_permissions ≡ has_pair c.id p reads.capability_permissions
  row p = required_by_row reads.capability_permissions c p

  allowed : IsSatisfied view permissions → IsAllowed reads c permissions
  allowed s =
      let (p, some_required) = has-some view.required_permissions s.requires in
      record {
        enabled = s.enabled;
        guarded = (p, sym (row p) ∙ some_required);
        held = λ q required. s.held q (row q ∙ required);
      }

  satisfied : IsAllowed reads c permissions → IsSatisfied view permissions
  satisfied a = record {
    enabled = a.enabled;
    requires = is_nil-has a.guarded.0 view.required_permissions (row a.guarded.0 ∙ a.guarded.1);
    held = λ q required. a.held q (sym (row q) ∙ required);
  }

-- With a registry that is loaded, a capability is in the allowlist of a set of permissions exactly when
-- a row of the capabilities bears the id, is enabled, has at least one row that requires a permission,
-- and every permission that its rows require is in the set.
pub load_data-capability_allowlist_iff :
    (reads : Reads) (permissions : List String) (id : String)
    → (has id (capability_allowlist (new_registry (load_data reads)) permissions) ≡ true) ↔ (
        (c : CapabilityRow) × In c reads.capabilities × (c.id ≡ id) × IsAllowed reads c permissions)
unfolding new_registry load_data
load_data-capability_allowlist_iff reads permissions id = (
  λ h.
      let (v, at, named, s) =
        (capability_allowlist_iff (new_registry (load_data reads)) permissions id).0 h in
      let (c, there, same) = In-map viewed v reads.capabilities at in
      (
        c,
        there,
        sym (ap (λ (w : CapabilityView). w.id) same) ∙ named,
        allowed reads c permissions (rw same at s),
      ),
  λ (c, at, named, a).
      (capability_allowlist_iff (new_registry (load_data reads)) permissions id).1 (
        viewed c,
        In-map-of viewed c reads.capabilities at,
        named,
        satisfied reads c permissions a,
      ),
)
  where
    viewed : CapabilityRow → CapabilityView
    viewed = capability_view_of (required_by_capability reads.capability_permissions)
