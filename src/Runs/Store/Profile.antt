-- ===== src/Runs/Store/Profile.antt =====
-- The resolution of a caller's profile: users/current-user.ts.
use at_nova_platform.Prelude.{
  all, has, has_duplicates, not, ◌&&◌, String, ◌==◌, ◌≡◌, refl, sym, ap, ◌∙◌, inl, inr, false, [],
  ◌∷◌, ◌++◌, map, Option, none, some, find, find-of-In, In-find, find-last, is_nil, if◌then◌else◌,
  In, In-map-of, Bool-cases, Option-cases, eq_refl,
}
use at_nova_platform.Runs.Snapshot.{sort_names}
use at_nova_platform.Rbac.Authorize.{AuthContext}
use at_nova_platform.Runs.Store.{
  User, NovaDb, Outcome, returned, thrown, ServiceError, missing_subject, missing_email,
  unknown_user, UserWithRoles, has_keycloak_id, set_keycloak_id, new_user, provision, link_profile,
  by_email, by_pin, resolve_current_user, given, roles_of,
}

-- The caller is resolved to some profile, and nothing is written.
pub Settled : AuthContext → NovaDb → Type 0
Settled auth db =
    (fresh : String) → (u : UserWithRoles) × (resolve_current_user fresh auth db ≡ (returned u, db))

module _ (auth : AuthContext) (db : NovaDb) where
  Settled-pin :
      (id : String) (u : User)
      → given auth.application_user_id ≡ some id
      → find (λ (u : User). id == u.id) db.users ≡ some u
      → Settled auth db
  unfolding Settled resolve_current_user
  Settled-pin id u pin found fresh =
      (record { user = u; roles = roles_of db u }, rw (pin, found) refl)

  Settled-subject :
      (u : User)
      → given auth.application_user_id ≡ none
      → (auth.subject == "") ≡ false
      → find (λ (u : User). has_keycloak_id auth.subject u.keycloak_id) db.users ≡ some u
      → Settled auth db
  unfolding Settled resolve_current_user
  Settled-subject u free named found fresh =
      (record { user = u; roles = roles_of db u }, rw (free, named, found) refl)

  Settled-email :
      (email other : String) (u : User)
      → given auth.application_user_id ≡ none
      → (auth.subject == "") ≡ false
      → find (λ (u : User). has_keycloak_id auth.subject u.keycloak_id) db.users ≡ none
      → given auth.email ≡ some email
      → find (λ (u : User). email == u.email) db.users ≡ some u
      → u.keycloak_id ≡ some other
      → Settled auth db
  unfolding Settled resolve_current_user
  Settled-email email other u free named absent has_email found linked fresh = (
    record { user = u; roles = roles_of db u },
    rw (free, named, absent, has_email, found, linked) refl,
  )

-- How a resolution that returned found the caller, and what the users are after it.
module _ (auth : AuthContext) (db more : NovaDb) where
  abbrev Answer : Type 0
  Answer = Outcome UserWithRoles × NovaDb

  never :
      {C : Type 0} (e : ServiceError) (u : UserWithRoles) (v after : NovaDb)
      → Path Answer (thrown e, v) (returned u, after)
      → C
  never e u v after same =
      let absurdity : Path (Outcome UserWithRoles) (thrown e) (returned u) =
        ap (λ (o : Answer). o.0) same in
      cc

  users_after :
      (x u : UserWithRoles) (v after : NovaDb)
      → Path Answer (returned x, v) (returned u, after)
      → more.users ≡ after.users
      → more.users ≡ v.users
  users_after x u v after went same = same ∙ sym (ap (λ (o : Answer). o.1.users) went)

  Settled-linked :
      (u : User)
      → given auth.application_user_id ≡ none
      → (auth.subject == "") ≡ false
      → In u db.users
      → more.users ≡ (set_keycloak_id u.id auth.subject db).users
      → Settled auth more
  Settled-linked u free named at same =
      let link =
        λ (v : User). if u.id == v.id then record v { keycloak_id = some auth.subject } else v in
      let (y, found) =
        find-of-In (λ (v : User). has_keycloak_id auth.subject v.keycloak_id) (link u)
          (map link db.users) (In-map-of link u db.users at)
          (rw (eq_refl u.id, eq_refl auth.subject) refl) in
      Settled-subject auth more y free named (rw same found)

  Settled-profile :
      (fresh : String) (u : UserWithRoles) (after : NovaDb) (email : String)
      → given auth.application_user_id ≡ none
      → (auth.subject == "") ≡ false
      → find (λ (u : User). has_keycloak_id auth.subject u.keycloak_id) db.users ≡ none
      → given auth.email ≡ some email
      → more.users ≡ after.users
      → (x : User) → find (λ (v : User). email == v.email) db.users ≡ some x
      → (k : Option String) → x.keycloak_id ≡ k
      → link_profile auth (record { user = x; roles = roles_of db x }) k db ≡ (returned u, after)
      → Settled auth more
  Settled-profile fresh u after email free named absent has_email same x found (some other) linked
        went =
      let users = users_after _ u db after went same in
      Settled-email auth more email other x free named (rw users absent) has_email (rw users found)
        linked
  Settled-profile fresh u after email free named absent has_email same x found none linked went =
      Settled-linked x free named (In-find (λ (v : User). email == v.email) x db.users found)
        (users_after _ u _ after went same)

  provisioned_users :
      (fresh email : String)
      → (provision fresh auth email db).1.users ≡ db.users ++ new_user fresh auth email ∷ []
  provisioned_users fresh email = elim (Bool-cases (is_nil (sort_names auth.roles))) [
    | inl nothing ↦ rw nothing refl
    | inr some_roles ↦
        let roles = sort_names auth.roles in
        elim (Bool-cases
          (all (λ role. has role db.role_names) roles && not (has_duplicates roles))) [
            | inl fit ↦ rw (some_roles, fit) refl
            | inr refused ↦ rw (some_roles, refused) refl
          ]
  ]

  Settled-new :
      (fresh : String) (u : UserWithRoles) (after : NovaDb) (email : String)
      → given auth.application_user_id ≡ none
      → (auth.subject == "") ≡ false
      → more.users ≡ after.users
      → provision fresh auth email db ≡ (returned u, after)
      → Settled auth more
  Settled-new fresh u after email free named same went =
      let users =
        same ∙ sym (ap (λ (o : Answer). o.1.users) went) ∙ provisioned_users fresh email in
      let (y, found) =
        find-last (λ (v : User). has_keycloak_id auth.subject v.keycloak_id)
          (new_user fresh auth email) db.users (eq_refl auth.subject) in
      Settled-subject auth more y free named (rw users found)

-- Once a caller is resolved, resolving again over the same users, whatever else was written,
-- returns a profile and writes nothing.
pub resolve_current_user-Settled :
    (fresh : String) (auth : AuthContext) (db after more : NovaDb) (u : UserWithRoles)
    → resolve_current_user fresh auth db ≡ (returned u, after)
    → more.users ≡ after.users
    → Settled auth more
unfolding resolve_current_user
resolve_current_user-Settled fresh auth db after more u went same =
    pin (given auth.application_user_id) refl went
  where
    Aim : Type 0
    Aim = Settled auth more

    mailed :
        given auth.application_user_id ≡ none
        → (auth.subject == "") ≡ false
        → find (λ (u : User). has_keycloak_id auth.subject u.keycloak_id) db.users ≡ none
        → (email : Option String) → given auth.email ≡ email
        → by_email fresh auth email db ≡ (returned u, after)
        → Aim
    mailed free named absent none e w = never auth db more missing_email u db after w
    mailed free named absent (some email) e w =
        elim (Option-cases (find (λ (v : User). email == v.email) db.users)) [
          | inl nobody ↦
              Settled-new auth db more fresh u after email free named same (rw nobody at w)
          | inr (x, found) ↦
              Settled-profile auth db more fresh u after email free named absent e same x found
                x.keycloak_id refl (rw found at w)
        ]

    pin :
        (id : Option String)
        → given auth.application_user_id ≡ id
        → by_pin fresh auth id db ≡ (returned u, after)
        → Aim
    pin (some id) e w = elim (Option-cases (find (λ (v : User). id == v.id) db.users)) [
      | inl nobody ↦ never auth db more unknown_user u db after (rw nobody at w)
      | inr (x, found) ↦
          let users = users_after auth db more _ u db after (rw found at w) same in
          Settled-pin auth more id x e (rw users found)
    ]
    pin none e w = elim (Bool-cases (auth.subject == "")) [
      | inl empty ↦ never auth db more missing_subject u db after (rw empty at w)
      | inr named ↦
          elim (Option-cases
            (find (λ (v : User). has_keycloak_id auth.subject v.keycloak_id) db.users)) [
              | inl absent ↦ mailed e named absent (given auth.email) refl (rw (named, absent) at w)
              | inr (x, found) ↦
                  let users = users_after auth db more _ u db after (rw (named, found) at w) same in
                  Settled-subject auth more x e named (rw users found)
            ]
    ]

pub Settled-at :
    (fresh : String) (auth : AuthContext) (db : NovaDb)
    → Settled auth db
    → (u : UserWithRoles) × (resolve_current_user fresh auth db ≡ (returned u, db))
unfolding Settled
Settled-at fresh auth db settled = settled fresh
