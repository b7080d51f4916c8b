-- ===== src/Runs/Store.antt =====
-- The business tables that the runs use (conversation.repository.ts, user.repository.ts), and the
-- resolution of the caller's profile (backend-services/api/src/modules/users/current-user.ts).
pub mod Profile
use Prim.Native.String
use Prim.Native.Char.{code}
use at_nova_platform.Prelude.{
  ℕ, String, ◌==◌, Bool, true, false, not, ◌&&◌, List, [], ◌∷◌, ◌++◌, map, Option, none, some,
  filter, all, has, has_duplicates, find, is_nil, eqb, get_or, if◌then◌else◌,
}
use at_nova_platform.Business.{Shop}
use at_nova_platform.Rbac.Authorize.{AuthContext}
use at_nova_platform.Runs.{AgentsDb}
use at_nova_platform.Runs.Snapshot.{sort_names}

pub data MessageRole : Type 0 where
  system user assistant : MessageRole

pub record Message : Type 0 where
  pub id : String
  pub conversation_id : String
  pub role : MessageRole
  pub text : String
  pub is_mcp_apps : Bool
  pub mcp_app_link : Option String
  pub mcp_active : Option Bool

pub record Conversation : Type 0 where
  pub id : String
  pub user_id : String

pub record User : Type 0 where
  pub id : String
  pub email : String
  pub first_name : String
  pub last_name : String
  pub keycloak_id : Option String
  pub active : Bool

-- `role_names` are the keys of the table of roles, which `user_roles` refers to.
pub record NovaDb : Type 0 where
  pub conversations : List Conversation
  pub messages : List Message
  pub users : List User
  pub user_roles : List (String × String)
  pub role_names : List String
  pub shop : Shop

-- Both databases.
pub record World : Type 0 where
  pub agents : AgentsDb
  pub nova : NovaDb

-- What the services throw; `unhandled` is an error that no handler expects.
pub data ServiceError : Type 0 where
  run_not_found conversation_not_found no_conversation prompt_not_found : ServiceError
  snapshot_tampered snapshot_expired not_entitled : ServiceError
  missing_subject missing_email unknown_user : ServiceError
  not_found validation conflict : String → ServiceError
  business unhandled : String → ServiceError

pub data Outcome (A : Type 0) : Type 0 where
  returned : A → Outcome A
  thrown : ServiceError → Outcome A

-- An operation ends with a value or an error, and leaves a world either way.
abbrev pub Action : Type 0 → Type 0
Action A = World → Outcome A × World

-- The same on the business database alone.
abbrev pub NovaAction : Type 0 → Type 0
NovaAction A = NovaDb → Outcome A × NovaDb

abbrev pub and_then : {W A B : Type 0} → Outcome A × W → (A → W → Outcome B × W) → Outcome B × W
and_then (returned a, w) k = k a w
and_then (thrown e, w) k = (thrown e, w)

abbrev pub find_for_user : NovaDb → String → String → Option Conversation
find_for_user db id user_id =
    find (λ (c : Conversation). id == c.id && user_id == c.user_id) db.conversations

abbrev pub create_conversation : Conversation → NovaDb → NovaDb
create_conversation c db = record db { conversations = db.conversations ++ c ∷ [] }

abbrev pub add_message : Message → NovaDb → NovaDb
add_message m db = record db { messages = db.messages ++ m ∷ [] }

abbrev pub find_message_in_conversation : NovaDb → String → String → Option Message
find_message_in_conversation db conversation_id message_id =
    find (λ (m : Message). message_id == m.id && conversation_id == m.conversation_id) db.messages

pub record UserWithRoles : Type 0 where
  pub user : User
  pub roles : List String

abbrev pub roles_of : NovaDb → User → List String
roles_of db u = sort_names (
    map (λ (row : String × String). row.1)
      (filter (λ (row : String × String). u.id == row.0) db.user_roles))

abbrev pub with_roles : NovaDb → Option User → Option UserWithRoles
with_roles db none = none
with_roles db (some u) = some (record { user = u; roles = roles_of db u })

abbrev pub find_by_id : NovaDb → String → Option UserWithRoles
find_by_id db id = with_roles db (find (λ (u : User). id == u.id) db.users)

abbrev pub find_by_email : NovaDb → String → Option UserWithRoles
find_by_email db email = with_roles db (find (λ (u : User). email == u.email) db.users)

abbrev pub has_keycloak_id : String → Option String → Bool
has_keycloak_id subject none = false
has_keycloak_id subject (some k) = subject == k

abbrev pub find_by_keycloak_id : NovaDb → String → Option UserWithRoles
find_by_keycloak_id db subject =
    with_roles db (find (λ (u : User). has_keycloak_id subject u.keycloak_id) db.users)

abbrev pub set_keycloak_id : String → String → NovaDb → NovaDb
set_keycloak_id id subject db = record db {
  users =
      map (λ (u : User). if id == u.id then record u { keycloak_id = some subject } else u)
        db.users;
}

-- A role that does not exist, or comes twice, breaks a constraint, and the transaction keeps nothing.
abbrev pub replace_roles : String → List String → NovaDb → Outcome (Unit {0}) × NovaDb
replace_roles id roles db =
    if all (λ role. has role db.role_names) roles && not (has_duplicates roles)
    then (
      returned tt,
      record db {
        user_roles =
            filter (λ (row : String × String). not (id == row.0)) db.user_roles
            ++ map (λ role. (id, role)) roles;
      },
    )
    else (thrown (unhandled "a constraint of user_roles"), db)

-- `email.split('@')[0]`
abbrev pub local_part : String → String
local_part String.[] = ""
local_part (String.◌∷◌ c s) = if eqb (code c) b'@' then "" else String.◌∷◌ c (local_part s)

-- A text counts as given when it is there and not empty: `if (auth.email)`.
abbrev pub given : Option String → Option String
given none = none
given (some s) = if s == "" then none else some s

abbrev pub new_user : String → AuthContext → String → User
new_user fresh auth email = record {
  id = fresh;
  email = email;
  first_name = get_or auth.given_name (local_part email);
  last_name = get_or auth.family_name "";
  keycloak_id = some auth.subject;
  active = true;
}

abbrev pub with_created :
    UserWithRoles → Outcome (Unit {0}) × NovaDb → Outcome UserWithRoles × NovaDb
with_created created (returned done, db) = (returned created, db)
with_created created (thrown e, db) = (thrown e, db)

-- The profile is written on its own, and stays when its roles are refused.
abbrev pub provision : String → AuthContext → String → NovaDb → Outcome UserWithRoles × NovaDb
provision fresh auth email db =
    let user = new_user fresh auth email in
    let roles = sort_names auth.roles in
    let created : UserWithRoles = record { user = user; roles = roles } in
    let db' = record db { users = db.users ++ user ∷ [] } in
    if is_nil roles
    then (returned created, db')
    else with_created created (replace_roles fresh roles db')

-- A profile found by its email is linked to the subject on the first match.
abbrev pub link_profile :
    AuthContext → UserWithRoles → Option String → NovaDb → Outcome UserWithRoles × NovaDb
link_profile auth found (some other) db = (returned found, db)
link_profile auth found none db = (
  returned (record {
    user = record found.user { keycloak_id = some auth.subject };
    roles = found.roles;
  }),
  set_keycloak_id found.user.id auth.subject db,
)

abbrev pub link_or_provision :
    String → AuthContext → String → Option UserWithRoles → NovaDb → Outcome UserWithRoles × NovaDb
link_or_provision fresh auth email none db = provision fresh auth email db
link_or_provision fresh auth email (some found) db =
    link_profile auth found found.user.keycloak_id db

abbrev pub by_email : String → AuthContext → Option String → NovaDb → Outcome UserWithRoles × NovaDb
by_email fresh auth none db = (thrown missing_email, db)
by_email fresh auth (some email) db = link_or_provision fresh auth email (find_by_email db email) db

abbrev pub by_subject :
    String → AuthContext → Option UserWithRoles → NovaDb → Outcome UserWithRoles × NovaDb
by_subject fresh auth (some found) db = (returned found, db)
by_subject fresh auth none db = by_email fresh auth (given auth.email) db

abbrev pub pinned : Option UserWithRoles → NovaDb → Outcome UserWithRoles × NovaDb
pinned none db = (thrown unknown_user, db)
pinned (some u) db = (returned u, db)

abbrev pub by_pin : String → AuthContext → Option String → NovaDb → Outcome UserWithRoles × NovaDb
by_pin fresh auth (some id) db = pinned (find_by_id db id) db
by_pin fresh auth none db =
    if auth.subject == ""
    then (thrown missing_subject, db)
    else by_subject fresh auth (find_by_keycloak_id db auth.subject) db

-- `fresh` is the id that the database gives a new row.
unfoldable pub resolve_current_user : String → AuthContext → NovaDb → Outcome UserWithRoles × NovaDb
resolve_current_user fresh auth db = by_pin fresh auth (given auth.application_user_id) db
