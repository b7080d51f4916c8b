-- ===== src/Runs/Executor/Tests.antt =====
-- Tests and concrete uses of the executor.
use at_nova_platform.Prelude.{String, ◌==◌, Bool, true, ◌≡◌, refl, inl, [], ◌∷◌, none, some}
use at_nova_platform.Json.{Json, str, obj, field, end}
use at_nova_platform.Business.Actions.{Fresh, update_action}
use at_nova_platform.Rbac.Authorize.{AuthContext}
use at_nova_platform.Rbac.{low}
use at_nova_platform.Runs.Store.{NovaDb, not_found}
use at_nova_platform.Runs.Executor.Zod.{Zod}
use at_nova_platform.Runs.Executor.Execute.{execute}
use at_nova_platform.Runs.Executor.Execute.Effects.{execute-read_only}
use at_nova_platform.Runs.Executor.Execute.Atomic.{execute-Atomic}

abbrev zod : Zod
zod = record {
  is_uuid = λ s. true;
  instant = λ s. some 1;
  positive_int = λ s. some 1;
  trim = λ s. s;
}

abbrev same_text : String → String → Bool
same_text a b = a == b

abbrev now : Fresh
now = record { row = "n1"; profile = "n2"; now = 9 }

abbrev db : NovaDb
db = record {
  conversations = [];
  messages = [];
  users = [];
  user_roles = [];
  role_names = [];
  shop = record {
    customers =
        (record {
          id = "c1";
          email = "a@acme.test";
          full_name = "Acme";
          first_name = "A";
          last_name = "Cme";
          age = none;
          active = true;
          created_at = 1;
        })
        ∷ [];
    products = [];
    sales = [];
    products_sold = [];
    issues = [];
    actions = [];
    comments = [];
    dependencies = [];
    sops = [];
    sop_details = [];
  };
}

abbrev caller : AuthContext
caller = record {
  subject = "kc1";
  email = none;
  given_name = none;
  family_name = none;
  roles = [];
  permissions = [];
  application_user_id = some "u1";
}

abbrev one_customer : Json
one_customer = obj (field "customerId" (str "c1") end)

abbrev one_action : Json
one_action = obj (field "actionId" (str "a1") end)

execute-read_only_example :
    (execute zod same_text now "sales.report.customer" one_customer caller db).1 ≡ db
execute-read_only_example =
    execute-read_only zod same_text now one_customer caller db
      (record {
        id = "sales.report.customer";
        kind = "agent-skill";
        mode = "read";
        required_permissions = "read-sales" ∷ "read-customers" ∷ [];
        risk = low;
        resource_scoped = true;
        delegated = some true;
        requires_approval = none;
      })
      (inl refl) refl

execute-Atomic_example :
    (execute zod same_text now "actions.markCompleted" one_action caller db).1 ≡ db
unfolding execute update_action
execute-Atomic_example =
    execute-Atomic zod same_text now one_action caller db "u1" refl "actions.markCompleted"
      (not_found "Issue action not found.") refl
