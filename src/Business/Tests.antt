-- ===== src/Business/Tests.antt =====
-- Tests and concrete uses of the business services: one customer, one product, one procedure.
use at_nova_platform.Prelude.{true, false, ◌≡◌, refl, [], ◌∷◌, none, some}
use at_nova_platform.Money.{units, decimal_to_scaled_big_int}
use at_nova_platform.Business.{Customer, Product, Sop}
use at_nova_platform.Business.Sales.Create.{CreateSaleInput, create_sale_body_ok}
use at_nova_platform.Business.Sales.Columns.{fits_discount, fits_total}
use at_nova_platform.Business.Actions.{Fresh}
use at_nova_platform.Rbac.Authorize.{AuthContext}
use at_nova_platform.Runs.Store.{User, NovaDb}

abbrev widget : Product
widget = record {
  id = "p1";
  name = "Widget";
  description = none;
  category = "parts";
  price = units "12.50";
  in_catalog = true;
}

abbrev acme : Customer
acme = record {
  id = "c1";
  email = "a@acme.test";
  full_name = "Acme";
  first_name = "A";
  last_name = "Cme";
  age = none;
  active = true;
  created_at = 1;
}

abbrev returns : Sop
returns = record { id = "s1"; name = "Returns"; active = true; description = "how to" }

abbrev ann : User
ann = record {
  id = "u1";
  email = "ann@nova.test";
  first_name = "Ann";
  last_name = "Lee";
  keycloak_id = some "kc1";
  active = true;
}

abbrev db : NovaDb
db = record {
  conversations = [];
  messages = [];
  users = ann ∷ [];
  user_roles = [];
  role_names = [];
  shop = record {
    customers = acme ∷ [];
    products = widget ∷ [];
    sales = [];
    products_sold = [];
    issues = [];
    actions = [];
    comments = [];
    dependencies = [];
    sops = returns ∷ [];
    sop_details =
        (record {
          sop_id = "s1";
          version = 1;
          full_text = "first";
          date_of_creation = 1;
          created_by_id = "u1";
        })
        ∷ [];
  };
}

abbrev order : CreateSaleInput
order = record {
  customer_id = "c1";
  date = 5;
  discount_applied = units "10.5";
  payment_received = false;
  date_of_payment = none;
  items = (record { product_id = "p1"; quantity = 3 }) ∷ [];
}

abbrev as_ann : AuthContext
as_ann = record {
  subject = "kc1";
  email = none;
  given_name = none;
  family_name = none;
  roles = [];
  permissions = [];
  application_user_id = some "u1";
}

abbrev at_nine : Fresh
at_nine = record { row = "n1"; profile = "n2"; now = 9 }

-- The schema of the body bounds the discount and asks for distinct products.
bodies :
    (create_sale_body_ok order ≡ true)
    × (create_sale_body_ok (record order { discount_applied = units "100.01" }) ≡ false)
    × (create_sale_body_ok (record order { discount_applied = units "100" }) ≡ true)
    × (create_sale_body_ok (record order { payment_received = true }) ≡ false)
bodies = (refl, refl, refl, refl)

-- A discount above a hundred percent, a product too many, and a total too wide are refused by the columns.
columns :
    (fits_discount (units "100.004") ≡ true)
    × (fits_discount (units "150") ≡ false)
    × (fits_discount (units "1.2.9") ≡ false)
    × (fits_total (units "10000000000.00") ≡ false)
    × (fits_total (units "-0.50") ≡ false)
    × (fits_total (units "9999999999.99") ≡ true)
unfolding decimal_to_scaled_big_int
columns = (refl, refl, refl, refl, refl, refl)
