-- ===== src/Business/Catalog.antt =====
-- Customers and products: customer.service.ts, product.service.ts and their repositories
-- (backend-services/api/src/modules). `ilike` is PostgreSQL's operator on a text and a pattern.
use Prim.Native.String
use Prim.Native.String.{compare}
use text.Mathlib.Text.{is_le}
use at_nova_platform.Prelude.{
  String, ◌==◌, Bool, false, ◌&&◌, ◌||◌, Option, none, some, filter, sort_by,
}
use at_nova_platform.Http.Pagination.{PageRequest, PaginatedResult, paginate}
use at_nova_platform.Business.{Customer, Product, customer_by_id, product_by_id}
use at_nova_platform.Business.Sales.{meets, same_bool, newest_first}
use at_nova_platform.Runs.Store.{not_found, Outcome, returned, thrown, NovaAction, given}

pub record CustomerListFilter : Type 0 where
  pub active : Option Bool
  pub search : Option String

pub record ProductListFilter : Type 0 where
  pub search : Option String
  pub category : Option String
  pub in_catalog : Option Bool

-- `%${search}%`
abbrev pub pattern_of : String → String
pattern_of search = String.◌++◌ "%" (String.◌++◌ search "%")

abbrev pub found_customer : Option Customer → Outcome Customer
found_customer none = thrown (not_found "Customer not found.")
found_customer (some customer) = returned customer

abbrev pub get_customer_by_id : String → NovaAction Customer
get_customer_by_id id db = (found_customer (customer_by_id db.shop id), db)

abbrev pub found_product : Option Product → Outcome Product
found_product none = thrown (not_found "Product not found.")
found_product (some product) = returned product

abbrev pub get_product_by_id : String → NovaAction Product
get_product_by_id id db = (found_product (product_by_id db.shop id), db)

module _ (ilike : String → String → Bool) where
  abbrev pub customer_matches : CustomerListFilter → Customer → Bool
  customer_matches filter_by c =
      meets filter_by.active (λ active. same_bool active c.active)
      && meets (given filter_by.search)
          (λ search. ilike c.full_name (pattern_of search) || ilike c.email (pattern_of search))

  abbrev pub list_customers :
      CustomerListFilter → PageRequest → NovaAction (PaginatedResult Customer)
  list_customers filter_by request db = (
    returned (
        paginate
          (sort_by (newest_first (λ (c : Customer). c.created_at) (λ (c : Customer). c.id))
            (filter (customer_matches filter_by) db.shop.customers))
          request),
    db,
  )

  abbrev pub description_like : Option String → String → Bool
  description_like none pattern = false
  description_like (some text) pattern = ilike text pattern

  abbrev pub product_matches : ProductListFilter → Product → Bool
  product_matches filter_by p =
      meets (given filter_by.search) (λ search.
        ilike p.name (pattern_of search) || description_like p.description (pattern_of search))
      && meets (given filter_by.category) (λ category. category == p.category)
      && meets filter_by.in_catalog (λ listed. same_bool listed p.in_catalog)

  abbrev pub list_products : ProductListFilter → PageRequest → NovaAction (PaginatedResult Product)
  list_products filter_by request db = (
    returned (
        paginate
          (sort_by (λ (a : Product) (b : Product). is_le (compare a.name b.name))
            (filter (product_matches filter_by) db.shop.products))
          request),
    db,
  )
