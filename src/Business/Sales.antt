-- ===== src/Business/Sales.antt =====
-- Sales: backend-services/api/src/modules/sales (service, repository, dto), with the customers' and
-- products' lookups that they use. `ilike` and the checks of column widths stay with the database.
pub mod Create
pub mod Columns
use Prim.Native.String.{compare}
use text.Mathlib.Text.{is_le}
use at_nova_platform.Prelude.{
  ℕ, ◌+◌, String, ◌==◌, Bool, true, false, not, ◌&&◌, ◌||◌, List, [], ◌∷◌, ◌++◌, map, Option, none,
  some, length, filter, find, any, has, is_nil, unique, sort_by, map_get, map_of, eqb, ltb, leb,
  if◌then◌else◌,
}
use at_nova_platform.Prelude.Integers.{ℤ}
use at_nova_platform.Money.{
  Units, ReceiptLine, decimal_to_scaled_big_int, scaled_big_int_to_decimal,
  compute_receipt_total_cents,
}
use at_nova_platform.Http.Pagination.{
  PageRequest, PaginatedResult, build_paginated_result, page_slice,
}
use at_nova_platform.Business.{
  Customer, Product, Sale, ProductSold, Shop, customer_by_id, product_by_id, sale_by_id,
}
use at_nova_platform.Runs.Store.{
  NovaDb, ServiceError, not_found, validation, unhandled, Outcome, returned, thrown, NovaAction,
  and_then, given,
}

-- A condition that a query adds only when its filter is there.
abbrev pub meets : {A : Type 0} → Option A → (A → Bool) → Bool
meets none p = true
meets (some a) p = p a

abbrev pub same_bool : Bool → Bool → Bool
same_bool a b = if a then b else not b

pub record SaleListFilter : Type 0 where
  pub customer_id : Option String
  pub payment_received : Option Bool
  pub from_date : Option ℕ
  pub to_date : Option ℕ

abbrev pub sale_matches : SaleListFilter → Sale → Bool
sale_matches filter sale =
    meets (given filter.customer_id) (λ id. id == sale.customer_id)
    && meets filter.payment_received (λ paid. same_bool paid sale.payment_received)
    && meets filter.from_date (λ t. leb t sale.date)
    && meets filter.to_date (λ t. leb sale.date t)

-- `date DESC, id DESC`, for rows with a time and an id.
abbrev pub newest_first : {A : Type 0} → (A → ℕ) → (A → String) → A → A → Bool
newest_first time id a b =
    ltb (time b) (time a) || (eqb (time a) (time b) && is_le (compare (id b) (id a)))

pub record ProductSoldDto : Type 0 where
  pub line : ProductSold
  pub product : Option Product

pub record SaleDto : Type 0 where
  pub sale : Sale
  pub customer : Option Customer
  pub products_sold : Option (List ProductSoldDto)

abbrev pub lines_of_sale : Shop → String → List ProductSold
lines_of_sale shop id = filter (λ (l : ProductSold). id == l.sale_id) shop.products_sold

abbrev pub to_product_sold_dto : Shop → ProductSold → ProductSoldDto
to_product_sold_dto shop line = record { line = line; product = product_by_id shop line.product_id }

-- A sale of a list comes with its customer, one that was asked for also with its lines.
abbrev pub to_listed_sale_dto : Shop → Sale → SaleDto
to_listed_sale_dto shop sale = record {
  sale = sale;
  customer = customer_by_id shop sale.customer_id;
  products_sold = none;
}

abbrev pub to_sale_dto : Shop → Sale → SaleDto
to_sale_dto shop sale = record {
  sale = sale;
  customer = customer_by_id shop sale.customer_id;
  products_sold = some (map (to_product_sold_dto shop) (lines_of_sale shop sale.id));
}

abbrev pub matching_sales : Shop → SaleListFilter → List Sale
matching_sales shop filter_by =
    sort_by (newest_first (λ (s : Sale). s.date) (λ (s : Sale). s.id))
      (filter (sale_matches filter_by) shop.sales)

abbrev pub list_sales : SaleListFilter → PageRequest → NovaAction (PaginatedResult SaleDto)
list_sales filter_by request db =
    let rows = matching_sales db.shop filter_by in
    (
      returned (
          build_paginated_result (map (to_listed_sale_dto db.shop) (page_slice request rows))
            (length rows) request),
      db,
    )

abbrev pub found_sale : Shop → Option Sale → Outcome SaleDto
found_sale shop none = thrown (not_found "Sale not found.")
found_sale shop (some sale) = returned (to_sale_dto shop sale)

abbrev pub get_sale_by_id : String → NovaAction SaleDto
get_sale_by_id id db = (found_sale db.shop (sale_by_id db.shop id), db)

pub record CustomerProductAggregate : Type 0 where
  pub product_id : String
  pub name : String
  pub category : String
  pub price : Units
  pub total_quantity : ℕ
  pub sale_count : ℕ

pub record CustomerProductsDto : Type 0 where
  pub customer_id : String
  pub products : List CustomerProductAggregate
  pub total_products : ℕ

abbrev pub is_sale_of : String → Option Sale → Bool
is_sale_of customer_id none = false
is_sale_of customer_id (some sale) = customer_id == sale.customer_id

-- `sale.customer_id = :customerId`, over the lines joined with their sales.
abbrev pub lines_of_customer : Shop → String → List ProductSold
lines_of_customer shop customer_id =
    filter (λ (l : ProductSold). is_sale_of customer_id (sale_by_id shop l.sale_id))
      shop.products_sold

abbrev pub total_quantity_of : List ProductSold → ℕ
total_quantity_of [] = 0
total_quantity_of (l ∷ ls) = l.quantity + total_quantity_of ls

abbrev pub lines_with : String → List ProductSold → List ProductSold
lines_with product_id lines = filter (λ (l : ProductSold). product_id == l.product_id) lines

abbrev pub aggregate_of : List ProductSold → Product → CustomerProductAggregate
aggregate_of lines product =
    let group = lines_with product.id lines in
    record {
      product_id = product.id;
      name = product.name;
      category = product.category;
      price = product.price;
      total_quantity = total_quantity_of group;
      sale_count = length (unique (map (λ (l : ProductSold). l.sale_id) group));
    }

-- The groups of the lines by product, in the order of the products' names.
abbrev pub aggregate_products_for_customer : Shop → String → List CustomerProductAggregate
aggregate_products_for_customer shop customer_id =
    let lines = lines_of_customer shop customer_id in
    map (aggregate_of lines) (
      sort_by (λ (a : Product) (b : Product). is_le (compare a.name b.name))
        (filter (λ (p : Product). not (is_nil (lines_with p.id lines))) shop.products))

abbrev pub products_for_customer : String → NovaAction CustomerProductsDto
products_for_customer customer_id db =
    let products = aggregate_products_for_customer db.shop customer_id in
    (
      returned (record {
        customer_id = customer_id;
        products = products;
        total_products = length products;
      }),
      db,
    )
