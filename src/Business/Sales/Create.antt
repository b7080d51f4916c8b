-- ===== src/Business/Sales/Create.antt =====
-- `createSale` of sale.service.ts, the body's schema (sale.schema.ts) and the repository's transaction.
pub mod Discount
pub mod Accepted
use at_nova_platform.Prelude.{
  ℕ, suc, ◌+◌, ◌*◌, ◌^◌, ◌≤◌, String, ◌==◌, Bool, true, false, not, ◌&&◌, ◌||◌, List, [], ◌∷◌, ◌++◌,
  map, Option, none, some, length, take, drop, filter, all, has, has_duplicates, is_nil, is_some,
  map_get, map_of, eqb, leb, if◌then◌else◌,
}
use at_nova_platform.Prelude.Integers.{ℤ}
use at_nova_platform.Money.{
  Units, is_digit, before_dot, after_dot, value, trim, ReceiptLine, decimal_to_scaled_big_int,
  scaled_big_int_to_decimal, compute_receipt_total_cents,
}
use at_nova_platform.Business.{Customer, Product, Sale, ProductSold, Shop, customer_by_id}
use at_nova_platform.Business.Sales.Columns.{fits_total, fits_discount_column, fits_quantity}
use at_nova_platform.Business.Sales.{SaleDto, get_sale_by_id}
use at_nova_platform.Runs.Store.{
  NovaDb, validation, unhandled, Outcome, returned, thrown, NovaAction,
}

pub record SaleItem : Type 0 where
  pub product_id : String
  pub quantity : ℕ

pub record CreateSaleInput : Type 0 where
  pub customer_id : String
  pub date : ℕ
  pub discount_applied : Units
  pub payment_received : Bool
  pub date_of_payment : Option ℕ
  pub items : List SaleItem

abbrev pub product_ids : List SaleItem → List String
product_ids items = map (λ (i : SaleItem). i.product_id) items

-- `/^\d{1,3}(\.\d{1,2})?$/` on the trimmed text.
abbrev pub is_decimal_string : Units → Bool
is_decimal_string s =
    let whole = before_dot s in
    let places = after_dot s in
    all is_digit whole
    && leb 1 (length whole)
    && leb (length whole) 3
    && (eqb (length s) (length whole)
        || (all is_digit places && leb 1 (length places) && leb (length places) 2))

-- `Number(value) <= 100`, on a text of that form.
abbrev pub at_most_hundred : Units → Bool
at_most_hundred s =
    let places = after_dot s in leb (value 0 (before_dot s ++ places)) (100 * 10 ^ length places)

-- What `createSaleBodySchema` asks beyond the shapes of ids and times.
abbrev pub create_sale_body_ok : CreateSaleInput → Bool
create_sale_body_ok body =
    is_decimal_string body.discount_applied
    && at_most_hundred body.discount_applied
    && all (λ (i : SaleItem). leb 1 i.quantity && leb i.quantity 100_000) body.items
    && not (is_nil body.items)
    && not (has_duplicates (product_ids body.items))
    && (not body.payment_received || is_some body.date_of_payment)

abbrev pub find_by_ids : Shop → List String → List Product
find_by_ids shop [] = []
find_by_ids shop (id ∷ ids) = filter (λ (p : Product). has p.id (id ∷ ids)) shop.products

abbrev pub price_by_id : Shop → List String → List (String × Units)
price_by_id shop ids = map_of (map (λ (p : Product). (p.id, p.price)) (find_by_ids shop ids))

abbrev pub priced : ℕ → Option ℤ → Outcome ReceiptLine
priced quantity none = thrown (unhandled "Invalid decimal value")
priced quantity (some cents) = returned (record { price_cents = cents; quantity = quantity })

abbrev pub line_of : SaleItem → Option Units → Outcome ReceiptLine
line_of item none = thrown (validation "Product does not exist.")
line_of item (some price) = priced item.quantity (decimal_to_scaled_big_int price 2)

abbrev pub cons_line : Outcome ReceiptLine → Outcome (List ReceiptLine) → Outcome (List ReceiptLine)
cons_line (thrown e) rest = thrown e
cons_line (returned line) (thrown e) = thrown e
cons_line (returned line) (returned lines) = returned (line ∷ lines)

-- The first item that has no product or no readable price ends the work.
abbrev pub lines_of : List (String × Units) → List SaleItem → Outcome (List ReceiptLine)
lines_of prices [] = returned []
lines_of prices (item ∷ items) =
    cons_line (line_of item (map_get item.product_id prices)) (lines_of prices items)

abbrev pub sale_row : String → CreateSaleInput → Units → Sale
sale_row fresh input total = record {
  id = fresh;
  customer_id = input.customer_id;
  discount_applied = some input.discount_applied;
  date = input.date;
  total_amount_receipt = total;
  payment_received = input.payment_received;
  date_of_payment = input.date_of_payment;
}

abbrev pub sold_rows : String → List SaleItem → List ProductSold
sold_rows fresh items =
    map
      (λ (i : SaleItem). record {
        sale_id = fresh;
        product_id = i.product_id;
        quantity = i.quantity;
      })
      items

abbrev pub fits_sale : Sale → Bool
fits_sale sale = fits_total sale.total_amount_receipt && fits_discount_column sale.discount_applied

abbrev pub fit_quantities : List SaleItem → Bool
fit_quantities items = all (λ (i : SaleItem). fits_quantity i.quantity) items

abbrev pub sale_stored : Sale → List SaleItem → NovaDb → NovaDb
sale_stored sale items db = record db {
  shop = record db.shop {
    sales = db.shop.sales ++ sale ∷ [];
    products_sold = db.shop.products_sold ++ sold_rows sale.id items;
  };
}

-- The transaction: a value that a column refuses, or a product that comes twice, which breaks the
-- lines' primary key, is an error of the database, and nothing is kept.
abbrev pub insert_sale : Sale → List SaleItem → NovaDb → Outcome String × NovaDb
insert_sale sale items db =
    if not (fits_sale sale)
    then (thrown (unhandled "a column of sales"), db)
    else if not (fit_quantities items)
    then (thrown (unhandled "a column of products_sold"), db)
    else if has_duplicates (product_ids items)
    then (thrown (unhandled "duplicate key"), db)
    else (returned sale.id, sale_stored sale items db)

abbrev pub created_sale : Outcome String × NovaDb → Outcome SaleDto × NovaDb
created_sale (thrown e, db) = (thrown e, db)
created_sale (returned id, db) = get_sale_by_id id db

abbrev pub with_total : String → CreateSaleInput → Option ℤ → NovaAction SaleDto
with_total fresh input none db = (thrown (unhandled "Invalid decimal value"), db)
with_total fresh input (some cents) db =
    created_sale
      (insert_sale (sale_row fresh input (scaled_big_int_to_decimal cents 2)) input.items db)

abbrev pub with_lines : String → CreateSaleInput → Outcome (List ReceiptLine) → NovaAction SaleDto
with_lines fresh input (thrown e) db = (thrown e, db)
with_lines fresh input (returned lines) db =
    with_total fresh input (compute_receipt_total_cents lines (some input.discount_applied)) db

abbrev pub for_customer : String → CreateSaleInput → Option Customer → NovaAction SaleDto
for_customer fresh input none db = (thrown (validation "The selected customer does not exist."), db)
for_customer fresh input (some customer) db =
    with_lines fresh input (lines_of (price_by_id db.shop (product_ids input.items)) input.items) db

-- `fresh` is the id of the new sale.
unfoldable pub create_sale : String → CreateSaleInput → NovaAction SaleDto
create_sale fresh input db = for_customer fresh input (customer_by_id db.shop input.customer_id) db
