-- ===== src/Business/Sales/Create/Accepted.antt =====
-- A body that the route accepts becomes a sale with the right total.
use at_nova_platform.Prelude.{
  has_duplicates, ℕ, ◌^◌, ◌≤◌, ltb, if◌then◌else◌, ◌≡◌, String, Bool, true, false, List, map, some,
  all, has, In,
}
use at_nova_platform.Prelude.Integers.{pos}
use at_nova_platform.Money.{decimal_to_scaled_big_int, scaled_big_int_to_decimal}
use at_nova_platform.Business.{Product, Shop}
use at_nova_platform.Business.Sales.{SaleDto, to_sale_dto}
use at_nova_platform.Business.Sales.Create.{
  SaleItem, CreateSaleInput, product_ids, sale_row, sale_stored, fit_quantities,
}
use at_nova_platform.Business.Sales.Columns.{fits_discount}
use at_nova_platform.Runs.Store.{NovaDb, Outcome, returned, thrown, unhandled}

-- Every price is a decimal that is not negative.
unfoldable pub HasPrices : Shop → Type 0
HasPrices shop =
    (p : Product)
    → In p shop.products
    → (n : ℕ) × (decimal_to_scaled_big_int p.price 2 ≡ some (pos n))

-- Every item's product is in the shop.
abbrev pub known : Shop → List SaleItem → Bool
known shop items =
    all (λ (i : SaleItem). has i.product_id (map (λ (p : Product). p.id) shop.products)) items

-- What the route's checks of a body give.
record IsAccepted (body : CreateSaleInput) : Type 0 where
  c : ℕ
  bounded : c ≤ 10_000
  reads : decimal_to_scaled_big_int body.discount_applied 2 ≡ some (pos c)
  distinct : has_duplicates (product_ids body.items) ≡ false
  fits : fits_discount body.discount_applied ≡ true
  few : fit_quantities body.items ≡ true

-- What the caller gets for a total of `t` cents.
abbrev sale_answer : String → CreateSaleInput → ℕ → NovaDb → Outcome SaleDto × NovaDb
sale_answer fresh body t db =
    let sale = sale_row fresh body (scaled_big_int_to_decimal (pos t) 2) in
    let after = sale_stored sale body.items db in
    if ltb t (10 ^ 12)
    then (returned (to_sale_dto after.shop sale), after)
    else (thrown (unhandled "a column of sales"), db)
