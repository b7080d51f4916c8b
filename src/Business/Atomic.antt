-- ===== src/Business/Atomic.antt =====
-- A service that ends in an error leaves the business database as it was, when the caller is pinned to
-- a profile, as the gateway's callers are.
use at_nova_platform.Prelude.{
  has_duplicates, String, ◌==◌, true, ◌≡◌, refl, ap, List, Option, none, some, is_some, inl, inr,
  eq_refl, Bool-cases, Option-cases, find-last, find-map, get_or, if◌then◌else◌,
}
use at_nova_platform.Business.{
  Customer, IssueAction, CustomerIssue, Sop, Sale, customer_by_id, action_by_id, issue_by_id,
  sop_by_id, sop_by_name, sale_by_id,
}
use at_nova_platform.Business.Actions.{
  Fresh, CreateActionInput, UpdateActionInput, AddCommentInput, found_action, insert_action,
  action_row, create_for, update_actions, is_known_owner, patch_action, update_for, comment_for,
  create_action, update_action, add_comment,
}
use at_nova_platform.Business.Issues.{
  CreateIssueInput, UpdateIssueInput, found_issue, issue_row, insert_issue, update_issues,
  patch_issue, create_issue, update_issue,
}
use at_nova_platform.Business.Sops.{
  CreateSopInput, UpdateSopInput, found_sop, sop_row, clashes, update_sops, patch_sop,
  create_sop_for, create_sop, update_sop, add_version_for, add_version,
}
use at_nova_platform.Business.Sales.{found_sale}
use at_nova_platform.Business.Sales.Create.{
  SaleItem, CreateSaleInput, product_ids, price_by_id, lines_of, sale_row, insert_sale, sale_stored,
  fits_sale, fit_quantities, created_sale, with_total, with_lines, for_customer, create_sale,
}
use at_nova_platform.Prelude.Integers.{ℤ}
use at_nova_platform.Money.{ReceiptLine, scaled_big_int_to_decimal, compute_receipt_total_cents}
use at_nova_platform.Rbac.Authorize.{AuthContext}
use at_nova_platform.Runs.Store.{
  NovaDb, UserWithRoles, Outcome, returned, thrown, NovaAction, and_then, given, find_by_id, pinned,
  resolve_current_user,
}

-- An error comes with the database as it was.
abbrev pub Atomic : {A : Type 0} → NovaDb → Outcome A × NovaDb → Type 0
Atomic db (returned a, after) = Unit
Atomic db (thrown e, after) = after ≡ db

-- The caller is looked up by the id of a profile.
pub resolve_current_user-pinned :
    (fresh id : String) (auth : AuthContext) (db : NovaDb)
    → given auth.application_user_id ≡ some id
    → resolve_current_user fresh auth db ≡ pinned (find_by_id db id) db
unfolding resolve_current_user
resolve_current_user-pinned fresh id auth db pin = rw pin refl

and_then-Atomic :
    {A : Type 0} (fresh id : String) (auth : AuthContext) (db : NovaDb)
    (k : UserWithRoles → NovaAction A)
    → given auth.application_user_id ≡ some id
    → ((u : UserWithRoles) → Atomic db (k u db))
    → Atomic db (and_then (resolve_current_user fresh auth db) k)
and_then-Atomic fresh id auth db k pin each = elim (Option-cases (find_by_id db id)) [
  | inl nobody ↦ rw (resolve_current_user-pinned fresh id auth db pin, nobody) refl
  | inr (u, found) ↦ rw (resolve_current_user-pinned fresh id auth db pin, found) (each u)
]

-- A lookup that hits ends in no error, whatever was written before it.
module _ (db after : NovaDb) where
  found_action-Atomic :
      (o : Option IssueAction) (a : IssueAction)
      → o ≡ some a
      → Atomic db (found_action after o, after)
  found_action-Atomic o a hit = rw hit tt

  found_issue-Atomic :
      (o : Option CustomerIssue) (i : CustomerIssue)
      → o ≡ some i
      → Atomic db (found_issue after o, after)
  found_issue-Atomic o i hit = rw hit tt

  found_sop-Atomic : (o : Option Sop) (s : Sop) → o ≡ some s → Atomic db (found_sop after o, after)
  found_sop-Atomic o s hit = rw hit tt

  found_sale-Atomic :
      (o : Option Sale) (s : Sale) → o ≡ some s → Atomic db (found_sale after.shop o, after)
  found_sale-Atomic o s hit = rw hit tt

hit : {A : Type 0} (o : Option A) → is_some o ≡ true → (a : A) × (o ≡ some a)
hit none h = cc
hit (some a) h = (a, refl)

-- A change of the row with an id leaves every row its id.
keeps_id :
    {A : Type 0} (name : A → String) (id : String) (change : A → A)
    → ((a : A) → name (change a) ≡ name a)
    → (a : A) → (id == name (if id == name a then change a else a)) ≡ (id == name a)
keeps_id name id change same a = elim (Bool-cases (id == name a)) [
  | inl here ↦ rw (here, same a) here
  | inr other ↦ rw other other
]

module _ (fresh : Fresh) (auth : AuthContext) (db : NovaDb) (pin : String)
    (has_pin : given auth.application_user_id ≡ some pin) where
  create_for-Atomic :
      (input : CreateActionInput) (u : UserWithRoles) → Atomic db (create_for fresh input u db)
  create_for-Atomic input u =
      let owner = get_or input.assigned_owner_id u.user.id in
      let row = action_row fresh input owner u.user.id in
      let (a, found) =
        find-last (λ (a : IssueAction). fresh.row == a.id) row db.shop.actions
          (eq_refl fresh.row) in
      elim (Bool-cases (is_some (find_by_id db owner))) [
        | inl known ↦ rw known (found_action-Atomic db (insert_action row db) _ a found)
        | inr unknown ↦ rw unknown refl
      ]

  pub create_action-Atomic :
      (input : CreateActionInput) → Atomic db (create_action fresh input auth db)
  unfolding create_action
  create_action-Atomic input = elim (Bool-cases (is_some (issue_by_id db.shop input.issue_id))) [
    | inl there ↦ rw there (
        and_then-Atomic fresh.profile pin auth db (create_for fresh input) has_pin
          (create_for-Atomic input))
    | inr absent ↦ rw absent refl
  ]

  update_for-Atomic :
      (id : String) (input : UpdateActionInput) (a : IssueAction) (u : UserWithRoles)
      → action_by_id db.shop id ≡ some a
      → Atomic db (update_for id input u db)
  update_for-Atomic id input a u found =
      found_action-Atomic db (update_actions id input u.user.id db) _ _ (
        find-map (λ (a : IssueAction). id == a.id)
          (λ (a : IssueAction). if id == a.id then patch_action input u.user.id a else a)
          db.shop.actions a
          (keeps_id (λ (a : IssueAction). a.id) id (patch_action input u.user.id) (λ a. refl))
          found)

  pub update_action-Atomic :
      (id : String) (input : UpdateActionInput) → Atomic db (update_action fresh id input auth db)
  unfolding update_action
  update_action-Atomic id input = elim (Option-cases (action_by_id db.shop id)) [
    | inl absent ↦ rw absent refl
    | inr (a, found) ↦ elim (Bool-cases (is_known_owner db input.assigned_owner_id)) [
      | inl known ↦
          rw (ap (λ o. is_some o) found, known)
            (and_then-Atomic fresh.profile pin auth db (update_for id input) has_pin
              (λ u. update_for-Atomic id input a u found))
      | inr unknown ↦ rw (ap (λ o. is_some o) found, unknown) refl
    ]
  ]

  pub add_comment-Atomic :
      (id : String) (input : AddCommentInput) → Atomic db (add_comment fresh id input auth db)
  unfolding add_comment
  add_comment-Atomic id input = elim (Bool-cases (is_some (action_by_id db.shop id))) [
    | inl there ↦
        rw there
          (and_then-Atomic fresh.profile pin auth db (comment_for fresh id input) has_pin (λ u. tt))
    | inr absent ↦ rw absent refl
  ]

  create_sop_for-Atomic :
      (input : CreateSopInput) (u : UserWithRoles) → Atomic db (create_sop_for fresh input u db)
  create_sop_for-Atomic input u =
      let (s, found) =
        find-last (λ (s : Sop). fresh.row == s.id) (sop_row fresh.row input) db.shop.sops
          (eq_refl fresh.row) in
      found_sop-Atomic db _ _ s found

  pub create_sop-Atomic : (input : CreateSopInput) → Atomic db (create_sop fresh input auth db)
  unfolding create_sop
  create_sop-Atomic input = elim (Bool-cases (is_some (sop_by_name db.shop input.name))) [
    | inl clash ↦ rw clash refl
    | inr free ↦ rw free (
        and_then-Atomic fresh.profile pin auth db (create_sop_for fresh input) has_pin
          (create_sop_for-Atomic input))
  ]

  pub add_version-Atomic : (id text : String) → Atomic db (add_version fresh id text auth db)
  unfolding add_version
  add_version-Atomic id text = elim (Bool-cases (is_some (sop_by_id db.shop id))) [
    | inl there ↦ rw there (
        and_then-Atomic fresh.profile pin auth db (add_version_for fresh id text) has_pin (λ u. tt))
    | inr absent ↦ rw absent refl
  ]

module _ (fresh : Fresh) (db : NovaDb) where
  pub create_issue-Atomic : (input : CreateIssueInput) → Atomic db (create_issue fresh input db)
  unfolding create_issue
  create_issue-Atomic input =
      let (i, found) =
        find-last (λ (i : CustomerIssue). fresh.row == i.id) (issue_row fresh.row input)
          db.shop.issues (eq_refl fresh.row) in
      elim (Bool-cases (is_some (sale_by_id db.shop input.sales_id))) [
        | inl there ↦
            rw there (found_issue-Atomic db (insert_issue (issue_row fresh.row input) db) _ i found)
        | inr absent ↦ rw absent refl
      ]

  pub update_issue-Atomic :
      (id : String) (input : UpdateIssueInput) → Atomic db (update_issue fresh id input db)
  unfolding update_issue
  update_issue-Atomic id input = elim (Option-cases (issue_by_id db.shop id)) [
    | inl absent ↦ rw absent refl
    | inr (i, found) ↦
        let kept =
          find-map (λ (i : CustomerIssue). id == i.id)
            (λ (i : CustomerIssue). if id == i.id then patch_issue input fresh.now i else i)
            db.shop.issues i
            (keeps_id (λ (i : CustomerIssue). i.id) id (patch_issue input fresh.now) (λ i. refl))
            found in
        rw (ap (λ o. is_some o) found)
          (found_issue-Atomic db (update_issues id input fresh.now db) _ _ kept)
  ]

  pub update_sop-Atomic :
      (id : String) (input : UpdateSopInput) → Atomic db (update_sop id input db)
  unfolding update_sop
  update_sop-Atomic id input = elim (Option-cases (sop_by_id db.shop id)) [
    | inl absent ↦ rw absent refl
    | inr (s, found) ↦
        let kept =
          find-map (λ (s : Sop). id == s.id)
            (λ (s : Sop). if id == s.id then patch_sop input s else s) db.shop.sops s
            (keeps_id (λ (s : Sop). s.id) id (patch_sop input) (λ s. refl)) found in
        elim (Bool-cases (clashes db.shop id s input.name)) [
          | inl clash ↦ rw (found, clash) refl
          | inr free ↦ rw (found, free) (found_sop-Atomic db (update_sops id input db) _ _ kept)
        ]
  ]

  created_sale-Atomic :
      (sale : Sale) (items : List SaleItem) → Atomic db (created_sale (insert_sale sale items db))
  created_sale-Atomic sale items =
      let (s, found) =
        find-last (λ (s : Sale). sale.id == s.id) sale db.shop.sales (eq_refl sale.id) in
      elim (Bool-cases (fits_sale sale)) [
        | inr wide ↦ rw wide refl
        | inl fits ↦ elim (Bool-cases (fit_quantities items)) [
          | inr many ↦ rw (fits, many) refl
          | inl few ↦ elim (Bool-cases (has_duplicates (product_ids items))) [
            | inl twice ↦ rw (fits, few, twice) refl
            | inr once ↦
                rw (fits, few, once) (found_sale-Atomic db (sale_stored sale items db) _ s found)
          ]
        ]
      ]

  with_total-Atomic :
      (input : CreateSaleInput) (total : Option ℤ) → Atomic db (with_total fresh.row input total db)
  with_total-Atomic input none = refl
  with_total-Atomic input (some cents) =
      created_sale-Atomic (sale_row fresh.row input (scaled_big_int_to_decimal cents 2)) input.items

  with_lines-Atomic :
      (input : CreateSaleInput) (lines : Outcome (List ReceiptLine))
      → Atomic db (with_lines fresh.row input lines db)
  with_lines-Atomic input (thrown e) = refl
  with_lines-Atomic input (returned lines) =
      with_total-Atomic input (compute_receipt_total_cents lines (some input.discount_applied))

  for_customer-Atomic :
      (input : CreateSaleInput) (o : Option Customer)
      → Atomic db (for_customer fresh.row input o db)
  for_customer-Atomic input none = refl
  for_customer-Atomic input (some customer) =
      with_lines-Atomic input (lines_of (price_by_id db.shop (product_ids input.items)) input.items)

  pub create_sale-Atomic : (input : CreateSaleInput) → Atomic db (create_sale fresh.row input db)
  unfolding create_sale
  create_sale-Atomic input = for_customer-Atomic input (customer_by_id db.shop input.customer_id)
