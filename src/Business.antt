-- ===== src/Business.antt =====
-- The business tables (backend-services/packages/database/src/entities) and their keys. A `numeric`
-- column holds the text that was written; the column's own formatting is left out.

mod Tests
pub mod Sales
pub mod Catalog
pub mod Actions
pub mod Issues
pub mod Sops
pub mod Atomic
use at_nova_platform.Prelude.{ℕ, String, ◌==◌, Bool, true, false, ◌&&◌, List, Option, find, eqb}
use at_nova_platform.Money.{Units}

pub record Customer : Type 0 where
  pub id : String
  pub email : String
  pub full_name : String
  pub first_name : String
  pub last_name : String
  pub age : Option ℕ
  pub active : Bool
  pub created_at : ℕ

pub record Product : Type 0 where
  pub id : String
  pub name : String
  pub description : Option String
  pub category : String
  pub price : Units
  pub in_catalog : Bool

pub record Sale : Type 0 where
  pub id : String
  pub customer_id : String
  pub discount_applied : Option Units
  pub date : ℕ
  pub total_amount_receipt : Units
  pub payment_received : Bool
  pub date_of_payment : Option ℕ

pub record ProductSold : Type 0 where
  pub sale_id : String
  pub product_id : String
  pub quantity : ℕ

pub data CustomerIssueStatus : Type 0 where
  in_assistance issue_rejected issue_completed : CustomerIssueStatus

pub record CustomerIssue : Type 0 where
  pub id : String
  pub sales_id : String
  pub description : String
  pub date_raised : ℕ
  pub date_last_update : ℕ
  pub status : CustomerIssueStatus

pub data IssueActionStatus : Type 0 where
  pending in_progress completed rejected : IssueActionStatus

pub record IssueAction : Type 0 where
  pub id : String
  pub issue_id : String
  pub title : String
  pub description : String
  pub status : IssueActionStatus
  pub updated_by_id : Option String
  pub updated_ai : Bool
  pub created_date : ℕ
  pub assigned_owner_id : String

pub record ActionComment : Type 0 where
  pub id : String
  pub issue_action_id : String
  pub user_id : String
  pub comment : String
  pub datetime : ℕ

pub record Sop : Type 0 where
  pub id : String
  pub name : String
  pub active : Bool
  pub description : String

pub record SopDetail : Type 0 where
  pub sop_id : String
  pub version : ℕ
  pub full_text : String
  pub date_of_creation : ℕ
  pub created_by_id : String

-- `dependencies` are pairs of an action and one that it depends on.
pub record Shop : Type 0 where
  pub customers : List Customer
  pub products : List Product
  pub sales : List Sale
  pub products_sold : List ProductSold
  pub issues : List CustomerIssue
  pub actions : List IssueAction
  pub comments : List ActionComment
  pub dependencies : List (String × String)
  pub sops : List Sop
  pub sop_details : List SopDetail

-- `findOne({ where: { id } })` of each table.
abbrev pub customer_by_id : Shop → String → Option Customer
customer_by_id shop id = find (λ (c : Customer). id == c.id) shop.customers

abbrev pub product_by_id : Shop → String → Option Product
product_by_id shop id = find (λ (p : Product). id == p.id) shop.products

abbrev pub sale_by_id : Shop → String → Option Sale
sale_by_id shop id = find (λ (s : Sale). id == s.id) shop.sales

abbrev pub issue_by_id : Shop → String → Option CustomerIssue
issue_by_id shop id = find (λ (i : CustomerIssue). id == i.id) shop.issues

abbrev pub action_by_id : Shop → String → Option IssueAction
action_by_id shop id = find (λ (a : IssueAction). id == a.id) shop.actions

abbrev pub sop_by_id : Shop → String → Option Sop
sop_by_id shop id = find (λ (s : Sop). id == s.id) shop.sops

abbrev pub sop_by_name : Shop → String → Option Sop
sop_by_name shop name = find (λ (s : Sop). name == s.name) shop.sops
