-- ===== src/Runs/Executor/Zod.antt =====
-- The parts of zod that the capability inputs are made of. `Zod` has what the library decides on a text:
-- the forms of ids, times and numbers, and `String.trim`. A failed check is `none`.
use at_nova_platform.Prelude.{
  ℕ, String, ◌==◌, Bool, true, Option, none, some, length, leb, if◌then◌else◌,
}
use at_nova_platform.Json.{Json, undefined, null, bool, num, str, obj, Fields, lookup_field}
use at_nova_platform.Money.{units}
use at_nova_platform.Business.{
  CustomerIssueStatus, in_assistance, issue_rejected, issue_completed, IssueActionStatus, pending,
  in_progress, completed, rejected,
}

pub record Zod : Type 0 where
  pub is_uuid : String → Bool
  pub instant : String → Option ℕ
  pub positive_int : String → Option ℕ
  pub trim : String → String

infixl 5 ◌>>=◌ ◌>>◌
abbrev pub ◌>>=◌ : {A B : Type 0} → Option A → (A → Option B) → Option B
none >>= f = none
some a >>= f = f a

abbrev pub ◌>>◌ : {A B : Type 0} → Option A → Option B → Option B
a >> b = a >>= λ _. b

abbrev pub guard : Bool → Option Bool
guard b = if b then some true else none

-- `z.object`: an array is no object.
abbrev pub as_object : Json → Option Fields
as_object (obj fields) = some fields
as_object _ = none

abbrev pub map_some : {A : Type 0} → Option A → Option (Option A)
map_some none = none
map_some (some a) = some (some a)

-- `.optional()`
abbrev pub optional : {A : Type 0} → (Json → Option A) → Json → Option (Option A)
optional check undefined = some none
optional check v = map_some (check v)

-- `.default(d)`
abbrev pub default_to : {A : Type 0} → A → (Json → Option A) → Json → Option A
default_to d check undefined = some d
default_to d check v = check v

-- `.nullable()`
abbrev pub nullable : {A : Type 0} → (Json → Option A) → Json → Option (Option A)
nullable check null = some none
nullable check v = map_some (check v)

abbrev pub as_boolean : Json → Option Bool
as_boolean (bool b) = some b
as_boolean _ = none

abbrev pub as_text : Json → Option String
as_text (str s) = some s
as_text _ = none

-- `z.nativeEnum`
abbrev pub issue_status : Json → Option CustomerIssueStatus
issue_status (str s) =
    if s == "in_assistance"
    then some in_assistance
    else if s == "rejected"
    then some issue_rejected
    else if s == "completed"
    then some issue_completed
    else none
issue_status _ = none

abbrev pub action_status : Json → Option IssueActionStatus
action_status (str s) =
    if s == "pending"
    then some pending
    else if s == "in_progress"
    then some in_progress
    else if s == "completed"
    then some completed
    else if s == "rejected"
    then some rejected
    else none
action_status _ = none

module _ (zod : Zod) where
  abbrev pub uuid : Json → Option String
  uuid (str s) = if zod.is_uuid s then some s else none
  uuid _ = none

  abbrev pub datetime_of : Json → Option ℕ
  datetime_of (str s) = zod.instant s
  datetime_of _ = none

  abbrev pub positive : Json → Option ℕ
  positive (num s) = zod.positive_int s
  positive _ = none

  -- `z.string().trim().min(1)`, and with `.max(n)`
  abbrev pub nonempty : Json → Option String
  nonempty (str s) = let t = zod.trim s in if leb 1 (length (units t)) then some t else none
  nonempty _ = none

  abbrev pub at_most : ℕ → Option String → Option String
  at_most n none = none
  at_most n (some t) = if leb (length (units t)) n then some t else none

  abbrev pub text_upto : ℕ → Json → Option String
  text_upto n v = at_most n (nonempty v)

  abbrev pub id_input : String → Json → Option String
  id_input key input = do fields ← as_object input; uuid (lookup_field key fields)
