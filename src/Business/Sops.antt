-- ===== src/Business/Sops.antt =====
-- Standard operating procedures and their versions: backend-services/api/src/modules/sops (service,
-- repository, dto). `ilike` is PostgreSQL's operator on a text and a pattern.
pub mod Versions
use Prim.Native.String.{compare}
use text.Mathlib.Text.{is_le}
use at_nova_platform.Prelude.{
  ℕ, ◌+◌, String, ◌==◌, Bool, true, false, not, ◌&&◌, ◌||◌, List, [], ◌∷◌, ◌++◌, map, Option, none,
  some, length, filter, find, is_some, sort_by, get_or, eqb, leb, if◌then◌else◌,
}
use at_nova_platform.Http.Pagination.{
  PageRequest, PaginatedResult, build_paginated_result, page_slice,
}
use at_nova_platform.Business.{Sop, SopDetail, Shop, sop_by_id, sop_by_name}
use at_nova_platform.Business.Sales.{meets, same_bool}
use at_nova_platform.Business.Catalog.{pattern_of}
use at_nova_platform.Business.Actions.{Fresh, UserSummaryDto, summary_of}
use at_nova_platform.Rbac.Authorize.{AuthContext}
use at_nova_platform.Runs.Store.{
  NovaDb, UserWithRoles, not_found, conflict, Outcome, returned, thrown, NovaAction, and_then,
  given, resolve_current_user,
}

pub record SopListFilter : Type 0 where
  pub search : Option String
  pub active : Option Bool

pub record CreateSopInput : Type 0 where
  pub name : String
  pub description : String
  pub active : Bool
  pub full_text : String

pub record UpdateSopInput : Type 0 where
  pub name : Option String
  pub description : Option String
  pub active : Option Bool

pub record SopDetailDto : Type 0 where
  pub detail : SopDetail
  pub created_by : Option UserSummaryDto

pub record SopDto : Type 0 where
  pub sop : Sop
  pub details : List SopDetailDto
  pub latest_version : Option ℕ

abbrev pub to_sop_detail_dto : NovaDb → SopDetail → SopDetailDto
to_sop_detail_dto db d = record { detail = d; created_by = summary_of db d.created_by_id }

-- A list loads the details without their authors.
abbrev pub to_listed_detail_dto : SopDetail → SopDetailDto
to_listed_detail_dto d = record { detail = d; created_by = none }

abbrev pub details_of : Shop → String → List SopDetail
details_of shop id = filter (λ (d : SopDetail). id == d.sop_id) shop.sop_details

-- `details.sort((a, b) => b.version - a.version)`
abbrev pub latest_first : List SopDetail → List SopDetail
latest_first details = sort_by (λ (a : SopDetail) (b : SopDetail). leb b.version a.version) details

abbrev pub first_version : List SopDetail → Option ℕ
first_version [] = none
first_version (d ∷ ds) = some d.version

abbrev pub to_sop_dto : (SopDetail → SopDetailDto) → Shop → Sop → SopDto
to_sop_dto detail_dto shop sop =
    let details = latest_first (details_of shop sop.id) in
    record { sop = sop; details = map detail_dto details; latest_version = first_version details }

abbrev pub sop_matches : (String → String → Bool) → SopListFilter → Sop → Bool
sop_matches ilike filter_by s =
    meets (given filter_by.search)
      (λ search. ilike s.name (pattern_of search) || ilike s.description (pattern_of search))
    && meets filter_by.active (λ active. same_bool active s.active)

abbrev pub matching_sops : (String → String → Bool) → Shop → SopListFilter → List Sop
matching_sops ilike shop filter_by =
    sort_by (λ (a : Sop) (b : Sop). is_le (compare a.name b.name))
      (filter (sop_matches ilike filter_by) shop.sops)

abbrev pub list_sops :
    (String → String → Bool) → SopListFilter → PageRequest → NovaAction (PaginatedResult SopDto)
list_sops ilike filter_by request db =
    let rows = matching_sops ilike db.shop filter_by in
    (
      returned (
          build_paginated_result
            (map (to_sop_dto to_listed_detail_dto db.shop) (page_slice request rows)) (length rows)
            request),
      db,
    )

abbrev pub found_sop : NovaDb → Option Sop → Outcome SopDto
found_sop db none = thrown (not_found "SOP not found.")
found_sop db (some sop) = returned (to_sop_dto (to_sop_detail_dto db) db.shop sop)

abbrev pub get_sop_by_id : String → NovaAction SopDto
get_sop_by_id id db = (found_sop db (sop_by_id db.shop id), db)

abbrev pub sop_row : String → CreateSopInput → Sop
sop_row fresh input = record {
  id = fresh;
  name = input.name;
  active = input.active;
  description = input.description;
}

abbrev pub detail_row : String → ℕ → String → ℕ → String → SopDetail
detail_row sop_id version full_text now user_id = record {
  sop_id = sop_id;
  version = version;
  full_text = full_text;
  date_of_creation = now;
  created_by_id = user_id;
}

abbrev pub insert_sop : Sop → SopDetail → NovaDb → NovaDb
insert_sop sop detail db = record db {
  shop = record db.shop {
    sops = db.shop.sops ++ sop ∷ [];
    sop_details = db.shop.sop_details ++ detail ∷ [];
  };
}

abbrev pub create_sop_for : Fresh → CreateSopInput → UserWithRoles → NovaAction SopDto
create_sop_for fresh input caller db = get_sop_by_id fresh.row (
    insert_sop (sop_row fresh.row input)
      (detail_row fresh.row 1 input.full_text fresh.now caller.user.id) db)

unfoldable pub create_sop : Fresh → CreateSopInput → AuthContext → NovaAction SopDto
create_sop fresh input auth db =
    if is_some (sop_by_name db.shop input.name)
    then (thrown (conflict "A SOP with this name already exists."), db)
    else and_then (resolve_current_user fresh.profile auth db) (create_sop_for fresh input)

abbrev pub is_other : String → Option Sop → Bool
is_other id none = false
is_other id (some clash) = not (id == clash.id)

-- A new name that another procedure has.
abbrev pub clashes : Shop → String → Sop → Option String → Bool
clashes shop id sop none = false
clashes shop id sop (some name) = not (name == sop.name) && is_other id (sop_by_name shop name)

abbrev pub patch_sop : UpdateSopInput → Sop → Sop
patch_sop input s = record s {
  name = get_or input.name s.name;
  description = get_or input.description s.description;
  active = get_or input.active s.active;
}

-- The schemas of both callers ask for at least one field.
abbrev pub update_sops : String → UpdateSopInput → NovaDb → NovaDb
update_sops id input db = record db {
  shop = record db.shop {
    sops = map (λ (s : Sop). if id == s.id then patch_sop input s else s) db.shop.sops;
  };
}

abbrev pub update_found_sop : String → UpdateSopInput → Option Sop → NovaAction SopDto
update_found_sop id input none db = (thrown (not_found "SOP not found."), db)
update_found_sop id input (some sop) db =
    if clashes db.shop id sop input.name
    then (thrown (conflict "A SOP with this name already exists."), db)
    else get_sop_by_id id (update_sops id input db)

unfoldable pub update_sop : String → UpdateSopInput → NovaAction SopDto
update_sop id input db = update_found_sop id input (sop_by_id db.shop id) db

-- `(latest?.version ?? 0) + 1`
abbrev pub next_version : Shop → String → ℕ
next_version shop id = get_or (first_version (latest_first (details_of shop id))) 0 + 1

abbrev pub add_version_for : Fresh → String → String → UserWithRoles → NovaAction SopDetailDto
add_version_for fresh id full_text caller db =
    let row = detail_row id (next_version db.shop id) full_text fresh.now caller.user.id in
    let after = record db {
      shop = record db.shop { sop_details = db.shop.sop_details ++ row ∷ [] };
    } in
    (returned (to_sop_detail_dto after row), after)

unfoldable pub add_version : Fresh → String → String → AuthContext → NovaAction SopDetailDto
add_version fresh id full_text auth db =
    if is_some (sop_by_id db.shop id)
    then (and_then (resolve_current_user fresh.profile auth db)
        (add_version_for fresh id full_text))
    else (thrown (not_found "SOP not found."), db)
