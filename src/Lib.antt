-- ===== src/Lib.antt =====
-- The authorization, query and agent-run core of the AT Nova platform, as definitions and theorems.
--
-- The platform's API answers the browser and the agents. Authorization is policy in the database: roles
-- grant permissions, capabilities and routes and views require them. A user's request for an agent
-- run captures an entitlement snapshot; the planes that act later read it back, verify its hash and
-- its time, and decide from it alone. Agents read data through a server that runs SELECT statements
-- after a check of the parse tree and of the views that it names.
--
-- Which file models which part (paths from the repository's root):
--   Rbac            backend-services/api/src/rbac/rbac-registry.ts: the registry and its lookups;
--                   Rbac/Resolve has its laws
--   Rbac/Authorize  backend-services/api/src/auth/authorize.ts and route-policy.ts: `authorize` is the
--                   middleware, with its log lines as values; Rbac/Authorize/Deny has its laws
--   Admin           backend-services/api/src/modules/admin/rbac-admin.service.ts: one function for each
--                   operation, from the tables to an error or the tables and an audit entry; `mutate`
--                   is the transaction; Admin/Tables has the tables, Admin/Bindings the operations on
--                   capabilities, routes and views, and `work`, the controller's choice
--   Sql, Json       backend-services/db-mcp-server/src/sql/validate-select.ts over JSON trees
--   Limits          backend-services/db-mcp-server/src/sql/limits.ts: the byte cap
--   Query           backend-services/db-mcp-server/src/tools/register-tools.ts (`run_select_query`) with
--                   auth/authorize.ts and auth/view-access.ts; it uses Sql and Limits
--   Runs            backend-services/api/src/modules/agent-runs/agent-run.repository.ts and the entities of
--                   packages/database/src/agents; Runs/Snapshot, Runs/Store (users and
--                   conversations), Runs/Gateway (tool-gateway.service.ts) and Runs/Service
--                   (agent-run.service.ts) are built on it
--   Runs/Executor   capability-executor.ts of the same folder: Zod and Inputs are its schemas, Reports
--                   the results, Reads and Writes the handlers, Execute the `switch` with its laws
--   Business        the business tables (packages/database/src/entities) and the services on them in
--                   backend-services/api/src/modules: Business/Sales (with Create), Business/Catalog
--                   (customers and products), Business/Actions, Business/Issues, Business/Sops;
--                   Business/Atomic has the errors' law
--   Money           backend-services/api/src/lib/money.ts on texts as lists of code units
--   Catalog         backend-services/packages/shared/src/rbac: permissions, roles, capabilities and
--                   views; Catalog/Baseline is `fromStaticCatalog`
--   Registry        backend-services/api/src/rbac/rbac-registry.service.ts and registry-holder.ts: the load,
--                   the refresh and the polls of an instance; Registry/Steps orders them with
--                   changes by a step relation, torn loads included, Registry/Reconcile is route-policy-reconciler.ts,
--                   Registry/Claims auth/auth-context.ts
--   Http            backend-services/api/src/http/pagination.ts
--   Prelude         shared names, lists on native numbers, sets and maps of texts
--
-- State is a record of tables, each a list of rows; an operation takes the tables and returns a
-- value or an error with the tables after it. Where a TypeScript method throws inside a transaction,
-- the error has no tables. Times are milliseconds, ids of new rows are arguments.
--
-- Parameters stand for code outside the repository: the PostgreSQL parser, `JSON.stringify`, SHA-256,
-- the printing of numbers, `trim` and `toLowerCase`, the argument schema (zod) and the database behind
-- the query tool, what zod decides on a single text, and PostgreSQL's ILIKE. The capability
-- executor is an argument of the gateway, the catalog of capabilities and the wrapping of a
-- statement are arguments of the query tool.
--
-- Fuel: printing a number runs on one round more than the number, enough since each divides by ten;
-- the byte cap runs on fuel, and a round for each row and one more is enough whenever the
-- first row fits; the paged trace runs on one round more than there are events, and each page but
-- the last holds an event.
--
-- Not modelled: HTTP wiring and the rate limiter, token verification, Keycloak, the event stream's
-- timers, the frontend, and the Python planes. Timestamps that no decision reads are left out of
-- the rows, and so are the widths of columns other than those of sales and the formatting of numeric
-- ones. A write that the database refuses is an error only where a comment says so.
pub mod Prelude
pub mod Json
pub mod Limits
pub mod Runs
pub mod Sql
pub mod Rbac
pub mod Query
pub mod Admin
pub mod Money
pub mod Http
pub mod Business
pub mod Catalog
pub mod Registry
