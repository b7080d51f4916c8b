-- ===== src/Registry/Steps.antt =====
-- One instance beside others that change the tables: `start`, `refresh` and `pollForChanges` of
-- rbac-registry.service.ts with `mutate` of rbac-admin.service.ts, in any order. The queries of a load are no
-- transaction, so a load may be torn; the id that Keycloak gives a new role, which is written
-- without a new revision, stays out.
use at_nova_platform.Prelude.{
  ℕ, ◌≤◌, ◌≡◌, Bool, true, false, Option, none, some, eqb, if◌then◌else◌,
}
use at_nova_platform.Rbac.{RbacRegistry, new_registry}
use at_nova_platform.Admin.Tables.{RbacDb}
use at_nova_platform.Admin.{RbacActor, ok, mutate}
use at_nova_platform.Admin.Bindings.{Op, work}
use at_nova_platform.Registry.{
  Reads, reads_of, read_revision, load_data, Instance, new_instance, refresh_from, poll_for_changes,
}

-- `torn` is not state of the program: it says that the queries of the last load that the instance
-- took may have seen the tables at several moments.
pub record System : Type 0 where
  pub db : RbacDb
  pub instance_ : Instance
  pub torn : Bool

-- The registry of the tables as they are.
abbrev pub registry_of : RbacDb → RbacRegistry
registry_of db = new_registry (load_data (reads_of db))

-- A poll that reaches the database and whose queries see one state of the tables.
abbrev pub polled : System → Instance
polled s = poll_for_changes (some (some s.db.revision)) (some (reads_of s.db)) s.instance_

abbrev pub is_current : System → Bool
is_current s = eqb s.db.revision s.instance_.current.policy.revision

-- What queries that ended by now can have returned: anything under a revision that the tables have
-- had.
abbrev pub IsPast : RbacDb → Option ℕ → Type 0
IsPast db row = read_revision row ≤ db.revision

-- A change of any instance; the refresh of this one, whole or torn; and its polls, which go through,
-- are torn, or fail at the first query or at the load.
pub data Step (s : System) : System → Type 0 where
  changed :
      (actor : RbacActor) (op : Op) {after : RbacDb}
      → mutate actor (work op) s.db ≡ ok after
      → Step s (record { db = after; instance_ = s.instance_; torn = s.torn })
  refreshed :
      Step s
        (record { db = s.db; instance_ = refresh_from (reads_of s.db) s.instance_; torn = false })
  refreshed_torn :
      (reads : Reads)
      → IsPast s.db reads.revision_row
      → Step s (record { db = s.db; instance_ = refresh_from reads s.instance_; torn = true })
  poll_passed :
      Step s
        (record { db = s.db; instance_ = polled s; torn = if is_current s then s.torn else false })
  poll_torn :
      (row : Option ℕ) (reads : Reads)
      → IsPast s.db reads.revision_row
      → Step s (record {
        db = s.db;
        instance_ = poll_for_changes (some row) (some reads) s.instance_;
        torn = if eqb (read_revision row) s.instance_.current.policy.revision then s.torn else true;
      })
  poll_failed :
      (row : Option (Option ℕ))
      → Step s
          (record { db = s.db; instance_ = poll_for_changes row none s.instance_; torn = s.torn })

-- From tables over which the instance has started.
pub data Reach (first : RbacDb) : System → Type 0 where
  started :
      Reach first (record {
        db = first;
        instance_ = refresh_from (reads_of first) new_instance;
        torn = false;
      })
  started_torn :
      (reads : Reads)
      → IsPast first reads.revision_row
      → Reach first
          (record { db = first; instance_ = refresh_from reads new_instance; torn = true })
  later : {s t : System} → Reach first s → Step s t → Reach first t
