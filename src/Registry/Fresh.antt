-- ===== src/Registry/Fresh.antt =====
-- An instance catches up with the tables: `refresh` and `pollForChanges` of rbac-registry.service.ts.
use at_nova_platform.Prelude.{
  ℕ, suc, ◌≤◌, ◌<◌, ◌≡◌, ◌⊎◌, refl, sym, ◌∙◌, Bool, true, false, Option, none, some, eqb, arith,
  Bool-cases, inl, inr,
}
use at_nova_platform.Rbac.{new_registry}
use at_nova_platform.Admin.Tables.{RbacDb}
use at_nova_platform.Admin.{RbacActor, ok, mutate}
use at_nova_platform.Admin.Bindings.{Op, work}
use at_nova_platform.Admin.Integrity.{IsConsistent}
use at_nova_platform.Admin.Guard.{mutate-IsSound}
use at_nova_platform.Registry.{
  Reads, reads_of, read_revision, load_data, Instance, new_instance, refresh_from, poll_for_changes,
}
use at_nova_platform.Registry.Steps.{
  System, registry_of, polled, is_current, IsPast, Step, changed, refreshed, refreshed_torn,
  poll_passed, poll_torn, poll_failed, Reach, started, started_torn, later,
}

-- The instance is behind the tables; when it is not, and no load was torn, it holds their registry.
pub record IsBehind (s : System) : Type 0 where
  pub consistent : IsConsistent s.db
  pub shared : s.instance_.active ≡ s.instance_.current
  pub behind : s.instance_.current.policy.revision ≤ s.db.revision
  pub loaded :
      s.torn ≡ false
      → s.instance_.current.policy.revision ≡ s.db.revision
      → s.instance_.current ≡ registry_of s.db

revision-new_registry :
    (reads : Reads)
    → (new_registry (load_data reads)).policy.revision ≡ read_revision reads.revision_row
unfolding new_registry load_data
revision-new_registry reads = refl

IsBehind-refresh :
    (db : RbacDb) (i : Instance)
    → IsConsistent db
    → IsBehind (record { db = db; instance_ = refresh_from (reads_of db) i; torn = false })
IsBehind-refresh db i c = record {
  consistent = c;
  shared = refl;
  behind = omega (arith, revision-new_registry (reads_of db));
  loaded = λ _ _. refl;
}

IsBehind-torn :
    (db : RbacDb) (i : Instance)
    → IsConsistent db
    → i.active ≡ i.current
    → i.current.policy.revision ≤ db.revision
    → IsBehind (record { db = db; instance_ = i; torn = true })
IsBehind-torn db i c shared behind = record {
  consistent = c;
  shared = shared;
  behind = behind;
  loaded = λ e. cc;
}

-- A change elsewhere puts the tables ahead.
IsBehind-changed :
    (s : System) (after : RbacDb)
    → IsBehind s
    → IsConsistent after
    → after.revision ≡ suc s.db.revision
    → IsBehind (record { db = after; instance_ = s.instance_; torn = s.torn })
IsBehind-changed s after b c counted = record {
  consistent = c;
  shared = b.shared;
  behind = omega (arith, b.behind, counted);
  loaded = λ _ e. absurd (omega (arith, b.behind, counted, e));
}

eqb→eq : (a b : ℕ) → eqb a b ≡ true → a ≡ b
eqb→eq a b h = ground arith

lt→not_eqb : (a b : ℕ) → b < a → eqb a b ≡ false
lt→not_eqb a b h = ground arith

-- A poll either keeps the instance or loads what was read.
poll_for_changes-cases :
    (row : Option ℕ) (reads : Reads) (i : Instance)
    → ((eqb (read_revision row) i.current.policy.revision ≡ true)
        × (poll_for_changes (some row) (some reads) i ≡ i))
      ⊎ ((eqb (read_revision row) i.current.policy.revision ≡ false)
          × (poll_for_changes (some row) (some reads) i ≡ refresh_from reads i))
unfolding poll_for_changes
poll_for_changes-cases row reads i =
    elim (Bool-cases (eqb (read_revision row) i.current.policy.revision)) [
      | inl same ↦ inl (same, rw same refl)
      | inr other ↦ inr (other, rw other refl)
    ]

-- A poll that fails keeps the registry.
poll_failed-same : (row : Option (Option ℕ)) (i : Instance) → poll_for_changes row none i ≡ i
unfolding poll_for_changes
poll_failed-same none i = refl
poll_failed-same (some row) i = ground arith

IsBehind-kept :
    (s : System) (i : Instance) (torn : Bool)
    → i ≡ s.instance_
    → torn ≡ s.torn
    → IsBehind s
    → IsBehind (record { db = s.db; instance_ = i; torn = torn })
IsBehind-kept s i torn same as_torn b = rw (same, as_torn) b

IsBehind-taken :
    (s : System) (reads : Reads) (i : Instance) (torn : Bool)
    → IsPast s.db reads.revision_row
    → i ≡ refresh_from reads s.instance_
    → torn ≡ true
    → IsBehind s
    → IsBehind (record { db = s.db; instance_ = i; torn = torn })
IsBehind-taken s reads i torn past same as_torn b =
    rw (same, as_torn)
      (IsBehind-torn s.db (refresh_from reads s.instance_) b.consistent refl
        (omega (arith, past, revision-new_registry reads)))

IsBehind-loaded :
    (db : RbacDb) (i j : Instance) (torn : Bool)
    → IsConsistent db
    → j ≡ refresh_from (reads_of db) i
    → torn ≡ false
    → IsBehind (record { db = db; instance_ = j; torn = torn })
IsBehind-loaded db i j torn c same whole = rw (same, whole) (IsBehind-refresh db i c)

pub Step-IsBehind : {s t : System} → Step s t → IsBehind s → IsBehind t
Step-IsBehind {s} (changed actor op {after} went) b =
    let sound = mutate-IsSound actor op s.db after b.consistent went in
    IsBehind-changed s after b sound.consistent sound.counted
Step-IsBehind {s} refreshed b = IsBehind-refresh s.db s.instance_ b.consistent
Step-IsBehind {s} (refreshed_torn reads past) b =
    IsBehind-taken s reads (refresh_from reads s.instance_) true past refl refl b
Step-IsBehind {s} poll_passed b =
    elim (poll_for_changes-cases (some s.db.revision) (reads_of s.db) s.instance_) [
      | inl (same, kept) ↦ IsBehind-kept s (polled s) _ kept (rw same refl) b
      | inr (other, read) ↦
          IsBehind-loaded s.db s.instance_ (polled s) _ b.consistent read (rw other refl)
    ]
Step-IsBehind {s} (poll_torn row reads past) b =
    elim (poll_for_changes-cases row reads s.instance_) [
      | inl (same, kept) ↦
          IsBehind-kept s (poll_for_changes (some row) (some reads) s.instance_) _ kept
            (rw same refl) b
      | inr (other, read) ↦
          IsBehind-taken s reads (poll_for_changes (some row) (some reads) s.instance_) _ past read
            (rw other refl) b
    ]
Step-IsBehind {s} (poll_failed row) b =
    IsBehind-kept s (poll_for_changes row none s.instance_) s.torn
      (poll_failed-same row s.instance_) refl b

pub Reach-IsBehind : {first : RbacDb} {s : System} → IsConsistent first → Reach first s → IsBehind s
Reach-IsBehind {first} c started = IsBehind-refresh first new_instance c
Reach-IsBehind {first} c (started_torn reads past) =
    IsBehind-torn first (refresh_from reads new_instance) c refl
      (omega (arith, past, revision-new_registry reads))
Reach-IsBehind c (later r step) = Step-IsBehind step (Reach-IsBehind c r)

-- What the service and the holder have when they are up to date.
abbrev pub HasRegistry : RbacDb → Instance → Type 0
HasRegistry db i = (i.current ≡ registry_of db) × (i.active ≡ registry_of db)

HasRegistry-loaded :
    (db : RbacDb) (i j : Instance) → j ≡ refresh_from (reads_of db) i → HasRegistry db j
HasRegistry-loaded db i j same = rw same (refl, refl)

HasRegistry-kept : (db : RbacDb) (i j : Instance) → j ≡ i → HasRegistry db i → HasRegistry db j
HasRegistry-kept db i j same has = rw same has

-- From tables whose references are all good, after any audited changes, refreshes and polls, failed and
-- torn ones included: a poll whose queries see one state of the tables leaves in the service and in the
-- holder the registry of the tables as they are, if the last load that the instance took was not torn
-- or the revision is not the one that it holds.
pub poll_for_changes-registry_of :
    (first : RbacDb) (s : System)
    → IsConsistent first
    → Reach first s
    → (s.torn ≡ false) ⊎ (is_current s ≡ false)
    → HasRegistry s.db (polled s)
poll_for_changes-registry_of first s c r whole_or_behind =
    let b = Reach-IsBehind c r in
    elim (poll_for_changes-cases (some s.db.revision) (reads_of s.db) s.instance_) [
      | inr (other, read) ↦ HasRegistry-loaded s.db s.instance_ (polled s) read
      | inl (same, kept) ↦ elim whole_or_behind [
        | inr behind ↦ let never : true ≡ false = sym same ∙ behind in cc
        | inl whole ↦
            let level = sym (eqb→eq s.db.revision s.instance_.current.policy.revision same) in
            let held = b.loaded whole level in
            HasRegistry-kept s.db s.instance_ (polled s) kept (held, b.shared ∙ held)
      ]
    ]

-- From tables whose references are all good, after any audited changes, refreshes and polls, failed and
-- torn ones included: once another audited change has gone through, a poll whose queries see one state of the tables
-- leaves in the service and in the holder the registry of the changed tables.
pub mutate-registry_of :
    (first : RbacDb) (s : System) (actor : RbacActor) (op : Op) (after : RbacDb)
    → IsConsistent first
    → Reach first s
    → mutate actor (work op) s.db ≡ ok after
    → HasRegistry after
        (poll_for_changes (some (some after.revision)) (some (reads_of after)) s.instance_)
mutate-registry_of first s actor op after c r went =
    let b = Reach-IsBehind c r in
    let sound = mutate-IsSound actor op s.db after b.consistent went in
    let ahead : s.instance_.current.policy.revision < after.revision =
      omega (arith, b.behind, sound.counted) in
    poll_for_changes-registry_of first
      (record { db = after; instance_ = s.instance_; torn = s.torn }) c
      (later r (changed actor op went))
      (inr (lt→not_eqb after.revision s.instance_.current.policy.revision ahead))
