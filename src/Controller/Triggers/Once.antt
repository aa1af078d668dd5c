-- ===== src/Controller/Triggers/Once.antt =====
-- How often a user is told to move: counts of published messages against the bits of the word.
use mec_measurements.Prelude.{
  ℕ, ◌+◌, ◌≤◌, String, Bool, false, Option, none, some, [], ◌∷◌, ◌≡◌, ◌==◌, if◌then◌else◌, count_if,
  count_if-append, arith, eq_iff,
}
use mec_measurements.Platform.{Platform}
use mec_measurements.Controller.Word.{Word}
use mec_measurements.Controller.State.{
  Message, handover, pre_migrate, migrate, Callback, Controller, PlanResult, HandoverJson,
}
use mec_measurements.Database.Queries.{ServiceJson}
use mec_measurements.Controller.Triggers.{
  trigger_handover, trigger_pre_migration, trigger_migration, fire,
}

module _ ⦃p : Platform⦄ where
  -- The messages that tell a user's service, or the user, to move.
  abbrev pub is_migrate : String → Message → Bool
  is_migrate u (migrate server json) = json.end_user == u
  is_migrate u _ = false

  abbrev pub is_pre_migrate : String → Message → Bool
  is_pre_migrate u (pre_migrate server json) = json.end_user == u
  is_pre_migrate u _ = false

  abbrev pub is_handover : String → Message → Bool
  is_handover u (handover user json) = user == u
  is_handover u _ = false

  -- 1 where the bit is not set, so that one more message may follow.
  abbrev pub room : (Word → Bool) → Option Word → ℕ
  room bit none = 1
  room bit (some m) = if bit m then 0 else 1

  -- What was published and what may still be.
  abbrev pub migrations : String → Controller → ℕ
  migrations u c = count_if (is_migrate u) c.published

  abbrev pub migrations_room : String → Controller → ℕ
  migrations_room u c = migrations u c + room (λ m. m.migrate) (c.migration_state u)

  abbrev pub pre_migrations : String → Controller → ℕ
  pre_migrations u c = count_if (is_pre_migrate u) c.published

  abbrev pub pre_migrations_room : String → Controller → ℕ
  pre_migrations_room u c = pre_migrations u c + room (λ m. m.pre_migrate) (c.migration_state u)

  abbrev pub handovers : String → Controller → ℕ
  handovers u c = count_if (is_handover u) c.published

  abbrev pub handovers_room : String → Controller → ℕ
  handovers_room u c = handovers u c + room (λ m. m.handover) (c.migration_state u)

  -- The plan and the service that a callback carries are those of one user.
  abbrev pub IsConsistent : Callback → Type 0
  IsConsistent (Callback.trigger_migration plan server json) = json.end_user ≡ plan.user
  IsConsistent _ = Unit

  trigger_migration-room :
      (u server : String) (plan : PlanResult) (json : ServiceJson) (c : Controller)
      → json.end_user ≡ plan.user
      → migrations_room u (trigger_migration plan server json c) ≤ migrations_room u c
  unfolding trigger_migration
  trigger_migration-room u server plan json c same = ground (
    arith,
    eq_iff plan.user u,
    eq_iff json.end_user u,
    count_if-append (is_migrate u) c.published (migrate server json ∷ []),
  )

  trigger_handover-room :
      (u user : String) (json : HandoverJson) (c : Controller)
      → handovers_room u (trigger_handover user json c) ≤ handovers_room u c
  unfolding trigger_handover
  trigger_handover-room u user json c =
      ground (
        arith,
        eq_iff user u,
        count_if-append (is_handover u) c.published (handover user json ∷ []),
      )

  trigger_pre_migration-room :
      (u server : String) (json : ServiceJson) (c : Controller)
      → pre_migrations_room u (trigger_pre_migration server json c) ≤ pre_migrations_room u c
  unfolding trigger_pre_migration
  trigger_pre_migration-room u server json c = ground (
    arith,
    eq_iff json.end_user u,
    count_if-append (is_pre_migrate u) c.published (pre_migrate server json ∷ []),
  )

  -- The three rooms of a user do not grow.
  pub record NoMore (u : String) (before after : Controller) : Type 0 where
    pub migrations : migrations_room u after ≤ migrations_room u before
    pub pre_migrations : pre_migrations_room u after ≤ pre_migrations_room u before
    pub handovers : handovers_room u after ≤ handovers_room u before

  pub fire-NoMore :
      (u : String) (call : Callback) (c : Controller) → IsConsistent call → NoMore u c (fire call c)
  unfolding fire
  fire-NoMore u (Callback.trigger_handover user json) c same = record {
    migrations = ground (
      arith,
      eq_iff user u,
      count_if-append (is_migrate u) c.published (handover user json ∷ []),
    );
    pre_migrations = ground (
      arith,
      eq_iff user u,
      count_if-append (is_pre_migrate u) c.published (handover user json ∷ []),
    );
    handovers = trigger_handover-room u user json c;
  }
  fire-NoMore u (Callback.trigger_pre_migration server json) c same = record {
    migrations = ground (
      arith,
      eq_iff json.end_user u,
      count_if-append (is_migrate u) c.published (pre_migrate server json ∷ []),
    );
    pre_migrations = trigger_pre_migration-room u server json c;
    handovers = ground (
      arith,
      eq_iff json.end_user u,
      count_if-append (is_handover u) c.published (pre_migrate server json ∷ []),
    );
  }
  fire-NoMore u (Callback.trigger_migration plan server json) c same = record {
    migrations = trigger_migration-room u server plan json c same;
    pre_migrations = ground (
      arith,
      eq_iff plan.user u,
      count_if-append (is_pre_migrate u) c.published (migrate server json ∷ []),
    );
    handovers = ground (
      arith,
      eq_iff plan.user u,
      count_if-append (is_handover u) c.published (migrate server json ∷ []),
    );
  }
