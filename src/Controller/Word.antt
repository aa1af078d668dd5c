-- ===== src/Controller/Word.antt =====
-- The migration state of a user in centralized_controller.py: a word of six bits. The word is a
-- record of its bits; `Word.Bits` shows that it is the integer of the source.
pub mod Bits
use mec_measurements.Prelude.{Bool, true, false, ◌&&◌, ◌||◌, not}

pub record Word : Type 0 where
  pub running : Bool
  pub pre_migrate : Bool
  pub pre_migrated : Bool
  pub migrate : Bool
  pub handover : Bool
  pub handovered : Bool

abbrev pub init_state : Word
init_state = record {
  running = false;
  pre_migrate = false;
  pre_migrated = false;
  migrate = false;
  handover = false;
  handovered = false;
}

abbrev pub running_state : Word
running_state = record init_state { running = true }

abbrev pub pre_migrate_state : Word
pre_migrate_state = record init_state { pre_migrate = true }

abbrev pub pre_migrated_state : Word
pre_migrated_state = record init_state { pre_migrated = true }

abbrev pub migrate_state : Word
migrate_state = record init_state { migrate = true }

abbrev pub handover_state : Word
handover_state = record init_state { handover = true }

abbrev pub handovered_state : Word
handovered_state = record init_state { handovered = true }

-- v | w
infixl 30 ◌∪◌
abbrev pub ◌∪◌ : Word → Word → Word
v ∪ w = record {
  running = v.running || w.running;
  pre_migrate = v.pre_migrate || w.pre_migrate;
  pre_migrated = v.pre_migrated || w.pre_migrated;
  migrate = v.migrate || w.migrate;
  handover = v.handover || w.handover;
  handovered = v.handovered || w.handovered;
}

-- v & w, as a test
abbrev pub meets : Word → Word → Bool
meets v w =
    v.running && w.running
    || v.pre_migrate && w.pre_migrate
    || v.pre_migrated && w.pre_migrated
    || v.migrate && w.migrate
    || v.handover && w.handover
    || v.handovered && w.handovered

-- v == RUNNING_STATE
abbrev pub is_running : Word → Bool
is_running v =
    v.running
    && not v.pre_migrate
    && not v.pre_migrated
    && not v.migrate
    && not v.handover
    && not v.handovered

-- m & PRE_MIGRATE_STATE or m & PRE_MIGRATED_STATE or m & MIGRATE_STATE
abbrev pub is_migrating : Word → Bool
is_migrating m = meets m pre_migrate_state || meets m pre_migrated_state || meets m migrate_state
