-- ===== src/Controller/State.antt =====
-- The state of CentralizedController (centralized_controller.py), the messages that it publishes and
-- the timers that it starts. `published` and `timers` are the calls of `self.publish` and of
-- `Timer(...).start()` in their order; a payload is the object and not its JSON text.
use mec_measurements.Prelude.{String, Option, List, [], ◌∷◌, ◌++◌}
use mec_measurements.Prelude.Dict.{Dict, put, remove}
use mec_measurements.Platform.{Platform, Real}
use mec_measurements.Database.Rows.{DbCentral}
use mec_measurements.Database.Queries.{ServiceJson}
use mec_measurements.Database.Servers.{ServerEntry}
use mec_measurements.Controller.Word.{Word}

-- PlanResult of planner.py
pub record PlanResult : Type 0 where
  pub user : String
  pub next_bts : String
  pub next_server : String

-- The plan types of Constants.py
pub data PlanType : Type 0 where
  optimized nearest random cloud : PlanType

-- {'plan': plan, 'service': service_json}
pub record Stored : Type 0 where
  pub plan : PlanResult
  pub service : ServiceJson

-- The JSON object of a discovery request.
pub record Discovery : Type 0 where
  pub end_user : String
  pub service_name : String
  pub ssid : String
  pub bssid : Option String
  pub migrate_method : String

module _ ⦃p : Platform⦄ where
  pub record HandoverJson : Type 0 where
    pub next_ssid : String
    pub next_bssid : Option String
    pub next_password : String
    pub elapsed_time : Real

  -- A published message, with the rest of its topic.
  pub data Message : Type 0 where
    handover : (user : String) → HandoverJson → Message
    pre_migrate : (server : String) → ServiceJson → Message
    migrate : (server : String) → ServiceJson → Message
    deploy : (server : String) → Discovery → Message
    destroy : (server : String) → Option ServiceJson → Message
    redeploy : (server : String) → Option ServiceJson → Message
    updated_servers : List ServerEntry → Message

  -- The callback of a timer with its arguments.
  pub data Callback : Type 0 where
    trigger_handover : (user : String) → HandoverJson → Callback
    trigger_pre_migration : (server : String) → ServiceJson → Callback
    trigger_migration : PlanResult → (server : String) → ServiceJson → Callback

  pub record Timer : Type 0 where
    pub delay : Real
    pub callback : Callback

  pub record Controller : Type 0 where
    pub db : DbCentral
    pub planner_type : PlanType
    pub migrate_method : String
    pub migration_state : Dict Word
    pub migrating_plan : Dict Stored
    pub handover_plan : Dict HandoverJson
    pub published : List Message
    pub timers : List Timer

  -- self.publish(topic, payload)
  abbrev pub publish : Message → Controller → Controller
  publish m c = record c { published = c.published ++ m ∷ [] }

  -- Timer(delay, callback, args).start()
  abbrev pub start : Real → Callback → Controller → Controller
  start delay callback c = record c {
    timers = c.timers ++ record { delay = delay; callback = callback } ∷ [];
  }

  -- self.migration_state[user] = m
  abbrev pub set_word : String → Word → Controller → Controller
  set_word user m c = record c { migration_state = put c.migration_state user m }

  -- if self.migrating_plan.get(user, None) is not None: del(self.migrating_plan[user])
  abbrev pub drop_migrating : String → Controller → Controller
  drop_migrating user c = record c { migrating_plan = remove c.migrating_plan user }

  abbrev pub drop_handover : String → Controller → Controller
  drop_handover user c = record c { handover_plan = remove c.handover_plan user }
