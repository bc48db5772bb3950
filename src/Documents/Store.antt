-- ===== src/Documents/Store.antt =====
-- The files of .ai-team/ by kind and id, and the writes that a transaction plans.
use governed_ai_dev_team_fra.Common.{String, List, [], ◌∷◌, ◌++◌, ◌≡◌, refl}
use governed_ai_dev_team_fra.Common.Dict.{Dict, put}
use governed_ai_dev_team_fra.Common.Directory.{write}
use governed_ai_dev_team_fra.Documents.{
  WorkUnit, Run, Lease, Escalation, Event, Attempt, Checkpoint, IntegrationMerge, Grant,
}

-- `Path.is_file` and `yaml.safe_load` of `<kind>/<id>.yaml` are a lookup.
pub record Store : Type 0 where
  pub work_units : Dict WorkUnit
  pub runs : Dict Run
  pub leases : Dict Lease
  pub escalations : Dict Escalation
  pub events : Dict Event
  pub attempts : Dict Attempt  -- in the order of their ids, which hold no dot
  pub checkpoints : Dict Checkpoint
  pub merges : Dict IntegrationMerge
  pub grants : Dict Grant

-- `transaction.plan_yaml_write(path, document)`
pub data Write : Type 0 where
  work_unit : String → WorkUnit → Write
  run : String → Run → Write
  lease : String → Lease → Write
  escalation : String → Escalation → Write
  event : String → Event → Write
  attempt : String → Attempt → Write
  checkpoint : String → Checkpoint → Write
  merge : String → IntegrationMerge → Write
  grant : String → Grant → Write

abbrev pub apply_write : Write → Store → Store
apply_write (work_unit id d) s = record s { work_units = put id d s.work_units }
apply_write (run id d) s = record s { runs = put id d s.runs }
apply_write (lease id d) s = record s { leases = put id d s.leases }
apply_write (escalation id d) s = record s { escalations = put id d s.escalations }
apply_write (event id d) s = record s { events = put id d s.events }
apply_write (attempt id d) s = record s { attempts = write id d s.attempts }
apply_write (checkpoint id d) s = record s { checkpoints = put id d s.checkpoints }
apply_write (merge id d) s = record s { merges = put id d s.merges }
apply_write (grant id d) s = record s { grants = put id d s.grants }

-- What a committed transaction does: its writes, in the order in which they were planned.
abbrev pub apply_writes : List Write → Store → Store
apply_writes [] s = s
apply_writes (w ∷ ws) s = apply_writes ws (apply_write w s)

pub apply_writes-append :
    (xs ys : List Write) (s : Store)
    → apply_writes (xs ++ ys) s ≡ apply_writes ys (apply_writes xs s)
apply_writes-append [] ys s = refl
apply_writes-append (x ∷ xs) ys s = apply_writes-append xs ys (apply_write x s)
