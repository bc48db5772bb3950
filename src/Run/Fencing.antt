-- ===== src/Run/Fencing.antt =====
-- core/domain/run/fencing.py and core/domain/run/parallelism.py. The epoch of an entry is a number:
-- a `FencingError` arises only from an absent entry.
use governed_ai_dev_team_fra.Common.{
  ℕ, ◌+◌, String, Bool, false, Option, none, some, nat_eq, ◌==◌, length,
}
use governed_ai_dev_team_fra.Common.Dict.{lookup}
use governed_ai_dev_team_fra.Documents.{Run, LeaseRef}

unfoldable pub current_lease : Run → String → Option LeaseRef
current_lease run_document work_unit_id = lookup work_unit_id run_document.leases_by_work_unit

abbrev pub has_epoch : ℕ → Option LeaseRef → Bool
has_epoch epoch none = false
has_epoch epoch (some ref) = ref.epoch == epoch

unfoldable pub is_epoch_current : Run → String → ℕ → Bool
unfolding current_lease
is_epoch_current run_document work_unit_id epoch =
    has_epoch epoch (current_lease run_document work_unit_id)

abbrev pub epoch_after : Option LeaseRef → ℕ
epoch_after none = 1
epoch_after (some ref) = ref.epoch + 1

unfoldable pub next_epoch : Run → String → ℕ
unfolding current_lease
next_epoch run_document work_unit_id = epoch_after (current_lease run_document work_unit_id)

unfoldable pub active_worker_count : Run → ℕ
active_worker_count run_document = length run_document.leases_by_work_unit
