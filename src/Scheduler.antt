-- ===== src/Scheduler.antt =====
-- src/modules/indexer-scheduler/indexer-scheduler.service.ts: the cron scheduler. A tick starts its
-- task or is refused; the task ends later, with a result or with an error, which both go through the
-- same `finally`. The state changes at these two kinds of event, in any order.
pub mod Capacity
pub mod Tests
use fast_auth_indexer_api.Prelude.{
  ℕ, ◌+◌, ◌-◌, Bool, true, false, ◌||◌, Option, some, List, [], ◌∷◌, ◌++◌, ltb, leb, ◌==◌,
  if◌then◌else◌,
}
use fast_auth_indexer_api.Checkpoints.{
  Checkpoints, get_number, near_chain_head_height, near_last_scanned_height,
}

pub data Task : Type 0 where
  near_ingest health_fastauth health_user pka contract_state : Task

abbrev pub task_id : Task → ℕ
task_id near_ingest = 0
task_id health_fastauth = 1
task_id health_user = 2
task_id pka = 3
task_id contract_state = 4

abbrev pub max_inflight_tasks : ℕ
max_inflight_tasks = 4

abbrev pub catchup_gate_lag_blocks : ℕ
catchup_gate_lag_blocks = 3000

-- `running.get(task)`, and `inFlight`.
pub record Scheduler : Type 0 where
  pub running : Task → Bool
  pub in_flight : ℕ

abbrev pub idle : Scheduler
idle = record { running = λ task. false; in_flight = 0 }

-- `head - scanned > CATCHUP_GATE_LAG_BLOCKS`, when both are known.
unfoldable pub exceeds_gate : Option ℕ → Option ℕ → Bool
exceeds_gate (some head) (some scanned) = ltb (scanned + catchup_gate_lag_blocks) head
exceeds_gate _ _ = false

unfoldable pub is_catching_up : Checkpoints → Bool
unfolding exceeds_gate
is_catching_up s =
    exceeds_gate (get_number near_chain_head_height s) (get_number near_last_scanned_height s)

unfoldable pub set_running : Task → Bool → Scheduler → Task → Bool
set_running task b s t = if task_id task == task_id t then b else s.running t

-- `runWithLock` up to the call of the task: whether it is called.
unfoldable pub claim : Task → Scheduler → Bool × Scheduler
unfolding set_running
claim task s =
    if s.running task || leb max_inflight_tasks s.in_flight
    then (false, s)
    else (true, record { running = set_running task true s; in_flight = s.in_flight + 1 })

-- The `finally` of `runWithLock`.
unfoldable pub release : Task → Scheduler → Scheduler
unfolding set_running
release task s = record { running = set_running task false s; in_flight = s.in_flight - 1 }

-- The cron handlers: only the ingest is not gated.
unfoldable pub tick : Task → Checkpoints → Scheduler → Bool × Scheduler
unfolding claim
tick near_ingest checkpoints s = claim near_ingest s
tick task checkpoints s = if is_catching_up checkpoints then (false, s) else claim task s

-- What the scheduler and the tasks do, one event at a time: the tasks that are under way are the ones
-- that were called and have not ended.
pub data Event : Scheduler → List Task → Scheduler → List Task → Type 0 where
  ticks :
      (task : Task) (checkpoints : Checkpoints) (s : Scheduler) (active : List Task)
      → Event s active
          (tick task checkpoints s).1
          (if (tick task checkpoints s).0 then task ∷ active else active)
  ends :
      (task : Task) (before after : List Task) (s : Scheduler)
      → Event s (before ++ (task ∷ after)) (release task s) (before ++ after)

pub data Reached : Scheduler → List Task → Type 0 where
  starts : Reached idle []
  steps :
      (s : Scheduler) (active : List Task) (s' : Scheduler) (active' : List Task)
      → Reached s active
      → Event s active s' active'
      → Reached s' active'
