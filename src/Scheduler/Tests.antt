-- ===== src/Scheduler/Tests.antt =====
-- Two ticks and the end of a task.
use fast_auth_indexer_api.Prelude.{◌≤◌, ◌≡◌, [], ◌∷◌, if◌then◌else◌, length}
use fast_auth_indexer_api.Checkpoints.{empty}
use fast_auth_indexer_api.Scheduler.{
  Task, near_ingest, Scheduler, idle, max_inflight_tasks, tick, claim, set_running, ticks, Reached,
  starts, steps,
}
use fast_auth_indexer_api.Scheduler.Capacity.{count, scheduler-IsCapped}

abbrev after_one : Scheduler
after_one = (tick near_ingest empty idle).1

abbrev after_two : Scheduler
after_two = (tick near_ingest empty after_one).1

Reached-one : Reached after_one (near_ingest ∷ [])
unfolding tick claim
Reached-one = steps idle [] after_one (near_ingest ∷ []) starts (ticks near_ingest empty idle [])

-- The second tick of the same task is refused.
Reached-two : Reached after_two (near_ingest ∷ [])
unfolding tick claim set_running
Reached-two =
    steps after_one (near_ingest ∷ []) after_two (near_ingest ∷ []) Reached-one
      (ticks near_ingest empty after_one (near_ingest ∷ []))

scheduler-IsCapped_example :
    (length (near_ingest ∷ []) ≤ max_inflight_tasks)
    × ((after_two.in_flight ≡ length (near_ingest ∷ []))
        × ((task : Task)
            → count task (near_ingest ∷ []) ≡ (if after_two.running task then 1 else 0)))
scheduler-IsCapped_example = scheduler-IsCapped after_two (near_ingest ∷ []) Reached-two
