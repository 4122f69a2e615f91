-- ===== src/Scheduler/Capacity.antt =====
-- The locks of indexer-scheduler.service.ts, and the tasks that are under way.
use fast_auth_indexer_api.Prelude.{
  ℕ, zero, suc, ◌+◌, ◌≤◌, ◌≡◌, refl, sym, ap, ◌∙◌, inl, inr, true, false, ◌||◌, List, [], ◌∷◌, ◌++◌,
  arith, leb, ◌==◌, if◌then◌else◌, Bool-cases, length, length-append,
}
use fast_auth_indexer_api.Checkpoints.{Checkpoints}
use fast_auth_indexer_api.Scheduler.{
  Task, near_ingest, health_fastauth, health_user, pka, contract_state, task_id, max_inflight_tasks,
  Scheduler, is_catching_up, set_running, claim, release, tick, ticks, ends, Reached, starts, steps,
}

-- How often a task is under way.
unfoldable pub count : Task → List Task → ℕ
count task [] = 0
count task (t ∷ active) = (if task_id t == task_id task then 1 else 0) + count task active

count-append :
    (task : Task) (xs ys : List Task) → count task (xs ++ ys) ≡ count task xs + count task ys
unfolding count
count-append task [] ys = omega arith
count-append task (x ∷ xs) ys = ground (arith, count-append task xs ys)

-- The lock of a task is set exactly when it is under way, and then it is so once; the counter is the
-- number of tasks under way, and within its cap.
record IsSound (s : Scheduler) (active : List Task) : Type 0 where
  once : (task : Task) → count task active ≡ (if s.running task then 1 else 0)
  counted : s.in_flight ≡ length active
  capped : s.in_flight ≤ max_inflight_tasks

task_of : ℕ → Task
task_of zero = near_ingest
task_of (suc zero) = health_fastauth
task_of (suc (suc zero)) = health_user
task_of (suc (suc (suc zero))) = pka
task_of (suc (suc (suc (suc n)))) = contract_state

task_of-task_id : (t : Task) → task_of (task_id t) ≡ t
unfolding task_of
task_of-task_id near_ingest = refl
task_of-task_id health_fastauth = refl
task_of-task_id health_user = refl
task_of-task_id pka = refl
task_of-task_id contract_state = refl

-- Tasks with the same number are the same.
same_running :
    (s : Scheduler) (task t : Task) → task_id task ≡ task_id t → s.running task ≡ s.running t
same_running s task t same =
    ap s.running (sym (task_of-task_id task) ∙ (ap task_of same ∙ task_of-task_id t))

claimed_once :
    (task : Task) (s : Scheduler) (active : List Task) (t : Task)
    → s.running task ≡ false
    → count t active ≡ (if s.running t then 1 else 0)
    → count t (task ∷ active) ≡ (if set_running task true s t then 1 else 0)
unfolding count set_running
claimed_once task s active t free c = elim (Bool-cases (task_id task == task_id t)) [
  | inl here ↦
      let same = same_running s task t (ground arith) in ground (arith, here, same, free, c)
  | inr other ↦ ground (arith, other, c)
]

claim-IsSound :
    (task : Task) (s : Scheduler) (active : List Task)
    → IsSound s active
    → IsSound (claim task s).1 (if (claim task s).0 then task ∷ active else active)
unfolding claim
claim-IsSound task s active i =
    elim (Bool-cases (s.running task || leb max_inflight_tasks s.in_flight)) [
      | inl refused ↦ rw (refused, claim) i
      | inr claimed ↦
          rw (claimed, claim)
            (record {
              once = λ t. claimed_once task s active t (ground (arith, claimed)) (i.once t);
              counted = omega (arith, i.counted);
              capped = ground (arith, claimed, i.capped);
            })
    ]

gated :
    (task : Task) (checkpoints : Checkpoints) (s : Scheduler) (active : List Task)
    → IsSound s active
    → let r = if is_catching_up checkpoints then (false, s) else claim task s in
      IsSound r.1 (if r.0 then task ∷ active else active)
gated task checkpoints s active i = elim (Bool-cases (is_catching_up checkpoints)) [
  | inl behind ↦ rw behind i
  | inr near ↦ rw near (claim-IsSound task s active i)
]

tick-IsSound :
    (task : Task) (checkpoints : Checkpoints) (s : Scheduler) (active : List Task)
    → IsSound s active
    → IsSound
        (tick task checkpoints s).1
        (if (tick task checkpoints s).0 then task ∷ active else active)
unfolding tick
tick-IsSound near_ingest checkpoints s active i = claim-IsSound near_ingest s active i
tick-IsSound health_fastauth checkpoints s active i = gated health_fastauth checkpoints s active i
tick-IsSound health_user checkpoints s active i = gated health_user checkpoints s active i
tick-IsSound pka checkpoints s active i = gated pka checkpoints s active i
tick-IsSound contract_state checkpoints s active i = gated contract_state checkpoints s active i

released_once :
    (task : Task) (s : Scheduler) (before after : List Task) (t : Task)
    → count t (before ++ (task ∷ after)) ≡ (if s.running t then 1 else 0)
    → count t (before ++ after) ≡ (if set_running task false s t then 1 else 0)
unfolding count set_running
released_once task s before after t c =
    ground (arith, c, count-append t before (task ∷ after), count-append t before after)

release-IsSound :
    (task : Task) (s : Scheduler) (before after : List Task)
    → IsSound s (before ++ (task ∷ after))
    → IsSound (release task s) (before ++ after)
unfolding release
release-IsSound task s before after i = record {
  once = λ t. released_once task s before after t (i.once t);
  counted =
      ground (arith, i.counted, length-append before (task ∷ after), length-append before after);
  capped = omega (arith, i.capped);
}

Reached-IsSound : (s : Scheduler) (active : List Task) → Reached s active → IsSound s active
unfolding count
Reached-IsSound s active starts = record { once = λ t. refl; counted = refl; capped = omega arith }
Reached-IsSound s active (steps s0 active0 _ _ r (ticks task checkpoints _ _)) =
    tick-IsSound task checkpoints s0 active0 (Reached-IsSound s0 active0 r)
Reached-IsSound s active (steps s0 _ _ _ r (ends task before after _)) =
    release-IsSound task s0 before after (Reached-IsSound s0 (before ++ (task ∷ after)) r)

-- Whatever ticks come and whenever the tasks end, with results or errors: at most four tasks are
-- under way, `inFlight` is their number, and a task is under way once if its lock is set and not at
-- all if it is not.
pub scheduler-IsCapped :
    (s : Scheduler) (active : List Task)
    → Reached s active
    → (length active ≤ max_inflight_tasks)
      × ((s.in_flight ≡ length active)
          × ((task : Task) → count task active ≡ (if s.running task then 1 else 0)))
scheduler-IsCapped s active r =
    let i = Reached-IsSound s active r in (omega (arith, i.counted, i.capped), (i.counted, i.once))
