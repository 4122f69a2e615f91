-- ===== src/ContractState/Laws.antt =====
-- When fastauth-contract-state.service.ts takes its snapshots.
use fast_auth_indexer_api.Prelude.{
  ℕ, ◌+◌, ◌≤◌, ◌≡◌, refl, sym, ap, ◌∙◌, ◌⊎◌, inl, inr, true, false, some, List, [], ◌∷◌, arith,
  Bool-cases, ◌++◌, map, codes,
}
use mathlib.Core.Path.{subst}
use fast_auth_indexer_api.Conversion.{Runtime}
use fast_auth_indexer_api.Checkpoints.{fastauth_contract_state_last_run_at, get}
use fast_auth_indexer_api.Checkpoints.Laws.{get-set}
use fast_auth_indexer_api.ContractState.{
  snapshot_min_interval_ms, Answers, RunStatus, skipped, error, ok, Collector, Dates, last_run_ms,
  is_throttled, conclude, run_once, Snapshot, snapshot_contract, tracked_contracts,
}

-- The times at which a sequence of runs is given, each with the answers of its RPC calls.
abbrev pub Runs : Type 0
Runs = List (ℕ × Answers)

-- The state after the runs, and the times of those that took snapshots, the last first.
module _ (rt : Runtime) (dates : Dates) where
  abbrev note : ℕ → RunStatus × Collector → List ℕ → List ℕ × Collector
  note now (ok n, c) times = (now ∷ times, c)
  note now (status, c) times = (times, c)

  unfoldable pub runs : Runs → List ℕ → Collector → List ℕ × Collector
  runs [] times c = (times, c)
  runs ((now, answers) ∷ more) times c =
      let (times', c') = note now (run_once rt dates answers now c) times in runs more times' c'

  -- Consecutive times lie five minutes apart.
  abbrev pub IsSpaced : List ℕ → Type 0
  IsSpaced [] = Unit
  IsSpaced (later ∷ []) = Unit
  IsSpaced (later ∷ earlier ∷ times) =
      (earlier + snapshot_min_interval_ms ≤ later) × IsSpaced (earlier ∷ times)

  -- The checkpoint holds the time of the last run that took snapshots.
  abbrev IsRecorded : List ℕ → Collector → Type 0
  IsRecorded [] c = Unit
  IsRecorded (last ∷ times) c =
      last_run_ms dates (get fastauth_contract_state_last_run_at c.checkpoints) ≡ some last

  -- The rows of a run are behind those that were there: one of each contract, with the time of the run.
  abbrev pub HasNewRows : ℕ → List Snapshot → List Snapshot → Type 0
  HasNewRows now before after =
      (rows : List Snapshot) × ((after ≡ before ++ rows)
        × (map (λ (row : Snapshot). row.contract_id) rows
            ≡ codes "fast-auth.near"
              ∷ codes "jwt.fast-auth.near"
              ∷ codes "auth0.jwt.fast-auth.near"
              ∷ [])
        × (map (λ (row : Snapshot). row.snapshot_at) rows ≡ now ∷ now ∷ now ∷ []))

  -- What a run does: it changes nothing when it is throttled, and else takes a snapshot of each
  -- contract and records its time.
  abbrev pub RunCases : ℕ → Collector → RunStatus × Collector → Type 0
  RunCases now c (status, after) =
      let throttled =
        is_throttled (last_run_ms dates (get fastauth_contract_state_last_run_at c.checkpoints))
          now in
      ((throttled ≡ true) × (status ≡ skipped) × (after ≡ c))
      ⊎ ((throttled ≡ false)
          × (status ≡ ok 3)
          × HasNewRows now c.snapshots after.snapshots
          × (get fastauth_contract_state_last_run_at after.checkpoints
              ≡ some (dates.to_iso_string now)))

  pub run_once-RunCases :
      (answers : Answers) (now : ℕ) (c : Collector)
      → RunCases now c (run_once rt dates answers now c)
  unfolding run_once conclude snapshot_contract
  run_once-RunCases answers now c =
      let last = last_run_ms dates (get fastauth_contract_state_last_run_at c.checkpoints) in
      elim (Bool-cases (is_throttled last now)) [
        | inl throttled ↦ rw throttled (inl (refl, refl, refl))
        | inr due ↦ rw due (
            inr (
              refl,
              refl,
              (map (snapshot_contract rt answers now) tracked_contracts, (refl, refl, refl)),
              ground (
                arith,
                get-set fastauth_contract_state_last_run_at fastauth_contract_state_last_run_at
                    (dates.to_iso_string now) c.checkpoints,
              ),
            ))
      ]

  module _ (reads_back : (n : ℕ) → last_run_ms dates (some (dates.to_iso_string n)) ≡ some n) where
    note-IsSpaced :
        (now : ℕ) (times : List ℕ) (c : Collector) (r : RunStatus × Collector)
        → IsSpaced times
        → IsRecorded times c
        → RunCases now c r
        → IsSpaced (note now r times).0 × IsRecorded (note now r times).0 (note now r times).1
    unfolding is_throttled
    note-IsSpaced now times c (skipped, after) spaced recorded (inl (_, _, e)) =
        (spaced, subst (IsRecorded times) (sym e) recorded)
    note-IsSpaced now times c (error, after) spaced recorded (inl (_, e, _)) = cc
    note-IsSpaced now times c (ok n, after) spaced recorded (inl (_, e, _)) = cc
    note-IsSpaced now times c (skipped, after) spaced recorded (inr (_, e, _, _)) = cc
    note-IsSpaced now times c (error, after) spaced recorded (inr (_, e, _, _)) = cc
    note-IsSpaced now [] c (ok n, after) spaced recorded (inr (due, _, _, stored)) =
        (tt, ap (last_run_ms dates) stored ∙ reads_back now)
    note-IsSpaced now (last ∷ times) c (ok n, after) spaced recorded (inr (due, _, _, stored)) =
        ((ground (arith, due, recorded), spaced), ap (last_run_ms dates) stored ∙ reads_back now)

    runs-keeps_IsSpaced :
        (rs : Runs) (times : List ℕ) (c : Collector)
        → IsSpaced times
        → IsRecorded times c
        → IsSpaced (runs rs times c).0
    unfolding runs
    runs-keeps_IsSpaced [] times c spaced recorded = spaced
    runs-keeps_IsSpaced ((now, answers) ∷ more) times c spaced recorded =
        let (s, r) =
          note-IsSpaced now times c (run_once rt dates answers now c) spaced recorded
            (run_once-RunCases answers now c) in
        runs-keeps_IsSpaced more _ _ s r

    -- However a sequence of runs is timed, whatever the RPC pool answers and whatever the checkpoint
    -- holds before, the runs that take snapshots are five minutes apart, when the time that is stored
    -- is read back.
    pub runs-IsSpaced : (rs : Runs) (c : Collector) → IsSpaced (runs rs [] c).0
    runs-IsSpaced rs c = runs-keeps_IsSpaced rs [] c tt tt
