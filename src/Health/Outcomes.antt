-- ===== src/Health/Outcomes.antt =====
-- What a classified transaction says of its receipts.
use fast_auth_indexer_api.Prelude.{
  ◌≡◌, refl, sym, ap, ◌∙◌, inl, inr, Bool, true, false, not, ◌&&◌, ◌||◌, Option, none, some, List,
  [], ◌∷◌, arith, if◌then◌else◌, Bool-cases, Option-cases, Text,
}
use fast_auth_indexer_api.Json.{Json}
use fast_auth_indexer_api.Health.{
  is_failure_status, Receipt, Walked, executor, in_set, is_none, walk_receipt, walk_receipts,
  unwalked, FaOutcome, success, guard_failure, mpc_failure, other_failure, answered, fa_outcome,
  classify_walked, classify_tx,
}

-- The executor of the first receipt that failed and names one.
unfoldable pub blamed : List Receipt → Option Text
blamed [] = none
blamed (r ∷ receipts) =
    if is_failure_status r.status && not (is_none (executor r)) then executor r else blamed receipts

-- Some receipt was executed by one of the MPC contracts.
unfoldable pub touches : List Text → List Receipt → Bool
touches mpc [] = false
touches mpc (r ∷ receipts) = in_set mpc (executor r) || touches mpc receipts

-- Some receipt failed.
unfoldable pub any_failed : List Receipt → Bool
any_failed [] = false
any_failed (r ∷ receipts) = is_failure_status r.status || any_failed receipts

-- Each receipt that failed names its executor.
unfoldable pub NamesFailures : List Receipt → Type 0
NamesFailures [] = Unit
NamesFailures (r ∷ receipts) =
    ((is_failure_status r.status && is_none (executor r)) ≡ false) × NamesFailures receipts

-- The split of the outcomes that the comment of `classifyTx` describes, from the executor to blame,
-- whether MPC was reached, and whether a receipt or the transaction itself failed.
unfoldable pub documented : List Text → Option Text → Bool → Bool → FaOutcome
documented mpc who touched failed =
    if not failed
    then success
    else if in_set mpc who
    then mpc_failure
    else if touched && not (is_none who)
    then other_failure
    else guard_failure

-- The outcome by the executor to blame.
unfoldable pub by_blame : List Text → Option Text → Bool → Bool → FaOutcome
by_blame mpc none touched conversion_failed = if conversion_failed then guard_failure else success
by_blame mpc (some id) touched conversion_failed =
    if in_set mpc (some id) then mpc_failure else if touched then other_failure else guard_failure

or_blamed : Option Text → List Receipt → Option Text
or_blamed none receipts = blamed receipts
or_blamed (some id) receipts = some id

walk_receipts-executor :
    (mpc : List Text) (receipts : List Receipt) (w : Walked)
    → (walk_receipts mpc receipts w).first_failing_executor
      ≡ or_blamed w.first_failing_executor receipts
unfolding walk_receipts walk_receipt or_blamed blamed
walk_receipts-executor mpc [] w = elim (Option-cases w.first_failing_executor) [
  | inl free ↦ ground (arith, free)
  | inr (id, set) ↦ ground (arith, set)
]
walk_receipts-executor mpc (r ∷ receipts) w =
    let ih = walk_receipts-executor mpc receipts (walk_receipt mpc r w) in
    elim (Option-cases w.first_failing_executor) [
      | inl free ↦ elim (Option-cases (executor r)) [
        | inl unknown ↦ ground (arith, ih, free, unknown)
        | inr (e, known) ↦ ground (arith, ih, free, known)
      ]
      | inr (id, set) ↦ ground (arith, ih, set)
    ]

walk_receipts-reached :
    (mpc : List Text) (receipts : List Receipt) (w : Walked)
    → (walk_receipts mpc receipts w).reached_mpc ≡ (w.reached_mpc || touches mpc receipts)
unfolding walk_receipts walk_receipt touches
walk_receipts-reached mpc [] w = ground arith
walk_receipts-reached mpc (r ∷ receipts) w =
    let ih = walk_receipts-reached mpc receipts (walk_receipt mpc r w) in ground (arith, ih)

blamed-touches :
    (mpc : List Text) (receipts : List Receipt)
    → in_set mpc (blamed receipts) ≡ true
    → touches mpc receipts ≡ true
unfolding blamed touches in_set
blamed-touches mpc [] p = cc
blamed-touches mpc (r ∷ receipts) p =
    elim (Bool-cases (is_failure_status r.status && not (is_none (executor r)))) [
      | inl here ↦ ground (arith, here, p)
      | inr later ↦
          let ih = blamed-touches mpc receipts (ground (arith, later, p)) in ground (arith, ih)
    ]

fa_outcome-by_blame :
    (mpc : List Text) (w : Walked) (conversion_failed : Bool)
    → fa_outcome mpc w conversion_failed
      ≡ by_blame mpc w.first_failing_executor w.reached_mpc conversion_failed
unfolding fa_outcome by_blame in_set
fa_outcome-by_blame mpc w conversion_failed = elim (Option-cases w.first_failing_executor) [
  | inl free ↦ ground (arith, free)
  | inr (id, set) ↦ ground (arith, set)
]

classify_tx-blames :
    (stringify : Json → Text) (mpc : List Text) (receipts : List Receipt) (conversion : Json)
    → let c = classify_tx stringify mpc (answered receipts conversion) in
      (c.outcome
        ≡ by_blame mpc (blamed receipts) (touches mpc receipts) (is_failure_status conversion))
      × ((c.failing_executor_id ≡ blamed receipts) × (c.reached_mpc ≡ some (touches mpc receipts)))
unfolding classify_tx classify_walked or_blamed
classify_tx-blames stringify mpc receipts conversion =
    let w = walk_receipts mpc receipts unwalked in
    let who = walk_receipts-executor mpc receipts unwalked in
    let reached = walk_receipts-reached mpc receipts unwalked in
    let outcome = fa_outcome-by_blame mpc w (is_failure_status conversion) in
    let touched = blamed-touches mpc receipts in
    (cc, (who, ap some (ground (arith, ap (in_set mpc) who, reached, touched))))

any_failed-blamed :
    (receipts : List Receipt)
    → NamesFailures receipts
    → any_failed receipts ≡ not (is_none (blamed receipts))
unfolding any_failed blamed NamesFailures
any_failed-blamed [] named = refl
any_failed-blamed (r ∷ receipts) (named, others) =
    ground (arith, named, any_failed-blamed receipts others)

by_blame-documented :
    (mpc : List Text) (who : Option Text) (touched conversion_failed : Bool)
    → by_blame mpc who touched conversion_failed
      ≡ documented mpc who touched (not (is_none who) || conversion_failed)
unfolding by_blame documented in_set
by_blame-documented mpc none touched true = ground arith
by_blame-documented mpc none touched false = ground arith
by_blame-documented mpc (some id) touched conversion_failed = ground arith

-- When each failed receipt names its executor, the outcome is the one that the comment of `classifyTx`
-- describes: a success if neither a receipt nor the transaction itself failed, and else an MPC failure
-- if the executor of the first failed receipt is an MPC contract, another failure if MPC was reached and
-- some receipt failed, and a guard failure otherwise. The executor and the reached flag are those that
-- it rests on.
pub classify_tx-IsDocumented :
    (stringify : Json → Text) (mpc : List Text) (receipts : List Receipt) (conversion : Json)
    → NamesFailures receipts
    → let c = classify_tx stringify mpc (answered receipts conversion) in
      (c.outcome
        ≡ documented mpc
            (blamed receipts)
            (touches mpc receipts)
            (any_failed receipts || is_failure_status conversion))
      × ((c.failing_executor_id ≡ blamed receipts) × (c.reached_mpc ≡ some (touches mpc receipts)))
classify_tx-IsDocumented stringify mpc receipts conversion named =
    let (outcome, rest) = classify_tx-blames stringify mpc receipts conversion in
    let split =
      by_blame-documented mpc (blamed receipts) (touches mpc receipts)
        (is_failure_status conversion) in
    let failed = any_failed-blamed receipts named in
    (
      outcome
          ∙ split
          ∙ ap
              (λ b.
                documented mpc (blamed receipts) (touches mpc receipts)
                  (b || is_failure_status conversion))
              (sym failed),
      rest,
    )

-- No receipt says who executed it.
unfoldable pub AllUnknown : List Receipt → Type 0
AllUnknown [] = Unit
AllUnknown (r ∷ receipts) = (executor r ≡ none) × AllUnknown receipts

blamed-unknown : (receipts : List Receipt) → AllUnknown receipts → blamed receipts ≡ none
unfolding blamed AllUnknown
blamed-unknown [] u = refl
blamed-unknown (r ∷ receipts) (unknown, others) =
    ground (arith, unknown, blamed-unknown receipts others)

-- When no receipt names its executor and the transaction itself did not fail, it is classified as a
-- success, also when every receipt has failed.
pub classify_tx-ignores_unknown :
    (stringify : Json → Text) (mpc : List Text) (receipts : List Receipt) (conversion : Json)
    → AllUnknown receipts
    → is_failure_status conversion ≡ false
    → (classify_tx stringify mpc (answered receipts conversion)).outcome ≡ success
unfolding by_blame
classify_tx-ignores_unknown stringify mpc receipts conversion unknown fine =
    let (outcome, _) = classify_tx-blames stringify mpc receipts conversion in
    ground (arith, outcome, blamed-unknown receipts unknown, fine)
