-- ===== src/ContractState.antt =====
-- src/modules/fastauth-contract-state/fastauth-contract-state.service.ts: the snapshots of the FastAuth
-- contracts. A run reads the clock and is given what the RPC pool answers to each of its queries; the
-- texts of dates are those of `Date`. The inserts and the checkpoint calls succeed, and the snapshots of a
-- run carry the time of the run.
pub mod Laws
pub mod Tests
use fast_auth_indexer_api.Prelude.{
  ℕ, ◌+◌, ◌-◌, ◌*◌, Bool, false, Option, none, some, List, [], ◌∷◌, ◌++◌, map, ltb, if◌then◌else◌,
  length, Text, codes, eq_text, trim, print, ◌>>=◌,
}
use fast_auth_indexer_api.Json.{Json, null, string, is_truthy}
use fast_auth_indexer_api.NearBlock.{non_empty}
use fast_auth_indexer_api.Conversion.{Runtime}
use fast_auth_indexer_api.Checkpoints.{Checkpoints, fastauth_contract_state_last_run_at, get, set}

abbrev pub snapshot_min_interval_ms : ℕ
snapshot_min_interval_ms = 5 * 60 * 1000

pub data ContractKind : Type 0 where
  fast_auth jwt_router auth0_guard : ContractKind

pub record TrackedContract : Type 0 where
  pub account_id : Text
  pub kind : ContractKind

abbrev pub tracked_contracts : List TrackedContract
tracked_contracts =
    record { account_id = codes "fast-auth.near"; kind = fast_auth }
    ∷ record { account_id = codes "jwt.fast-auth.near"; kind = jwt_router }
    ∷ record { account_id = codes "auth0.jwt.fast-auth.near"; kind = auth0_guard }
    ∷ []

unfoldable pub view_methods_by_kind : ContractKind → List Text
view_methods_by_kind fast_auth =
    codes "owner"
    ∷ codes "paused"
    ∷ codes "mpc_address"
    ∷ codes "mpc_domain_id"
    ∷ codes "mpc_key_version"
    ∷ codes "version"
    ∷ []
view_methods_by_kind jwt_router = codes "owner" ∷ codes "version" ∷ []
view_methods_by_kind auth0_guard = codes "owner" ∷ codes "get_public_keys" ∷ codes "version" ∷ []

pub record AccountView : Type 0 where
  pub amount : Option Text
  pub storage_usage : Option ℕ
  pub code_hash : Option Text

-- `response.result`: an error, and the bytes if they are an array.
pub record CallResult : Type 0 where
  pub error : Option Json
  pub bytes : Option (List ℕ)

-- What the RPC pool answers; `none` stands for a request that throws. An account view may be missing
-- from an answer, and a key list that is missing is empty.
pub record Answers : Type 0 where
  pub view_account : Text → Option (Option AccountView)
  pub view_access_key_list : Text → Option (List (Option Json))
  pub call_function : Text → Text → Option CallResult

pub record Snapshot : Type 0 where
  pub contract_id : Text
  pub snapshot_at : ℕ
  pub balance_yocto : Option Text
  pub storage_usage : Option Text
  pub code_hash : Option Text
  pub full_access_keys : Option ℕ
  pub config : List (Text × Json)
  pub source_metadata : Option Json

abbrev is_full_access : Option Json → Bool
is_full_access (some (string permission)) = eq_text permission (codes "FullAccess")
is_full_access _ = false

unfoldable pub count_full : List (Option Json) → ℕ
count_full [] = 0
count_full (permission ∷ keys) =
    let rest = count_full keys in if is_full_access permission then rest + 1 else rest

abbrev joined : Option (Option AccountView) → Option AccountView
joined none = none
joined (some view) = view

abbrev erred : Option Json → Bool
erred none = false
erred (some error) = is_truthy error

abbrev or_null : Option Json → Json
or_null none = null
or_null (some value) = value

module _ (rt : Runtime) (answers : Answers) where
  -- `viewAccount`
  unfoldable pub view_account : Text → Option AccountView
  view_account account_id = joined (answers.view_account account_id)

  -- `countFullAccessKeys`
  unfoldable pub count_full_access_keys : Text → Option ℕ
  unfolding count_full
  count_full_access_keys account_id = do
    keys ← answers.view_access_key_list account_id
    some (count_full keys)

  -- Some contracts answer a text that is no JSON.
  unfoldable pub parsed_or_text : Text → Json
  parsed_or_text utf8 = elim (rt.parse utf8) [ none ↦ string utf8 | some value ↦ value ]

  unfoldable pub result_value : CallResult → Option Json
  unfolding parsed_or_text
  result_value r = if erred r.error then none else elim r.bytes [
    | none ↦ none
    | some bytes ↦ elim (non_empty (some (trim (rt.from_utf8 bytes)))) [
      | none ↦ none
      | some utf8 ↦ some (parsed_or_text utf8)
    ]
  ]

  -- `viewMethod`
  unfoldable pub view_method : Text → Text → Option Json
  unfolding result_value
  view_method account_id method = do r ← answers.call_function account_id method; result_value r

  unfoldable pub config_of : Text → List Text → List (Text × Json)
  unfolding view_method
  config_of account_id [] = []
  config_of account_id (m ∷ methods) =
      (m, or_null (view_method account_id m)) ∷ config_of account_id methods

  abbrev amount_of : Option AccountView → Option Text
  amount_of view = do v ← view; v.amount

  abbrev storage_of : Option AccountView → Option Text
  storage_of view = do v ← view; usage ← v.storage_usage; some (print usage)

  abbrev code_of : Option AccountView → Option Text
  code_of view = do v ← view; v.code_hash

  -- `snapshotContract`: each of its queries catches what it throws.
  unfoldable pub snapshot_contract : ℕ → TrackedContract → Snapshot
  unfolding view_account count_full_access_keys view_method config_of view_methods_by_kind
  snapshot_contract now contract =
      let account = view_account contract.account_id in
      record {
        contract_id = contract.account_id;
        snapshot_at = now;
        balance_yocto = amount_of account;
        storage_usage = storage_of account;
        code_hash = code_of account;
        full_access_keys = count_full_access_keys contract.account_id;
        config = config_of contract.account_id (view_methods_by_kind contract.kind);
        source_metadata = view_method contract.account_id (codes "contract_source_metadata");
      }

pub data RunStatus : Type 0 where
  skipped error : RunStatus
  ok : ℕ → RunStatus

-- The table and the checkpoints.
pub record Collector : Type 0 where
  pub snapshots : List Snapshot
  pub checkpoints : Checkpoints

-- `new Date(ms).toISOString()` and `Date.parse`, which is `none` for a value that is not finite.
pub record Dates : Type 0 where
  pub to_iso_string : ℕ → Text
  pub parse : Text → Option ℕ

-- `lastRunRaw ? Date.parse(lastRunRaw) : 0`
unfoldable pub last_run_ms : Dates → Option Text → Option ℕ
last_run_ms dates none = some 0
last_run_ms dates (some []) = some 0
last_run_ms dates (some (c ∷ raw)) = dates.parse (c ∷ raw)

-- `Number.isFinite(last) && now - last < interval`, also for a last run in the future.
unfoldable pub is_throttled : Option ℕ → ℕ → Bool
is_throttled none now = false
is_throttled (some last) now = ltb now (last + snapshot_min_interval_ms)

-- The inserts of a run, the oldest row last in the table.
unfoldable pub conclude : Dates → ℕ → List Snapshot → Collector → RunStatus × Collector
conclude dates now [] c = (error, c)
conclude dates now (snapshot ∷ snapshots) c = (
  ok (length (snapshot ∷ snapshots)),
  record {
    snapshots = c.snapshots ++ snapshot ∷ snapshots;
    checkpoints = set fastauth_contract_state_last_run_at (dates.to_iso_string now) c.checkpoints;
  },
)

-- `runOnce`
unfoldable pub run_once : Runtime → Dates → Answers → ℕ → Collector → RunStatus × Collector
unfolding is_throttled last_run_ms conclude
run_once rt dates answers now c =
    if is_throttled (last_run_ms dates (get fastauth_contract_state_last_run_at c.checkpoints)) now
    then (skipped, c)
    else conclude dates now (map (snapshot_contract rt answers now) tracked_contracts) c
