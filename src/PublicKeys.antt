-- ===== src/PublicKeys.antt =====
-- src/modules/public-key-accounts/public-key-accounts.service.ts: the batch of sign events of a run, the
-- keys that are derived for them, and the newest event of each key. The table of the sign events is a
-- list in the order of the ids. The MPC call is an argument, `none` where it throws.
pub mod Links
pub mod Rows
pub mod Lookup
pub mod Mentioned
pub mod Laws
pub mod Persisting
pub mod KeyCounts
pub mod OrphanRetry
pub mod Tests
use fast_auth_indexer_api.Prelude.{
  ℕ, ◌-◌, ◌*◌, Bool, true, false, ◌&&◌, ◌||◌, Option, none, some, List, [], ◌∷◌, ltb, leb, ◌==◌,
  if◌then◌else◌, Text, codes, trim, ◌>>=◌,
}
use fast_auth_indexer_api.Prelude.{take}
use fast_auth_indexer_api.NearBlock.{non_empty}
use fast_auth_indexer_api.Conversion.{ends_with}
use fast_auth_indexer_api.Decode.{or_else}
use fast_auth_indexer_api.Tables.{put}

abbrev pub default_batch_size : ℕ
default_batch_size = 200

abbrev pub default_lookback_days : ℕ
default_lookback_days = 30

pub record EventRow : Type 0 where
  pub id : ℕ
  pub user_derived_public_key : Option Text
  pub user_key_path : Option Text
  pub user_domain_id : Option ℕ
  pub fast_auth_contract_id : Text
  pub block_timestamp : ℕ

pub record PubkeyMeta : Type 0 where
  pub event_id : ℕ
  pub block_timestamp : ℕ
  pub key_path : Option Text
  pub predecessor_id : Text
  pub domain_id : Option ℕ

abbrev is_set {ℓ} : {A : Type ℓ} → Option A → Bool
is_set none = false
is_set (some a) = true

-- After the checkpoint, or else within the lookback.
unfoldable pub is_after : Option ℕ → ℕ → EventRow → Bool
is_after (some checkpoint) fallback_start e = ltb checkpoint e.id
is_after none fallback_start e = leb fallback_start e.block_timestamp

unfoldable pub is_wanted : Option ℕ → ℕ → EventRow → Bool
unfolding is_after
is_wanted checkpoint fallback_start e =
    (is_set e.user_derived_public_key || (is_set e.user_key_path || is_set e.user_domain_id))
    && is_after checkpoint fallback_start e

unfoldable pub wanted_events : Option ℕ → ℕ → List EventRow → List EventRow
unfolding is_wanted
wanted_events checkpoint fallback_start [] = []
wanted_events checkpoint fallback_start (e ∷ events) =
    let later = wanted_events checkpoint fallback_start events in
    if is_wanted checkpoint fallback_start e then e ∷ later else later

-- `fetchEventBatch`; the lookback is that of `now`.
unfoldable pub fetch_event_batch : ℕ → ℕ → ℕ → Option ℕ → List EventRow → List EventRow
unfolding wanted_events
fetch_event_batch batch_size lookback_days now checkpoint events =
    take batch_size (wanted_events checkpoint (now - lookback_days * (24 * 60 * 60 * 1000)) events)

-- `resolveMpcContractId`, from the configured contract.
unfoldable pub resolve_mpc_contract_id : Option Text → Text → Text
unfolding ends_with
resolve_mpc_contract_id configured predecessor = elim (trimmed configured) [
  | some contract ↦ contract
  | none ↦
      if ends_with predecessor (codes ".testnet")
      then codes "v1.signer-prod.testnet"
      else codes "v1.signer"
]
  where
    trimmed : Option Text → Option Text
    trimmed none = none
    trimmed (some contract) = non_empty (some (trim contract))

-- `userDerivedPublicKey?.trim()`, if it is not empty.
unfoldable pub stored_key : EventRow → Option Text
stored_key e = do key ← e.user_derived_public_key; non_empty (some (trim key))

-- `mpcResults`: the keys by the ids of their events.
abbrev pub Derived : Type 0
Derived = List (ℕ × Text)

unfoldable pub derived_key : Derived → ℕ → Option Text
derived_key [] id = none
derived_key ((i, key) ∷ derived) id = if i == id then some key else derived_key derived id

module _ (fetch_derived_public_key : Text → Text → Text → ℕ → Option Text)
    (configured : Option Text) where
  -- The call for one event, which needs a path and a domain.
  unfoldable pub derive : EventRow → Option Text → Option ℕ → Option Text
  unfolding resolve_mpc_contract_id
  derive e (some path) (some domain) =
      fetch_derived_public_key (resolve_mpc_contract_id configured e.fast_auth_contract_id) path
        e.fast_auth_contract_id domain
  derive e _ _ = none

  unfoldable pub derive_if_missing : EventRow → Option Text
  unfolding stored_key derive
  derive_if_missing e = elim (stored_key e) [
    | some key ↦ none
    | none ↦ derive e e.user_key_path e.user_domain_id
  ]

  -- `deriveMissingPublicKeys`: an event whose call throws is passed over.
  unfoldable pub derive_missing_public_keys : List EventRow → Derived
  unfolding derive_if_missing
  derive_missing_public_keys [] = []
  derive_missing_public_keys (e ∷ events) = elim (derive_if_missing e) [
    | none ↦ derive_missing_public_keys events
    | some key ↦ (e.id, key) ∷ derive_missing_public_keys events
  ]

-- `event.userDerivedPublicKey?.trim() || mpcResults.get(event.id) || null`
unfoldable pub key_of : Derived → EventRow → Option Text
unfolding stored_key derived_key
key_of derived e = or_else (stored_key e) (non_empty (derived_key derived e.id))

unfoldable pub meta_of : EventRow → PubkeyMeta
meta_of e = record {
  event_id = e.id;
  block_timestamp = e.block_timestamp;
  key_path = e.user_key_path;
  predecessor_id = e.fast_auth_contract_id;
  domain_id = e.user_domain_id;
}

unfoldable pub latest_from :
    Derived → List EventRow → List (Text × PubkeyMeta) → List (Text × PubkeyMeta)
unfolding key_of meta_of put
latest_from derived [] latest = latest
latest_from derived (e ∷ events) latest = elim (key_of derived e) [
  | none ↦ latest_from derived events latest
  | some key ↦ latest_from derived events (put key (meta_of e) latest)
]

-- `buildLatestEventByKey`
unfoldable pub build_latest_event_by_key : List EventRow → Derived → List (Text × PubkeyMeta)
unfolding latest_from
build_latest_event_by_key events derived = latest_from derived events []
