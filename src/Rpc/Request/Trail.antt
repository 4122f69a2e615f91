-- ===== src/Rpc/Request/Trail.antt =====
-- The attempts of a call of near-rpc.service.ts, and what its error tells of them.
use fast_auth_indexer_api.Prelude.{
  ℕ, zero, suc, ◌+◌, ◌<◌, ◌≡◌, refl, ap, inl, inr, Bool, true, false, Option, none, some, List, [],
  ◌∷◌, arith, Sum-cases, length, Text, add, has-add, IsSubset, has,
}
use fast_auth_indexer_api.Prelude.{set_of}
use fast_auth_indexer_api.Rpc.{Options}
use fast_auth_indexer_api.Rpc.Request.{
  World, Exhausted, Outcome, served, exhausted, Service, Progress, url_at, add_if, Failed, describe,
  pick, fail, give_up, message_of, attempts, start,
}
use fast_auth_indexer_api.Rpc.Request.Laws.{Describes}

add_if_mono :
    (b : Bool) (url u : Text) (unknown contacted : List Text)
    → (has unknown u ≡ true → has contacted u ≡ true)
    → has (add_if b url unknown) u ≡ true
    → has (add url contacted) u ≡ true
add_if_mono true url u unknown contacted sub h =
    ground (arith, has-add url u unknown, has-add url u contacted, h, sub)
add_if_mono false url u unknown contacted sub h = ground (arith, has-add url u contacted, sub h)

module _ (o : Options) (label timeout_message : Text) where
  -- The urls that failed, each with what is recorded of the failure, in the order of the attempts.
  abbrev pub Trail : Type 0
  Trail = List (Text × Failed o label timeout_message)

  unfoldable pub trail {ℓ} : {A : Type ℓ} → World A → ℕ → ℕ → Progress → Trail
  trail w zero attempt p = []
  trail w (suc left) attempt p =
      let picked = pick o label timeout_message (w.pick_time attempt) p in
      let url = url_at picked.0 picked.1.service.endpoints in
      elim (describe o label timeout_message url (w.reply attempt url)) [
        | inl a ↦ []
        | inr f ↦
            (url, f)
            ∷ trail w left (attempt + 1)
                (fail o label timeout_message (w.fail_time attempt) picked.0 url f picked.1)
      ]

  -- The failed attempts of a whole call.
  unfoldable pub call_trail {ℓ} : {A : Type ℓ} → World A → Service → Trail
  unfolding trail
  call_trail w s = trail w o.max_attempts 1 (start s)

  abbrev pub urls_of : Trail → List Text
  urls_of [] = []
  urls_of ((url, f) ∷ t) = url ∷ urls_of t

  -- The endpoints that said that the block or chunk is unknown, behind some others.
  abbrev pub unknown_from : Trail → List Text → List Text
  unknown_from [] urls = urls
  unknown_from ((url, f) ∷ t) urls = unknown_from t (add_if f.unknown url urls)

  abbrev pub last_message : Trail → Option Text → Option Text
  last_message [] last = last
  last_message ((url, f) ∷ t) last = last_message t (some f.message)

  -- Each attempt, from a number on, went to an endpoint of the pool and failed by its reply.
  abbrev pub IsRecorded {ℓ} : {A : Type ℓ} → World A → List Text → ℕ → Trail → Type ℓ
  IsRecorded w us n [] = Unit
  IsRecorded w us n ((url, f) ∷ t) =
      (has us url ≡ true)
      × (Describes o label timeout_message url (w.reply n url) f × IsRecorded w us (n + 1) t)

  -- The error counts the endpoints that were contacted, each once, names those that said that the block
  -- is unknown, and has the message of the last failure.
  pub record IsToldFrom (unknown contacted : List Text) (last : Option Text) (left : ℕ) (t : Trail)
      (e : Exhausted) : Type 0 where
    pub all_failed : length t ≡ left
    pub contacted_count : e.contacted_endpoint_count ≡ length (set_of (urls_of t) contacted)
    pub unknown_urls : e.unknown_block_endpoints ≡ unknown_from t unknown
    pub message : e.message ≡ message_of o label timeout_message (last_message t last)

  abbrev pub ToldFrom {ℓ} : {A : Type ℓ} → Progress → ℕ → Trail → Outcome A → Type 0
  ToldFrom p left t (served a) = length t < left
  ToldFrom p left t (exhausted e) =
      IsToldFrom p.unknown_block_endpoints p.contacted_endpoints p.last_error left t e

  -- The same of a whole call; one that is served has failed less often than the attempts allowed.
  abbrev pub IsTold {ℓ} : {A : Type ℓ} → Trail → Outcome A → Type 0
  IsTold t (served a) = length t < o.max_attempts
  IsTold t (exhausted e) = IsToldFrom [] [] none o.max_attempts t e

  told-later {ℓ} :
      {A : Type ℓ} (now fail_time left : ℕ) (p : Progress) (f : Failed o label timeout_message)
      (t : Trail) (r : Outcome A)
      → let picked = pick o label timeout_message now p in
        let url = url_at picked.0 picked.1.service.endpoints in
        ToldFrom (fail o label timeout_message fail_time picked.0 url f picked.1) left t r
        → ToldFrom p (suc left) ((url, f) ∷ t) r
  unfolding pick fail set_of
  told-later now fail_time left p f t (served a) told = omega (arith, told)
  told-later now fail_time left p f t (exhausted e) told = record {
    all_failed = ap suc told.all_failed;
    contacted_count = told.contacted_count;
    unknown_urls = told.unknown_urls;
    message = told.message;
  }

  pub attempts-ToldFrom {ℓ} :
      {A : Type ℓ} (w : World A) (left attempt : ℕ) (p : Progress)
      → ToldFrom p left
          (trail w left attempt p)
          (attempts o label timeout_message w left attempt p).0
  unfolding attempts trail
  attempts-ToldFrom w zero attempt p =
      unfold give_up set_of in
      record { all_failed = refl; contacted_count = refl; unknown_urls = refl; message = refl }
  attempts-ToldFrom w (suc left) attempt p =
      let picked = pick o label timeout_message (w.pick_time attempt) p in
      let url = url_at picked.0 picked.1.service.endpoints in
      elim (Sum-cases (describe o label timeout_message url (w.reply attempt url))) [
        | inl (a, e) ↦ rw (e, attempts, trail) (omega arith)
        | inr (f, e) ↦
            rw (e, attempts, trail)
              (told-later (w.pick_time attempt) (w.fail_time attempt) left p f _ _ (
                attempts-ToldFrom w left (attempt + 1)
                  (fail o label timeout_message (w.fail_time attempt) picked.0 url f picked.1)))
      ]

  pub call-IsTold {ℓ} :
      {A : Type ℓ} (w : World A) (s : Service) (r : Outcome A)
      → ToldFrom (start s) o.max_attempts (call_trail w s) r
      → IsTold (call_trail w s) r
  call-IsTold w s (served a) told = told
  call-IsTold w s (exhausted e) told = told

  pub unknown_from-IsSubset :
      (t : Trail) (unknown contacted : List Text)
      → IsSubset unknown contacted
      → IsSubset (unknown_from t unknown) (set_of (urls_of t) contacted)
  unfolding set_of
  unknown_from-IsSubset [] unknown contacted sub = sub
  unknown_from-IsSubset ((url, f) ∷ t) unknown contacted sub =
      unknown_from-IsSubset t (add_if f.unknown url unknown) (add url contacted)
        (λ u h. add_if_mono f.unknown url u unknown contacted (sub u) h)
