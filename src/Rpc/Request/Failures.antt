-- ===== src/Rpc/Request/Failures.antt =====
-- What a caller may read off the result of `request` of near-rpc.service.ts.
use fast_auth_indexer_api.Prelude.{
  ℕ, zero, suc, ◌+◌, ◌≤◌, ◌<◌, ◌≡◌, refl, ap, ◌∙◌, ◌⊎◌, inl, inr, Bool, true, false, ◌&&◌, ◌||◌,
  Option, none, some, List, arith, Sum-cases, length, Text, codes, eq_text, eq_text_iff, has-add,
  IsDistinct, IsSubset, add-IsDistinct, length_mono, includes-append, includes, has,
}
use mathlib.Core.Path.{subst}
use fast_auth_indexer_api.Prelude.{dec_lt}
use fast_auth_indexer_api.Rpc.{Options}
use fast_auth_indexer_api.Rpc.Request.{
  Reply, http_error, rpc_error, timeout, thrown, not_an_error, payload, World, Exhausted, Outcome,
  served, exhausted, Service, Progress, url_at, add_if, Failed, describe, pick, fail, succeed,
  give_up, message_of, attempts, start, request,
}
use fast_auth_indexer_api.Rpc.Request.Trail.{
  trail, call_trail, IsRecorded, IsTold, attempts-ToldFrom, call-IsTold,
}
use fast_auth_indexer_api.Rpc.Request.Laws.{
  urls, urls-pick, has-pick, urls-update_at, handle_success-url, handle_failure-url, length-urls,
  Describes, message-label,
}

has-add_if :
    (b : Bool) (s t : Text) (ts : List Text)
    → has (add_if b s ts) t ≡ (has ts t || (b && eq_text s t))
has-add_if true s t ts = has-add s t ts
has-add_if false s t ts = ground arith

add_if-IsDistinct :
    (b : Bool) (s : Text) (ts : List Text) → IsDistinct ts → IsDistinct (add_if b s ts)
add_if-IsDistinct true s ts d = add-IsDistinct s ts d
add_if-IsDistinct false s ts d = d

module _ {ℓ} {A : Type ℓ} (o : Options) (label timeout_message : Text) (w : World A) where
  -- Before the attempt number `attempt`, some reply of the endpoint `url` said that the block or
  -- chunk is unknown.
  pub record Reported (attempt : ℕ) (url : Text) : Type ℓ where
    pub number : ℕ
    pub earlier : number < attempt
    pub failed : Failed o label timeout_message
    pub replied : Describes o label timeout_message url (w.reply number url) failed
    pub unknown : failed.unknown ≡ true

  -- The attempt number `n` failed, at an endpoint of the pool.
  pub record Tried (us : List Text) (n : ℕ) : Type ℓ where
    pub url : Text
    pub known : has us url ≡ true
    pub failed : Failed o label timeout_message
    pub replied : Describes o label timeout_message url (w.reply n url) failed

  record Evidence (us : List Text) (attempt : ℕ) (p : Progress) : Type ℓ where
    pool : urls p.service.endpoints ≡ us
    unknown_distinct : IsDistinct p.unknown_block_endpoints
    contacted_distinct : IsDistinct p.contacted_endpoints
    unknown_contacted : IsSubset p.unknown_block_endpoints p.contacted_endpoints
    contacted_pool : IsSubset p.contacted_endpoints us
    reported : (u : Text) → has p.unknown_block_endpoints u ≡ true → Reported attempt u
    tried : (n : ℕ) → 1 ≤ n → n < attempt → Tried us n
    labelled : (m : Text) → p.last_error ≡ some m → includes m label ≡ true

  Evidence-start : (s : Service) → Evidence (urls s.endpoints) 1 (start s)
  unfolding has
  Evidence-start s = record {
    pool = refl;
    unknown_distinct = tt;
    contacted_distinct = tt;
    unknown_contacted = λ t h. h;
    contacted_pool = λ t h. cc;
    reported = λ u h. cc;
    tried = λ n h k. absurd (omega arith);
    labelled = λ m h. cc;
  }

  Reported-later : (n : ℕ) (u : Text) → Reported n u → Reported (n + 1) u
  Reported-later n u r = record {
    number = r.number;
    earlier = omega (arith, r.earlier);
    failed = r.failed;
    replied = r.replied;
    unknown = r.unknown;
  }

  module _ (us : List Text) (attempt : ℕ) (p : Progress) (v : Evidence us attempt p) where
    abbrev picked : ℕ × Progress
    picked = pick o label timeout_message (w.pick_time attempt) p

    abbrev url : Text
    url = url_at picked.0 picked.1.service.endpoints

    url_known : 0 < length us → has us url ≡ true
    unfolding pick
    url_known nonempty =
        subst (λ vs. has vs url ≡ true) v.pool
          (has-pick _ _ p.service.endpoints
            (omega (arith, length-urls p.service.endpoints, ap length v.pool)))

    pool_after_success :
        urls (succeed o label timeout_message picked.0 url picked.1.service).endpoints ≡ us
    unfolding pick succeed
    pool_after_success =
        urls-update_at picked.0 _ _ handle_success-url ∙ urls-pick _ _ p.service.endpoints ∙ v.pool

    module _ (nonempty : 0 < length us) (f : Failed o label timeout_message)
        (e : Describes o label timeout_message url (w.reply attempt url) f) where
      Reported-here :
          (u : Text)
          → (has p.unknown_block_endpoints u ≡ true) ⊎ ((f.unknown ≡ true) × (eq_text url u ≡ true))
          → Reported (attempt + 1) u
      Reported-here u (inl old) = Reported-later attempt u (v.reported u old)
      Reported-here u (inr (unknown, same)) = record {
        number = attempt;
        earlier = omega arith;
        failed = f;
        replied =
            subst (λ t. Describes o label timeout_message t (w.reply attempt t) f)
              ((eq_text_iff url u).0 same) e;
        unknown = unknown;
      }

      Tried-so_far : (n : ℕ) → 1 ≤ n → n < attempt + 1 → Tried us n
      Tried-so_far n h k = elim (dec_lt n attempt) [
        | yes before ↦ v.tried n h before
        | no now ↦
            subst (Tried us) (omega arith)
              (record { url = url; known = url_known nonempty; failed = f; replied = e })
      ]

      Evidence-fail :
          Evidence us
            (attempt + 1)
            (fail o label timeout_message (w.fail_time attempt) picked.0 url f picked.1)
      unfolding pick fail
      Evidence-fail = record {
        pool =
            urls-update_at picked.0 _ _ (handle_failure-url o _ f.code f.cause)
            ∙ urls-pick _ _ p.service.endpoints
            ∙ v.pool;
        unknown_distinct = add_if-IsDistinct f.unknown url _ v.unknown_distinct;
        contacted_distinct = add-IsDistinct url _ v.contacted_distinct;
        unknown_contacted = λ t h. ground (
          arith,
          has-add_if f.unknown url t p.unknown_block_endpoints,
          has-add url t p.contacted_endpoints,
          v.unknown_contacted t,
        );
        contacted_pool = λ t h. ground (
          arith,
          has-add url t p.contacted_endpoints,
          v.contacted_pool t,
          url_known nonempty,
          eq_text_iff url t,
        );
        reported = λ u h.
            Reported-here u (ground (arith, has-add_if f.unknown url u p.unknown_block_endpoints));
        tried = Tried-so_far;
        labelled = λ m h.
            ground (arith, message-label o label timeout_message url (w.reply attempt url) f e);
      }

  -- What the error of an exhausted call tells: every attempt failed, the endpoints that it counts as
  -- missing the block are endpoints of the pool that said so, and its message names the call.
  pub record IsJustified (us : List Text) (e : Exhausted) : Type ℓ where
    pub all_tried : (n : ℕ) → 1 ≤ n → n ≤ o.max_attempts → Tried us n
    pub attempts_made : e.total_attempts ≡ o.max_attempts
    pub pool_size : e.healthy_endpoint_count ≡ length us
    pub distinct : IsDistinct e.unknown_block_endpoints
    pub reported :
        (u : Text)
        → has e.unknown_block_endpoints u ≡ true
        → Reported (o.max_attempts + 1) u × (has us u ≡ true)
    pub counted : length e.unknown_block_endpoints ≤ e.contacted_endpoint_count
    pub contacted : e.contacted_endpoint_count ≤ length us
    pub labelled : includes e.message label ≡ true

  -- A payload was sent by some endpoint of the pool, in one of the attempts.
  pub record IsServed (us : List Text) (a : A) : Type ℓ where
    pub url : Text
    pub known : has us url ≡ true
    pub number : ℕ
    pub attempted : number ≤ o.max_attempts
    pub replied : w.reply number url ≡ payload a

  abbrev pub IsSound : List Text → Outcome A → Type ℓ
  IsSound us (served a) = IsServed us a
  IsSound us (exhausted e) = IsJustified us e

  message_of-label :
      (last : Option Text)
      → ((m : Text) → last ≡ some m → includes m label ≡ true)
      → includes (message_of o label timeout_message last) label ≡ true
  unfolding message_of
  message_of-label none h = includes-append (codes "NEAR ") label _
  message_of-label (some m) h = h m refl

  give_up-IsJustified :
      (us : List Text) (p : Progress)
      → Evidence us (o.max_attempts + 1) p
      → IsJustified us (give_up o label timeout_message p)
  unfolding give_up
  give_up-IsJustified us p v = record {
    all_tried = λ n h k. v.tried n h (omega arith);
    attempts_made = refl;
    pool_size = omega (arith, length-urls p.service.endpoints, ap length v.pool);
    distinct = v.unknown_distinct;
    reported = λ u h. (v.reported u h, v.contacted_pool u (v.unknown_contacted u h));
    counted =
        length_mono p.unknown_block_endpoints p.contacted_endpoints v.unknown_distinct
          v.unknown_contacted;
    contacted = length_mono p.contacted_endpoints us v.contacted_distinct v.contacted_pool;
    labelled = message_of-label p.last_error v.labelled;
  }

  describe-payload :
      (url : Text) (r : Reply A) (a : A)
      → describe o label timeout_message url r ≡ inl a
      → r ≡ payload a
  unfolding describe
  describe-payload url (http_error code body) a e = ground arith
  describe-payload url (rpc_error code error) a e = ground arith
  describe-payload url (payload b) a e = ground arith
  describe-payload url timeout a e = ground arith
  describe-payload url (thrown message) a e = ground arith
  describe-payload url not_an_error a e = ground arith

  -- The result of the loop, and the urls of the pool that it leaves.
  abbrev IsFine : List Text → Outcome A × Service → Type ℓ
  IsFine us r = IsSound us r.0 × (urls r.1.endpoints ≡ us)

  trail-IsRecorded :
      (us : List Text) (left attempt : ℕ) (p : Progress)
      → 0 < length us
      → Evidence us attempt p
      → IsRecorded o label timeout_message w us attempt
          (trail o label timeout_message w left attempt p)
  unfolding trail
  trail-IsRecorded us zero attempt p nonempty v = tt
  trail-IsRecorded us (suc left) attempt p nonempty v =
      elim (Sum-cases (describe o label timeout_message here (w.reply attempt here))) [
        | inl (a, e) ↦ rw (e, trail) tt
        | inr (f, e) ↦
            rw (e, trail)
              (
                url_known us attempt p v nonempty,
                (
                  e,
                  trail-IsRecorded us left (attempt + 1) _ nonempty
                      (Evidence-fail us attempt p v nonempty f e),
                ),
              )
      ]
    where
      here : Text
      here = url us attempt p v

  attempts_sound :
      (us : List Text) (left attempt : ℕ) (p : Progress)
      → attempt + left ≡ o.max_attempts + 1
      → 0 < length us
      → Evidence us attempt p
      → IsFine us (attempts o label timeout_message w left attempt p)
  unfolding attempts
  attempts_sound us zero attempt p count nonempty v =
      (give_up-IsJustified us p (subst (λ n. Evidence us n p) (omega arith) v), v.pool)
  attempts_sound us (suc left) attempt p count nonempty v =
      elim (Sum-cases (describe o label timeout_message here (w.reply attempt here))) [
        | inl (a, e) ↦
            rw (e, attempts)
              (
                record {
                  url = here;
                  known = url_known us attempt p v nonempty;
                  number = attempt;
                  attempted = omega arith;
                  replied = describe-payload here (w.reply attempt here) a e;
                },
                pool_after_success us attempt p v,
              )
        | inr (f, e) ↦
            rw (e, attempts)
              (attempts_sound us left (attempt + 1) _ (omega arith) nonempty
                (Evidence-fail us attempt p v nonempty f e))
      ]
    where
      here : Text
      here = url us attempt p v

  -- `request` on a pool that is not empty returns a payload that an endpoint of the pool sent within
  -- the attempts allowed, or an error after all of them; the pool keeps its urls. Each failed attempt
  -- went to an endpoint of the pool and failed by its reply. The error counts the endpoints that were
  -- contacted, each once, names those that said that the block is unknown, has the message of the last
  -- failure, which contains the label of the call, and gives the sizes of the pool and of the budget.
  pub request-IsSound :
      (s : Service)
      → 0 < length (urls s.endpoints)
      → let us = urls s.endpoints in
        let t = call_trail o label timeout_message w s in
        let (result, after) = request o label timeout_message w s in
        IsSound us result
        × ((urls after.endpoints ≡ us)
            × (IsRecorded o label timeout_message w us 1 t
                × IsTold o label timeout_message t result))
  unfolding request call_trail
  request-IsSound s nonempty =
      let us = urls s.endpoints in
      let (sound, same) =
        attempts_sound us o.max_attempts 1 (start s) (omega arith) nonempty (Evidence-start s) in
      (
        sound,
        (
          same,
          (
            trail-IsRecorded us o.max_attempts 1 (start s) nonempty (Evidence-start s),
            call-IsTold o label timeout_message w s _
                (attempts-ToldFrom o label timeout_message w o.max_attempts 1 (start s)),
          ),
        ),
      )
