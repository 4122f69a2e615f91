-- ===== src/NearBlock/Agreement.antt =====
-- What stands behind a height that near-block.service.ts takes to be missing.
use fast_auth_indexer_api.Prelude.{
  ℕ, ◌+◌, ◌≤◌, ◌<◌, ◌≡◌, refl, sym, ◌≢◌, true, List, [], ◌∷◌, ◌++◌, arith, length, Text, codes,
  eq_text_iff, eq_text_refl, IsDistinct, starts_with, includes, has, print,
}
use mathlib.Core.Path.{subst}
use fast_auth_indexer_api.Rpc.{Options}
use fast_auth_indexer_api.Rpc.Request
use fast_auth_indexer_api.Rpc.Request.{World, Exhausted, Service}
use fast_auth_indexer_api.Rpc.Request.Laws.{urls}
use fast_auth_indexer_api.Prelude.{none, inl, inr, ◌⊎◌, IsSubset, has-set_of, set_of, all_but_one}
use fast_auth_indexer_api.Rpc.Request.Trail.{
  Trail, call_trail, urls_of, unknown_from, IsRecorded, IsToldFrom, IsTold, unknown_from-IsSubset,
}
use fast_auth_indexer_api.Rpc.Request.Failures.{Reported, IsJustified, IsSound, request-IsSound}
use fast_auth_indexer_api.NearBlock.{
  exhausted, is_reported_missing_everywhere, is_skippable_missing_height_error,
  is_unfetchable_everywhere_error, fetch_block_by_height,
}

starts_with-includes_mono : (s p q : Text) → starts_with s (p ++ q) ≡ true → starts_with s p ≡ true
unfolding starts_with
starts_with-includes_mono s [] q h = refl
starts_with-includes_mono [] (x ∷ p) q h = h
starts_with-includes_mono (c ∷ s) (x ∷ p) q h = ground (arith, starts_with-includes_mono s p q)

-- A text that holds a longer word holds its beginning.
includes-prefix : (s p q : Text) → includes s (p ++ q) ≡ true → includes s p ≡ true
unfolding includes
includes-prefix [] p q h = starts_with-includes_mono [] p q h
includes-prefix (c ∷ s) p q h =
    ground (arith, starts_with-includes_mono (c ∷ s) p q, includes-prefix s p q)

-- Two different members of a set with at least two.
two_of :
    (us : List Text)
    → 2 ≤ length us
    → IsDistinct us
    → (u : Text) × (v : Text) × (has us u ≡ true) × (has us v ≡ true) × (u ≢ v)
unfolding has
two_of [] h d = elim h [ ]
two_of (u ∷ []) h d = absurd (omega arith)
two_of (u ∷ v ∷ us) h d = (
  u,
  v,
  ground (arith, eq_text_refl u),
  ground (arith, eq_text_refl v),
  λ e. ground (arith, eq_text_iff v u, sym e),
)

module _ {ℓ} {A : Type ℓ} (o : Options) (timeout_message : Text) (height : ℕ) (w : World A)
    (s : Service) where
  abbrev call_label : Text
  call_label = codes "block-by-height " ++ print height

  -- The failed attempts of the call.
  abbrev pub block_trail : Trail o call_label timeout_message
  block_trail = call_trail o call_label timeout_message w s

  -- Two endpoints of the pool said that the block is unknown, and so did each endpoint that was
  -- contacted, but for one at most.
  pub record IsAgreed (e : Exhausted) : Type ℓ where
    pub first : Text
    pub second : Text
    pub differ : first ≢ second
    pub first_known : has (urls s.endpoints) first ≡ true
    pub second_known : has (urls s.endpoints) second ≡ true
    pub first_reported : Reported o call_label timeout_message w (o.max_attempts + 1) first
    pub second_reported : Reported o call_label timeout_message w (o.max_attempts + 1) second
    pub other : Text
    pub at_most_one_else :
        (u : Text)
        → has (urls_of o call_label timeout_message block_trail) u ≡ true
        → (has (unknown_from o call_label timeout_message block_trail []) u ≡ true) ⊎ (u ≡ other)
    pub recorded : IsRecorded o call_label timeout_message w (urls s.endpoints) 1 block_trail

  abbrev Told : Exhausted → Type 0
  Told e = IsToldFrom o call_label timeout_message [] [] none o.max_attempts block_trail e

  justified :
      (e : Exhausted)
      → 0 < length (urls s.endpoints)
      → (fetch_block_by_height o timeout_message height w s).0 ≡ Request.exhausted e
      → IsJustified o call_label timeout_message w (urls s.endpoints) e
        × (Told e × IsRecorded o call_label timeout_message w (urls s.endpoints) 1 block_trail)
  unfolding fetch_block_by_height
  justified e nonempty h =
      let (sound, (_, (recorded, told))) =
        request-IsSound o call_label timeout_message w s nonempty in
      (
        subst (IsSound o call_label timeout_message w (urls s.endpoints)) h sound,
        (subst (IsTold o call_label timeout_message block_trail) h told, recorded),
      )

  all_but_one_reported :
      (e : Exhausted)
      → IsJustified o call_label timeout_message w (urls s.endpoints) e
      → Told e
      → e.contacted_endpoint_count ≤ length e.unknown_block_endpoints + 1
      → (other : Text) × ((u : Text)
          → has (urls_of o call_label timeout_message block_trail) u ≡ true
          → (has (unknown_from o call_label timeout_message block_trail []) u ≡ true) ⊎ (u ≡ other))
  all_but_one_reported e j told le =
      let contacted = set_of (urls_of o call_label timeout_message block_trail) [] in
      let within : IsSubset e.unknown_block_endpoints contacted =
        subst (λ us. IsSubset us contacted) (sym told.unknown_urls)
          (unknown_from-IsSubset o call_label timeout_message block_trail [] [] (λ t h. h)) in
      let (other, each) =
        all_but_one contacted e.unknown_block_endpoints j.distinct within
          (omega (arith, le, told.contacted_count)) in
      (
        other,
        λ u h. elim (each u (in_set_of u h)) [
          | inl unknown ↦ inl (subst (λ us. has us u ≡ true) told.unknown_urls unknown)
          | inr same ↦ inr same
        ],
      )
    where
      in_set_of :
          (u : Text)
          → has (urls_of o call_label timeout_message block_trail) u ≡ true
          → has (set_of (urls_of o call_label timeout_message block_trail) []) u ≡ true
      in_set_of u h =
          ground (arith, h, has-set_of (urls_of o call_label timeout_message block_trail) [] u)

  agreed :
      (e : Exhausted)
      → IsJustified o call_label timeout_message w (urls s.endpoints) e
      → Told e
      → IsRecorded o call_label timeout_message w (urls s.endpoints) 1 block_trail
      → is_reported_missing_everywhere e ≡ true
      → IsAgreed e
  unfolding is_reported_missing_everywhere
  agreed e j told recorded h =
      let (other, else_reported) = all_but_one_reported e j told (ground arith) in
      let (u, v, hu, hv, n) = two_of e.unknown_block_endpoints (ground arith) j.distinct in
      record {
        first = u;
        second = v;
        differ = n;
        first_known = (j.reported u hu).1;
        second_known = (j.reported v hv).1;
        first_reported = (j.reported u hu).0;
        second_reported = (j.reported v hv).0;
        other = other;
        at_most_one_else = else_reported;
        recorded = recorded;
      }

  -- A `block-by-height` call over a pool that is not empty, that throws an error which counts as
  -- unfetchable everywhere: the error is skippable too, two different endpoints of the pool said
  -- within the attempts of the call that the block is unknown, and of all endpoints that the attempts
  -- went to, at most one did not say so. The attempts are those of the call, with its replies.
  pub fetch_block_by_height-IsAgreed :
      (e : Exhausted)
      → 0 < length (urls s.endpoints)
      → (fetch_block_by_height o timeout_message height w s).0 ≡ Request.exhausted e
      → is_unfetchable_everywhere_error (exhausted e) ≡ true
      → (is_skippable_missing_height_error (exhausted e) ≡ true) × IsAgreed e
  unfolding is_unfetchable_everywhere_error is_skippable_missing_height_error
  fetch_block_by_height-IsAgreed e nonempty h missing =
      let (j, (told, recorded)) = justified e nonempty h in
      (
        ground (
          arith,
          includes-prefix e.message (codes "block-by-height") (codes " " ++ print height)
              j.labelled,
        ),
        agreed e j told recorded missing,
      )
