-- ===== src/Ingest/Walking.antt =====
-- What it means that the walk of near-ingest.service.ts has completed a height.
use fast_auth_indexer_api.Prelude.{
  ℕ, zero, suc, ◌+◌, ◌≡◌, refl, ap, ◌⊎◌, inl, inr, true, ◌||◌, Option, none, some, List, [], ◌∷◌,
  ◌++◌, arith, ◌==◌, Bool-cases, Text,
}
use mathlib.Core.Path.{subst}
use fast_auth_indexer_api.Ingest.{Try-cases}
use fast_auth_indexer_api.NearBlock.{
  Block, Failure, is_skippable_missing_height_error, chunk_hashes_with_transactions,
}
use fast_auth_indexer_api.Ingest.{
  near_hole_retry_rounds, Try, returned, threw, Counts, Indexer, Node, Walk, has_height,
  fetch_chunks, skip_height, complete_height, after_index, store_block, index_payload,
  fetch_payload, process_block_height, note_failure, run_heights, retry_holes, walk_heights,
}

has_height-append :
    (xs ys : List ℕ) (h : ℕ) → has_height (xs ++ ys) h ≡ (has_height xs h || has_height ys h)
unfolding has_height
has_height-append [] ys h = refl
has_height-append (x ∷ xs) ys h = ground (arith, has_height-append xs ys h)

module _ (ix : Indexer) where
  open ix use {Db, Chunk, index_block}

  module _ (node : Node Chunk) (latest_height : ℕ) (latest : Block) where
    abbrev payload : ℕ → ℕ → Try Block
    payload round h = fetch_payload ix node round latest_height latest h

    -- In one of the rounds the height was reported missing by the rule for skipped heights, or its
    -- block and all of its wanted chunks were fetched and its rows were inserted.
    pub data IsDone (h : ℕ) : Type 0 where
      missing :
          (round : ℕ) (e : Failure)
          → payload round h ≡ threw e
          → is_skippable_missing_height_error e ≡ true
          → IsDone h
      indexed :
          (round : ℕ) (b : Block) (chunks : List Chunk) (before after : Db) (n : Counts)
          → payload round h ≡ returned b
          → fetch_chunks ix node round (chunk_hashes_with_transactions b) ≡ returned chunks
          → index_block h b chunks before ≡ (returned n, after)
          → IsDone h

    -- Each completed height is done.
    abbrev AllDone : Walk Db → Type 0
    AllDone w = (h : ℕ) → has_height w.completed_heights h ≡ true → IsDone h

    -- What one height does to the walk: it is done and completed, or it failed and the completed
    -- heights stay.
    data Step (h : ℕ) (w : Walk Db) (r : Option Failure × Walk Db) : Type 0 where
      completes :
          r.0 ≡ none → r.1.completed_heights ≡ h ∷ w.completed_heights → IsDone h → Step h w r
      fails :
          (e : Failure) → r.0 ≡ some e → r.1.completed_heights ≡ w.completed_heights → Step h w r

    after_index-Step :
        (round : ℕ) (b : Block) (chunks : List Chunk) (h block_height : ℕ) (block_hash : Text)
        (w : Walk Db) (r : Try Counts × Db)
        → payload round h ≡ returned b
        → fetch_chunks ix node round (chunk_hashes_with_transactions b) ≡ returned chunks
        → index_block h b chunks w.db ≡ r
        → Step h w (after_index ix node h block_height block_hash w r)
    unfolding after_index complete_height
    after_index-Step round b chunks h bh hash w (threw e, db) p c i = fails e refl refl
    after_index-Step round b chunks h bh hash w (returned n, db) p c i =
        completes refl refl (indexed round b chunks w.db db n p c i)

    index_payload-Step :
        (round : ℕ) (b : Block) (h : ℕ) (block_height : Option ℕ) (block_hash : Option Text)
        (w : Walk Db)
        → payload round h ≡ returned b
        → Step h w (index_payload ix node round h b block_height block_hash w)
    unfolding index_payload store_block
    index_payload-Step round b h none hash w p = fails _ refl refl
    index_payload-Step round b h (some bh) none w p = fails _ refl refl
    index_payload-Step round b h (some bh) (some hash) w p =
        elim (Try-cases (fetch_chunks ix node round (chunk_hashes_with_transactions b))) [
          | inl (chunks, c) ↦
              rw (c, index_payload) (after_index-Step round b chunks h bh hash w _ p c refl)
          | inr (e, c) ↦ rw (c, index_payload) (fails e refl refl)
        ]

    process_block_height-Step :
        (round h : ℕ) (w : Walk Db)
        → Step h w (process_block_height ix node round latest_height latest h w)
    unfolding process_block_height skip_height
    process_block_height-Step round h w = elim (Try-cases (payload round h)) [
      | inl (b, p) ↦ rw (p, process_block_height) (index_payload-Step round b h _ _ w p)
      | inr (e, p) ↦ elim (Bool-cases (is_skippable_missing_height_error e)) [
        | inl skips ↦
            rw (p, process_block_height) (rw skips (completes refl refl (missing round e p skips)))
        | inr throws ↦ rw (p, process_block_height) (rw throws (fails e refl refl))
      ]
    ]

    -- Noting a failure leaves the completed heights alone.
    noted-AllDone :
        (h : ℕ) (w : Walk Db) (r : Option Failure × Walk Db)
        → AllDone w
        → Step h w r
        → AllDone (note_failure ix node h r).1
    unfolding note_failure has_height
    noted-AllDone h w (none, w') d (completes _ same done) k c = elim (Bool-cases (h == k)) [
      | inl here ↦ subst IsDone (ground arith) done
      | inr other ↦ d k (ground (arith, ap (λ l. has_height l k) same))
    ]
    noted-AllDone h w (some e, w') d (completes not_thrown _ _) k c = cc
    noted-AllDone h w (none, w') d (fails e thrown _) k c = cc
    noted-AllDone h w (some e, w') d (fails _ _ same) k c =
        d k (ground (arith, ap (λ l. has_height l k) same))

    run_heights-AllDone :
        (round : ℕ) (batch : List ℕ) (w : Walk Db)
        → AllDone w
        → AllDone (run_heights ix node round latest_height latest batch w).1
    unfolding run_heights
    run_heights-AllDone round [] w d = d
    run_heights-AllDone round (h ∷ batch) w d =
        run_heights-AllDone round batch _
          (noted-AllDone h w _ d (process_block_height-Step round h w))

    retry_holes-AllDone :
        (left round : ℕ) (failed : List ℕ) (w : Walk Db)
        → AllDone w
        → AllDone (retry_holes ix node left round latest_height latest failed w).1
    unfolding retry_holes
    retry_holes-AllDone zero round failed w d = d
    retry_holes-AllDone (suc left) round [] w d = d
    retry_holes-AllDone (suc left) round (h ∷ failed) w d =
        retry_holes-AllDone left (round + 1) _ _ (run_heights-AllDone round (h ∷ failed) w d)

    -- Where a height of the batch is after the walk.
    abbrev IsKept : ℕ → List ℕ × Walk Db → Type 0
    IsKept h r = (has_height r.0 h ≡ true) ⊎ (has_height r.1.completed_heights h ≡ true)

    noted-IsKept :
        (h : ℕ) (w : Walk Db) (r : Option Failure × Walk Db)
        → Step h w r
        → IsKept h (note_failure ix node h r)
    unfolding note_failure has_height
    noted-IsKept h w (none, w') (completes _ same _) =
        inr (ground (arith, ap (λ l. has_height l h) same))
    noted-IsKept h w (some e, w') (completes not_thrown _ _) = cc
    noted-IsKept h w (none, w') (fails e thrown _) = cc
    noted-IsKept h w (some e, w') (fails _ _ same) = inl (ground arith)

    noted_mono :
        (h k : ℕ) (w : Walk Db) (r : Option Failure × Walk Db)
        → Step h w r
        → has_height w.completed_heights k ≡ true
        → has_height (note_failure ix node h r).1.completed_heights k ≡ true
    unfolding note_failure has_height
    noted_mono h k w (none, w') (completes _ same _) c =
        ground (arith, ap (λ l. has_height l k) same)
    noted_mono h k w (some e, w') (completes _ same _) c =
        ground (arith, ap (λ l. has_height l k) same)
    noted_mono h k w (none, w') (fails _ _ same) c = ground (arith, ap (λ l. has_height l k) same)
    noted_mono h k w (some e, w') (fails _ _ same) c = ground (arith, ap (λ l. has_height l k) same)

    run_heights_mono :
        (round : ℕ) (batch : List ℕ) (w : Walk Db) (k : ℕ)
        → has_height w.completed_heights k ≡ true
        → has_height (run_heights ix node round latest_height latest batch w).1.completed_heights k
          ≡ true
    unfolding run_heights
    run_heights_mono round [] w k c = c
    run_heights_mono round (h ∷ batch) w k c =
        run_heights_mono round batch _ k
          (noted_mono h k w _ (process_block_height-Step round h w) c)

    at_key : (h k : ℕ) (r : List ℕ × Walk Db) → h ≡ k → IsKept h r → IsKept k r
    at_key h k r same = subst (λ j. IsKept j r) same

    run_heights-IsKept :
        (round : ℕ) (batch : List ℕ) (w : Walk Db) (k : ℕ)
        → has_height batch k ≡ true
        → IsKept k (run_heights ix node round latest_height latest batch w)
    unfolding run_heights has_height
    run_heights-IsKept round [] w k m = cc
    run_heights-IsKept round (h ∷ batch) w k m =
        let step = process_block_height-Step round h w in
        let first =
          note_failure ix node h (process_block_height ix node round latest_height latest h w) in
        let append =
          has_height-append first.0 (run_heights ix node round latest_height latest batch first.1).0
            k in
        elim (Bool-cases (h == k)) [
          | inl here ↦ elim (at_key h k first (ground arith) (noted-IsKept h w _ step)) [
            | inl failed ↦ inl (ground (arith, append, failed))
            | inr completed ↦ inr (run_heights_mono round batch first.1 k completed)
          ]
          | inr other ↦ elim (run_heights-IsKept round batch first.1 k (ground arith)) [
            | inl failed ↦ inl (ground (arith, append, failed))
            | inr completed ↦ inr completed
          ]
        ]

    retry_holes-IsKept :
        (left round : ℕ) (failed : List ℕ) (w : Walk Db) (k : ℕ)
        → IsKept k (failed, w)
        → IsKept k (retry_holes ix node left round latest_height latest failed w)
    unfolding retry_holes has_height
    retry_holes-IsKept zero round failed w k s = s
    retry_holes-IsKept (suc left) round [] w k s = s
    retry_holes-IsKept (suc left) round (h ∷ failed) w k (inl m) =
        retry_holes-IsKept left (round + 1) _ _ k (run_heights-IsKept round (h ∷ failed) w k m)
    retry_holes-IsKept (suc left) round (h ∷ failed) w k (inr c) =
        retry_holes-IsKept left (round + 1) _ _ k (inr (run_heights_mono round (h ∷ failed) w k c))

    -- A walk that starts with no completed height ends with every height of its batch either among
    -- the failed heights or completed, and a completed height was indexed in full (its block and
    -- its wanted chunks were fetched and its rows inserted) or reported missing by the rule for
    -- skipped heights.
    pub walk_heights-IsDone :
        (heights : List ℕ) (w : Walk Db) (k : ℕ)
        → w.completed_heights ≡ []
        → has_height heights k ≡ true
        → let r = walk_heights ix node latest_height latest heights w in
          (has_height r.0 k ≡ true) ⊎ ((has_height r.1.completed_heights k ≡ true) × IsDone k)
    unfolding walk_heights has_height
    walk_heights-IsDone heights w k fresh m =
        let none_yet : AllDone w =
          λ j c. absurd (ground (arith, ap (λ l. has_height l j) fresh, c)) in
        elim (retry_holes-IsKept near_hole_retry_rounds 1 _ _ k
          (run_heights-IsKept 0 heights w k m)) [
            | inl failed ↦ inl failed
            | inr completed ↦ inr (
              completed,
              retry_holes-AllDone near_hole_retry_rounds 1 _ _
                  (run_heights-AllDone 0 heights w none_yet) k completed,
            )
          ]
