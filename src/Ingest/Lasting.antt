-- ===== src/Ingest/Lasting.antt =====
-- What the work on a block establishes, and later work keeps, holds of each completed height at the end
-- of the walk of near-ingest.service.ts.
use fast_auth_indexer_api.Prelude.{
  ℕ, zero, suc, ◌+◌, ◌≡◌, refl, ap, inl, inr, true, Option, none, some, List, [], ◌∷◌, arith, ◌==◌,
  Bool-cases, Text,
}
use mathlib.Core.Path.{subst}
use fast_auth_indexer_api.NearBlock.{
  Block, Failure, is_skippable_missing_height_error, chunk_hashes_with_transactions,
}
use fast_auth_indexer_api.Ingest.{
  near_hole_retry_rounds, Try, Try-cases, returned, threw, Counts, Indexer, Node, Walk, has_height,
  fetch_chunks, skip_height, complete_height, after_index, store_block, index_payload,
  fetch_payload, process_block_height, note_failure, run_heights, retry_holes, walk_heights,
}

-- `Holds` is established by work that returns, and kept by all work on a block.
pub record Promise (ix : Indexer) : Type 1 where
  pub Holds : List ix.Chunk → ix.Db → Type 0
  pub gives :
      (h : ℕ) (b : Block) (chunks : List ix.Chunk) (db : ix.Db) (n : Counts)
      → (ix.index_block h b chunks db).0 ≡ returned n
      → Holds chunks (ix.index_block h b chunks db).1
  pub keeps :
      (h : ℕ) (b : Block) (chunks earlier : List ix.Chunk) (db : ix.Db)
      → Holds earlier db
      → Holds earlier (ix.index_block h b chunks db).1

module _ (ix : Indexer) (promise : Promise ix) where
  open ix use {Db, Chunk, index_block}

  module _ (node : Node Chunk) (latest_height : ℕ) (latest : Block) where
    abbrev payload : ℕ → ℕ → Try Block
    payload round h = fetch_payload ix node round latest_height latest h

    -- The height was reported missing, or the chunks of its block have what is promised.
    pub data IsKept (h : ℕ) (db : Db) : Type 0 where
      missing :
          (round : ℕ) (e : Failure)
          → payload round h ≡ threw e
          → is_skippable_missing_height_error e ≡ true
          → IsKept h db
      stored :
          (round : ℕ) (b : Block) (chunks : List Chunk)
          → payload round h ≡ returned b
          → fetch_chunks ix node round (chunk_hashes_with_transactions b) ≡ returned chunks
          → promise.Holds chunks db
          → IsKept h db

    abbrev AllKept : Walk Db → Type 0
    AllKept w = (h : ℕ) → has_height w.completed_heights h ≡ true → IsKept h w.db

    IsKept-index :
        (h k : ℕ) (b : Block) (chunks : List Chunk) (db : Db)
        → IsKept k db
        → IsKept k (index_block h b chunks db).1
    IsKept-index h k b chunks db (missing round e p s) = missing round e p s
    IsKept-index h k b chunks db (stored round c cs p f holds) =
        stored round c cs p f (promise.keeps h b chunks cs db holds)

    AllKept-complete :
        (h : ℕ) (w v : Walk Db)
        → v.completed_heights ≡ h ∷ w.completed_heights
        → ((k : ℕ) → IsKept k w.db → IsKept k v.db)
        → IsKept h v.db
        → AllKept w
        → AllKept v
    unfolding has_height
    AllKept-complete h w v same keeps done all k c = elim (Bool-cases (h == k)) [
      | inl here ↦ subst (λ j. IsKept j v.db) (ground arith) done
      | inr other ↦ keeps k (all k (ground (arith, ap (λ l. has_height l k) same)))
    ]

    after_index-AllKept :
        (round : ℕ) (b : Block) (chunks : List Chunk) (h bh : ℕ) (hash : Text) (w : Walk Db)
        (r : Try Counts × Db)
        → payload round h ≡ returned b
        → fetch_chunks ix node round (chunk_hashes_with_transactions b) ≡ returned chunks
        → index_block h b chunks w.db ≡ r
        → AllKept w
        → AllKept (after_index ix node h bh hash w r).1
    unfolding after_index complete_height
    after_index-AllKept round b chunks h bh hash w (threw e, db) p c i all =
        λ k m. subst (λ r. IsKept k r.1) i (IsKept-index h k b chunks w.db (all k m))
    after_index-AllKept round b chunks h bh hash w (returned n, db) p c i all =
        AllKept-complete h w (complete_height ix node h bh hash n db w) refl
          (λ k kept. subst (λ r. IsKept k r.1) i (IsKept-index h k b chunks w.db kept))
          (stored round b chunks p c (
            subst (λ r. promise.Holds chunks r.1) i
              (promise.gives h b chunks w.db n (ap (λ r. r.0) i))))
          all

    index_payload-AllKept :
        (round : ℕ) (b : Block) (h : ℕ) (bh : Option ℕ) (hash : Option Text) (w : Walk Db)
        → payload round h ≡ returned b
        → AllKept w
        → AllKept (index_payload ix node round h b bh hash w).1
    unfolding index_payload store_block
    index_payload-AllKept round b h none hash w p all = all
    index_payload-AllKept round b h (some bh) none w p all = all
    index_payload-AllKept round b h (some bh) (some hash) w p all =
        elim (Try-cases (fetch_chunks ix node round (chunk_hashes_with_transactions b))) [
          | inl (chunks, c) ↦
              rw (c, index_payload) (after_index-AllKept round b chunks h bh hash w _ p c refl all)
          | inr (e, c) ↦ rw (c, index_payload) all
        ]

    process_block_height-AllKept :
        (round h : ℕ) (w : Walk Db)
        → AllKept w
        → AllKept (process_block_height ix node round latest_height latest h w).1
    unfolding process_block_height skip_height
    process_block_height-AllKept round h w all = elim (Try-cases (payload round h)) [
      | inl (b, p) ↦ rw (p, process_block_height) (index_payload-AllKept round b h _ _ w p all)
      | inr (e, p) ↦ elim (Bool-cases (is_skippable_missing_height_error e)) [
        | inl skips ↦
            rw (p, process_block_height)
              (rw skips (
                AllKept-complete h w (skip_height ix node h w) refl (λ k kept. kept)
                  (missing round e p skips) all))
        | inr throws ↦ rw (p, process_block_height) (rw throws all)
      ]
    ]

    noted-AllKept :
        (h : ℕ) (r : Option Failure × Walk Db) → AllKept r.1 → AllKept (note_failure ix node h r).1
    unfolding note_failure
    noted-AllKept h (none, w) all = all
    noted-AllKept h (some e, w) all = all

    run_heights-AllKept :
        (round : ℕ) (batch : List ℕ) (w : Walk Db)
        → AllKept w
        → AllKept (run_heights ix node round latest_height latest batch w).1
    unfolding run_heights
    run_heights-AllKept round [] w all = all
    run_heights-AllKept round (h ∷ batch) w all =
        run_heights-AllKept round batch _
          (noted-AllKept h _ (process_block_height-AllKept round h w all))

    retry_holes-AllKept :
        (left round : ℕ) (failed : List ℕ) (w : Walk Db)
        → AllKept w
        → AllKept (retry_holes ix node left round latest_height latest failed w).1
    unfolding retry_holes
    retry_holes-AllKept zero round failed w all = all
    retry_holes-AllKept (suc left) round [] w all = all
    retry_holes-AllKept (suc left) round (h ∷ failed) w all =
        retry_holes-AllKept left (round + 1) _ _ (run_heights-AllKept round (h ∷ failed) w all)

    -- After a walk that starts with no completed height, what is promised holds of each completed
    -- height that was not reported missing.
    pub walk_heights-IsKept :
        (heights : List ℕ) (w : Walk Db) (k : ℕ)
        → w.completed_heights ≡ []
        → has_height (walk_heights ix node latest_height latest heights w).1.completed_heights k
          ≡ true
        → IsKept k (walk_heights ix node latest_height latest heights w).1.db
    unfolding walk_heights has_height
    walk_heights-IsKept heights w k fresh m =
        let none_yet : AllKept w =
          λ j c. absurd (ground (arith, ap (λ l. has_height l j) fresh, c)) in
        retry_holes-AllKept near_hole_retry_rounds 1 _ _ (run_heights-AllKept 0 heights w none_yet)
          k m
