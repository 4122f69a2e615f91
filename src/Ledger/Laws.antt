-- ===== src/Ledger/Laws.antt =====
-- What recording a range does to the ledger.
use fast_auth_indexer_api.Prelude.{
  ℕ, ◌≤◌, true, ◌&&◌, ◌||◌, leb, [], ◌∷◌, ◌++◌, ◌≡◌, refl, some, inl, inr, arith, Option-cases,
}
use fast_auth_indexer_api.Ledger.{
  Reason, Range, Ledger, find, insert, record_skipped_range, ledgered,
}

ledgered-append :
    (xs ys : Ledger) (h : ℕ) → ledgered (xs ++ ys) h ≡ (ledgered xs h || ledgered ys h)
unfolding ledgered
ledgered-append [] ys h = refl
ledgered-append (x ∷ xs) ys h = ground (arith, ledgered-append xs ys h)

ledgered-find :
    (s e h : ℕ) (ranges : Ledger) (r : Range)
    → find s e ranges ≡ some r
    → s ≤ h
    → h ≤ e
    → ledgered ranges h ≡ true
unfolding find ledgered
ledgered-find s e h [] r f lo hi = cc
ledgered-find s e h (x ∷ ranges) r f lo hi = ground (arith, ledgered-find s e h ranges r)

ledgered-insert :
    (r : Range) (ranges : Ledger) (h : ℕ)
    → ledgered (insert r ranges) h
      ≡ (ledgered ranges h || (leb r.start_height h && leb h r.end_height))
unfolding insert ledgered
ledgered-insert r ranges h = ground (arith, ledgered-append ranges (r ∷ []) h)

-- After a range is recorded exactly its heights are ledgered beside those that were before.
pub ledgered-record :
    (s e : ℕ) (reason : Reason) (now : ℕ) (ranges : Ledger) (h : ℕ)
    → ledgered (record_skipped_range s e reason now ranges) h
      ≡ (ledgered ranges h || (leb s h && leb h e))
unfolding record_skipped_range
ledgered-record s e reason now ranges h = elim (Option-cases (find s e ranges)) [
  | inl new ↦ rw (new, record_skipped_range) (ledgered-insert _ ranges h)
  | inr (r, old) ↦ rw (old, record_skipped_range) (ground (arith, ledgered-find s e h ranges r old))
]
