-- ===== src/PublicKeys/Laws.antt =====
-- The events of the keys, and the counts of the links, of public-key-accounts.service.ts.
use fast_auth_indexer_api.Prelude.{
  ℕ, ◌+◌, ◌≤◌, ◌≡◌, refl, sym, ap, ◌∙◌, inl, inr, Bool, true, false, Option, none, some, List, [],
  ◌∷◌, arith, if◌then◌else◌, Option-cases, length, Text, eq_text,
}
use fast_auth_indexer_api.Tables.{find, put, find-put}
use fast_auth_indexer_api.PublicKeys.{
  EventRow, PubkeyMeta, Derived, key_of, meta_of, latest_from, build_latest_event_by_key,
}
use fast_auth_indexer_api.PublicKeys.Links.{
  Pair, Aggregate, one_if, first_aggregate, grow, next_aggregate, Tally, is_new_link, count_pair,
  count_pairs, nothing_counted,
}

abbrev is_key : Text → Option Text → Bool
is_key key none = false
is_key key (some k) = eq_text k key

abbrev or_earlier : Option PubkeyMeta → Option PubkeyMeta → Option PubkeyMeta
or_earlier (some later) earlier = some later
or_earlier none earlier = earlier

-- The event of a key that is the last in a batch.
unfoldable pub last_event : Derived → List EventRow → Text → Option PubkeyMeta
last_event derived [] key = none
last_event derived (e ∷ events) key =
    or_earlier (last_event derived events key)
      (if is_key key (key_of derived e) then some (meta_of e) else none)

or_earlier_assoc :
    (a b c : Option PubkeyMeta) → or_earlier a (or_earlier b c) ≡ or_earlier (or_earlier a b) c
or_earlier_assoc none b c = refl
or_earlier_assoc (some a) b c = refl

or_earlier-none : (m : Option PubkeyMeta) → or_earlier m none ≡ m
or_earlier-none none = refl
or_earlier-none (some m) = refl

or_earlier-if :
    (b : Bool) (m : PubkeyMeta) (earlier : Option PubkeyMeta)
    → (if b then some m else earlier) ≡ or_earlier (if b then some m else none) earlier
or_earlier-if true m earlier = refl
or_earlier-if false m earlier = refl

find-latest_from :
    (derived : Derived) (events : List EventRow) (latest : List (Text × PubkeyMeta)) (key : Text)
    → find (latest_from derived events latest) key
      ≡ or_earlier (last_event derived events key) (find latest key)
unfolding latest_from last_event
find-latest_from derived [] latest key = refl
find-latest_from derived (e ∷ events) latest key =
    let later = last_event derived events key in
    elim (Option-cases (key_of derived e)) [
      | inl keyless ↦
          rw (keyless, latest_from)
            (find-latest_from derived events latest key
              ∙ ap (λ m. or_earlier m (find latest key)) (sym (or_earlier-none later)))
      | inr (k, named) ↦
          let here : Option PubkeyMeta = if eq_text k key then some (meta_of e) else none in
          rw (named, latest_from)
            (find-latest_from derived events (put k (meta_of e) latest) key
              ∙ ap (or_earlier later) (
                  find-put k key (meta_of e) latest
                  ∙ or_earlier-if (eq_text k key) (meta_of e) (find latest key))
              ∙ or_earlier_assoc later here (find latest key))
    ]

-- The map of a batch has, for each key, the last event of the batch with that key.
pub build_latest_event_by_key-IsLast :
    (events : List EventRow) (derived : Derived) (key : Text)
    → find (build_latest_event_by_key events derived) key ≡ last_event derived events key
unfolding build_latest_event_by_key find
build_latest_event_by_key-IsLast events derived key =
    find-latest_from derived events [] key ∙ or_earlier-none (last_event derived events key)

abbrev pub new_link_total : List (Text × Aggregate) → ℕ
new_link_total [] = 0
new_link_total ((id, agg) ∷ aggregates) = agg.new_link_count + new_link_total aggregates

abbrev pub count_of : Option Aggregate → ℕ
count_of none = 0
count_of (some agg) = agg.new_link_count

new_link_total-put :
    (id : Text) (agg : Aggregate) (aggregates : List (Text × Aggregate))
    → new_link_total (put id agg aggregates) + count_of (find aggregates id)
      ≡ new_link_total aggregates + agg.new_link_count
unfolding put find
new_link_total-put id agg [] = omega arith
new_link_total-put id agg ((j, a) ∷ aggregates) =
    ground (arith, new_link_total-put id agg aggregates)

next_aggregate-count :
    (is_new : Bool) (meta : PubkeyMeta) (old : Option Aggregate)
    → (next_aggregate is_new meta old).new_link_count ≡ count_of old + one_if is_new
unfolding next_aggregate first_aggregate grow
next_aggregate-count is_new meta none = omega arith
next_aggregate-count is_new meta (some agg) = refl

module _ (existing : List Text) where
  abbrev IsBalanced : Tally → Type 0
  IsBalanced t = new_link_total t.aggregates ≡ t.new_links

  count_pairs-IsBalanced :
      (pairs : List Pair) (t : Tally) → IsBalanced t → IsBalanced (count_pairs existing pairs t)
  unfolding count_pairs count_pair
  count_pairs-IsBalanced [] t b = b
  count_pairs-IsBalanced (p ∷ pairs) t b =
      let old = find t.aggregates p.account_id in
      let new = is_new_link existing p in
      count_pairs-IsBalanced pairs (count_pair existing p t) (
        omega (
          arith,
          b,
          new_link_total-put p.account_id (next_aggregate new p.meta old) t.aggregates,
          next_aggregate-count new p.meta old,
        ))

  linked_rows-count_pairs :
      (pairs : List Pair) (t : Tally)
      → (count_pairs existing pairs t).linked_rows ≡ t.linked_rows + length pairs
  unfolding count_pairs count_pair
  linked_rows-count_pairs [] t = omega arith
  linked_rows-count_pairs (p ∷ pairs) t =
      omega (arith, linked_rows-count_pairs pairs (count_pair existing p t))

  one_if_le : (b : Bool) → one_if b ≤ 1
  one_if_le true = omega arith
  one_if_le false = omega arith

  new_links-count_pairs :
      (pairs : List Pair) (t : Tally)
      → (count_pairs existing pairs t).new_links ≤ t.new_links + length pairs
  unfolding count_pairs count_pair
  new_links-count_pairs [] t = omega arith
  new_links-count_pairs (p ∷ pairs) t = omega (
    arith,
    new_links-count_pairs pairs (count_pair existing p t),
    one_if_le (is_new_link existing p),
  )

  -- For all pairs of a key and an account, the deltas of the accounts' key counts add up to the number of
  -- new links, every pair is counted as a linked row, and there are no more new links than pairs.
  pub count_pairs-IsCounted :
      (pairs : List Pair)
      → let t = count_pairs existing pairs nothing_counted in
        (new_link_total t.aggregates ≡ t.new_links)
        × ((t.linked_rows ≡ length pairs) × (t.new_links ≤ length pairs))
  count_pairs-IsCounted pairs = (
    count_pairs-IsBalanced pairs nothing_counted refl,
    (
      omega (arith, linked_rows-count_pairs pairs nothing_counted),
      omega (arith, new_links-count_pairs pairs nothing_counted),
    ),
  )
