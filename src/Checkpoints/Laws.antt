-- ===== src/Checkpoints/Laws.antt =====
-- The checkpoint table as a map.
use fast_auth_indexer_api.Prelude.{
  ℕ, Text, Option, none, some, List, [], ◌∷◌, ◌≡◌, refl, ◌==◌, if◌then◌else◌, number-print, arith,
}
use fast_auth_indexer_api.Checkpoints.{
  Key, key_id, Checkpoints, Entry, get, get_number, set, set_many, set_number, delete,
}

pub get-set :
    (j k : Key) (v : Text) (s : Checkpoints)
    → get k (set j v s) ≡ (if key_id j == key_id k then some v else get k s)
unfolding get set
get-set j k v s = refl

pub get-delete :
    (j k : Key) (s : Checkpoints)
    → get k (delete j s) ≡ (if key_id j == key_id k then none else get k s)
unfolding get delete
get-delete j k s = refl

-- A number that was stored is read back.
pub get_number-set_number :
    (k : Key) (n : ℕ) (s : Checkpoints) → get_number k (set_number k n s) ≡ some n
unfolding get_number set_number
get_number-set_number k n s = ground (arith, number-print n)

-- The last entry of a bulk write with the key, if any.
abbrev pub last_entry : Key → List Entry → Option Text → Option Text
last_entry k [] before = before
last_entry k (e ∷ entries) before =
    last_entry k entries (if key_id e.key == key_id k then some e.value else before)

pub get-set_many :
    (k : Key) (entries : List Entry) (s : Checkpoints)
    → get k (set_many entries s) ≡ last_entry k entries (get k s)
unfolding get set_many
get-set_many k [] s = refl
get-set_many k (e ∷ entries) s = get-set_many k entries (set e.key e.value s)
