-- ===== src/TtlMemo/Tests.antt =====
-- A call that resolves at 10, and a caller at 15.
use fast_auth_indexer_api.Prelude.{ℕ, ◌+◌, none, some, [], ◌∷◌}
use fast_auth_indexer_api.TtlMemo.{World}

abbrev at_start : World ℕ
at_start = record {
  memo = record { in_flight = none; cached = none };
  next = 0;
  running = [];
  log = [];
}

abbrev called : World ℕ
called = record {
  memo = record { in_flight = some 0; cached = none };
  next = 1;
  running = 0 ∷ [];
  log = [];
}

abbrev cached : World ℕ
cached = record {
  memo = record { in_flight = none; cached = some (record { expires_at = 10 + 60; value = 42 }) };
  next = 1;
  running = [];
  log = (10, 42) ∷ [];
}
