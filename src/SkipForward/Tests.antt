-- ===== src/SkipForward/Tests.antt =====
-- A checkpoint that is stranded, and the skip that follows.
use fast_auth_indexer_api.Prelude.{refl, inl, some, [], arith, codes, print}
use fast_auth_indexer_api.Checkpoints.{empty, get, set, near_last_scanned_height}
use fast_auth_indexer_api.NearBlock.{Block}
use fast_auth_indexer_api.Ingest.{returned}
use fast_auth_indexer_api.Ingest.Run.Coverage.{IsCovered}
use fast_auth_indexer_api.SkipForward.{Ops, Answers, on_module_init}
use fast_auth_indexer_api.SkipForward.Laws.{on_module_init-IsCovered}

abbrev sample_block : Block
sample_block = record {
  height = some 195_000_000;
  hash = some (codes "tip");
  timestamp = some 1;
  chunks = [];
}

abbrev sample_answers : Answers
sample_answers = record {
  final_block = returned sample_block;
  by_height = λ h. returned sample_block;
}

abbrev sample_ops : Ops
sample_ops = record {
  checkpoints = set near_last_scanned_height (print 194_800_000) empty;
  ledger = [];
}

sample-IsCovered : IsCovered 194_800_001 [] sample_ops.checkpoints sample_ops.ledger
unfolding get set
sample-IsCovered = record {
  scanned = 194_800_000;
  stored = inl (refl, omega arith);
  accounted = λ h lo hi. absurd (omega arith);
}

on_module_init-IsCovered_example :
    IsCovered 194_800_001 []
      (on_module_init sample_answers sample_answers 5 sample_ops).checkpoints
      (on_module_init sample_answers sample_answers 5 sample_ops).ledger
on_module_init-IsCovered_example =
    on_module_init-IsCovered 194_800_001 [] sample_answers sample_answers 5 sample_ops
      sample-IsCovered
