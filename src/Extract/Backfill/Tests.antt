-- ===== src/Extract/Backfill/Tests.antt =====
-- The producer on blocks 1 to 10 in chunks of 4.
use blockchain_data_feeds_po.Prelude.{◌≡◌, some, List, arith}
use blockchain_data_feeds_po.Extract.Backfill.{Range, produce}
use blockchain_data_feeds_po.Extract.Backfill.Cover.{Covers, produce-Covers}

produce-Covers_example : (rs : List Range) × (produce 20 4 1 10 ≡ some rs) × Covers 4 1 11 rs
produce-Covers_example =
    produce-Covers 20 4 1 10 (omega arith) (omega arith) (omega arith) (omega arith)
