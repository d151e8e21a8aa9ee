-- ===== src/Extract/Chunker/Tests.antt =====
-- Runs of the chunker, after internal/extract/chunker_test.go.
use blockchain_data_feeds_po.Prelude.{◌≡◌, refl}
use blockchain_data_feeds_po.Extract.Chunker.{new_chunker, on_error}

halved : (on_error (new_chunker 10 1000 200)).current ≡ 100
unfolding on_error new_chunker
halved = refl
