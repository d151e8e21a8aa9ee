-- ===== src/Extract/Records/Tests.antt =====
-- buildRecords and the chunk bounds on the sample node.
use blockchain_data_feeds_po.Prelude.{◌≡◌, refl, lit, [], ◌∷◌}
use blockchain_data_feeds_po.Prelude.Exec.{ok}
use blockchain_data_feeds_po.Store.Types.{LogRecord}
use blockchain_data_feeds_po.Extract.Example.{sample, fresh, one_log}
use blockchain_data_feeds_po.Extract.Records.{
  BlockCache, wrapped, get_header, cached, build_record, build_records,
}
use blockchain_data_feeds_po.Extract.Records.Match.{Match, build_records-Match}

abbrev one_record : LogRecord
one_record = record {
  chain_id = 1;
  contract_address = lit "0xa";
  event_name = lit "E";
  block_number = 3;
  block_hash = lit "0xb3";
  tx_hash = lit "0xt";
  log_index = 0;
  timestamp = 0;
  args_json = lit "{}";
  topics_json = lit "[]";
  data_hex = [];
  inserted_at = 0;
}

abbrev headers : BlockCache
headers = (3, record { number = 3; hash = lit "0xb"; timestamp = 0 }) ∷ []

built : (build_records sample [] (one_log ∷ []) fresh).0 ≡ ok (one_record ∷ [], headers)
unfolding build_records build_record get_header cached wrapped
built = refl

build_records-Match_example : Match 1 (one_log ∷ []) (one_record ∷ [])
build_records-Match_example =
    build_records-Match sample [] (one_log ∷ []) fresh (one_record ∷ [], headers) built
