-- ===== src/Extract/Records/Match.antt =====
-- The records of buildRecords in internal/extract/extract.go beside its logs.
use blockchain_data_feeds_po.Prelude.{refl, ℕ, ◌≡◌, List, [], ◌∷◌, arith, inl, inr}
use blockchain_data_feeds_po.Prelude.Exec.{Result-cases, ok}
use blockchain_data_feeds_po.Store.Types.{LogRecord}
use blockchain_data_feeds_po.Rpc.Interface.{Log}
use blockchain_data_feeds_po.Extract.Deps.{Deps, World}
use blockchain_data_feeds_po.Extract.Records.{
  BlockCache, wrapped, get_header, build_record, build_records,
}

-- The fields that come from the log itself.
pub record Stands (chain_id : ℕ) (l : Log) (r : LogRecord) : Type 0 where
  pub chain : r.chain_id ≡ chain_id
  pub contract : r.contract_address ≡ l.address
  pub number : r.block_number ≡ l.block_number
  pub hash : r.block_hash ≡ l.block_hash
  pub tx : r.tx_hash ≡ l.tx_hash
  pub index : r.log_index ≡ l.index

abbrev pub Match : ℕ → List Log → List LogRecord → Type 0
Match chain_id [] [] = Unit
Match chain_id [] (r ∷ rs) = ⊥
Match chain_id (l ∷ ls) [] = ⊥
Match chain_id (l ∷ ls) (r ∷ rs) = Stands chain_id l r × Match chain_id ls rs

module _ {C : Type 0} (deps : Deps C) where
  store-get_header :
      (cache : BlockCache) (n : ℕ) (w : World C)
      → ((get_header deps cache n w).1.store ≡ w.store)
        × ((get_header deps cache n w).1.metrics ≡ w.metrics)
  unfolding get_header
  store-get_header cache n w = ground arith

  store-build_record :
      (cache : BlockCache) (l : Log) (w : World C)
      → ((build_record deps cache l w).1.store ≡ w.store)
        × ((build_record deps cache l w).1.metrics ≡ w.metrics)
  unfolding build_record wrapped
  store-build_record cache l w = ground (arith, store-get_header cache l.block_number w)

  build_record-Stands :
      (cache : BlockCache) (l : Log) (w : World C) (p : LogRecord × BlockCache)
      → (build_record deps cache l w).0 ≡ ok p
      → Stands deps.chain_id l p.0
  unfolding build_record wrapped
  build_record-Stands cache l w p h = ground arith

  -- Building records asks the node for headers and changes neither tables nor counters.
  pub store-build_records :
      (cache : BlockCache) (ls : List Log) (w : World C)
      → ((build_records deps cache ls w).1.store ≡ w.store)
        × ((build_records deps cache ls w).1.metrics ≡ w.metrics)
  unfolding build_records
  store-build_records cache [] w = (refl, refl)
  store-build_records cache (l ∷ ls) w = elim (Result-cases (build_record deps cache l w).0) [
    | inl (p, e) ↦ ground (
      arith,
      e,
      store-build_record cache l w,
      store-build_records p.1 ls (build_record deps cache l w).1,
    )
    | inr (x, e) ↦ ground (arith, e, store-build_record cache l w)
  ]

  -- If `buildRecords` returns no error, it has one record for each log, in order, with the chain id,
  -- and the contract, block, transaction and index of the log.
  pub build_records-Match :
      (cache : BlockCache) (ls : List Log) (w : World C) (p : List LogRecord × BlockCache)
      → (build_records deps cache ls w).0 ≡ ok p
      → Match deps.chain_id ls p.0
  unfolding build_records
  build_records-Match cache [] w p h = ground arith
  build_records-Match cache (l ∷ ls) w p h = elim (Result-cases (build_record deps cache l w).0) [
    | inl (q, e) ↦
        elim (Result-cases (build_records deps q.1 ls (build_record deps cache l w).1).0) [
          | inl (rest, f) ↦ ground (
            arith,
            e,
            f,
            build_record-Stands cache l w q e,
            build_records-Match q.1 ls (build_record deps cache l w).1 rest f,
          )
          | inr (x, f) ↦ absurd (ground (arith, e, f))
        ]
    | inr (x, e) ↦ absurd (ground (arith, e))
  ]
