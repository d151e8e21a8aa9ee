-- ===== src/Extract/Chunker.antt =====
-- internal/extract/chunker.go: the adaptive chunk size.
pub mod Bounds
mod Tests
use blockchain_data_feeds_po.Prelude.{ℕ, ◌+◌, ◌/◌, ltb, leb, ◌==◌, if◌then◌else◌, add64}

pub record Chunker : Type 0 where
  pub min : ℕ
  pub max : ℕ
  pub current : ℕ

-- `uint64` parameters, in the order of the source.
unfoldable pub new_chunker : ℕ → ℕ → ℕ → Chunker
new_chunker min max start =
    let min' = if min == 0 then 1 else min in
    let max' = if ltb max min' then min' else max in
    let start' = if ltb start min' then min' else start in
    let start'' = if ltb max' start' then max' else start' in
    record { min = min'; max = max'; current = start'' }

pub current_size : Chunker → ℕ
current_size c = c.current

unfoldable pub on_error : Chunker → Chunker
on_error c =
    if leb c.current c.min
    then c
    else let next = c.current / 2 in record c { current = if ltb next c.min then c.min else next }

unfoldable pub on_success : Chunker → Chunker
on_success c =
    if leb c.max c.current
    then c
    else let grow = c.current / 10 + 1 in
      let next = add64 c.current grow in
      record c { current = if ltb c.max next then c.max else next }
