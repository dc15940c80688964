-- ===== src/Storage/Journal/Examples.antt =====
-- A journal of two records, with and without a torn write.
use chain_breaker.Base.{
  ℕ, ◌≡◌, refl, List, [], ◌∷◌, ◌++◌, Bytes, length, replicate, length-replicate, ok, arith, take,
}
use chain_breaker.Storage.Journal.{JournalRecord, read_records, append}
use chain_breaker.Storage.Journal.Records.{entry, length-entry}
use chain_breaker.Storage.Journal.Torn.{
  Write, numbered, write_all, read_records-write_all, append_after_torn,
}

abbrev toy : Bytes → Bytes
toy raw = replicate 32 9

toy-digest : (b : Bytes) → length (toy b) ≡ 32
toy-digest b = length-replicate {A = ℕ} 32 9

abbrev writes : List Write
writes =
    record { kind = 1; height = 5; payload = [] }
    ∷ record { kind = 16; height = 5; payload = 1 ∷ 2 ∷ [] }
    ∷ []

abbrev lost : JournalRecord
lost = record { kind = 1; seq = 3; height = 6; payload = [] }

read_records-write_all_example :
    (raw : Bytes) × (write_all toy toy-digest [] writes ≡ ok raw)
    × (read_records toy (raw ++ take 30 (entry toy toy-digest lost)) ≡ numbered 1 writes)
read_records-write_all_example =
    read_records-write_all toy toy-digest writes (take 30 (entry toy toy-digest lost))
      (omega arith, omega arith, omega arith, (omega arith, omega arith, omega arith, tt))
      (omega arith)
      (
        lost,
        30,
        record {
          kind = omega arith;
          seq = omega arith;
          height = omega arith;
          payload = omega arith;
        },
        omega (arith, length-entry toy toy-digest lost),
        refl,
      )

append_after_torn_example :
    (raw : Bytes) × (raw' : Bytes) × (write_all toy toy-digest [] writes ≡ ok raw)
    × (append toy (raw ++ (67 ∷ [])) 1 6 [] ≡ ok raw')
    × (read_records toy raw' ≡ numbered 1 writes)
append_after_torn_example =
    append_after_torn toy toy-digest writes (record { kind = 1; height = 6; payload = [] })
      (
        omega arith,
        omega arith,
        omega arith,
        (omega arith, omega arith, omega arith, (omega arith, omega arith, omega arith, tt)),
      )
      (omega arith)
