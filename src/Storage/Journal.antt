-- ===== src/Storage/Journal.antt =====
-- chainbreaker/storage/formats.py and journal.py: the records of the write-ahead journal, and the
-- journal as the bytes of its file. `fsync` and failpoints leave no trace in the bytes.
pub mod Records
pub mod Torn
mod Examples
use chain_breaker.Base.{
  ℕ, zero, suc, ◌+◌, ◌-◌, ◌*◌, ◌^◌, Bool, true, false, not, List, [], ◌∷◌, ◌++◌, Bytes, bytes_eq,
  length, max, Result, ok, raise, ◌>>=◌, ◌>>◌, raise_if, Exn, value_error, ltb, leb, ◌==◌,
  if◌then◌else◌,
}
use chain_breaker.Stdlib.{pack, from_le, slice}
use chain_breaker.Codec.{byte_at}
use chain_breaker.Merkle.{double_sha256}

abbrev pub journal_magic : Bytes
journal_magic = 67 ∷ 66 ∷ 74 ∷ 82 ∷ []

abbrev pub journal_commit : ℕ
journal_commit = 0x10

abbrev pub max_journal_payload : ℕ
max_journal_payload = 64 * 1024 * 1024

-- the dictionary of a decoded record
pub record JournalRecord : Type 0 where
  pub kind : ℕ
  pub seq : ℕ
  pub height : ℕ
  pub payload : Bytes

-- `data[start:stop]`
abbrev pub between : Bytes → ℕ → ℕ → Bytes
between raw start stop = slice raw start (stop - start)

module _ (sha256 : Bytes → Bytes) where
  -- `encode_journal_record`; a number out of range raises `struct.error`
  unfoldable pub encode_journal_record : JournalRecord → Result Bytes
  encode_journal_record r = do
    raise_if (ltb max_journal_payload (length r.payload)) value_error
    kind ← pack 1 r.kind
    seq ← pack 8 r.seq
    height ← pack 8 r.height
    size ← pack 4 (length r.payload)
    let header = kind ++ (seq ++ (height ++ size))
    ok (journal_magic ++ (header ++ (r.payload ++ double_sha256 sha256 (header ++ r.payload))))

  -- `decode_journal_record`: the record at the offset, and the offset behind it
  unfoldable pub decode_journal_record : Bytes → ℕ → Result (JournalRecord × ℕ)
  decode_journal_record raw offset = do
    raise_if (ltb (length raw) (offset + 25)) value_error
    raise_if (not (bytes_eq (slice raw offset 4) journal_magic)) value_error
    kind ← byte_at raw (offset + 4)
    let seq = from_le (slice raw (offset + 5) 8)
    let height = from_le (slice raw (offset + 13) 8)
    let size = from_le (slice raw (offset + 21) 4)
    raise_if (ltb max_journal_payload size) value_error
    raise_if (ltb (length raw) (offset + 25 + size + 32)) value_error
    let payload = slice raw (offset + 25) size
    let stored = between raw (offset + 25 + size) (offset + 25 + size + 32)
    let computed = double_sha256 sha256 (slice raw (offset + 4) 21 ++ payload)
    raise_if (not (bytes_eq stored computed)) value_error
    ok (
      record { kind = kind; seq = seq; height = height; payload = payload },
      offset + 25 + size + 32,
    )

  -- The loop of `read_records`, which stops at the first record that does not decode. Each round
  -- moves the offset, so the length of the file is fuel enough.
  unfoldable pub read_from : ℕ → Bytes → ℕ → List JournalRecord
  read_from zero raw offset = []
  read_from (suc fuel) raw offset = elim (ltb offset (length raw)) [
    | false ↦ []
    | true ↦ elim (decode_journal_record raw offset) [
      | raise e ↦ []
      | ok (r, next) ↦ r ∷ read_from fuel raw next
    ]
  ]

  -- `Journal.read_records`
  unfoldable pub read_records : Bytes → List JournalRecord
  read_records raw = read_from (length raw) raw 0

  -- `Journal._highest_seq`: the greatest number in the same loop
  unfoldable pub max_seq : ℕ → List JournalRecord → ℕ
  max_seq highest [] = highest
  max_seq highest (r ∷ rs) = max_seq (max highest r.seq) rs

  unfoldable pub highest_seq : Bytes → ℕ
  highest_seq raw = max_seq 0 (read_records raw)

  -- `Journal.append`: the file with the record behind it
  unfoldable pub append : Bytes → ℕ → ℕ → Bytes → Result Bytes
  append raw kind height payload = do
    entry ←
        encode_journal_record
          (record { kind = kind; seq = highest_seq raw + 1; height = height; payload = payload })
    ok (raw ++ entry)

  -- the greatest height of a commit record
  unfoldable pub max_commit : ℕ → List JournalRecord → ℕ
  max_commit highest [] = highest
  max_commit highest (r ∷ rs) =
      max_commit
        (if (r.kind == journal_commit)
          then (if ltb highest r.height then r.height else highest)
          else highest)
        rs

  -- `_read_last_commit_height` of chainbreaker/storage/recovery.py
  unfoldable pub last_commit_height : Bytes → ℕ
  last_commit_height raw = max_commit 0 (read_records raw)
