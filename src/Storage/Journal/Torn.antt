-- ===== src/Storage/Journal/Torn.antt =====
-- Journals of appended records, with a torn write at the end: what the loop of
-- chainbreaker/storage/journal.py reads of them.
use chain_breaker.Base.{
  ℕ, zero, suc, ◌+◌, ◌^◌, ◌≤◌, ◌<◌, ◌≡◌, refl, sym, ap, ◌∙◌, true, false, List, [], ◌∷◌, ◌++◌,
  append-nil, append_assoc, Bytes, bytes_eq, length, length-append, take, drop, max, Result, ok,
  raise, ◌>>=◌, value_error, arith, ltb, Bool-cases, inl, inr,
}
use chain_breaker.Stdlib.{slice}
use chain_breaker.Codec.Reading.{move, length_here}
use chain_breaker.Storage.Journal.{
  JournalRecord, max_journal_payload, decode_journal_record, read_from, read_records, max_seq,
  highest_seq, append,
}
use chain_breaker.Storage.Journal.Records.{
  IsRecord, entry, length-entry, encode_journal_record-entry, decode_journal_record_here,
  decode_journal_record_cut,
}

-- what a caller of `append` gives
pub record Write : Type 0 where
  pub kind : ℕ
  pub height : ℕ
  pub payload : Bytes

abbrev pub AreWritable : List Write → Type 0
AreWritable [] = Unit
AreWritable (w ∷ ws) =
    (w.kind < 256)
    × (w.height < 256 ^ 8)
    × (length w.payload ≤ max_journal_payload)
    × AreWritable ws

abbrev pub AreRecords : List JournalRecord → Type 0
AreRecords [] = Unit
AreRecords (r ∷ rs) = IsRecord r × AreRecords rs

abbrev numbered_one : ℕ → Write → JournalRecord
numbered_one seq w = record { kind = w.kind; seq = seq; height = w.height; payload = w.payload }

-- the records with consecutive numbers
abbrev pub numbered : ℕ → List Write → List JournalRecord
numbered seq [] = []
numbered seq (w ∷ ws) = numbered_one seq w ∷ numbered (seq + 1) ws

abbrev blank : JournalRecord
blank = record { kind = 0; seq = 0; height = 0; payload = [] }

AreRecords-snoc :
    (rs : List JournalRecord) (r : JournalRecord)
    → AreRecords rs
    → IsRecord r
    → AreRecords (rs ++ (r ∷ []))
AreRecords-snoc [] r h k = (k, tt)
AreRecords-snoc (x ∷ rs) r h k = (h.0, AreRecords-snoc rs r h.1 k)

module _ (sha256 : Bytes → Bytes) (digest : (b : Bytes) → length (sha256 b) ≡ 32) where
  max_seq-snoc :
      (m : ℕ) (rs : List JournalRecord) (r : JournalRecord)
      → max_seq sha256 m (rs ++ (r ∷ [])) ≡ max (max_seq sha256 m rs) r.seq
  unfolding max_seq
  max_seq-snoc m [] r = refl
  max_seq-snoc m (x ∷ rs) r = max_seq-snoc (max m x.seq) rs r

  max_seq-numbered :
      (m : ℕ) (ws : List Write) → max_seq sha256 m (numbered (m + 1) ws) ≡ m + length ws
  unfolding max_seq
  max_seq-numbered m [] = omega arith
  max_seq-numbered m (w ∷ ws) =
      let step : max m (m + 1) ≡ m + 1 = omega arith in
      rw (step, max_seq) (max_seq-numbered (m + 1) ws ∙ omega arith)

  abbrev entries : List JournalRecord → Bytes
  entries [] = []
  entries (r ∷ rs) = entry sha256 digest r ++ entries rs

  entries-snoc :
      (rs : List JournalRecord) (r : JournalRecord)
      → entries (rs ++ (r ∷ [])) ≡ entries rs ++ entry sha256 digest r
  entries-snoc [] r = append-nil (entry sha256 digest r)
  entries-snoc (x ∷ rs) r =
      ap (λ k. entry sha256 digest x ++ k) (entries-snoc rs r)
      ∙ sym (append_assoc (entry sha256 digest x) (entries rs) (entry sha256 digest r))

  length-le-entries : (rs : List JournalRecord) → length rs ≤ length (entries rs)
  length-le-entries [] = omega arith
  length-le-entries (r ∷ rs) = omega (
    arith,
    length-append (entry sha256 digest r) (entries rs),
    length-entry sha256 digest r,
    length-le-entries rs,
  )

  -- A strict prefix of a record, such as a crash leaves behind.
  abbrev pub IsTorn : Bytes → Type 0
  IsTorn torn =
      (r : JournalRecord) × (k : ℕ) × IsRecord r
      × (k < length (entry sha256 digest r))
      × (torn ≡ take k (entry sha256 digest r))

  -- No record is read where the torn bytes stand.
  abbrev Stops : Bytes → Bytes → Type 0
  Stops raw torn =
      (offset : ℕ)
      → offset ≤ length raw
      → drop offset raw ≡ torn
      → decode_journal_record sha256 raw offset ≡ raise value_error

  Torn-Stops : (raw torn : Bytes) → IsTorn torn → Stops raw torn
  Torn-Stops raw torn (r, k, valid, short, cut) offset inside here =
      decode_journal_record_cut sha256 digest raw offset r k valid inside short (here ∙ cut)

  read_from-entries :
      (fuel : ℕ) (raw : Bytes) (offset : ℕ) (rs : List JournalRecord) (torn : Bytes)
      → AreRecords rs
      → Stops raw torn
      → offset ≤ length raw
      → drop offset raw ≡ entries rs ++ torn
      → length rs ≤ fuel
      → read_from sha256 fuel raw offset ≡ rs
  unfolding read_from
  read_from-entries zero raw offset [] torn w t inside here f = refl
  read_from-entries zero raw offset (r ∷ rs) torn w t inside here f = absurd (omega arith)
  read_from-entries (suc fuel) raw offset [] torn w t inside here f =
      elim (Bool-cases (ltb offset (length raw))) [
        | inl more ↦ rw (more, t offset inside here, read_from) refl
        | inr done ↦ rw (done, read_from) refl
      ]
  read_from-entries (suc fuel) raw offset (r ∷ rs) torn w t inside here f =
      let here' = here ∙ append_assoc (entry sha256 digest r) (entries rs) torn in
      let size = length-entry sha256 digest r in
      let total = length_here raw offset (entry sha256 digest r) (entries rs ++ torn) here' in
      let decoded =
        decode_journal_record_here sha256 digest raw offset r (entries rs ++ torn) w.0 here' in
      let next = offset + 25 + length r.payload + 32 in
      let behind =
        move raw offset next (57 + length r.payload) (entry sha256 digest r) (entries rs ++ torn)
          here' size (omega arith) in
      let more : ltb offset (length raw) ≡ true = ground (arith, total, size) in
      rw (more, decoded, read_from)
        (ap (◌∷◌ r) (
          read_from-entries fuel raw next rs torn w.1 t (omega (arith, total, size)) behind
            (omega arith)))

  read_records-entries :
      (rs : List JournalRecord) (torn : Bytes)
      → AreRecords rs
      → Stops (entries rs ++ torn) torn
      → read_records sha256 (entries rs ++ torn) ≡ rs
  unfolding read_records
  read_records-entries rs torn w t =
      read_from-entries (length (entries rs ++ torn)) (entries rs ++ torn) 0 rs torn w t
        (omega arith) refl (omega (arith, length-append (entries rs) torn, length-le-entries rs))

  -- The calls of `append`, one after the other.
  unfoldable pub write_all : Bytes → List Write → Result Bytes
  write_all raw [] = ok raw
  write_all raw (w ∷ ws) = do
    longer ← append sha256 raw w.kind w.height w.payload
    write_all longer ws

  blank-IsRecord : IsRecord blank
  blank-IsRecord = record {
    kind = omega arith;
    seq = omega arith;
    height = omega arith;
    payload = omega arith;
  }

  nil-IsTorn : IsTorn []
  nil-IsTorn = (blank, 0, blank-IsRecord, omega (arith, length-entry sha256 digest blank), refl)

  one-IsTorn : IsTorn (67 ∷ [])
  one-IsTorn = (blank, 1, blank-IsRecord, omega (arith, length-entry sha256 digest blank), refl)

  highest_seq-entries :
      (rs : List JournalRecord)
      → AreRecords rs
      → highest_seq sha256 (entries rs) ≡ max_seq sha256 0 rs
  unfolding highest_seq
  highest_seq-entries rs w = ap (max_seq sha256 0) (
      ap (read_records sha256) (sym (append-nil (entries rs)))
      ∙ read_records-entries rs [] w (Torn-Stops _ [] nil-IsTorn))

  append-entries :
      (rs : List JournalRecord) (w : Write)
      → AreRecords rs
      → IsRecord (numbered_one (max_seq sha256 0 rs + 1) w)
      → append sha256 (entries rs) w.kind w.height w.payload
        ≡ ok (entries (rs ++ (numbered_one (max_seq sha256 0 rs + 1) w ∷ [])))
  unfolding append
  append-entries rs w valid new =
      rw
        (
          highest_seq-entries rs valid,
          encode_journal_record-entry sha256 digest (numbered_one (max_seq sha256 0 rs + 1) w) new,
          entries-snoc rs (numbered_one (max_seq sha256 0 rs + 1) w),
        )
        refl

  write_all-entries :
      (rs : List JournalRecord) (ws : List Write) (m : ℕ)
      → AreRecords rs
      → AreWritable ws
      → max_seq sha256 0 rs ≡ m
      → m + length ws < 256 ^ 8
      → write_all (entries rs) ws ≡ ok (entries (rs ++ numbered (m + 1) ws))
        × AreRecords (rs ++ numbered (m + 1) ws)
  unfolding write_all
  write_all-entries rs [] m valid fits top room =
      (ap (λ k. ok (entries k)) (sym (append-nil rs)), rw append-nil valid)
  write_all-entries rs (w ∷ ws) m valid (kind, height, payload, fits) top room =
      let r = numbered_one (m + 1) w in
      let new : IsRecord r = record {
        kind = kind;
        seq = omega arith;
        height = height;
        payload = payload;
      } in
      let step = append-entries rs w valid (rw top new) in
      let longer = AreRecords-snoc rs r valid new in
      let next : max_seq sha256 0 (rs ++ (r ∷ [])) ≡ m + 1 =
        max_seq-snoc 0 rs r ∙ rw top (omega arith) in
      let (rest, all) =
        write_all-entries (rs ++ (r ∷ [])) ws (m + 1) longer fits next (omega arith) in
      let joined = append_assoc rs (r ∷ []) (numbered (m + 1 + 1) ws) in
      (rw (step, top) (rest ∙ ap (λ k. ok (entries k)) joined), rw joined at all)

  -- After any number of appends to an empty journal, each of a payload within the limit, and then a
  -- torn write (a strict prefix of a record, possibly nothing), the journal reads back exactly the
  -- appended records, numbered from 1.
  pub read_records-write_all :
      (ws : List Write) (torn : Bytes)
      → AreWritable ws
      → length ws < 256 ^ 8
      → IsTorn torn
      → (raw : Bytes) × (write_all [] ws ≡ ok raw)
        × (read_records sha256 (raw ++ torn) ≡ numbered 1 ws)
  unfolding max_seq
  read_records-write_all ws torn fits room t =
      let (written, all) = write_all-entries [] ws 0 tt fits refl (omega arith) in
      (
        entries (numbered 1 ws),
        written,
        read_records-entries (numbered 1 ws) torn all (Torn-Stops _ torn t),
      )

  misaligned-Stops : (raw : Bytes) (r : JournalRecord) → Stops raw (67 ∷ entry sha256 digest r)
  unfolding decode_journal_record bytes_eq
  misaligned-Stops raw r offset inside here =
      let total =
        length_here raw offset (67 ∷ entry sha256 digest r) [] (here ∙ sym (append-nil _)) in
      let size = length-entry sha256 digest r in
      let long : ltb (length raw) (offset + 25) ≡ false = ground (arith, total, size) in
      let start : slice raw offset 4 ≡ 67 ∷ 67 ∷ 66 ∷ 74 ∷ [] = ap (take 4) here in
      rw (long, start) refl

  -- After a torn write that left the first byte of a record behind, a further append succeeds, but
  -- the record is lost: the journal reads back the records before the torn write alone.
  pub append_after_torn :
      (ws : List Write) (w : Write)
      → AreWritable (w ∷ ws)
      → length ws + 1 < 256 ^ 8
      → (raw : Bytes) × (raw' : Bytes) × (write_all [] ws ≡ ok raw)
        × (append sha256 (raw ++ (67 ∷ [])) w.kind w.height w.payload ≡ ok raw')
        × (read_records sha256 raw' ≡ numbered 1 ws)
  unfolding append max_seq highest_seq
  append_after_torn ws w (kind, height, payload, fits) room =
      let rs = numbered 1 ws in
      let r = numbered_one (length ws + 1) w in
      let new : IsRecord r = record {
        kind = kind;
        seq = omega arith;
        height = height;
        payload = payload;
      } in
      let (written, all) = write_all-entries [] ws 0 tt fits refl (omega arith) in
      let seen = read_records-entries rs (67 ∷ []) all (Torn-Stops _ (67 ∷ []) one-IsTorn) in
      let top : max_seq sha256 0 rs ≡ length ws = max_seq-numbered 0 ws ∙ omega arith in
      let behind = append_assoc (entries rs) (67 ∷ []) (entry sha256 digest r) in
      (
        entries rs,
        entries rs ++ (67 ∷ entry sha256 digest r),
        written,
        rw (seen, top, encode_journal_record-entry sha256 digest r new, behind) refl,
        read_records-entries rs (67 ∷ entry sha256 digest r) all (misaligned-Stops _ r),
      )
