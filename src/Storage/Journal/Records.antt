-- ===== src/Storage/Journal/Records.antt =====
-- The bytes of one journal record, `encode_journal_record` and `decode_journal_record` of
-- chainbreaker/storage/formats.py.
use chain_breaker.Base.{
  ℕ, ◌+◌, ◌-◌, ◌^◌, ◌≤◌, ◌<◌, ◌≡◌, refl, sym, ap, ◌∙◌, true, false, [], ◌∷◌, ◌++◌, append_assoc,
  Bytes, bytes_eq, bytes_eq_self, length, length-append, length-drop, length-take, take-append_long,
  inl, inr, Bool-cases, take, drop, ok, raise, value_error, arith, ltb,
}
use chain_breaker.Stdlib.{to_le, from_le, slice}
use chain_breaker.Stdlib.Integers.{length-to_le, from_le-to_le, pack_fits}
use chain_breaker.Codec.{byte_at}
use chain_breaker.Codec.Reading.{byte_at_here, length_here, move, slice_at}
use chain_breaker.Merkle.{double_sha256}
use chain_breaker.Storage.Journal.{
  JournalRecord, journal_magic, max_journal_payload, encode_journal_record, decode_journal_record,
}

-- The numbers fit their fields.
pub record IsRecord (r : JournalRecord) : Type 0 where
  pub kind : r.kind < 256
  pub seq : r.seq < 256 ^ 8
  pub height : r.height < 256 ^ 8
  pub payload : length r.payload ≤ max_journal_payload

-- the fields between the magic and the payload
abbrev pub header : JournalRecord → Bytes
header r = to_le 1 r.kind ++ (to_le 8 r.seq ++ (to_le 8 r.height ++ to_le 4 (length r.payload)))

length-header : (r : JournalRecord) → length (header r) ≡ 21
length-header r =
    rw
      (
        length-append,
        length-append,
        length-append,
        length-to_le 8 r.seq,
        length-to_le 8 r.height,
        length-to_le 4 (length r.payload),
        length-to_le 1 r.kind,
      )
      refl

one_byte : (n : ℕ) → n < 256 → to_le 1 n ≡ n ∷ []
unfolding to_le
one_byte n h = ap (λ k. k ∷ []) (omega arith)

-- What the decoder reads in front of the payload.
record Reads (raw : Bytes) (offset : ℕ) (r : JournalRecord) : Type 0 where
  magic : bytes_eq (slice raw offset 4) journal_magic ≡ true
  kind : byte_at raw (offset + 4) ≡ ok r.kind
  seq : from_le (slice raw (offset + 5) 8) ≡ r.seq
  height : from_le (slice raw (offset + 13) 8) ≡ r.height
  size : from_le (slice raw (offset + 21) 4) ≡ length r.payload

reads :
    (raw : Bytes) (offset : ℕ) (r : JournalRecord) (tail : Bytes)
    → IsRecord r
    → drop offset raw ≡ journal_magic ++ (header r ++ tail)
    → Reads raw offset r
reads raw offset r tail w here =
    let n = length r.payload in
    let at = here ∙ ap (λ k. journal_magic ++ k) (assoc r tail) in
    let at1 = move raw offset (offset + 4) 4 journal_magic _ at refl refl in
    let at2 =
      move raw (offset + 4) (offset + 5) 1 (to_le 1 r.kind) _ at1 (length-to_le 1 r.kind)
        (omega arith) in
    let at3 =
      move raw (offset + 5) (offset + 13) 8 (to_le 8 r.seq) _ at2 (length-to_le 8 r.seq)
        (omega arith) in
    let at4 =
      move raw (offset + 13) (offset + 21) 8 (to_le 8 r.height) _ at3 (length-to_le 8 r.height)
        (omega arith) in
    record {
      magic = rw (slice_at raw offset 4 journal_magic _ at refl) (bytes_eq_self journal_magic);
      kind = byte_at_here raw (offset + 4) r.kind _ (rw (one_byte r.kind w.kind) at at1);
      seq =
          ap from_le (slice_at raw (offset + 5) 8 (to_le 8 r.seq) _ at2 (length-to_le 8 r.seq))
          ∙ from_le-to_le 8 r.seq w.seq;
      height =
          ap from_le
            (slice_at raw (offset + 13) 8 (to_le 8 r.height) _ at3 (length-to_le 8 r.height))
          ∙ from_le-to_le 8 r.height w.height;
      size =
          ap from_le (slice_at raw (offset + 21) 4 (to_le 4 n) _ at4 (length-to_le 4 n))
          ∙ from_le-to_le 4 n (omega (arith, w.payload));
    }
  where
    assoc :
        (r : JournalRecord) (tail : Bytes)
        → header r ++ tail
          ≡ to_le 1 r.kind
            ++ (to_le 8 r.seq ++ (to_le 8 r.height ++ (to_le 4 (length r.payload) ++ tail)))
    assoc r tail = simp append_assoc refl

module _ (sha256 : Bytes → Bytes) (digest : (b : Bytes) → length (sha256 b) ≡ 32) where
  abbrev pub checksum : JournalRecord → Bytes
  checksum r = double_sha256 sha256 (header r ++ r.payload)

  -- the bytes of a record
  abbrev pub entry : JournalRecord → Bytes
  entry r = journal_magic ++ (header r ++ (r.payload ++ checksum r))

  pub length-checksum : (r : JournalRecord) → length (checksum r) ≡ 32
  unfolding double_sha256
  length-checksum r = digest _

  pub length-entry : (r : JournalRecord) → length (entry r) ≡ 57 + length r.payload
  length-entry r =
      let outer = length-append (header r) (r.payload ++ checksum r) in
      let inner = length-append r.payload (checksum r) in
      omega (arith, outer, inner, length-header r, length-checksum r)

  pub encode_journal_record-entry :
      (r : JournalRecord) → IsRecord r → encode_journal_record sha256 r ≡ ok (entry r)
  unfolding encode_journal_record
  encode_journal_record-entry r w =
      let small : ltb max_journal_payload (length r.payload) ≡ false = ground (arith, w.payload) in
      rw
        (
          small,
          pack_fits 1 r.kind w.kind,
          pack_fits 8 r.seq w.seq,
          pack_fits 8 r.height w.height,
          pack_fits 4 (length r.payload) (omega (arith, w.payload)),
        )
        refl

  header_of :
      (r : JournalRecord) (rest : Bytes)
      → entry r ++ rest ≡ journal_magic ++ (header r ++ (r.payload ++ (checksum r ++ rest)))
  header_of r rest = simp append_assoc refl

  -- What an entry decodes to, wherever it stands.
  pub decode_journal_record_here :
      (raw : Bytes) (offset : ℕ) (r : JournalRecord) (rest : Bytes)
      → IsRecord r
      → drop offset raw ≡ entry r ++ rest
      → decode_journal_record sha256 raw offset ≡ ok (r, offset + 25 + length r.payload + 32)
  unfolding decode_journal_record
  decode_journal_record_here raw offset r rest w here =
      let n = length r.payload in
      let total = length_here raw offset (entry r) rest here in
      let size = length-entry r in
      let at = here ∙ header_of r rest in
      let head = move raw offset (offset + 4) 4 journal_magic _ at refl refl in
      let body =
        move raw (offset + 4) (offset + 25) 21 (header r) _ head (length-header r) (omega arith) in
      let last = move raw (offset + 25) (offset + 25 + n) n r.payload _ body refl refl in
      let fields = reads raw offset r _ w at in
      let long : ltb (length raw) (offset + 25) ≡ false = ground (arith, total, size) in
      let whole : ltb (length raw) (offset + 25 + n + 32) ≡ false = ground (arith, total, size) in
      let fits : ltb max_journal_payload n ≡ false = ground (arith, w.payload) in
      let rest_size : offset + 25 + n + 32 - (offset + 25 + n) ≡ 32 = omega arith in
      rw
        (
          long,
          fields.magic,
          fields.kind,
          fields.seq,
          fields.height,
          fields.size,
          fits,
          whole,
          slice_at raw (offset + 25) n r.payload _ body refl,
          rest_size,
          slice_at raw (offset + 25 + n) 32 (checksum r) _ last (length-checksum r),
          slice_at raw (offset + 4) 21 (header r) _ head (length-header r),
          bytes_eq_self (checksum r),
        )
        refl

  -- A strict prefix of an entry at the end of the file does not decode.
  pub decode_journal_record_cut :
      (raw : Bytes) (offset : ℕ) (r : JournalRecord) (k : ℕ)
      → IsRecord r
      → offset ≤ length raw
      → k < length (entry r)
      → drop offset raw ≡ take k (entry r)
      → decode_journal_record sha256 raw offset ≡ raise value_error
  unfolding decode_journal_record
  decode_journal_record_cut raw offset r k w inside short here =
      let n = length r.payload in
      let total = length-drop offset raw in
      let size = length-take k (entry r) (omega (arith, short)) in
      let left : length raw - offset ≡ k = sym total ∙ ap length here ∙ size in
      elim (Bool-cases (ltb k 25)) [
        | inl few ↦
            let long : ltb (length raw) (offset + 25) ≡ true = ground (arith, left, few) in
            rw long refl
        | inr many ↦
            let cut =
              take-append_long (journal_magic ++ header r) (r.payload ++ checksum r) 25 (k - 25)
                (omega (arith, length-header r)) in
            let all : 25 + (k - 25) ≡ k = ground (arith, many) in
            let fields =
              reads raw offset r _ w (here ∙ ap (λ m. take m (entry r)) (sym all) ∙ cut) in
            let long : ltb (length raw) (offset + 25) ≡ false = ground (arith, left, many) in
            let fits : ltb max_journal_payload n ≡ false = ground (arith, w.payload) in
            let missing : ltb (length raw) (offset + 25 + n + 32) ≡ true =
              ground (arith, left, short, length-entry r) in
            rw
              (
                long, fields.magic, fields.kind, fields.seq, fields.height, fields.size, fits,
                missing,
              )
              refl
      ]
