-- ===== src/Registry/Deserialize/RoundTrip.antt =====
-- What `serialize_registry_state` of chainbreaker/registry_state.py writes is read again.
use chain_breaker.Base.{
  ℕ, suc, ◌+◌, ◌*◌, ◌%◌, ◌^◌, ◌<◌, ◌≡◌, refl, sym, ap, ◌∙◌, true, false, inl, inr, List, [], ◌∷◌,
  ◌++◌, append_assoc, append-nil, Bytes, Str, length, length-append, drop, Result, ok, arith, ltb,
  ◌==◌, Bool-cases,
}
use chain_breaker.Stdlib.{to_le, from_le, utf8, is_encodable}
use chain_breaker.Codec.Header.{IsDigestText}
use chain_breaker.Codec.Reading.{byte_at_here, slice_at, move}
use chain_breaker.Governance.{governance_schema_version}
use chain_breaker.Registry.{
  CuratorRecord, RegistryState, bytes_lt, to_bytes, serialize_records, serialize_keys,
  serialize_registry_state, insert_by_id, sorted_by_id,
}
use chain_breaker.Registry.Deserialize.{keys_at, records_at, deserialize_registry_state}
use chain_breaker.Registry.Deserialize.Pieces.{
  to_bytes_fits, VarintReads, varint, TextReads, name_here,
}
use chain_breaker.Registry.Deserialize.Records.{
  IsStorable, serialize_record_reads, version_bytes, version_written, version_read, from_hex-digest,
}

abbrev pub AreDigests : List Str → Type 0
AreDigests [] = Unit
AreDigests (k ∷ ks) = IsDigestText k × AreDigests ks

abbrev pub AreStorable : List CuratorRecord → Type 0
AreStorable [] = Unit
AreStorable (r ∷ rs) = IsStorable r × AreStorable rs

-- Sorting keeps the records.
insert_by_id-keeps :
    (r : CuratorRecord) (rs : List CuratorRecord)
    → IsStorable r
    → AreStorable rs
    → AreStorable (insert_by_id r rs) × (length (insert_by_id r rs) ≡ suc (length rs))
unfolding insert_by_id
insert_by_id-keeps r [] w ws = ((w, tt), refl)
insert_by_id-keeps r (s ∷ rest) w ws =
    let (kept, size) = insert_by_id-keeps r rest w ws.1 in
    elim (Bool-cases (bytes_lt (utf8 s.curator_id) (utf8 r.curator_id))) [
      | inl less ↦ rw less ((ws.0, kept), ap suc size)
      | inr more ↦ rw more ((w, ws), refl)
    ]

sorted_by_id-keeps :
    (rs : List CuratorRecord)
    → AreStorable rs
    → AreStorable (sorted_by_id rs) × (length (sorted_by_id rs) ≡ length rs)
unfolding sorted_by_id
sorted_by_id-keeps [] ws = (tt, refl)
sorted_by_id-keeps (r ∷ rs) ws =
    let (kept, size) = sorted_by_id-keeps rs ws.1 in
    let (all, longer) = insert_by_id-keeps r (sorted_by_id rs) ws.0 kept in
    (all, longer ∙ ap suc size)

-- Where the bytes of keys stand, they are read.
abbrev KeysRead : List Str → Bytes → Type 0
KeysRead ks part =
    (raw : Bytes) (offset : ℕ) (rest : Bytes)
    → drop offset raw ≡ part ++ rest
    → keys_at (length ks) raw offset ≡ ks

keys_read :
    (ks : List Str)
    → AreDigests ks
    → (part : Bytes) × (serialize_keys ks ≡ ok part)
      × (length part ≡ length ks * 32)
      × KeysRead ks part
unfolding serialize_keys keys_at
keys_read [] w = ([], refl, refl, λ raw offset rest here. refl)
keys_read (k ∷ ks) (d, ds) =
    let (part, written, size, reads) = keys_read ks ds in
    (
      d.0 ++ part,
      rw (from_hex-digest k d, written) refl,
      omega (arith, length-append d.0 part, size, d.3),
      λ raw offset rest here.
          let split = here ∙ append_assoc d.0 part rest in
          let behind = move raw offset (offset + 32) 32 d.0 (part ++ rest) split d.3 refl in
          rw
            (
              slice_at raw offset 32 d.0 (part ++ rest) split d.3,
              reads raw (offset + 32) rest behind,
            )
            (ap (λ s. s ∷ ks) (sym d.1)),
    )

to_le_one : (n : ℕ) → n < 256 → to_le 1 n ≡ n ∷ []
unfolding to_le
to_le_one n h = let same : n % 256 ≡ n = omega arith in rw same refl

-- The version is this one, the network can be encoded, the numbers fit, the keys are the hexadecimal text of 32 bytes, and every
-- record can be stored.
pub record IsStorableState (state : RegistryState) : Type 0 where
  pub version : state.governance_version ≡ governance_schema_version
  pub encodable : is_encodable state.network_id ≡ true
  pub network : length (utf8 state.network_id) < 256 ^ 8
  pub key_count : length state.governance_keys < 256 ^ 8
  pub keys : AreDigests state.governance_keys
  pub threshold : state.threshold < 256
  pub record_count : length state.records < 256 ^ 8
  pub records : AreStorable state.records

module _ (decode_utf8 : Bytes → Result Str)
    (decodes : (s : Str) → is_encodable s ≡ true → decode_utf8 (utf8 s) ≡ ok s) where
  abbrev RecordsRead : List CuratorRecord → Bytes → Type 0
  RecordsRead rs part =
      (raw : Bytes) (offset : ℕ) (rest : Bytes)
      → drop offset raw ≡ part ++ rest
      → records_at decode_utf8 (length rs) raw offset ≡ ok (rs, offset + length part)

  records_read :
      (rs : List CuratorRecord)
      → AreStorable rs
      → (part : Bytes) × (serialize_records rs ≡ ok part) × RecordsRead rs part
  unfolding serialize_records records_at
  records_read [] w = ([], refl, λ raw offset rest here. ap (λ o. ok ([], o)) (omega arith))
  records_read (r ∷ rs) (w, ws) =
      let (first, written, read) = serialize_record_reads decode_utf8 decodes r w in
      let (more, written', reads) = records_read rs ws in
      (
        first ++ more,
        rw (written, written') refl,
        λ raw offset rest here.
            let split = here ∙ append_assoc first more rest in
            let behind =
              move raw offset (offset + length first) (length first) first (more ++ rest) split refl
                refl in
            let sum : offset + length first + length more ≡ offset + length (first ++ more) =
              omega (arith, length-append first more) in
            rw
              (
                read raw offset (more ++ rest) split,
                reads raw (offset + length first) rest behind,
                sum,
              )
              refl,
      )

  -- The parts of a serialized state, and where each of them stands.
  parts_read :
      (state : RegistryState) (network count keys number body : Bytes) (threshold : ℕ)
      → state.governance_version ≡ governance_schema_version
      → state.threshold ≡ threshold
      → TextReads decode_utf8 decodes state.network_id network
      → VarintReads (length state.governance_keys) count
      → length keys ≡ length state.governance_keys * 32
      → KeysRead state.governance_keys keys
      → VarintReads (length state.records) number
      → RecordsRead state.records body
      → deserialize_registry_state decode_utf8
          (version_bytes ++ (network ++ (count ++ (keys ++ (threshold ∷ (number ++ body))))))
        ≡ ok state
  unfolding deserialize_registry_state
  parts_read state network count keys number body threshold current same named counted keys_size
        keyed numbered read =
      let raw = version_bytes ++ (network ++ (count ++ (keys ++ (threshold ∷ (number ++ body))))) in
      let n = length state.governance_keys in
      let o = 4 + length network in
      let o' = o + length count in
      let t = o' + n * 32 in
      let at_count =
        move raw 4 o (length network) network (count ++ (keys ++ (threshold ∷ (number ++ body))))
          refl refl refl in
      let at_keys =
        move raw o o' (length count) count (keys ++ (threshold ∷ (number ++ body))) at_count refl
          refl in
      let at_threshold =
        move raw o' t (n * 32) keys (threshold ∷ (number ++ body)) at_keys keys_size refl in
      let at_number =
        move raw t (t + 1) 1 (threshold ∷ []) (number ++ body) at_threshold refl refl in
      let at_body =
        move raw (t + 1) (t + 1 + length number) (length number) number (body ++ [])
          (at_number ∙ ap (λ b. number ++ b) (sym (append-nil body))) refl refl in
      let total : length raw ≡ t + 1 + length number + length body = omega (
        arith,
        length-append network (count ++ (keys ++ (threshold ∷ (number ++ body)))),
        length-append count (keys ++ (threshold ∷ (number ++ body))),
        length-append keys (threshold ∷ (number ++ body)),
        length-append number body,
        keys_size,
      ) in
      let long : ltb (length raw) 4 ≡ false = ground (arith, total) in
      let version : (from_le version_bytes == governance_schema_version) ≡ true =
        ap (λ k. k == governance_schema_version) version_read in
      let room : ltb (length raw) t ≡ false = ground (arith, total) in
      let end_ : (t + 1 + length number + length body == length raw) ≡ true =
        ground (arith, total) in
      rw
        (
          long,
          version,
          named raw 4 (count ++ (keys ++ (threshold ∷ (number ++ body)))) refl,
          counted raw o (keys ++ (threshold ∷ (number ++ body))) at_count,
          room,
          byte_at_here raw t threshold (number ++ body) at_threshold,
          numbered raw (t + 1) body at_number,
          read raw (t + 1 + length number) [] at_body,
          end_,
          keyed raw o' (threshold ∷ (number ++ body)) at_keys,
          version_read,
          sym same,
          sym current,
        )
        refl

  -- Let the decoder of UTF-8 invert `utf8` on the texts of code points up to 0x10FFFF without
  -- surrogates, and let a registry state have the current version; such texts as its network and its
  -- curators' names; a threshold below 256, fewer than 2 ^ 64 keys and records, and texts of fewer
  -- than 2 ^ 64 bytes; activation heights below 2 ^ 64 and revocation heights, where there is one,
  -- below 2 ^ 64 - 1; keys and transaction hashes that are the hexadecimal text of 32 bytes, those
  -- of a previous key and of a latest rotation, where there is one, not all zeros. Then the state is
  -- serialized, and its bytes are read to the same state, its records in the order of their curators'
  -- names.
  pub deserialize_registry_state-serialize_registry_state :
      (state : RegistryState)
      → IsStorableState state
      → (raw : Bytes) × (serialize_registry_state state ≡ ok raw)
        × (deserialize_registry_state decode_utf8 raw
            ≡ ok (record state { records = sorted_by_id state.records }))
  unfolding serialize_registry_state
  deserialize_registry_state-serialize_registry_state state w =
      let sorted = record state { records = sorted_by_id state.records } in
      let (kept, size) = sorted_by_id-keeps state.records w.records in
      let (network, named, name_reads) =
        name_here decode_utf8 decodes state.network_id w.encodable w.network in
      let (count, counted, count_reads) = varint (length state.governance_keys) w.key_count in
      let (keys, keyed, keys_size, key_reads) = keys_read state.governance_keys w.keys in
      let (number, numbered, number_reads) =
        varint (length (sorted_by_id state.records)) (omega (arith, size, w.record_count)) in
      let (body, written, body_reads) = records_read (sorted_by_id state.records) kept in
      let threshold =
        to_bytes_fits 1 state.threshold w.threshold
        ∙ ap ok (to_le_one state.threshold w.threshold) in
      let version : to_bytes 4 state.governance_version ≡ ok version_bytes =
        ap (to_bytes 4) w.version ∙ version_written in
      (
        version_bytes ++ (network ++ (count ++ (keys ++ (state.threshold ∷ (number ++ body))))),
        rw (version, named, counted, keyed, threshold, numbered, written) refl,
        parts_read sorted network count keys number body state.threshold w.version refl name_reads
            count_reads keys_size key_reads number_reads body_reads,
      )
