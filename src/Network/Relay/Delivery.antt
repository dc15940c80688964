-- ===== src/Network/Relay/Delivery.antt =====
-- chainbreaker/network/relay/engine.py: `RelayEngine.handle_block`, over the ledger and the storage.
use chain_breaker.Base.{
  ℕ, Bool, not, Option, none, some, List, [], ◌∷◌, ◌++◌, Bytes, Str, str_eq, length, Result, ok,
  raise, ◌>>=◌, ltb, if◌then◌else◌,
}
use chain_breaker.Network.Payload.{Conversions}
use chain_breaker.Network.Messages.{Message, block, BlockEntry}
use chain_breaker.Network.Messages.Reading.{read_block}
use chain_breaker.Network.Relay.{
  RelayLimits, Relay, evict, add_seen, has_seen, drop_pending, connect_orphans,
}

-- The ledger and the storage, as the relay calls them.
pub record Chain (W B : Type 0) : Type 0 where
  -- `_decode_block`
  pub decode : Str → Result B
  pub hash_of : B → Str
  -- `Ledger.add_block_v2`
  pub add_block : W → B → W × Bool
  -- `registry_state_at` and `StorageBackend.append_block`; false is an exception
  pub commit : W → B → W × Bool

-- the result of `handle_block` for one entry
pub data BlockStatus : Type 0 where
  mismatch duplicate rejected failed accepted : BlockStatus

module _ {W B : Type 0} (chain : Chain W B) where
  unfoldable pub settle : Relay → Str → Relay
  settle relay h = record relay { pending = drop_pending h relay.pending }

  -- `handle_block` behind a commit
  unfoldable pub accept_block : RelayLimits → ℕ → Str → Str → Relay → Relay × Result BlockStatus
  accept_block limits now peer h relay = elim (add_seen limits now h peer relay.seen) [
    | raise x ↦ (record relay { seen = evict limits.seen_cache_ttl now relay.seen }, raise x)
    | ok seen' ↦ (
      record relay {
        seen = seen';
        pending = drop_pending h relay.pending;
        to_announce = relay.to_announce ++ (h ∷ []);
        orphans = connect_orphans h relay.orphans;
      },
      ok accepted,
    )
  ]

  unfoldable pub commit_block :
      RelayLimits → ℕ → Str → B → W → Relay → (W × Relay) × Result BlockStatus
  commit_block limits now peer b w relay =
      let h = chain.hash_of b in
      let (added, valid) = chain.add_block w b in
      let (stored, committed) = chain.commit added b in
      let (relay', status) = accept_block limits now peer h relay in
      if not valid
      then ((added, settle relay h), ok rejected)
      else if not committed
      then ((stored, settle relay h), ok failed)
      else ((stored, relay'), status)

  -- a round of the loop of `handle_block`
  unfoldable pub take_block :
      RelayLimits → ℕ → Str → BlockEntry → W → Relay → (W × Relay) × Result BlockStatus
  take_block limits now peer entry w relay = elim (chain.decode entry.block_bytes) [
    | raise x ↦ ((w, relay), raise x)
    | ok b ↦
        let h = chain.hash_of b in
        let (looked, known) = has_seen limits now h relay.seen in
        let relay' = record relay { seen = looked } in
        if not (str_eq h entry.hash)
        then ((w, relay), ok mismatch)
        else if known
        then ((w, settle relay' h), ok duplicate)
        else commit_block limits now peer b w relay'
  ]

  -- `RelayEngine.handle_block` on the entries of a message that could be read
  unfoldable pub take_blocks :
      RelayLimits → ℕ → Str → List BlockEntry → W → Relay → (W × Relay) × Result (List BlockStatus)
  take_blocks limits now peer [] w relay = ((w, relay), ok [])
  take_blocks limits now peer (e ∷ es) w relay =
      let (after, status) = take_block limits now peer e w relay in
      elim status [
        | raise x ↦ (after, raise x)
        | ok first ↦
            let (final, rest) = take_blocks limits now peer es after.0 after.1 in
            (final, do more ← rest; ok (first ∷ more))
      ]

  abbrev pub blocks_of : Message → List BlockEntry
  blocks_of (block bs) = bs
  blocks_of m = []

  -- `RelayEngine.handle_block`, with `none` for too many blocks
  unfoldable pub handle_block :
      Conversions
      → RelayLimits
      → ℕ
      → Str
      → Bytes
      → W
      → Relay
      → (W × Relay) × Result (Option (List BlockStatus))
  handle_block python limits now peer payload w relay =
      elim (do v ← python.loads payload; read_block python v) [
        | raise x ↦ ((w, relay), raise x)
        | ok m ↦
            let (after, statuses) = take_blocks limits now peer (blocks_of m) w relay in
            if ltb limits.max_blocks_response (length (blocks_of m))
            then ((w, relay), ok none)
            else (after, do found ← statuses; ok (some found))
      ]
