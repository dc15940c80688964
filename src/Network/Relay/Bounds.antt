-- ===== src/Network/Relay/Bounds.antt =====
-- The sizes of what chainbreaker/network/relay/engine.py keeps.
use chain_breaker.Base.{
  ℕ, suc, ◌≤◌, ◌≡◌, inl, inr, List, [], ◌∷◌, ◌++◌, length-append, Bytes, Str, str_eq, text, length,
  ok, ◌>>=◌, arith, ltb, leb, Bool-cases, Result-cases, if◌then◌else◌,
}
use chain_breaker.Network.Payload.{Conversions}
use chain_breaker.Network.Messages.{BlockEntry}
use chain_breaker.Network.Messages.Reading.{read_kind, read_block}
use chain_breaker.Network.Relay.{
  SeenEntry, RequestState, Orphan, RelayLimits, Relay, fresh, evict, find_seen, forget, is_found,
  pop_first, add_seen, has_seen, drop_pending, request_all, take_inventory, handle_inv,
  on_local_block, drop_old, put_orphan, add_orphan, connect_orphans,
}
use chain_breaker.Network.Relay.Delivery.{
  Chain, settle, accept_block, commit_block, take_block, take_blocks, blocks_of, handle_block,
}

length-evict : (ttl now : ℕ) (es : List SeenEntry) → length (evict ttl now es) ≤ length es
unfolding evict
length-evict ttl now [] = omega arith
length-evict ttl now (e ∷ es) = ground (arith, length-evict ttl now es)

length-forget : (h : Str) (es : List SeenEntry) → length (forget h es) ≤ length es
unfolding forget
length-forget h [] = omega arith
length-forget h (e ∷ es) = ground (arith, length-forget h es)

length-drop_pending : (h : Str) (rs : List RequestState) → length (drop_pending h rs) ≤ length rs
unfolding drop_pending
length-drop_pending h [] = omega arith
length-drop_pending h (r ∷ rs) = ground (arith, length-drop_pending h rs)

length-drop_old : (age now : ℕ) (os : List Orphan) → length (drop_old age now os) ≤ length os
unfolding drop_old
length-drop_old age now [] = omega arith
length-drop_old age now (o ∷ os) = ground (arith, length-drop_old age now os)

length-put_orphan : (o : Orphan) (os : List Orphan) → length (put_orphan o os) ≤ suc (length os)
unfolding put_orphan
length-put_orphan o [] = omega arith
length-put_orphan o (p ∷ ps) = ground (arith, length-put_orphan o ps)

length-connect_orphans : (h : Str) (os : List Orphan) → length (connect_orphans h os) ≤ length os
unfolding connect_orphans
length-connect_orphans h [] = omega arith
length-connect_orphans h (o ∷ os) = ground (arith, length-connect_orphans h os)

length-has_seen :
    (limits : RelayLimits) (now : ℕ) (h : Str) (es : List SeenEntry)
    → length (has_seen limits now h es).0 ≤ length es
unfolding has_seen
length-has_seen limits now h es = ground (arith, length-forget h es)

length-request_all :
    (limits : RelayLimits) (now : ℕ) (peer : Str) (hs : List Str) (seen : List SeenEntry)
    (pending : List RequestState)
    → let r = request_all limits now peer hs seen pending in
      length pending ≤ limits.max_get_block_burst
      → (length r.0 ≤ length seen) × (length r.1 ≤ limits.max_get_block_burst)
unfolding request_all
length-request_all limits now peer [] seen pending fits = (omega arith, omega arith)
length-request_all limits now peer (h ∷ hs) seen pending fits =
    let looked = has_seen limits now h seen in
    let more = pending ++ (record { hash = h; peer_id = peer; timestamp = now } ∷ []) in
    ground (
      arith,
      length-has_seen limits now h seen,
      length-append pending (record { hash = h; peer_id = peer; timestamp = now } ∷ []),
      length-request_all limits now peer hs looked.0 pending,
      length-request_all limits now peer hs looked.0 more,
    )

-- Every part is within its limit.
pub record IsBounded (limits : RelayLimits) (relay : Relay) : Type 0 where
  pub seen : length relay.seen ≤ limits.seen_cache_size
  pub pending : length relay.pending ≤ limits.max_get_block_burst
  pub orphans : length relay.orphans ≤ limits.max_orphan_blocks

length-room :
    (cap : ℕ) (os : List Orphan) {room : List Orphan}
    → length os ≤ cap
    → (if leb cap (length os) then pop_first os else ok os) ≡ ok room
    → suc (length room) ≤ cap
length-room cap [] fits e = ground arith
length-room cap (o ∷ os) fits e = ground arith

length-pushed :
    (cap : ℕ) (kept : List SeenEntry) (entry : SeenEntry) {more : List SeenEntry}
    → length kept ≤ cap
    → (if leb cap (length kept)
        then pop_first kept >>= (λ room. ok (room ++ (entry ∷ [])))
        else ok (kept ++ (entry ∷ [])))
      ≡ ok more
    → length more ≤ cap
length-pushed cap [] entry fits e = ground arith
length-pushed cap (k ∷ kept) entry fits e =
    ground (arith, length-append kept (entry ∷ []), length-append (k ∷ kept) (entry ∷ []))

length-add_seen :
    (limits : RelayLimits) (now : ℕ) (h source : Str) (es : List SeenEntry) {more : List SeenEntry}
    → length es ≤ limits.seen_cache_size
    → add_seen limits now h source es ≡ ok more
    → length more ≤ limits.seen_cache_size
unfolding add_seen
length-add_seen limits now h source es fits e =
    let kept = evict limits.seen_cache_ttl now es in
    let entry : SeenEntry = record { hash = h; timestamp = now; source_peer = source } in
    let less = length-evict limits.seen_cache_ttl now es in
    elim (Bool-cases (is_found (find_seen h kept))) [
      | inl old ↦ ground (arith, old, e, less)
      | inr new ↦
          length-pushed limits.seen_cache_size kept entry (omega arith) (ground (arith, new, e))
    ]

pub fresh-IsBounded : (limits : RelayLimits) → IsBounded limits fresh
fresh-IsBounded limits = omega arith

module _ (limits : RelayLimits) where
  take_inventory-IsBounded :
      (now : ℕ) (peer kind : Str) (hashes : List Str) {relay : Relay}
      → IsBounded limits relay
      → IsBounded limits (take_inventory limits now peer kind hashes relay).0
  unfolding take_inventory
  take_inventory-IsBounded now peer kind hashes {relay} w =
      ground (arith, length-request_all limits now peer hashes relay.seen relay.pending)

  pub handle_inv-IsBounded :
      (python : Conversions) (now : ℕ) (peer : Str) (payload : Bytes) {relay : Relay}
      → IsBounded limits relay
      → IsBounded limits (handle_inv python limits now peer payload relay).0
  unfolding handle_inv
  handle_inv-IsBounded python now peer payload {relay} w =
      elim (Result-cases (python.loads payload >>= read_kind python)) [
        | inl (x, e) ↦ rw (e, handle_inv) w
        | inr (named, e) ↦ rw (e, handle_inv) (take_inventory-IsBounded now peer named.0 named.1 w)
      ]

  pub on_local_block-IsBounded :
      (now : ℕ) (h : Str) {relay : Relay}
      → IsBounded limits relay
      → IsBounded limits (on_local_block limits now h relay).0
  unfolding on_local_block
  on_local_block-IsBounded now h {relay} w =
      let looked = has_seen limits now h relay.seen in
      let fewer = length-has_seen limits now h relay.seen in
      elim (Bool-cases looked.1) [
        | inl known ↦ rw known w
        | inr new ↦ elim (Result-cases (add_seen limits now h (text "local") looked.0)) [
          | inl (x, e) ↦
              rw (new, e) (omega (arith, fewer, length-evict limits.seen_cache_ttl now looked.0))
          | inr (more, e) ↦
              rw (new, e)
                (record {
                  seen =
                      length-add_seen limits now h (text "local") looked.0 (omega (arith, fewer)) e;
                  pending = w.pending;
                  orphans = w.orphans;
                })
        ]
      ]

  pub add_orphan-IsBounded :
      (o : Orphan) {relay : Relay}
      → IsBounded limits relay
      → IsBounded limits (add_orphan limits o relay).0
  unfolding add_orphan
  add_orphan-IsBounded o {relay} w =
      let full = leb limits.max_orphan_blocks (length relay.orphans) in
      elim (Result-cases (if full then pop_first relay.orphans else ok relay.orphans)) [
        | inl (x, e) ↦ rw (e, add_orphan) w
        | inr (room, e) ↦
            let kept = drop_old limits.orphan_max_age o.timestamp room in
            rw (e, add_orphan)
              (omega (
                arith,
                length-put_orphan o kept,
                length-drop_old limits.orphan_max_age o.timestamp room,
                length-room limits.max_orphan_blocks relay.orphans w.orphans e,
              ))
      ]

  module _ {W B : Type 0} (chain : Chain W B) where
    accept_block-IsBounded :
        (now : ℕ) (peer h : Str) {relay : Relay}
        → IsBounded limits relay
        → IsBounded limits (accept_block chain limits now peer h relay).0
    unfolding accept_block
    accept_block-IsBounded now peer h {relay} w =
        elim (Result-cases (add_seen limits now h peer relay.seen)) [
          | inl (x, e) ↦
              rw (e, accept_block)
                (omega (arith, length-evict limits.seen_cache_ttl now relay.seen))
          | inr (more, e) ↦
              rw (e, accept_block)
                (omega (
                  arith,
                  length-add_seen limits now h peer relay.seen w.seen e,
                  length-drop_pending h relay.pending,
                  length-connect_orphans h relay.orphans,
                ))
        ]

    settle-IsBounded :
        (h : Str) {relay : Relay} → IsBounded limits relay → IsBounded limits (settle chain relay h)
    unfolding settle
    settle-IsBounded h {relay} w = omega (arith, length-drop_pending h relay.pending)

    commit_block-IsBounded :
        (now : ℕ) (peer : Str) (b : B) (s : W) {relay : Relay}
        → IsBounded limits relay
        → IsBounded limits (commit_block chain limits now peer b s relay).0.1
    unfolding commit_block
    commit_block-IsBounded now peer b s {relay} w =
        let h = chain.hash_of b in
        let settled = settle-IsBounded h w in
        let stored = accept_block-IsBounded now peer h w in
        elim (Bool-cases (chain.add_block s b).1) [
          | inr bad ↦ rw bad settled
          | inl good ↦ elim (Bool-cases (chain.commit (chain.add_block s b).0 b).1) [
            | inr bad ↦ rw (good, bad) settled
            | inl done ↦ rw (good, done) stored
          ]
        ]

    take_block-IsBounded :
        (now : ℕ) (peer : Str) (entry : BlockEntry) (s : W) {relay : Relay}
        → IsBounded limits relay
        → IsBounded limits (take_block chain limits now peer entry s relay).0.1
    unfolding take_block
    take_block-IsBounded now peer entry s {relay} w =
        elim (Result-cases (chain.decode entry.block_bytes)) [
          | inl (x, e) ↦ rw (e, take_block) w
          | inr (b, e) ↦
              let h = chain.hash_of b in
              let looked = has_seen limits now h relay.seen in
              let kept : IsBounded limits (record relay { seen = looked.0 }) =
                omega (arith, length-has_seen limits now h relay.seen) in
              elim (Bool-cases (str_eq h entry.hash)) [
                | inr other ↦ rw (e, take_block) (rw other w)
                | inl same ↦ elim (Bool-cases looked.1) [
                  | inl known ↦ rw (e, take_block) (rw (same, known) (settle-IsBounded h kept))
                  | inr new ↦
                      rw (e, take_block) (rw (same, new) (commit_block-IsBounded now peer b s kept))
                ]
              ]
        ]

    take_blocks-IsBounded :
        (now : ℕ) (peer : Str) (entries : List BlockEntry) (s : W) (relay : Relay)
        → IsBounded limits relay
        → IsBounded limits (take_blocks chain limits now peer entries s relay).0.1
    unfolding take_blocks
    take_blocks-IsBounded now peer [] s relay w = w
    take_blocks-IsBounded now peer (e ∷ es) s relay w =
        let after = take_block chain limits now peer e s relay in
        let kept = take_block-IsBounded now peer e s w in
        elim (Result-cases after.1) [
          | inl (x, h) ↦ rw (h, take_blocks) kept
          | inr (first, h) ↦
              rw (h, take_blocks) (take_blocks-IsBounded now peer es after.0.0 after.0.1 kept)
        ]

    pub handle_block-IsBounded :
        (python : Conversions) (now : ℕ) (peer : Str) (payload : Bytes) (s : W) {relay : Relay}
        → IsBounded limits relay
        → IsBounded limits (handle_block chain python limits now peer payload s relay).0.1
    unfolding handle_block
    handle_block-IsBounded python now peer payload s {relay} w =
        elim (Result-cases (python.loads payload >>= read_block python)) [
          | inl (x, e) ↦ rw (e, handle_block) w
          | inr (m, e) ↦
              elim (Bool-cases (ltb limits.max_blocks_response (length (blocks_of chain m)))) [
                | inl many ↦ rw (e, handle_block) (rw many w)
                | inr few ↦
                    rw (e, handle_block)
                      (rw few (take_blocks-IsBounded now peer (blocks_of chain m) s relay w))
              ]
        ]
