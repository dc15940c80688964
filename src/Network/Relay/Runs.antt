-- ===== src/Network/Relay/Runs.antt =====
-- Sequences of calls of `RelayEngine` in chainbreaker/network/relay/engine.py.
use chain_breaker.Base.{
  ℕ, suc, ◌≤◌, ◌≡◌, refl, ap, ◌∙◌, true, inl, inr, List, [], ◌∷◌, Bytes, Str, str_eq, text, length,
  Result, ok, ◌>>=◌, arith, leb, Bool-cases, Result-cases,
}
use chain_breaker.Json.{Value}
use chain_breaker.Network.Payload.{Conversions}
use chain_breaker.Network.Messages.Reading.{read_kind}
use chain_breaker.Network.Relay.{
  SeenEntry, RequestState, Orphan, RelayLimits, Relay, fresh, has_seen, check_rate, request_all,
  requested, InvStatus, take_inventory, handle_inv, on_local_block, build_announcements, add_orphan,
  next_requests, next_get_block_requests,
}
use chain_breaker.Network.Relay.Delivery.{Chain, handle_block}
use chain_breaker.Network.Relay.Bounds.{
  IsBounded, fresh-IsBounded, handle_inv-IsBounded, on_local_block-IsBounded, add_orphan-IsBounded,
  handle_block-IsBounded,
}

-- A call of the engine, with the time, the peer and the payload or the block.
pub data Call : Type 0 where
  inv : ℕ → Str → Bytes → Call
  blocks : ℕ → Str → Bytes → Call
  local : ℕ → Str → Call
  orphan : Orphan → Call
  announcements requests : Call

module _ {W B : Type 0} (chain : Chain W B) (python : Conversions) (limits : RelayLimits) where
  unfoldable pub call : Call → W × Relay → W × Relay
  call (inv now peer payload) (w, relay) = (w, (handle_inv python limits now peer payload relay).0)
  call (blocks now peer payload) (w, relay) =
      (handle_block chain python limits now peer payload w relay).0
  call (local now h) (w, relay) = (w, (on_local_block limits now h relay).0)
  call (orphan o) (w, relay) = (w, (add_orphan limits o relay).0)
  call announcements (w, relay) = (w, (build_announcements relay).0)
  call requests (w, relay) = (w, relay)

  unfoldable pub run : List Call → W × Relay → W × Relay
  run [] s = s
  run (c ∷ cs) s = run cs (call c s)

  call-IsBounded : (c : Call) (s : W × Relay) → IsBounded limits s.1 → IsBounded limits (call c s).1
  unfolding call build_announcements
  call-IsBounded (inv now peer payload) s h = handle_inv-IsBounded limits python now peer payload h
  call-IsBounded (blocks now peer payload) s h =
      handle_block-IsBounded limits chain python now peer payload s.0 h
  call-IsBounded (local now hash) s h = on_local_block-IsBounded limits now hash h
  call-IsBounded (orphan o) s h = add_orphan-IsBounded limits o h
  call-IsBounded requests s h = h
  call-IsBounded announcements s h = record {
    seen = h.seen;
    pending = h.pending;
    orphans = h.orphans;
  }

  keep : (cs : List Call) (s : W × Relay) → IsBounded limits s.1 → IsBounded limits (run cs s).1
  unfolding run
  keep [] s h = h
  keep (c ∷ cs) s h = keep cs (call c s) (call-IsBounded c s h)

  -- After any sequence of calls on a new engine, whatever the peers send and whatever the ledger and
  -- the storage answer, the seen blocks, the pending requests and the orphans are within their limits.
  pub run-IsBounded : (cs : List Call) (w : W) → IsBounded limits (run cs (w, fresh)).1
  run-IsBounded cs w = keep cs (w, fresh) (fresh-IsBounded limits)

-- The requests of an inventory with no room.
request_all-full :
    (limits : RelayLimits) (now : ℕ) (peer : Str) (hs : List Str) (seen : List SeenEntry)
    (pending : List RequestState)
    → limits.max_get_block_burst ≤ length pending
    → let r = request_all limits now peer hs seen pending in (r.1 ≡ pending) × (r.2 ≡ [])
unfolding request_all
request_all-full limits now peer [] seen pending h = (refl, refl)
request_all-full limits now peer (hash ∷ hs) seen pending h =
    let looked = has_seen limits now hash seen in
    let full : leb limits.max_get_block_burst (length pending) ≡ true = ground (arith, h) in
    elim (Bool-cases looked.1) [
      | inl known ↦ rw (known, request_all) (request_all-full limits now peer hs looked.0 pending h)
      | inr new ↦ rw (new, full, request_all) (refl, refl)
    ]

-- No hash is asked for.
abbrev pub AsksNothing : Result InvStatus → Type 0
AsksNothing answer = (asked : List Str) → answer ≡ ok (requested asked) → asked ≡ []

take_inventory-full :
    (limits : RelayLimits) (now : ℕ) (peer kind : Str) (hashes : List Str) (relay : Relay)
    → limits.max_get_block_burst ≤ length relay.pending
    → ((take_inventory limits now peer kind hashes relay).0.pending ≡ relay.pending)
      × AsksNothing (ok (take_inventory limits now peer kind hashes relay).1)
unfolding take_inventory
take_inventory-full limits now peer kind hashes relay h =
    let (same, none_asked) = request_all-full limits now peer hashes relay.seen relay.pending h in
    let rate =
      check_rate limits.minute limits.max_inv_per_peer_per_minute now peer relay.inv_times in
    elim (Bool-cases (str_eq kind (text "blocks"))) [
      | inr other ↦ rw other (refl, λ asked e. cc)
      | inl known ↦ elim (Bool-cases rate.1) [
        | inr limited ↦ rw (known, limited) (refl, λ asked e. cc)
        | inl allowed ↦ rw (known, allowed) (same, λ asked e. cc)
      ]
    ]

handle_inv-full :
    (python : Conversions) (limits : RelayLimits) (now : ℕ) (peer : Str) (payload : Bytes)
    (relay : Relay)
    → limits.max_get_block_burst ≤ length relay.pending
    → ((handle_inv python limits now peer payload relay).0.pending ≡ relay.pending)
      × AsksNothing (handle_inv python limits now peer payload relay).1
unfolding handle_inv
handle_inv-full python limits now peer payload relay h =
    elim (Result-cases (python.loads payload >>= read_kind python)) [
      | inl (x, e) ↦ rw (e, handle_inv) (refl, λ asked f. cc)
      | inr (named, e) ↦
          rw (e, handle_inv) (take_inventory-full limits now peer named.0 named.1 relay h)
    ]

length-next_requests :
    (dumps : Value → Str) (limits : RelayLimits) (states : List RequestState)
    → length (next_requests dumps limits states) ≡ length states
unfolding next_requests
length-next_requests dumps limits [] = refl
length-next_requests dumps limits (state ∷ states) =
    ap suc (length-next_requests dumps limits states)

-- Every call but the delivery of blocks, of any peers at any times.
abbrev pub AreSilent : List Call → Type 0
AreSilent [] = Unit
AreSilent (blocks now peer payload ∷ cs) = ⊥
AreSilent (c ∷ cs) = AreSilent cs

module _ {W B : Type 0} (chain : Chain W B) (python : Conversions) (limits : RelayLimits) where
  call-full :
      (c : Call) (cs : List Call) (s : W × Relay)
      → AreSilent (c ∷ cs)
      → limits.max_get_block_burst ≤ length s.1.pending
      → ((call chain python limits c s).1.pending ≡ s.1.pending) × AreSilent cs
  unfolding call on_local_block add_orphan build_announcements
  call-full (inv now peer payload) cs s w h =
      ((handle_inv-full python limits now peer payload s.1 h).0, w)
  call-full (blocks now peer payload) cs s w h = absurd w
  call-full (local now hash) cs s w h = (ground arith, w)
  call-full (orphan o) cs s w h = (ground arith, w)
  call-full announcements cs s w h = (refl, w)
  call-full requests cs s w h = (refl, w)

  pending_stalls :
      (cs : List Call) (s : W × Relay)
      → AreSilent cs
      → limits.max_get_block_burst ≤ length s.1.pending
      → (run chain python limits cs s).1.pending ≡ s.1.pending
  unfolding run
  pending_stalls [] s w h = refl
  pending_stalls (c ∷ cs) s w h =
      let (same, silent) = call-full c cs s w h in
      pending_stalls cs (call chain python limits c s) silent (omega (arith, h, ap length same))
      ∙ same

  -- Once as many requests are pending as `max_get_block_burst` allows, then after any calls but
  -- deliveries of blocks, however much time passes: the same requests are pending; an inventory of
  -- any peer is answered by no new request; and `next_get_block_requests` returns just what it would
  -- have returned before, one request for each pending block.
  pub requests_stall :
      (dumps : Value → Str) (cs : List Call) (s : W × Relay) (now : ℕ) (peer : Str)
      (payload : Bytes)
      → AreSilent cs
      → limits.max_get_block_burst ≤ length s.1.pending
      → let relay = (run chain python limits cs s).1 in
        (relay.pending ≡ s.1.pending)
        × AsksNothing (handle_inv python limits now peer payload relay).1
        × (next_get_block_requests dumps limits relay ≡ next_get_block_requests dumps limits s.1)
        × (length (next_get_block_requests dumps limits relay) ≡ length s.1.pending)
  requests_stall dumps cs s now peer payload w h =
      let relay = (run chain python limits cs s).1 in
      let same = pending_stalls cs s w h in
      let full : limits.max_get_block_burst ≤ length relay.pending =
        omega (arith, h, ap length same) in
      (
        same,
        (handle_inv-full python limits now peer payload relay full).1,
        ap (next_requests dumps limits) same,
        length-next_requests dumps limits relay.pending ∙ ap length same,
      )
