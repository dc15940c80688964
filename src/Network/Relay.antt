-- ===== src/Network/Relay.antt =====
-- chainbreaker/network/relay: the cache of seen blocks, the inventory, and `RelayEngine`. Times are
-- numbers of a fixed unit. The ledger with the storage, and the decoding of a block, are an interface.
pub mod Delivery
pub mod Bounds
pub mod Runs
pub mod Inventory
mod Examples
use chain_breaker.Base.{
  ℕ, zero, suc, ◌+◌, Bool, true, false, not, ◌||◌, ◌&&◌, Option, none, some, List, [], ◌∷◌, ◌++◌,
  Bytes, Str, str_eq, text, length, take, Result, ok, raise, ◌>>=◌, Exn, key_error, value_error,
  ltb, leb, ◌==◌, if◌then◌else◌,
}
use chain_breaker.Json.{Value, obj, member}
use chain_breaker.Network.Payload.{Conversions}
use chain_breaker.Network.Messages.{Message, get_block, block, BlockEntry, entries}
use chain_breaker.Network.Messages.Reading.{read_kind, read_block}

-- `SeenEntry`, with its key
pub record SeenEntry : Type 0 where
  pub hash : Str
  pub timestamp : ℕ
  pub source_peer : Str

-- `RequestState`; the count of retries is never written
pub record RequestState : Type 0 where
  pub hash : Str
  pub peer_id : Str
  pub timestamp : ℕ

-- an entry of `_orphans`: what the relay reads of the block, and when it came
pub record Orphan : Type 0 where
  pub hash : Str
  pub prev_hash : Str
  pub timestamp : ℕ

-- the fields of `RelayLimitPolicy` that the engine reads, and a minute in the unit of time
pub record RelayLimits : Type 0 where
  pub max_inv_per_peer_per_minute : ℕ
  pub max_get_block_burst : ℕ
  pub max_blocks_response : ℕ
  pub max_block_bytes_total : ℕ
  pub seen_cache_size : ℕ
  pub seen_cache_ttl : ℕ
  pub max_orphan_blocks : ℕ
  pub orphan_max_age : ℕ
  pub minute : ℕ

-- the state of `RelayEngine` less the ledger and the storage
pub record Relay : Type 0 where
  pub seen : List SeenEntry
  pub pending : List RequestState
  pub orphans : List Orphan
  pub inv_times : List (Str × List ℕ)
  pub to_announce : List Str

abbrev pub fresh : Relay
fresh = record { seen = []; pending = []; orphans = []; inv_times = []; to_announce = [] }

-- `now - then > age`
abbrev pub older : ℕ → ℕ → ℕ → Bool
older age now then_ = ltb (then_ + age) now

-- `RelaySeenCache._evict_expired`
unfoldable pub evict : ℕ → ℕ → List SeenEntry → List SeenEntry
evict ttl now [] = []
evict ttl now (e ∷ es) =
    let rest = evict ttl now es in if older ttl now e.timestamp then rest else e ∷ rest

unfoldable pub find_seen : Str → List SeenEntry → Option SeenEntry
find_seen h [] = none
find_seen h (e ∷ es) = if str_eq e.hash h then some e else find_seen h es

unfoldable pub forget : Str → List SeenEntry → List SeenEntry
forget h [] = []
forget h (e ∷ es) = let rest = forget h es in if str_eq e.hash h then rest else e ∷ rest

abbrev pub is_found {ℓ} : {A : Type ℓ} → Option A → Bool
is_found none = false
is_found (some a) = true

-- `popitem(last=False)`
abbrev pub pop_first {ℓ} : {A : Type ℓ} → List A → Result (List A)
pop_first [] = raise key_error
pop_first (x ∷ xs) = ok xs

-- `RelaySeenCache.add`
unfoldable pub add_seen : RelayLimits → ℕ → Str → Str → List SeenEntry → Result (List SeenEntry)
add_seen limits now h source es =
    let kept = evict limits.seen_cache_ttl now es in
    let entry : SeenEntry = record { hash = h; timestamp = now; source_peer = source } in
    if is_found (find_seen h kept)
    then ok kept
    else if leb limits.seen_cache_size (length kept)
    then (do room ← pop_first kept; ok (room ++ (entry ∷ [])))
    else ok (kept ++ (entry ∷ []))

-- `RelaySeenCache.has`, which forgets an entry that is too old
unfoldable pub has_seen : RelayLimits → ℕ → Str → List SeenEntry → List SeenEntry × Bool
has_seen limits now h es = elim (find_seen h es) [
  | none ↦ (es, false)
  | some e ↦
      if older limits.seen_cache_ttl now e.timestamp then (forget h es, false) else (es, true)
]

unfoldable pub is_pending : Str → List RequestState → Bool
is_pending h [] = false
is_pending h (r ∷ rs) = str_eq r.hash h || is_pending h rs

-- `_pending_requests.pop(hash, None)`
unfoldable pub drop_pending : Str → List RequestState → List RequestState
drop_pending h [] = []
drop_pending h (r ∷ rs) = let rest = drop_pending h rs in if str_eq r.hash h then rest else r ∷ rest

-- `while window and window[0] < cutoff: window.pop(0)`, the cutoff one minute before `now`
unfoldable pub recent : ℕ → ℕ → List ℕ → List ℕ
recent minute now [] = []
recent minute now (t ∷ ts) =
    let rest = recent minute now ts in if ltb (t + minute) now then rest else t ∷ ts

unfoldable pub times_of : Str → List (Str × List ℕ) → List ℕ
times_of peer [] = []
times_of peer (e ∷ es) = if str_eq e.0 peer then e.1 else times_of peer es

unfoldable pub set_times : Str → List ℕ → List (Str × List ℕ) → List (Str × List ℕ)
set_times peer ts [] = (peer, ts) ∷ []
set_times peer ts (e ∷ es) = if str_eq e.0 peer then (peer, ts) ∷ es else e ∷ set_times peer ts es

-- `RelayEngine._check_rate`
unfoldable pub check_rate : ℕ → ℕ → ℕ → Str → List (Str × List ℕ) → List (Str × List ℕ) × Bool
check_rate minute limit now peer buckets =
    let window = recent minute now (times_of peer buckets) in
    if leb limit (length window)
    then (set_times peer window buckets, false)
    else (set_times peer (window ++ (now ∷ [])) buckets, true)

-- The three ways out of a round of `handle_inv`'s loop.
pub data Choice : Type 0 where
  skip stop ask : Choice

abbrev pub choice : Bool → Bool → Bool → Choice
choice known full waiting =
    if known then skip else if full then stop else if waiting then skip else ask

-- the loop of `handle_inv`: the seen blocks, the pending requests, and the hashes asked for
unfoldable pub request_all :
    RelayLimits
    → ℕ
    → Str
    → List Str
    → List SeenEntry
    → List RequestState
    → List SeenEntry × List RequestState × List Str
request_all limits now peer [] seen pending = (seen, pending, [])
request_all limits now peer (h ∷ hs) seen pending =
    let looked = has_seen limits now h seen in
    let full = leb limits.max_get_block_burst (length pending) in
    elim (choice looked.1 full (is_pending h pending)) [
      | skip ↦ request_all limits now peer hs looked.0 pending
      | stop ↦ (looked.0, pending, [])
      | ask ↦
          let request : RequestState = record { hash = h; peer_id = peer; timestamp = now } in
          let (seen', pending', asked) =
            request_all limits now peer hs looked.0 (pending ++ (request ∷ [])) in
          (seen', pending', h ∷ asked)
    ]

-- what `handle_inv` answers
pub data InvStatus : Type 0 where
  ignored rate_limited : InvStatus
  requested : List Str → InvStatus

-- `handle_inv` on an inventory that could be read
unfoldable pub take_inventory : RelayLimits → ℕ → Str → Str → List Str → Relay → Relay × InvStatus
take_inventory limits now peer kind hashes relay =
    let (times, allowed) =
      check_rate limits.minute limits.max_inv_per_peer_per_minute now peer relay.inv_times in
    let (seen', pending', asked) = request_all limits now peer hashes relay.seen relay.pending in
    if not (str_eq kind (text "blocks"))
    then (relay, ignored)
    else if not allowed
    then (record relay { inv_times = times }, rate_limited)
    else (record relay { inv_times = times; seen = seen'; pending = pending' }, requested asked)

-- `RelayEngine.handle_inv`
unfoldable pub handle_inv :
    Conversions → RelayLimits → ℕ → Str → Bytes → Relay → Relay × Result InvStatus
handle_inv python limits now peer payload relay =
    elim (do v ← python.loads payload; read_kind python v) [
      | raise x ↦ (relay, raise x)
      | ok named ↦
          let (relay', status) = take_inventory limits now peer named.0 named.1 relay in
          (relay', ok status)
    ]

-- a request of `next_get_block_requests`
pub record BlockRequest : Type 0 where
  pub peer_id : Str
  pub method : Str
  pub payload : Str

-- `RelayEngine.next_get_block_requests`, which changes nothing; `dumps` is the text of `json.dumps`,
-- which `encode_payload` encodes and the caller decodes again
unfoldable pub next_requests : (Value → Str) → RelayLimits → List RequestState → List BlockRequest
next_requests dumps limits [] = []
next_requests dumps limits (state ∷ states) =
    let message = get_block (state.hash ∷ []) limits.max_block_bytes_total in
    let request : BlockRequest = record {
      peer_id = state.peer_id;
      method = text "GET_BLOCK";
      payload = dumps (obj (entries message));
    } in
    request ∷ next_requests dumps limits states

abbrev pub next_get_block_requests : (Value → Str) → RelayLimits → Relay → List BlockRequest
next_get_block_requests dumps limits relay = next_requests dumps limits relay.pending

-- `RelayEngine.on_local_block`
unfoldable pub on_local_block : RelayLimits → ℕ → Str → Relay → Relay × Result (Unit {0})
on_local_block limits now h relay =
    let (looked, known) = has_seen limits now h relay.seen in
    if known then (relay, ok tt) else elim (add_seen limits now h (text "local") looked) [
      | raise x ↦ (record relay { seen = evict limits.seen_cache_ttl now looked }, raise x)
      | ok seen' ↦
          (record relay { seen = seen'; to_announce = relay.to_announce ++ (h ∷ []) }, ok tt)
    ]

-- `RelayEngine.build_announcements`
unfoldable pub build_announcements : Relay → Relay × List Str
build_announcements relay = (record relay { to_announce = [] }, relay.to_announce)

unfoldable pub drop_old : ℕ → ℕ → List Orphan → List Orphan
drop_old age now [] = []
drop_old age now (o ∷ os) =
    let rest = drop_old age now os in if older age now o.timestamp then rest else o ∷ rest

-- `d[hash] = value`, which keeps the place of a key that is there
unfoldable pub put_orphan : Orphan → List Orphan → List Orphan
put_orphan o [] = o ∷ []
put_orphan o (p ∷ ps) = if str_eq p.hash o.hash then o ∷ ps else p ∷ put_orphan o ps

-- `RelayEngine.add_orphan`
unfoldable pub add_orphan : RelayLimits → Orphan → Relay → Relay × Result (Unit {0})
add_orphan limits o relay =
    elim (if leb limits.max_orphan_blocks (length relay.orphans)
      then pop_first relay.orphans
      else ok relay.orphans) [
        | raise x ↦ (relay, raise x)
        | ok room ↦ (
          record relay { orphans = put_orphan o (drop_old limits.orphan_max_age o.timestamp room) },
          ok tt,
        )
      ]

-- `RelayEngine._try_connect_orphans`
unfoldable pub connect_orphans : Str → List Orphan → List Orphan
connect_orphans h [] = []
connect_orphans h (o ∷ os) =
    let rest = connect_orphans h os in if str_eq o.prev_hash h then rest else o ∷ rest
