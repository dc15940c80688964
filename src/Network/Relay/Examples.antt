-- ===== src/Network/Relay/Examples.antt =====
-- An engine that may wait for one block.
use chain_breaker.Base.{ℕ, ◌≡◌, true, List, [], ◌∷◌, Str, length, ok, arith, text}
use chain_breaker.Json.{Value}
use chain_breaker.Network.Messages.Examples.{plain}
use chain_breaker.Network.Relay.{RelayLimits, Relay, fresh, handle_inv, next_get_block_requests}
use chain_breaker.Network.Relay.Delivery.{Chain}
use chain_breaker.Network.Relay.Bounds.{IsBounded}
use chain_breaker.Network.Relay.Runs.{
  Call, local, orphan, announcements, requests, run, run-IsBounded, AsksNothing, requests_stall,
}

abbrev limits : RelayLimits
limits = record {
  max_inv_per_peer_per_minute = 60;
  max_get_block_burst = 1;
  max_blocks_response = 32;
  max_block_bytes_total = 2000000;
  seen_cache_size = 2;
  seen_cache_ttl = 7200;
  max_orphan_blocks = 1;
  orphan_max_age = 7200;
  minute = 60;
}

-- A ledger that takes every block; a block is its hash.
abbrev trusting : Chain ℕ Str
trusting = record {
  decode = λ s. ok s;
  hash_of = λ s. s;
  add_block = λ w b. (w, true);
  commit = λ w b. (w, true);
}

abbrev waiting : Relay
waiting = record {
  seen = [];
  pending = record { hash = text "a"; peer_id = text "p"; timestamp = 0 } ∷ [];
  orphans = [];
  inv_times = [];
  to_announce = [];
}

abbrev no_text : Value → Str
no_text v = []

abbrev calls : List Call
calls =
    local 5 (text "b")
    ∷ orphan (record { hash = text "c"; prev_hash = text "d"; timestamp = 9 })
    ∷ announcements
    ∷ requests
    ∷ []

run-IsBounded_example : IsBounded limits (run trusting plain limits calls (0, fresh)).1
run-IsBounded_example = run-IsBounded trusting plain limits calls 0

requests_stall_example :
    let relay = (run trusting plain limits calls (0, waiting)).1 in
    (relay.pending ≡ waiting.pending)
    × AsksNothing (handle_inv plain limits 100000 (text "q") [] relay).1
    × (next_get_block_requests no_text limits relay
        ≡ next_get_block_requests no_text limits waiting)
    × (length (next_get_block_requests no_text limits relay) ≡ 1)
requests_stall_example =
    requests_stall trusting plain limits no_text calls (0, waiting) 100000 (text "q") [] tt
      (omega arith)
