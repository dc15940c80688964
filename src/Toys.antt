-- ===== src/Toys.antt =====
-- Concrete data of the tests: a platform with toy primitives, keys, signatures and blocks.
use chain_breaker.Base.{
  Bytes, ◌*◌, ◌^◌, ◌++◌, false, ℕ, zero, suc, ◌+◌, List, [], ◌∷◌, Str, bytes_eq, take, replicate,
  arith,
}
use chain_breaker.Stdlib.{hex}
use chain_breaker.Platform.{Platform}
use chain_breaker.Block.{BlockV2, max_target}
use chain_breaker.Retarget.Bounds.{AreInBounds}

-- A digest is 32 sevens, and a key has made the signatures that begin with its first byte.
abbrev pub toy_platform : Platform
toy_platform = record {
  sha256 = λ raw. replicate 32 7;
  canonical_json = λ value. [];
  signed_by = λ key signature message. bytes_eq (take 1 key) (take 1 signature);
}

abbrev pub toy_hash : Str
toy_hash = hex (replicate 32 7)

abbrev pub toy_key : ℕ → Str
toy_key k = hex (replicate 32 k)

abbrev pub toy_signature : ℕ → Str
toy_signature k = hex (replicate 64 k)

abbrev pub toy_block : ℕ → ℕ → BlockV2
toy_block time target = record {
  header = record {
    version = 2;
    prev_hash = toy_hash;
    merkle_root = hex (replicate 32 0);
    registry_root = toy_hash;
    timestamp = time;
    target = target;
    nonce = 0;
  };
  transactions = [];
}

-- blocks ten minutes apart
abbrev pub spaced : ℕ → ℕ → ℕ → List BlockV2
spaced target time zero = []
spaced target time (suc count) = toy_block time target ∷ spaced target (time + 600) count

pub spaced-AreInBounds : (time count : ℕ) → AreInBounds (spaced 1000 time count)
spaced-AreInBounds time zero = tt
spaced-AreInBounds time (suc count) =
    (omega arith, omega arith, spaced-AreInBounds (time + 600) count)

-- the last byte
abbrev pub tail_byte : ℕ → Bytes → ℕ
tail_byte b [] = b
tail_byte b (c ∷ cs) = tail_byte c cs

abbrev pub digest : ℕ → Bytes
digest b = replicate 8 0 ++ replicate 24 b

-- A digest repeats the last byte, which is the high byte of the nonce of a header.
abbrev pub last_byte_platform : Platform
last_byte_platform = record {
  sha256 = λ raw. digest (tail_byte 0 raw);
  canonical_json = λ value. [];
  signed_by = λ key signature message. false;
}

abbrev pub mined : Str → ℕ → BlockV2
mined prev k = record {
  header = record {
    version = 2;
    prev_hash = prev;
    merkle_root = hex (replicate 32 0);
    registry_root = hex (digest 0);
    timestamp = 600 * k;
    target = max_target;
    nonce = k * 2 ^ 56;
  };
  transactions = [];
}

abbrev pub genesis_block : BlockV2
genesis_block = mined (hex (replicate 32 0)) 1
