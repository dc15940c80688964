-- ===== src/Merkle.antt =====
-- The Merkle tree of chainbreaker/crypto.py: `HashEngine.double_sha256` and the class
-- `MerkleTree`. SHA-256 itself is `hashlib`'s, and a parameter.
pub mod Proofs
pub mod Binding
pub mod Duplicate
mod Examples
use chain_breaker.Base.{
  ℕ, zero, suc, ◌+◌, ◌-◌, ◌/◌, ◌%◌, Bool, Option, none, some, List, [], ◌∷◌, ◌++◌, Bytes, bytes_eq,
  length, get_elem?, ltb, ◌==◌, if◌then◌else◌,
}

-- `levels[-1][0]`
unfoldable pub top : List (List Bytes) → Option Bytes
top [] = none
top (level ∷ []) = get_elem? level 0
top (level ∷ level' ∷ rest) = top (level' ∷ rest)

-- One round of the loop of `get_proof`; `none` is the `IndexError` of `level[index]`.
unfoldable pub proof_item : List Bytes → ℕ → Option Bytes
proof_item level index =
    let sibling = if index % 2 == 0 then index + 1 else index - 1 in
    if ltb sibling (length level) then get_elem? level sibling else get_elem? level index

unfoldable pub prepend : Option Bytes → Option (List Bytes) → Option (List Bytes)
prepend (some b) (some bs) = some (b ∷ bs)
prepend _ _ = none

-- The loop of `get_proof`, over all levels but the last.
unfoldable pub proof_from : ℕ → List (List Bytes) → Option (List Bytes)
unfolding prepend proof_item
proof_from index [] = some []
proof_from index (level ∷ []) = some []
proof_from index (level ∷ level' ∷ rest) =
    prepend (proof_item level index) (proof_from (index / 2) (level' ∷ rest))

module _ (sha256 : Bytes → Bytes) where
  -- `HashEngine.double_sha256`
  unfoldable pub double_sha256 : Bytes → Bytes
  double_sha256 b = sha256 (sha256 b)

  -- The inner loop of `_build`: neighbours are hashed in pairs, and an odd last one with itself.
  unfoldable pub next_level : List Bytes → List Bytes
  next_level [] = []
  next_level (left ∷ []) = double_sha256 (left ++ left) ∷ []
  next_level (left ∷ right ∷ rest) = double_sha256 (left ++ right) ∷ next_level rest

  -- The outer loop of `_build`, `while len(current) > 1`, with the levels from `current` on.
  unfoldable pub build_from : ℕ → List Bytes → List (List Bytes)
  build_from zero current = current ∷ []
  build_from (suc fuel) current =
      let above = build_from fuel (next_level current) in
      if ltb 1 (length current) then current ∷ above else current ∷ []

  -- `MerkleTree(leaves).levels`
  unfoldable pub levels : List Bytes → List (List Bytes)
  unfolding build_from next_level
  levels [] = []
  levels (leaf ∷ rest) = build_from (length (leaf ∷ rest)) (leaf ∷ rest)

  -- `MerkleTree(leaves).root`
  unfoldable pub root : List Bytes → Option Bytes
  unfolding top levels
  root leaves = top (levels leaves)

  -- `MerkleTree(leaves).get_proof(index)`
  unfoldable pub get_proof : List Bytes → ℕ → Option (List Bytes)
  unfolding proof_from levels
  get_proof leaves index = proof_from index (levels leaves)

  -- The loop of `verify_proof`: the hash that a leaf and its siblings lead up to.
  unfoldable pub climb : Bytes → List Bytes → ℕ → Bytes
  climb current [] index = current
  climb current (sibling ∷ proof) index =
      climb
        (if index % 2 == 0
          then double_sha256 (current ++ sibling)
          else double_sha256 (sibling ++ current))
        proof (index / 2)

  -- `MerkleTree.verify_proof`
  unfoldable pub verify_proof : Bytes → Bytes → List Bytes → ℕ → Bool
  unfolding climb bytes_eq
  verify_proof root leaf proof index = bytes_eq (climb leaf proof index) root
