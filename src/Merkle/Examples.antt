-- ===== src/Merkle/Examples.antt =====
-- Runs of the Merkle tree on a toy hash of 32 bytes, and the theorems at concrete leaves.
use chain_breaker.Base.{
  ℕ, ◌+◌, ◌*◌, ◌%◌, ◌≡◌, ◌⊎◌, refl, true, some, List, [], ◌∷◌, ◌++◌, Bytes, length, get_elem?,
  replicate, length-replicate, arith,
}
use chain_breaker.Merkle.{
  double_sha256, next_level, build_from, levels, top, root, get_proof, climb, verify_proof,
}
use chain_breaker.Merkle.Proofs.{verify_proof-get_proof}
use chain_breaker.Merkle.Binding.{Collision, verify_proof_binding}
use chain_breaker.Merkle.Duplicate.{root_doubled}

abbrev weigh : Bytes → ℕ
weigh [] = 7
weigh (b ∷ bs) = (3 * weigh bs + b) % 256

abbrev toy_sha : Bytes → Bytes
toy_sha b = replicate 32 (weigh b)

toy_sha-digest : (b : Bytes) → length (toy_sha b) ≡ 32
toy_sha-digest b = length-replicate 32 (weigh b)

abbrev leaf_a : Bytes
leaf_a = replicate 32 1

abbrev leaf_b : Bytes
leaf_b = replicate 32 2

abbrev leaf_c : Bytes
leaf_c = replicate 32 3

abbrev three : List Bytes
three = leaf_a ∷ leaf_b ∷ leaf_c ∷ []

-- The proof of the third leaf: itself, then the hash of the first two.
proof_of_third :
    get_proof toy_sha three 2 ≡ some (leaf_c ∷ double_sha256 toy_sha (leaf_a ++ leaf_b) ∷ [])
unfolding get_proof double_sha256 build_from next_level
proof_of_third = refl

verify_proof-get_proof_example :
    (leaf : Bytes) × (proof : List Bytes) × (r : Bytes) × (get_elem? three 2 ≡ some leaf)
    × (get_proof toy_sha three 2 ≡ some proof)
    × (root toy_sha three ≡ some r)
    × (verify_proof toy_sha r leaf proof 2 ≡ true)
verify_proof-get_proof_example = verify_proof-get_proof toy_sha three 2 (omega arith)

verify_proof_binding_example : (leaf_a ≡ leaf_a) ⊎ Collision toy_sha
unfolding root levels verify_proof double_sha256 build_from next_level top climb
verify_proof_binding_example =
    verify_proof_binding toy_sha toy_sha-digest (leaf_a ∷ leaf_b ∷ []) 0 leaf_a leaf_a (leaf_b ∷ [])
      (replicate 32 (weigh (toy_sha (leaf_a ++ leaf_b)))) (refl, (refl, tt)) refl refl refl refl
      refl

root_doubled_example : root toy_sha (leaf_a ∷ leaf_b ∷ leaf_c ∷ leaf_c ∷ []) ≡ root toy_sha three
root_doubled_example = root_doubled toy_sha (leaf_a ∷ leaf_b ∷ []) leaf_c refl (omega arith)
