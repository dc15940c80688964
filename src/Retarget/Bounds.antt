-- ===== src/Retarget/Bounds.antt =====
-- The bounds of the targets of `expected_target_at` and `retarget` of chainbreaker/chain.py.
use native.Mathlib.Nat.{mul-le-mul_left}
use chain_breaker.Base.{
  ℕ, zero, suc, false, min, max, ◌-◌, ◌*◌, ◌/◌, ◌%◌, ◌≤◌, ◌<◌, ◌≡◌, refl, inl, inr, List, [], ◌∷◌,
  ok, raise, some, index_error, get_elem?, get_elem?-some, get_elem?-none, length, arith,
  Bool-cases, ltb, leb, ◌==◌, if◌then◌else◌,
}
use chain_breaker.Block.{BlockV2, max_target, min_target, genesis_target}
use chain_breaker.Retarget.{block_at, clamp_target, scaled_target, retarget, expected_target_at}

clamp_target_bounds :
    (prev new : ℕ)
    → min_target ≤ prev
    → prev ≤ max_target
    → (min_target ≤ clamp_target prev new)
      × (clamp_target prev new ≤ max_target)
      × (prev / 4 ≤ clamp_target prev new)
      × (clamp_target prev new ≤ 4 * prev)
unfolding clamp_target
clamp_target_bounds prev new low high = omega arith

scaled_target_bounds :
    (prev elapsed : ℕ)
    → min_target ≤ prev
    → prev ≤ max_target
    → (min_target ≤ scaled_target prev elapsed)
      × (scaled_target prev elapsed ≤ max_target)
      × (prev / 4 ≤ scaled_target prev elapsed)
      × (scaled_target prev elapsed ≤ 4 * prev)
unfolding scaled_target
scaled_target_bounds prev elapsed low high = clamp_target_bounds prev _ low high

-- The clamps of a factor of four bind exactly where the window took a quarter of its time or less, or
-- four times its time or more.
fast : (prev e : ℕ) → e ≤ 1500 → prev * e / 6000 ≤ prev / 4
fast prev e h = omega (arith, mul-le-mul_left prev h)

slow : (prev e : ℕ) → 24000 ≤ e → 4 * prev ≤ prev * e / 6000
slow prev e h = omega (arith, mul-le-mul_left prev h)

between :
    (prev e : ℕ)
    → 1500 ≤ e
    → e ≤ 24000
    → (prev / 4 ≤ prev * e / 6000) × (prev * e / 6000 ≤ 4 * prev)
between prev e low high =
    (omega (arith, mul-le-mul_left prev low), omega (arith, mul-le-mul_left prev high))

-- The time of a window, at least 1.
positive : ℕ → ℕ
positive e = if leb e 0 then 1 else e

scaled_short :
    (prev e : ℕ)
    → min_target ≤ prev
    → prev ≤ max_target
    → e ≤ 1500
    → scaled_target prev e ≡ max min_target (prev / 4)
unfolding scaled_target clamp_target positive
scaled_short prev e low high short =
    let small : positive e ≤ 1500 = ground (arith, short) in
    omega (arith, fast prev (positive e) small)

scaled_long :
    (prev e : ℕ)
    → min_target ≤ prev
    → prev ≤ max_target
    → 24000 ≤ e
    → scaled_target prev e ≡ min max_target (4 * prev)
unfolding scaled_target clamp_target
scaled_long prev e low high long =
    let pos : leb e 0 ≡ false = ground (arith, long) in rw pos (omega (arith, slow prev e long))

scaled_between :
    (prev e : ℕ)
    → min_target ≤ prev
    → prev ≤ max_target
    → 1500 ≤ e
    → e ≤ 24000
    → scaled_target prev e ≡ max min_target (min max_target (prev * e / 6000))
unfolding scaled_target clamp_target
scaled_between prev e low high long short =
    let pos : leb e 0 ≡ false = ground (arith, long) in
    rw pos (omega (arith, between prev e long short))

-- For a previous target in bounds: a window of at most 1500 seconds, a quarter of the intended 6000,
-- divides the target by four, but not below the least target; a window of at least 24000 seconds
-- multiplies it by four, but not beyond `MAX_TARGET`; and one between scales it by its time over
-- 6000, rounded down, within the same bounds.
pub scaled_target_lem :
    (prev elapsed : ℕ)
    → min_target ≤ prev
    → prev ≤ max_target
    → scaled_target prev elapsed ≡ (
        if leb elapsed 1500
        then max min_target (prev / 4)
        else if leb 24000 elapsed
        then min max_target (4 * prev)
        else max min_target (min max_target (prev * elapsed / 6000)))
unfolding scaled_target clamp_target
scaled_target_lem prev elapsed low high = elim (Bool-cases (leb elapsed 1500)) [
  | inl short ↦ rw short (scaled_short prev elapsed low high (ground (arith, short)))
  | inr longer ↦ elim (Bool-cases (leb 24000 elapsed)) [
    | inl long ↦ rw (longer, long) (scaled_long prev elapsed low high (ground (arith, long)))
    | inr middle ↦
        rw (longer, middle)
          (scaled_between prev elapsed low high (ground (arith, longer)) (ground (arith, middle)))
  ]
]

-- Every block of the chain has a target between the bounds.
abbrev pub AreInBounds : List BlockV2 → Type 0
AreInBounds [] = Unit
AreInBounds (b ∷ chain) =
    (min_target ≤ b.header.target) × (b.header.target ≤ max_target) × AreInBounds chain

get_elem?-in_bounds :
    (chain : List BlockV2) (i : ℕ) {b : BlockV2}
    → AreInBounds chain
    → get_elem? chain i ≡ some b
    → (min_target ≤ b.header.target) × (b.header.target ≤ max_target)
get_elem?-in_bounds [] i h e = cc
get_elem?-in_bounds (x ∷ chain) zero {b} h e = let same : x ≡ b = cc in rw (← same) (h.0, h.1)
get_elem?-in_bounds (x ∷ chain) (suc i) h e = get_elem?-in_bounds chain i h.2 e

pub block_at-some :
    (chain : List BlockV2) (i : ℕ)
    → i < length chain
    → (b : BlockV2) × (block_at chain i ≡ ok b) × (get_elem? chain i ≡ some b)
unfolding block_at
block_at-some chain i h = let (b, e) = get_elem?-some chain i h in (b, rw (e, block_at), e)

-- At a boundary, of a chain that reaches it and has its targets in bounds, the retarget succeeds;
-- the new target is in bounds, and at least a quarter and at most four times the target before.
pub retarget_bounds :
    (chain : List BlockV2) (height : ℕ)
    → AreInBounds chain
    → 10 ≤ height
    → height ≤ length chain
    → (t : ℕ) × (b : BlockV2) × (retarget chain height ≡ ok t)
      × (block_at chain (height - 1) ≡ ok b)
      × (min_target ≤ t)
      × (t ≤ max_target)
      × (b.header.target / 4 ≤ t)
      × (t ≤ 4 * b.header.target)
unfolding retarget
retarget_bounds chain height inside low high =
    let (a, ea, _) = block_at-some chain (height - 10) (omega arith) in
    let (b, eb, gb) = block_at-some chain (height - 1) (omega arith) in
    let (lo, hi) = get_elem?-in_bounds chain (height - 1) inside gb in
    let (p, q, r, s) =
      scaled_target_bounds b.header.target (b.header.timestamp - a.header.timestamp) lo hi in
    (
      scaled_target b.header.target (b.header.timestamp - a.header.timestamp),
      b,
      rw (ea, eb) (ground arith),
      eb,
      p,
      q,
      r,
      s,
    )

-- On a chain with targets in bounds and a genesis block, the expected target of every height up to
-- the next one, the length of the chain, exists and is in bounds.
pub expected_target_at_bounds :
    (chain : List BlockV2) (height : ℕ)
    → AreInBounds chain
    → 0 < length chain
    → height ≤ length chain
    → (t : ℕ) × (expected_target_at chain height ≡ ok t) × (min_target ≤ t) × (t ≤ max_target)
unfolding expected_target_at
expected_target_at_bounds chain height inside pos high =
    let (g, eg, gg) = block_at-some chain 0 pos in
    let (b, eb, gb) = block_at-some chain (height - 1) (omega arith) in
    let (glo, ghi) = get_elem?-in_bounds chain 0 inside gg in
    let (lo, hi) = get_elem?-in_bounds chain (height - 1) inside gb in
    elim (Bool-cases (leb height 0)) [
      | inl a ↦ (genesis_target, rw a refl, omega arith, omega arith)
      | inr a ↦ elim (Bool-cases (ltb height 10)) [
        | inl c ↦ (g.header.target, rw (a, c, eg) refl, glo, ghi)
        | inr c ↦ elim (Bool-cases (height % 10 == 0)) [
          | inl d ↦
              let (t, _, et, _, tlo, thi, _, _) =
                retarget_bounds chain height inside (ground arith) high in
              (t, rw (a, c, d) et, tlo, thi)
          | inr d ↦ (b.header.target, rw (a, c, d, eb) refl, lo, hi)
        ]
      ]
    ]

-- From height ten on, a height beyond the next one, the length of the chain, is an `IndexError`.
pub expected_target_at_beyond :
    (chain : List BlockV2) (height : ℕ)
    → 10 ≤ height
    → length chain < height
    → expected_target_at chain height ≡ raise index_error
unfolding expected_target_at retarget block_at
expected_target_at_beyond chain height low beyond =
    ground (arith, get_elem?-none chain (height - 1) (omega arith))
