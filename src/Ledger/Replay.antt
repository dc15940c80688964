-- ===== src/Ledger/Replay.antt =====
-- The replayed state along a chain that grows by a block.
use chain_breaker.Base.{
  raise≢ok, ℕ, zero, suc, ◌+◌, ◌-◌, ◌≤◌, ◌<◌, ◌≡◌, refl, sym, ap, ◌∙◌, false, inl, inr, List, [],
  ◌∷◌, ◌++◌, Str, length, length-append, take, Option, Result, ok, ◌>>=◌, leb, arith, Result-cases,
}
use chain_breaker.Json.{Value}
use chain_breaker.Block.{BlockV2}
use chain_breaker.Platform.{Platform}
use chain_breaker.Governance.{GovernanceContext, GovernanceTx}
use chain_breaker.Registry.{RegistryState}
use chain_breaker.Ledger.{
  make_context, genesis_state, parse_in_ledger, apply_transactions, replay_from, state_at,
}

take-append_short {ℓ} :
    {A : Type ℓ} (n : ℕ) (xs ys : List A) → n ≤ length xs → take n (xs ++ ys) ≡ take n xs
take-append_short zero xs ys h = refl
take-append_short (suc n) [] ys h = absurd (omega arith)
take-append_short (suc n) (x ∷ xs) ys h = ap (◌∷◌ x) (take-append_short n xs ys (omega arith))

take-all {ℓ} : {A : Type ℓ} (n : ℕ) (xs : List A) → length xs ≤ n → take n xs ≡ xs
take-all zero [] h = refl
take-all zero (x ∷ xs) h = absurd (omega arith)
take-all (suc n) [] h = refl
take-all (suc n) (x ∷ xs) h = ap (◌∷◌ x) (take-all n xs (omega arith))

module _ (p : Platform) where
  replay_from-append :
      (parse : Value → Result (Option GovernanceTx)) (context : GovernanceContext) (h : ℕ)
      (s : RegistryState) (xs ys : List BlockV2)
      → replay_from p parse context h s (xs ++ ys) ≡ (
          replay_from p parse context h s xs >>= λ t.
          replay_from p parse context (h + length xs) t ys)
  unfolding replay_from
  replay_from-append parse context h s [] ys =
      ap (λ k. replay_from p parse context k s ys) (omega arith)
  replay_from-append parse context h s (x ∷ xs) ys =
      elim (Result-cases (apply_transactions p parse context h s x.transactions)) [
        | inl (e, bad) ↦ rw bad refl
        | inr (t, good) ↦ rw good (
            replay_from-append parse context (h + 1) t xs ys
            ∙ ap
                (λ k. replay_from p parse context (h + 1) t xs >>= λ u.
                  replay_from p parse context k u ys)
                (omega arith))
      ]

  replay_step :
      (parse : Value → Result (Option GovernanceTx)) (context : GovernanceContext)
      (g before after : RegistryState) (rest : List BlockV2) (block : BlockV2)
      → replay_from p parse context 1 g rest ≡ ok before
      → apply_transactions p parse context (suc (length rest)) before block.transactions ≡ ok after
      → replay_from p parse context 1 g (rest ++ (block ∷ [])) ≡ ok after
  unfolding replay_from
  replay_step parse context g before after rest block replayed new =
      let height : 1 + length rest ≡ suc (length rest) = omega arith in
      replay_from-append parse context 1 g rest (block ∷ []) ∙ rw (replayed, height, new) refl

  module _ (keys : List Str) (threshold : ℕ) (network : Str) where
    -- A new block does not change the state at the heights below it.
    pub state_at-append :
        (chain : List BlockV2) (block : BlockV2) (h : ℕ)
        → h < length chain
        → state_at p (chain ++ (block ∷ [])) keys threshold network h
          ≡ state_at p chain keys threshold network h
    unfolding state_at
    state_at-append [] block h low = absurd (omega arith)
    state_at-append (c ∷ rest) block h low =
        let same = take-append_short h rest (block ∷ []) (omega arith) in
        rw (length-append, same) (ground arith)

    state_at_replayed :
        (c : BlockV2) (rest : List BlockV2) (context : GovernanceContext) (g : RegistryState)
        (h : ℕ)
        → make_context keys threshold network ≡ ok context
        → genesis_state keys threshold network ≡ ok g
        → leb (suc (length rest)) h ≡ false
        → state_at p (c ∷ rest) keys threshold network h
          ≡ replay_from p (parse_in_ledger network) context 1 g (take h rest)
    unfolding state_at
    state_at_replayed c rest context g h known begun low = rw (known, low, begun) refl

    extend :
        (c : BlockV2) (rest : List BlockV2) (block : BlockV2) (context : GovernanceContext)
        (g before after : RegistryState)
        → make_context keys threshold network ≡ ok context
        → genesis_state keys threshold network ≡ ok g
        → replay_from p (parse_in_ledger network) context 1 g rest ≡ ok before
        → apply_transactions p
            (parse_in_ledger network)
            context
            (suc (length rest))
            before
            block.transactions
          ≡ ok after
        → state_at p (c ∷ (rest ++ (block ∷ []))) keys threshold network (suc (length rest))
          ≡ ok after
    extend c rest block context g before after known begun replayed new =
        let size = length-append rest (block ∷ []) in
        let low : leb (suc (length (rest ++ (block ∷ [])))) (suc (length rest)) ≡ false =
          ground (arith, size) in
        let all = take-all (suc (length rest)) (rest ++ (block ∷ [])) (omega (arith, size)) in
        state_at_replayed c (rest ++ (block ∷ [])) context g (suc (length rest)) known begun low
        ∙ ap (replay_from p (parse_in_ledger network) context 1 g) all
        ∙ replay_step (parse_in_ledger network) context g before after rest block replayed new

    -- The state behind a new block is the state before it with its transactions applied.
    pub state_at-extended :
        (chain : List BlockV2) (block : BlockV2) (context : GovernanceContext)
        (before after : RegistryState)
        → 0 < length chain
        → make_context keys threshold network ≡ ok context
        → state_at p chain keys threshold network (length chain - 1) ≡ ok before
        → apply_transactions p
            (parse_in_ledger network)
            context
            (length chain)
            before
            block.transactions
          ≡ ok after
        → state_at p (chain ++ (block ∷ [])) keys threshold network (length chain) ≡ ok after
    unfolding state_at
    state_at-extended [] block context before after low known old new = absurd (omega arith)
    state_at-extended (c ∷ rest) block context before after low known old new =
        let low_leb : leb (suc (length rest)) (suc (length rest) - 1) ≡ false = ground arith in
        elim (Result-cases (genesis_state keys threshold network)) [
          | inl (e, bad) ↦ absurd (raise≢ok (rw (known, low_leb, bad) at old))
          | inr (g, begun) ↦
              let whole = take-all (suc (length rest) - 1) rest (omega arith) in
              let replayed = sym (state_at_replayed c rest context g _ known begun low_leb) ∙ old in
              extend c rest block context g before after known begun (rw whole at replayed) new
        ]
