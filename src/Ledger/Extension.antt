-- ===== src/Ledger/Extension.antt =====
-- The outcomes of `Ledger.add_block_v2` of chainbreaker/chain.py, for a refused and an accepted
-- block.
use chain_breaker.Base.{
  ok-inj, raise≢ok, ℕ, ◌+◌, ◌-◌, ◌≤◌, ◌<◌, ◌≡◌, refl, sym, ap, ◌∙◌, Bool, true, false, ◌&&◌, ◌⊎◌,
  inl, inr, Str, str_eq, eq_of_bytes_eq, length, Option, Result, ok, raise, >>=-eq-ok, arith,
  Bool-cases,
}
use chain_breaker.Json.{Value}
use chain_breaker.Block.{
  BlockV2, block_hash, satisfies_pow, min_target, max_target, protocol_version,
}
use chain_breaker.Platform.{Platform}
use chain_breaker.Governance.{GovernanceContext}
use chain_breaker.Retarget.{block_at, expected_target_at}
use chain_breaker.Registry.{RegistryState, registry_root}
use chain_breaker.Ledger.{make_context, parse_in_ledger, apply_transactions, state_at}
use chain_breaker.Ledger.Blocks.{
  Ledger, extended, median_past_time, merkle_root, is_refusal, is_well_formed, is_timely,
  verify_block, extends, append_block, add_linked, add_block_v2,
}

false≢true : false ≡ true → ⊥
false≢true h = cc

false≢ok_true : ok false ≡ ok true → ⊥
false≢ok_true h = cc

&&-eq-true : (a b : Bool) → (a && b) ≡ true → (a ≡ true) × (b ≡ true)
&&-eq-true true b h = (refl, h)
&&-eq-true false b h = absurd (false≢true h)

outcome-inj {ℓ κ} :
    {A : Type ℓ} {B : Type κ} {a a' : A} {b b' : B}
    → ◌≡◌ {A = Result (A × B)} (ok (a, b)) (ok (a', b'))
    → (a' ≡ a) × (b' ≡ b)
outcome-inj h = (cc, cc)

module _ (p : Platform) where
  -- the state at a height by a replay of the ledger's chain
  abbrev pub replayed : Ledger → ℕ → Result RegistryState
  replayed l h = state_at p l.chain l.governance_keys l.governance_threshold l.network_id h

  -- The ledger is as it was.
  abbrev pub IsKept : Ledger → Bool → Ledger → Type 0
  IsKept l b l' = (b ≡ false) × (l' ≡ l)

  -- The transactions of the block turn the replayed state into the one cached with it.
  pub record IsAppended (l : Ledger) (block : BlockV2) (l' : Ledger) : Type 0 where
    pub before : RegistryState
    pub after : RegistryState
    pub context : GovernanceContext
    pub replay : replayed l (length l.chain - 1) ≡ ok before
    pub commitment : registry_root p before ≡ ok block.header.registry_root
    pub governed : make_context l.governance_keys l.governance_threshold l.network_id ≡ ok context
    pub applied :
        apply_transactions p
          (parse_in_ledger l.network_id)
          context
          (length l.chain)
          before
          block.transactions
        ≡ ok after
    pub result : l' ≡ extended l block after

  append_block-cases :
      (l : Ledger) (block : BlockV2) (r : Result RegistryState) (b : Bool) (l' : Ledger)
      → append_block p l block r ≡ ok (b, l')
      → IsKept l b l'
        ⊎ ((state : RegistryState) × (r ≡ ok state) × (b ≡ true) × (l' ≡ extended l block state))
  unfolding append_block
  append_block-cases l block (ok state) b l' e =
      let (flag, same) = outcome-inj e in inr (state, refl, flag, same)
  append_block-cases l block (raise x) b l' e = elim (Bool-cases (is_refusal x)) [
    | inl refused ↦ inl (outcome-inj (rw refused at e))
    | inr escapes ↦ absurd (raise≢ok (rw escapes at e))
  ]

  add_linked-cases :
      (l : Ledger) (now : ℕ) (block : BlockV2) (expected : ℕ) (b : Bool) (l' : Ledger)
      → add_linked p l now block expected ≡ ok (b, l')
      → IsKept l b l'
        ⊎ ((b ≡ true)
            × IsAppended l block l'
            × (verify_block p l.transaction_validator block now
                  (median_past_time l.chain (length l.chain) 11)
                  expected
                ≡ ok true))
  unfolding add_linked
  add_linked-cases l now block expected b l' e =
      let median = median_past_time l.chain (length l.chain) 11 in
      let (before, replay, e1) = >>=-eq-ok (replayed l (length l.chain - 1)) _ e in
      let (root, committed, e2) = >>=-eq-ok (registry_root p before) _ e1 in
      elim (Bool-cases (str_eq block.header.registry_root root)) [
        | inr other ↦ inl (outcome-inj (rw other at e2))
        | inl equal ↦
            let same : block.header.registry_root ≡ root = eq_of_bytes_eq _ _ equal in
            let (verified, checked, e3) =
              >>=-eq-ok (verify_block p l.transaction_validator block now median expected) _
                (rw equal at e2) in
            elim (Bool-cases verified) [
              | inr bad ↦ inl (outcome-inj (rw bad at e3))
              | inl good ↦
                  let (context, governed, e4) =
                    >>=-eq-ok (make_context l.governance_keys l.governance_threshold l.network_id) _
                      (rw good at e3) in
                  elim (append_block-cases l block _ b l' e4) [
                    | inl kept ↦ inl kept
                    | inr (after, applied, flag, result) ↦ inr (
                      flag,
                      record {
                        before = before;
                        after = after;
                        context = context;
                        replay = replay;
                        commitment = committed ∙ ap ok (sym same);
                        governed = governed;
                        applied = applied;
                        result = result;
                      },
                      checked ∙ ap ok good,
                    )
                  ]
            ]
      ]

  -- The consensus rules that `add_block_v2` checks of an accepted block.
  pub record IsValidNext (l : Ledger) (now : ℕ) (block : BlockV2) : Type 0 where
    pub last : BlockV2
    pub hash : Str
    pub tip : block_at l.chain (length l.chain - 1) ≡ ok last
    pub linked : block_hash p.sha256 last ≡ ok block.header.prev_hash
    pub expected : expected_target_at l.chain (length l.chain) ≡ ok block.header.target
    pub version : block.header.version ≡ protocol_version
    pub least : min_target ≤ block.header.target
    pub most : block.header.target ≤ max_target
    pub merkle : merkle_root p block.transactions ≡ block.header.merkle_root
    pub hashed : block_hash p.sha256 block ≡ ok hash
    pub work : satisfies_pow hash block.header.target ≡ true
    pub later : median_past_time l.chain (length l.chain) 11 < block.header.timestamp
    pub not_ahead : block.header.timestamp ≤ now + 7200

  well_formed :
      (block : BlockV2)
      → is_well_formed p block ≡ true
      → (block.header.version ≡ protocol_version)
        × (min_target ≤ block.header.target)
        × (block.header.target ≤ max_target)
        × (str_eq (merkle_root p block.transactions) block.header.merkle_root ≡ true)
  unfolding is_well_formed
  well_formed block h = ground (arith, h)

  timely :
      (hash : Str) (block : BlockV2) (now median expected : ℕ)
      → is_timely p hash block now median expected ≡ true
      → (satisfies_pow hash block.header.target ≡ true)
        × (median < block.header.timestamp)
        × (block.header.timestamp ≤ now + 7200)
  unfolding is_timely
  timely hash block now median expected h = ground (arith, h)

  verify_block-eq-ok :
      (validator : Option (Value → Bool)) (block : BlockV2) (now median expected : ℕ)
      → verify_block p validator block now median expected ≡ ok true
      → (is_well_formed p block ≡ true)
        × (hash : Str) × (block_hash p.sha256 block ≡ ok hash)
        × (is_timely p hash block now median expected ≡ true)
  unfolding verify_block
  verify_block-eq-ok validator block now median expected e =
      elim (Bool-cases (is_well_formed p block)) [
        | inr bad ↦ absurd (false≢ok_true (rw bad at e))
        | inl good ↦
            let (hash, hashed, e1) = >>=-eq-ok (block_hash p.sha256 block) _ (rw good at e) in
            (good, hash, hashed, (&&-eq-true _ _ (&&-eq-true _ _ (ok-inj e1)).0).0)
      ]

  extends-eq-true :
      (block : BlockV2) (prev : Str) (expected : ℕ)
      → extends p block prev expected ≡ true
      → (block.header.prev_hash ≡ prev) × (block.header.target ≡ expected)
  unfolding extends
  extends-eq-true block prev expected h =
      let (linked, target) = &&-eq-true _ _ (&&-eq-true _ _ h).0 in
      (eq_of_bytes_eq _ _ linked, ground (arith, target))

  pub add_block_v2-cases :
      (l : Ledger) (now : ℕ) (block : BlockV2) (b : Bool) (l' : Ledger)
      → add_block_v2 p l now block ≡ ok (b, l')
      → IsKept l b l' ⊎ ((b ≡ true) × IsAppended l block l' × IsValidNext l now block)
  unfolding add_block_v2
  add_block_v2-cases l now block b l' e =
      let (expected, asked, e1) = >>=-eq-ok (expected_target_at l.chain (length l.chain)) _ e in
      let (last, tip, e2) = >>=-eq-ok (block_at l.chain (length l.chain - 1)) _ e1 in
      let (prev, known, e3) = >>=-eq-ok (block_hash p.sha256 last) _ e2 in
      elim (Bool-cases (extends p block prev expected)) [
        | inr bad ↦ inl (outcome-inj (rw bad at e3))
        | inl good ↦
            let (linked, target) = extends-eq-true block prev expected good in
            elim (add_linked-cases l now block expected b l' (rw good at e3)) [
              | inl kept ↦ inl kept
              | inr (flag, appended, checked) ↦
                  let (formed, hash, hashed, time) =
                    verify_block-eq-ok _ block now _ expected checked in
                  let (version, least, most, merkle) = well_formed block formed in
                  let (work, later, not_ahead) = timely hash block now _ expected time in
                  inr (
                    flag,
                    appended,
                    record {
                      last = last;
                      hash = hash;
                      tip = tip;
                      linked = known ∙ ap ok (sym linked);
                      expected = asked ∙ ap ok (sym target);
                      version = version;
                      least = least;
                      most = most;
                      merkle = eq_of_bytes_eq _ _ merkle;
                      hashed = hashed;
                      work = work;
                      later = later;
                      not_ahead = not_ahead;
                    },
                  )
            ]
      ]

  -- If `add_block_v2` returns `False`, the ledger is as it was.
  pub add_block_v2-refused :
      (l : Ledger) (now : ℕ) (block : BlockV2) (l' : Ledger)
      → add_block_v2 p l now block ≡ ok (false, l')
      → l' ≡ l
  add_block_v2-refused l now block l' e = elim (add_block_v2-cases l now block false l' e) [
    | inl kept ↦ kept.1
    | inr added ↦ absurd (false≢true added.0)
  ]

  -- If `add_block_v2` returns `True`, the block meets the consensus rules (it names the hash of the
  -- tip, has the target expected at its height, in bounds, enough work, its transactions' Merkle
  -- root, the registry root of the replayed state, and a timestamp above the median of the past and
  -- at most two hours ahead), and the ledger is extended by the block and the state that its
  -- transactions make of the replayed one.
  pub add_block_v2-accepted :
      (l : Ledger) (now : ℕ) (block : BlockV2) (l' : Ledger)
      → add_block_v2 p l now block ≡ ok (true, l')
      → IsAppended l block l' × IsValidNext l now block
  add_block_v2-accepted l now block l' e = elim (add_block_v2-cases l now block true l' e) [
    | inl kept ↦ absurd (false≢true (sym kept.0))
    | inr added ↦ (added.1, added.2)
  ]
