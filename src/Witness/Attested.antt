-- ===== src/Witness/Attested.antt =====
-- What a transaction that chainbreaker/witness.py accepts has been attested by.
use chain_breaker.Base.{
  ℕ, suc, ◌≤◌, ◌≡◌, refl, ap, true, false, inl, inr, some, List, [], ◌∷◌, Bytes, Str, text, length,
  ok, ok-inj, raise≢ok, arith, Bool-cases, Option-cases, Result-cases,
}
use chain_breaker.Json.{Value, Items, Fields, null, obj, nil, cons, get, member}
use chain_breaker.Platform.{Platform, hash_object_hex, decode_public_key, verify}
use chain_breaker.Registry.{RegistryState, key_was_valid_at}
use chain_breaker.Witness.{
  attestation_message_v2, text_at, check_signature, verify_attestation_v2, verify_witnesses,
  is_dictionary, items_at, verify_transaction_witnesses_v2,
}

-- A curator has signed the body for this height, with a key that was theirs at that height.
pub record Attests (p : Platform) (state : RegistryState) (body_hash : Str) (height : ℕ)
    (curator : Str) : Type 0 where
  pub key : Str
  pub signature : Str
  pub raw_key : Bytes
  pub held : key_was_valid_at state curator key height ≡ true
  pub decoded : decode_public_key p key ≡ ok raw_key
  pub signed : verify p raw_key (attestation_message_v2 p body_hash curator height) signature ≡ true

abbrev pub AllAttest : Platform → RegistryState → Str → ℕ → List Str → Type 0
AllAttest p state body_hash height [] = Unit
AllAttest p state body_hash height (c ∷ cs) =
    Attests p state body_hash height c × AllAttest p state body_hash height cs

-- No curator is named twice.
abbrev pub AreDistinct : List Str → Type 0
AreDistinct [] = Unit
AreDistinct (c ∷ cs) = (member c cs ≡ false) × AreDistinct cs

module _ (p : Platform) (state : RegistryState) (body_hash : Str) (height : ℕ) where
  check_signature-true :
      (curator key signature : Str)
      → key_was_valid_at state curator key height ≡ true
      → check_signature p key signature (attestation_message_v2 p body_hash curator height) ≡ true
      → Attests p state body_hash height curator
  unfolding check_signature
  check_signature-true curator key signature held e =
      elim (Result-cases (decode_public_key p key)) [
        | inl (x, bad) ↦ absurd (ground (arith, bad, e))
        | inr (pk, good) ↦ record {
          key = key;
          signature = signature;
          raw_key = pk;
          held = held;
          decoded = good;
          signed = ground (arith, good, e);
        }
      ]

  verify_attestation_v2-true :
      (d : Fields) (curator : Str)
      → text_at (text "curator_id") d ≡ some curator
      → verify_attestation_v2 p state d body_hash height ≡ true
      → Attests p state body_hash height curator
  unfolding verify_attestation_v2
  verify_attestation_v2-true d curator named e =
      elim (Option-cases (text_at (text "signature") d)) [
        | inl lost ↦ absurd (ground (arith, named, lost, e))
        | inr (signature, signed) ↦ elim (Option-cases (text_at (text "public_key_hex") d)) [
          | inl lost ↦ absurd (ground (arith, named, signed, lost, e))
          | inr (key, keyed) ↦
              check_signature-true curator key signature (ground (arith, named, signed, keyed, e))
                (ground (arith, named, signed, keyed, e))
        ]
      ]

  -- The curators of an accepted list of witnesses, with those seen before.
  abbrev Attested : ℕ → Type 0
  Attested least =
      (names : List Str) × (least ≤ length names)
      × AreDistinct names
      × AllAttest p state body_hash height names

  verify_witnesses-true :
      (least : ℕ) (seen : List Str) (valid : ℕ) (items : Items)
      → valid ≡ length seen
      → AreDistinct seen
      → AllAttest p state body_hash height seen
      → verify_witnesses p state body_hash height least seen valid items ≡ ok true
      → Attested least
  unfolding verify_witnesses
  verify_witnesses-true least seen valid nil count distinct all e =
      (seen, ground (arith, ok-inj e, count), distinct, all)
  verify_witnesses-true least seen valid (cons (obj d) rest) count distinct all e =
      elim (Option-cases (text_at (text "curator_id") d)) [
        | inl lost ↦ absurd (ground (arith, lost, e))
        | inr (curator, named) ↦ elim (Bool-cases (member curator seen)) [
          | inl twice ↦ absurd (ground (arith, named, twice, e))
          | inr fresh ↦ elim (Bool-cases (verify_attestation_v2 p state d body_hash height)) [
            | inr bad ↦ absurd (ground (arith, named, fresh, bad, e))
            | inl good ↦
                verify_witnesses-true least (curator ∷ seen) (suc valid) rest (ap suc count)
                  (fresh, distinct) (verify_attestation_v2-true d curator named good, all)
                  (ground (arith, named, fresh, good, e))
          ]
        ]
      ]
  verify_witnesses-true least seen valid (cons null rest) count distinct all e = absurd (raise≢ok e)
  verify_witnesses-true least seen valid (cons other rest) count distinct all e =
      absurd (raise≢ok e)

-- A transaction is accepted at a height only if as many curators as are asked for, no one counted
-- twice, have signed its body for this height, each with a key that the registry state attests to
-- them at this height.
pub verify_transaction_witnesses_v2-accepted :
    (p : Platform) (state : RegistryState) (tx : Fields) (height least : ℕ)
    → verify_transaction_witnesses_v2 p state (obj tx) height least ≡ ok true
    → (body : Value) × (get (text "body") tx ≡ some body)
      × (names : List Str) × (least ≤ length names)
      × AreDistinct names
      × AllAttest p state (hash_object_hex p body) height names
unfolding verify_transaction_witnesses_v2
verify_transaction_witnesses_v2-accepted p state tx height least e =
    elim (Option-cases (get (text "body") tx)) [
      | inl lost ↦ absurd (ground (arith, lost, e))
      | inr (body, found) ↦ elim (Bool-cases (is_dictionary (some body))) [
        | inr bad ↦ absurd (ground (arith, found, bad, e))
        | inl good ↦ elim (Option-cases (items_at (get (text "witnesses") tx))) [
          | inl lost ↦ absurd (ground (arith, found, good, lost, e))
          | inr (items, listed) ↦
              let accepted : verify_witnesses p state (hash_object_hex p body) height least [] 0
                    items
                  ≡ ok true =
                ground (arith, found, good, listed, e) in
              let (names, enough, distinct, all) =
                verify_witnesses-true p state (hash_object_hex p body) height least [] 0 items refl
                  tt tt accepted in
              (body, found, names, enough, distinct, all)
        ]
      ]
    ]
