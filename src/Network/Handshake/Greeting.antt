-- ===== src/Network/Handshake/Greeting.antt =====
-- What `validate_hello` of chainbreaker/network/transport/handshake.py lets pass, and the features that
-- two nodes share.
use mathlib.Core.Path.{subst}
use chain_breaker.Base.{
  ℕ, ◌≡◌, ◌≢◌, sym, ap, refl, true, false, ◌&&◌, inl, inr, none, List, [], ◌∷◌, Str, str_eq,
  eq_of_bytes_eq, bytes_eq_self, bytes_eq-cases, arith, Bool-cases,
}
use chain_breaker.Json.{member}
use chain_breaker.Network.Payload.{ℤ, pos, negsuc}
use chain_breaker.Network.Messages.{HelloMessage}
use chain_breaker.Network.Handshake.{
  HandshakeContext, same_version, validate_hello, common_features,
}

-- The greeting is of the context's protocol, network and genesis block.
pub record IsValid (context : HandshakeContext) (m : HelloMessage) : Type 0 where
  pub version : m.protocol_version ≡ pos context.protocol_version
  pub network : m.network_id ≡ context.network_id
  pub genesis : m.genesis_hash ≡ context.genesis_hash

same_version-eq : (z : ℤ) (v : ℕ) → same_version z v ≡ true → z ≡ pos v
same_version-eq (pos n) v h = ground arith
same_version-eq (negsuc n) v h = cc

pub validate_hello-IsValid :
    (context : HandshakeContext) (m : HelloMessage)
    → validate_hello context m ≡ none
    → IsValid context m
unfolding validate_hello
validate_hello-IsValid context m h =
    elim (Bool-cases (same_version m.protocol_version context.protocol_version)) [
      | inr a ↦ ground (arith, a, h)
      | inl a ↦ elim (Bool-cases (str_eq m.network_id context.network_id)) [
        | inr b ↦ ground (arith, a, b, h)
        | inl b ↦ elim (Bool-cases (str_eq m.genesis_hash context.genesis_hash)) [
          | inr c ↦ ground (arith, a, b, c, h)
          | inl c ↦ record {
            version = same_version-eq m.protocol_version context.protocol_version a;
            network = eq_of_bytes_eq m.network_id context.network_id b;
            genesis = eq_of_bytes_eq m.genesis_hash context.genesis_hash c;
          }
        ]
      ]
    ]

str_eq-false : (s t : Str) → s ≢ t → str_eq s t ≡ false
str_eq-false s t apart = elim (Bool-cases (str_eq s t)) [
  | inl same ↦ absurd (apart (eq_of_bytes_eq s t same))
  | inr e ↦ e
]

-- A feature is common exactly if both have it.
pub member-common_features :
    (f : Str) (ours theirs : List Str)
    → member f (common_features ours theirs) ≡ (member f ours && member f theirs)
unfolding common_features member
member-common_features f [] theirs = refl
member-common_features f (o ∷ ours) theirs =
    let ih = member-common_features f ours theirs in
    elim (bytes_eq-cases f o) [
      | inl same ↦
          let self : str_eq f o ≡ true = subst (λ x. str_eq f x ≡ true) same (bytes_eq_self f) in
          let there : member o theirs ≡ member f theirs = ap (λ x. member x theirs) (sym same) in
          ground (arith, self, there, ih)
      | inr other ↦
          let apart : str_eq f o ≡ false = str_eq-false f o other in ground (arith, apart, ih)
    ]
