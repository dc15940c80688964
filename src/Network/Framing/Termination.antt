-- ===== src/Network/Framing/Termination.antt =====
-- The rounds of the loop of `EnvelopeFraming.consume` in chainbreaker/network/socket/framing.py.
use mathlib.Core.Path.{subst}
use chain_breaker.Base.{
  raise≢ok, ok-inj, ℕ, zero, suc, ◌+◌, ◌-◌, ◌≤◌, ◌<◌, ◌≡◌, refl, sym, ap, ◌∙◌, false, ◌||◌, inl,
  inr, Option, none, some, List, [], ◌∷◌, Bytes, bytes_eq, length, length-drop, take, drop, Result,
  ok, raise, Exn, arith, ltb, ◌==◌, Bool-cases, Option-cases, Result-cases,
}
use chain_breaker.Codec.{byte_at}
use chain_breaker.Network.Envelope.{NetworkEnvelope, cbn1_magic}
use chain_breaker.Network.Framing.{
  SocketLimits, Round, declared, find_magic, resynchronised, take_frame, after_magic, try_parse_one,
  cons_result, consume_loop,
}

-- A round leaves an end of the buffer, a shorter one if it cuts an envelope.
record IsRound (buf : Bytes) (r : Round) : Type 0 where
  dropped : ℕ
  rest : r.0 ≡ drop dropped buf
  shorter : (e : NetworkEnvelope) → r.1 ≡ ok (some e) → length r.0 < length buf

stay : (buf : Bytes) → IsRound buf (buf, ok none)
stay buf = record { dropped = 0; rest = refl; shorter = λ e h. cc }

fail : (buf : Bytes) (x : Exn) → IsRound buf (buf, raise x)
fail buf x = record { dropped = 0; rest = refl; shorter = λ e h. cc }

skip : (buf : Bytes) (k : ℕ) → IsRound buf (drop k buf, ok none)
skip buf k = record { dropped = k; rest = refl; shorter = λ e h. cc }

resynchronised-IsRound :
    (buf : Bytes) (at : Option ℕ) → IsRound buf (resynchronised buf at, ok none)
unfolding resynchronised
resynchronised-IsRound buf none = skip buf (length buf - 3)
resynchronised-IsRound buf (some i) = skip buf i

drop-unmoved : (k : ℕ) (xs : Bytes) → length xs ≤ length (drop k xs) → drop k xs ≡ xs
drop-unmoved zero xs h = refl
drop-unmoved (suc k) [] h = refl
drop-unmoved (suc k) (x ∷ xs) h = absurd (omega (arith, h, length-drop k xs))

raised :
    {buf rest : Bytes} {x : Exn} {es : List NetworkEnvelope}
    → ◌≡◌ {A = Bytes × Result (List NetworkEnvelope)} (buf, raise x) (rest, ok es)
    → ⊥
raised e = raise≢ok (ap (λ m. m.1) e)

cons_result-ok :
    (e : NetworkEnvelope) (r : Bytes × Result (List NetworkEnvelope)) (rest : Bytes)
    (es : List NetworkEnvelope)
    → cons_result e r ≡ (rest, ok es)
    → (before : List NetworkEnvelope) × (es ≡ e ∷ before) × (r ≡ (rest, ok before))
unfolding cons_result
cons_result-ok e (buf, ok before) rest es h =
    (before, sym (ok-inj (ap (λ m. m.1) h)), λ i. ((ap (λ m. m.0) h) i, ok before))
cons_result-ok e (buf, raise x) rest es h = absurd (raised h)

module _ (sha256 : Bytes → Bytes) (limits : SocketLimits) where
  take_frame-IsRound :
      (buf : Bytes) (id_size size : ℕ) → IsRound buf (take_frame sha256 limits buf id_size size)
  unfolding take_frame
  take_frame-IsRound buf id_size size = elim (Bool-cases (ltb limits.max_message_size size)) [
    | inl a ↦ rw (a, take_frame) (fail buf _)
    | inr a ↦ elim (Bool-cases (ltb limits.max_message_size (45 + id_size + size))) [
      | inl b ↦ rw (a, b, take_frame) (fail buf _)
      | inr b ↦ elim (Bool-cases (ltb (length buf) (45 + id_size + size))) [
        | inl c ↦ rw (a, b, c, take_frame) (stay buf)
        | inr c ↦
            rw (a, b, c, take_frame)
              (record {
                dropped = 45 + id_size + size;
                rest = refl;
                shorter = λ e h. ground (arith, c, length-drop (45 + id_size + size) buf);
              })
      ]
    ]
  ]

  after_magic-IsRound :
      (buf : Bytes) (id_size : ℕ) → IsRound buf (after_magic sha256 limits buf id_size)
  unfolding after_magic
  after_magic-IsRound buf id_size = elim (Bool-cases (id_size == 0 || ltb 64 id_size)) [
    | inl a ↦ rw (a, after_magic) (skip buf 1)
    | inr a ↦ elim (Bool-cases (ltb (length buf) (45 + id_size))) [
      | inl b ↦ rw (a, b, after_magic) (stay buf)
      | inr b ↦ rw (a, b, after_magic) (take_frame-IsRound buf id_size (declared buf id_size))
    ]
  ]

  try_parse_one-IsRound : (buf : Bytes) → IsRound buf (try_parse_one sha256 limits buf)
  unfolding try_parse_one
  try_parse_one-IsRound buf = elim (Bool-cases (ltb (length buf) 4)) [
    | inl a ↦ rw (a, try_parse_one) (stay buf)
    | inr a ↦ elim (Bool-cases (bytes_eq (take 4 buf) cbn1_magic)) [
      | inr b ↦ rw (a, b, try_parse_one) (resynchronised-IsRound buf (find_magic buf))
      | inl b ↦ elim (Bool-cases (ltb (length buf) 7)) [
        | inl c ↦ rw (a, b, c, try_parse_one) (stay buf)
        | inr c ↦ elim (Result-cases (byte_at buf 6)) [
          | inl (x, d) ↦ rw (a, b, c, d, try_parse_one) (fail buf x)
          | inr (id_size, d) ↦ rw (a, b, c, d, try_parse_one) (after_magic-IsRound buf id_size)
        ]
      ]
    ]
  ]

  -- Nothing can be cut from the buffer, nor dropped.
  abbrev pub IsWaiting : Bytes → Type 0
  IsWaiting buf = try_parse_one sha256 limits buf ≡ (buf, ok none)

  unmoved :
      (buf : Bytes) (r : Round)
      → IsRound buf r
      → r.1 ≡ ok none
      → ltb (length r.0) (length buf) ≡ false
      → r ≡ (buf, ok none)
  unmoved buf r w idle same =
      let whole : r.0 ≡ buf =
        w.rest ∙ drop-unmoved w.dropped buf (ground (arith, same, ap length w.rest)) in
      λ i. (whole i, idle i)

  -- The three outcomes of a round, with the rest of the loop.
  data Next (buf : Bytes) : Type 0 where
    failed :
        (x : Exn) (rest : Bytes)
        → ((f : ℕ) → consume_loop sha256 limits (suc f) buf ≡ (rest, raise x))
        → Next buf
    cut :
        (e : NetworkEnvelope) (rest : Bytes)
        → length rest < length buf
        → ((f : ℕ)
            → consume_loop sha256 limits (suc f) buf
              ≡ cons_result e (consume_loop sha256 limits f rest))
        → Next buf
    dropped :
        (rest : Bytes)
        → length rest < length buf
        → ((f : ℕ) → consume_loop sha256 limits (suc f) buf ≡ consume_loop sha256 limits f rest)
        → Next buf
    ended :
        IsWaiting buf → ((f : ℕ) → consume_loop sha256 limits (suc f) buf ≡ (buf, ok [])) → Next buf

  next : (buf : Bytes) → Next buf
  unfolding consume_loop
  next buf =
      let r = try_parse_one sha256 limits buf in
      let w = try_parse_one-IsRound buf in
      elim (Result-cases r.1) [
        | inl (x, e) ↦ failed x r.0 (λ f. rw (e, consume_loop) refl)
        | inr (o, e) ↦ elim (Option-cases o) [
          | inr (env, k) ↦
              let found = e ∙ ap ok k in
              cut env r.0 (w.shorter env found) (λ f. rw (found, consume_loop) refl)
          | inl k ↦ elim (Bool-cases (ltb (length r.0) (length buf))) [
            | inl less ↦
                dropped r.0 (ground (arith, less)) (λ f. rw (e, k, less, consume_loop) refl)
            | inr same ↦
                let still = unmoved buf r w (e ∙ ap ok k) same in
                ended still (λ f. rw (e, k, same, consume_loop) (ap (λ m. (m.0, ok [])) still))
          ]
        ]
      ]

  loop_lem :
      (f g : ℕ) (buf : Bytes)
      → length buf < f
      → length buf < g
      → (consume_loop sha256 limits f buf ≡ consume_loop sha256 limits g buf)
        × ((rest : Bytes) (es : List NetworkEnvelope)
            → consume_loop sha256 limits f buf ≡ (rest, ok es)
            → IsWaiting rest)
  loop_lem zero g buf hf hg = absurd (omega arith)
  loop_lem (suc f) zero buf hf hg = absurd (omega arith)
  loop_lem (suc f) (suc g) buf hf hg = elim (next buf) [
    | failed x rest step ↦ (step f ∙ sym (step g), λ end es e. absurd (raised (sym (step f) ∙ e)))
    | ended still step ↦ (
      step f ∙ sym (step g),
      λ end es e. subst IsWaiting (ap (λ m. m.0) (sym (step f) ∙ e)) still,
    )
    | dropped rest less step ↦
        let (same, waits) = loop_lem f g rest (omega arith) (omega arith) in
        (step f ∙ same ∙ sym (step g), λ end es e. waits end es (sym (step f) ∙ e))
    | cut env rest less step ↦
        let (same, waits) = loop_lem f g rest (omega arith) (omega arith) in
        (
          step f ∙ ap (cons_result env) same ∙ sym (step g),
          λ end es e.
              let (before, _, e') =
                cons_result-ok env (consume_loop sha256 limits f rest) end es (sym (step f) ∙ e) in
              waits end before e',
        )
  ]

  -- The loop of `consume` ends, on every buffer, within one round more than the buffer has bytes:
  -- more fuel does not change its outcome, and if it returns envelopes, then nothing more can be cut
  -- from the buffer that it leaves.
  pub consume_loop-ends :
      (fuel : ℕ) (buf : Bytes)
      → length buf < fuel
      → (consume_loop sha256 limits fuel buf ≡ consume_loop sha256 limits (suc (length buf)) buf)
        × ((rest : Bytes) (es : List NetworkEnvelope)
            → consume_loop sha256 limits fuel buf ≡ (rest, ok es)
            → IsWaiting rest)
  consume_loop-ends fuel buf h = loop_lem fuel (suc (length buf)) buf h (omega arith)
