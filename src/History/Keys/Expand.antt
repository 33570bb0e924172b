-- ===== src/History/Keys/Expand.antt =====
-- The generator's `hkdf_sha256` against the definition of RFC 5869: the blocks T(1), T(2), ... joined
-- and cut to the length asked for.
use construct_protos.Prelude.{
  ℕ, zero, suc, ◌+◌, ◌*◌, ◌/◌, ◌≤◌, ◌<◌, ◌≡◌, ◌∙◌, refl, ap, [], ◌∷◌, ◌++◌, Option, some, take,
  length, arith, length-take, length-append, lt→ltb, le→ltb_false, if◌then◌else◌, leb, leb→le,
  leb_false→lt, Bool-cases, inl, inr,
}
use construct_protos.Prelude.Result.{ok, err, Raises, value_error}
use construct_protos.Bytes.{Bytes}
use construct_protos.History.Keys.{Hmac, hkdf_loop, hkdf, hkdf_round, hkdf_end}

module _ (hmac : Hmac) where
  -- T(i) of RFC 5869, T(0) being empty.
  abbrev pub block : Bytes → Bytes → ℕ → Bytes
  block prk info zero = []
  block prk info (suc i) = hmac.digest prk (block prk info i ++ (info ++ (suc i ∷ [])))

  -- T(1), ..., T(n), joined.
  abbrev pub blocks : Bytes → Bytes → ℕ → Bytes
  blocks prk info zero = []
  blocks prk info (suc i) = blocks prk info i ++ block prk info (suc i)

  length-blocks : (prk info : Bytes) (n : ℕ) → length (blocks prk info n) ≡ 32 * n
  length-blocks prk info zero = refl
  length-blocks prk info (suc i) = omega (
    arith,
    length-append {0} (blocks prk info i) (block prk info (suc i)),
    length-blocks prk info i,
    hmac.length-digest prk (block prk info i ++ (info ++ (suc i ∷ []))),
  )

  -- The loop behind `i` rounds.
  abbrev loop_at : ℕ → Bytes → Bytes → ℕ → ℕ → Option (Raises Bytes)
  loop_at fuel prk info size i =
      hkdf_loop hmac fuel prk info size (blocks prk info i) (block prk info i) (suc i)

  loop_round :
      (fuel : ℕ) (prk info : Bytes) (size i : ℕ)
      → 32 * i < size
      → suc i < 256
      → loop_at (suc fuel) prk info size i ≡ loop_at fuel prk info size (suc i)
  loop_round fuel prk info size i h k =
      let next : suc i + 1 ≡ suc (suc i) = omega arith in
      hkdf_round hmac fuel prk info size (blocks prk info i) (block prk info i) (suc i)
        (omega (arith, length-blocks prk info i)) k
      ∙ ap (hkdf_loop hmac fuel prk info size (blocks prk info (suc i)) (block prk info (suc i)))
          next

  -- With `left` rounds to go.
  loop_returns :
      (left fuel : ℕ) (prk info : Bytes) (size i : ℕ)
      → left ≤ fuel
      → i + left ≤ 255
      → size ≤ 32 * (i + left)
      → 32 * (i + left) < size + 32
      → loop_at fuel prk info size i ≡ some (ok (blocks prk info (i + left)))
  loop_returns zero fuel prk info size i f few enough least =
      let same : i ≡ i + 0 = omega arith in
      hkdf_end hmac fuel prk info size (blocks prk info i) (block prk info i) (suc i)
        (omega (arith, length-blocks prk info i))
      ∙ ap (λ n. some (ok (blocks prk info n))) same
  loop_returns (suc left) zero prk info size i f few enough least = absurd (omega arith)
  loop_returns (suc left) (suc fuel) prk info size i f few enough least =
      let shift : suc i + left ≡ i + suc left = omega arith in
      loop_round fuel prk info size i (omega arith) (omega arith)
      ∙ loop_returns left fuel prk info size (suc i) (omega arith) (omega arith) (omega arith)
          (omega arith)
      ∙ ap (λ n. some (ok (blocks prk info n))) shift

  loop_raises :
      (left fuel : ℕ) (prk info : Bytes) (size i : ℕ)
      → left < fuel
      → i + left ≡ 255
      → 255 * 32 < size
      → loop_at fuel prk info size i ≡ some (err value_error)
  unfolding hkdf_loop
  loop_raises left zero prk info size i f h long = absurd (omega arith)
  loop_raises zero (suc fuel) prk info size i f h long =
      rw
        (
          lt→ltb (length (blocks prk info i)) size (omega (arith, length-blocks prk info i)),
          le→ltb_false (suc i) 256 (omega arith),
        )
        refl
  loop_raises (suc left) (suc fuel) prk info size i f h long =
      loop_round fuel prk info size i (omega arith) (omega arith)
      ∙ loop_raises left fuel prk info size (suc i) (omega arith) (omega arith) long

  -- HKDF-Expand of RFC 5869: as many blocks as the length takes, cut.
  abbrev pub expand : Bytes → Bytes → ℕ → Bytes
  expand prk info size = take size (blocks prk info ((size + 31) / 32))

  loop_expands :
      (ikm salt info : Bytes) (size : ℕ)
      → size ≤ 255 * 32
      → hkdf hmac ikm salt info size ≡ some (ok (expand (hmac.digest salt ikm) info size))
  unfolding hkdf
  loop_expands ikm salt info size h =
      let prk = hmac.digest salt ikm in
      let n = (size + 31) / 32 in
      let all : 0 + n ≡ n = omega arith in
      rw
        (loop_returns n size prk info size 0 (omega arith) (omega arith) (omega arith) (omega arith)
          ∙ ap (λ k. some (ok (blocks prk info k))) all)
        refl

  loop_refuses :
      (ikm salt info : Bytes) (size : ℕ)
      → 255 * 32 < size
      → hkdf hmac ikm salt info size ≡ some (err value_error)
  unfolding hkdf
  loop_refuses ikm salt info size h =
      rw (loop_raises 255 size (hmac.digest salt ikm) info size 0 (omega arith) refl h) refl

  -- For every length asked for, the generator's loop ends: with HKDF-Expand of RFC 5869, of the key that
  -- is extracted with the salt, if the length is at most 255 blocks, and else with a ValueError. What
  -- HKDF-Expand gives has the length asked for.
  pub hkdf-expand :
      (ikm salt info : Bytes) (size : ℕ)
      → (hkdf hmac ikm salt info size
          ≡ some (
              if leb size (255 * 32)
              then ok (expand (hmac.digest salt ikm) info size)
              else err value_error))
        × (length (expand (hmac.digest salt ikm) info size) ≡ size)
  hkdf-expand ikm salt info size =
      let prk = hmac.digest salt ikm in
      (
        elim (Bool-cases (leb size (255 * 32))) [
          | inl h ↦ rw h (loop_expands ikm salt info size (leb→le size (255 * 32) h))
          | inr h ↦ rw h (loop_refuses ikm salt info size (leb_false→lt size (255 * 32) h))
        ],
        omega (
          arith,
          length-take size (blocks prk info ((size + 31) / 32)),
          length-blocks prk info ((size + 31) / 32),
        ),
      )
