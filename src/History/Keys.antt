-- ===== src/History/Keys.antt =====
-- The channel key: `hkdf_sha256` of the generator, with its loop, and the checker's, of one block.
-- HMAC-SHA-256 is a parameter: a digest of 32 bytes of a key and a message.
pub mod Expand
use construct_protos.Prelude.{
  ℕ, zero, suc, ◌+◌, ◌≤◌, ◌<◌, ◌≡◌, ap, ◌∙◌, [], ◌∷◌, ◌++◌, Option, none, some, ltb, if◌then◌else◌,
  take, length, arith, take_all, lt→ltb, le→ltb_false,
}
use construct_protos.Prelude.Result.{ok, err, Raises, value_error}
use construct_protos.Bytes.{Bytes}

pub record Hmac : Type 0 where
  pub digest : Bytes → Bytes → Bytes
  pub length-digest : (key message : Bytes) → length (digest key message) ≡ 32

module _ (hmac : Hmac) where
  -- check_history_snapshot.hkdf_sha256
  unfoldable pub hkdf_block : Bytes → Bytes → Bytes → Bytes
  hkdf_block ikm salt info = hmac.digest (hmac.digest salt ikm) (info ++ (1 ∷ []))

  -- while len(out) < length: ...; each round adds 32 bytes, so `size` rounds are enough, and `none`
  -- is the end of the fuel. A counter of 256 is a ValueError.
  unfoldable pub hkdf_loop : ℕ → Bytes → Bytes → ℕ → Bytes → Bytes → ℕ → Option (Raises Bytes)
  hkdf_loop zero prk info size out block counter =
      if ltb (length out) size then none else some (ok out)
  hkdf_loop (suc fuel) prk info size out block counter =
      let next = hmac.digest prk (block ++ (info ++ (counter ∷ []))) in
      let more = hkdf_loop fuel prk info size (out ++ next) next (counter + 1) in
      if ltb (length out) size
      then (if ltb counter 256 then more else some (err value_error))
      else some (ok out)

  abbrev cut : ℕ → Option (Raises Bytes) → Option (Raises Bytes)
  cut size none = none
  cut size (some (ok out)) = some (ok (take size out))
  cut size (some (err e)) = some (err e)

  -- gen_history_snapshot_vectors.hkdf_sha256
  unfoldable pub hkdf : Bytes → Bytes → Bytes → ℕ → Option (Raises Bytes)
  unfolding hkdf_loop
  hkdf ikm salt info size = cut size (hkdf_loop size (hmac.digest salt ikm) info size [] [] 1)

  -- One round, before the wanted length is reached, and the end.
  pub hkdf_round :
      (fuel : ℕ) (prk info : Bytes) (size : ℕ) (out block : Bytes) (counter : ℕ)
      → length out < size
      → counter < 256
      → hkdf_loop (suc fuel) prk info size out block counter
        ≡ hkdf_loop fuel prk info size
            (out ++ hmac.digest prk (block ++ (info ++ (counter ∷ []))))
            (hmac.digest prk (block ++ (info ++ (counter ∷ []))))
            (counter + 1)
  unfolding hkdf_loop
  hkdf_round fuel prk info size out block counter h k =
      rw (lt→ltb (length out) size h, lt→ltb counter 256 k)

  pub hkdf_end :
      (fuel : ℕ) (prk info : Bytes) (size : ℕ) (out block : Bytes) (counter : ℕ)
      → size ≤ length out
      → hkdf_loop fuel prk info size out block counter ≡ some (ok out)
  unfolding hkdf_loop
  hkdf_end zero prk info size out block counter h = rw (le→ltb_false (length out) size h)
  hkdf_end (suc fuel) prk info size out block counter h = rw (le→ltb_false (length out) size h)

  -- For the key length of 32 bytes the generator's loop returns the checker's single block.
  pub hkdf-eq-hkdf_block :
      (ikm salt info : Bytes) → hkdf ikm salt info 32 ≡ some (ok (hkdf_block ikm salt info))
  unfolding hkdf hkdf_block
  hkdf-eq-hkdf_block ikm salt info =
      let prk = hmac.digest salt ikm in
      let key = hmac.digest prk (info ++ (1 ∷ [])) in
      let size : length key ≡ 32 = hmac.length-digest prk (info ++ (1 ∷ [])) in
      rw
        (
          hkdf_round 31 prk info 32 [] [] 1 (omega arith) (omega arith),
          hkdf_end 31 prk info 32 key key 2 (omega (arith, size)),
        )
        (ap (λ t. some (ok t)) (take_all 32 key (omega (arith, size))))
