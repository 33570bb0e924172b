-- ===== src/History/Sealed/Outcome.antt =====
-- `seal_stream` on every text: the length of what it returns, and the text whose chunks it cannot number.
use construct_protos.Prelude.{
  ℕ, zero, suc, ◌+◌, ◌-◌, ◌*◌, ◌^◌, ◌≤◌, ◌<◌, ◌≡◌, ◌↔◌, ◌∙◌, refl, ap, ◌++◌, length, replicate,
  arith, length-append, le→ltb_false,
}
use native.Mathlib.Decide.{dec_lt, ℕ_discrete}
use construct_protos.Prelude.Result.{ok, err, struct_error}
use construct_protos.Bytes.{Bytes, le, pack_le}
use construct_protos.Bytes.Struct.{length-le, pack_le_fits}
use construct_protos.History.Sealed.{Aead, chunk_plaintext, chunk_count, seal_chunks, seal_stream}
use construct_protos.History.Sealed.Layout.{
  sealed, chunks_from, length-sealed, seal_chunks_lem, chunks_from-append,
}

pack_le_refuses : (w n : ℕ) → 256 ^ w ≤ n → pack_le w n ≡ err struct_error
unfolding pack_le
pack_le_refuses w n h = rw (le→ltb_false n (256 ^ w) h)

module _ (aead : Aead) (key plaintext : Bytes) where
  -- The chunks that take the rest of the text: 32 bytes more for each of them.
  length-chunks_from :
      (index left : ℕ) (tail : Bytes)
      → length plaintext ≤ (index + left) * chunk_plaintext
      → length (chunks_from aead key plaintext index left tail)
        ≡ 32 * left + (length plaintext - index * chunk_plaintext) + length tail
  length-chunks_from index zero tail h = omega arith
  length-chunks_from index (suc left) tail h =
      let s = sealed aead key plaintext index in
      let rest = chunks_from aead key plaintext (index + 1) left tail in
      omega (
        arith,
        length-append {0} (le 4 (length s)) (s ++ rest),
        length-le 4 (length s),
        length-append {0} s rest,
        length-sealed aead key plaintext index,
        length-chunks_from (index + 1) left tail (omega arith),
      )

  -- The chunk of index 2 ^ 32 is not made.
  seal_chunks_refuses :
      (index left : ℕ)
      → index ≤ 2 ^ 32
      → 2 ^ 32 < index + left
      → seal_chunks aead key plaintext index left ≡ err struct_error
  unfolding seal_chunks
  seal_chunks_refuses index zero h k = absurd (omega arith)
  seal_chunks_refuses index (suc left) h k = elim (ℕ_discrete index (2 ^ 32)) [
    | yes last ↦ rw (pack_le_refuses 4 index (omega (arith, last))) refl
    | no before ↦
        rw
          (
            pack_le_fits 4 index (omega arith),
            pack_le_fits 4 (length (sealed aead key plaintext index))
                (omega (arith, length-sealed aead key plaintext index)),
            seal_chunks_refuses (index + 1) left (omega arith) (omega arith),
          )
          refl
  ]

  abbrev pub IsSealed : Type 0
  IsSealed =
      (out : Bytes) × (seal_stream aead key plaintext ≡ ok out)
      × (length out ≡ length plaintext + 32 * chunk_count (length plaintext) + 4)

  seal_stream_fits : length plaintext ≤ 2 ^ 48 → IsSealed
  unfolding seal_stream
  seal_stream_fits h =
      let n = chunk_count (length plaintext) in
      let out = chunks_from aead key plaintext 0 n (replicate 4 0) in
      (
        out,
        rw (seal_chunks_lem aead key plaintext 0 n (omega arith))
            (ap ok (chunks_from-append aead key plaintext 0 n (replicate 4 0))),
        length-chunks_from 0 n (replicate 4 0) (omega arith) ∙ omega arith,
      )

  seal_stream_refuses :
      2 ^ 48 < length plaintext → seal_stream aead key plaintext ≡ err struct_error
  unfolding seal_stream
  seal_stream_refuses h =
      rw (seal_chunks_refuses 0 (chunk_count (length plaintext)) (omega arith) (omega arith)) refl

  -- For every text, whatever cipher adds sixteen bytes to a text: a text of at most 2 ^ 48 bytes, and no
  -- other, is sealed, and then what is returned has 32 bytes more than the text for each started
  -- 65536 bytes, and four at the end; and for a longer text, and no other, there is a struct.error,
  -- since the index of a chunk has four bytes.
  pub seal_stream_bounds :
      (IsSealed ↔ (length plaintext ≤ 2 ^ 48))
      × ((seal_stream aead key plaintext ≡ err struct_error) ↔ (2 ^ 48 < length plaintext))
  seal_stream_bounds = elim (dec_lt (2 ^ 48) (length plaintext)) [
    | yes long ↦
        let run = seal_stream_refuses long in
        ((λ s. let made = s.1 in cc, λ h. absurd (omega (arith, long))), (λ e. long, λ h. run))
    | no short ↦
        let fits : length plaintext ≤ 2 ^ 48 = omega (arith, short) in
        let made = (seal_stream_fits fits).1 in
        ((λ s. fits, λ h. seal_stream_fits fits), (λ e. cc, λ h. absurd (short h)))
  ]
