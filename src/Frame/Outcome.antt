-- ===== src/Frame/Outcome.antt =====
-- `chunks` on every body and every content type: what it returns, refuses and raises.
use construct_protos.Prelude.{
  ℕ, zero, suc, ◌*◌, ◌<◌, ◌≤◌, ◌≡◌, ◌↔◌, refl, List, none, some, length, arith, le→ltb_false, ◌⊎◌,
  inl, inr,
}
use native.Mathlib.Decide.{dec_lt}
use construct_protos.Prelude.Result.{ok, err, value_error}
use construct_protos.Bytes.{Bytes, bytes_of}
use construct_protos.Frame.{frame, chunk_payload, max_chunks, chunk_count, frames_from, chunks}
use construct_protos.Frame.Splitting.{chunks_split, chunks_refused, count_le}

-- A content type that is no byte stops the first frame.
frames_from_raises :
    (payload : Bytes) (ct total i left : ℕ)
    → 256 ≤ ct
    → 0 < left
    → frames_from payload ct total i left ≡ err value_error
unfolding frames_from frame bytes_of
frames_from_raises payload ct total i zero h k = absurd (omega arith)
frames_from_raises payload ct total i (suc left) h k = rw (le→ltb_false ct 256 h) refl

one_at_least : (n : ℕ) → 0 < chunk_count n
unfolding chunk_count
one_at_least n = omega arith

abbrev pub limit : ℕ
limit = max_chunks * chunk_payload

chunks_raises :
    (payload : Bytes) (ct : ℕ)
    → length payload ≤ limit
    → 256 ≤ ct
    → chunks payload ct ≡ err value_error
unfolding chunks
chunks_raises payload ct fits h =
    let total = chunk_count (length payload) in
    rw
      (
        le→ltb_false max_chunks total (count_le (length payload) fits),
        frames_from_raises payload ct total 0 total h (one_at_least (length payload)),
      )
      refl

abbrev pub Returned : Bytes → ℕ → Type 0
Returned payload ct = (fs : List Bytes) × (chunks payload ct ≡ ok (some fs))

chunks-cases :
    (payload : Bytes) (ct : ℕ)
    → ((limit < length payload) × (chunks payload ct ≡ ok none))
      ⊎ (((length payload ≤ limit) × (256 ≤ ct) × (chunks payload ct ≡ err value_error))
          ⊎ ((length payload ≤ limit) × (ct < 256) × Returned payload ct))
chunks-cases payload ct = elim (dec_lt limit (length payload)) [
  | yes long ↦ inl (long, chunks_refused payload ct long)
  | no short ↦
      let fits : length payload ≤ limit = omega (arith, short) in
      elim (dec_lt ct 256) [
        | yes byte ↦
            let (fs, run, count, good, all) = chunks_split payload ct byte fits in
            inr (inr (fits, byte, (fs, run)))
        | no wide ↦
            let h : 256 ≤ ct = omega (arith, wide) in
            inr (inl (fits, h, chunks_raises payload ct fits h))
      ]
]

-- For every body and content type: a body is refused exactly if it has more than 256 * 3770 bytes,
-- whatever its content type; there is a ValueError exactly if the body is within that limit and the
-- content type is no byte; and frames are returned exactly if the body is within the limit and the
-- content type is a byte.
pub chunks_outcome :
    (payload : Bytes) (ct : ℕ)
    → ((chunks payload ct ≡ ok none) ↔ (limit < length payload))
      × ((chunks payload ct ≡ err value_error) ↔ ((length payload ≤ limit) × (256 ≤ ct)))
      × (Returned payload ct ↔ ((length payload ≤ limit) × (ct < 256)))
chunks_outcome payload ct = elim (chunks-cases payload ct) [
  | inl (long, run) ↦ (
    (λ e. long, λ h. run),
    (λ e. cc, λ h. absurd (omega (arith, h.0))),
    (λ r. let e = r.1 in cc, λ h. absurd (omega (arith, h.0))),
  )
  | inr (inl (fits, wide, run)) ↦ (
    (λ e. cc, λ h. absurd (omega arith)),
    (λ e. (fits, wide), λ h. run),
    (λ r. let e = r.1 in cc, λ h. absurd (omega (arith, h.1))),
  )
  | inr (inr (fits, byte, made)) ↦ (
    (λ e. let run = made.1 in cc, λ h. absurd (omega arith)),
    (λ e. let run = made.1 in cc, λ h. absurd (omega (arith, h.1))),
    (λ r. (fits, byte), λ h. made),
  )
]
