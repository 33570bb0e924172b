-- ===== src/Frame/Bodies.antt =====
-- What `read` makes of the frames that `chunks` returns.
use construct_protos.Prelude.{
  ℕ, ◌+◌, ◌*◌, ◌<◌, ◌≤◌, ◌≡◌, ◌≢◌, ◌∙◌, refl, ap, List, [], ◌∷◌, true, false, none, some, length,
  All, arith, take_all, le→leb, ne→==_false, ◌⊎◌, inl, inr,
}
use native.Mathlib.Decide.{dec_lt}
use construct_protos.Prelude.Result.{ok}
use construct_protos.Bytes.{Bytes}
use construct_protos.Bytes.Hex.{hex}
use construct_protos.Frame.{Parsed, read, chunk_payload, max_chunks, chunk_count, chunk, chunks}
use construct_protos.Frame.Reading.{reading}
use construct_protos.Frame.Splitting.{AreChunks, chunk-take, chunks_split}

one_chunk : (n : ℕ) → n ≤ chunk_payload → chunk_count n ≡ 1
unfolding chunk_count
one_chunk n h = omega arith

many_chunks : (n : ℕ) → chunk_payload < n → chunk_count n ≢ 1
unfolding chunk_count
many_chunks n h = omega arith

several : (n : ℕ) → chunk_payload < n → 1 < chunk_count n
unfolding chunk_count
several n h = omega arith

whole_chunk : (payload : Bytes) → length payload ≤ chunk_payload → chunk payload 0 ≡ payload
whole_chunk payload h = chunk-take payload 0 ∙ take_all chunk_payload payload h

-- A frame that is alone in its split.
alone :
    (payload : Bytes) (ct : ℕ) (fs : List Bytes)
    → length payload ≤ chunk_payload
    → length fs ≡ 1
    → AreChunks payload ct 1 0 fs
    → (f : Bytes) × (fs ≡ f ∷ []) × (read f ≡ some (reading payload ct 0 1 (length payload)))
alone payload ct [] h one good = absurd (omega arith)
alone payload ct (f ∷ []) h one good =
    (f, refl, good.0 ∙ ap (λ c. some (reading c ct 0 1 (length payload))) (whole_chunk payload h))
alone payload ct (f ∷ g ∷ fs) h one good = absurd (omega arith)

whole_body :
    (payload : Bytes) (ct : ℕ)
    → ((reading payload ct 0 1 (length payload)).control ≡ true)
      × ((reading payload ct 0 1 (length payload)).body ≡ some (hex payload))
whole_body payload ct =
    rw
      (
        le→leb (length payload) (length payload) (omega arith),
        take_all (length payload) payload (omega arith),
      )
      (refl, refl)

-- A body of at most 3770 bytes becomes one frame, a control frame whose body is the whole body.
chunks_control :
    (payload : Bytes) (ct : ℕ)
    → ct < 256
    → length payload ≤ chunk_payload
    → (f : Bytes) × (p : Parsed) × (chunks payload ct ≡ ok (some (f ∷ [])))
      × (read f ≡ some p)
      × (p.control ≡ true)
      × (p.body ≡ some (hex payload))
chunks_control payload ct hc h =
    let (fs, run, count, good, all) = chunks_split payload ct hc (omega arith) in
    let one = one_chunk (length payload) h in
    let (f, only, shown) = alone payload ct fs h (count ∙ one) (rw one at good) in
    let (c, b) = whole_body payload ct in
    (f, reading payload ct 0 1 (length payload), rw only at run, shown, c, b)

abbrev pub IsPart : Bytes → Type 0
IsPart f = (p : Parsed) × (read f ≡ some p) × (p.control ≡ false) × (p.body ≡ none)

parts :
    (payload : Bytes) (ct total i : ℕ) (fs : List Bytes)
    → total ≢ 1
    → AreChunks payload ct total i fs
    → All IsPart fs
parts payload ct total i [] h good = tt
parts payload ct total i (f ∷ fs) h good = (
  (
    reading (chunk payload i) ct i total (length payload),
    good.0,
    rw (ne→==_false total 1 h),
    rw (ne→==_false total 1 h),
  ),
  parts payload ct total (i + 1) fs h good.2,
)

-- Every frame of a longer body within the limit is read as a frame that is not a control frame and
-- has no body, and there is more than one.
chunks_parts :
    (payload : Bytes) (ct : ℕ)
    → ct < 256
    → chunk_payload < length payload
    → length payload ≤ max_chunks * chunk_payload
    → (fs : List Bytes) × (chunks payload ct ≡ ok (some fs)) × (1 < length fs) × All IsPart fs
chunks_parts payload ct hc h fits =
    let (fs, run, count, good, all) = chunks_split payload ct hc fits in
    let many = many_chunks (length payload) h in
    (
      fs,
      run,
      omega (arith, count, several (length payload) h),
      parts payload ct (chunk_count (length payload)) 0 fs many good,
    )

-- What the frames of a body are: one control frame that has the whole of it, or several parts.
abbrev pub AreBodies : Bytes → List Bytes → Type 0
AreBodies payload fs =
    ((length payload ≤ chunk_payload)
      × ((f : Bytes) × (p : Parsed) × (fs ≡ f ∷ [])
          × (read f ≡ some p)
          × (p.control ≡ true)
          × (p.body ≡ some (hex payload))))
    ⊎ ((chunk_payload < length payload) × (1 < length fs) × All IsPart fs)

-- A body of at most 256 * 3770 bytes is split into frames. If it has at most 3770 bytes, there is one
-- frame, which reads as a control frame whose body is the whole body. If it has more, there are
-- several, and each reads as a frame that is no control frame and has no body.
pub chunks_bodies :
    (payload : Bytes) (ct : ℕ)
    → ct < 256
    → length payload ≤ max_chunks * chunk_payload
    → (fs : List Bytes) × (chunks payload ct ≡ ok (some fs)) × AreBodies payload fs
chunks_bodies payload ct hc fits = elim (dec_lt chunk_payload (length payload)) [
  | yes long ↦
      let (fs, run, several', good) = chunks_parts payload ct hc long fits in
      (fs, run, inr (long, several', good))
  | no short ↦
      let h : length payload ≤ chunk_payload = omega (arith, short) in
      let (f, p, run, shown, control, whole) = chunks_control payload ct hc h in
      (f ∷ [], run, inl (h, (f, p, refl, shown, control, whole)))
]
