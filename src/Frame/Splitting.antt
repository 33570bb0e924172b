-- ===== src/Frame/Splitting.antt =====
-- Splitting a body into frames by `chunks`, and joining the frames again.
use construct_protos.Prelude.{
  ℕ, zero, suc, ◌+◌, ◌-◌, ◌*◌, ◌^◌, ◌<◌, ◌≤◌, ◌≡◌, ◌∙◌, refl, sym, ap, List, [], ◌∷◌, ◌++◌, none,
  some, take, drop, length, concat, arith, map, le→ltb_false, lt→ltb, length-take, take-add,
  take_all, drop-drop,
}
use construct_protos.Prelude.Result.{ok}
use construct_protos.Bytes.{Bytes, be}
use construct_protos.Frame.{
  read, chunk_payload, max_chunks, chunk_count, chunk, frames_from, chunks,
}
use construct_protos.Frame.Reading.{reading, framed, frame_fits, read_written}

-- Each frame of a list reads as its piece of the payload: indices from `i` on, the total, the
-- length of the whole payload.
abbrev pub AreChunks : Bytes → ℕ → ℕ → ℕ → List Bytes → Type 0
AreChunks payload ct total i [] = Unit
AreChunks payload ct total i (f ∷ fs) =
    (read f ≡ some (reading (chunk payload i) ct i total (length payload)))
    × (length f ≤ 30 + chunk_payload)
    × AreChunks payload ct total (i + 1) fs

-- The payloads of the frames, in order.
abbrev pub joined : List Bytes → Bytes
joined fs = concat (map (drop 30) fs)

pub chunk-take :
    (payload : Bytes) (i : ℕ)
    → chunk payload i ≡ take chunk_payload (drop (i * chunk_payload) payload)
unfolding chunk
chunk-take payload i =
    let size : (i + 1) * chunk_payload - i * chunk_payload ≡ chunk_payload = omega arith in
    ap (λ k. take k (drop (i * chunk_payload) payload)) size

length-chunk : (payload : Bytes) (i : ℕ) → length (chunk payload i) ≤ chunk_payload
length-chunk payload i =
    rw chunk-take (omega (arith, length-take chunk_payload (drop (i * chunk_payload) payload)))

-- One chunk, then `left` more.
chunk_step :
    (payload : Bytes) (i left : ℕ)
    → chunk payload i ++ take (left * chunk_payload) (drop ((i + 1) * chunk_payload) payload)
      ≡ take (suc left * chunk_payload) (drop (i * chunk_payload) payload)
chunk_step payload i left =
    let next : i * chunk_payload + chunk_payload ≡ (i + 1) * chunk_payload = omega arith in
    let all : chunk_payload + left * chunk_payload ≡ suc left * chunk_payload = omega arith in
    rw (chunk-take payload i, ← next, ← drop-drop (i * chunk_payload) chunk_payload payload, ← all)
      (sym (take-add chunk_payload (left * chunk_payload) (drop (i * chunk_payload) payload)))

framed_payload :
    (payload : Bytes) (ct i t n : ℕ)
    → (drop 30 (framed payload ct (be 2 i) (be 2 t) (be 4 n)) ≡ payload)
      × (length (framed payload ct (be 2 i) (be 2 t) (be 4 n)) ≡ 30 + length payload)
unfolding be
framed_payload payload ct i t n = (refl, omega arith)

module _ (payload : Bytes) (ct total : ℕ) (hc : ct < 256) (ht : total ≤ 256)
    (hp : length payload < 2 ^ 32) where
  -- What the comprehension makes, from index `i` on.
  frames_from_lem :
      (i left : ℕ)
      → i + left ≤ total
      → (fs : List Bytes) × (frames_from payload ct total i left ≡ ok fs)
        × (length fs ≡ left)
        × AreChunks payload ct total i fs
        × (joined fs ≡ take (left * chunk_payload) (drop (i * chunk_payload) payload))
  unfolding frames_from
  frames_from_lem i zero h = ([], refl, refl, tt, refl)
  frames_from_lem i (suc left) h =
      let (fs, run, count, good, all) = frames_from_lem (i + 1) left (omega arith) in
      let piece = chunk payload i in
      let f = framed piece ct (be 2 i) (be 2 total) (be 4 (length payload)) in
      (
        f ∷ fs,
        rw (frame_fits piece ct i total (length payload) hc (omega arith) (omega arith) hp, run),
        omega arith,
        (
          read_written piece ct i total (length payload) hc (omega arith) (omega arith) hp,
          omega
              (arith, (framed_payload piece ct i total (length payload)).1, length-chunk payload i),
          good,
        ),
        (λ k. (framed_payload piece ct i total (length payload)).0 k ++ all k)
            ∙ chunk_step payload i left,
      )

covered : (n : ℕ) → n ≤ chunk_count n * chunk_payload
unfolding chunk_count
covered n = omega arith

pub count_le : (n : ℕ) → n ≤ max_chunks * chunk_payload → chunk_count n ≤ max_chunks
unfolding chunk_count
count_le n h = omega arith

count_gt : (n : ℕ) → max_chunks * chunk_payload < n → max_chunks < chunk_count n
unfolding chunk_count
count_gt n h = omega arith

-- A body of at most 256 * 3770 bytes is split into chunk_count frames. Frame number i reads as
-- chunk i of that many, with the whole body's length, and carries at most 3770 bytes; the
-- payloads joined in order are the body.
pub chunks_split :
    (payload : Bytes) (ct : ℕ)
    → ct < 256
    → length payload ≤ max_chunks * chunk_payload
    → (fs : List Bytes) × (chunks payload ct ≡ ok (some fs))
      × (length fs ≡ chunk_count (length payload))
      × AreChunks payload ct (chunk_count (length payload)) 0 fs
      × (joined fs ≡ payload)
unfolding chunks
chunks_split payload ct hc fits =
    let total = chunk_count (length payload) in
    let few = count_le (length payload) fits in
    let (fs, run, count, good, all) =
      frames_from_lem payload ct total hc few (omega arith) 0 total (omega arith) in
    (
      fs,
      rw (le→ltb_false max_chunks total few, run),
      count,
      good,
      all ∙ take_all (total * chunk_payload) payload (covered (length payload)),
    )

-- A body of more than 256 * 3770 bytes is refused, whatever its content type.
pub chunks_refused :
    (payload : Bytes) (ct : ℕ)
    → max_chunks * chunk_payload < length payload
    → chunks payload ct ≡ ok none
unfolding chunks
chunks_refused payload ct h =
    rw (lt→ltb max_chunks (chunk_count (length payload)) (count_gt (length payload) h))
