-- ===== src/History/Sealed/Layout.antt =====
-- The checker finds in a sealed file the chunks that were sealed, each where it stands.
use construct_protos.Prelude.{
  ℕ, zero, suc, ◌+◌, ◌-◌, ◌*◌, ◌^◌, ◌≤◌, ◌<◌, ◌≡◌, ◌≢◌, ◌∙◌, refl, sym, ap, List, [], ◌∷◌, ◌++◌,
  ◌||◌, ltb, ◌==◌, take, drop, slice, length, replicate, min, arith, append_assoc, length-append,
  length-take, length-drop, Bool-cases, inl, inr, ltb_false→le, append_nil_right, take_prefix,
  drop_prefix, le→ltb_false, ne→==_false, if_ne, drop-drop,
}
use construct_protos.Prelude.Result.{ok, err}
use construct_protos.Bytes.{Bytes, le, of_le}
use construct_protos.Bytes.Struct.{length-le, of_le-le, pack_le_fits}
use construct_protos.History.Sealed.{
  Aead, snapshot_id, user_id, chunk_plaintext, cthf_header_len, max_sealed_chunk, chunk_count,
  seal_chunks, seal_stream, out_of_fuel, frames_loop, chunk_frames,
}

-- The sealed length of chunk `index` of a text of `size` bytes: nonce, text and tag.
abbrev pub sealed_len : ℕ → ℕ → ℕ
sealed_len size index = 28 + min chunk_plaintext (size - index * chunk_plaintext)

-- The offset and the sealed length of `left` chunks from `index` on, the first at offset `at`.
abbrev pub layout : ℕ → ℕ → ℕ → ℕ → List (ℕ × ℕ)
layout size at index zero = []
layout size at index (suc left) =
    (at, sealed_len size index) ∷ layout size (at + (4 + sealed_len size index)) (index + 1) left

module _ (aead : Aead) (key plaintext : Bytes) where
  abbrev pub sealed : ℕ → Bytes
  sealed index =
      let number = le 4 index in
      let at = index * chunk_plaintext in
      let nonce = number ++ replicate 8 0 in
      nonce
      ++ aead.encrypt key nonce (slice at (at + chunk_plaintext) plaintext)
          (snapshot_id ++ (user_id ++ number))

  abbrev pub chunks_from : ℕ → ℕ → Bytes → Bytes
  chunks_from index zero tail = tail
  chunks_from index (suc left) tail =
      le 4 (length (sealed index)) ++ (sealed index ++ chunks_from (index + 1) left tail)

  pub length-sealed : (index : ℕ) → length (sealed index) ≡ sealed_len (length plaintext) index
  length-sealed index =
      let number = le 4 index in
      let at = index * chunk_plaintext in
      let nonce = number ++ replicate 8 0 in
      let text = slice at (at + chunk_plaintext) plaintext in
      let aad = snapshot_id ++ (user_id ++ number) in
      omega (
        arith,
        length-append {0} nonce (aead.encrypt key nonce text aad),
        length-append {0} number (replicate 8 0),
        length-le 4 index,
        aead.length-encrypt key nonce text aad,
        length-take (at + chunk_plaintext - at) (drop at plaintext),
        length-drop at plaintext,
      )

  pub seal_chunks_lem :
      (index left : ℕ)
      → index + left ≤ 2 ^ 32
      → seal_chunks aead key plaintext index left ≡ ok (chunks_from index left [])
  unfolding seal_chunks
  seal_chunks_lem index zero h = refl
  seal_chunks_lem index (suc left) h = rw (
    pack_le_fits 4 index (omega arith),
    pack_le_fits 4 (length (sealed index)) (omega (arith, length-sealed index)),
    seal_chunks_lem (index + 1) left (omega arith),
  )

  pub chunks_from-append :
      (index left : ℕ) (tail : Bytes)
      → chunks_from index left [] ++ tail ≡ chunks_from index left tail
  chunks_from-append index zero tail = refl
  chunks_from-append index (suc left) tail =
      append_assoc (le 4 (length (sealed index))) (sealed index ++ chunks_from (index + 1) left [])
        tail
      ∙ ap (λ t. le 4 (length (sealed index)) ++ t)
          (append_assoc (sealed index) (chunks_from (index + 1) left []) tail
            ∙ ap (λ t. sealed index ++ t) (chunks_from-append (index + 1) left tail))

-- One round of the checker's loop on a chunk of a length that a writer produces.
pub frame_round :
    (fuel i n : ℕ) (chunk rest : Bytes) (frames : List (ℕ × ℕ))
    → length chunk ≡ n
    → 29 ≤ n
    → n ≤ max_sealed_chunk
    → frames_loop (suc fuel) i (le 4 n ++ (chunk ++ rest)) frames
      ≡ frames_loop fuel (i + (4 + n)) rest (frames ++ ((i, n) ∷ []))
unfolding frames_loop
frame_round fuel i n chunk rest frames size low high =
    let d = le 4 n ++ (chunk ++ rest) in
    let read : of_le (take 4 d) ≡ n =
      ap of_le (take_prefix 4 (le 4 n) (chunk ++ rest) (length-le 4 n))
      ∙ of_le-le 4 n (omega arith) in
    let behind : drop (4 + n) d ≡ rest =
      sym (drop-drop 4 n d)
      ∙ ap (drop n) (drop_prefix 4 (le 4 n) (chunk ++ rest) (length-le 4 n))
      ∙ drop_prefix n chunk rest size in
    rw (
      le→ltb_false (length d) 4
          (omega (arith, length-append {0} (le 4 n) (chunk ++ rest), length-le 4 n)),
      read,
      ne→==_false n 0 (omega arith),
      le→ltb_false max_sealed_chunk n high,
      le→ltb_false n 29 low,
      behind,
    )

pub eof_round :
    (fuel i : ℕ) (frames : List (ℕ × ℕ))
    → frames_loop (suc fuel) i (replicate 4 0) frames ≡ ok frames
unfolding frames_loop of_le
eof_round fuel i frames = refl

module _ (aead : Aead) (key plaintext : Bytes) where
  count_le-length :
      (index left : ℕ) → left ≤ length (chunks_from aead key plaintext index left (replicate 4 0))
  count_le-length index zero = omega arith
  count_le-length index (suc left) =
      let rest = chunks_from aead key plaintext (index + 1) left (replicate 4 0) in
      let s = sealed aead key plaintext index in
      omega (
        arith,
        length-append {0} (le 4 (length s)) (s ++ rest),
        length-le 4 (length s),
        length-append {0} s rest,
        count_le-length (index + 1) left,
      )

  frames_loop-chunks :
      (fuel at index left : ℕ) (frames : List (ℕ × ℕ))
      → (index + left) * chunk_plaintext < length plaintext + chunk_plaintext
      → left < fuel
      → frames_loop fuel at (chunks_from aead key plaintext index left (replicate 4 0)) frames
        ≡ ok (frames ++ layout (length plaintext) at index left)
  frames_loop-chunks zero at index left frames fits h = absurd (omega arith)
  frames_loop-chunks (suc fuel) at index zero frames fits h =
      eof_round fuel at frames ∙ ap ok (sym (append_nil_right frames))
  frames_loop-chunks (suc fuel) at index (suc left) frames fits h =
      let rest = chunks_from aead key plaintext (index + 1) left (replicate 4 0) in
      let s = sealed aead key plaintext index in
      let n = sealed_len (length plaintext) index in
      let size = length-sealed aead key plaintext index in
      frame_round fuel at (length s) s rest frames refl (omega (arith, size)) (omega (arith, size))
      ∙ ap (λ k. frames_loop fuel (at + (4 + k)) rest (frames ++ ((at, k) ∷ []))) size
      ∙ frames_loop-chunks fuel (at + (4 + n)) (index + 1) left (frames ++ ((at, n) ∷ []))
          (omega arith) (omega arith)
      ∙ ap ok (
          append_assoc frames ((at, n) ∷ [])
            (layout (length plaintext) (at + (4 + n)) (index + 1) left))

count_fits : (n : ℕ) → (0 + chunk_count n) * chunk_plaintext < n + chunk_plaintext
count_fits n = omega arith

-- A text of less than 2 ^ 48 bytes is sealed, whatever cipher adds sixteen bytes to a text. Behind a
-- header of the header's length the checker finds one chunk for each started 65536 bytes of the
-- text, each at its offset and of its sealed length, and the end of the file where it should be.
pub chunk_frames-seal_stream :
    (aead : Aead) (key plaintext head : Bytes)
    → length head ≡ cthf_header_len
    → length plaintext < 2 ^ 48
    → (out : Bytes) × (seal_stream aead key plaintext ≡ ok out)
      × (chunk_frames (head ++ out)
          ≡ ok (layout (length plaintext) cthf_header_len 0 (chunk_count (length plaintext))))
chunk_frames-seal_stream aead key plaintext head size small =
    let count = chunk_count (length plaintext) in
    let out = chunks_from aead key plaintext 0 count (replicate 4 0) in
    (
      out,
      unfold seal_stream in
          rw (seal_chunks_lem aead key plaintext 0 count (omega arith))
            (ap ok (chunks_from-append aead key plaintext 0 count (replicate 4 0))),
      unfold chunk_frames in
          rw (drop_prefix cthf_header_len head out size) (
            frames_loop-chunks aead key plaintext (suc (length (head ++ out))) cthf_header_len 0
              count [] (count_fits (length plaintext))
              (omega
                (arith, length-append {0} head out, count_le-length aead key plaintext 0 count))),
    )

frames_loop-ne-out_of_fuel :
    (fuel i : ℕ) (rest : Bytes) (frames : List (ℕ × ℕ))
    → length rest < fuel
    → frames_loop fuel i rest frames ≢ err out_of_fuel
unfolding frames_loop
frames_loop-ne-out_of_fuel zero i rest frames h = absurd (omega arith)
frames_loop-ne-out_of_fuel (suc fuel) i rest frames h =
    let n = of_le (take 4 rest) in
    elim (Bool-cases (ltb (length rest) 4)) [
      | inl short ↦ rw short (λ e. cc)
      | inr long ↦ rw long (
          if_ne (n == 0) (if_ne (length rest == 4) (λ e. cc) (λ e. cc)) (
            if_ne (ltb max_sealed_chunk n || ltb n 29) (λ e. cc)
              (frames_loop-ne-out_of_fuel fuel (i + (4 + n)) (drop (4 + n) rest)
                (frames ++ ((i, n) ∷ []))
                (omega (arith, ltb_false→le _ _ long, length-drop (4 + n) rest)))))
    ]

-- The reading of the framing ends on every input, with the frames or a complaint.
pub chunk_frames-ne-out_of_fuel : (d : Bytes) → chunk_frames d ≢ err out_of_fuel
unfolding chunk_frames
chunk_frames-ne-out_of_fuel d =
    frames_loop-ne-out_of_fuel (suc (length d)) cthf_header_len (drop cthf_header_len d) []
      (omega (arith, length-drop cthf_header_len d))
