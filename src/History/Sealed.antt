-- ===== src/History/Sealed.antt =====
-- The sealed chunks behind a CTHF header: `seal_stream` of gen_history_snapshot_vectors.py writes
-- them, `chunk_frames` of check_history_snapshot.py reads the framing. The cipher,
-- ChaCha20-Poly1305 of the package `cryptography`, is a parameter.
pub mod Layout
pub mod Framed
pub mod Outcome
use construct_protos.Prelude.{
  ℕ, zero, suc, ◌+◌, ◌-◌, ◌*◌, ◌/◌, ◌≡◌, List, [], ◌∷◌, ◌++◌, Bool, ◌||◌, ltb, leb, ◌==◌,
  if◌then◌else◌, take, drop, slice, length, replicate,
}
use construct_protos.Prelude.Result.{Result, ok, err, Raises, ◌>>=◌}
use construct_protos.Bytes.{Bytes, of_le, pack_le}

-- AEAD encryption of a text under a key, a nonce and associated data. It adds a tag of 16 bytes.
pub record Aead : Type 0 where
  pub encrypt : Bytes → Bytes → Bytes → Bytes → Bytes
  pub length-encrypt :
      (key nonce text aad : Bytes) → length (encrypt key nonce text aad) ≡ length text + 16

-- SNAPSHOT_ID
abbrev pub snapshot_id : Bytes
snapshot_id = replicate 16 0xaa

-- USER_ID
abbrev pub user_id : Bytes
user_id = 0 ∷ 0 ∷ 0 ∷ 0 ∷ 0 ∷ 0 ∷ 0x40 ∷ 0 ∷ 0x80 ∷ 0 ∷ 0 ∷ 0 ∷ 0 ∷ 0 ∷ 0 ∷ 1 ∷ []

-- CHUNK_PLAINTEXT
abbrev pub chunk_plaintext : ℕ
chunk_plaintext = 65536

-- CTHF_HEADER_LEN
abbrev pub cthf_header_len : ℕ
cthf_header_len = 7062

-- MAX_SEALED_CHUNK
abbrev pub max_sealed_chunk : ℕ
max_sealed_chunk = 65536 + 12 + 16

-- len(range(0, n, CHUNK_PLAINTEXT))
abbrev pub chunk_count : ℕ → ℕ
chunk_count n = (n + 65535) / chunk_plaintext

module _ (aead : Aead) where
  -- The chunks from `index` on, `left` of them; the script's loop starts at index 0.
  unfoldable pub seal_chunks : Bytes → Bytes → ℕ → ℕ → Raises Bytes
  seal_chunks key plaintext index zero = ok []
  seal_chunks key plaintext index (suc left) = do
    number ← pack_le 4 index
    let at = index * chunk_plaintext
    let nonce = number ++ replicate 8 0
    let aad = snapshot_id ++ (user_id ++ number)
    let sealed = nonce ++ aead.encrypt key nonce (slice at (at + chunk_plaintext) plaintext) aad
    size ← pack_le 4 (length sealed)
    rest ← seal_chunks key plaintext (index + 1) left
    ok (size ++ (sealed ++ rest))

  unfoldable pub seal_stream : Bytes → Bytes → Raises Bytes
  unfolding seal_chunks
  seal_stream key plaintext = do
    chunks ← seal_chunks key plaintext 0 (chunk_count (length plaintext))
    ok (chunks ++ replicate 4 0)

-- The texts that `chunk_frames` returns in place of the frames; `out_of_fuel` is none of them.
pub data BadFraming : Type 0 where
  no_eof bytes_after_eof out_of_fuel : BadFraming
  no_writer_produces : ℕ → BadFraming

-- `rest` is data[i:]. Each round takes four bytes at least, so one round more than there are bytes
-- is enough.
unfoldable pub frames_loop : ℕ → ℕ → Bytes → List (ℕ × ℕ) → Result BadFraming (List (ℕ × ℕ))
frames_loop zero i rest frames = err out_of_fuel
frames_loop (suc fuel) i rest frames =
    let n = of_le (take 4 rest) in
    let more = frames_loop fuel (i + (4 + n)) (drop (4 + n) rest) (frames ++ ((i, n) ∷ [])) in
    if ltb (length rest) 4
    then err no_eof
    else if n == 0
    then (if length rest == 4 then ok frames else err bytes_after_eof)
    else if ltb max_sealed_chunk n || ltb n (12 + 16 + 1)
    then err (no_writer_produces n)
    else more

unfoldable pub chunk_frames : Bytes → Result BadFraming (List (ℕ × ℕ))
unfolding frames_loop
chunk_frames d = frames_loop (suc (length d)) cthf_header_len (drop cthf_header_len d) []
