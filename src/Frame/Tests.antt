-- ===== src/Frame/Tests.antt =====
-- The vectors of check_knst_frame.py as tests, and the theorems at concrete inputs.
use construct_protos.Prelude.{
  ℕ, ◌≡◌, ◌≤◌, ◌<◌, ◌↔◌, refl, List, [], ◌∷◌, ◌++◌, none, some, arith, length, take, drop,
  replicate, length-replicate,
}
use construct_protos.Prelude.Result.{ok, err, value_error}
use construct_protos.Bytes.{Bytes, of_be, pack_be, bytes_of, codes}
use construct_protos.Bytes.Hex.{uuid_text}
use construct_protos.Frame.{message_id, magic, defaults, frame, read, chunks, chunk_count}
use construct_protos.Frame.Reading.{written, reading, read-frame, frame-read, again}
use construct_protos.Frame.Bodies.{AreBodies, chunks_bodies}
use construct_protos.Frame.Outcome.{Returned, limit, chunks_outcome}
use construct_protos.Frame.Splitting.{AreChunks, joined, chunks_split}

-- SIGNAL
abbrev signal : Bytes
signal = 0x0a ∷ 0x06 ∷ 0x63 ∷ 0x61 ∷ 0x6c ∷ 0x6c ∷ 0x2d ∷ 0x31 ∷ []

-- The frame of the case `call_signal`.
abbrev call_signal : Bytes
call_signal = magic ++ (1 ∷ 12 ∷ (message_id ++ (0 ∷ 0 ∷ 0 ∷ 1 ∷ 0 ∷ 0 ∷ 0 ∷ 8 ∷ signal)))

call_signal_written : frame signal 12 defaults ≡ ok call_signal
unfolding frame bytes_of pack_be
call_signal_written = refl

call_signal_reads : read call_signal ≡ some (reading signal 12 0 1 8)
unfolding read of_be
call_signal_reads = refl

message_id_text : uuid_text message_id ≡ codes "0b8e2f5c-6a1d-4e7b-9c3f-1a2b3c4d5e6f"
unfolding uuid_text
message_id_text = refl

-- The case `truncated_header`, and those of a wrong magic and of a wrong version.
read_refused :
    (read (take 29 call_signal) ≡ none)
    × (read (0x4b ∷ 0x4e ∷ 0x53 ∷ 0x55 ∷ drop 4 call_signal) ≡ none)
    × (read (magic ++ (2 ∷ drop 5 call_signal)) ≡ none)
unfolding read
read_refused = (refl, refl, refl)

frame_wide_type : frame signal 256 defaults ≡ err value_error
unfolding frame bytes_of
frame_wide_type = refl

read-frame_example :
    (f : Bytes) × (frame signal 12 (written 0 2 8) ≡ ok f)
    × (read f ≡ some (reading signal 12 0 2 8))
read-frame_example =
    read-frame signal 12 0 2 8 (omega arith) (omega arith) (omega arith) (omega arith)

frame-read_example :
    frame (drop 30 call_signal) 12 (again (reading signal 12 0 1 8)) ≡ ok call_signal
frame-read_example =
    frame-read call_signal {p = reading signal 12 0 1 8} (omega arith) call_signal_reads refl

abbrev small : Bytes
small = 0 ∷ 1 ∷ 2 ∷ 3 ∷ 4 ∷ []

chunks_split_example :
    (fs : List Bytes) × (chunks small 1 ≡ ok (some fs))
    × (length fs ≡ chunk_count 5)
    × AreChunks small 1 (chunk_count 5) 0 fs
    × (joined fs ≡ small)
chunks_split_example = chunks_split small 1 (omega arith) (omega arith)

chunks_bodies_example : (fs : List Bytes) × (chunks small 1 ≡ ok (some fs)) × AreBodies small fs
chunks_bodies_example = chunks_bodies small 1 (omega arith) (omega arith)

-- A body of so many zeros. It stays shut: only its length counts here.
zeros : ℕ → Bytes
zeros n = replicate n 0

length-zeros : (n : ℕ) → length (zeros n) ≡ n
unfolding zeros
length-zeros n = length-replicate {A = ℕ} n 0

abbrev too_long : ℕ
too_long = 965121

chunks_outcome_example :
    ((chunks (zeros too_long) 300 ≡ ok none) ↔ (limit < length (zeros too_long)))
    × ((chunks (zeros too_long) 300 ≡ err value_error)
        ↔ ((length (zeros too_long) ≤ limit) × (256 ≤ 300)))
    × (Returned (zeros too_long) 300 ↔ ((length (zeros too_long) ≤ limit) × (300 < 256)))
chunks_outcome_example = chunks_outcome (zeros too_long) 300
