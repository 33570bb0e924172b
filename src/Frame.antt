-- ===== src/Frame.antt =====
-- conformance/check_knst_frame.py: the KNST plaintext frame, how a body is read from it and how a
-- body is split into frames. The message id is a constant of the script, and is one here.
pub mod Cases
mod Bodies
mod Built
mod Outcome
pub mod Reading
pub mod Splitting
mod Tests
use construct_protos.Prelude.{
  ℕ, zero, suc, ◌+◌, ◌-◌, ◌*◌, ◌/◌, ◌%◌, ◌<◌, ◌^◌, List, [], ◌∷◌, ◌++◌, Bool, true, false, not,
  ◌&&◌, ◌||◌, Option, none, some, String, ltb, leb, ◌==◌, if◌then◌else◌, take, drop, slice, length,
  get_or, max, map,
}
use construct_protos.Prelude.Result.{ok, err, Raises, ◌>>=◌}
use construct_protos.Bytes.{Bytes, bytes_eq, be, of_be, pack_be, bytes_of, codes}
use construct_protos.Bytes.Hex.{hex, uuid_text}

-- MAGIC
abbrev pub magic : Bytes
magic = codes "KNST"

-- VERSION
abbrev pub version : ℕ
version = 1

-- HEADER
abbrev pub header : ℕ
header = 30

-- MESSAGE_ID.bytes
abbrev pub message_id : Bytes
message_id =
    0x0b ∷ 0x8e ∷ 0x2f ∷ 0x5c ∷ 0x6a ∷ 0x1d ∷ 0x4e ∷ 0x7b ∷ 0x9c ∷ 0x3f ∷ 0x1a ∷ 0x2b ∷ 0x3c ∷ 0x4d
    ∷ 0x5e ∷ 0x6f ∷ []

-- The keyword arguments of `frame`.
pub record Options : Type 0 where
  pub index : ℕ
  pub total : ℕ
  pub length : Option ℕ
  pub magic : Bytes
  pub version : ℕ

abbrev pub defaults : Options
defaults = record { index = 0; total = 1; length = none; magic = magic; version = version }

-- `length` defaults to that of the payload.
unfoldable pub stated_length : Option ℕ → Bytes → ℕ
stated_length none payload = length payload
stated_length (some n) payload = n

unfoldable pub frame : Bytes → ℕ → Options → Raises Bytes
unfolding stated_length
frame payload content_type o = do
  tag ← bytes_of (o.version ∷ content_type ∷ [])
  index ← pack_be 2 o.index
  total ← pack_be 2 o.total
  size ← pack_be 4 (stated_length o.length payload)
  ok (o.magic ++ (tag ++ (message_id ++ (index ++ (total ++ (size ++ payload))))))

-- The dict that `read` returns.
pub record Parsed : Type 0 where
  pub content_type : ℕ
  pub message_id : List ℕ
  pub chunk_index : ℕ
  pub total_chunks : ℕ
  pub plaintext_length : ℕ
  pub control : Bool
  pub body : Option (List ℕ)

-- data[4] and data[5] stand behind the test of the length, so the default is never read.
unfoldable pub is_frame : Bytes → Bool
is_frame data' = not (
    ltb (length data') header
    || not (bytes_eq (take 4 data') magic)
    || not (get_or data' 4 0 == version))

unfoldable pub parsed : Bytes → Parsed
parsed d =
    let total = of_be (slice 24 26 d) in
    let size = of_be (slice 26 30 d) in
    let payload = drop 30 d in
    let control = total == 1 && leb size (length payload) in
    record {
      content_type = get_or d 5 0;
      message_id = uuid_text (slice 6 22 d);
      chunk_index = of_be (slice 22 24 d);
      total_chunks = total;
      plaintext_length = size;
      control = control;
      body = if control then some (hex (take size payload)) else none;
    }

unfoldable pub read : Bytes → Option Parsed
unfolding is_frame parsed
read d = if is_frame d then some (parsed d) else none

-- CHUNK_PAYLOAD
abbrev pub chunk_payload : ℕ
chunk_payload = 3770

-- MAX_CHUNKS
abbrev pub max_chunks : ℕ
max_chunks = 256

-- max(1, -(-n // CHUNK_PAYLOAD)): the quotient rounded up, and one at least
unfoldable pub chunk_count : ℕ → ℕ
chunk_count n = max 1 ((n + (chunk_payload - 1)) / chunk_payload)

-- payload[i * CHUNK_PAYLOAD:(i + 1) * CHUNK_PAYLOAD]
unfoldable pub chunk : Bytes → ℕ → Bytes
chunk payload i = slice (i * chunk_payload) ((i + 1) * chunk_payload) payload

-- The frames from index `i` on, `left` of them; the script's comprehension has i = 0.
unfoldable pub frames_from : Bytes → ℕ → ℕ → ℕ → ℕ → Raises (List Bytes)
unfolding frame chunk
frames_from payload content_type total i zero = ok []
frames_from payload content_type total i (suc left) = do
  f ← frame (chunk payload i) content_type (record {
    index = i;
    total = total;
    length = some (length payload);
    magic = magic;
    version = version;
  })
  rest ← frames_from payload content_type total (i + 1) left
  ok (f ∷ rest)

-- `none` is the refusal of a body that takes too many frames.
unfoldable pub chunks : Bytes → ℕ → Raises (Option (List Bytes))
unfolding chunk_count frames_from
chunks payload content_type =
    let total = chunk_count (length payload) in
    let all = (do fs ← frames_from payload content_type total 0 total; ok (some fs)) in
    if ltb max_chunks total then ok none else all
