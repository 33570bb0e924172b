-- ===== src/Frame/Cases.antt =====
-- conformance/check_knst_frame.py: the cases that `build` makes of `frame`, `read` and `chunks`.
use construct_protos.Prelude.{
  ℕ, zero, suc, ◌+◌, ◌*◌, ◌%◌, List, [], ◌∷◌, ◌++◌, Bool, true, false, Option, none, some, map,
  take, length,
}
use construct_protos.Prelude.Result.{ok, err, Raises, type_error, ◌>>=◌}
use construct_protos.Bytes.{Bytes, codes}
use construct_protos.Bytes.Hex.{hex}
use construct_protos.Frame.{defaults, frame, Parsed, read, chunks, chunk_payload, max_chunks}

-- SIGNAL
abbrev pub signal : Bytes
signal = 0x0a ∷ 0x06 ∷ 0x63 ∷ 0x61 ∷ 0x6c ∷ 0x6c ∷ 0x2d ∷ 0x31 ∷ []

-- bytes(i % 251 for i in range(n)), from an index on
unfoldable pub body_from : ℕ → ℕ → Bytes
body_from i zero = []
body_from i (suc n) = i % 251 ∷ body_from (i + 1) n

unfoldable pub body : ℕ → Bytes
unfolding body_from
body n = body_from 0 n

-- `raw` of `build`: the names and the frames
unfoldable pub raw : Raises (List (List ℕ × Bytes))
raw = do
  call_signal ← frame signal 12 defaults
  profile ← frame (0x0a ∷ 0x05 ∷ codes "Alice") 29 defaults
  empty_body ← frame [] 14 defaults
  padded ← frame (signal ++ (0 ∷ 0 ∷ 0 ∷ [])) 12 (record defaults { length = some (length signal) })
  part ← frame (codes "part one") 1 (record defaults { index = 0; total = 2; length = some 8 })
  past ← frame signal 12 (record defaults { length = some (length signal + 1) })
  wrong_magic ← frame signal 12 (record defaults { magic = codes "KNSU" })
  wrong_version ← frame signal 12 (record defaults { version = 2 })
  ok (
      (codes "call_signal", call_signal)
      ∷ (codes "profile", profile)
      ∷ (codes "empty_body", empty_body)
      ∷ (codes "padded_body_is_cut_to_length", padded)
      ∷ (codes "chunk_of_two_is_not_control", part)
      ∷ (codes "length_past_payload_is_not_control", past)
      ∷ (codes "wrong_magic", wrong_magic)
      ∷ (codes "wrong_version", wrong_version)
      ∷ (codes "truncated_header", take 29 call_signal)
      ∷ [])

-- A dict of `cases`; what `read` returns is merged into it.
pub record Case : Type 0 where
  pub name : List ℕ
  pub frame : List ℕ
  pub is_frame : Bool
  pub parsed : Option Parsed

abbrev is_some : Option Parsed → Bool
is_some none = false
is_some (some p) = true

unfoldable pub case_of : List ℕ × Bytes → Case
case_of (name, data') = record {
  name = name;
  frame = hex data';
  is_frame = is_some (read data');
  parsed = read data';
}

-- A dict of `encode`
pub record Encode : Type 0 where
  pub name : List ℕ
  pub payload_len : ℕ
  pub content_type : ℕ
  pub frames : Option (List (List ℕ))

-- [f.hex() for f in frames], which None is no sequence for
abbrev hexes : Option (List Bytes) → Raises (List (List ℕ))
hexes none = err type_error
hexes (some fs) = ok (map hex fs)

unfoldable pub encode_case : List ℕ → ℕ → Raises Encode
unfolding chunks body
encode_case name size = do
  frames ← chunks (body size) 1
  texts ← hexes frames
  ok (record { name = name; payload_len = size; content_type = 1; frames = some texts })

unfoldable pub encode_cases : List (List ℕ × ℕ) → Raises (List Encode)
unfolding encode_case
encode_cases [] = ok []
encode_cases ((name, size) ∷ rest) = do
  c ← encode_case name size
  cs ← encode_cases rest
  ok (c ∷ cs)

abbrev pub sizes : List (List ℕ × ℕ)
sizes =
    (codes "empty", 0)
    ∷ (codes "small", 5)
    ∷ (codes "exactly_one_chunk", chunk_payload)
    ∷ (codes "one_byte_over", chunk_payload + 1)
    ∷ (codes "three_chunks", 2 * chunk_payload + 1)
    ∷ []

abbrev pub over : Encode
over = record {
  name = codes "over_max_chunks";
  payload_len = max_chunks * chunk_payload + 1;
  content_type = 1;
  frames = none;
}

pub record Vectors : Type 0 where
  pub cases : List Case
  pub encode : List Encode

unfoldable pub build : Raises Vectors
unfolding raw case_of encode_cases
build = do
  frames ← raw
  encode ← encode_cases sizes
  ok (record { cases = map case_of frames; encode = encode ++ (over ∷ []) })
