-- ===== src/Frame/Built.antt =====
-- What the file of cases that `build` returns says of `chunks`.
use construct_protos.Prelude.{
  ℕ, zero, suc, ◌+◌, ◌*◌, ◌≤◌, ◌≡◌, refl, ap, List, [], ◌∷◌, ◌++◌, Option, none, some, map, length,
  arith, All, All-append,
}
use construct_protos.Prelude.Result.{ok}
use construct_protos.Bytes.{Bytes, bytes_of, pack_be}
use construct_protos.Bytes.Hex.{hex}
use construct_protos.Frame.{frame, chunks, chunk_payload, max_chunks}
use construct_protos.Frame.Splitting.{chunks_split, chunks_refused}
use construct_protos.Frame.Cases.{
  body, body_from, raw, case_of, Encode, encode_case, encode_cases, sizes, over, Vectors, build,
}

length-body_from : (i n : ℕ) → length (body_from i n) ≡ n
unfolding body_from
length-body_from i zero = refl
length-body_from i (suc n) = ap suc (length-body_from (i + 1) n)

length-body : (n : ℕ) → length (body n) ≡ n
unfolding body
length-body n = length-body_from 0 n

abbrev pub hexed : Option (List Bytes) → Option (List (List ℕ))
hexed none = none
hexed (some fs) = some (map hex fs)

-- The frames of a case are those of its body, in hexadecimal, or none where the body is refused.
abbrev pub StatesChunks : Encode → Type 0
StatesChunks c =
    (fs : Option (List Bytes)) × (chunks (body c.payload_len) c.content_type ≡ ok fs)
    × (c.frames ≡ hexed fs)

encode_case_total :
    (name : List ℕ) (size : ℕ)
    → size ≤ max_chunks * chunk_payload
    → (c : Encode) × (encode_case name size ≡ ok c) × StatesChunks c
unfolding encode_case
encode_case_total name size h =
    let (fs, run, count, good, all) =
      chunks_split (body size) 1 (omega arith) (omega (arith, h, length-body size)) in
    (
      record { name = name; payload_len = size; content_type = 1; frames = some (map hex fs) },
      rw run refl,
      (some fs, run, refl),
    )

encode_cases_total :
    (cs : List (List ℕ × ℕ))
    → All (λ c. c.1 ≤ max_chunks * chunk_payload) cs
    → (es : List Encode) × (encode_cases cs ≡ ok es) × All StatesChunks es
unfolding encode_cases
encode_cases_total [] h = ([], refl, tt)
encode_cases_total ((name, size) ∷ cs) h =
    let (c, run, good) = encode_case_total name size h.0 in
    let (es, runs, goods) = encode_cases_total cs h.1 in
    (c ∷ es, rw (run, runs) refl, (good, goods))

sizes_fit : All (λ c. c.1 ≤ max_chunks * chunk_payload) sizes
sizes_fit = (omega arith, (omega arith, (omega arith, (omega arith, (omega arith, tt)))))

over_refused : StatesChunks over
over_refused =
    let n = max_chunks * chunk_payload + 1 in
    (none, chunks_refused (body n) 1 (omega (arith, length-body n)), refl)

raw_total : (frames : List (List ℕ × Bytes)) × (raw ≡ ok frames)
unfolding raw frame bytes_of pack_be
raw_total = (_, refl)

-- `build` returns a file without an exception, and each of its encode cases, the one that is refused
-- included, states the frames that `chunks` makes of the body of its length.
pub build_total : (v : Vectors) × (build ≡ ok v) × All StatesChunks v.encode
unfolding build
build_total =
    let (frames, run) = raw_total in
    let (es, runs, goods) = encode_cases_total sizes sizes_fit in
    (
      record { cases = map case_of frames; encode = es ++ (over ∷ []) },
      rw (run, runs) refl,
      All-append StatesChunks es (over ∷ []) goods (over_refused, tt),
    )
