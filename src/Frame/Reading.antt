-- ===== src/Frame/Reading.antt =====
-- Reading a frame undoes writing it, and the reverse.
use construct_protos.Prelude.{
  ℕ, ◌+◌, ◌^◌, ◌<◌, ◌≤◌, ◌≡◌, ◌≢◌, ◌⊎◌, length-drop, ◌∙◌, sym, ap, [], ◌∷◌, ◌++◌, true, false, ◌&&◌,
  none, some, leb, ◌==◌, if◌then◌else◌, take, drop, slice, drop-cons, drop-slice, length-slice,
  All-slice, length, get_or, All, arith, le→ltb_false, take-append-drop, length-take, Bool-cases,
  inl, inr,
}
use construct_protos.Prelude.Result.{ok}
use construct_protos.Bytes.{Bytes, IsByte, be, of_be}
use construct_protos.Bytes.Struct.{
  pack_be_fits, bytes_of_fits, of_be-be, pack_be-of_be, get_or-IsByte, bytes_eq→eq,
}
use construct_protos.Bytes.Hex.{hex, uuid_text}
use construct_protos.Frame.{
  magic, version, header, message_id, Options, frame, Parsed, is_frame, parsed, read,
}

-- The options of a frame of this version, every field given.
abbrev pub written : ℕ → ℕ → ℕ → Options
written i t n = record { index = i; total = t; length = some n; magic = magic; version = version }

-- What a reader learns of a frame, said of the values that were framed.
abbrev pub reading : Bytes → ℕ → ℕ → ℕ → ℕ → Parsed
reading payload ct i t n = record {
  content_type = ct;
  message_id = uuid_text message_id;
  chunk_index = i;
  total_chunks = t;
  plaintext_length = n;
  control = t == 1 && leb n (length payload);
  body = if t == 1 && leb n (length payload) then some (hex (take n payload)) else none;
}

abbrev pub framed : Bytes → ℕ → Bytes → Bytes → Bytes → Bytes
framed payload ct i t n =
    magic ++ ((version ∷ ct ∷ []) ++ (message_id ++ (i ++ (t ++ (n ++ payload)))))

is_frame_inv :
    (d : Bytes)
    → is_frame d ≡ true
    → (30 ≤ length d) × (take 4 d ≡ magic) × (get_or d 4 0 ≡ version)
unfolding is_frame
is_frame_inv d e = (ground arith, bytes_eq→eq (take 4 d) magic (ground arith), ground arith)

-- The bytes of a long enough input, field by field.
cut_fields :
    (d : Bytes)
    → 30 ≤ length d
    → take 4 d
        ++ ((get_or d 4 0 ∷ get_or d 5 0 ∷ [])
            ++ (slice 6 22 d ++ (slice 22 24 d ++ (slice 24 26 d ++ (slice 26 30 d ++ drop 30 d)))))
      ≡ d
cut_fields d long =
    rw
      (
        ← drop-slice 26 30 d (omega arith),
        ← drop-slice 24 26 d (omega arith),
        ← drop-slice 22 24 d (omega arith),
        ← drop-slice 6 22 d (omega arith),
        ← drop-cons 5 0 d (omega arith),
        ← drop-cons 4 0 d (omega arith),
      )
      (take-append-drop 4 d)

cut_frame :
    (d : Bytes)
    → is_frame d ≡ true
    → slice 6 22 d ≡ message_id
    → framed (drop 30 d) (get_or d 5 0) (slice 22 24 d) (slice 24 26 d) (slice 26 30 d) ≡ d
cut_frame d e id =
    let (long, m, v) = is_frame_inv d e in
    (λ k.
      sym m k
      ++ ((sym v k ∷ get_or d 5 0 ∷ [])
          ++ (sym id k ++ (slice 22 24 d ++ (slice 24 26 d ++ (slice 26 30 d ++ drop 30 d))))))
    ∙ cut_fields d long

module _ (payload : Bytes) (ct i t n : ℕ) (hc : ct < 256) (hi : i < 2 ^ 16) (ht : t < 2 ^ 16)
    (hn : n < 2 ^ 32) where
  pub frame_fits :
      frame payload ct (written i t n) ≡ ok (framed payload ct (be 2 i) (be 2 t) (be 4 n))
  unfolding frame
  frame_fits = rw (
    bytes_of_fits (version ∷ ct ∷ []) (omega arith, (hc, tt)),
    pack_be_fits 2 i hi,
    pack_be_fits 2 t ht,
    pack_be_fits 4 n hn,
  )

  framed_reads :
      read (framed payload ct (be 2 i) (be 2 t) (be 4 n))
      ≡ some (reading payload ct (of_be (be 2 i)) (of_be (be 2 t)) (of_be (be 4 n)))
  unfolding read be
  framed_reads =
      rw (le→ltb_false (length (framed payload ct (be 2 i) (be 2 t) (be 4 n))) header (omega arith))

  pub read_written :
      read (framed payload ct (be 2 i) (be 2 t) (be 4 n)) ≡ some (reading payload ct i t n)
  read_written = framed_reads ∙ rw (of_be-be 2 i hi, of_be-be 2 t ht, of_be-be 4 n hn)

  -- A body framed with a content type, an index, a total and a length that fit their fields is
  -- written, and the bytes written read as just those values, with the body cut to the length.
  pub read-frame :
      (f : Bytes) × (frame payload ct (written i t n) ≡ ok f)
      × (read f ≡ some (reading payload ct i t n))
  read-frame = (framed payload ct (be 2 i) (be 2 t) (be 4 n), frame_fits, read_written)

read_inv : (d : Bytes) {p : Parsed} → read d ≡ some p → (is_frame d ≡ true) × (p ≡ parsed d)
unfolding read
read_inv d e = ground arith

abbrev pub again : Parsed → Options
again p = written p.chunk_index p.total_chunks p.plaintext_length

frame-parsed :
    (d : Bytes)
    → All IsByte d
    → is_frame d ≡ true
    → slice 6 22 d ≡ message_id
    → frame (drop 30 d) (parsed d).content_type (again (parsed d)) ≡ ok d
unfolding frame parsed
frame-parsed d bytes e id =
    let (long, m, v) = is_frame_inv d e in
    let ct : get_or d 5 0 < 256 = get_or-IsByte d 5 bytes in
    rw
      (
        bytes_of_fits (version ∷ get_or d 5 0 ∷ []) (omega arith, (ct, tt)),
        pack_be-of_be 2 (slice 22 24 d) (length-slice 22 24 d (omega arith))
            (All-slice IsByte 22 24 d bytes),
        pack_be-of_be 2 (slice 24 26 d) (length-slice 24 26 d (omega arith))
            (All-slice IsByte 24 26 d bytes),
        pack_be-of_be 4 (slice 26 30 d) (length-slice 26 30 d (omega arith))
            (All-slice IsByte 26 30 d bytes),
      )
      (ap ok (cut_frame d e id))

-- Bytes that read as a frame with the message id of `frame` are the bytes that `frame` writes of
-- what was read.
pub frame-read :
    (d : Bytes) {p : Parsed}
    → All IsByte d
    → read d ≡ some p
    → slice 6 22 d ≡ message_id
    → frame (drop 30 d) p.content_type (again p) ≡ ok d
frame-read d bytes e id = let (f, q) = read_inv d e in rw q (frame-parsed d bytes f id)

control_body :
    (d : Bytes)
    → is_frame d ≡ true
    → (parsed d).control ≡ true
    → ((parsed d).total_chunks ≡ 1)
      × (b : Bytes) × (rest : Bytes) × (drop 30 d ≡ b ++ rest)
      × (length b ≡ (parsed d).plaintext_length)
      × ((parsed d).body ≡ some (hex b))
unfolding parsed
control_body d f c =
    let size = of_be (slice 26 30 d) in
    (
      ground arith,
      take size (drop 30 d),
      drop size (drop 30 d),
      sym (take-append-drop size (drop 30 d)),
      ground (arith, length-take size (drop 30 d)),
      rw c,
    )

no_body :
    (d : Bytes)
    → is_frame d ≡ true
    → (parsed d).control ≡ false
    → (((parsed d).total_chunks ≢ 1) ⊎ (length d < 30 + (parsed d).plaintext_length))
      × ((parsed d).body ≡ none)
unfolding parsed
no_body d f c = let (long, m, v) = is_frame_inv d f in (ground (arith, length-drop 30 d), rw c)

-- What a reader says of bytes that are a frame: either a control frame, or not one and no body.
abbrev pub ReadsAs : Bytes → Parsed → Type 0
ReadsAs d p =
    ((p.control ≡ true)
      × (p.total_chunks ≡ 1)
      × (b : Bytes) × (rest : Bytes) × (drop 30 d ≡ b ++ rest)
      × (length b ≡ p.plaintext_length)
      × (p.body ≡ some (hex b)))
    ⊎ ((p.control ≡ false)
        × ((p.total_chunks ≢ 1) ⊎ (length d < 30 + p.plaintext_length))
        × (p.body ≡ none))

-- Of bytes that read as a frame, one of two holds. Either it is a control frame: it is the only
-- chunk, and its body is the hexadecimal text of the payload's first bytes, as many as its length
-- says. Or it is none: it is one chunk of another number or its length exceeds the payload, and it
-- has no body.
pub read-control : (d : Bytes) {p : Parsed} → read d ≡ some p → ReadsAs d p
read-control d e =
    let (f, q) = read_inv d e in
    rw q (elim (Bool-cases (parsed d).control) [
      | inl c ↦
          let (one, b, rest, cut, size, text) = control_body d f c in
          inl (c, one, b, rest, cut, size, text)
      | inr c ↦ let (why, empty) = no_body d f c in inr (c, why, empty)
    ])
