-- ===== src/History/Rows/Accepted.antt =====
-- The checker on what the generator writes: its streams and its openings.
use construct_protos.Prelude.{
  arith, zero, suc, length-replicate, ◌⊎◌, inl, inr, ℕ, ◌+◌, ◌≡◌, ◌∙◌, refl, sym, List, [], ◌∷◌,
  ◌++◌, Bool, true, false, Option, none, some, All, map, length, replicate, slice, take,
}
use construct_protos.Prelude.Result.{ok, ok_injective}
use construct_protos.Bytes.{Bytes, codes, pack_le}
use construct_protos.Proto.{p_string, p_bytes, key, varint, utf8}
use construct_protos.History.Hello.{opening_len, build_opening}
use construct_protos.History.Hello.Sizes.{KeyBytes, AreSized, texts}
use construct_protos.History.Hello.Layout.{chosen_kem, build_opening_accepted}
use construct_protos.History.Media.{media_fields_in_order, numbers_loop, read_length, in_order}
use construct_protos.History.Phase.{
  phase_ok, body_ok, without_end, rest_ok, phase_rule, any, reaction_rule, names_of,
}
use construct_protos.History.Stream.{Record, stream}
use construct_protos.History.Stream.Steps.{IsStorable, record_types}
use construct_protos.History.Stream.RoundTrip.{parse_cth1-stream}
use construct_protos.History.Stream.Payloads.{media_of, media_payloads-stream}
use construct_protos.History.Records.{encode_profile_share, encode_media, encode_media_blob_first}
use construct_protos.History.Records.Vectors.{Vector, vectors_of, stream_vectors}
use construct_protos.History.Rows.{
  malformed, verify_fail, verify_ok_with_tag, Row, cth1_stream, Outcome, check_types, check_stream,
}
use construct_protos.History.Rows.Kinds.{all_zeros, check_opening}

-- What the checker's branch for streams says of a stream of storable records follows from the types
-- of the records and from the payloads of those that are media: the lengths and the other payloads,
-- and how the stream is laid out, make no difference.
pub check_stream-stream :
    (row : Row) (rs : List Record) {d : Bytes}
    → All IsStorable rs
    → stream rs ≡ ok d
    → check_stream row d
      ≡ check_types row row.phase (record_types rs ++ (0 ∷ [])) (some (ok (media_of rs)))
unfolding check_stream
check_stream-stream row rs h e =
    let (d', made, read) = parse_cth1-stream rs h in
    let same = ok_injective (sym made ∙ e) in
    rw (← same, read, media_payloads-stream rs h made) refl

-- The row of a vector, as far as the branch for streams reads it.
abbrev pub row_of : Vector → Row
row_of v = record {
  vid = v.vid;
  hex = none;
  byte_len = none;
  kind = cth1_stream;
  expect = v.expect;
  records = some v.records;
  phase = some v.phase;
  has_chunk0_combined = false;
  has_file_channel_key = false;
  ecdh = none;
  kem_shared_secret = none;
  snapshot_id = none;
  nearby_key = none;
  file_key = none;
  derived = none;
  chunk_count = none;
  preimage_utf8 = none;
  tag = none;
  instance_name = none;
  fp = none;
}

-- The verdict on a vector, from the types of its records and the payloads of its media.
abbrev pub verdict : Vector → Outcome
verdict v =
    check_types (row_of v) (some v.phase) (record_types v.written ++ (0 ∷ []))
      (some (ok (media_of v.written)))

packed_profile : (p : Bytes) × (encode_profile_share ≡ ok p)
unfolding encode_profile_share pack_le utf8
packed_profile = (_, refl)

pub verdicts :
    (source_hex : List ℕ) (identity_pub profile : Bytes)
    → map verdict (vectors_of source_hex identity_pub profile) ≡ replicate 16 (some (ok []))
unfolding encode_media encode_media_blob_first p_string p_bytes key varint utf8 phase_ok body_ok
    without_end rest_ok phase_rule any reaction_rule names_of media_fields_in_order numbers_loop
    read_length in_order
verdicts source_hex identity_pub profile = refl

-- The sixteen vectors that the generator has for streams are made, for every device id and identity
-- key. For each one the checker's test of the stated record names, the phase rules and the order of
-- the media fields, run on the types of its records and on the payloads of its media, adds no error.
pub vectors_accepted :
    (source_hex : List ℕ) (identity_pub : Bytes)
    → (vs : List Vector) × (stream_vectors source_hex identity_pub ≡ ok vs)
      × (map verdict vs ≡ replicate 16 (some (ok [])))
unfolding stream_vectors
vectors_accepted source_hex identity_pub =
    let (profile, made) = packed_profile in
    (
      vectors_of source_hex identity_pub profile,
      rw made refl,
      verdicts source_hex identity_pub profile,
    )

all_zeros-replicate : (n : ℕ) → all_zeros (replicate n 0) ≡ true
unfolding all_zeros
all_zeros-replicate zero = refl
all_zeros-replicate (suc n) = all_zeros-replicate n

-- What an id asks of an opening: V22 has a ciphertext of zeros, V21 and V19 that of the keys.
abbrev pub Asked : Row → Option Bytes → Type 0
Asked row kem =
    (row.vid ≡ 22) × (row.expect ≡ malformed) × (kem ≡ some (replicate 1568 0))
    ⊎ (row.vid ≡ 21) × (row.expect ≡ verify_fail) × (kem ≡ none)
    ⊎ (row.vid ≡ 19) × (row.expect ≡ verify_ok_with_tag) × (kem ≡ none)

no_complaint :
    (row : Row) (kem : Option Bytes) (c d : Bytes)
    → length d ≡ opening_len
    → take 5 d ≡ codes "CTT1" ++ (2 ∷ [])
    → slice 2114 (2114 + 1568) d ≡ chosen_kem kem c
    → Asked row kem
    → check_opening row d ≡ []
unfolding check_opening
no_complaint row kem c d long front at (inl (v, e, z)) =
    rw (long, front, v, e, at, z, all_zeros-replicate 1568) refl
no_complaint row kem c d long front at (inr (inl (v, e, z))) = rw (long, front, v, e) refl
no_complaint row kem c d long front at (inr (inr (v, e, z))) = rw (long, front, v, e) refl

sized_kem :
    (row : Row) (kem : Option Bytes) (c : Bytes)
    → length c ≡ 1568
    → Asked row kem
    → length (chosen_kem kem c) ≡ 1568
sized_kem row kem c h (inl (v, e, z)) = rw z (length-replicate {A = ℕ} 1568 0)
sized_kem row kem c h (inr (inl (v, e, z))) = rw z h
sized_kem row kem c h (inr (inr (v, e, z))) = rw z h

-- The openings of V19, V21 and V22, of keys of the lengths of their algorithms and signatures of 3373
-- bytes, are made, and the checker's branch for openings finds nothing wrong in a row of one of
-- these ids with the ciphertext and the expectation of the id.
pub openings_accepted :
    (helper_sign : Bool → Bytes → Bytes) (k : KeyBytes) (row : Row) (kem : Option Bytes)
    (ed_only : Bool)
    → ((ed : Bool) (m : Bytes) → length (helper_sign ed m) ≡ 3373)
    → AreSized k
    → Asked row kem
    → (frame : Bytes) × (build_opening helper_sign (texts k) 2 kem ed_only ≡ ok frame)
      × (check_opening row frame ≡ [])
openings_accepted helper_sign k row kem ed_only size sized asked =
    let (be, br, bi, bq, bh, ba, bb, hk, bc) = sized in
    let (frame, made, long, front, at, sig) =
      build_opening_accepted helper_sign size k 2 kem ed_only sized (omega arith)
        (sized_kem row kem k.kem_ct bc.1 asked) in
    (frame, made, no_complaint row kem k.kem_ct frame long front at asked)
