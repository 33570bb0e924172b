-- ===== src/History/Tests.antt =====
-- The history snapshot's theorems at concrete inputs, and some of its vectors as tests.
use construct_protos.Prelude.{
  ℕ, ◌+◌, ◌≤◌, ◌*◌, leb, if◌then◌else◌, ◌≡◌, ◌≢◌, ◌↔◌, ◌<◌, ◌^◌, refl, List, [], ◌∷◌, ◌++◌, true,
  none, some, arith, length, All, replicate, length-replicate,
}
use construct_protos.Prelude.Result.{ok, err, index_error, value_error, struct_error}
use construct_protos.Bytes.{Bytes, of_le, pack_le, bytes_of, codes}
use construct_protos.Proto.{varint, varint_field}
use construct_protos.History.Stream.{
  Record, parse_cth1, stream, parse_record_types, media_payloads, out_of_fuel, no_end, over_cap,
}
use construct_protos.History.Stream.Steps.{IsStorable, record_types, record_lens}
use construct_protos.History.Stream.RoundTrip.{parse_cth1-stream, stream-parse_cth1}
use construct_protos.History.Stream.Payloads.{media_of}
use construct_protos.History.Stream.Agreed.{readers_agree}
use construct_protos.History.Sealed.Outcome.{IsSealed, seal_stream_bounds}
use construct_protos.History.Ends.{loops_end}
use construct_protos.History.Media.{read_length, numbers_loop, media_fields_in_order}
use construct_protos.History.Media.Varints.{varint_codecs}
use construct_protos.History.Media.Sorting.{Increasing}
use construct_protos.History.Media.Fields.{field_bytes, field_numbers, media_fields_iff}
use construct_protos.History.Phase.{
  phase_ok, body_ok, without_end, rest_ok, phase_rule, any, reaction_rule, reaction_before_message,
  media_in_phase_1,
}
use construct_protos.History.Phase.Legal.{Legal, phase_ok_iff}
use construct_protos.History.Sealed.{
  Aead, seal_stream, chunk_frames, chunk_count, cthf_header_len, out_of_fuel as no_fuel,
}
use construct_protos.History.Sealed.Layout.{layout, chunk_frames-seal_stream}
use construct_protos.History.Keys.{Hmac, hkdf, hkdf_block, hkdf-eq-hkdf_block}
use construct_protos.History.Keys.Expand.{expand, hkdf-expand}

-- A Manifest and a MediaBlob, with payloads of two bytes and of one.
abbrev two_records : List Record
two_records = (1, 7 ∷ 9 ∷ []) ∷ (8, 5 ∷ []) ∷ []

abbrev two_bytes : Bytes
two_bytes =
    codes "CTH1"
    ++ (1 ∷ 1 ∷ 2 ∷ 0 ∷ 0 ∷ 0 ∷ 0 ∷ 0 ∷ 0 ∷ 0 ∷ 7 ∷ 9 ∷ 8 ∷ 1 ∷ 0 ∷ 0 ∷ 0 ∷ 0 ∷ 0 ∷ 0 ∷ 0 ∷ 5 ∷ 0
        ∷ [])

stream_two : stream two_records ≡ ok two_bytes
unfolding stream bytes_of pack_le
stream_two = refl

parse_two : parse_cth1 two_bytes ≡ ok (1 ∷ 8 ∷ 0 ∷ [], 2 ∷ 1 ∷ [])
unfolding parse_cth1 of_le
parse_two = refl

-- A stream with no End, and a payload length over the cap with no payload behind it.
parse_refused :
    (parse_cth1 (codes "CTH1" ++ (1 ∷ 1 ∷ 0 ∷ 0 ∷ 0 ∷ 0 ∷ 0 ∷ 0 ∷ 0 ∷ 0 ∷ [])) ≡ err no_end)
    × (parse_cth1 (codes "CTH1" ++ (1 ∷ 4 ∷ 1 ∷ 0 ∷ 0 ∷ 32 ∷ 0 ∷ 0 ∷ 0 ∷ 0 ∷ []))
        ≡ err (over_cap 536870913))
unfolding parse_cth1 of_le
parse_refused = (refl, refl)

parse_cth1-stream_example :
    (d : Bytes) × (stream two_records ≡ ok d)
    × (parse_cth1 d ≡ ok (record_types two_records ++ (0 ∷ []), record_lens two_records))
parse_cth1-stream_example = parse_cth1-stream two_records (omega arith)

stream-parse_cth1_example :
    (rs : List Record) × All IsStorable rs
    × (stream rs ≡ ok two_bytes)
    × (1 ∷ 8 ∷ 0 ∷ [] ≡ record_types rs ++ (0 ∷ []))
    × (2 ∷ 1 ∷ [] ≡ record_lens rs)
stream-parse_cth1_example =
    stream-parse_cth1 two_bytes (1 ∷ 8 ∷ 0 ∷ []) (2 ∷ 1 ∷ []) (omega arith) parse_two

readers_agree_example :
    (rs : List Record) × (stream rs ≡ ok two_bytes)
    × (1 ∷ 8 ∷ 0 ∷ [] ≡ record_types rs ++ (0 ∷ []))
    × (2 ∷ 1 ∷ [] ≡ record_lens rs)
    × (parse_record_types two_bytes ≡ some (ok (1 ∷ 8 ∷ 0 ∷ [])))
    × (media_payloads two_bytes ≡ some (ok (media_of rs)))
readers_agree_example =
    readers_agree two_bytes (1 ∷ 8 ∷ 0 ∷ []) (2 ∷ 1 ∷ []) (omega arith) parse_two

loops_end_example :
    (parse_cth1 two_bytes ≢ err out_of_fuel)
    × (parse_record_types two_bytes ≢ none)
    × (media_payloads two_bytes ≢ none)
    × (media_fields_in_order two_bytes ≢ none)
    × (chunk_frames two_bytes ≢ err no_fuel)
loops_end_example = loops_end two_bytes

-- The contact card's generation 300, and the snapshot's encoding of it.
varint_300 : varint 300 ≡ 0xac ∷ 2 ∷ []
unfolding varint
varint_300 = refl

varint_codecs_example :
    (varint_field 0x18 300 ≡ ok (0x18 ∷ varint 300))
    × (length (varint 300) ≤ 10)
    × (read_length (varint 300 ++ (7 ∷ [])) 0 0 ≡ ok (300, 7 ∷ []))
varint_codecs_example = varint_codecs 0x18 300 (7 ∷ []) (omega arith) (omega arith)

-- `encode_media_blob_first`: the blob ahead of the media id.
abbrev blob_first : List (ℕ × Bytes)
blob_first = (3, 0xff ∷ 0xd8 ∷ []) ∷ (1, codes "media-1") ∷ []

media_fields_iff_example :
    (media_fields_in_order (field_bytes blob_first) ≡ some (ok true))
    ↔ Increasing (field_numbers blob_first)
media_fields_iff_example = media_fields_iff blob_first (omega arith)

-- A payload that ends inside a length raises.
media_fields_cut : media_fields_in_order (0x0a ∷ 0x80 ∷ []) ≡ some (err index_error)
unfolding media_fields_in_order numbers_loop read_length
media_fields_cut = refl

-- The vectors V11 and V12.
phase_refused :
    (phase_ok 1 (1 ∷ 5 ∷ 4 ∷ 0 ∷ []) ≡ some reaction_before_message)
    × (phase_ok 1 (1 ∷ 8 ∷ 0 ∷ []) ≡ some media_in_phase_1)
unfolding phase_ok body_ok without_end rest_ok phase_rule any reaction_rule
phase_refused = (refl, refl)

phase_ok_iff_example : (phase_ok 1 (1 ∷ 4 ∷ 5 ∷ 0 ∷ []) ≡ none) ↔ Legal 1 (1 ∷ 4 ∷ 5 ∷ 0 ∷ [])
phase_ok_iff_example = phase_ok_iff 1 (1 ∷ 4 ∷ 5 ∷ 0 ∷ [])

-- A cipher that hides nothing, with a tag of sixteen zeros.
length-with_tag : (text : Bytes) → length (text ++ replicate 16 0) ≡ length text + 16
length-with_tag [] = refl
length-with_tag (b ∷ bs) = omega (arith, length-with_tag bs)

abbrev plain_aead : Aead
plain_aead = record {
  encrypt = λ key nonce text aad. text ++ replicate 16 0;
  length-encrypt = λ key nonce text aad. length-with_tag text;
}

-- As many bytes as a header has. It stays shut: only its length counts here.
zeros : ℕ → Bytes
zeros n = replicate n 0

length-zeros : (n : ℕ) → length (zeros n) ≡ n
unfolding zeros
length-zeros n = length-replicate {A = ℕ} n 0

chunk_frames-seal_stream_example :
    (out : Bytes) × (seal_stream plain_aead [] (7 ∷ 8 ∷ []) ≡ ok out)
    × (chunk_frames (zeros 7062 ++ out) ≡ ok (layout 2 cthf_header_len 0 (chunk_count 2)))
chunk_frames-seal_stream_example =
    chunk_frames-seal_stream plain_aead [] (7 ∷ 8 ∷ []) (zeros 7062) (length-zeros 7062)
      (omega arith)

seal_stream_bounds_example :
    (IsSealed plain_aead [] (7 ∷ 8 ∷ []) ↔ (2 ≤ 2 ^ 48))
    × ((seal_stream plain_aead [] (7 ∷ 8 ∷ []) ≡ err struct_error) ↔ (2 ^ 48 < 2))
seal_stream_bounds_example = seal_stream_bounds plain_aead [] (7 ∷ 8 ∷ [])

-- A digest of thirty-two zeros.
abbrev zero_hmac : Hmac
zero_hmac = record { digest = λ key message. replicate 32 0; length-digest = λ key message. refl }

hkdf-eq-hkdf_block_example :
    hkdf zero_hmac (1 ∷ []) (2 ∷ []) (3 ∷ []) 32
    ≡ some (ok (hkdf_block zero_hmac (1 ∷ []) (2 ∷ []) (3 ∷ [])))
hkdf-eq-hkdf_block_example = hkdf-eq-hkdf_block zero_hmac (1 ∷ []) (2 ∷ []) (3 ∷ [])

hkdf-expand_example :
    (hkdf zero_hmac (1 ∷ []) (2 ∷ []) (3 ∷ []) 64
      ≡ some (
          if leb 64 (255 * 32)
          then ok (expand zero_hmac (replicate 32 0) (3 ∷ []) 64)
          else err value_error))
    × (length (expand zero_hmac (replicate 32 0) (3 ∷ []) 64) ≡ 64)
hkdf-expand_example = hkdf-expand zero_hmac (1 ∷ []) (2 ∷ []) (3 ∷ []) 64
