-- ===== src/History/Rows/Tests.antt =====
-- The theorems on rows and on the frames of a transfer at concrete inputs: keys of zeros, and a helper
-- that signs with zeros.
use construct_protos.Prelude.{
  ℕ, zero, suc, ◌≡◌, ◌↔◌, true, refl, List, [], ◌∷◌, ◌++◌, Bool, false, some, inl, All, arith, map,
  length, replicate, length-replicate, drop, All-append,
}
use construct_protos.Prelude.Result.{ok}
use construct_protos.Bytes.{Bytes, IsByte, pack_le, bytes_of, codes}
use construct_protos.History.Sealed.{cthf_header_len, chunk_frames}
use construct_protos.History.Sealed.Framed.{Framed, chunk_frames_iff}
use construct_protos.History.Stream.{Record, stream}
use construct_protos.History.Records.Vectors.{Vector, stream_vectors}
use construct_protos.History.Hello.{opening_len, reply_len, build_opening}
use construct_protos.History.Hello.Sizes.{KeyBytes, AreSized, texts}
use construct_protos.History.Keys.{Hmac}
use construct_protos.History.Rows.Made.{bare}
use construct_protos.History.Rows.Whole.{Constants, errors, rows_from}
use construct_protos.History.Rows.Consistent.{IsConsistent, errors-nil_iff_IsConsistent}
use construct_protos.History.Rows.{cthf_file, chunk_open_failed, Row, malformed}
use construct_protos.History.Rows.Kinds.{check_opening}
use construct_protos.History.Rows.Accepted.{row_of, verdict, vectors_accepted, openings_accepted}

pub zeros : ℕ → Bytes
zeros n = replicate n 0

pub zeros-IsByte : (n : ℕ) → All IsByte (zeros n)
unfolding zeros
zeros-IsByte zero = tt
zeros-IsByte (suc n) = (omega arith, zeros-IsByte n)

pub length-zeros : (n : ℕ) → length (zeros n) ≡ n
unfolding zeros
length-zeros n = length-replicate {A = ℕ} n 0

abbrev pub zero_keys : KeyBytes
zero_keys = record {
  sender_eph = zeros 32;
  receiver_eph = zeros 32;
  offering_identity = zeros 32;
  receiver_identity = zeros 32;
  hybrid = zeros 1984;
  offering_device_id = zeros 16;
  receiver_device_id = zeros 16;
  kyber_key_id = 7;
  kem_ct = zeros 1568;
}

sized : (n : ℕ) → All IsByte (zeros n) × (length (zeros n) ≡ n)
sized n = (zeros-IsByte n, length-zeros n)

pub zero_keys-AreSized : AreSized zero_keys
zero_keys-AreSized = (
  sized 32,
  sized 32,
  sized 32,
  sized 32,
  sized 1984,
  sized 16,
  sized 16,
  omega arith,
  sized 1568,
)

abbrev pub sign_zeros : Bool → Bytes → Bytes
sign_zeros ed m = zeros 3373

pub length-sign_zeros : (ed : Bool) (m : Bytes) → length (sign_zeros ed m) ≡ 3373
length-sign_zeros ed m = length-zeros 3373

abbrev no_records : Vector
no_records = record { vid = 22; expect = malformed; records = []; phase = 1; written = [] }

-- A Manifest and a MediaBlob with no field in it.
abbrev two_records : List Record
two_records = (1, 7 ∷ 9 ∷ []) ∷ (8, []) ∷ []

abbrev two_bytes : Bytes
two_bytes =
    codes "CTH1"
    ++ (1 ∷ 1 ∷ 2 ∷ 0 ∷ 0 ∷ 0 ∷ 0 ∷ 0 ∷ 0 ∷ 0 ∷ 7 ∷ 9 ∷ 8 ∷ 0 ∷ 0 ∷ 0 ∷ 0 ∷ 0 ∷ 0 ∷ 0 ∷ 0 ∷ 0 ∷ [])

stream_two : stream two_records ≡ ok two_bytes
unfolding stream bytes_of pack_le
stream_two = refl

vectors_accepted_example :
    (vs : List Vector) × (stream_vectors (replicate 32 97) (zeros 32) ≡ ok vs)
    × (map verdict vs ≡ replicate 16 (some (ok [])))
vectors_accepted_example = vectors_accepted (replicate 32 97) (zeros 32)

openings_accepted_example :
    (frame : Bytes) × (build_opening sign_zeros (texts zero_keys) 2 (some (replicate 1568 0)) false
      ≡ ok frame)
    × (check_opening (row_of no_records) frame ≡ [])
openings_accepted_example =
    openings_accepted sign_zeros zero_keys (row_of no_records) (some (replicate 1568 0)) false
      length-sign_zeros zero_keys-AreSized (inl (refl, refl, refl))

abbrev pub zero_hmac : Hmac
zero_hmac = record {
  digest = λ key message. zeros 32;
  length-digest = λ key message. length-zeros 32;
}

abbrev stated : Constants
stated = record {
  ctt1_v2_opening_len = some opening_len;
  ctt1_v2_reply_len = some reply_len;
  cthf_header_len = some cthf_header_len;
}

abbrev swapped : Row
swapped = record (bare 28 cthf_file chunk_open_failed) { derived = some (28, true) }

errors-nil_iff_IsConsistent_example :
    (errors zero_hmac (codes "oneof body") false stated (swapped ∷ []) ≡ some (ok []))
    ↔ IsConsistent zero_hmac (codes "oneof body") false stated (rows_from [] (swapped ∷ []))
errors-nil_iff_IsConsistent_example =
    errors-nil_iff_IsConsistent zero_hmac (codes "oneof body") false stated (swapped ∷ [])

-- A file of one chunk of 29 zeros behind a header of zeros.
abbrev one_chunk : Bytes
one_chunk = zeros cthf_header_len ++ (29 ∷ 0 ∷ 0 ∷ 0 ∷ zeros 33)

one_chunk-IsByte : All IsByte one_chunk
one_chunk-IsByte =
    All-append IsByte (zeros cthf_header_len) (29 ∷ 0 ∷ 0 ∷ 0 ∷ zeros 33)
      (zeros-IsByte cthf_header_len)
      (omega arith, (omega arith, (omega arith, (omega arith, zeros-IsByte 33))))

chunk_frames_iff_example :
    (chunk_frames one_chunk ≡ ok ((cthf_header_len, 29) ∷ []))
    ↔ Framed cthf_header_len (drop cthf_header_len one_chunk) ((cthf_header_len, 29) ∷ [])
chunk_frames_iff_example = chunk_frames_iff one_chunk ((cthf_header_len, 29) ∷ []) one_chunk-IsByte
