-- ===== src/History/Rows/Kinds.antt =====
-- conformance/check_history_snapshot.py, `main`: the other kinds of a row, and the row as a whole.
use construct_protos.Prelude.{
  ℕ, ◌+◌, List, [], ◌∷◌, ◌++◌, Bool, true, false, not, ◌&&◌, Option, none, some, ltb, leb, ◌==◌,
  if◌then◌else◌, take, slice, length,
}
use construct_protos.Prelude.Result.{
  Result, ok, err, Raises, struct_error, key_error, type_error, ◌>>=◌,
}
use construct_protos.Bytes.{Bytes, bytes_eq, of_le, codes}
use construct_protos.Bytes.Hex.{hex, fromhex}
use construct_protos.History.Stream.{max_record_bytes}
use construct_protos.History.Sealed.{BadFraming, cthf_header_len, chunk_frames}
use construct_protos.History.Keys.{Hmac, hkdf_block}
use construct_protos.History.Hello.{opening_len, reply_len}
use construct_protos.History.Rows.{
  Kind, cth1_stream, cth1_header_only, ctt1_v2_opening, ctt1_v2_reply, cthf_header, channel_key,
  cthf_file, preimage, unknown_kind, Expect, malformed, verify_fail, verify_ok_with_tag,
  kem_key_id_mismatch, chunk_open_failed, exact_hex, Row, Complaint, hex_not_valid, contains_ctm1,
  no_hex, only_v15, wrong_prefix, not_over_cap, wrong_expect, kem_not_zeros, missing_fields,
  wrong_nearby_key, wrong_file_key, wrong_origin, wrong_header, wrong_chunks, wrong_digits,
  wrong_byte_len, wrong_length, bad_frames, of_unknown_kind, Outcome, contains, is_number, is_text,
  check_stream,
}
use construct_protos.Prelude.Checks.{check}

-- The tests of `expect`.
abbrev pub is_malformed : Expect → Bool
is_malformed malformed = true
is_malformed e = false

abbrev pub is_verify_fail : Expect → Bool
is_verify_fail verify_fail = true
is_verify_fail e = false

abbrev pub is_ok_with_tag : Expect → Bool
is_ok_with_tag verify_ok_with_tag = true
is_ok_with_tag e = false

abbrev pub is_mismatch : Expect → Bool
is_mismatch kem_key_id_mismatch = true
is_mismatch e = false

abbrev pub is_open_failed : Expect → Bool
is_open_failed chunk_open_failed = true
is_open_failed e = false

abbrev pub is_exact_hex : Expect → Bool
is_exact_hex exact_hex = true
is_exact_hex e = false

-- bytes.fromhex(row.get("hex")): of None a TypeError
abbrev pub data_of : Option (List ℕ) → Raises Bytes
data_of none = err type_error
data_of (some text) = fromhex text

-- row[...]: a missing key is a KeyError
abbrev pub field_of : Option (List ℕ) → Raises (List ℕ)
field_of none = err key_error
field_of (some text) = ok text

abbrev pub is_some : Option (List ℕ) → Bool
is_some none = false
is_some (some text) = true

-- len(row.get(..., ""))
abbrev pub text_length : Option (List ℕ) → ℕ
text_length none = 0
text_length (some text) = length text

abbrev pub when : Bool → List Complaint → List Complaint
when true complaints = complaints
when false complaints = []

-- any(kem) is some byte that is not 0
unfoldable pub all_zeros : Bytes → Bool
all_zeros [] = true
all_zeros (b ∷ bs) = b == 0 && all_zeros bs

-- struct.unpack_from("<Q", data, 6) asks for 14 bytes.
unfoldable pub check_header_only : Row → Bytes → Raises (List Complaint)
check_header_only row d =
    if ltb (length d) 14
    then err struct_error
    else ok (
        check (bytes_eq (take 5 d) (codes "CTH1" ++ (1 ∷ []))) wrong_prefix
        ++ (check (ltb max_record_bytes (of_le (slice 6 14 d))) not_over_cap
            ++ check (is_malformed row.expect) wrong_expect))

unfoldable pub check_opening : Row → Bytes → List Complaint
check_opening row d =
    check (length d == opening_len) (wrong_length (length d))
    ++ (check (bytes_eq (take 5 d) (codes "CTT1" ++ (2 ∷ []))) wrong_prefix
        ++ (when (row.vid == 22) (
              check (all_zeros (slice 2114 (2114 + 1568) d)) kem_not_zeros
              ++ check (is_malformed row.expect) wrong_expect)
            ++ (when (row.vid == 21) (check (is_verify_fail row.expect) wrong_expect)
                ++ when (row.vid == 19) (check (is_ok_with_tag row.expect) wrong_expect))))

unfoldable pub check_reply : Bytes → List Complaint
check_reply d = check (length d == reply_len) (wrong_length (length d))

unfoldable pub check_cthf : Row → Bytes → List Complaint
check_cthf row d =
    check (length d == cthf_header_len) (wrong_length (length d))
    ++ (check (bytes_eq (take 5 d) (codes "CTHF" ++ (1 ∷ []))) wrong_prefix
        ++ (when (row.vid == 24) (check (is_mismatch row.expect) wrong_expect)
            ++ when (row.vid == 23)
                (check (row.has_chunk0_combined && row.has_file_channel_key) missing_fields)))

unfoldable pub check_channel_key : Hmac → Row → Raises (List Complaint)
check_channel_key hmac row = do
  ecdh_text ← field_of row.ecdh
  ecdh ← fromhex ecdh_text
  kem_text ← field_of row.kem_shared_secret
  kem ← fromhex kem_text
  snap_text ← field_of row.snapshot_id
  snap ← fromhex snap_text
  ok (
      check
        (is_text row.nearby_key
          (hex (hkdf_block hmac (ecdh ++ kem) (codes "construct_transfer_v2") snap)))
        wrong_nearby_key
      ++ check
          (is_text row.file_key
            (hex (hkdf_block hmac (ecdh ++ kem) (codes "construct_history_file_v1") snap)))
          wrong_file_key)

abbrev pub check_frames : Row → Result BadFraming (List (ℕ × ℕ)) → List Complaint
check_frames row (err e) = bad_frames e ∷ []
check_frames row (ok frames) =
    check (is_number row.chunk_count (length frames) && leb 2 (length frames)) wrong_chunks

-- A file that is no derived one; `v23` is rows["V23"]["hex"], which may be a KeyError.
unfoldable pub check_whole_file : Row → Raises (List ℕ) → Bytes → Raises (List Complaint)
check_whole_file row v23 d = do
  text ← v23
  header ← fromhex text
  ok (
      check (bytes_eq (take cthf_header_len d) header) wrong_header
      ++ check_frames row (chunk_frames d))

-- `has` tells of an id whether it is in `rows`.
unfoldable pub check_file :
    Row → Raises (List ℕ) → (ℕ → Bool) → Option (ℕ × Bool) → Raises (List Complaint)
unfolding check_whole_file
check_file row v23 has (some (origin, swaps)) =
    ok (check (has origin && swaps) wrong_origin ++ check (is_open_failed row.expect) wrong_expect)
check_file row v23 has none = do d ← data_of row.hex; check_whole_file row v23 d

unfoldable pub check_preimage : Row → List Complaint
check_preimage row =
    check (is_exact_hex row.expect) wrong_expect
    ++ (when (row.vid == 17) (
          check (is_some row.preimage_utf8) missing_fields
          ++ (check (is_some row.tag) missing_fields
              ++ (check (is_some row.instance_name) missing_fields
                  ++ check (text_length row.tag == 32 && text_length row.instance_name == 32)
                      wrong_digits)))
        ++ when (row.vid == 18) (check (text_length row.fp == 64) wrong_digits))

abbrev pub read_stream : Row → Raises Bytes → Outcome
read_stream row (err e) = some (err e)
read_stream row (ok d) = check_stream row d

-- A stream with no hex, or an empty one, is not read.
abbrev pub stream_row : Row → Option (List ℕ) → Outcome
stream_row row none = some (ok (no_hex ∷ []))
stream_row row (some []) = some (ok (no_hex ∷ []))
stream_row row (some (c ∷ text)) = read_stream row (fromhex (c ∷ text))

unfoldable pub check_kind : Hmac → Raises (List ℕ) → (ℕ → Bool) → Row → Kind → Outcome
unfolding check_opening check_reply check_cthf
check_kind hmac v23 has row cth1_stream = stream_row row row.hex
check_kind hmac v23 has row cth1_header_only =
    if row.vid == 15
    then some (do d ← data_of row.hex; check_header_only row d)
    else some (ok (only_v15 ∷ []))
check_kind hmac v23 has row ctt1_v2_opening =
    some (do d ← data_of row.hex; ok (check_opening row d))
check_kind hmac v23 has row ctt1_v2_reply = some (do d ← data_of row.hex; ok (check_reply d))
check_kind hmac v23 has row cthf_header = some (do d ← data_of row.hex; ok (check_cthf row d))
check_kind hmac v23 has row channel_key = some (check_channel_key hmac row)
check_kind hmac v23 has row cthf_file = some (check_file row v23 has row.derived)
check_kind hmac v23 has row preimage = some (ok (check_preimage row))
check_kind hmac v23 has row unknown_kind = some (ok (of_unknown_kind ∷ []))

abbrev pub before_kind : List Complaint → Outcome → Outcome
before_kind front none = none
before_kind front (some (err e)) = some (err e)
before_kind front (some (ok rest)) = some (ok (front ++ rest))

-- if hx: ...; text that is no hexadecimal ends the row
abbrev pub check_hex : Row → Raises Bytes → Outcome → Outcome
check_hex row (err e) rest = some (ok (hex_not_valid ∷ []))
check_hex row (ok d) rest =
    before_kind
      (check (not (contains (codes "CTM1") d)) contains_ctm1
        ++ check (is_number row.byte_len (length d)) (wrong_byte_len (length d)))
      rest

abbrev pub check_front : Row → Option (List ℕ) → Outcome → Outcome
check_front row none rest = rest
check_front row (some []) rest = rest
check_front row (some (c ∷ text)) rest = check_hex row (fromhex (c ∷ text)) rest

unfoldable pub check_row : Hmac → Raises (List ℕ) → (ℕ → Bool) → Row → Outcome
unfolding check_kind
check_row hmac v23 has row = check_front row row.hex (check_kind hmac v23 has row row.kind)
