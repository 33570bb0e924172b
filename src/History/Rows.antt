-- ===== src/History/Rows.antt =====
-- conformance/check_history_snapshot.py, the body of `main`'s loop: what it finds wrong in one row of
-- the vectors. A row is a dict; a field that may be missing is an option, an id V<n> is the number n.
-- In an outcome, `none` is the end of the fuel of a reader.
pub mod Kinds
pub mod Clean
pub mod Checked
pub mod Occurs
pub mod Tested
pub mod Content
pub mod Right
pub mod Silent
pub mod Consistent
pub mod Frames
pub mod Made
pub mod Whole
pub mod Dict
pub mod Accepted
pub mod Tests
use construct_protos.Prelude.{
  ℕ, ◌+◌, ◌<◌, List, [], ◌∷◌, ◌++◌, Bool, true, false, not, ◌&&◌, ◌||◌, Option, none, some, String,
  ltb, leb, ◌==◌, if◌then◌else◌, take, drop, slice, length,
}
use construct_protos.Prelude.Result.{
  Result, ok, err, Raises, Exception, key_error, type_error, struct_error, ◌>>=◌,
}
use construct_protos.Prelude.Checks.{check}
use construct_protos.Bytes.{Bytes, bytes_eq, of_le, codes}
use construct_protos.Bytes.Hex.{hex, fromhex}
use construct_protos.History.Stream.{Malformed, max_record_bytes, parse_cth1, media_payloads}
use construct_protos.History.Media.{media_fields_in_order}
use construct_protos.History.Phase.{Violation, names_of, phase_ok}
use construct_protos.History.Sealed.{BadFraming, cthf_header_len, chunk_frames}
use construct_protos.History.Keys.{Hmac, hkdf_block}
use construct_protos.History.Hello.{opening_len, reply_len}

pub data Kind : Type 0 where
  cth1_stream cth1_header_only ctt1_v2_opening ctt1_v2_reply cthf_header channel_key : Kind
  cthf_file preimage unknown_kind : Kind

pub data Expect : Type 0 where
  decode_ok applied skipped hint_dropped_bad_id envelope_manifest_mismatch : Expect
  record_order malformed verify_ok verify_fail verify_ok_with_tag kem_key_id_mismatch : Expect
  chunk_open_failed exact_hex other : Expect

-- The fields of a row that `main` reads. `derived` is none for a row with no `from`;
-- else it has the id that `from` names, and whether `mutation` is swap_chunks_0_1.
pub record Row : Type 0 where
  pub vid : ℕ
  pub hex : Option (List ℕ)
  pub byte_len : Option ℕ
  pub kind : Kind
  pub expect : Expect
  pub records : Option (List String)
  pub phase : Option ℕ
  pub has_chunk0_combined : Bool
  pub has_file_channel_key : Bool
  pub ecdh : Option (List ℕ)
  pub kem_shared_secret : Option (List ℕ)
  pub snapshot_id : Option (List ℕ)
  pub nearby_key : Option (List ℕ)
  pub file_key : Option (List ℕ)
  pub derived : Option (ℕ × Bool)
  pub chunk_count : Option ℕ
  pub preimage_utf8 : Option (List ℕ)
  pub tag : Option (List ℕ)
  pub instance_name : Option (List ℕ)
  pub fp : Option (List ℕ)

-- Why a stream is illegal.
pub data Reason : Type 0 where
  illegal : Violation → Reason
  fields_out_of_order : Reason

-- The texts that `main` adds to its errors.
pub data Complaint : Type 0 where
  hex_not_valid contains_ctm1 no_hex wrong_records missing_phase no_violation accepted : Complaint
  only_v15 wrong_prefix not_over_cap wrong_expect kem_not_zeros missing_fields : Complaint
  wrong_nearby_key wrong_file_key wrong_origin wrong_header wrong_chunks wrong_digits : Complaint
  wrong_byte_len wrong_length : ℕ → Complaint
  unparsed : Malformed → Complaint
  illegal_but_expected : Reason → Complaint
  bad_frames : BadFraming → Complaint
  of_unknown_kind : Complaint

abbrev pub Outcome : Type 0
Outcome = Option (Raises (List Complaint))

abbrev pub is_prefix : Bytes → Bytes → Bool
is_prefix xs d = bytes_eq (take (length xs) d) xs

-- b"CTM1" in data
unfoldable pub contains : Bytes → Bytes → Bool
contains xs [] = is_prefix xs []
contains xs (b ∷ d) = is_prefix xs (b ∷ d) || contains xs d

abbrev pub names_eq : List String → List String → Bool
names_eq [] [] = true
names_eq [] (y ∷ ys) = false
names_eq (x ∷ xs) [] = false
names_eq (x ∷ xs) (y ∷ ys) = bytes_eq (codes x) (codes y) && names_eq xs ys

-- row.get(...) against a number, a text
abbrev pub is_number : Option ℕ → ℕ → Bool
is_number none n = false
is_number (some m) n = m == n

abbrev pub is_text : Option (List ℕ) → List ℕ → Bool
is_text none t = false
is_text (some s) t = bytes_eq s t

abbrev pub all_next : Option (Raises Bool) → Option (Raises Bool) → Option (Raises Bool)
all_next none rest = none
all_next (some (err e)) rest = some (err e)
all_next (some (ok false)) rest = some (ok false)
all_next (some (ok true)) rest = rest

-- all(media_fields_in_order(m) for m in ...)
abbrev pub all_in_order : List Bytes → Option (Raises Bool)
all_in_order [] = some (ok true)
all_in_order (m ∷ ms) = all_next (media_fields_in_order m) (all_in_order ms)

abbrev pub all_of : Option (Raises (List Bytes)) → Option (Raises Bool)
all_of none = none
all_of (some (err e)) = some (err e)
all_of (some (ok ms)) = all_in_order ms

-- reason = phase_ok(...), and else the fields of the media
abbrev pub reason_of : Option Violation → Option (Raises Bool) → Option (Raises (Option Reason))
reason_of (some v) fields = some (ok (some (illegal v)))
reason_of none none = none
reason_of none (some (err e)) = some (err e)
reason_of none (some (ok true)) = some (ok none)
reason_of none (some (ok false)) = some (ok (some fields_out_of_order))

-- What the expectation says of a reason. The two of the first `if` come first, then the five.
abbrev pub judge : Expect → ℕ → Option Reason → List Complaint
judge record_order phase none = no_violation ∷ []
judge record_order phase (some r) = []
judge malformed phase none = check (phase == 0) accepted
judge malformed phase (some r) = []
judge decode_ok phase none = []
judge decode_ok phase (some r) = illegal_but_expected r ∷ []
judge applied phase none = []
judge applied phase (some r) = illegal_but_expected r ∷ []
judge skipped phase none = []
judge skipped phase (some r) = illegal_but_expected r ∷ []
judge hint_dropped_bad_id phase none = []
judge hint_dropped_bad_id phase (some r) = illegal_but_expected r ∷ []
judge envelope_manifest_mismatch phase none = []
judge envelope_manifest_mismatch phase (some r) = illegal_but_expected r ∷ []
judge verify_ok phase r = []
judge verify_fail phase r = []
judge verify_ok_with_tag phase r = []
judge kem_key_id_mismatch phase r = []
judge chunk_open_failed phase r = []
judge exact_hex phase r = []
judge other phase r = []

abbrev pub judged : Expect → ℕ → List Complaint → Option (Raises (Option Reason)) → Outcome
judged expect phase before none = none
judged expect phase before (some (err e)) = some (err e)
judged expect phase before (some (ok r)) = some (ok (before ++ judge expect phase r))

abbrev pub check_records : Option (List String) → List ℕ → List Complaint
check_records none types = []
check_records (some want) types = check (names_eq (names_of types) want) wrong_records

abbrev pub check_types : Row → Option ℕ → List ℕ → Option (Raises (List Bytes)) → Outcome
check_types row none types medias =
    some (ok (check_records row.records types ++ (missing_phase ∷ [])))
check_types row (some phase) types medias =
    judged row.expect phase (check_records row.records types)
      (reason_of (phase_ok phase types) (all_of medias))

abbrev pub check_parsed : Row → Bytes → Result Malformed (List ℕ × List ℕ) → Outcome
check_parsed row d (err e) = some (ok (unparsed e ∷ []))
check_parsed row d (ok (types, lens)) = check_types row row.phase types (media_payloads d)

-- The branch of cth1_stream, of the bytes of the row.
unfoldable pub check_stream : Row → Bytes → Outcome
check_stream row d = check_parsed row d (parse_cth1 d)
