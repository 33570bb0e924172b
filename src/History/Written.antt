-- ===== src/History/Written.antt =====
-- gen_history_snapshot_vectors.py, `main` as a whole: the rows of the file that it writes, in their
-- order, as far as the checker reads them. The cipher, the digests and the helper that prints the
-- keys and signs are parameters; `none` of the whole is the end of the fuel of a derived key.
pub mod Good
pub mod Streams
pub mod Vectors
pub mod File
pub mod Keyed
pub mod Accepted
pub mod Whole
mod Tests
use construct_protos.Prelude.{
  ℕ, List, [], ◌∷◌, ◌++◌, Bool, true, false, Option, none, some, take, drop, slice, length,
  replicate,
}
use construct_protos.Prelude.Result.{ok, Raises, ◌>>=◌}
use construct_protos.Bytes.{Bytes, codes}
use construct_protos.Bytes.Hex.{hex, fromhex}
use construct_protos.History.Stream.{Record, stream}
use construct_protos.History.Sealed.{cthf_header_len, Aead, snapshot_id, seal_stream, chunk_count}
use construct_protos.History.Keys.{Hmac, hkdf}
use construct_protos.History.Rows.Whole.{Constants}
use construct_protos.History.Hello.{
  opening_len, reply_len, Keys, build_opening, build_reply, build_cthf,
}
use construct_protos.History.Records.{encode_manifest, encode_text_message, encode_split_media}
use construct_protos.History.Records.Vectors.{Vector, stream_vectors, counts}
use construct_protos.History.Rows.{
  Row, Kind, cth1_stream, ctt1_v2_opening, ctt1_v2_reply, cthf_header, cthf_file, Expect, decode_ok,
  malformed, verify_ok, verify_fail, verify_ok_with_tag, kem_key_id_mismatch,
}
use construct_protos.History.Rows.Made.{
  vec, header_row, discovery_row, fingerprint_row, channel_key_row, swapped_row, ck_ecdh, ck_kem,
  with_key,
}

-- doc["$constants"], as far as the checker reads it
abbrev pub written_constants : Constants
written_constants = record {
  ctt1_v2_opening_len = some opening_len;
  ctt1_v2_reply_len = some reply_len;
  cthf_header_len = some cthf_header_len;
}

-- What the helper prints, as far as `main` reads it.
pub record Printed : Type 0 where
  pub keys : Keys
  pub qr_fp : List ℕ
  pub wrong_kyber_key_id : ℕ
  pub file_channel_key : List ℕ

-- V1 to V14, V16 and V25
unfoldable pub stream_row : Vector → Raises Row
unfolding vec stream
stream_row v = do
  d ← stream v.written
  vec v.vid cth1_stream v.expect (some (hex d)) (some v.records) (some v.phase) (λ r. r)

unfoldable pub stream_rows : List Vector → Raises (List Row)
unfolding stream_row
stream_rows [] = ok []
stream_rows (v ∷ vs) = do row ← stream_row v; rows ← stream_rows vs; ok (row ∷ rows)

-- A row with nothing but a frame.
unfoldable pub frame_row : ℕ → Kind → Expect → Raises Bytes → (Row → Row) → Raises Row
unfolding vec
frame_row vid kind expect built extra = do
  frame ← built
  vec vid kind expect (some (hex frame)) none none extra

-- file_cth1, of the texts of the source device
unfoldable pub file_records : List ℕ → List Record
file_records source_hex =
    (1, encode_manifest 3 source_hex (counts 1 0 1 1))
    ∷ (4, encode_text_message)
    ∷ (8, encode_split_media)
    ∷ []

-- The order of the list `vectors`: the streams without V16 and V25 come first.
unfoldable pub in_order : List Row → Row → List Row → Row → Row → Row → List Row
in_order streams header keyed channel file swapped =
    take 14 streams
    ++ (header ∷ slice 14 15 streams
        ++ (keyed ++ (drop 15 streams ++ (channel ∷ file ∷ swapped ∷ []))))

module _ (sha256 : Bytes → Bytes) (hmac : Hmac) (helper_sign : Bool → Bytes → Bytes) where
  -- V17 to V24; `v23` is the header that was built.
  unfoldable pub keyed_rows : Printed → Bytes → Raises (List Row)
  unfolding frame_row build_opening build_reply build_cthf discovery_row fingerprint_row
  keyed_rows p v23 = do
    discovered ← discovery_row sha256 hmac p.keys
    fingerprint ← fingerprint_row sha256 hmac p.qr_fp
    opening ←
        frame_row 19 ctt1_v2_opening verify_ok_with_tag
          (build_opening helper_sign p.keys 2 none false) (λ r. r)
    reply ← frame_row 20 ctt1_v2_reply verify_ok_with_tag (build_reply helper_sign p.keys) (λ r. r)
    ed_only ←
        frame_row 21 ctt1_v2_opening verify_fail (build_opening helper_sign p.keys 2 none true)
          (λ r. r)
    zero_kem ←
        frame_row 22 ctt1_v2_opening malformed
          (build_opening helper_sign p.keys 2 (some (replicate 1568 0)) false) (λ r. r)
    header ←
        frame_row 23 cthf_header verify_ok (ok v23)
          (λ r. record r { has_chunk0_combined = true; has_file_channel_key = true })
    wrong_id ←
        frame_row 24 cthf_header kem_key_id_mismatch
          (build_cthf helper_sign p.keys (some p.wrong_kyber_key_id)) (λ r. r)
    ok (discovered ∷ fingerprint ∷ opening ∷ reply ∷ ed_only ∷ zero_kem ∷ header ∷ wrong_id ∷ [])

module _ (aead : Aead) where
  -- V27: the header of V23 and the sealed stream
  unfoldable pub file_row : Printed → List ℕ → Bytes → Raises Row
  unfolding vec seal_stream file_records
  file_row p source_hex v23 = do
    file_key ← fromhex p.file_channel_key
    file_cth1 ← stream (file_records source_hex)
    sealed ← seal_stream aead file_key file_cth1
    vec 27 cthf_file decode_ok (some (hex (v23 ++ sealed)))
        (some ("manifest" ∷ "message" ∷ "media" ∷ "end" ∷ [])) (some 3)
        (λ r. record r { chunk_count = some (chunk_count (length file_cth1)) })

module _ (sha256 : Bytes → Bytes) (hmac : Hmac) (aead : Aead)
    (helper_sign : Bool → Bytes → Bytes) where
  -- The rows, with the two channel keys.
  unfoldable pub rows_with : Printed → Bytes → Bytes → Raises (List Row)
  unfolding stream_rows stream_vectors header_row keyed_rows channel_key_row file_row swapped_row
      in_order
  rows_with p nearby file_channel = do
    source ← fromhex p.keys.offering_device_id_raw
    identity_pub ← fromhex p.keys.offering_identity_public
    vs ← stream_vectors (hex source) identity_pub
    streams ← stream_rows vs
    header ← header_row
    v23 ← build_cthf helper_sign p.keys none
    keyed ← keyed_rows sha256 hmac helper_sign p v23
    channel ← channel_key_row sha256 hmac nearby file_channel
    file ← file_row aead p (hex source) v23
    swapped ← swapped_row
    ok (in_order streams header keyed channel file swapped)

  -- doc["vectors"]
  unfoldable pub written : Printed → Option (Raises (List Row))
  unfolding hkdf rows_with ck_ecdh ck_kem
  written p =
      with_key (hkdf hmac (ck_ecdh ++ ck_kem) (codes "construct_transfer_v2") snapshot_id 32)
        (λ nearby.
          with_key
            (hkdf hmac (ck_ecdh ++ ck_kem) (codes "construct_history_file_v1") snapshot_id 32)
            (λ file_channel. some (rows_with p nearby file_channel)))
