-- ===== src/History/Rows/Made.antt =====
-- gen_history_snapshot_vectors.py: `vec`, and the rows of `main` that are no streams and hold no keyed
-- frame: V15, V17, V18, V26 and V28, as far as the checker reads a row. The fingerprint of the
-- helper, SHA-256 and HMAC are parameters; `none` of the whole is the end of the fuel of a key.
use construct_protos.Prelude.{
  ℕ, ◌+◌, List, [], ◌∷◌, ◌++◌, true, false, Option, none, some, String, length,
}
use construct_protos.Prelude.Result.{ok, Raises, ◌>>=◌}
use construct_protos.Bytes.{Bytes, codes, pack_le, byte_range}
use construct_protos.Bytes.Hex.{hex, fromhex}
use construct_protos.History.Stream.{max_record_bytes}
use construct_protos.History.Media.{behind}
use construct_protos.History.Keys.{Hmac, hkdf}
use construct_protos.History.Hello.{Keys, dashed_user_id, discovery}
use construct_protos.History.Sealed.{snapshot_id}
use construct_protos.History.Rows.{
  Kind, cth1_header_only, preimage, channel_key, cthf_file, Expect, malformed, exact_hex,
  chunk_open_failed, Row,
}

-- The row with its four first fields, and no other.
abbrev pub bare : ℕ → Kind → Expect → Row
bare vid kind expect = record {
  vid = vid;
  hex = none;
  byte_len = none;
  kind = kind;
  expect = expect;
  records = none;
  phase = none;
  has_chunk0_combined = false;
  has_file_channel_key = false;
  ecdh = none;
  kem_shared_secret = none;
  snapshot_id = none;
  nearby_key = none;
  file_key = none;
  derived = none;
  chunk_count = none;
  preimage_utf8 = none;
  tag = none;
  instance_name = none;
  fp = none;
}

-- if hex_payload is not None: ...
abbrev with_hex : Option (List ℕ) → Row → Raises Row
with_hex none row = ok row
with_hex (some text) row = do
  d ← fromhex text
  ok (record row { hex = some text; byte_len = some (length d) })

-- The update by `extra` is a function on rows.
unfoldable pub vec :
    ℕ → Kind → Expect → Option (List ℕ) → Option (List String) → Option ℕ → (Row → Row) → Raises Row
vec vid kind expect hex_payload records phase extra = do
  row ← with_hex hex_payload (bare vid kind expect)
  ok (extra (record row { records = records; phase = phase }))

-- v15 and its row: a header whose length is over the cap
unfoldable pub header_row : Raises Row
unfolding vec
header_row = do
  size ← pack_le 8 (max_record_bytes + 1)
  vec 15 cth1_header_only malformed (some (hex (codes "CTH1" ++ (1 ∷ 4 ∷ size)))) none none (λ r. r)

-- ck_ecdh and ck_kem
unfoldable pub ck_ecdh : Bytes
unfolding byte_range
ck_ecdh = byte_range 0 32

unfoldable pub ck_kem : Bytes
unfolding byte_range
ck_kem = byte_range 32 32

-- V28; its `from` is V27, which is one of the ids.
unfoldable pub swapped_row : Raises Row
unfolding vec
swapped_row =
    vec 28 cthf_file chunk_open_failed none none none (λ r. record r { derived = some (27, true) })

-- What goes on behind a derived key.
abbrev pub with_key :
    Option (Raises Bytes) → (Bytes → Option (Raises (List Row))) → Option (Raises (List Row))
with_key none f = none
with_key (some r) f = behind r f

module _ (sha256 : Bytes → Bytes) (hmac : Hmac) where
  -- V17
  unfoldable pub discovery_row : Keys → Raises Row
  unfolding vec discovery dashed_user_id
  discovery_row keys =
      let found = discovery sha256 dashed_user_id keys.receiver_device_id_raw in
      vec 17 preimage exact_hex none none none (λ r. record r {
        preimage_utf8 = some (codes "cth1:" ++ (dashed_user_id ++ keys.receiver_device_id_raw));
        tag = some found.0;
        instance_name = some found.1;
      })

  -- V18
  unfoldable pub fingerprint_row : List ℕ → Raises Row
  unfolding vec
  fingerprint_row qr_fp =
      vec 18 preimage exact_hex none none none (λ r. record r { fp = some qr_fp })

  -- V26
  unfoldable pub channel_key_row : Bytes → Bytes → Raises Row
  unfolding vec ck_ecdh ck_kem
  channel_key_row nearby file = vec 26 channel_key exact_hex none none none (λ r. record r {
    ecdh = some (hex ck_ecdh);
    kem_shared_secret = some (hex ck_kem);
    snapshot_id = some (hex snapshot_id);
    nearby_key = some (hex nearby);
    file_key = some (hex file);
  })

  -- The five rows, in the order of the list, with the two keys.
  unfoldable pub rows_of : Keys → List ℕ → Bytes → Bytes → Raises (List Row)
  unfolding header_row discovery_row fingerprint_row channel_key_row swapped_row
  rows_of keys qr_fp nearby file = do
    header ← header_row
    discovered ← discovery_row keys
    fingerprint ← fingerprint_row qr_fp
    channel ← channel_key_row nearby file
    swapped ← swapped_row
    ok (header ∷ discovered ∷ fingerprint ∷ channel ∷ swapped ∷ [])

  -- ck_nearby and ck_file, and the rows
  unfoldable pub made_rows : Keys → List ℕ → Option (Raises (List Row))
  unfolding hkdf rows_of
  made_rows keys qr_fp =
      with_key (hkdf hmac (ck_ecdh ++ ck_kem) (codes "construct_transfer_v2") snapshot_id 32)
        (λ nearby.
          with_key
            (hkdf hmac (ck_ecdh ++ ck_kem) (codes "construct_history_file_v1") snapshot_id 32)
            (λ file. some (rows_of keys qr_fp nearby file)))
