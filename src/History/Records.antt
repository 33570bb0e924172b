-- ===== src/History/Records.antt =====
-- The payloads of the records that gen_history_snapshot_vectors.py writes: its constants and its
-- `encode_*` functions. A text is the list of its code points.
pub mod Vectors
pub mod Sized
use construct_protos.Prelude.{
  ℕ, zero, suc, ◌+◌, ◌*◌, ◌%◌, List, [], ◌∷◌, ◌++◌, Bool, true, false, concat, replicate, length,
}
use construct_protos.Prelude.Result.{ok, err, Raises, ◌>>=◌}
use construct_protos.Bytes.{Bytes, pack_le, codes}
use construct_protos.Proto.{p_bytes, p_string, p_varint, p_bool, p_msg, utf8}
use construct_protos.History.Sealed.{snapshot_id, user_id}

-- MSG_ID
abbrev pub msg_id : List ℕ
msg_id = codes "aaaaaaaa-bbbb-4ccc-8ddd-eeeeeeeeeeee"

-- PEER_USER
abbrev pub peer_user : Bytes
peer_user = 0 ∷ 0 ∷ 0 ∷ 0 ∷ 0 ∷ 0 ∷ 0x40 ∷ 0 ∷ 0x80 ∷ 0 ∷ 0 ∷ 0 ∷ 0 ∷ 0 ∷ 0 ∷ 2 ∷ []

-- CREATED_AT
abbrev pub created_at : ℕ
created_at = 1_800_000_000

-- TS_MS
abbrev pub ts_ms : ℕ
ts_ms = 1_800_000_000_000

-- The keyword arguments that `encode_manifest` counts; one that is not given is 0.
pub record Counts : Type 0 where
  pub contact_count : ℕ
  pub chat_count : ℕ
  pub message_count : ℕ
  pub reaction_count : ℕ
  pub media_blob_count : ℕ
  pub media_byte_count : ℕ

unfoldable pub encode_manifest : ℕ → List ℕ → Counts → Bytes
encode_manifest phase source_device_id counts = concat (
    p_varint 1 1
    ∷ p_bytes 2 snapshot_id
    ∷ p_bytes 3 user_id
    ∷ p_string 4 source_device_id
    ∷ p_varint 5 created_at
    ∷ p_string 6 (codes "test-1.0")
    ∷ p_varint 7 counts.contact_count
    ∷ p_varint 8 counts.chat_count
    ∷ p_varint 9 counts.message_count
    ∷ p_varint 10 counts.reaction_count
    ∷ p_varint 11 counts.media_blob_count
    ∷ p_varint 12 counts.media_byte_count
    ∷ p_varint 13 phase
    ∷ [])

unfoldable pub encode_contact : Bytes
encode_contact = concat (
    p_bytes 1 peer_user
    ∷ p_string 2 (codes "alice")
    ∷ p_string 3 (codes "Alice")
    ∷ p_string 4 []
    ∷ p_bytes 5 []
    ∷ p_bool 6 true
    ∷ p_bool 7 false
    ∷ p_bool 8 true
    ∷ p_bool 9 true
    ∷ p_varint 10 created_at
    ∷ p_varint 11 created_at
    ∷ [])

unfoldable pub encode_chat : Bytes
encode_chat = p_bytes 1 peer_user ++ (p_bool 2 true ++ p_bool 3 false)

unfoldable pub encode_text_message : Bytes
encode_text_message =
    let content = p_msg 1 (p_string 1 (codes "hello")) in
    concat (
      p_string 1 msg_id
      ∷ p_bytes 2 peer_user
      ∷ p_bytes 3 user_id
      ∷ p_varint 4 ts_ms
      ∷ p_bool 5 false
      ∷ p_msg 6 content
      ∷ p_varint 14 2
      ∷ [])

unfoldable pub encode_album_message : Bytes
encode_album_message =
    let item = concat (
      p_varint 1 1
      ∷ p_string 2 (codes "https://example.invalid/a")
      ∷ p_bytes 3 (replicate 32 0)
      ∷ p_bytes 4 (replicate 32 0)
      ∷ p_varint 5 4
      ∷ p_string 6 (codes "image/jpeg")
      ∷ p_string 13 (codes "media-1")
      ∷ []) in
    concat (
      p_string 1 (codes "bbbbbbbb-bbbb-4ccc-8ddd-eeeeeeeeeeee")
      ∷ p_bytes 2 peer_user
      ∷ p_bytes 3 user_id
      ∷ p_varint 4 (ts_ms + 1)
      ∷ p_bool 5 false
      ∷ p_msg 15 (p_msg 1 item)
      ∷ [])

-- `lp` of encode_profile_share
unfoldable pub lp : Bytes → Raises Bytes
lp b = do size ← pack_le 2 (length b); ok (size ++ b)

-- The timestamp is not negative, so its signed form is the unsigned one.
unfoldable pub encode_profile_share : Raises Bytes
unfolding lp
encode_profile_share = do
  name ← lp (utf8 (codes "Bob"))
  at ← pack_le 8 created_at
  ok (
      concat (
        p_string 1 (codes "cccccccc-bbbb-4ccc-8ddd-eeeeeeeeeeee")
        ∷ p_bytes 2 peer_user
        ∷ p_bytes 3 user_id
        ∷ p_varint 4 (ts_ms + 2)
        ∷ p_bool 5 false
        ∷ p_bytes 16 (1 ∷ name ++ (replicate 4 0 ++ at))
        ∷ []))

unfoldable pub encode_reaction : Bytes
encode_reaction =
    concat (
      p_string 1 msg_id ∷ p_bytes 2 user_id ∷ p_string 3 (codes "👍") ∷ p_varint 4 (ts_ms + 10) ∷ [])

unfoldable pub encode_peer : List ℕ → Bytes → Bytes
encode_peer device_id_hex identity_key = concat (
    p_bytes 1 peer_user
    ∷ p_string 2 device_id_hex
    ∷ p_bytes 3 identity_key
    ∷ p_varint 4 created_at
    ∷ [])

unfoldable pub encode_call : Bytes
encode_call = concat (
    p_string 1 (codes "call-1")
    ∷ p_bytes 2 peer_user
    ∷ p_bool 3 true
    ∷ p_varint 4 0
    ∷ p_varint 5 created_at
    ∷ p_varint 6 12
    ∷ [])

abbrev pub jpeg : Bytes
jpeg = 0xff ∷ 0xd8 ∷ codes "jpeg"

unfoldable pub encode_media : Bytes
encode_media = p_string 1 (codes "media-1") ++ (p_string 2 (codes "image/jpeg") ++ p_bytes 3 jpeg)

unfoldable pub encode_media_blob_first : Bytes
encode_media_blob_first =
    p_bytes 3 jpeg ++ (p_string 1 (codes "media-1") ++ p_string 2 (codes "image/jpeg"))

-- bytes((i * 31 + 7) % 256 for i in range(...)), from `i` on
unfoldable pub split_from : ℕ → ℕ → Bytes
split_from zero i = []
split_from (suc n) i = (i * 31 + 7) % 256 ∷ split_from n (i + 1)

-- SPLIT_BLOB has 70 000 bytes.
unfoldable pub split_blob : Bytes
split_blob = split_from 70_000 0

unfoldable pub encode_split_media : Bytes
encode_split_media =
    p_string 1 (codes "media-split") ++ (p_string 2 (codes "video/mp4") ++ p_bytes 3 split_blob)
