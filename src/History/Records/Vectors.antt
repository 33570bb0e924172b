-- ===== src/History/Records/Vectors.antt =====
-- gen_history_snapshot_vectors.py, `main`: the record streams of its vectors, with what each vector
-- states of its stream.
use construct_protos.Prelude.{ℕ, List, [], ◌∷◌, String, replicate}
use construct_protos.Prelude.Result.{ok, Raises, ◌>>=◌}
use construct_protos.Bytes.{Bytes, codes}
use construct_protos.History.Stream.{Record}
use construct_protos.History.Records.{
  Counts, encode_manifest, encode_contact, encode_chat, encode_text_message, encode_album_message,
  encode_profile_share, encode_reaction, encode_peer, encode_call, encode_media,
  encode_media_blob_first,
}
use construct_protos.History.Rows.{
  Expect, decode_ok, applied, skipped, hint_dropped_bad_id, envelope_manifest_mismatch,
  record_order, malformed,
}

-- A call of `vec` for a stream, with the records of the stream in place of its hexadecimal.
pub record Vector : Type 0 where
  pub vid : ℕ
  pub expect : Expect
  pub records : List String
  pub phase : ℕ
  pub written : List Record

abbrev vec : ℕ → Expect → List String → ℕ → List Record → Vector
vec v e names p rs = record { vid = v; expect = e; records = names; phase = p; written = rs }

-- The manifests' counts: contacts, chats, messages and media; no other is given.
abbrev pub counts : ℕ → ℕ → ℕ → ℕ → Counts
counts contacts chats messages media = record {
  contact_count = contacts;
  chat_count = chats;
  message_count = messages;
  reaction_count = 0;
  media_blob_count = media;
  media_byte_count = 0;
}

-- The streams, of the texts of the source device and of its identity key, and of the profile share.
abbrev pub vectors_of : List ℕ → Bytes → Bytes → List Vector
vectors_of source_hex identity_pub msg_profile =
    let man1 = encode_manifest 1 source_hex (counts 1 1 1 0) in
    let man2 = encode_manifest 2 source_hex (counts 0 0 0 1) in
    let man3 = encode_manifest 3 source_hex (counts 1 0 1 1) in
    let man0 = encode_manifest 0 source_hex (counts 0 0 0 0) in
    let peer_ok = encode_peer source_hex identity_pub in
    let peer_bad = encode_peer (replicate 32 48) identity_pub in
    vec 1 decode_ok ("manifest" ∷ "end" ∷ []) 1 ((1, man1) ∷ [])
    ∷ vec 2 decode_ok ("manifest" ∷ "end" ∷ []) 2 ((1, man2) ∷ [])
    ∷ vec 3 decode_ok ("manifest" ∷ "end" ∷ []) 3 ((1, man3) ∷ [])
    ∷ vec 4 malformed ("manifest" ∷ "end" ∷ []) 0 ((1, man0) ∷ [])
    ∷ vec 5 decode_ok ("manifest" ∷ "contact" ∷ "chat" ∷ "peer" ∷ "call" ∷ "end" ∷ []) 1
        ((1, man1) ∷ (2, encode_contact) ∷ (3, encode_chat) ∷ (6, peer_ok) ∷ (7, encode_call) ∷ [])
    ∷ vec 6 hint_dropped_bad_id ("manifest" ∷ "peer" ∷ "end" ∷ []) 1
        ((1, man1) ∷ (6, peer_bad) ∷ [])
    ∷ vec 7 decode_ok ("manifest" ∷ "message" ∷ "end" ∷ []) 1
        ((1, man1) ∷ (4, encode_text_message) ∷ [])
    ∷ vec 8 decode_ok ("manifest" ∷ "message" ∷ "end" ∷ []) 1
        ((1, man1) ∷ (4, encode_album_message) ∷ [])
    ∷ vec 9 decode_ok ("manifest" ∷ "message" ∷ "end" ∷ []) 1 ((1, man1) ∷ (4, msg_profile) ∷ [])
    ∷ vec 10 applied ("manifest" ∷ "message" ∷ "reaction" ∷ "end" ∷ []) 1
        ((1, man1) ∷ (4, encode_text_message) ∷ (5, encode_reaction) ∷ [])
    ∷ vec 11 record_order ("manifest" ∷ "reaction" ∷ "message" ∷ "end" ∷ []) 1
        ((1, man1) ∷ (5, encode_reaction) ∷ (4, encode_text_message) ∷ [])
    ∷ vec 12 record_order ("manifest" ∷ "media" ∷ "end" ∷ []) 1 ((1, man1) ∷ (8, encode_media) ∷ [])
    ∷ vec 13 record_order ("manifest" ∷ "message" ∷ "end" ∷ []) 2
        ((1, man2) ∷ (4, encode_text_message) ∷ [])
    ∷ vec 14 envelope_manifest_mismatch ("manifest" ∷ "end" ∷ []) 1 ((1, man1) ∷ [])
    ∷ vec 16 skipped ("manifest" ∷ "unknown" ∷ "end" ∷ []) 1
        ((1, man1) ∷ (9, codes "future-group") ∷ [])
    ∷ vec 25 malformed ("manifest" ∷ "media" ∷ "end" ∷ []) 2
        ((1, man2) ∷ (8, encode_media_blob_first) ∷ [])
    ∷ []

unfoldable pub stream_vectors : List ℕ → Bytes → Raises (List Vector)
stream_vectors source_hex identity_pub = do
  msg_profile ← encode_profile_share
  ok (vectors_of source_hex identity_pub msg_profile)
