-- ===== src/History/Records/Sized.antt =====
-- The payloads that the generator makes are bytes, and far below the cap.
use construct_protos.Prelude.{
  ℕ, zero, suc, ◌+◌, ◌≤◌, ◌<◌, ◌≡◌, refl, ap, List, [], ◌∷◌, ◌++◌, true, All, arith, length,
  length-append,
}
use construct_protos.Prelude.Result.{ok}
use construct_protos.Bytes.{Bytes, codes, pack_le}
use construct_protos.Proto.{p_bytes, p_string, p_varint, p_bool, p_msg, key, varint, utf8}
use construct_protos.Proto.Payload.{
  IsPayload, IsText, nothing-IsPayload, append-IsPayload, weaker, p_bytes-IsPayload,
  p_varint-IsPayload, p_string-IsPayload, concat-IsPayload, is_payload, is_payload-IsPayload,
}
use construct_protos.History.Sealed.{snapshot_id, user_id}
use construct_protos.History.Records.{
  Counts, encode_manifest, encode_contact, encode_chat, encode_text_message, encode_album_message,
  encode_profile_share, encode_reaction, encode_peer, encode_call, encode_media,
  encode_media_blob_first, split_from, split_blob, encode_split_media, created_at, peer_user,
}

abbrev pub limit : ℕ
limit = 4096

-- The payloads that have no argument.
known :
    All
      (λ b. is_payload limit b ≡ true)
      (encode_contact
        ∷ encode_chat
        ∷ encode_text_message
        ∷ encode_album_message
        ∷ encode_reaction
        ∷ encode_call
        ∷ encode_media
        ∷ encode_media_blob_first
        ∷ codes "future-group"
        ∷ [])
unfolding is_payload encode_contact encode_chat encode_text_message encode_album_message
    encode_reaction encode_call encode_media encode_media_blob_first p_bytes key varint p_string
    utf8 p_bool p_varint p_msg
known = (refl, (refl, (refl, (refl, (refl, (refl, (refl, (refl, (refl, tt)))))))))

pub contact-IsPayload : IsPayload limit encode_contact
contact-IsPayload = is_payload-IsPayload limit encode_contact known.0

pub chat-IsPayload : IsPayload limit encode_chat
chat-IsPayload = is_payload-IsPayload limit encode_chat known.1.0

pub text_message-IsPayload : IsPayload limit encode_text_message
text_message-IsPayload = is_payload-IsPayload limit encode_text_message known.1.1.0

pub album_message-IsPayload : IsPayload limit encode_album_message
album_message-IsPayload = is_payload-IsPayload limit encode_album_message known.1.1.1.0

pub reaction-IsPayload : IsPayload limit encode_reaction
reaction-IsPayload = is_payload-IsPayload limit encode_reaction known.1.1.1.1.0

pub call-IsPayload : IsPayload limit encode_call
call-IsPayload = is_payload-IsPayload limit encode_call known.1.1.1.1.1.0

pub media-IsPayload : IsPayload limit encode_media
media-IsPayload = is_payload-IsPayload limit encode_media known.1.1.1.1.1.1.0

pub blob_first-IsPayload : IsPayload limit encode_media_blob_first
blob_first-IsPayload = is_payload-IsPayload limit encode_media_blob_first known.1.1.1.1.1.1.1.0

pub future-IsPayload : IsPayload limit (codes "future-group")
future-IsPayload = is_payload-IsPayload limit (codes "future-group") known.1.1.1.1.1.1.1.1.0

pub profile_share-IsPayload : (p : Bytes) × (encode_profile_share ≡ ok p) × IsPayload limit p
unfolding encode_profile_share is_payload p_bytes key varint p_string utf8 p_bool p_varint pack_le
profile_share-IsPayload = (_, refl, is_payload-IsPayload limit _ refl)

-- A text of 32 characters, as a device id is.
abbrev pub IsDeviceText : List ℕ → Type 0
IsDeviceText t = IsText t × (length t ≡ 32)

device-IsPayload : (f : ℕ) (t : List ℕ) → IsDeviceText t → IsPayload 200 (p_string f t)
device-IsPayload f t h = weaker 200 (omega (arith, h.1)) (p_string-IsPayload f t h.0)

number-IsPayload : (f v : ℕ) → IsPayload 200 (p_varint f v)
number-IsPayload f v = weaker 200 (omega arith) (p_varint-IsPayload f v)

pub manifest-IsPayload :
    (phase : ℕ) (t : List ℕ) (c : Counts)
    → IsDeviceText t
    → IsPayload limit (encode_manifest phase t c)
unfolding encode_manifest is_payload p_bytes key varint p_string utf8
manifest-IsPayload phase t c h = weaker limit (omega arith) (
    concat-IsPayload 200
      (p_varint 1 1
        ∷ p_bytes 2 snapshot_id
        ∷ p_bytes 3 user_id
        ∷ p_string 4 t
        ∷ p_varint 5 created_at
        ∷ p_string 6 (codes "test-1.0")
        ∷ p_varint 7 c.contact_count
        ∷ p_varint 8 c.chat_count
        ∷ p_varint 9 c.message_count
        ∷ p_varint 10 c.reaction_count
        ∷ p_varint 11 c.media_blob_count
        ∷ p_varint 12 c.media_byte_count
        ∷ p_varint 13 phase
        ∷ [])
      (
        number-IsPayload 1 1,
        (
          is_payload-IsPayload 200 _ refl,
          (
            is_payload-IsPayload 200 _ refl,
            (
              device-IsPayload 4 t h,
              (
                number-IsPayload 5 _,
                (
                  is_payload-IsPayload 200 _ refl,
                  (
                    number-IsPayload 7 _,
                    (
                      number-IsPayload 8 _,
                      (
                        number-IsPayload 9 _,
                        (
                          number-IsPayload 10 _,
                          (
                            number-IsPayload 11 _,
                            (number-IsPayload 12 _, (number-IsPayload 13 _, tt)),
                          ),
                        ),
                      ),
                    ),
                  ),
                ),
              ),
            ),
          ),
        ),
      ))

pub peer-IsPayload :
    (t : List ℕ) (identity : Bytes)
    → IsDeviceText t
    → IsPayload 32 identity
    → IsPayload limit (encode_peer t identity)
unfolding encode_peer is_payload p_bytes key varint
peer-IsPayload t identity h k = weaker limit (omega arith) (
    concat-IsPayload 200
      (p_bytes 1 peer_user ∷ p_string 2 t ∷ p_bytes 3 identity ∷ p_varint 4 created_at ∷ [])
      (
        is_payload-IsPayload 200 _ refl,
        (
          device-IsPayload 2 t h,
          (weaker 200 (omega arith) (p_bytes-IsPayload 3 k), (number-IsPayload 4 _, tt)),
        ),
      ))

split_from-IsPayload : (n i : ℕ) → IsPayload n (split_from n i) × (length (split_from n i) ≡ n)
unfolding split_from
split_from-IsPayload zero i = (nothing-IsPayload, refl)
split_from-IsPayload (suc n) i =
    let (h, l) = split_from-IsPayload n (i + 1) in
    (
      record {
        bytes = record { all = (omega arith, h.bytes.all) };
        short = omega (arith, h.short);
      },
      ap suc l,
    )

p_bytes_long : (f : ℕ) (b : Bytes) → length b ≤ length (p_bytes f b)
unfolding p_bytes
p_bytes_long f b =
    omega
      (arith, length-append (key f 2) (varint (length b) ++ b), length-append (varint (length b)) b)

-- The blob that crosses a chunk makes its payload longer than a chunk.
pub split_media-IsPayload :
    IsPayload 80_000 encode_split_media × (65_536 < length encode_split_media)
unfolding encode_split_media split_blob
split_media-IsPayload =
    let (h, l) = split_from-IsPayload 70_000 0 in
    let id = p_string 1 (codes "media-split") in
    let kind = p_string 2 (codes "video/mp4") in
    let blob = p_bytes 3 (split_from 70_000 0) in
    (
      weaker 80_000 (omega arith) (
          append-IsPayload (p_string-IsPayload 1 (codes "media-split") (omega arith)) (
            append-IsPayload (p_string-IsPayload 2 (codes "video/mp4") (omega arith))
              (p_bytes-IsPayload 3 h))),
      omega (
        arith,
        length-append id (kind ++ blob),
        length-append kind blob,
        p_bytes_long 3 (split_from 70_000 0),
        l,
      ),
    )
