-- ===== src/History/Hello.antt =====
-- The frames in front of a transfer: `opening_prefix`, `opening_transcript`, `build_opening`,
-- `build_reply`, `build_cthf`, `dashed_user_id` and `discovery` of gen_history_snapshot_vectors.py.
-- The keys are the texts that the helper prints, in hexadecimal; the helper's signature, which
-- `ed_only` selects, and SHA-256 are parameters.
pub mod Sizes
pub mod Layout
pub mod Framing
pub mod Content
pub mod Labels
pub mod Signed
mod Tests
use construct_protos.Prelude.{
  ℕ, ◌+◌, List, [], ◌∷◌, ◌++◌, Bool, true, false, Option, none, some, ◌==◌, if◌then◌else◌, take,
  slice, length, replicate,
}
use construct_protos.Prelude.Result.{ok, err, Raises, assertion_error, ◌>>=◌}
use construct_protos.Bytes.{Bytes, pack_le, bytes_of, codes}
use construct_protos.Bytes.Hex.{hex, fromhex}
use construct_protos.History.Sealed.{snapshot_id, user_id, cthf_header_len}

-- OPENING_LEN
abbrev pub opening_len : ℕ
opening_len = 7055

-- REPLY_LEN
abbrev pub reply_len : ℕ
reply_len = 5421

-- What `load_keys` gives, as far as these functions read it.
pub record Keys : Type 0 where
  pub sender_eph_public : List ℕ
  pub receiver_eph_public : List ℕ
  pub offering_identity_public : List ℕ
  pub receiver_identity_public : List ℕ
  pub hybrid_public : List ℕ
  pub offering_device_id_raw : List ℕ
  pub receiver_device_id_raw : List ℕ
  pub kyber_key_id : ℕ
  pub kem_ct : List ℕ

-- hexed[0:8] - hexed[8:12] - ...
unfoldable pub dashed_user_id : List ℕ
dashed_user_id =
    let hexed = hex user_id in
    slice 0 8 hexed
    ++ (codes "-"
        ++ (slice 8 12 hexed
            ++ (codes "-"
                ++ (slice 12 16 hexed
                    ++ (codes "-" ++ (slice 16 20 hexed ++ (codes "-" ++ slice 20 32 hexed)))))))

-- The texts are ASCII, so their code points are their bytes.
unfoldable pub discovery : (Bytes → Bytes) → List ℕ → List ℕ → List ℕ × List ℕ
discovery sha256 user_dashed device_hex =
    let tag = hex (take 16 (sha256 (codes "cth1:" ++ (user_dashed ++ device_hex)))) in
    (tag, hex (take 16 (sha256 (codes "ctt1_instance:" ++ tag))))

unfoldable pub opening_prefix : Bytes → ℕ → ℕ → Raises Bytes
opening_prefix sender_eph typ payload_len = do
  kind ← bytes_of (typ ∷ [])
  size ← pack_le 8 payload_len
  ok (codes "CTT1" ++ (2 ∷ sender_eph ++ (kind ++ size)))

-- The keyword arguments of `opening_transcript`.
pub record Transcript : Type 0 where
  pub sender_eph : Bytes
  pub sender_identity : Bytes
  pub sender_hybrid : Bytes
  pub snapshot : Bytes
  pub sender_id : Bytes
  pub receiver_id : Bytes
  pub kyber_key_id : ℕ
  pub kem_ct : Bytes
  pub typ : ℕ
  pub payload_len : ℕ

-- The bytes that an opening has in common with its transcript.
unfoldable pub opening_body : Transcript → Bytes → Bytes
opening_body t key_id =
    t.sender_identity
    ++ (t.sender_hybrid ++ (t.snapshot ++ (t.sender_id ++ (t.receiver_id ++ (key_id ++ t.kem_ct)))))

unfoldable pub opening_transcript : Transcript → Raises Bytes
unfolding opening_body
opening_transcript t = do
  key_id ← pack_le 4 t.kyber_key_id
  kind ← bytes_of (t.typ ∷ [])
  size ← pack_le 8 t.payload_len
  ok (t.sender_eph ++ (opening_body t key_id ++ (kind ++ size)))

unfoldable pub or_kem : Option Bytes → List ℕ → Raises Bytes
or_kem none text = fromhex text
or_kem (some kem_ct) text = ok kem_ct

-- assert len(frame) == ...
unfoldable pub of_length : ℕ → Bytes → Raises Bytes
of_length n frame = if length frame == n then ok frame else err assertion_error

abbrev pub chosen_key_id : Option ℕ → ℕ → ℕ
chosen_key_id none current = current
chosen_key_id (some key_id) current = key_id

-- The fields of the header that its signature covers, in the order of both.
unfoldable pub cthf_body : Bytes → Bytes → Bytes → Bytes → Bytes → Bytes → Bytes → Bytes
cthf_body recipient source sender_eph sender_identity sender_hybrid key_id kem_ct =
    user_id
    ++ (recipient
        ++ (source
            ++ (snapshot_id
                ++ (sender_eph ++ (sender_identity ++ (sender_hybrid ++ (key_id ++ kem_ct)))))))

module _ (helper_sign : Bool → Bytes → Bytes) where
  -- The signed frame, behind the reading of the keys.
  unfoldable pub opening_of : Transcript → Bool → Raises Bytes
  unfolding opening_body of_length
  opening_of t ed_only = do
    key_id ← pack_le 4 t.kyber_key_id
    transcript ← opening_transcript t
    prefix ← opening_prefix t.sender_eph t.typ t.payload_len
    of_length opening_len
        (prefix ++ (opening_body t key_id ++ helper_sign ed_only (codes "ctt1v2-s" ++ transcript)))

  unfoldable pub build_opening : Keys → ℕ → Option Bytes → Bool → Raises Bytes
  unfolding opening_of or_kem
  build_opening keys typ kem_ct ed_only = do
    sender_eph ← fromhex keys.sender_eph_public
    sender_identity ← fromhex keys.offering_identity_public
    sender_hybrid ← fromhex keys.hybrid_public
    sender_id ← fromhex keys.offering_device_id_raw
    receiver_id ← fromhex keys.receiver_device_id_raw
    kem ← or_kem kem_ct keys.kem_ct
    opening_of
        (record {
          sender_eph = sender_eph;
          sender_identity = sender_identity;
          sender_hybrid = sender_hybrid;
          snapshot = if typ == 3 then replicate 16 0 else snapshot_id;
          sender_id = sender_id;
          receiver_id = receiver_id;
          kyber_key_id = keys.kyber_key_id;
          kem_ct = kem;
          typ = typ;
          payload_len = 0;
        })
        ed_only

  unfoldable pub build_reply : Keys → Raises Bytes
  unfolding of_length
  build_reply keys = do
    receiver_eph ← fromhex keys.receiver_eph_public
    sender_eph ← fromhex keys.sender_eph_public
    receiver_identity ← fromhex keys.receiver_identity_public
    receiver_hybrid ← fromhex keys.hybrid_public
    sender_id ← fromhex keys.offering_device_id_raw
    receiver_id ← fromhex keys.receiver_device_id_raw
    kem_ct ← fromhex keys.kem_ct
    let tagged =
          codes "ctt1v2-r"
          ++ (receiver_eph
              ++ (sender_eph
                  ++ (receiver_identity
                      ++ (receiver_hybrid
                          ++ (snapshot_id ++ (sender_id ++ (receiver_id ++ kem_ct))))))) in
        of_length reply_len
          (receiver_eph ++ (receiver_identity ++ (receiver_hybrid ++ helper_sign false tagged)))

  unfoldable pub build_cthf : Keys → Option ℕ → Raises Bytes
  unfolding cthf_body of_length
  build_cthf keys kyber_key_id = do
    recipient ← fromhex keys.receiver_device_id_raw
    source ← fromhex keys.offering_device_id_raw
    sender_eph ← fromhex keys.sender_eph_public
    sender_identity ← fromhex keys.offering_identity_public
    sender_hybrid ← fromhex keys.hybrid_public
    kem_ct ← fromhex keys.kem_ct
    key_id ← pack_le 4 (chosen_key_id kyber_key_id keys.kyber_key_id)
    let body = cthf_body recipient source sender_eph sender_identity sender_hybrid key_id kem_ct in
        of_length cthf_header_len
          (codes "CTHF" ++ (1 ∷ body ++ helper_sign false (codes "cthf1" ++ body)))
