-- ===== src/Certificate.antt =====
-- conformance/check_device_certificate.py: the bytes that a device signs when it vouches for another,
-- the certificate that carries the signature, and the tests that `main` makes of the file. SHA-256
-- and HMAC-SHA-256 are parameters; a field of the file is the text of some bytes in hexadecimal.
pub mod Layout
pub mod Fields
pub mod Sound
mod Tests
use construct_protos.Prelude.{
  ℕ, ◌+◌, ◌<◌, List, [], ◌∷◌, ◌++◌, Bool, true, false, ltb, ◌==◌, if◌then◌else◌, take, drop, slice,
  length,
}
use construct_protos.Prelude.Checks.{check, checks}
use construct_protos.Prelude.Result.{ok, err, Raises, index_error, struct_error, ◌>>=◌}
use construct_protos.Bytes.{Bytes, bytes_eq, of_be, pack_be, codes}
use construct_protos.Bytes.Hex.{hex, fromhex}

-- HYBRID_PUBLIC_LEN
abbrev pub hybrid_public_len : ℕ
hybrid_public_len = 32 + 1952

-- SIGNATURE_LEN
abbrev pub signature_len : ℕ
signature_len = 64 + 3309

-- CERT_LEN
abbrev pub cert_len : ℕ
cert_len = 1 + 16 + 8 + hybrid_public_len + signature_len

-- What the file says of one device.
pub record Stated : Type 0 where
  pub identity : List ℕ
  pub verifying : List ℕ
  pub hybrid : List ℕ
  pub hybrid_binding : List ℕ
  pub device_id : List ℕ

-- The dict `k` of one role.
pub record DeviceKeys : Type 0 where
  pub identity : Bytes
  pub verifying : Bytes
  pub hybrid : Bytes
  pub hybrid_binding : Bytes

pub record Vectors : Type 0 where
  pub signer : Stated
  pub subject : Stated
  pub issued_at : ℕ
  pub message_sha256 : List ℕ
  pub certificate : List ℕ
  pub certificate_sha256 : List ℕ
  pub link_secret : List ℕ
  pub link_key_proof : List ℕ

-- The texts of the checks, those on the keys once for each role.
pub data Fault : Type 0 where
  identity_length verifying_length hybrid_length binding_length wrong_device_id : Fault
  wrong_message cert_length wrong_sha256 wrong_version wrong_signer wrong_issued_at : Fault
  wrong_hybrid wrong_signature_length wrong_proof : Fault

unfoldable pub keys_of : Stated → Raises DeviceKeys
keys_of s = do
  identity ← fromhex s.identity
  verifying ← fromhex s.verifying
  hybrid ← fromhex s.hybrid
  binding ← fromhex s.hybrid_binding
  ok (record {
    identity = identity;
    verifying = verifying;
    hybrid = hybrid;
    hybrid_binding = binding;
  })

-- cert[0]
abbrev pub first_byte : Bytes → Raises ℕ
first_byte [] = err index_error
first_byte (b ∷ bs) = ok b

-- struct.unpack(">Q", ...)
unfoldable pub unpack_q : Bytes → Raises ℕ
unpack_q b = if length b == 8 then ok (of_be b) else err struct_error

module _ (sha256 : Bytes → Bytes) where
  unfoldable pub device_id : Bytes → Bytes
  device_id identity = take 16 (sha256 identity)

  unfoldable pub fingerprint : Bytes → Bytes → Bytes
  fingerprint identity hybrid = sha256 (identity ++ hybrid)

  -- The body of the loop over the roles.
  unfoldable pub key_checks : Stated → DeviceKeys → List (Bool × Fault)
  key_checks s k =
      (length k.identity == 32, identity_length)
      ∷ (length k.verifying == 32, verifying_length)
      ∷ (length k.hybrid == hybrid_public_len, hybrid_length)
      ∷ (length k.hybrid_binding == 64, binding_length)
      ∷ (bytes_eq (hex (device_id k.identity)) s.device_id, wrong_device_id)
      ∷ []

  -- What a device signs, with the packed time.
  unfoldable pub message : DeviceKeys → DeviceKeys → Bytes → Bytes
  message signer subject time =
      codes "KonstruktDeviceCert-v1"
      ++ (0 ∷ device_id signer.identity
          ++ (device_id subject.identity
              ++ (subject.identity ++ (subject.verifying ++ (subject.hybrid ++ time)))))

  unfoldable pub cert_checks : Vectors → DeviceKeys → Bytes → ℕ → ℕ → List (Bool × Fault)
  cert_checks v signer cert version issued =
      (length cert == cert_len, cert_length)
      ∷ (bytes_eq (hex (sha256 cert)) v.certificate_sha256, wrong_sha256)
      ∷ (version == 1, wrong_version)
      ∷ (bytes_eq (slice 1 17 cert) (device_id signer.identity), wrong_signer)
      ∷ (issued == v.issued_at, wrong_issued_at)
      ∷ (bytes_eq (slice 25 (25 + hybrid_public_len) cert) signer.hybrid, wrong_hybrid)
      ∷ (length (drop (25 + hybrid_public_len) cert) == signature_len, wrong_signature_length)
      ∷ []

  module _ (hmac_sha256 : Bytes → Bytes → Bytes) where
    unfoldable pub link_proof : Bytes → DeviceKeys → Bytes
    link_proof secret subject =
        hmac_sha256 secret
          (codes "KonstruktLinkProof-v1" ++ (0 ∷ fingerprint subject.identity subject.hybrid))

    -- All that the checks find, in their order.
    unfoldable pub faults :
        Vectors → DeviceKeys → DeviceKeys → Bytes → Bytes → ℕ → ℕ → Bytes → List Fault
    faults v signer subject time cert version issued secret =
        checks (key_checks v.signer signer)
        ++ (checks (key_checks v.subject subject)
            ++ (check (bytes_eq (hex (sha256 (message signer subject time))) v.message_sha256)
                  wrong_message
                ++ (checks (cert_checks v signer cert version issued)
                    ++ check (bytes_eq (hex (link_proof secret subject)) v.link_key_proof)
                        wrong_proof)))

    -- The errors of `main`: the exit code is 0 exactly if there are none.
    unfoldable pub errors : Vectors → Raises (List Fault)
    errors v = do
      signer ← keys_of v.signer
      subject ← keys_of v.subject
      time ← pack_be 8 v.issued_at
      cert ← fromhex v.certificate
      version ← first_byte cert
      issued ← unpack_q (slice 17 25 cert)
      secret ← fromhex v.link_secret
      ok (faults v signer subject time cert version issued secret)
