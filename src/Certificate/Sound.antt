-- ===== src/Certificate/Sound.antt =====
-- When the script finds nothing wrong with the device certificate: what the file must then say.
use construct_protos.Prelude.{
  ℕ, ◌<◌, ◌^◌, ◌≡◌, ◌∙◌, ◌↔◌, sym, ap, subst, refl, [], ◌∷◌, ◌++◌, take, slice, length,
}
use construct_protos.Prelude.Checks.{checks, check-nil, append-nil_iff}
use construct_protos.Prelude.Result.{ok, bind_ok, ok_injective, err_ne_ok}
use construct_protos.Bytes.{Bytes, be, pack_be, codes}
use construct_protos.Bytes.Struct.{bytes_eq→eq, length-be, of_be-be, pack_be_fits}
use construct_protos.Bytes.Hex.{hex, fromhex, fromhex-IsByte}
use construct_protos.Certificate.{
  signature_len, DeviceKeys, Vectors, keys_of, first_byte, unpack_q, device_id, fingerprint,
  message, link_proof, cert_checks, faults, errors,
}
use construct_protos.Certificate.Layout.{
  certificate_of, IsDevice, bytes_eq_iff, unpack_q_inv, pack_be_inv, at_time,
}
use construct_protos.Certificate.Fields.{
  key_checks_iff, length-device_id, cert_checks_inv, cert_checks_ok,
}

-- What the signer signs: the label and a zero, both device ids, the subject's keys and the time.
abbrev pub signed_text : (Bytes → Bytes) → DeviceKeys → DeviceKeys → ℕ → Bytes
signed_text sha256 signer subject issued_at =
    codes "KonstruktDeviceCert-v1"
    ++ (0 ∷ take 16 (sha256 signer.identity)
        ++ (take 16 (sha256 subject.identity)
            ++ (subject.identity ++ (subject.verifying ++ (subject.hybrid ++ be 8 issued_at)))))

-- What a link is proved by: the label and a zero, and the digest of the subject's two keys.
abbrev pub linked_text : (Bytes → Bytes) → DeviceKeys → Bytes
linked_text sha256 subject =
    codes "KonstruktLinkProof-v1" ++ (0 ∷ sha256 (subject.identity ++ subject.hybrid))

-- What the file says, with the keys, the signature and the secret that it states.
pub record IsCertified (sha256 : Bytes → Bytes) (hmac_sha256 : Bytes → Bytes → Bytes) (v : Vectors)
    (signer subject : DeviceKeys) (signature secret : Bytes) : Type 0 where
  pub signs : IsDevice (device_id sha256 signer.identity) v.signer signer
  pub is_signed : IsDevice (device_id sha256 subject.identity) v.subject subject
  pub time : v.issued_at < 256 ^ 8
  pub digest : hex (sha256 (signed_text sha256 signer subject v.issued_at)) ≡ v.message_sha256
  pub sized : length signature ≡ signature_len
  pub certificate :
      fromhex v.certificate
      ≡ ok (certificate_of (device_id sha256 signer.identity) v.issued_at signer.hybrid signature)
  pub certificate_digest :
      hex (
        sha256
          (certificate_of (device_id sha256 signer.identity) v.issued_at signer.hybrid signature))
      ≡ v.certificate_sha256
  pub secret_read : fromhex v.link_secret ≡ ok secret
  pub proof : hex (hmac_sha256 secret (linked_text sha256 subject)) ≡ v.link_key_proof

message-signed_text :
    (sha256 : Bytes → Bytes) (signer subject : DeviceKeys) (n : ℕ)
    → message sha256 signer subject (be 8 n) ≡ signed_text sha256 signer subject n
unfolding message device_id
message-signed_text sha256 signer subject n = refl

link_proof-linked_text :
    (sha256 : Bytes → Bytes) (hmac_sha256 : Bytes → Bytes → Bytes) (secret : Bytes)
    (subject : DeviceKeys)
    → link_proof sha256 hmac_sha256 secret subject ≡ hmac_sha256 secret (linked_text sha256 subject)
unfolding link_proof fingerprint
link_proof-linked_text sha256 hmac_sha256 secret subject = refl

module _ (sha256 : Bytes → Bytes) (hmac_sha256 : Bytes → Bytes → Bytes) where
  accepted :
      (v : Vectors) (signer subject : DeviceKeys) (signature secret : Bytes)
      → ((m : Bytes) → length (sha256 m) ≡ 32)
      → IsCertified sha256 hmac_sha256 v signer subject signature secret
      → errors sha256 hmac_sha256 v ≡ ok []
  unfolding errors faults unpack_q
  accepted v signer subject signature secret len h =
      let id = device_id sha256 signer.identity in
      let id_len = length-device_id sha256 len v signer h.signs.hybrid in
      let signed =
        ap (λ t. hex (sha256 t)) (message-signed_text sha256 signer subject v.issued_at) in
      let linked = ap hex (link_proof-linked_text sha256 hmac_sha256 secret subject) in
      rw
        (
          h.signs.stated,
          h.is_signed.stated,
          pack_be_fits 8 v.issued_at h.time,
          h.certificate,
          at_time id signer.hybrid signature v.issued_at id_len,
          length-be 8 v.issued_at,
          of_be-be 8 v.issued_at h.time,
          h.secret_read,
        )
        (ap ok (
          (append-nil_iff _ _).1 (
            (key_checks_iff sha256 v.signer signer h.signs.stated).1 h.signs,
            (append-nil_iff _ _).1 (
              (key_checks_iff sha256 v.subject subject h.is_signed.stated).1 h.is_signed,
              (append-nil_iff _ _).1 (
                (check-nil _ _).1 ((bytes_eq_iff _ _).1 (signed ∙ h.digest)),
                (append-nil_iff _ _).1 (
                  cert_checks_ok sha256 len v signer h.signs.hybrid signature h.sized
                      h.certificate_digest,
                  (check-nil _ _).1 ((bytes_eq_iff _ _).1 (linked ∙ h.proof)),
                ),
              ),
            ),
          )))

  faults_inv :
      (v : Vectors) (signer subject : DeviceKeys) (cert : Bytes) (version issued : ℕ)
      (secret : Bytes)
      → ((m : Bytes) → length (sha256 m) ≡ 32)
      → keys_of v.signer ≡ ok signer
      → keys_of v.subject ≡ ok subject
      → v.issued_at < 256 ^ 8
      → fromhex v.certificate ≡ ok cert
      → first_byte cert ≡ ok version
      → unpack_q (slice 17 25 cert) ≡ ok issued
      → fromhex v.link_secret ≡ ok secret
      → faults sha256 hmac_sha256 v signer subject (be 8 v.issued_at) cert version issued secret
        ≡ []
      → (signature : Bytes) × IsCertified sha256 hmac_sha256 v signer subject signature secret
  unfolding faults
  faults_inv v signer subject [] version issued secret len a b c d f g h e = absurd (err_ne_ok f)
  faults_inv v signer subject (x ∷ xs) version issued secret len a b c d f g h e =
      let signed =
        ap (λ t. hex (sha256 t)) (message-signed_text sha256 signer subject v.issued_at) in
      let linked = ap hex (link_proof-linked_text sha256 hmac_sha256 secret subject) in
      let (first, e₁) = (append-nil_iff _ _).0 e in
      let (second, e₂) = (append-nil_iff _ _).0 e₁ in
      let (third, e₃) = (append-nil_iff _ _).0 e₂ in
      let (fourth, fifth) = (append-nil_iff _ _).0 e₃ in
      let signs = (key_checks_iff sha256 v.signer signer a).0 first in
      let (eight, read) = unpack_q_inv (slice 17 25 (x ∷ xs)) g in
      let (signature, sized, layout, digest) =
        cert_checks_inv sha256 len v signer signs.hybrid x xs issued
          (fromhex-IsByte v.certificate d) eight read
          (subst (λ n. checks (cert_checks sha256 v signer (x ∷ xs) n issued) ≡ [])
            (sym (ok_injective f)) fourth) in
      (
        signature,
        record {
          signs = signs;
          is_signed = (key_checks_iff sha256 v.subject subject b).0 second;
          time = c;
          digest = sym signed ∙ bytes_eq→eq _ _ ((check-nil _ _).0 third);
          sized = sized;
          certificate = d ∙ ap ok layout;
          certificate_digest = ap (λ t. hex (sha256 t)) (sym layout) ∙ digest;
          secret_read = h;
          proof = sym linked ∙ bytes_eq→eq _ _ ((check-nil _ _).0 fifth);
        },
      )

  inverted :
      (v : Vectors)
      → ((m : Bytes) → length (sha256 m) ≡ 32)
      → errors sha256 hmac_sha256 v ≡ ok []
      → (signer : DeviceKeys) × (subject : DeviceKeys) × (signature : Bytes) × (secret : Bytes)
        × IsCertified sha256 hmac_sha256 v signer subject signature secret
  unfolding errors
  inverted v len e =
      let (signer, a, e₁) = bind_ok (keys_of v.signer) _ e in
      let (subject, b, e₂) = bind_ok (keys_of v.subject) _ e₁ in
      let (time, c, e₃) = bind_ok (pack_be 8 v.issued_at) _ e₂ in
      let (cert, d, e₄) = bind_ok (fromhex v.certificate) _ e₃ in
      let (version, f, e₅) = bind_ok (first_byte cert) _ e₄ in
      let (issued, g, e₆) = bind_ok (unpack_q (slice 17 25 cert)) _ e₅ in
      let (secret, h, e₇) = bind_ok (fromhex v.link_secret) _ e₆ in
      let (small, packed) = pack_be_inv 8 v.issued_at c in
      let (signature, good) =
        faults_inv v signer subject cert version issued secret len a b small d f g h (
          subst (λ t. faults sha256 hmac_sha256 v signer subject t cert version issued secret ≡ [])
            (sym packed) (ok_injective e₇)) in
      (signer, subject, signature, secret, good)

  -- With a digest of 32 bytes, the script finds nothing wrong exactly if the file states keys of their
  -- lengths with the device ids that follow from them, a time of 64 bits, a certificate that is the
  -- version, the signer's id, the time, the signer's hybrid key and a signature of 3373 bytes, the
  -- digests of the certificate and of the message that is signed, and the proof of the link secret.
  pub errors-nil_iff_IsCertified :
      (v : Vectors)
      → ((m : Bytes) → length (sha256 m) ≡ 32)
      → (errors sha256 hmac_sha256 v ≡ ok []) ↔ (
          (signer : DeviceKeys) × (subject : DeviceKeys) × (signature : Bytes) × (secret : Bytes)
          × IsCertified sha256 hmac_sha256 v signer subject signature secret)
  errors-nil_iff_IsCertified v len = (
    inverted v len,
    λ (signer, subject, signature, secret, good).
        accepted v signer subject signature secret len good,
  )
