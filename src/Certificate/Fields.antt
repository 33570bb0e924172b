-- ===== src/Certificate/Fields.antt =====
-- The checks on the keys of a role and on the fields of a certificate, and when they all hold.
use construct_protos.Prelude.{
  ℕ, ◌+◌, ◌≡◌, ◌∙◌, ◌↔◌, refl, sym, ap, [], ◌∷◌, drop, slice, length, All, arith, ==_iff, ==_refl,
  length-take, All-slice,
}
use construct_protos.Prelude.Checks.{checks, checks-nil}
use construct_protos.Prelude.Result.{ok}
use construct_protos.Bytes.{Bytes, IsByte, be, of_be}
use construct_protos.Bytes.Struct.{bytes_eq→eq, be-of_be}
use construct_protos.Bytes.Hex.{hex}
use construct_protos.Certificate.{
  hybrid_public_len, signature_len, Stated, DeviceKeys, Vectors, keys_of, device_id, key_checks,
  cert_checks,
}
use construct_protos.Certificate.Layout.{
  certificate_of, IsDevice, bytes_eq_iff, cert_parts, at_id, at_hybrid, at_signature,
  length-certificate_of,
}

module _ (sha256 : Bytes → Bytes) where
  pub key_checks_iff :
      (s : Stated) (k : DeviceKeys)
      → keys_of s ≡ ok k
      → (checks (key_checks sha256 s k) ≡ []) ↔ IsDevice (device_id sha256 k.identity) s k
  unfolding key_checks
  key_checks_iff s k read = (
    λ e.
        let (a, (b, (c, (d, (f, t))))) = (checks-nil _).0 e in
        record {
          stated = read;
          identity = (==_iff _ _).0 a;
          verifying = (==_iff _ _).0 b;
          hybrid = (==_iff _ _).0 c;
          binding = (==_iff _ _).0 d;
          named = bytes_eq→eq _ _ f;
        },
    λ h. (checks-nil _).1 (
      (==_iff _ _).1 h.identity,
      (
        (==_iff _ _).1 h.verifying,
        ((==_iff _ _).1 h.hybrid, ((==_iff _ _).1 h.binding, ((bytes_eq_iff _ _).1 h.named, tt))),
      ),
    ),
  )

  -- The checks of the certificate, with the version and the time that are read out of it.
  module _ (length-sha256 : (m : Bytes) → length (sha256 m) ≡ 32) (v : Vectors)
      (signer : DeviceKeys) (sized : length signer.hybrid ≡ hybrid_public_len) where
    pub length-device_id : length (device_id sha256 signer.identity) ≡ 16
    unfolding device_id
    length-device_id =
        length-take 16 (sha256 signer.identity) ∙ omega (arith, length-sha256 signer.identity)

    pub cert_checks_inv :
        (b : ℕ) (bs : Bytes) (issued : ℕ)
        → All IsByte (b ∷ bs)
        → length (slice 17 25 (b ∷ bs)) ≡ 8
        → of_be (slice 17 25 (b ∷ bs)) ≡ issued
        → checks (cert_checks sha256 v signer (b ∷ bs) b issued) ≡ []
        → (signature : Bytes) × (length signature ≡ signature_len)
          × (b ∷ bs
              ≡ certificate_of
                  (device_id sha256 signer.identity)
                  v.issued_at
                  signer.hybrid
                  signature)
          × (hex (sha256 (b ∷ bs)) ≡ v.certificate_sha256)
    unfolding cert_checks
    cert_checks_inv b bs issued bytes eight read e =
        let (a, (c, (d, (f, (g, (h, (i, t))))))) = (checks-nil _).0 e in
        let time : slice 17 25 (b ∷ bs) ≡ be 8 v.issued_at =
          sym (be-of_be (slice 17 25 (b ∷ bs)) (All-slice IsByte 17 25 (b ∷ bs) bytes))
          ∙ ap (λ n. be n (of_be (slice 17 25 (b ∷ bs)))) eight
          ∙ ap (be 8) (read ∙ (==_iff _ _).0 g) in
        let version : b ≡ 1 = (==_iff b 1).0 d in
        let who : slice 1 17 (b ∷ bs) ≡ device_id sha256 signer.identity = bytes_eq→eq _ _ f in
        let key : slice 25 (25 + hybrid_public_len) (b ∷ bs) ≡ signer.hybrid = bytes_eq→eq _ _ h in
        (
          drop (25 + hybrid_public_len) (b ∷ bs),
          (==_iff _ _).0 i,
          cert_parts b bs ∙ rw (who, time, key, version) refl,
          bytes_eq→eq _ _ c,
        )

    pub cert_checks_ok :
        (signature : Bytes)
        → length signature ≡ signature_len
        → hex (
            sha256 (
              certificate_of
                (device_id sha256 signer.identity)
                v.issued_at
                signer.hybrid
                signature))
          ≡ v.certificate_sha256
        → checks (
            cert_checks sha256 v signer
              (certificate_of
                (device_id sha256 signer.identity)
                v.issued_at
                signer.hybrid
                signature)
              1
              v.issued_at)
          ≡ []
    unfolding cert_checks
    cert_checks_ok signature h digest =
        let id = device_id sha256 signer.identity in
        let n = v.issued_at in
        (checks-nil _).1 (
          (==_iff _ _).1
              (length-certificate_of id signer.hybrid signature n length-device_id sized h),
          (
            (bytes_eq_iff _ _).1 digest,
            (
              refl,
              (
                (bytes_eq_iff _ _).1 (at_id id signer.hybrid signature n length-device_id),
                (
                  ==_refl n,
                  (
                    (bytes_eq_iff _ _).1
                        (at_hybrid id signer.hybrid signature n length-device_id sized),
                    (
                      (==_iff _ _).1 (
                          ap length
                            (at_signature id signer.hybrid signature n length-device_id sized)
                          ∙ h),
                      tt,
                    ),
                  ),
                ),
              ),
            ),
          ),
        )
