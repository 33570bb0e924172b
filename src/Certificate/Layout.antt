-- ===== src/Certificate/Layout.antt =====
-- The layout of a device certificate, and what a successful read of a packed field says.
use construct_protos.Prelude.{
  ℕ, ◌+◌, ◌<◌, ◌^◌, ◌≡◌, ◌∙◌, refl, sym, ap, [], ◌∷◌, ◌++◌, ltb, ◌==◌, take, drop, slice, length,
  arith, Bool-cases, inl, inr, ==_iff, ltb→lt, take_prefix, drop_prefix, drop-drop, length-append,
  drop-slice,
}
use construct_protos.Prelude.Result.{ok, ok_injective, err_ne_ok}
use construct_protos.Bytes.{Bytes, be, of_be, pack_be}
pub use construct_protos.Bytes.Struct.{bytes_eq_iff}
use construct_protos.Bytes.Struct.{length-be}
use construct_protos.Bytes.Hex.{hex}
use construct_protos.Certificate.{
  hybrid_public_len, signature_len, cert_len, Stated, DeviceKeys, keys_of, first_byte, unpack_q,
}

-- A certificate: the version, the signer's id, the time, the signer's hybrid key, the signature.
abbrev pub certificate_of : Bytes → ℕ → Bytes → Bytes → Bytes
certificate_of id issued hybrid signature = 1 ∷ id ++ (be 8 issued ++ (hybrid ++ signature))

-- The keys of one role, as the file states them.
pub record IsDevice (id : Bytes) (s : Stated) (k : DeviceKeys) : Type 0 where
  pub stated : keys_of s ≡ ok k
  pub identity : length k.identity ≡ 32
  pub verifying : length k.verifying ≡ 32
  pub hybrid : length k.hybrid ≡ hybrid_public_len
  pub binding : length k.hybrid_binding ≡ 64
  pub named : hex id ≡ s.device_id

pub unpack_q_inv : (b : Bytes) {n : ℕ} → unpack_q b ≡ ok n → (length b ≡ 8) × (of_be b ≡ n)
unfolding unpack_q
unpack_q_inv b e = elim (Bool-cases (length b == 8)) [
  | inl k ↦ ((==_iff (length b) 8).0 k, ok_injective (rw k at e))
  | inr k ↦ absurd (err_ne_ok (rw k at e))
]

pub pack_be_inv : (w n : ℕ) {b : Bytes} → pack_be w n ≡ ok b → (n < 256 ^ w) × (be w n ≡ b)
unfolding pack_be
pack_be_inv w n e = elim (Bool-cases (ltb n (256 ^ w))) [
  | inl k ↦ (ltb→lt n (256 ^ w) k, ok_injective (rw k at e))
  | inr k ↦ absurd (err_ne_ok (rw k at e))
]

pub first_byte_inv : (d : Bytes) {b : ℕ} → first_byte d ≡ ok b → (bs : Bytes) × (d ≡ b ∷ bs)
first_byte_inv [] e = absurd (err_ne_ok e)
first_byte_inv (c ∷ bs) e = (bs, ap (λ x. x ∷ bs) (ok_injective e))

pub cert_parts :
    (b : ℕ) (bs : Bytes)
    → b ∷ bs
      ≡ b ∷ slice 1 17 (b ∷ bs)
        ++ (slice 17 25 (b ∷ bs)
            ++ (slice 25 (25 + hybrid_public_len) (b ∷ bs)
                ++ drop (25 + hybrid_public_len) (b ∷ bs)))
cert_parts b bs =
    let cert : Bytes = b ∷ bs in
    rw
      (
        ← drop-slice 25 (25 + hybrid_public_len) cert (omega arith),
        ← drop-slice 17 25 cert (omega arith),
        ← drop-slice 1 17 cert (omega arith),
      )
      refl

-- The fields of a certificate stand where the checks look for them.
module _ (id hybrid signature : Bytes) (issued : ℕ) (sized : length id ≡ 16) where
  pub at_id : slice 1 17 (certificate_of id issued hybrid signature) ≡ id
  at_id = take_prefix 16 id (be 8 issued ++ (hybrid ++ signature)) sized

  behind_id :
      drop 17 (certificate_of id issued hybrid signature) ≡ be 8 issued ++ (hybrid ++ signature)
  behind_id = drop_prefix 16 id (be 8 issued ++ (hybrid ++ signature)) sized

  pub at_time : slice 17 25 (certificate_of id issued hybrid signature) ≡ be 8 issued
  at_time =
      ap (take 8) behind_id ∙ take_prefix 8 (be 8 issued) (hybrid ++ signature) (length-be 8 issued)

  behind_time : drop 25 (certificate_of id issued hybrid signature) ≡ hybrid ++ signature
  behind_time =
      sym (drop-drop 17 8 (certificate_of id issued hybrid signature))
      ∙ ap (drop 8) behind_id
      ∙ drop_prefix 8 (be 8 issued) (hybrid ++ signature) (length-be 8 issued)

  pub at_hybrid :
      length hybrid ≡ hybrid_public_len
      → slice 25 (25 + hybrid_public_len) (certificate_of id issued hybrid signature) ≡ hybrid
  at_hybrid h =
      ap (take hybrid_public_len) behind_time ∙ take_prefix hybrid_public_len hybrid signature h

  pub at_signature :
      length hybrid ≡ hybrid_public_len
      → drop (25 + hybrid_public_len) (certificate_of id issued hybrid signature) ≡ signature
  at_signature h =
      sym (drop-drop 25 hybrid_public_len (certificate_of id issued hybrid signature))
      ∙ ap (drop hybrid_public_len) behind_time
      ∙ drop_prefix hybrid_public_len hybrid signature h

  pub length-certificate_of :
      length hybrid ≡ hybrid_public_len
      → length signature ≡ signature_len
      → length (certificate_of id issued hybrid signature) ≡ cert_len
  length-certificate_of h k = simp (length-append, length-be, sized, h, k) refl
