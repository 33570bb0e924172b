-- ===== src/History/Hello/Content.antt =====
-- The frames in front of a transfer are bytes, when the signature is.
use construct_protos.Prelude.{
  ℕ, ◌≡◌, refl, subst, List, [], ◌∷◌, ◌++◌, Bool, true, false, Option, none, some, ◌==◌,
  if◌then◌else◌, length, replicate, arith, Bool-cases, inl, inr,
}
use construct_protos.Prelude.Result.{ok, bind_ok, ok_injective, err_ne_ok}
use construct_protos.Bytes.{Bytes, codes, pack_le, bytes_of}
use construct_protos.Bytes.Made.{
  AreBytes, ◌&◌, pack_le-AreBytes, bytes_of-AreBytes, fromhex-AreBytes,
}
use construct_protos.Bytes.Hex.{fromhex}
use construct_protos.History.Sealed.{snapshot_id, user_id, cthf_header_len}
use construct_protos.History.Hello.{
  opening_len, reply_len, Keys, opening_prefix, opening_body, opening_transcript, or_kem, of_length,
  opening_of, build_opening, build_reply, cthf_body, build_cthf, chosen_key_id,
}

of_length-AreBytes : (n : ℕ) {b d : Bytes} → of_length n b ≡ ok d → AreBytes b → AreBytes d
unfolding of_length
of_length-AreBytes n {b} e h = elim (Bool-cases (length b == n)) [
  | inl k ↦ subst AreBytes (ok_injective (rw k at e)) h
  | inr k ↦ absurd (err_ne_ok (rw k at e))
]

or_kem-AreBytes :
    (o : Option Bytes) (t : List ℕ) {d : Bytes}
    → ((k : Bytes) → o ≡ some k → AreBytes k)
    → or_kem o t ≡ ok d
    → AreBytes d
unfolding or_kem
or_kem-AreBytes none t h e = fromhex-AreBytes t e
or_kem-AreBytes (some k) t h e = subst AreBytes (ok_injective e) (h k refl)

snapshot-AreBytes : AreBytes snapshot_id
snapshot-AreBytes = record { all = omega arith }

user-AreBytes : AreBytes user_id
user-AreBytes = record { all = omega arith }

cthf-AreBytes : AreBytes (codes "CTHF" ++ (1 ∷ []))
cthf-AreBytes = record { all = omega arith }

ctt1-AreBytes : AreBytes (codes "CTT1" ++ (2 ∷ []))
ctt1-AreBytes = record { all = omega arith }

opening_snapshot-AreBytes : (b : Bool) → AreBytes (if b then replicate 16 0 else snapshot_id)
opening_snapshot-AreBytes true = record { all = omega arith }
opening_snapshot-AreBytes false = snapshot-AreBytes

module _ (helper_sign : Bool → Bytes → Bytes)
    (sign-AreBytes : (ed : Bool) (m : Bytes) → AreBytes (helper_sign ed m)) where
  pub build_reply-AreBytes :
      (keys : Keys) {d : Bytes} → build_reply helper_sign keys ≡ ok d → AreBytes d
  unfolding build_reply
  build_reply-AreBytes keys e =
      let (receiver_eph, a, e₁) = bind_ok (fromhex keys.receiver_eph_public) _ e in
      let (sender_eph, b, e₂) = bind_ok (fromhex keys.sender_eph_public) _ e₁ in
      let (identity, c, e₃) = bind_ok (fromhex keys.receiver_identity_public) _ e₂ in
      let (hybrid, f, e₄) = bind_ok (fromhex keys.hybrid_public) _ e₃ in
      let (sender_id, g, e₅) = bind_ok (fromhex keys.offering_device_id_raw) _ e₄ in
      let (receiver_id, h, e₆) = bind_ok (fromhex keys.receiver_device_id_raw) _ e₅ in
      let (kem, k, e₇) = bind_ok (fromhex keys.kem_ct) _ e₆ in
      of_length-AreBytes reply_len e₇ (
        fromhex-AreBytes _ a
        & (fromhex-AreBytes _ c & (fromhex-AreBytes _ f & sign-AreBytes false _)))

  pub build_cthf-AreBytes :
      (keys : Keys) (key_id : Option ℕ) {d : Bytes}
      → build_cthf helper_sign keys key_id ≡ ok d
      → AreBytes d
  unfolding build_cthf cthf_body
  build_cthf-AreBytes keys key_id e =
      let (recipient, a, e₁) = bind_ok (fromhex keys.receiver_device_id_raw) _ e in
      let (source, b, e₂) = bind_ok (fromhex keys.offering_device_id_raw) _ e₁ in
      let (eph, c, e₃) = bind_ok (fromhex keys.sender_eph_public) _ e₂ in
      let (identity, f, e₄) = bind_ok (fromhex keys.offering_identity_public) _ e₃ in
      let (hybrid, g, e₅) = bind_ok (fromhex keys.hybrid_public) _ e₄ in
      let (kem, h, e₆) = bind_ok (fromhex keys.kem_ct) _ e₅ in
      let (kid, k, e₇) = bind_ok (pack_le 4 (chosen_key_id key_id keys.kyber_key_id)) _ e₆ in
      let fields =
        user-AreBytes
        & (fromhex-AreBytes _ a
            & (fromhex-AreBytes _ b
                & (snapshot-AreBytes
                    & (fromhex-AreBytes _ c
                        & (fromhex-AreBytes _ f
                            & (fromhex-AreBytes _ g
                                & (pack_le-AreBytes 4 _ k & fromhex-AreBytes _ h))))))) in
      of_length-AreBytes cthf_header_len e₇ (cthf-AreBytes & (fields & sign-AreBytes false _))

  pub build_opening-AreBytes :
      (keys : Keys) (typ : ℕ) (kem_ct : Option Bytes) (ed_only : Bool) {d : Bytes}
      → ((k : Bytes) → kem_ct ≡ some k → AreBytes k)
      → build_opening helper_sign keys typ kem_ct ed_only ≡ ok d
      → AreBytes d
  unfolding build_opening opening_of opening_prefix opening_body
  build_opening-AreBytes keys typ kem_ct ed_only h e =
      let (eph, a, e₁) = bind_ok (fromhex keys.sender_eph_public) _ e in
      let (identity, b, e₂) = bind_ok (fromhex keys.offering_identity_public) _ e₁ in
      let (hybrid, c, e₃) = bind_ok (fromhex keys.hybrid_public) _ e₂ in
      let (source, f, e₄) = bind_ok (fromhex keys.offering_device_id_raw) _ e₃ in
      let (recipient, g, e₅) = bind_ok (fromhex keys.receiver_device_id_raw) _ e₄ in
      let (kem, k, e₆) = bind_ok (or_kem kem_ct keys.kem_ct) _ e₅ in
      let (kid, l, e₇) = bind_ok (pack_le 4 keys.kyber_key_id) _ e₆ in
      let (transcript, m, e₈) = bind_ok (opening_transcript _) _ e₇ in
      let (prefix, n, e₉) = bind_ok (opening_prefix eph typ 0) _ e₈ in
      let (kind, o, n₁) = bind_ok (bytes_of (typ ∷ [])) _ n in
      let (size, p, n₂) = bind_ok (pack_le 8 0) _ n₁ in
      let front = subst AreBytes (ok_injective n₂) (
        ctt1-AreBytes
        & (fromhex-AreBytes _ a & (bytes_of-AreBytes _ o & pack_le-AreBytes 8 0 p))) in
      let fields =
        fromhex-AreBytes _ b
        & (fromhex-AreBytes _ c
            & (opening_snapshot-AreBytes (typ == 3)
                & (fromhex-AreBytes _ f
                    & (fromhex-AreBytes _ g
                        & (pack_le-AreBytes 4 _ l & or_kem-AreBytes kem_ct keys.kem_ct h k))))) in
      of_length-AreBytes opening_len e₉ (front & (fields & sign-AreBytes ed_only _))
