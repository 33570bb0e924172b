-- ===== src/History/Hello/Signed.antt =====
-- The transcript that the signature of an opening covers, and its fields.
use construct_protos.Prelude.{
  ℕ, ◌<◌, ◌^◌, ◌≡◌, ◌∙◌, refl, sym, ap, [], ◌∷◌, ◌++◌, length, arith, append_split, append_assoc,
}
use construct_protos.Prelude.Result.{ok, ok_injective}
use construct_protos.Bytes.{Bytes, le, of_le}
use construct_protos.Bytes.Struct.{length-le, of_le-le, pack_le_fits, bytes_of_fits}
use construct_protos.History.Hello.{Transcript, opening_body, opening_transcript}

-- The fields have the lengths of their algorithms, and the numbers fit.
pub record IsSized (t : Transcript) : Type 0 where
  pub sender_eph : length t.sender_eph ≡ 32
  pub sender_identity : length t.sender_identity ≡ 32
  pub sender_hybrid : length t.sender_hybrid ≡ 1984
  pub snapshot : length t.snapshot ≡ 16
  pub sender_id : length t.sender_id ≡ 16
  pub receiver_id : length t.receiver_id ≡ 16
  pub kyber_key_id : t.kyber_key_id < 256 ^ 4
  pub kem_ct : length t.kem_ct ≡ 1568
  pub typ : t.typ < 256
  pub payload_len : t.payload_len < 256 ^ 8

abbrev pub written : Transcript → Bytes
written t =
    t.sender_eph ++ (opening_body t (le 4 t.kyber_key_id) ++ ((t.typ ∷ []) ++ le 8 t.payload_len))

pub opening_transcript-written :
    (t : Transcript) → IsSized t → opening_transcript t ≡ ok (written t)
unfolding opening_transcript
opening_transcript-written t h =
    rw
      (
        pack_le_fits 4 t.kyber_key_id h.kyber_key_id,
        bytes_of_fits (t.typ ∷ []) (h.typ, tt),
        pack_le_fits 8 t.payload_len h.payload_len,
      )
      refl

le_injective : (w n n' : ℕ) → n < 256 ^ w → n' < 256 ^ w → le w n ≡ le w n' → n ≡ n'
le_injective w n n' h h' e = sym (of_le-le w n h) ∙ ap of_le e ∙ of_le-le w n' h'

regrouped :
    (t : Transcript)
    → written t
      ≡ t.sender_eph
        ++ (t.sender_identity
            ++ (t.sender_hybrid
                ++ (t.snapshot
                    ++ (t.sender_id
                        ++ (t.receiver_id
                            ++ (le 4 t.kyber_key_id
                                ++ (t.kem_ct ++ ((t.typ ∷ []) ++ le 8 t.payload_len))))))))
unfolding opening_body
regrouped t = simp append_assoc

written_injective : (t u : Transcript) → IsSized t → IsSized u → written t ≡ written u → t ≡ u
written_injective t u h k e =
    let (eph, r₁) =
      append_split 32 _ _ _ _ h.sender_eph k.sender_eph (sym (regrouped t) ∙ e ∙ regrouped u) in
    let (identity, r₂) = append_split 32 _ _ _ _ h.sender_identity k.sender_identity r₁ in
    let (hybrid, r₃) = append_split 1984 _ _ _ _ h.sender_hybrid k.sender_hybrid r₂ in
    let (snapshot, r₄) = append_split 16 _ _ _ _ h.snapshot k.snapshot r₃ in
    let (source, r₅) = append_split 16 _ _ _ _ h.sender_id k.sender_id r₄ in
    let (recipient, r₆) = append_split 16 _ _ _ _ h.receiver_id k.receiver_id r₅ in
    let (kid, r₇) =
      append_split 4 _ _ _ _ (length-le 4 t.kyber_key_id) (length-le 4 u.kyber_key_id) r₆ in
    let (kem, r₈) = append_split 1568 _ _ _ _ h.kem_ct k.kem_ct r₇ in
    let (kind, size) = append_split 1 (t.typ ∷ []) (u.typ ∷ []) _ _ refl refl r₈ in
    let kids = le_injective 4 _ _ h.kyber_key_id k.kyber_key_id kid in
    let sizes = le_injective 8 _ _ h.payload_len k.payload_len size in
    let kinds : t.typ ≡ u.typ = ground arith in ground arith

-- What is signed fixes the opening: two transcripts whose fields have the lengths of their algorithms,
-- a key id of 32 bits, a type of one byte and a payload length of 64 bits, and that are written as the
-- same bytes, are the same in every field.
pub opening_transcript_injective :
    (t u : Transcript) {d : Bytes}
    → IsSized t
    → IsSized u
    → opening_transcript t ≡ ok d
    → opening_transcript u ≡ ok d
    → t ≡ u
opening_transcript_injective t u h k e e' = written_injective t u h k (
    ok_injective (sym (opening_transcript-written t h) ∙ e)
    ∙ sym (ok_injective (sym (opening_transcript-written u k) ∙ e')))
