-- ===== src/History/Rows/Frames.antt =====
-- The checker on the replies and the file headers that the generator writes.
use construct_protos.Prelude.{
  ℕ, ◌<◌, ◌^◌, ◌≡◌, refl, ◌⊎◌, inl, inr, [], ◌∷◌, ◌++◌, Bool, true, Option, length, take,
}
use construct_protos.Prelude.Result.{ok}
use construct_protos.Bytes.{Bytes, codes}
use construct_protos.History.Sealed.{cthf_header_len}
use construct_protos.History.Hello.{build_reply, build_cthf, chosen_key_id}
use construct_protos.History.Hello.Sizes.{KeyBytes, AreSized, texts}
use construct_protos.History.Hello.Framing.{build_reply_accepted, build_cthf_accepted}
use construct_protos.History.Rows.{kem_key_id_mismatch, Row}
use construct_protos.History.Rows.Kinds.{check_reply, check_cthf}

-- What an id asks of the row of a header: V24 expects the mismatch, V23 has two fields more.
abbrev pub AskedOfHeader : Row → Type 0
AskedOfHeader row =
    (row.vid ≡ 24) × (row.expect ≡ kem_key_id_mismatch)
    ⊎ (row.vid ≡ 23) × (row.has_chunk0_combined ≡ true) × (row.has_file_channel_key ≡ true)

no_complaint :
    (row : Row) (d : Bytes)
    → length d ≡ cthf_header_len
    → take 5 d ≡ codes "CTHF" ++ (1 ∷ [])
    → AskedOfHeader row
    → check_cthf row d ≡ []
unfolding check_cthf
no_complaint row d long front (inl (v, e)) = rw (long, front, v, e) refl
no_complaint row d long front (inr (v, a, b)) = rw (long, front, v, a, b) refl

-- The reply of V20 and the headers of V23 and V24, of keys of the lengths of their algorithms, a key
-- id of 32 bits and signatures of 3373 bytes, are made, and the checker's branches for replies and
-- for headers find nothing wrong, the row of the header having what its id asks for.
pub frames_accepted :
    (helper_sign : Bool → Bytes → Bytes) (k : KeyBytes) (row : Row) (key_id : Option ℕ)
    → ((ed : Bool) (m : Bytes) → length (helper_sign ed m) ≡ 3373)
    → AreSized k
    → chosen_key_id key_id k.kyber_key_id < 256 ^ 4
    → AskedOfHeader row
    → (reply : Bytes) × (header : Bytes) × (build_reply helper_sign (texts k) ≡ ok reply)
      × (check_reply reply ≡ [])
      × (build_cthf helper_sign (texts k) key_id ≡ ok header)
      × (check_cthf row header ≡ [])
unfolding check_reply
frames_accepted helper_sign k row key_id size sized small asked =
    let (reply, made, long, front, sig) = build_reply_accepted helper_sign size k sized in
    let (header, made', long', front', body, sig') =
      build_cthf_accepted helper_sign size k key_id sized small in
    (reply, header, made, rw long refl, made', no_complaint row header long' front' asked)
