-- ===== src/History/Hello/Framing.antt =====
-- The reply to an opening and the header of a file, for keys of the lengths that the algorithms have.
use construct_protos.Prelude.{
  ℕ, ◌^◌, ◌<◌, ◌≡◌, ◌∙◌, refl, ap, [], ◌∷◌, ◌++◌, Bool, false, Option, take, drop, slice, length,
  arith, append_assoc, length-append, take_prefix, drop_prefix,
}
use construct_protos.Prelude.Result.{ok}
use construct_protos.Bytes.{Bytes, le, codes}
use construct_protos.Bytes.Struct.{length-le, pack_le_fits}
use construct_protos.Bytes.Hex.{fromhex-hex}
use construct_protos.History.Sealed.{snapshot_id, cthf_header_len}
use construct_protos.History.Hello.{
  reply_len, build_reply, cthf_body, build_cthf, chosen_key_id, of_length,
}
use construct_protos.History.Hello.Sizes.{KeyBytes, AreSized, texts, of_length_ok, field_at}

-- What the signature of a reply covers.
abbrev pub reply_message : KeyBytes → Bytes
reply_message k =
    codes "ctt1v2-r"
    ++ (k.receiver_eph
        ++ (k.sender_eph
            ++ (k.receiver_identity
                ++ (k.hybrid
                    ++ (snapshot_id
                        ++ (k.offering_device_id ++ (k.receiver_device_id ++ k.kem_ct)))))))

-- The fields of a file header that its signature covers.
abbrev pub header_body : KeyBytes → Option ℕ → Bytes
header_body k key_id =
    cthf_body k.receiver_device_id k.offering_device_id k.sender_eph k.offering_identity k.hybrid
      (le 4 (chosen_key_id key_id k.kyber_key_id)) k.kem_ct

abbrev pub header_message : KeyBytes → Option ℕ → Bytes
header_message k key_id = codes "cthf1" ++ header_body k key_id

length-header_body :
    (k : KeyBytes) (key_id : Option ℕ) → AreSized k → length (header_body k key_id) ≡ 3684
unfolding cthf_body
length-header_body k key_id
      ((be, he), (br, hr), (bi, hi), (bq, hq), (bh, hh), (ba, ha), (bb, hb), hk, (bc, hc)) =
    simp (length-append, ha, hb, he, hi, hh, length-le, hc) (omega arith)

-- The keys at the front of a reply.
abbrev pub reply_front : KeyBytes → Bytes
reply_front k = k.receiver_eph ++ (k.receiver_identity ++ k.hybrid)

length-reply_front : (k : KeyBytes) → AreSized k → length (reply_front k) ≡ 2048
length-reply_front k
      ((be, he), (br, hr), (bi, hi), (bq, hq), (bh, hh), (ba, ha), (bb, hb), hk, (bc, hc)) =
    simp (length-append, hr, hq, hh) (omega arith)

module _ (helper_sign : Bool → Bytes → Bytes)
    (length-sign : (ed : Bool) (m : Bytes) → length (helper_sign ed m) ≡ 3373) where
  abbrev reply_frame : KeyBytes → Bytes
  reply_frame k = reply_front k ++ helper_sign false (reply_message k)

  length-reply_frame : (k : KeyBytes) → AreSized k → length (reply_frame k) ≡ reply_len
  length-reply_frame k h = omega (
    arith,
    length-append {0} (reply_front k) (helper_sign false (reply_message k)),
    length-reply_front k h,
    length-sign false (reply_message k),
  )

  build_reply_lem :
      (k : KeyBytes) → AreSized k → build_reply helper_sign (texts k) ≡ ok (reply_frame k)
  unfolding build_reply
  build_reply_lem k h =
      let ((be, he), (br, hr), (bi, hi), (bq, hq), (bh, hh), (ba, ha), (bb, hb), hk, (bc, hc)) =
        h in
      let sig = helper_sign false (reply_message k) in
      let grouped : k.receiver_eph ++ (k.receiver_identity ++ (k.hybrid ++ sig)) ≡ reply_frame k =
        simp append_assoc in
      rw
        (
          fromhex-hex k.sender_eph be,
          fromhex-hex k.receiver_eph br,
          fromhex-hex k.receiver_identity bq,
          fromhex-hex k.hybrid bh,
          fromhex-hex k.offering_device_id ba,
          fromhex-hex k.receiver_device_id bb,
          fromhex-hex k.kem_ct bc,
        )
        (ap (of_length reply_len) grouped
          ∙ of_length_ok reply_len (reply_frame k) (length-reply_frame k h))

  -- A reply of keys of the lengths of their algorithms is made, it has the 5421 bytes that the checker
  -- reads, the receiver's ephemeral, identity and hybrid keys stand at its front in this order, and the
  -- signature of its message behind them.
  pub build_reply_accepted :
      (k : KeyBytes)
      → AreSized k
      → (frame : Bytes) × (build_reply helper_sign (texts k) ≡ ok frame)
        × (length frame ≡ reply_len)
        × (take 2048 frame ≡ reply_front k)
        × (drop 2048 frame ≡ helper_sign false (reply_message k))
  build_reply_accepted k h =
      let sig = helper_sign false (reply_message k) in
      (
        reply_frame k,
        build_reply_lem k h,
        length-reply_frame k h,
        take_prefix 2048 (reply_front k) sig (length-reply_front k h),
        drop_prefix 2048 (reply_front k) sig (length-reply_front k h),
      )

  abbrev header_frame : KeyBytes → Option ℕ → Bytes
  header_frame k key_id =
      codes "CTHF" ++ (1 ∷ header_body k key_id ++ helper_sign false (header_message k key_id))

  length-header_frame :
      (k : KeyBytes) (key_id : Option ℕ)
      → AreSized k
      → length (header_frame k key_id) ≡ cthf_header_len
  length-header_frame k key_id h = omega (
    arith,
    length-append {0} (header_body k key_id) (helper_sign false (header_message k key_id)),
    length-header_body k key_id h,
    length-sign false (header_message k key_id),
  )

  build_cthf_lem :
      (k : KeyBytes) (key_id : Option ℕ)
      → AreSized k
      → chosen_key_id key_id k.kyber_key_id < 256 ^ 4
      → build_cthf helper_sign (texts k) key_id ≡ ok (header_frame k key_id)
  unfolding build_cthf
  build_cthf_lem k key_id h small =
      let ((be, he), (br, hr), (bi, hi), (bq, hq), (bh, hh), (ba, ha), (bb, hb), hk, (bc, hc)) =
        h in
      rw
        (
          fromhex-hex k.sender_eph be,
          fromhex-hex k.offering_identity bi,
          fromhex-hex k.hybrid bh,
          fromhex-hex k.offering_device_id ba,
          fromhex-hex k.receiver_device_id bb,
          fromhex-hex k.kem_ct bc,
          pack_le_fits 4 (chosen_key_id key_id k.kyber_key_id) small,
        )
        (of_length_ok cthf_header_len (header_frame k key_id) (length-header_frame k key_id h))

  -- A file header of keys of the lengths of their algorithms, with the key id of the keys or another of
  -- 32 bits, is made; it has the 7062 bytes and the first five bytes that the checker reads, and
  -- behind them stand the fields that its signature covers, and the signature.
  pub build_cthf_accepted :
      (k : KeyBytes) (key_id : Option ℕ)
      → AreSized k
      → chosen_key_id key_id k.kyber_key_id < 256 ^ 4
      → (header : Bytes) × (build_cthf helper_sign (texts k) key_id ≡ ok header)
        × (length header ≡ cthf_header_len)
        × (take 5 header ≡ codes "CTHF" ++ (1 ∷ []))
        × (slice 5 3689 header ≡ header_body k key_id)
        × (drop 3689 header ≡ helper_sign false (header_message k key_id))
  build_cthf_accepted k key_id h small =
      let body = header_body k key_id in
      let sig = helper_sign false (header_message k key_id) in
      (
        header_frame k key_id,
        build_cthf_lem k key_id h small,
        length-header_frame k key_id h,
        refl,
        field_at 5 3684 (codes "CTHF" ++ (1 ∷ [])) body sig refl (length-header_body k key_id h),
        drop_prefix 3684 body sig (length-header_body k key_id h),
      )
