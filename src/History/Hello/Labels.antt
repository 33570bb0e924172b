-- ===== src/History/Hello/Labels.antt =====
-- The messages that the signatures of an opening, a reply and a file header cover, side by side.
use construct_protos.Prelude.{
  ℕ, ◌^◌, ◌<◌, ◌≡◌, ◌≢◌, ap, Bool, false, Option, drop, length, arith, get_or,
}
use construct_protos.Prelude.Result.{ok}
use construct_protos.Bytes.{Bytes}
use construct_protos.History.Hello.{build_opening, build_reply, build_cthf, chosen_key_id}
use construct_protos.History.Hello.Sizes.{KeyBytes, AreSized, texts}
use construct_protos.History.Hello.Layout.{chosen_kem, opening_message, build_opening_accepted}
use construct_protos.History.Hello.Framing.{
  reply_message, header_message, build_reply_accepted, build_cthf_accepted,
}

-- Bytes that differ at one place.
ne_at : (i : ℕ) {a b : Bytes} → get_or a i 0 ≢ get_or b i 0 → a ≢ b
ne_at i h e = h (ap (λ t. get_or t i 0) e)

-- The messages of any three frames, each of keys of its own.
labels_differ :
    (k k' k'' : KeyBytes) (typ : ℕ) (kem : Option Bytes) (key_id : Option ℕ)
    → (opening_message k typ kem ≢ reply_message k')
      × (opening_message k typ kem ≢ header_message k'' key_id)
      × (reply_message k' ≢ header_message k'' key_id)
labels_differ k k' k'' typ kem key_id =
    (ne_at 7 (omega arith), ne_at 2 (omega arith), ne_at 2 (omega arith))

module _ (helper_sign : Bool → Bytes → Bytes)
    (length-sign : (ed : Bool) (m : Bytes) → length (helper_sign ed m) ≡ 3373) where
  -- An opening, a reply and a file header, each of any keys of the lengths of their algorithms, of a
  -- type of one byte, a ciphertext of 1568 bytes and a key id of 32 bits, with signatures of 3373
  -- bytes: the three frames are made, each ends in the signature of its message, at offset 3682, 2048
  -- and 3689, and no two of the three messages are equal.
  pub frames_signed_apart :
      (k k' k'' : KeyBytes) (typ : ℕ) (kem : Option Bytes) (ed_only : Bool) (key_id : Option ℕ)
      → AreSized k
      → AreSized k'
      → AreSized k''
      → typ < 256
      → length (chosen_kem kem k.kem_ct) ≡ 1568
      → chosen_key_id key_id k''.kyber_key_id < 256 ^ 4
      → (opening : Bytes) × (reply : Bytes) × (header : Bytes) × (build_opening helper_sign
            (texts k)
            typ
            kem
            ed_only
          ≡ ok opening)
        × (build_reply helper_sign (texts k') ≡ ok reply)
        × (build_cthf helper_sign (texts k'') key_id ≡ ok header)
        × (drop 3682 opening ≡ helper_sign ed_only (opening_message k typ kem))
        × (drop 2048 reply ≡ helper_sign false (reply_message k'))
        × (drop 3689 header ≡ helper_sign false (header_message k'' key_id))
        × (opening_message k typ kem ≢ reply_message k')
        × (opening_message k typ kem ≢ header_message k'' key_id)
        × (reply_message k' ≢ header_message k'' key_id)
  frames_signed_apart k k' k'' typ kem ed_only key_id sized sized' sized'' small fits kid =
      let (opening, made, size, front, at, sig) =
        build_opening_accepted helper_sign length-sign k typ kem ed_only sized small fits in
      let (reply, made', size', front', sig') =
        build_reply_accepted helper_sign length-sign k' sized' in
      let (header, made'', size'', front'', body, sig'') =
        build_cthf_accepted helper_sign length-sign k'' key_id sized'' kid in
      let (a, b, c) = labels_differ k k' k'' typ kem key_id in
      (opening, reply, header, made, made', made'', sig, sig', sig'', a, b, c)
