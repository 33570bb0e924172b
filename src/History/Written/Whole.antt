-- ===== src/History/Written/Whole.antt =====
-- The generator's `main` as a whole, and the checker's on what it writes.
use construct_protos.Prelude.{
  ℕ, ◌^◌, ◌<◌, ◌≡◌, ◌↔◌, ◌∙◌, refl, ap, List, [], ◌∷◌, Bool, true, false, Option, none, some, All,
  arith, length,
}
use construct_protos.Prelude.Result.{ok, Raises, ◌>>=◌}
use construct_protos.Bytes.{Bytes, codes}
use construct_protos.Bytes.Made.{AreBytes}
use construct_protos.Bytes.Hex.{hex, fromhex-hex}
use construct_protos.Proto.Payload.{IsPayload}
use construct_protos.History.Keys.{Hmac, hkdf, hkdf_block, hkdf-eq-hkdf_block}
use construct_protos.History.Sealed.{cthf_header_len, Aead, snapshot_id}
use construct_protos.History.Hello.{build_cthf}
use construct_protos.History.Hello.Sizes.{KeyBytes, AreSized, texts}
use construct_protos.History.Hello.Framing.{build_cthf_accepted}
use construct_protos.History.Hello.Content.{build_cthf-AreBytes}
use construct_protos.History.Records.Vectors.{Vector, stream_vectors}
use construct_protos.History.Rows.{Row}
use construct_protos.History.Rows.Clean.{is_clean}
use construct_protos.History.Rows.Made.{with_key, channel_key_row}
use construct_protos.History.Rows.Checked.{both, header-Passes, channel-Passes, swapped-Passes}
use construct_protos.History.Rows.Whole.{errors, required_ids, proto_tests}
use construct_protos.History.Rows.Dict.{ids}
use construct_protos.History.Written.{
  Printed, in_order, stream_rows, keyed_rows, file_row, rows_with, written, written_constants,
}
use construct_protos.History.Written.Good.{IsGood, Makes, Passes-Makes}
use construct_protos.History.Written.Streams.{stream_rows-IsGood}
use construct_protos.History.Written.Vectors.{hex-IsDeviceText, stream_vectors-IsReady}
use construct_protos.History.Written.File.{file-Makes}
use construct_protos.History.Written.Keyed.{print_of, keyed_rows-IsGood}
use construct_protos.History.Written.Accepted.{
  ids-in_order, in_order-All, marks, errors-marks, good_rows,
}

-- A call that makes good rows of the ids.
abbrev MakesAll : Hmac → Bytes → List ℕ → Raises (List Row) → Type 0
MakesAll hmac v23 is' made =
    (rows : List Row) × (made ≡ ok rows) × (ids rows ≡ is') × All (IsGood hmac v23) rows

abbrev stream_ids : List ℕ
stream_ids = 1 ∷ 2 ∷ 3 ∷ 4 ∷ 5 ∷ 6 ∷ 7 ∷ 8 ∷ 9 ∷ 10 ∷ 11 ∷ 12 ∷ 13 ∷ 14 ∷ 16 ∷ 25 ∷ []

abbrev keyed_ids : List ℕ
keyed_ids = 17 ∷ 18 ∷ 19 ∷ 20 ∷ 21 ∷ 22 ∷ 23 ∷ 24 ∷ []

-- The calls of `main` in their order.
all_made :
    {hmac : Hmac} {v23 : Bytes} {ra rb : Raises Bytes} {a b : Bytes}
    (rv : Bytes → Bytes → Raises (List Vector)) {vs : List Vector}
    (rs : List Vector → Raises (List Row)) {rh rc rw' : Raises Row} {rd : Raises Bytes}
    (rk : Bytes → Raises (List Row)) (rf : Bytes → Bytes → Raises Row)
    → ra ≡ ok a
    → rb ≡ ok b
    → rv a b ≡ ok vs
    → MakesAll hmac v23 stream_ids (rs vs)
    → Makes hmac v23 15 rh
    → rd ≡ ok v23
    → MakesAll hmac v23 keyed_ids (rk v23)
    → Makes hmac v23 26 rc
    → Makes hmac v23 27 (rf a v23)
    → Makes hmac v23 28 rw'
    → MakesAll hmac v23 required_ids (
        ra >>= (λ s. rb >>= (λ i. rv s i >>= (λ vs. rs vs >>= (λ streams. rh >>= (λ h. rd >>= (λ v.
          rk v >>= (λ keyed.
            rc
            >>= (λ c. rf s v >>= (λ f. rw' >>= (λ w. ok (in_order streams h keyed c f w))))))))))))
all_made rv rs rk rf p q r (streams, made_streams, ids_streams, good_streams)
      (h, made_h, id_h, good_h) u (keyed, made_keyed, ids_keyed, good_keyed)
      (c, made_c, id_c, good_c) (f, made_f, id_f, good_f) (w, made_w, id_w, good_w) =
    (
      in_order streams h keyed c f w,
      rw (p, q, r, made_streams, made_h, u, made_keyed, made_c, made_f, made_w) refl,
      ids-in_order streams keyed h c f w ids_streams ids_keyed id_h id_c id_f id_w,
      in_order-All (IsGood _ _) streams keyed h c f w good_streams good_keyed good_h good_c good_f
          good_w,
    )

abbrev nearby_key : Hmac → Bytes
nearby_key hmac = hkdf_block hmac both (codes "construct_transfer_v2") snapshot_id

abbrev file_channel_key : Hmac → Bytes
file_channel_key hmac = hkdf_block hmac both (codes "construct_history_file_v1") snapshot_id

-- The derivations of `main` end, with a key each.
keys_derived :
    (hmac : Hmac) (f : Bytes → Bytes → Raises (List Row))
    → with_key (hkdf hmac both (codes "construct_transfer_v2") snapshot_id 32) (λ nearby.
      with_key
        (hkdf hmac both (codes "construct_history_file_v1") snapshot_id 32)
        (λ file. some (f nearby file)))
      ≡ some (f (nearby_key hmac) (file_channel_key hmac))
keys_derived hmac f =
    rw
      (
        hkdf-eq-hkdf_block hmac both (codes "construct_transfer_v2") snapshot_id,
        hkdf-eq-hkdf_block hmac both (codes "construct_history_file_v1") snapshot_id,
      )
      refl

written_lem :
    (sha256 : Bytes → Bytes) (hmac : Hmac) (aead : Aead) (helper_sign : Bool → Bytes → Bytes)
    (p : Printed)
    → written sha256 hmac aead helper_sign p
      ≡ some (rows_with sha256 hmac aead helper_sign p (nearby_key hmac) (file_channel_key hmac))
unfolding written
written_lem sha256 hmac aead helper_sign p =
    keys_derived hmac (rows_with sha256 hmac aead helper_sign p)

-- What returns good rows of all ids, and the checker's `main` on them.
checked :
    (hmac : Hmac) (proto : List ℕ) {made : Raises (List Row)} {result : Option (Raises (List Row))}
    → result ≡ some made
    → (v23 : Bytes) × MakesAll hmac v23 required_ids made
    → All (λ c. c.0 ≡ true) (proto_tests proto false)
    → (rows : List Row) × (result ≡ some (ok rows))
      × (ids rows ≡ required_ids)
      × (errors hmac proto false written_constants rows ≡ some (ok (marks rows)))
      × ((errors hmac proto false written_constants rows ≡ some (ok []))
          ↔ All (λ r. is_clean r.hex ≡ true) rows)
checked hmac proto e (v23, (rows, made, all_ids, good)) texts_there = (
  rows,
  e ∙ ap some made,
  all_ids,
  errors-marks hmac proto v23 rows texts_there all_ids good,
  good_rows hmac proto v23 rows texts_there all_ids good,
)

vectors_made :
    (hmac : Hmac) (v23 : Bytes) (k : KeyBytes)
    → AreSized k
    → (vs : List Vector) × (stream_vectors (hex k.offering_device_id) k.offering_identity ≡ ok vs)
      × MakesAll hmac v23 stream_ids (stream_rows vs)
vectors_made hmac v23 k (be, br, (bi, hi), bq, bh, (ba, ha), bb, small, bc) =
    let identity : IsPayload 32 k.offering_identity = record {
      bytes = record { all = bi };
      short = omega (arith, hi);
    } in
    let (vs, made, vids, ready) =
      stream_vectors-IsReady (hex k.offering_device_id) k.offering_identity
        (hex-IsDeviceText k.offering_device_id ba ha) identity in
    let (rows, made_rows, same, good) = stream_rows-IsGood hmac v23 vs ready in
    (vs, made, (rows, made_rows, same ∙ vids, good))

module _ (sha256 : Bytes → Bytes) (hmac : Hmac) (aead : Aead) (helper_sign : Bool → Bytes → Bytes)
    (length-sha256 : (m : Bytes) → length (sha256 m) ≡ 32)
    (encrypt-AreBytes : (key nonce text aad : Bytes) → AreBytes (aead.encrypt key nonce text aad))
    (length-sign : (ed : Bool) (m : Bytes) → length (helper_sign ed m) ≡ 3373)
    (sign-AreBytes : (ed : Bool) (m : Bytes) → AreBytes (helper_sign ed m)) (k : KeyBytes)
    (qr_fp : List ℕ) (wrong : ℕ) (file_key : Bytes) (sized : AreSized k)
    (length-fp : length qr_fp ≡ 64) (small-wrong : wrong < 256 ^ 4)
    (key-AreBytes : AreBytes file_key) where
  keyed_made :
      (v23 : Bytes)
      → build_cthf helper_sign (texts k) none ≡ ok v23
      → MakesAll hmac v23 keyed_ids
          (keyed_rows sha256 hmac helper_sign (print_of k qr_fp wrong file_key) v23)
  keyed_made v23 made =
      keyed_rows-IsGood hmac helper_sign length-sign sign-AreBytes k sized v23 sha256 qr_fp wrong
        file_key length-sha256 length-fp small-wrong made

  file_made :
      (v23 : Bytes)
      → AreBytes v23
      → length v23 ≡ cthf_header_len
      → Makes hmac v23 27
          (file_row aead (print_of k qr_fp wrong file_key) (hex k.offering_device_id) v23)
  file_made v23 bytes size =
      let (be, br, bi, bq, bh, (ba, ha), bb, small, bc) = sized in
      file-Makes hmac aead (print_of k qr_fp wrong file_key) (hex k.offering_device_id) v23 file_key
        encrypt-AreBytes (fromhex-hex file_key key-AreBytes.all)
        (hex-IsDeviceText k.offering_device_id ba ha) bytes size

  with_header :
      (nearby file v23 : Bytes)
      → Makes hmac v23 26 (channel_key_row sha256 hmac nearby file)
      → build_cthf helper_sign (texts k) none ≡ ok v23
      → length v23 ≡ cthf_header_len
      → MakesAll hmac v23 required_ids
          (rows_with sha256 hmac aead helper_sign (print_of k qr_fp wrong file_key) nearby file)
  unfolding rows_with
  with_header nearby file v23 channel made size =
      let (be, br, (bi, hi), bq, bh, (ba, ha), bb, small, bc) = sized in
      let (vs, made_vs, streams) = vectors_made hmac v23 k sized in
      all_made (λ s i. stream_vectors (hex s) i) stream_rows
        (keyed_rows sha256 hmac helper_sign (print_of k qr_fp wrong file_key))
        (λ s v. file_row aead (print_of k qr_fp wrong file_key) (hex s) v)
        (fromhex-hex k.offering_device_id ba) (fromhex-hex k.offering_identity bi) made_vs streams
        (Passes-Makes (cc) (header-Passes hmac (ok (hex v23)))) made (keyed_made v23 made) channel
        (file_made v23 (build_cthf-AreBytes helper_sign sign-AreBytes (texts k) none made) size)
        (Passes-Makes (cc) (swapped-Passes hmac (ok (hex v23))))

  channel_made :
      (v23 : Bytes)
      → Makes hmac v23 26 (channel_key_row sha256 hmac (nearby_key hmac) (file_channel_key hmac))
  channel_made v23 = Passes-Makes (cc) (channel-Passes sha256 hmac (ok (hex v23)))

  rows_with-IsGood :
      (v23 : Bytes) × MakesAll hmac v23 required_ids (
        rows_with sha256 hmac aead helper_sign
          (print_of k qr_fp wrong file_key)
          (nearby_key hmac)
          (file_channel_key hmac))
  rows_with-IsGood =
      let (be, br, bi, bq, bh, ba, bb, small, bc) = sized in
      let (v23, made, size, front, body, sig) =
        build_cthf_accepted helper_sign length-sign k none sized small in
      (v23, with_header (nearby_key hmac) (file_channel_key hmac) v23 (channel_made v23) made size)

  -- With keys of the lengths of their algorithms, key ids of 32 bits, a fingerprint of 64 digits, a
  -- digest of 32 bytes, signatures of 3373 bytes and a cipher whose texts are bytes, the generator's
  -- `main` makes its rows, which have the ids V1 to V28 in their order. Given these rows, the constants
  -- that the generator writes and a proto text that passes its tests, the checker's `main` meets no
  -- exception, and its only errors are those for the rows whose payload has the bytes CTM1 in it. It
  -- finds nothing wrong exactly if there is no such row.
  pub generated_accepted :
      (proto : List ℕ)
      → All (λ c. c.0 ≡ true) (proto_tests proto false)
      → (rows : List Row) × (written sha256 hmac aead helper_sign (print_of k qr_fp wrong file_key)
          ≡ some (ok rows))
        × (ids rows ≡ required_ids)
        × (errors hmac proto false written_constants rows ≡ some (ok (marks rows)))
        × ((errors hmac proto false written_constants rows ≡ some (ok []))
            ↔ All (λ r. is_clean r.hex ≡ true) rows)
  generated_accepted proto texts_there =
      checked hmac proto
        (written_lem sha256 hmac aead helper_sign (print_of k qr_fp wrong file_key))
        rows_with-IsGood texts_there
