-- ===== src/History/Written/Keyed.antt =====
-- The rows of the frames that hold keys, and the two rows beside them.
use construct_protos.Prelude.{
  ℕ, ◌^◌, ◌<◌, ◌≡◌, ◌≢◌, ◌∙◌, refl, sym, ap, subst, List, [], ◌∷◌, Bool, true, false, Option, none,
  some, All, arith, length, replicate, inl, inr,
}
use construct_protos.Prelude.Result.{ok, Raises, ◌>>=◌, ok_injective}
use construct_protos.Bytes.{Bytes}
use construct_protos.Bytes.Made.{AreBytes}
use construct_protos.Bytes.Hex.{hex, fromhex, fromhex-hex}
use construct_protos.History.Keys.{Hmac}
use construct_protos.History.Hello.{build_opening, build_reply, build_cthf}
use construct_protos.History.Hello.Sizes.{KeyBytes, AreSized, texts}
use construct_protos.History.Hello.Content.{
  build_opening-AreBytes, build_reply-AreBytes, build_cthf-AreBytes,
}
use construct_protos.History.Rows.{
  Row, Kind, Expect, Complaint, ctt1_v2_opening, ctt1_v2_reply, cthf_header, malformed, verify_ok,
  verify_fail, verify_ok_with_tag, kem_key_id_mismatch,
}
use construct_protos.History.Rows.Kinds.{check_kind, check_opening, check_reply, check_cthf}
use construct_protos.History.Rows.Accepted.{Asked, openings_accepted}
use construct_protos.History.Rows.Frames.{frames_accepted}
use construct_protos.History.Rows.Checked.{fingerprint-Passes, discovery-Passes}
use construct_protos.History.Rows.Made.{bare}
use construct_protos.History.Rows.Dict.{ids}
use construct_protos.History.Written.{Printed, frame_row, keyed_rows}
use construct_protos.History.Written.File.{zeros-AreBytes}
use construct_protos.History.Written.Good.{
  IsGood, Makes, full, vec-full, payload-IsGood, Passes-Makes,
}

-- What the helper prints of keys, of the fingerprint, of the other key id and of the file's key.
abbrev pub print_of : KeyBytes → List ℕ → ℕ → Bytes → Printed
print_of k qr_fp wrong file_key = record {
  keys = texts k;
  qr_fp = qr_fp;
  wrong_kyber_key_id = wrong;
  file_channel_key = hex file_key;
}

frame_full :
    (vid : ℕ) (kind : Kind) (expect : Expect) {built : Raises Bytes} (d : Bytes) (extra : Row → Row)
    → built ≡ ok d
    → AreBytes d
    → frame_row vid kind expect built extra ≡ ok (extra (full vid kind expect d none none))
unfolding frame_row
frame_full vid kind expect d extra made h = rw made (vec-full vid kind expect d none none extra h)

read_then :
    (f : Bytes → List Complaint) (d : Bytes)
    → AreBytes d
    → f d ≡ []
    → some (fromhex (hex d) >>= (λ x. ok (f x))) ≡ some (ok [])
read_then f d h e = rw (fromhex-hex d h.all) (ap (λ t. some (ok t)) e)

-- Eight calls in a row, each of which makes the row of its id.
all_eight :
    {hmac : Hmac} {v23 : Bytes} {ra rb rc rd re rf rg rh : Raises Row}
    → Makes hmac v23 17 ra
    → Makes hmac v23 18 rb
    → Makes hmac v23 19 rc
    → Makes hmac v23 20 rd
    → Makes hmac v23 21 re
    → Makes hmac v23 22 rf
    → Makes hmac v23 23 rg
    → Makes hmac v23 24 rh
    → (rows : List Row) × (ra >>= (λ s. rb >>= (λ t. rc >>= (λ u. rd >>= (λ v. re >>= (λ w.
          rf >>= (λ x. rg >>= (λ y. rh >>= (λ z. ok (s ∷ t ∷ u ∷ v ∷ w ∷ x ∷ y ∷ z ∷ [])))))))))
        ≡ ok rows)
      × (ids rows ≡ 17 ∷ 18 ∷ 19 ∷ 20 ∷ 21 ∷ 22 ∷ 23 ∷ 24 ∷ [])
      × All (IsGood hmac v23) rows
all_eight (a, p, ia, ga) (b, q, ib, gb) (c, r, ic, gc) (d, s, id, gd) (e, t, ie, ge) (f, u, if', gf)
      (g, v, ig, gg) (h, w, ih, gh) =
    (
      a ∷ b ∷ c ∷ d ∷ e ∷ f ∷ g ∷ h ∷ [],
      rw (p, q, r, s, t, u, v, w) refl,
      rw (ia, ib, ic, id, ie, if', ig, ih) refl,
      (ga, (gb, (gc, (gd, (ge, (gf, (gg, (gh, tt)))))))),
    )

abbrev given_or : Bytes → Option Bytes → Bytes
given_or d none = d
given_or d (some c) = c

no_kem-AreBytes : (c : Bytes) → none ≡ some c → AreBytes c
no_kem-AreBytes c e = cc

zero_kem-AreBytes : (c : Bytes) → some (replicate 1568 0) ≡ some c → AreBytes c
zero_kem-AreBytes c e = subst AreBytes (ap (given_or []) e) (zeros-AreBytes 1568)

module _ (hmac : Hmac) (helper_sign : Bool → Bytes → Bytes)
    (length-sign : (ed : Bool) (m : Bytes) → length (helper_sign ed m) ≡ 3373)
    (sign-AreBytes : (ed : Bool) (m : Bytes) → AreBytes (helper_sign ed m)) (k : KeyBytes)
    (sized : AreSized k) (v23 : Bytes) where
  opening-Makes :
      (vid : ℕ) (expect : Expect) (kem : Option Bytes) (ed_only : Bool)
      → vid ≢ 23
      → Asked (bare vid ctt1_v2_opening expect) kem
      → ((c : Bytes) → kem ≡ some c → AreBytes c)
      → Makes hmac v23 vid (
          frame_row vid ctt1_v2_opening expect
            (build_opening helper_sign (texts k) 2 kem ed_only)
            (λ r. r))
  unfolding check_kind check_opening
  opening-Makes vid expect kem ed_only other asked h =
      let (d, made, clean) =
        openings_accepted helper_sign k (bare vid ctt1_v2_opening expect) kem ed_only length-sign
          sized asked in
      let bytes = build_opening-AreBytes helper_sign sign-AreBytes (texts k) 2 kem ed_only h made in
      let row = full vid ctt1_v2_opening expect d none none in
      (
        row,
        frame_full vid ctt1_v2_opening expect d (λ r. r) made bytes,
        refl,
        payload-IsGood d bytes refl refl (λ has. read_then (check_opening row) d bytes clean)
            (λ e. absurd (other e)),
      )

  abbrev wrong_key : Row
  wrong_key = bare 24 cthf_header kem_key_id_mismatch

  reply-Makes :
      Makes hmac v23 20
        (frame_row 20 ctt1_v2_reply verify_ok_with_tag (build_reply helper_sign (texts k)) (λ r. r))
  unfolding check_kind check_reply
  reply-Makes =
      let (be, br, bi, bq, bh, ba, bb, small, bc) = sized in
      let (d, header, made, clean, header_made, header_clean) =
        frames_accepted helper_sign k wrong_key none length-sign sized small (inl (refl, refl)) in
      let bytes = build_reply-AreBytes helper_sign sign-AreBytes (texts k) made in
      (
        full 20 ctt1_v2_reply verify_ok_with_tag d none none,
        frame_full 20 ctt1_v2_reply verify_ok_with_tag d (λ r. r) made bytes,
        refl,
        payload-IsGood d bytes refl refl (λ has. read_then check_reply d bytes clean)
            (λ e. absurd (omega (arith, e))),
      )

  wrong_id-Makes :
      (wrong : ℕ)
      → wrong < 256 ^ 4
      → Makes hmac v23 24 (
          frame_row 24 cthf_header kem_key_id_mismatch
            (build_cthf helper_sign (texts k) (some wrong))
            (λ r. r))
  unfolding check_kind check_cthf
  wrong_id-Makes wrong small =
      let (reply, d, reply_made, reply_clean, made, clean) =
        frames_accepted helper_sign k wrong_key (some wrong) length-sign sized small
          (inl (refl, refl)) in
      let bytes = build_cthf-AreBytes helper_sign sign-AreBytes (texts k) (some wrong) made in
      let row = full 24 cthf_header kem_key_id_mismatch d none none in
      (
        row,
        frame_full 24 cthf_header kem_key_id_mismatch d (λ r. r) made bytes,
        refl,
        payload-IsGood d bytes refl refl (λ has. read_then (check_cthf row) d bytes clean)
            (λ e. absurd (omega (arith, e))),
      )

  abbrev with_fields : Row → Row
  with_fields r = record r { has_chunk0_combined = true; has_file_channel_key = true }

  -- The row V23 itself, of the header that was built.
  header-Makes :
      build_cthf helper_sign (texts k) none ≡ ok v23
      → Makes hmac v23 23 (frame_row 23 cthf_header verify_ok (ok v23) with_fields)
  unfolding check_kind check_cthf
  header-Makes built =
      let (be, br, bi, bq, bh, ba, bb, small, bc) = sized in
      let (reply, d, reply_made, reply_clean, made, clean) =
        frames_accepted helper_sign k (with_fields (bare 23 cthf_header verify_ok)) none length-sign
          sized small (inr (refl, refl, refl)) in
      let same : d ≡ v23 = ok_injective (sym made ∙ built) in
      let bytes = build_cthf-AreBytes helper_sign sign-AreBytes (texts k) none built in
      let row = with_fields (full 23 cthf_header verify_ok v23 none none) in
      (
        row,
        frame_full 23 cthf_header verify_ok v23 with_fields refl bytes,
        refl,
        payload-IsGood v23 bytes refl refl
            (λ has.
              read_then (check_cthf row) v23 bytes (subst (λ h. check_cthf row h ≡ []) same clean))
            (λ e. refl),
      )

  abbrev opening_row : ℕ → Expect → Option Bytes → Bool → Raises Row
  opening_row vid expect kem ed_only =
      frame_row vid ctt1_v2_opening expect (build_opening helper_sign (texts k) 2 kem ed_only)
        (λ r. r)

  opening_19 : Makes hmac v23 19 (opening_row 19 verify_ok_with_tag none false)
  opening_19 =
      opening-Makes 19 verify_ok_with_tag none false (cc) (inr (inr (refl, refl, refl)))
        no_kem-AreBytes

  opening_21 : Makes hmac v23 21 (opening_row 21 verify_fail none true)
  opening_21 =
      opening-Makes 21 verify_fail none true (cc) (inr (inl (refl, refl, refl))) no_kem-AreBytes

  opening_22 : Makes hmac v23 22 (opening_row 22 malformed (some (replicate 1568 0)) false)
  opening_22 =
      opening-Makes 22 malformed (some (replicate 1568 0)) false (cc) (inl (refl, refl, refl))
        zero_kem-AreBytes

  -- V17 to V24 are made, have their ids, and are good.
  pub keyed_rows-IsGood :
      (sha256 : Bytes → Bytes) (qr_fp : List ℕ) (wrong : ℕ) (file_key : Bytes)
      → ((m : Bytes) → length (sha256 m) ≡ 32)
      → length qr_fp ≡ 64
      → wrong < 256 ^ 4
      → build_cthf helper_sign (texts k) none ≡ ok v23
      → (rows : List Row) × (keyed_rows sha256 hmac helper_sign
            (print_of k qr_fp wrong file_key)
            v23
          ≡ ok rows)
        × (ids rows ≡ 17 ∷ 18 ∷ 19 ∷ 20 ∷ 21 ∷ 22 ∷ 23 ∷ 24 ∷ [])
        × All (IsGood hmac v23) rows
  unfolding keyed_rows
  keyed_rows-IsGood sha256 qr_fp wrong file_key h l small built =
      let found = Passes-Makes (cc) (discovery-Passes sha256 hmac (ok (hex v23)) (texts k) h) in
      let printed = Passes-Makes (cc) (fingerprint-Passes sha256 hmac (ok (hex v23)) qr_fp l) in
      all_eight found printed opening_19 reply-Makes opening_21 opening_22 (header-Makes built)
        (wrong_id-Makes wrong small)
