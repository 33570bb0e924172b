-- ===== src/History/Rows/Content.antt =====
-- What the payload or the fields of a row must be, for the kinds cth1_header_only, preimage, channel_key
-- and cthf_file of check_history_snapshot.py's `main`.
use construct_protos.Prelude.{
  ℕ, ◌≡◌, ◌≢◌, ◌≤◌, ◌<◌, ◌↔◌, ◌⊎◌, ◌∙◌, refl, sym, ap, subst, List, [], ◌∷◌, ◌++◌, Bool, true,
  Option, none, some, ◌==◌, ◌&&◌, ltb, leb, take, slice, length, Bool-cases, inl, inr, and_inv,
  arith,
}
use construct_protos.Prelude.Checks.{check}
use construct_protos.Prelude.Result.{Result, ok, err, Raises, ok_injective, bind_ok}
use construct_protos.Bytes.{Bytes, bytes_eq, codes, of_le}
use construct_protos.Bytes.Struct.{bytes_eq_iff}
use construct_protos.Bytes.Hex.{hex, fromhex}
use construct_protos.History.Keys.{Hmac, hkdf_block}
use construct_protos.History.Sealed.{BadFraming, chunk_frames}
use construct_protos.History.Rows.{
  Row, Complaint, malformed, Expect, exact_hex, is_text, wrong_nearby_key, wrong_file_key,
  wrong_header,
}
use construct_protos.History.Rows.Kinds.{
  is_exact_hex, is_some, text_length, field_of, check_header_only, check_preimage,
  check_channel_key, check_frames, check_whole_file,
}
use construct_protos.History.Rows.Occurs.{is_number_iff}
use construct_protos.History.Rows.Tested.{
  both_nil, check_iff, num_iff, when_iff, is_malformed_iff, and_iff,
}

-- The bytes begin a stream, and state a payload over the cap of 512 MiB.
abbrev pub IsOverCap : Row → Bytes → Type 0
IsOverCap row d =
    (14 ≤ length d)
    × ((take 5 d ≡ codes "CTH1" ++ (1 ∷ []))
        × ((536_870_912 < of_le (slice 6 14 d)) × (row.expect ≡ malformed)))

abbrev pub HasText : Option (List ℕ) → Type 0
HasText o = (t : List ℕ) × (o ≡ some t)

abbrev pub HasLength : Option (List ℕ) → ℕ → Type 0
HasLength o n = (t : List ℕ) × (o ≡ some t) × (length t ≡ n)

abbrev pub IsPreimage : Row → Type 0
IsPreimage row =
    (row.expect ≡ exact_hex)
    × (((row.vid ≢ 17)
          ⊎ (HasText row.preimage_utf8
              × (HasText row.tag
                  × (HasText row.instance_name
                      × (HasLength row.tag 32 × HasLength row.instance_name 32)))))
        × ((row.vid ≢ 18) ⊎ HasLength row.fp 64))

abbrev pub HasBytes : Option (List ℕ) → Bytes → Type 0
HasBytes o d = (t : List ℕ) × (o ≡ some t) × (fromhex t ≡ ok d)

-- The two keys are those of the secret, for their purposes and the snapshot.
abbrev pub IsChannelKey : Hmac → Row → Type 0
IsChannelKey hmac row =
    (ecdh : Bytes) × (kem : Bytes) × (snap : Bytes) × HasBytes row.ecdh ecdh
    × HasBytes row.kem_shared_secret kem
    × HasBytes row.snapshot_id snap
    × (row.nearby_key
        ≡ some (hex (hkdf_block hmac (ecdh ++ kem) (codes "construct_transfer_v2") snap)))
    × (row.file_key
        ≡ some (hex (hkdf_block hmac (ecdh ++ kem) (codes "construct_history_file_v1") snap)))

-- The header of V23, and two chunks at least, as many as the row says.
abbrev pub IsWholeFile : Row → Raises (List ℕ) → Bytes → Type 0
IsWholeFile row v23 d =
    (text : List ℕ) × (header : Bytes) × (frames : List (ℕ × ℕ)) × (v23 ≡ ok text)
    × (fromhex text ≡ ok header)
    × (take 7062 d ≡ header)
    × (chunk_frames d ≡ ok frames)
    × (row.chunk_count ≡ some (length frames))
    × (2 ≤ length frames)

pub ok_iff {ℓ} :
    {A : Type ℓ} (xs : List Complaint)
    → (xs ≡ []) ↔ A
    → (◌≡◌ {A = Raises (List Complaint)} (ok xs) (ok [])) ↔ A
ok_iff xs f = (λ e. f.0 (ok_injective e), λ a. ap ok (f.1 a))

ltb_iff : (m n : ℕ) → (ltb m n ≡ true) ↔ (m < n)
ltb_iff m n = (λ e. ground (arith, e), λ h. ground (arith, h))

leb_iff : (m n : ℕ) → (leb m n ≡ true) ↔ (m ≤ n)
leb_iff m n = (λ e. ground (arith, e), λ h. ground (arith, h))

pub check_header_only-IsOverCap :
    (row : Row) (d : Bytes) → (check_header_only row d ≡ ok []) ↔ IsOverCap row d
unfolding check_header_only
check_header_only-IsOverCap row d =
    let tests = both_nil (check_iff _ _ (bytes_eq_iff (take 5 d) (codes "CTH1" ++ (1 ∷ [])))) (
      both_nil (check_iff _ _ (ltb_iff 536_870_912 (of_le (slice 6 14 d))))
        (check_iff _ _ (is_malformed_iff row.expect))) in
    elim (Bool-cases (ltb (length d) 14)) [
      | inl k ↦ rw k (
        λ e. cc,
        λ h. absurd (let short = (ltb_iff (length d) 14).0 k in omega (arith, short, h.0)),
      )
      | inr k ↦
          let long : 14 ≤ length d = ground (arith, k) in
          rw k (λ e. (long, tests.0 (ok_injective e)), λ h. ap ok (tests.1 h.1))
    ]

is_exact_hex_iff : (e : Expect) → (is_exact_hex e ≡ true) ↔ (e ≡ exact_hex)
is_exact_hex_iff e = (inv e, λ h. rw h refl)
  where
    inv : (e : Expect) → is_exact_hex e ≡ true → e ≡ exact_hex
    inv exact_hex h = refl
    inv e h = cc

is_some_iff : (o : Option (List ℕ)) → (is_some o ≡ true) ↔ HasText o
is_some_iff none = (λ e. cc, λ (t, e). cc)
is_some_iff (some t) = (λ e. (t, refl), λ h. refl)

abbrev text_or : List ℕ → Option (List ℕ) → List ℕ
text_or d none = d
text_or d (some t) = t

text_length_iff :
    (o : Option (List ℕ)) (n : ℕ) → 0 < n → ((text_length o == n) ≡ true) ↔ HasLength o n
text_length_iff none n h =
    (λ e. absurd (let zero = (num_iff 0 n).0 e in omega (arith, h, zero)), λ (t, e, k). cc)
text_length_iff (some t) n h = (
  λ e. (t, refl, (num_iff (length t) n).0 e),
  λ (u, e, k). (num_iff (length t) n).1 (ap (λ o. length (text_or [] o)) e ∙ k),
)

tests_iff {ℓ κ} :
    {A : Type ℓ} {B : Type κ} {a b : Bool}
    → (a ≡ true) ↔ A
    → (b ≡ true) ↔ B
    → ((a && b) ≡ true) ↔ (A × B)
tests_iff {a = a} {b = b} f g =
    (λ e. let (p, q) = and_inv a b e in (f.0 p, g.0 q), λ (x, y). (and_iff a b).1 (f.1 x, g.1 y))

pub check_preimage-IsPreimage : (row : Row) → (check_preimage row ≡ []) ↔ IsPreimage row
unfolding check_preimage
check_preimage-IsPreimage row = both_nil (check_iff _ _ (is_exact_hex_iff row.expect)) (
    both_nil
      (when_iff row.vid 17 (
        both_nil (check_iff _ _ (is_some_iff row.preimage_utf8)) (
          both_nil (check_iff _ _ (is_some_iff row.tag)) (
            both_nil (check_iff _ _ (is_some_iff row.instance_name)) (
              check_iff _ _ (
                tests_iff (text_length_iff row.tag 32 (omega arith))
                  (text_length_iff row.instance_name 32 (omega arith))))))))
      (when_iff row.vid 18 (check_iff _ _ (text_length_iff row.fp 64 (omega arith)))))

is_text_iff : (o : Option (List ℕ)) (t : List ℕ) → (is_text o t ≡ true) ↔ (o ≡ some t)
is_text_iff none t = (λ e. cc, λ e. cc)
is_text_iff (some s) t =
    (λ e. ap some ((bytes_eq_iff s t).0 e), λ e. (bytes_eq_iff s t).1 (ap (text_or []) e))

field_inv : (o : Option (List ℕ)) {t : List ℕ} → field_of o ≡ ok t → o ≡ some t
field_inv none e = cc
field_inv (some s) e = ap some (ok_injective e)

keys_iff :
    (hmac : Hmac) (row : Row) (ecdh kem snap : Bytes)
    → (check
            (is_text row.nearby_key
              (hex (hkdf_block hmac (ecdh ++ kem) (codes "construct_transfer_v2") snap)))
            wrong_nearby_key
          ++ check
              (is_text row.file_key
                (hex (hkdf_block hmac (ecdh ++ kem) (codes "construct_history_file_v1") snap)))
              wrong_file_key
        ≡ [])
      ↔ ((row.nearby_key
            ≡ some (hex (hkdf_block hmac (ecdh ++ kem) (codes "construct_transfer_v2") snap)))
          × (row.file_key
              ≡ some
                  (hex (hkdf_block hmac (ecdh ++ kem) (codes "construct_history_file_v1") snap))))
keys_iff hmac row ecdh kem snap =
    both_nil (check_iff _ _ (is_text_iff row.nearby_key _))
      (check_iff _ _ (is_text_iff row.file_key _))

pub check_channel_key-IsChannelKey :
    (hmac : Hmac) (row : Row) → (check_channel_key hmac row ≡ ok []) ↔ IsChannelKey hmac row
unfolding check_channel_key
check_channel_key-IsChannelKey hmac row = (
  λ e.
      let (a, at, e₁) = bind_ok (field_of row.ecdh) _ e in
      let (ecdh, read, e₂) = bind_ok (fromhex a) _ e₁ in
      let (b, bt, e₃) = bind_ok (field_of row.kem_shared_secret) _ e₂ in
      let (kem, kem_read, e₄) = bind_ok (fromhex b) _ e₃ in
      let (c, ct, e₅) = bind_ok (field_of row.snapshot_id) _ e₄ in
      let (snap, snap_read, e₆) = bind_ok (fromhex c) _ e₅ in
      let (near, file) = (keys_iff hmac row ecdh kem snap).0 (ok_injective e₆) in
      (
        ecdh,
        kem,
        snap,
        (a, field_inv row.ecdh at, read),
        (b, field_inv row.kem_shared_secret bt, kem_read),
        (c, field_inv row.snapshot_id ct, snap_read),
        near,
        file,
      ),
  λ (ecdh, kem, snap, (a, at, read), (b, bt, kem_read), (c, ct, snap_read), near, file).
      rw (at, bt, ct, read, kem_read, snap_read)
        (ap ok ((keys_iff hmac row ecdh kem snap).1 (near, file))),
)

frames_iff :
    (row : Row) (r : Result BadFraming (List (ℕ × ℕ)))
    → (check_frames row r ≡ []) ↔ (
        (frames : List (ℕ × ℕ)) × (r ≡ ok frames)
        × (row.chunk_count ≡ some (length frames))
        × (2 ≤ length frames))
frames_iff row (err e) = (λ h. cc, λ (frames, h, k, two). cc)
frames_iff row (ok found) =
    let whole =
      check_iff _ _
        (tests_iff (is_number_iff row.chunk_count (length found)) (leb_iff 2 (length found))) in
    (
      λ e. let (a, b) = whole.0 e in (found, refl, a, b),
      λ (frames, h, k, two).
          let same : frames ≡ found = sym (ok_injective h) in
          whole.1 (
            k ∙ ap (λ fs. some (length fs)) same,
            subst (λ (fs : List (ℕ × ℕ)). 2 ≤ length fs) same two,
          ),
    )

file_tests_iff :
    (row : Row) (d header : Bytes)
    → (check (bytes_eq (take 7062 d) header) wrong_header ++ check_frames row (chunk_frames d) ≡ [])
      ↔ ((take 7062 d ≡ header)
          × ((frames : List (ℕ × ℕ)) × (chunk_frames d ≡ ok frames)
              × (row.chunk_count ≡ some (length frames))
              × (2 ≤ length frames)))
file_tests_iff row d header =
    both_nil (check_iff _ _ (bytes_eq_iff (take 7062 d) header)) (frames_iff row (chunk_frames d))

pub check_whole_file-IsWholeFile :
    (row : Row) (v23 : Raises (List ℕ)) (d : Bytes)
    → (check_whole_file row v23 d ≡ ok []) ↔ IsWholeFile row v23 d
unfolding check_whole_file
check_whole_file-IsWholeFile row v23 d = (
  λ e.
      let (text, at, e₁) = bind_ok v23 _ e in
      let (header, read, e₂) = bind_ok (fromhex text) _ e₁ in
      let (same, (frames, found, count, two)) = (file_tests_iff row d header).0 (ok_injective e₂) in
      (text, header, frames, at, read, same, found, count, two),
  λ (text, header, frames, at, read, same, found, count, two).
      rw (at, read) (ap ok ((file_tests_iff row d header).1 (same, (frames, found, count, two)))),
)
