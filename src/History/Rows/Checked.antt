-- ===== src/History/Rows/Checked.antt =====
-- The checker on the rows of the generator that hold no stream and no keyed frame.
use construct_protos.Prelude.{
  Bool, true, ℕ, ◌≡◌, ◌∙◌, refl, ap, List, [], ◌∷◌, ◌++◌, some, All, arith, length, take,
  length-take,
}
use construct_protos.Prelude.Result.{ok, Raises, ◌>>=◌}
use construct_protos.Bytes.{Bytes, codes, pack_le, of_le}
use construct_protos.Bytes.Struct.{bytes_eq_refl}
use construct_protos.Bytes.Hex.{hex, fromhex, length-hex}
use construct_protos.History.Keys.{Hmac, hkdf_block, hkdf-eq-hkdf_block}
use construct_protos.History.Hello.{Keys, discovery}
use construct_protos.History.Sealed.{snapshot_id}
use construct_protos.History.Rows.{Row, contains}
use construct_protos.History.Rows.Kinds.{
  check_row, check_kind, check_preimage, check_header_only, check_file, check_channel_key,
}
use construct_protos.History.Rows.Clean.{is_clean}
use construct_protos.History.Rows.Made.{
  header_row, discovery_row, fingerprint_row, channel_key_row, swapped_row, rows_of, made_rows,
  ck_ecdh, ck_kem,
}

-- The row of an id is made, has no CTM1 in it, and the checker finds nothing wrong with it among rows
-- with one of V27.
abbrev pub Passes : Hmac → Raises (List ℕ) → ℕ → Raises Row → Type 0
Passes hmac v23 vid made =
    (row : Row) × (made ≡ ok row)
    × (row.vid ≡ vid)
    × (is_clean row.hex ≡ true)
    × ((has : ℕ → Bool) → has 27 ≡ true → check_row hmac v23 has row ≡ some (ok []))

pub header-Passes : (hmac : Hmac) (v23 : Raises (List ℕ)) → Passes hmac v23 15 header_row
unfolding is_clean header_row check_row check_kind pack_le fromhex hex check_header_only contains
    of_le
header-Passes hmac v23 = (_, refl, refl, refl, λ has h. refl)

pub swapped-Passes : (hmac : Hmac) (v23 : Raises (List ℕ)) → Passes hmac v23 28 swapped_row
unfolding is_clean swapped_row check_row check_kind check_file
swapped-Passes hmac v23 = (_, refl, refl, refl, λ has h. rw h refl)

in_row :
    {ra rb rc rd re : Raises Row} {a b c d e : Row}
    → ra ≡ ok a
    → rb ≡ ok b
    → rc ≡ ok c
    → rd ≡ ok d
    → re ≡ ok e
    → ra >>= (λ x.
      rb >>= (λ y. rc >>= (λ z. rd >>= (λ u. re >>= (λ v. ok (x ∷ y ∷ z ∷ u ∷ v ∷ []))))))
      ≡ ok (a ∷ b ∷ c ∷ d ∷ e ∷ [])
in_row p q r s t = rw (p, q, r, s, t) refl

-- The secret that the channel keys are derived from.
abbrev pub both : Bytes
both = ck_ecdh ++ ck_kem

module _ (sha256 : Bytes → Bytes) (hmac : Hmac) (v23 : Raises (List ℕ)) where
  pub fingerprint-Passes :
      (qr_fp : List ℕ) → length qr_fp ≡ 64 → Passes hmac v23 18 (fingerprint_row sha256 hmac qr_fp)
  unfolding is_clean fingerprint_row check_row check_kind check_preimage
  fingerprint-Passes qr_fp h = (_, refl, refl, refl, λ has k. rw h refl)

  sixteen : (m : Bytes) → length (sha256 m) ≡ 32 → length (hex (take 16 (sha256 m))) ≡ 32
  sixteen m h = length-hex (take 16 (sha256 m)) ∙ omega (arith, length-take 16 (sha256 m), h)

  pub discovery-Passes :
      (keys : Keys)
      → ((m : Bytes) → length (sha256 m) ≡ 32)
      → Passes hmac v23 17 (discovery_row sha256 hmac keys)
  unfolding is_clean discovery_row discovery check_row check_kind check_preimage
  discovery-Passes keys h =
      (_, refl, refl, refl, λ has k. rw (sixteen _ (h _), sixteen _ (h _)) refl)

  pub channel-Passes : Passes hmac v23 26 (
      channel_key_row sha256 hmac
        (hkdf_block hmac both (codes "construct_transfer_v2") snapshot_id)
        (hkdf_block hmac both (codes "construct_history_file_v1") snapshot_id))
  unfolding is_clean channel_key_row check_row check_kind check_channel_key fromhex hex ck_ecdh
      ck_kem
  channel-Passes =
      let nearby = hkdf_block hmac both (codes "construct_transfer_v2") snapshot_id in
      let file = hkdf_block hmac both (codes "construct_history_file_v1") snapshot_id in
      (_, refl, refl, refl, λ has k. rw (bytes_eq_refl (hex nearby), bytes_eq_refl (hex file)) refl)

  -- With digests of 32 bytes and a fingerprint of 64 digits, the generator makes its rows V15, V17,
  -- V18, V26 and V28, whatever the receiver's device id, and the checker finds nothing wrong with
  -- any of them, among rows with one of V27.
  pub made_rows_accepted :
      (keys : Keys) (qr_fp : List ℕ) (has : ℕ → Bool)
      → has 27 ≡ true
      → ((m : Bytes) → length (sha256 m) ≡ 32)
      → length qr_fp ≡ 64
      → (rows : List Row) × (made_rows sha256 hmac keys qr_fp ≡ some (ok rows))
        × All (λ row. check_row hmac v23 has row ≡ some (ok [])) rows
  unfolding made_rows rows_of
  made_rows_accepted keys qr_fp has there h k =
      let (a, made_a, id_a, clean_a, good_a) = header-Passes hmac v23 in
      let (b, made_b, id_b, clean_b, good_b) = discovery-Passes keys h in
      let (c, made_c, id_c, clean_c, good_c) = fingerprint-Passes qr_fp k in
      let (d, made_d, id_d, clean_d, good_d) = channel-Passes in
      let (e, made_e, id_e, clean_e, good_e) = swapped-Passes hmac v23 in
      (
        a ∷ b ∷ c ∷ d ∷ e ∷ [],
        rw
            (
              hkdf-eq-hkdf_block hmac both (codes "construct_transfer_v2") snapshot_id,
              hkdf-eq-hkdf_block hmac both (codes "construct_history_file_v1") snapshot_id,
            )
            (ap some (in_row made_a made_b made_c made_d made_e)),
        (
          good_a has there,
          (good_b has there, (good_c has there, (good_d has there, (good_e has there, tt)))),
        ),
      )
