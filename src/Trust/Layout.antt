-- ===== src/Trust/Layout.antt =====
-- Reading the signed byte strings of conformance/check_server_trust.py.
use construct_protos.Prelude.{
  ℕ, ◌+◌, ◌<◌, ◌^◌, ◌≡◌, ◌≢◌, ◌∙◌, refl, sym, ap, [], ◌∷◌, ◌++◌, false, ltb, take, drop, length,
  arith, take_prefix, drop_prefix, append_assoc, drop-drop, get_or, Bool-cases, inl, inr, lt→ltb,
  length-append, ltb→lt,
}
use construct_protos.Prelude.Result.{
  ok, err, Raises, ok_injective, err_ne_ok, Result-cases, struct_error, ◌>>=◌,
}
use construct_protos.Bytes.{Bytes, be, of_be, pack_be}
use construct_protos.Bytes.Struct.{length-be, of_be-be, pack_be_fits}
use construct_protos.Trust.{
  Purpose, sender_cert, kt_head, number, label, lp, pack_time, Fields, body, delegated, kid,
  signable, public_key_len, signature_len,
}

lp_fits : (b : Bytes) → length b < 256 ^ 2 → lp b ≡ ok (be 2 (length b) ++ b)
unfolding lp
lp_fits b h = rw (pack_be_fits 2 (length b) h) refl

lp_too_long : (b : Bytes) → ltb (length b) (256 ^ 2) ≡ false → lp b ≡ err struct_error
unfolding lp pack_be
lp_too_long b h = rw h refl

read_back :
    (b rest : Bytes)
    → length b < 256 ^ 2
    → (of_be (take 2 ((be 2 (length b) ++ b) ++ rest)) ≡ length b)
      × (take (length b) (drop 2 ((be 2 (length b) ++ b) ++ rest)) ≡ b)
      × (drop (2 + length b) ((be 2 (length b) ++ b) ++ rest) ≡ rest)
read_back b rest h =
    let n = length b in
    let whole : (be 2 n ++ b) ++ rest ≡ be 2 n ++ (b ++ rest) = append_assoc (be 2 n) b rest in
    let behind : drop 2 (be 2 n ++ (b ++ rest)) ≡ b ++ rest =
      drop_prefix 2 (be 2 n) (b ++ rest) (length-be 2 n) in
    rw whole (
      ap of_be (take_prefix 2 (be 2 n) (b ++ rest) (length-be 2 n)) ∙ of_be-be 2 n h,
      ap (take n) behind ∙ take_prefix n b rest refl,
      sym (drop-drop 2 n (be 2 n ++ (b ++ rest))) ∙ ap (drop n) behind ∙ drop_prefix n b rest refl,
    )

-- A value that `lp` writes is shorter than 2 ^ 16, and what it wrote can be read off any bytes that
-- begin with it: the length says where the value ends.
pub lp_reads :
    (b rest : Bytes) {d : Bytes}
    → lp b ≡ ok d
    → (length b < 256 ^ 2)
      × (of_be (take 2 (d ++ rest)) ≡ length b)
      × (take (length b) (drop 2 (d ++ rest)) ≡ b)
      × (drop (2 + length b) (d ++ rest) ≡ rest)
lp_reads b rest e = elim (Bool-cases (ltb (length b) (256 ^ 2))) [
  | inr k ↦ absurd (err_ne_ok (sym (lp_too_long b k) ∙ e))
  | inl k ↦
      let h = ltb→lt (length b) (256 ^ 2) k in
      rw (← ok_injective (sym (lp_fits b h) ∙ e))
        (let (x, y, z) = read_back b rest h in (h, x, y, z))
]

abbrev signed :
    (sha256 : Bytes → Bytes) (p : Purpose) (key : Bytes) (f : Fields) → Raises Bytes → Raises Bytes
signed sha256 p key f r = do b ← r; ok (label p ++ (kid sha256 key ++ b))

certificate_byte :
    (sha256 : Bytes → Bytes) (key : Bytes) (f : Fields) {d : Bytes}
    → signable sha256 sender_cert key f ≡ ok d
    → get_or d 13 0 ≡ 115
unfolding signable
certificate_byte sha256 key f e = elim (Result-cases (body sender_cert f)) [
  | inl (b, k) ↦ rw (← ok_injective (sym (ap (signed sha256 sender_cert key f) k) ∙ e)) refl
  | inr (x, k) ↦ absurd (err_ne_ok (sym (ap (signed sha256 sender_cert key f) k) ∙ e))
]

head_byte :
    (sha256 : Bytes → Bytes) (key : Bytes) (f : Fields) {d : Bytes}
    → signable sha256 kt_head key f ≡ ok d
    → get_or d 13 0 ≡ 107
unfolding signable
head_byte sha256 key f e = elim (Result-cases (body kt_head f)) [
  | inl (b, k) ↦ rw (← ok_injective (sym (ap (signed sha256 kt_head key f) k) ∙ e)) refl
  | inr (x, k) ↦ absurd (err_ne_ok (sym (ap (signed sha256 kt_head key f) k) ∙ e))
]

-- A sender certificate and a tree head never have the same signed bytes, whatever the keys, the fields
-- and the digest: the labels keep them apart.
pub signable-ne-signable :
    (sha256 : Bytes → Bytes) (key key' : Bytes) (f f' : Fields) {d d' : Bytes}
    → signable sha256 sender_cert key f ≡ ok d
    → signable sha256 kt_head key' f' ≡ ok d'
    → d ≢ d'
signable-ne-signable sha256 key key' f f' e e' same =
    let bytes_equal =
      sym (certificate_byte sha256 key f e)
      ∙ ap (λ t. get_or t 13 0) same
      ∙ head_byte sha256 key' f' e' in
    absurd (omega (arith, bytes_equal))

-- A delegation of times of 63 bits is made: behind the version, the purpose and the times, which can be
-- read off it, stands the key, and with a signature behind it it has the length that `main` checks.
pub delegated_reads :
    (p : Purpose) (not_before not_after : ℕ) (key signature : Bytes)
    → not_before < 2 ^ 63
    → not_after < 2 ^ 63
    → length key ≡ public_key_len
    → length signature ≡ signature_len
    → (d : Bytes) × (delegated p not_before not_after key ≡ ok d)
      × (take 2 d ≡ 1 ∷ number p ∷ [])
      × (of_be (take 8 (drop 2 d)) ≡ not_before)
      × (of_be (take 8 (drop 10 d)) ≡ not_after)
      × (drop 18 d ≡ key)
      × (length (d ++ signature) ≡ 18 + public_key_len + signature_len)
unfolding delegated pack_time
delegated_reads p a b key s ha hb hk hs =
    let d = 1 ∷ number p ∷ be 8 a ++ (be 8 b ++ key) in
    (
      d,
      rw (lt→ltb a (2 ^ 63) ha, lt→ltb b (2 ^ 63) hb) refl,
      refl,
      ap of_be (take_prefix 8 (be 8 a) (be 8 b ++ key) (length-be 8 a))
          ∙ of_be-be 8 a (omega arith),
      ap (λ t. of_be (take 8 t)) (drop_prefix 8 (be 8 a) (be 8 b ++ key) (length-be 8 a))
          ∙ ap of_be (take_prefix 8 (be 8 b) key (length-be 8 b))
          ∙ of_be-be 8 b (omega arith),
      sym (drop-drop 8 8 (be 8 a ++ (be 8 b ++ key)))
          ∙ ap (drop 8) (drop_prefix 8 (be 8 a) (be 8 b ++ key) (length-be 8 a))
          ∙ drop_prefix 8 (be 8 b) key (length-be 8 b),
      simp (length-append, length-be, hk, hs) refl,
    )
