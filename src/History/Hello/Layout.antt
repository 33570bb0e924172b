-- ===== src/History/Hello/Layout.antt =====
-- The opening of a transfer, for keys of the lengths that the algorithms have: its length and where
-- its fields stand.
use construct_protos.Prelude.{
  ℕ, ◌+◌, ◌^◌, ◌<◌, ◌≡◌, ◌∙◌, refl, ap, [], ◌∷◌, ◌++◌, Bool, true, false, Option, none, some, ◌==◌,
  if◌then◌else◌, take, drop, slice, length, replicate, All, arith, length-append, sym, drop-drop,
  drop_prefix,
}
use construct_protos.Prelude.Result.{ok}
use construct_protos.Bytes.{Bytes, IsByte, le, codes}
use construct_protos.Bytes.Struct.{length-le, pack_le_fits, bytes_of_fits}
use construct_protos.Bytes.Hex.{hex, fromhex-hex}
use construct_protos.History.Sealed.{snapshot_id}
use construct_protos.History.Hello.{
  opening_len, opening_prefix, Transcript, opening_body, opening_transcript, or_kem, of_length,
  opening_of, build_opening,
}
use construct_protos.History.Hello.Sizes.{
  KeyBytes, AreSized, texts, of_length_ok, field_at, regroup, length_seven,
}

-- The transcript of an opening, from the keys as bytes.
abbrev pub transcript_of : KeyBytes → ℕ → Bytes → Transcript
transcript_of k typ kem = record {
  sender_eph = k.sender_eph;
  sender_identity = k.offering_identity;
  sender_hybrid = k.hybrid;
  snapshot = if typ == 3 then replicate 16 0 else snapshot_id;
  sender_id = k.offering_device_id;
  receiver_id = k.receiver_device_id;
  kyber_key_id = k.kyber_key_id;
  kem_ct = kem;
  typ = typ;
  payload_len = 0;
}

length-snapshot : (b : Bool) → length (if b then replicate 16 0 else snapshot_id) ≡ 16
length-snapshot true = refl
length-snapshot false = refl

abbrev pub chosen_kem : Option Bytes → Bytes → Bytes
chosen_kem none kem_ct = kem_ct
chosen_kem (some kem) kem_ct = kem

or_kem-hex : (o : Option Bytes) (b : Bytes) → All IsByte b → or_kem o (hex b) ≡ ok (chosen_kem o b)
unfolding or_kem
or_kem-hex none b h = fromhex-hex b h
or_kem-hex (some c) b h = refl

-- The prefix of an opening, and the bytes it is made of.
abbrev opening_head : Bytes → ℕ → Bytes
opening_head eph typ = codes "CTT1" ++ (2 ∷ eph ++ ((typ ∷ []) ++ le 8 0))

opening_prefix_lem :
    (eph : Bytes) (typ : ℕ) → typ < 256 → opening_prefix eph typ 0 ≡ ok (opening_head eph typ)
unfolding opening_prefix
opening_prefix_lem eph typ h =
    rw (bytes_of_fits (typ ∷ []) (h, tt), pack_le_fits 8 0 (omega arith)) refl

length-opening_head : (eph : Bytes) (typ : ℕ) → length eph ≡ 32 → length (opening_head eph typ) ≡ 46
length-opening_head eph typ h = simp (length-append, h, length-le) (omega arith)

-- The parts of an opening, made up to the whole.
abbrev in_front : Transcript → Bytes
in_front t =
    opening_head t.sender_eph t.typ
    ++ (t.sender_identity
        ++ (t.sender_hybrid
            ++ (t.snapshot ++ (t.sender_id ++ (t.receiver_id ++ le 4 t.kyber_key_id)))))

abbrev AreFields : Transcript → Type 0
AreFields t =
    (length t.sender_eph ≡ 32)
    × (length t.sender_identity ≡ 32)
    × (length t.sender_hybrid ≡ 1984)
    × (length t.snapshot ≡ 16)
    × (length t.sender_id ≡ 16)
    × (length t.receiver_id ≡ 16)
    × (t.kyber_key_id < 256 ^ 4)
    × (length t.kem_ct ≡ 1568)
    × (t.typ < 256)
    × (t.payload_len ≡ 0)

length-in_front : (t : Transcript) → AreFields t → length (in_front t) ≡ 2114
length-in_front t (he, hi, hh, hs, ha, hb, hk, hc, ht, hz) =
    length_seven (opening_head t.sender_eph t.typ) t.sender_identity t.sender_hybrid t.snapshot
      t.sender_id t.receiver_id (le 4 t.kyber_key_id) 46 32 1984 4
      (length-opening_head t.sender_eph t.typ he) hi hh hs ha hb (length-le 4 t.kyber_key_id)

-- What the signature of an opening covers.
abbrev signed_message : Transcript → Bytes
signed_message t =
    codes "ctt1v2-s"
    ++ (t.sender_eph ++ (opening_body t (le 4 t.kyber_key_id) ++ ((t.typ ∷ []) ++ le 8 0)))

abbrev pub opening_message : KeyBytes → ℕ → Option Bytes → Bytes
opening_message k typ kem = signed_message (transcript_of k typ (chosen_kem kem k.kem_ct))

module _ (helper_sign : Bool → Bytes → Bytes)
    (length-sign : (ed : Bool) (m : Bytes) → length (helper_sign ed m) ≡ 3373) where
  abbrev signature : Transcript → Bool → Bytes
  signature t ed = helper_sign ed (signed_message t)

  abbrev whole : Transcript → Bool → Bytes
  whole t ed = in_front t ++ (t.kem_ct ++ signature t ed)

  length-whole : (t : Transcript) (ed : Bool) → AreFields t → length (whole t ed) ≡ opening_len
  length-whole t ed (he, hi, hh, hs, ha, hb, hk, hc, ht, hz) =
      rw
        (
          length-append (in_front t) (t.kem_ct ++ signature t ed),
          length-append t.kem_ct (signature t ed),
          length-in_front t (he, hi, hh, hs, ha, hb, hk, hc, ht, hz),
          hc,
          length-sign,
        )
        refl

  opening_of-whole :
      (t : Transcript) (ed : Bool) → AreFields t → opening_of helper_sign t ed ≡ ok (whole t ed)
  unfolding opening_of opening_transcript opening_prefix
  opening_of-whole t ed h =
      let (he, hi, hh, hs, ha, hb, hk, hc, ht, hz) = h in
      rw
        (
          pack_le_fits 4 t.kyber_key_id hk,
          bytes_of_fits (t.typ ∷ []) (ht, tt),
          hz,
          pack_le_fits 8 0 (omega arith),
        )
        (ap (of_length opening_len) (
            regroup (opening_head t.sender_eph t.typ) t.sender_identity t.sender_hybrid t.snapshot
              t.sender_id t.receiver_id (le 4 t.kyber_key_id) t.kem_ct (signature t ed))
          ∙ of_length_ok opening_len (whole t ed) (length-whole t ed h))

  -- An opening of keys of the lengths of their algorithms, of a type below 256, with the ciphertext of
  -- the keys or another of 1568 bytes: it is made (the assertion on its length holds), and the frame
  -- has the 7055 bytes, the first five bytes, and at offset 2114 the ciphertext, that the checker reads,
  -- and behind it the signature of its message.
  pub build_opening_accepted :
      (k : KeyBytes) (typ : ℕ) (kem : Option Bytes) (ed_only : Bool)
      → AreSized k
      → typ < 256
      → length (chosen_kem kem k.kem_ct) ≡ 1568
      → (frame : Bytes) × (build_opening helper_sign (texts k) typ kem ed_only ≡ ok frame)
        × (length frame ≡ opening_len)
        × (take 5 frame ≡ codes "CTT1" ++ (2 ∷ []))
        × (slice 2114 (2114 + 1568) frame ≡ chosen_kem kem k.kem_ct)
        × (drop 3682 frame ≡ helper_sign ed_only (opening_message k typ kem))
  unfolding build_opening
  build_opening_accepted k typ kem ed_only
        ((be, he), (br, hr), (bi, hi), (bq, hq), (bh, hh), (ba, ha), (bb, hb), hk, (bc, hc)) small
        sized =
      let c = chosen_kem kem k.kem_ct in
      let t = transcript_of k typ c in
      let h : AreFields t =
        (he, hi, hh, length-snapshot (typ == 3), ha, hb, hk, sized, small, refl) in
      (
        whole t ed_only,
        rw
            (
              fromhex-hex k.sender_eph be,
              fromhex-hex k.offering_identity bi,
              fromhex-hex k.hybrid bh,
              fromhex-hex k.offering_device_id ba,
              fromhex-hex k.receiver_device_id bb,
              or_kem-hex kem k.kem_ct bc,
            )
            (opening_of-whole t ed_only h),
        length-whole t ed_only h,
        refl,
        field_at 2114 1568 (in_front t) c (signature t ed_only) (length-in_front t h) sized,
        sym (drop-drop 2114 1568 (whole t ed_only))
            ∙ ap (drop 1568)
                (drop_prefix 2114 (in_front t) (c ++ signature t ed_only) (length-in_front t h))
            ∙ drop_prefix 1568 c (signature t ed_only) sized,
      )
