-- ===== src/Trust/Signed.antt =====
-- The signed bytes of conformance/check_server_trust.py, taken apart into the purpose, the id of the key
-- and the fields.
use construct_protos.Prelude.{
  ◌≡◌, ◌∙◌, refl, sym, ap, [], ◌++◌, length, arith, append_split, append_nil_right, length-take,
}
use construct_protos.Prelude.Result.{ok, bind_ok, ok_injective, err_ne_ok}
use construct_protos.Bytes.{Bytes, pack_be, codes}
use construct_protos.Bytes.Hex.{fromhex}
use construct_protos.Proto.{utf8}
use construct_protos.Trust.{
  Purpose, sender_cert, kt_head, sticker_manifest, label, lp, pack_time, Fields, body, kid,
  signable,
}
use construct_protos.Trust.Layout.{signable-ne-signable}
use construct_protos.Trust.Split.{lp_split, time_split, size_split}

-- Two sets of fields that agree in all that the purpose signs: the texts in their UTF-8, the keys in
-- what their hexadecimal text stands for. Nothing is signed for a manifest.
abbrev pub Agree : Purpose → Fields → Fields → Type 0
Agree sender_cert f g =
    (utf8 f.user_id ≡ utf8 g.user_id)
    × (utf8 f.domain ≡ utf8 g.domain)
    × (fromhex f.identity_key ≡ fromhex g.identity_key)
    × (utf8 f.device_id ≡ utf8 g.device_id)
    × (f.issued_at ≡ g.issued_at)
    × (f.expires_at ≡ g.expires_at)
Agree kt_head f g = (f.tree_size ≡ g.tree_size) × (fromhex f.root_hash ≡ fromhex g.root_hash)
Agree sticker_manifest f g = ⊥

-- A certificate's body, as its parts.
record Parts (f : Fields) (b : Bytes) : Type 0 where
  user : Bytes
  domain : Bytes
  key : Bytes
  identity : Bytes
  device : Bytes
  issued : Bytes
  expires : Bytes
  user_of : lp (utf8 f.user_id) ≡ ok user
  domain_of : lp (utf8 f.domain) ≡ ok domain
  key_of : fromhex f.identity_key ≡ ok key
  identity_of : lp key ≡ ok identity
  device_of : lp (utf8 f.device_id) ≡ ok device
  issued_of : pack_time f.issued_at ≡ ok issued
  expires_of : pack_time f.expires_at ≡ ok expires
  whole : user ++ (domain ++ (identity ++ (device ++ (issued ++ (expires ++ []))))) ≡ b

certificate-Parts : (f : Fields) {b : Bytes} → body sender_cert f ≡ ok b → Parts f b
unfolding body
certificate-Parts f e =
    let (user, u, e₁) = bind_ok (lp (utf8 f.user_id)) _ e in
    let (domain, v, e₂) = bind_ok (lp (utf8 f.domain)) _ e₁ in
    let (key, k, e₃) = bind_ok (fromhex f.identity_key) _ e₂ in
    let (identity, i, e₄) = bind_ok (lp key) _ e₃ in
    let (device, x, e₅) = bind_ok (lp (utf8 f.device_id)) _ e₄ in
    let (issued, y, e₆) = bind_ok (pack_time f.issued_at) _ e₅ in
    let (expires, z, e₇) = bind_ok (pack_time f.expires_at) _ e₆ in
    record {
      user = user;
      domain = domain;
      key = key;
      identity = identity;
      device = device;
      issued = issued;
      expires = expires;
      user_of = u;
      domain_of = v;
      key_of = k;
      identity_of = i;
      device_of = x;
      issued_of = y;
      expires_of = z;
      whole = rw (append_nil_right expires) (ok_injective e₇);
    }

head_fixes :
    (f g : Fields) {b : Bytes} → body kt_head f ≡ ok b → body kt_head g ≡ ok b → Agree kt_head f g
unfolding body
head_fixes f g e e' =
    let (size, s, e₁) = bind_ok (pack_be 8 f.tree_size) _ e in
    let (root, r, e₂) = bind_ok (fromhex f.root_hash) _ e₁ in
    let (size', s', e₁') = bind_ok (pack_be 8 g.tree_size) _ e' in
    let (root', r', e₂') = bind_ok (fromhex g.root_hash) _ e₁' in
    let (sizes, roots) =
      size_split f.tree_size g.tree_size root root' s s'
        (ok_injective e₂ ∙ sym (ok_injective e₂')) in
    (sizes, r ∙ ap ok roots ∙ sym r')

manifest_never : (f : Fields) {b : Bytes} → body sticker_manifest f ≡ ok b → ⊥
unfolding body
manifest_never f e = err_ne_ok e

body_fixes :
    (p : Purpose) (f g : Fields) {b : Bytes} → body p f ≡ ok b → body p g ≡ ok b → Agree p f g
body_fixes sender_cert f g e e' =
    let c = certificate-Parts f e in
    let c' = certificate-Parts g e' in
    let (user, r₁) = lp_split _ _ _ _ c.user_of c'.user_of (c.whole ∙ sym c'.whole) in
    let (domain, r₂) = lp_split _ _ _ _ c.domain_of c'.domain_of r₁ in
    let (key, r₃) = lp_split _ _ _ _ c.identity_of c'.identity_of r₂ in
    let (device, r₄) = lp_split _ _ _ _ c.device_of c'.device_of r₃ in
    let (issued, r₅) = time_split _ _ _ _ c.issued_of c'.issued_of r₄ in
    let (expires, r₆) = time_split _ _ _ _ c.expires_of c'.expires_of r₅ in
    (user, domain, c.key_of ∙ ap ok key ∙ sym c'.key_of, device, issued, expires)
body_fixes kt_head f g e e' = head_fixes f g e e'
body_fixes sticker_manifest f g e e' = manifest_never f e

module _ (sha256 : Bytes → Bytes) (length-sha256 : (m : Bytes) → length (sha256 m) ≡ 32) where
  length-kid : (key : Bytes) → length (kid sha256 key) ≡ 16
  unfolding kid
  length-kid key =
      let message = codes "konstruct/v1/kid" ++ key in
      omega (arith, length-take 16 (sha256 message), length-sha256 message)

  signable_inv :
      (p : Purpose) (key : Bytes) (f : Fields) {d : Bytes}
      → signable sha256 p key f ≡ ok d
      → (b : Bytes) × (body p f ≡ ok b) × (label p ++ (kid sha256 key ++ b) ≡ d)
  unfolding signable
  signable_inv p key f e =
      let (b, made, same) = bind_ok (body p f) _ e in (b, made, ok_injective same)

  same_purpose :
      (p : Purpose) (key key' : Bytes) (f g : Fields) {d : Bytes}
      → signable sha256 p key f ≡ ok d
      → signable sha256 p key' g ≡ ok d
      → (kid sha256 key ≡ kid sha256 key') × Agree p f g
  same_purpose p key key' f g e e' =
      let (b, made, whole) = signable_inv p key f e in
      let (b', made', whole') = signable_inv p key' g e' in
      let (labels, rest) =
        append_split (length (label p)) (label p) (label p) _ _ refl refl (whole ∙ sym whole') in
      let (kids, bodies) =
        append_split 16 (kid sha256 key) (kid sha256 key') b b' (length-kid key) (length-kid key')
          rest in
      (kids, body_fixes p f g made (made' ∙ ap ok (sym bodies)))

  never_signed :
      (key : Bytes) (f : Fields) {d : Bytes} → signable sha256 sticker_manifest key f ≡ ok d → ⊥
  never_signed key f e =
      let (b, made, whole) = signable_inv sticker_manifest key f e in manifest_never f made

  -- Signed bytes fix what they were made of: where the same bytes are signed with two keys, for two
  -- purposes and sets of fields, with a digest of 32 bytes, the purposes are the same, the two keys
  -- have the same id, and the fields agree in all that the purpose signs.
  pub signable_injective :
      (p q : Purpose) (key key' : Bytes) (f g : Fields) {d : Bytes}
      → signable sha256 p key f ≡ ok d
      → signable sha256 q key' g ≡ ok d
      → (p ≡ q) × (kid sha256 key ≡ kid sha256 key') × Agree p f g
  signable_injective sender_cert sender_cert key key' f g e e' =
      let (kids, fields) = same_purpose sender_cert key key' f g e e' in (refl, kids, fields)
  signable_injective kt_head kt_head key key' f g e e' =
      let (kids, fields) = same_purpose kt_head key key' f g e e' in (refl, kids, fields)
  signable_injective sender_cert kt_head key key' f g e e' =
      absurd (signable-ne-signable sha256 key key' f g e e' refl)
  signable_injective kt_head sender_cert key key' f g e e' =
      absurd (signable-ne-signable sha256 key' key g f e' e refl)
  signable_injective sticker_manifest q key key' f g e e' = absurd (never_signed key f e)
  signable_injective sender_cert sticker_manifest key key' f g e e' =
      absurd (never_signed key' g e')
  signable_injective kt_head sticker_manifest key key' f g e e' = absurd (never_signed key' g e')
