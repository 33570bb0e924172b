-- ===== src/Trust/Sound.antt =====
-- When the tests of `main` of check_server_trust.py find nothing wrong: what the file must say.
use construct_protos.Prelude.{
  ℕ, ◌+◌, ◌^◌, ◌≡◌, ◌∙◌, ◌↔◌, refl, sym, ap, [], ◌++◌, true, false, ltb, ◌==◌, ◌&&◌, take, drop,
  length, arith, All, take_prefix, length-append, Bool-cases, inl, inr, take-append-drop,
}
use construct_protos.Prelude.Result.{ok, err, bind_ok, ok_injective, err_ne_ok, struct_error}
use construct_protos.Prelude.Checks.{
  checks, checks-nil, check-nil, append-nil_iff, each, each-nil, All-map_iff,
}
use construct_protos.Bytes.{Bytes}
use construct_protos.Bytes.Struct.{length-be, bytes_eq_iff}
use construct_protos.Bytes.Hex.{fromhex}
use construct_protos.Trust.{
  public_key_len, signature_len, label, kid, body, pack_time, delegated, delegation_signable,
}
use construct_protos.Trust.Main.{
  Delegation, Signature, Vectors, prefix_len, delegation_tests, signature_tests, key_tests,
  check_delegation, check_signature, errors, truncated,
}

-- The bytes that the root signs, and in `encoded` the same fields with a signature behind them.
pub record IsDelegation (key : Bytes) (d : Delegation) : Type 0 where
  pub signable : Bytes
  pub prefix : Bytes
  pub signature : Bytes
  pub signed : delegation_signable d.purpose d.not_before d.not_after key ≡ ok signable
  pub stated : fromhex d.signable ≡ ok signable
  pub delegates : delegated d.purpose d.not_before d.not_after key ≡ ok prefix
  pub encoded : fromhex d.encoded ≡ ok (prefix ++ signature)
  pub sized : length signature ≡ signature_len

-- The body is that of the fields, and the signed bytes are the label, the key's id and the body.
pub record IsSignature (sha256 : Bytes → Bytes) (key : Bytes) (s : Signature) : Type 0 where
  pub bytes : Bytes
  pub signature : Bytes
  pub made : body s.purpose s.fields ≡ ok bytes
  pub stated : fromhex s.body ≡ ok bytes
  pub signed : fromhex s.signable ≡ ok (label s.purpose ++ (kid sha256 key ++ bytes))
  pub encoded : fromhex s.signature ≡ ok signature
  pub sized : length signature ≡ signature_len

pub record IsTrusted (sha256 : Bytes → Bytes) (v : Vectors) : Type 0 where
  pub key : Bytes
  pub root : Bytes
  pub key_stated : fromhex v.server_key ≡ ok key
  pub root_stated : fromhex v.root_key ≡ ok root
  pub key_sized : length key ≡ public_key_len
  pub root_sized : length root ≡ public_key_len
  pub id : fromhex v.stated_kid ≡ ok (kid sha256 key)
  pub delegations : All (IsDelegation key) v.delegations
  pub signatures : All (IsSignature sha256 key) v.signatures
  pub two_delegations : length v.delegations ≡ 2
  pub two_signatures : length v.signatures ≡ 2

eq_iff : (m n : ℕ) → ((m == n) ≡ true) ↔ (m ≡ n)
eq_iff m n = ground arith

too_late : (n : ℕ) → ltb n (2 ^ 63) ≡ false → pack_time n ≡ err struct_error
unfolding pack_time
too_late n k = rw k refl

pack_time_length : (n : ℕ) {b : Bytes} → pack_time n ≡ ok b → length b ≡ 8
unfolding pack_time
pack_time_length n e = elim (Bool-cases (ltb n (2 ^ 63))) [
  | inl k ↦ ap length (ok_injective (sym e ∙ rw k refl)) ∙ length-be 8 n
  | inr k ↦ absurd (err_ne_ok (sym (too_late n k) ∙ e))
]

delegated_length :
    (d : Delegation) (key : Bytes) {w : Bytes}
    → delegated d.purpose d.not_before d.not_after key ≡ ok w
    → length key ≡ public_key_len
    → length w ≡ prefix_len
unfolding delegated
delegated_length d key e k =
    let (from, a, e₁) = bind_ok (pack_time d.not_before) _ e in
    let (to, b, e₂) = bind_ok (pack_time d.not_after) _ e₁ in
    let la = pack_time_length d.not_before a in
    let lb = pack_time_length d.not_after b in
    let l = length-append from (to ++ key) in
    let l' = length-append to key in
    ap length (sym (ok_injective e₂)) ∙ omega (arith, la, lb, l, l', k)

delegation_iff :
    (key : Bytes) (d : Delegation)
    → length key ≡ public_key_len
    → (check_delegation key d ≡ ok []) ↔ IsDelegation key d
unfolding check_delegation
delegation_iff key d k = (
  λ e.
      let (signable, a, e₁) =
        bind_ok (delegation_signable d.purpose d.not_before d.not_after key) _ e in
      let (stated, b, e₂) = bind_ok (fromhex d.signable) _ e₁ in
      let (enc, c, e₃) = bind_ok (fromhex d.encoded) _ e₂ in
      let (prefix, p, e₄) = bind_ok (delegated d.purpose d.not_before d.not_after key) _ e₃ in
      let (same, (size, (front, u))) =
        (checks-nil (delegation_tests d signable stated enc prefix)).0 (ok_injective e₄) in
      let n = (eq_iff (length enc) (prefix_len + signature_len)).0 size in
      let f = (bytes_eq_iff (take prefix_len enc) prefix).0 front in
      let whole = take-append-drop prefix_len enc in
      let lw = delegated_length d key p k in
      let ll = length-append (take prefix_len enc) (drop prefix_len enc) in
      record {
        signable = signable;
        prefix = prefix;
        signature = drop prefix_len enc;
        signed = a;
        stated = b ∙ ap ok ((bytes_eq_iff stated signable).0 same);
        delegates = p;
        encoded = c ∙ ap ok (sym whole ∙ ap (λ t. t ++ drop prefix_len enc) f);
        sized = omega (arith, n, ll, ap length whole, ap length f, lw);
      },
  λ h.
      let lw = delegated_length d key h.delegates k in
      let ll = length-append h.prefix h.signature in
      rw (h.signed, h.stated, h.encoded, h.delegates)
        (ap ok (
          (checks-nil
              (delegation_tests d h.signable h.signable (h.prefix ++ h.signature) h.prefix)).1
            (
              (bytes_eq_iff h.signable h.signable).1 refl,
              (
                (eq_iff _ _).1 (omega (arith, ll, lw, h.sized)),
                ((bytes_eq_iff _ _).1 (take_prefix prefix_len h.prefix h.signature lw), tt),
              ),
            ))),
)

module _ (sha256 : Bytes → Bytes) where
  signature_iff :
      (key : Bytes) (s : Signature)
      → (check_signature sha256 key s ≡ ok []) ↔ IsSignature sha256 key s
  unfolding check_signature
  signature_iff key s = (
    λ e.
        let (b, made, e₁) = bind_ok (body s.purpose s.fields) _ e in
        let (stated, p, e₂) = bind_ok (fromhex s.body) _ e₁ in
        let (signable, q, e₃) = bind_ok (fromhex s.signable) _ e₂ in
        let (signature, r, e₄) = bind_ok (fromhex s.signature) _ e₃ in
        let (same, (signed, (size, u))) =
          (checks-nil (signature_tests sha256 key s b stated signable signature)).0
            (ok_injective e₄) in
        record {
          bytes = b;
          signature = signature;
          made = made;
          stated = p ∙ ap ok ((bytes_eq_iff _ _).0 same);
          signed = q ∙ ap ok ((bytes_eq_iff _ _).0 signed);
          encoded = r;
          sized = (eq_iff (length signature) signature_len).0 size;
        },
    λ h.
        let signable = label s.purpose ++ (kid sha256 key ++ h.bytes) in
        rw (h.made, h.stated, h.signed, h.encoded)
          (ap ok (
            (checks-nil (signature_tests sha256 key s h.bytes h.bytes signable h.signature)).1 (
              (bytes_eq_iff h.bytes h.bytes).1 refl,
              (
                (bytes_eq_iff signable signable).1 refl,
                ((eq_iff (length h.signature) signature_len).1 h.sized, tt),
              ),
            ))),
  )

  key_tests_iff :
      (key root id : Bytes)
      → (checks (key_tests sha256 key root id) ≡ [])
        ↔ ((length key ≡ public_key_len) × (length root ≡ public_key_len) × (id ≡ kid sha256 key))
  key_tests_iff key root id = (
    λ e.
        let (k, (r, (i, u))) = (checks-nil (key_tests sha256 key root id)).0 e in
        (
          (eq_iff (length key) public_key_len).0 k,
          (eq_iff (length root) public_key_len).0 r,
          (bytes_eq_iff id (kid sha256 key)).0 i,
        ),
    λ (k, r, i). (checks-nil (key_tests sha256 key root id)).1 (
      (eq_iff (length key) public_key_len).1 k,
      ((eq_iff (length root) public_key_len).1 r, ((bytes_eq_iff id (kid sha256 key)).1 i, tt)),
    ),
  )

  two_iff : (m n : ℕ) → ((m == 2 && n == 2) ≡ true) ↔ ((m ≡ 2) × (n ≡ 2))
  two_iff m n = ground arith

  trusted : (v : Vectors) → errors sha256 v ≡ ok [] → IsTrusted sha256 v
  unfolding errors
  trusted v e =
      let (key, a, e₁) = bind_ok (fromhex v.server_key) _ e in
      let (root, b, e₂) = bind_ok (fromhex v.root_key) _ e₁ in
      let (id, c, e₃) = bind_ok (fromhex v.stated_kid) _ e₂ in
      let (ds, d, e₄) = bind_ok (each (check_delegation key) v.delegations) _ e₃ in
      let (ss, s, e₅) = bind_ok (each (check_signature sha256 key) v.signatures) _ e₄ in
      let (keys, e₆) = (append-nil_iff _ _).0 (ok_injective e₅) in
      let (no_d, e₇) = (append-nil_iff ds _).0 e₆ in
      let (no_s, e₈) = (append-nil_iff ss _).0 e₇ in
      let (k, r, i) = (key_tests_iff key root id).0 keys in
      let (n, m) =
        (two_iff (length v.delegations) (length v.signatures)).0 ((check-nil _ truncated).0 e₈) in
      record {
        key = key;
        root = root;
        key_stated = a;
        root_stated = b;
        key_sized = k;
        root_sized = r;
        id = c ∙ ap ok i;
        delegations =
            (All-map_iff (λ x. delegation_iff key x k) v.delegations).0
              ((each-nil (check_delegation key) v.delegations).0 (d ∙ ap ok no_d));
        signatures =
            (All-map_iff (signature_iff key) v.signatures).0
              ((each-nil (check_signature sha256 key) v.signatures).0 (s ∙ ap ok no_s));
        two_delegations = n;
        two_signatures = m;
      }

  accepted : (v : Vectors) → IsTrusted sha256 v → errors sha256 v ≡ ok []
  unfolding errors
  accepted v h =
      let ds =
        (each-nil (check_delegation h.key) v.delegations).1
          ((All-map_iff (λ x. delegation_iff h.key x h.key_sized) v.delegations).1 h.delegations) in
      let ss =
        (each-nil (check_signature sha256 h.key) v.signatures).1
          ((All-map_iff (signature_iff h.key) v.signatures).1 h.signatures) in
      let keys =
        (key_tests_iff h.key h.root (kid sha256 h.key)).1 (h.key_sized, h.root_sized, refl) in
      let two =
        (two_iff (length v.delegations) (length v.signatures)).1
          (h.two_delegations, h.two_signatures) in
      rw (h.key_stated, h.root_stated, h.id, ds, ss)
        (ap ok ((append-nil_iff _ _).1 (keys, (check-nil _ truncated).1 two)))

  -- `main` finds nothing wrong exactly if the file states two keys of 1984 bytes and the id of the
  -- server key, two delegations whose signed bytes and encoding are those of their fields with a
  -- signature of 3373 bytes behind, and two signatures whose body and signed bytes are those of
  -- their fields, of 3373 bytes too.
  pub errors-nil_iff_IsTrusted : (v : Vectors) → (errors sha256 v ≡ ok []) ↔ IsTrusted sha256 v
  errors-nil_iff_IsTrusted v = (trusted v, accepted v)
