-- ===== src/Trust.antt =====
-- conformance/check_server_trust.py: the byte strings that the offline root and a delegated key
-- sign, rebuilt from their fields, and the tests of `main`. SHA-256 is a parameter. The times are
-- signed numbers of 64 bits in the code; here they are not negative.
pub mod Layout
pub mod Main
mod Split
mod Signed
pub mod Sound
mod Tests
use construct_protos.Prelude.{
  ℕ, ◌+◌, ◌<◌, ◌^◌, List, [], ◌∷◌, ◌++◌, Bool, true, false, ltb, ◌==◌, if◌then◌else◌, take, length,
}
use construct_protos.Prelude.Result.{ok, err, Raises, struct_error, value_error, ◌>>=◌}
use construct_protos.Bytes.{Bytes, bytes_eq, be, pack_be, codes}
use construct_protos.Bytes.Hex.{fromhex}
use construct_protos.Proto.{utf8}

-- PUBLIC_KEY_LEN
abbrev pub public_key_len : ℕ
public_key_len = 32 + 1952

-- SIGNATURE_LEN
abbrev pub signature_len : ℕ
signature_len = 64 + 3309

pub data Purpose : Type 0 where
  sender_cert kt_head sticker_manifest : Purpose

-- PURPOSE
abbrev pub number : Purpose → ℕ
number sender_cert = 1
number kt_head = 2
number sticker_manifest = 3

-- LABEL
abbrev pub label : Purpose → Bytes
label sender_cert = codes "konstruct/v1/sender-cert"
label kt_head = codes "konstruct/v1/kt-head"
label sticker_manifest = codes "konstruct/v1/sticker-manifest"

unfoldable pub lp : Bytes → Raises Bytes
lp b = do size ← pack_be 2 (length b); ok (size ++ b)

-- ">q" of a number that is not negative
unfoldable pub pack_time : ℕ → Raises Bytes
pack_time n = if ltb n (2 ^ 63) then ok (be 8 n) else err struct_error

-- The fields of a sender certificate and of a tree head.
pub record Fields : Type 0 where
  pub user_id : List ℕ
  pub domain : List ℕ
  pub identity_key : List ℕ
  pub device_id : List ℕ
  pub issued_at : ℕ
  pub expires_at : ℕ
  pub tree_size : ℕ
  pub root_hash : List ℕ

unfoldable pub body : Purpose → Fields → Raises Bytes
unfolding lp pack_time
body sender_cert f = do
  user ← lp (utf8 f.user_id)
  domain ← lp (utf8 f.domain)
  key ← fromhex f.identity_key
  identity ← lp key
  device ← lp (utf8 f.device_id)
  issued ← pack_time f.issued_at
  expires ← pack_time f.expires_at
  ok (user ++ (domain ++ (identity ++ (device ++ (issued ++ expires)))))
body kt_head f = do size ← pack_be 8 f.tree_size; root ← fromhex f.root_hash; ok (size ++ root)
body sticker_manifest f = err value_error

-- The version, the purpose, the two times and the key, which a delegation carries and signs.
unfoldable pub delegated : Purpose → ℕ → ℕ → Bytes → Raises Bytes
unfolding pack_time
delegated p not_before not_after key = do
  from ← pack_time not_before
  to ← pack_time not_after
  ok (1 ∷ number p ∷ from ++ (to ++ key))

unfoldable pub delegation_signable : Purpose → ℕ → ℕ → Bytes → Raises Bytes
unfolding delegated
delegation_signable p not_before not_after key = do
  stated ← delegated p not_before not_after key
  ok (codes "konstruct/v1/delegation" ++ stated)

module _ (sha256 : Bytes → Bytes) where
  unfoldable pub kid : Bytes → Bytes
  kid key = take 16 (sha256 (codes "konstruct/v1/kid" ++ key))

  -- LABEL[p] + kid(key) + body
  unfoldable pub signable : Purpose → Bytes → Fields → Raises Bytes
  unfolding kid body
  signable p key f = do b ← body p f; ok (label p ++ (kid key ++ b))
