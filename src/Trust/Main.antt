-- ===== src/Trust/Main.antt =====
-- conformance/check_server_trust.py: the tests of `main`, over a file of vectors that is read. The
-- purposes are those of the tables; SHA-256 is a parameter.
use construct_protos.Prelude.{ℕ, ◌+◌, List, [], ◌∷◌, ◌++◌, Bool, ◌&&◌, ◌==◌, take, length}
use construct_protos.Prelude.Result.{ok, Raises, ◌>>=◌}
use construct_protos.Prelude.Checks.{check, checks, each}
use construct_protos.Bytes.{Bytes, bytes_eq}
use construct_protos.Bytes.Hex.{fromhex}
use construct_protos.Trust.{
  public_key_len, signature_len, Purpose, Fields, label, kid, body, delegated, delegation_signable,
}

-- The dicts of the file, with their texts in hexadecimal.
pub record Delegation : Type 0 where
  pub purpose : Purpose
  pub not_before : ℕ
  pub not_after : ℕ
  pub signable : List ℕ
  pub encoded : List ℕ

pub record Signature : Type 0 where
  pub purpose : Purpose
  pub fields : Fields
  pub body : List ℕ
  pub signable : List ℕ
  pub signature : List ℕ

pub record Vectors : Type 0 where
  pub server_key : List ℕ
  pub stated_kid : List ℕ
  pub root_key : List ℕ
  pub delegations : List Delegation
  pub signatures : List Signature

-- What is wrong, without the text.
pub data Wrong : Type 0 where
  server_key_length root_key_length kid_differs truncated : Wrong
  delegation_signable_differs delegation_length delegation_encoding : Purpose → Wrong
  body_differs signable_differs signature_length : Purpose → Wrong

abbrev pub prefix_len : ℕ
prefix_len = 18 + public_key_len

-- The three tests of a delegation, with what `main` computes for them.
abbrev pub delegation_tests : Delegation → Bytes → Bytes → Bytes → Bytes → List (Bool × Wrong)
delegation_tests d signable stated enc prefix =
    (bytes_eq stated signable, delegation_signable_differs d.purpose)
    ∷ (length enc == prefix_len + signature_len, delegation_length d.purpose)
    ∷ (bytes_eq (take prefix_len enc) prefix, delegation_encoding d.purpose)
    ∷ []

-- The loop's body over v["delegations"]
unfoldable pub check_delegation : Bytes → Delegation → Raises (List Wrong)
unfolding checks delegation_signable delegated
check_delegation key d = do
  signable ← delegation_signable d.purpose d.not_before d.not_after key
  stated ← fromhex d.signable
  enc ← fromhex d.encoded
  prefix ← delegated d.purpose d.not_before d.not_after key
  ok (checks (delegation_tests d signable stated enc prefix))

module _ (sha256 : Bytes → Bytes) where
  abbrev pub signature_tests :
      Bytes → Signature → Bytes → Bytes → Bytes → Bytes → List (Bool × Wrong)
  signature_tests key s b stated signable signature =
      (bytes_eq stated b, body_differs s.purpose)
      ∷ (bytes_eq signable (label s.purpose ++ (kid sha256 key ++ b)), signable_differs s.purpose)
      ∷ (length signature == signature_len, signature_length s.purpose)
      ∷ []

  abbrev pub key_tests : Bytes → Bytes → Bytes → List (Bool × Wrong)
  key_tests key root id =
      (length key == public_key_len, server_key_length)
      ∷ (length root == public_key_len, root_key_length)
      ∷ (bytes_eq id (kid sha256 key), kid_differs)
      ∷ []

  -- The loop's body over v["signatures"]
  unfoldable pub check_signature : Bytes → Signature → Raises (List Wrong)
  unfolding checks kid body
  check_signature key s = do
    b ← body s.purpose s.fields
    stated ← fromhex s.body
    signable ← fromhex s.signable
    signature ← fromhex s.signature
    ok (checks (signature_tests key s b stated signable signature))

  -- `errors` at the end of `main`
  unfoldable pub errors : Vectors → Raises (List Wrong)
  unfolding checks kid check_delegation check_signature each
  errors v = do
    key ← fromhex v.server_key
    root ← fromhex v.root_key
    id ← fromhex v.stated_kid
    delegations ← each (check_delegation key) v.delegations
    signatures ← each (check_signature key) v.signatures
    ok (
        checks (key_tests key root id)
        ++ (delegations
            ++ (signatures
                ++ check (length v.delegations == 2 && length v.signatures == 2) truncated)))
