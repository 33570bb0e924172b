-- ===== src/Trust/Tests.antt =====
-- The theorems on the server trust at concrete inputs: keys and digests of zeros.
use construct_protos.Prelude.{◌≡◌, ◌↔◌, refl, [], ◌∷◌, ◌++◌, replicate}
use construct_protos.Prelude.Result.{ok}
use construct_protos.Bytes.{Bytes, pack_be, codes}
use construct_protos.Bytes.Hex.{hex, fromhex, digit_value, is_space}
use construct_protos.Proto.{utf8}
use construct_protos.Trust.{
  sender_cert, kt_head, lp, pack_time, Fields, body, kid, signable, public_key_len, signature_len,
}
use construct_protos.Trust.Main.{Vectors, errors}
use construct_protos.Trust.Sound.{IsTrusted, errors-nil_iff_IsTrusted}
use construct_protos.Trust.Signed.{Agree, signable_injective}

abbrev two : Bytes
two = 7 ∷ 9 ∷ []

-- The two behind their length, and one byte more.
abbrev written : Bytes
written = 0 ∷ 2 ∷ 7 ∷ 9 ∷ 5 ∷ []

lp_two : lp (7 ∷ 9 ∷ []) ≡ ok (0 ∷ 2 ∷ 7 ∷ 9 ∷ [])
unfolding lp pack_be
lp_two = refl

abbrev fields : Fields
fields = record {
  user_id = codes "u";
  domain = codes "d";
  identity_key = codes "ab";
  device_id = codes "x";
  issued_at = 1;
  expires_at = 2;
  tree_size = 3;
  root_hash = codes "00";
}

abbrev sha256 : Bytes → Bytes
sha256 message = replicate 32 0

abbrev certificate : Bytes
certificate =
    codes "konstruct/v1/sender-cert"
    ++ (replicate 16 0
        ++ (0 ∷ 1 ∷ 117 ∷ 0 ∷ 1 ∷ 100 ∷ 0 ∷ 1 ∷ 0xab ∷ 0 ∷ 1 ∷ 120 ∷ 0 ∷ 0 ∷ 0 ∷ 0 ∷ 0 ∷ 0 ∷ 0 ∷ 1
            ∷ 0 ∷ 0 ∷ 0 ∷ 0 ∷ 0 ∷ 0 ∷ 0 ∷ 2 ∷ []))

abbrev tree_head : Bytes
tree_head =
    codes "konstruct/v1/kt-head" ++ (replicate 16 0 ++ (0 ∷ 0 ∷ 0 ∷ 0 ∷ 0 ∷ 0 ∷ 0 ∷ 3 ∷ 0 ∷ []))

certificate_made : signable sha256 sender_cert [] fields ≡ ok certificate
unfolding signable body lp pack_time pack_be utf8 fromhex digit_value is_space
certificate_made = refl

head_made : signable sha256 kt_head [] fields ≡ ok tree_head
unfolding signable body lp pack_time pack_be utf8 fromhex digit_value is_space
head_made = refl

-- The same key in upper case: the same bytes are signed.
abbrev shouted : Fields
shouted = record fields { identity_key = codes "AB" }

shouted_made : signable sha256 sender_cert [] shouted ≡ ok certificate
unfolding signable body lp pack_time pack_be utf8 fromhex digit_value is_space
shouted_made = refl

signable_injective_example :
    (sender_cert ≡ sender_cert) × (kid sha256 [] ≡ kid sha256 []) × Agree sender_cert fields shouted
signable_injective_example =
    signable_injective sha256 (λ m. refl) sender_cert sender_cert [] [] fields shouted
      certificate_made shouted_made

-- A file with keys of zeros, one delegation and the certificate of `fields`.
abbrev file : Vectors
file = record {
  server_key = hex (replicate public_key_len 0);
  stated_kid = hex (replicate 16 0);
  root_key = hex (replicate public_key_len 0);
  delegations =
      record {
        purpose = kt_head;
        not_before = 1;
        not_after = 2;
        signable = codes "00";
        encoded = codes "00";
      }
      ∷ [];
  signatures =
      record {
        purpose = sender_cert;
        fields = fields;
        body = codes "00";
        signable = codes "00";
        signature = hex (replicate signature_len 0);
      }
      ∷ [];
}

errors-nil_iff_IsTrusted_example : (errors sha256 file ≡ ok []) ↔ IsTrusted sha256 file
errors-nil_iff_IsTrusted_example = errors-nil_iff_IsTrusted sha256 file
