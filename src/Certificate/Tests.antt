-- ===== src/Certificate/Tests.antt =====
-- The theorem on the device certificate at a file of zeros, with digests of zeros.
use construct_protos.Prelude.{ℕ, ◌≡◌, ◌↔◌, [], length, replicate, length-replicate}
use construct_protos.Prelude.Result.{ok}
use construct_protos.Bytes.{Bytes}
use construct_protos.Bytes.Hex.{hex}
use construct_protos.Certificate.{Stated, DeviceKeys, Vectors, errors}
use construct_protos.Certificate.Layout.{certificate_of}
use construct_protos.Certificate.Sound.{IsCertified, errors-nil_iff_IsCertified}

-- Long values stay shut: only their lengths count here.
zeros : ℕ → Bytes
zeros n = replicate n 0

abbrev sha256 : Bytes → Bytes
sha256 message = replicate 32 0

abbrev hmac_sha256 : Bytes → Bytes → Bytes
hmac_sha256 key message = replicate 32 0

length-sha256 : (m : Bytes) → length (sha256 m) ≡ 32
length-sha256 m = length-replicate {A = ℕ} 32 0

abbrev device : Stated
device = record {
  identity = hex (zeros 32);
  verifying = hex (zeros 32);
  hybrid = hex (zeros 1984);
  hybrid_binding = hex (zeros 64);
  device_id = hex (zeros 16);
}

abbrev vectors : Vectors
vectors = record {
  signer = device;
  subject = device;
  issued_at = 1790000000;
  message_sha256 = hex (zeros 32);
  certificate = hex (certificate_of (zeros 16) 1790000000 (zeros 1984) (zeros 3373));
  certificate_sha256 = hex (zeros 32);
  link_secret = hex (zeros 32);
  link_key_proof = hex (zeros 32);
}

errors-nil_iff_IsCertified_example : (errors sha256 hmac_sha256 vectors ≡ ok []) ↔ (
    (signer : DeviceKeys) × (subject : DeviceKeys) × (signature : Bytes) × (secret : Bytes)
    × IsCertified sha256 hmac_sha256 vectors signer subject signature secret)
errors-nil_iff_IsCertified_example =
    errors-nil_iff_IsCertified sha256 hmac_sha256 vectors length-sha256
