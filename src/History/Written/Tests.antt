-- ===== src/History/Written/Tests.antt =====
-- What the generator writes for keys of zeros, a helper that signs with zeros, a digest of zeros and a
-- cipher whose texts are zeros.
use construct_protos.Prelude.{
  ℕ, ◌+◌, ◌≡◌, ◌↔◌, refl, List, [], true, false, some, All, arith, length, replicate,
  length-replicate,
}
use construct_protos.Prelude.Result.{ok}
use construct_protos.Bytes.{codes}
use construct_protos.Bytes.Made.{AreBytes}
use construct_protos.History.Sealed.{Aead}
use construct_protos.History.Rows.{Row, contains}
use construct_protos.History.Rows.Clean.{is_clean}
use construct_protos.History.Rows.Dict.{ids}
use construct_protos.History.Rows.Whole.{errors, required_ids, proto_tests}
use construct_protos.History.Rows.Tests.{
  zeros, zeros-IsByte, length-zeros, zero_keys, zero_keys-AreSized, sign_zeros, length-sign_zeros,
  zero_hmac,
}
use construct_protos.History.Written.{written, written_constants}
use construct_protos.History.Written.Accepted.{marks}
use construct_protos.History.Written.Keyed.{print_of}
use construct_protos.History.Written.Whole.{generated_accepted}

zeros-AreBytes : (n : ℕ) → AreBytes (zeros n)
zeros-AreBytes n = record { all = zeros-IsByte n }

abbrev zero_aead : Aead
zero_aead = record {
  encrypt = λ key nonce text aad. zeros (length text + 16);
  length-encrypt = λ key nonce text aad. length-zeros (length text + 16);
}

abbrev proto : List ℕ
proto = codes "oneof body message_content media_album profile_share"

proto_passes : All (λ c. c.0 ≡ true) (proto_tests proto false)
unfolding contains
proto_passes = (refl, (refl, (refl, tt)))

generated_accepted_example :
    (rows : List Row) × (written
        (λ m. zeros 32)
        zero_hmac
        zero_aead
        sign_zeros
        (print_of zero_keys (replicate 64 48) 9 (zeros 32))
      ≡ some (ok rows))
    × (ids rows ≡ required_ids)
    × (errors zero_hmac proto false written_constants rows ≡ some (ok (marks rows)))
    × ((errors zero_hmac proto false written_constants rows ≡ some (ok []))
        ↔ All (λ r. is_clean r.hex ≡ true) rows)
generated_accepted_example =
    generated_accepted (λ m. zeros 32) zero_hmac zero_aead sign_zeros (λ m. length-zeros 32)
      (λ key nonce text aad. zeros-AreBytes (length text + 16)) length-sign_zeros
      (λ ed m. zeros-AreBytes 3373) zero_keys (replicate 64 48) 9 (zeros 32) zero_keys-AreSized
      (length-replicate {A = ℕ} 64 48) (omega arith) (zeros-AreBytes 32) proto proto_passes
