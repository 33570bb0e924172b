-- ===== src/History/Hello/Tests.antt =====
-- The theorems on what is signed in front of a transfer, at keys of zeros.
use construct_protos.Prelude.{◌≡◌, ◌≢◌, false, none, arith, drop}
use construct_protos.Prelude.Result.{ok}
use construct_protos.Bytes.{Bytes}
use construct_protos.History.Hello.{Transcript, build_opening, build_reply, build_cthf}
use construct_protos.History.Hello.Sizes.{texts}
use construct_protos.History.Hello.Layout.{opening_message}
use construct_protos.History.Hello.Framing.{reply_message, header_message}
use construct_protos.History.Hello.Labels.{frames_signed_apart}
use construct_protos.History.Hello.Signed.{
  IsSized, written, opening_transcript-written, opening_transcript_injective,
}
use construct_protos.History.Rows.Tests.{
  zeros, length-zeros, zero_keys, zero_keys-AreSized, sign_zeros, length-sign_zeros,
}

abbrev of_zeros : Transcript
of_zeros = record {
  sender_eph = zeros 32;
  sender_identity = zeros 32;
  sender_hybrid = zeros 1984;
  snapshot = zeros 16;
  sender_id = zeros 16;
  receiver_id = zeros 16;
  kyber_key_id = 7;
  kem_ct = zeros 1568;
  typ = 2;
  payload_len = 0;
}

of_zeros-IsSized : IsSized of_zeros
of_zeros-IsSized = record {
  sender_eph = length-zeros 32;
  sender_identity = length-zeros 32;
  sender_hybrid = length-zeros 1984;
  snapshot = length-zeros 16;
  sender_id = length-zeros 16;
  receiver_id = length-zeros 16;
  kyber_key_id = omega arith;
  kem_ct = length-zeros 1568;
  typ = omega arith;
  payload_len = omega arith;
}

opening_transcript_injective_example : of_zeros ≡ of_zeros
opening_transcript_injective_example =
    opening_transcript_injective of_zeros of_zeros {d = written of_zeros} of_zeros-IsSized
      of_zeros-IsSized (opening_transcript-written of_zeros of_zeros-IsSized)
      (opening_transcript-written of_zeros of_zeros-IsSized)

frames_signed_apart_example :
    (opening : Bytes) × (reply : Bytes) × (header : Bytes) × (build_opening sign_zeros
        (texts zero_keys)
        2
        none
        false
      ≡ ok opening)
    × (build_reply sign_zeros (texts zero_keys) ≡ ok reply)
    × (build_cthf sign_zeros (texts zero_keys) none ≡ ok header)
    × (drop 3682 opening ≡ sign_zeros false (opening_message zero_keys 2 none))
    × (drop 2048 reply ≡ sign_zeros false (reply_message zero_keys))
    × (drop 3689 header ≡ sign_zeros false (header_message zero_keys none))
    × (opening_message zero_keys 2 none ≢ reply_message zero_keys)
    × (opening_message zero_keys 2 none ≢ header_message zero_keys none)
    × (reply_message zero_keys ≢ header_message zero_keys none)
frames_signed_apart_example =
    frames_signed_apart sign_zeros length-sign_zeros zero_keys zero_keys zero_keys 2 none false none
      zero_keys-AreSized zero_keys-AreSized zero_keys-AreSized (omega arith) (length-zeros 1568)
      (omega arith)
