-- ===== src/Proto.antt =====
-- The protobuf encoders of scripts/gen_history_snapshot_vectors.py (`_varint`, `_key`, `p_bytes` and
-- the rest), and the ones of conformance/check_contact_card.py (`field`, `varint_field`).
pub mod Varint
pub mod Payload
pub mod Decode
use Prim.Native.Nat.{bit_and, bit_or}
use mathlib.Core.Logic.{dite}
use mathlib.Core.WellFounded.{Acc}
use native.Mathlib.Decide.{dec_lt}
use construct_protos.Prelude.{
  ℕ, zero, suc, ◌+◌, ◌*◌, ◌/◌, ◌%◌, ◌^◌, ◌<◌, List, [], ◌∷◌, ◌++◌, Bool, true, false, arith, ltb,
  if◌then◌else◌, length, String,
}
use construct_protos.Prelude.Order.{lt_wf}
use construct_protos.Prelude.Result.{ok, err, Raises, ◌>>=◌}
use construct_protos.Bytes.{Bytes, bytes_of, codes}

pub shrinks : (n : ℕ) → 0x7f < n → n / 128 < n
shrinks n h = omega arith

pub shrinks_to : (n : ℕ) → 0 < n / 128 → n / 128 < n
shrinks_to n h = omega arith

-- while n > 0x7F: ...
unfoldable pub varint_loop : (n : ℕ) → Acc ◌<◌ n → Bytes
unfolding dec_lt
varint_loop n (Acc.intro _ smaller) =
    dite (dec_lt 0x7f n)
      (λ more.
        bit_or (bit_and n 0x7f) 0x80 ∷ varint_loop (n / 128) (smaller (n / 128) (shrinks n more)))
      (λ _. n ∷ [])

-- `_varint`; the mask with 64 ones is the remainder by 2 ^ 64
unfoldable pub varint : ℕ → Bytes
unfolding varint_loop lt_wf
varint n = varint_loop (n % 2 ^ 64) (lt_wf.apply (n % 2 ^ 64))

-- `_key`
unfoldable pub key : ℕ → ℕ → Bytes
key field wire = varint (bit_or (field * 8) wire)

unfoldable pub p_bytes : ℕ → Bytes → Bytes
p_bytes field value = key field 2 ++ (varint (length value) ++ value)

-- The UTF-8 bytes of a code point.
abbrev utf8_char : ℕ → Bytes
utf8_char c =
    if ltb c 0x80
    then c ∷ []
    else if ltb c 0x800
    then (0xc0 + c / 64) ∷ (0x80 + c % 64) ∷ []
    else if ltb c 0x1_0000
    then (0xe0 + c / 4096) ∷ (0x80 + c / 64 % 64) ∷ (0x80 + c % 64) ∷ []
    else (0xf0 + c / 262144) ∷ (0x80 + c / 4096 % 64) ∷ (0x80 + c / 64 % 64) ∷ (0x80 + c % 64) ∷ []

-- text.encode("utf-8"), of the code points of the text
unfoldable pub utf8 : List ℕ → Bytes
utf8 [] = []
utf8 (c ∷ cs) = utf8_char c ++ utf8 cs

unfoldable pub p_string : ℕ → List ℕ → Bytes
p_string field value = p_bytes field (utf8 value)

unfoldable pub p_varint : ℕ → ℕ → Bytes
p_varint field value = key field 0 ++ varint value

unfoldable pub p_bool : ℕ → Bool → Bytes
p_bool field value = p_varint field (if value then 1 else 0)

unfoldable pub p_msg : ℕ → Bytes → Bytes
p_msg field value = p_bytes field value

-- check_contact_card.field: bytes([tag, len(value)]) + value
unfoldable pub card_field : ℕ → Bytes → Raises Bytes
card_field tag value = do head ← bytes_of (tag ∷ length value ∷ []); ok (head ++ value)

-- check_contact_card.varint_field, behind the tag; the loop tests at its end
unfoldable pub varint_field_loop : (value : ℕ) → Acc ◌<◌ value → Bytes
unfolding dec_lt
varint_field_loop value (Acc.intro _ smaller) =
    dite (dec_lt 0 (value / 128))
      (λ more.
        bit_or (bit_and value 0x7f) 0x80
        ∷ varint_field_loop (value / 128) (smaller (value / 128) (shrinks_to value more)))
      (λ _. bit_or (bit_and value 0x7f) 0 ∷ [])

unfoldable pub varint_field : ℕ → ℕ → Raises Bytes
unfolding varint_field_loop lt_wf
varint_field tag value = do
  head ← bytes_of (tag ∷ [])
  ok (head ++ varint_field_loop value (lt_wf.apply value))
