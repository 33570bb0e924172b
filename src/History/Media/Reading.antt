-- ===== src/History/Media/Reading.antt =====
-- The checker reads back the field numbers that the generator's encoders write.
use mathlib.Core.WellFounded.{Acc}
use native.Mathlib.Decide.{dec_lt}
use native.Mathlib.Nat.{div-add-mod}
use native.Mathlib.Numerals.{towards_suc}
use construct_protos.Prelude.{
  ℕ, zero, suc, ◌+◌, ◌*◌, ◌/◌, ◌%◌, ◌^◌, ◌≤◌, ◌<◌, ◌≡◌, ◌∙◌, ap, ◌∷◌, ◌++◌, arith, le→ltb_false,
  lt→ltb,
}
use construct_protos.Prelude.Order.{lt_wf}
use construct_protos.Prelude.Result.{ok}
use construct_protos.Bytes.{Bytes}
use construct_protos.Bytes.Bits.{seven_bits, low_or_high}
use construct_protos.Proto.{varint_loop, varint}
use construct_protos.Proto.Varint.{varint_loop_last, varint_loop_more}
use construct_protos.History.Media.{read_length}

pow_seven : (s : ℕ) → 2 ^ (s + 7) ≡ 128 * 2 ^ s
pow_seven s = simp towards_suc (omega arith)

-- The lowest seven bits of a number and the others, moved by `s` bits.
parted : (n s : ℕ) → n % 128 * 2 ^ s + n / 128 * 2 ^ (s + 7) ≡ n * 2 ^ s
parted n s = omega (
  arith,
  ap (λ (t : ℕ). t * 2 ^ s) (div-add-mod n 128),
  ap (λ (t : ℕ). n / 128 * t) (pow_seven s),
)

read_last :
    (n value shift : ℕ) (rest : Bytes)
    → n < 128
    → value < 2 ^ shift
    → read_length (n ∷ rest) value shift ≡ ok (value + n * 2 ^ shift, rest)
unfolding read_length
read_last n value shift rest h fits =
    let low : n % 128 ≡ n = omega arith in
    rw (lt→ltb n 0x80 h, seven_bits n, low, low_or_high shift value n fits)

read_more :
    (n value shift : ℕ) (rest : Bytes)
    → n < 128
    → value < 2 ^ shift
    → read_length ((n + 128) ∷ rest) value shift
      ≡ read_length rest (value + n * 2 ^ shift) (shift + 7)
unfolding read_length
read_more n value shift rest h fits =
    let low : (n + 128) % 128 ≡ n = omega arith in
    rw (
      le→ltb_false (n + 128) 0x80 (omega arith),
      seven_bits (n + 128),
      low,
      low_or_high shift value n fits,
    )

room : (n value s : ℕ) → n < 128 → value < 2 ^ s → value + n * 2 ^ s < 2 ^ (s + 7)
room n value s h fits = rw pow_seven (grind arith)

read_length-loop :
    (k n : ℕ) (w : Acc ◌<◌ n) (value shift : ℕ) (rest : Bytes)
    → n ≤ k
    → value < 2 ^ shift
    → read_length (varint_loop n w ++ rest) value shift ≡ ok (value + n * 2 ^ shift, rest)
read_length-loop zero n w value shift rest h fits =
    rw (varint_loop_last n w (omega arith)) (read_last n value shift rest (omega arith) fits)
read_length-loop (suc k) n w value shift rest h fits = elim (dec_lt n 128) [
  | yes last ↦ rw (varint_loop_last n w last) (read_last n value shift rest last fits)
  | no more ↦
      let (v, e) = varint_loop_more n w (omega arith) in
      let part = n % 128 in
      rw
        (
          e,
          read_more part value shift (varint_loop (n / 128) v ++ rest) (omega arith) fits,
          read_length-loop k (n / 128) v (value + part * 2 ^ shift) (shift + 7) rest (omega arith)
              (room part value shift (omega arith) fits),
        )
        (ap (λ t. ok (t, rest)) (omega (arith, parted n shift)))
]

-- The checker's loop reads the number of 64 bits that the generator's varint encodes.
pub read_length-varint :
    (n : ℕ) (rest : Bytes) → n < 2 ^ 64 → read_length (varint n ++ rest) 0 0 ≡ ok (n, rest)
unfolding varint
read_length-varint n rest h =
    read_length-loop (n % 2 ^ 64) (n % 2 ^ 64) (lt_wf.apply (n % 2 ^ 64)) 0 0 rest (omega arith)
      (omega arith)
    ∙ ap (λ t. ok (t, rest)) (omega arith)
