-- ===== src/Proto/Varint.antt =====
-- The two varint encoders of the scripts agree, and what they write.
use Prim.Native.Nat.{bit_and, bit_or}
use mathlib.Core.Logic.{dif_pos, dif_neg}
use mathlib.Core.WellFounded.{Acc}
use native.Mathlib.Decide.{dec_lt}
use native.Mathlib.Nat.{pow-suc}
use construct_protos.Prelude.{
  ℕ, zero, suc, ◌+◌, ◌/◌, ◌%◌, ◌^◌, ◌≤◌, ◌<◌, ◌≡◌, ◌∙◌, refl, sym, ap, subst, [], ◌∷◌, arith,
  length, All,
}
use construct_protos.Prelude.Order.{lt_wf}
use construct_protos.Prelude.Result.{ok}
use construct_protos.Bytes.{IsByte}
use construct_protos.Bytes.Bits.{seven_bits, top_bit, low_or_high}
use construct_protos.Bytes.Struct.{bytes_of_fits}
use native.Mathlib.Bridge.{le_prop}
use construct_protos.Proto.{
  shrinks, shrinks_to, varint_loop, varint, varint_field_loop, varint_field,
}

low_group : (n : ℕ) → bit_or (bit_and n 0x7f) 0x80 ≡ n % 128 + 128
low_group n = rw seven_bits (top_bit (n % 128) (omega arith))

-- The last byte, and one round.
pub varint_loop_last : (n : ℕ) (w : Acc ◌<◌ n) → n < 128 → varint_loop n w ≡ n ∷ []
unfolding varint_loop
varint_loop_last n (Acc.intro _ smaller) h = ground arith

pub varint_loop_more :
    (n : ℕ) (w : Acc ◌<◌ n)
    → 128 ≤ n
    → (w' : Acc ◌<◌ (n / 128)) × (varint_loop n w ≡ (n % 128 + 128) ∷ varint_loop (n / 128) w')
unfolding varint_loop
varint_loop_more n (Acc.intro _ smaller) h =
    (smaller (n / 128) (shrinks n h), rw (dif_pos (dec_lt 0x7f n) le_prop h, low_group n))

last_group : (n : ℕ) → n < 128 → bit_or (bit_and n 0x7f) 0 ≡ n
last_group n h = rw seven_bits (low_or_high 7 (n % 128) 0 (omega arith) ∙ omega arith)

field_loop_last : (n : ℕ) (w : Acc ◌<◌ n) → n < 128 → varint_field_loop n w ≡ n ∷ []
unfolding varint_field_loop
field_loop_last n (Acc.intro _ smaller) h =
    rw (dif_neg (dec_lt 0 (n / 128)) (omega arith)) (ap (λ b. b ∷ []) (last_group n h))

still_more : (n : ℕ) → 128 ≤ n → 0 < n / 128
still_more n h = omega arith

field_loop_more :
    (n : ℕ) (w : Acc ◌<◌ n)
    → 128 ≤ n
    → (w' : Acc ◌<◌ (n / 128)) × (varint_field_loop n w
        ≡ (n % 128 + 128) ∷ varint_field_loop (n / 128) w')
unfolding varint_field_loop
field_loop_more n (Acc.intro _ smaller) h = (
  smaller (n / 128) (shrinks_to n (still_more n h)),
  rw (dif_pos (dec_lt 0 (n / 128)) le_prop (still_more n h), low_group n),
)

-- Both loops write the same bytes of one number, however the recursions are justified.
loops_agree : (k n : ℕ) (w w' : Acc ◌<◌ n) → n ≤ k → varint_field_loop n w ≡ varint_loop n w'
loops_agree zero n w w' h =
    field_loop_last n w (omega arith) ∙ sym (varint_loop_last n w' (omega arith))
loops_agree (suc k) n w w' h = elim (dec_lt n 128) [
  | yes last ↦ field_loop_last n w last ∙ sym (varint_loop_last n w' last)
  | no more ↦
      let (v, e) = field_loop_more n w (omega arith) in
      let (v', e') = varint_loop_more n w' (omega arith) in
      e ∙ ap (λ t. (n % 128 + 128) ∷ t) (loops_agree k (n / 128) v v' (omega arith)) ∙ sym e'
]

pub varint_lem : (n : ℕ) → varint n ≡ varint_loop (n % 2 ^ 64) (lt_wf.apply (n % 2 ^ 64))
unfolding varint
varint_lem n = refl

mask_fits : (n : ℕ) → n < 2 ^ 64 → n % 2 ^ 64 ≡ n
mask_fits n h = omega arith

loops_agree_at :
    (n m : ℕ) (w : Acc ◌<◌ n) (w' : Acc ◌<◌ m) → n ≡ m → varint_field_loop n w ≡ varint_loop m w'
loops_agree_at n m w w' e =
    subst (λ k. (v : Acc ◌<◌ k) → varint_field_loop n w ≡ varint_loop k v) e
      (λ v. loops_agree n n w v (omega arith)) w'

-- On a number of 64 bits the contact card's encoder writes the tag and then what the snapshot's
-- encoder writes.
pub varint_field-eq-varint :
    (tag value : ℕ) → tag < 256 → value < 2 ^ 64 → varint_field tag value ≡ ok (tag ∷ varint value)
varint_field-eq-varint tag value ht hv =
    unfold varint_field in
    rw (bytes_of_fits (tag ∷ []) (ht, tt)) (
      ap (λ t. ok (tag ∷ t))
        (loops_agree_at value (value % 2 ^ 64) (lt_wf.apply value) (lt_wf.apply (value % 2 ^ 64))
            (sym (mask_fits value hv))
          ∙ sym (varint_lem value)))

loop_shape :
    (k n : ℕ) (w : Acc ◌<◌ n)
    → n < 128 ^ suc k
    → All IsByte (varint_loop n w)
      × (1 ≤ length (varint_loop n w))
      × (length (varint_loop n w) ≤ suc k)
loop_shape zero n w h = rw (varint_loop_last n w (omega arith)) (omega arith)
loop_shape (suc k) n w h = elim (dec_lt n 128) [
  | yes last ↦ rw (varint_loop_last n w last) (omega arith)
  | no more ↦
      let (v, e) = varint_loop_more n w (omega arith) in
      let (bytes, some', few) = loop_shape k (n / 128) v (omega (arith, pow-suc 128 (suc k))) in
      rw e ((omega arith, bytes), omega arith, omega arith)
]

-- A varint is one to ten bytes, whatever number it is made of.
pub varint_shape :
    (n : ℕ) → All IsByte (varint n) × (1 ≤ length (varint n)) × (length (varint n) ≤ 10)
unfolding varint
varint_shape n = loop_shape 9 (n % 2 ^ 64) (lt_wf.apply (n % 2 ^ 64)) (omega arith)
