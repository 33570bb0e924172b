-- ===== src/History/Media/Fields.antt =====
-- The check of a MediaBlob payload on the fields that the generator writes, and on any bytes.
use Prim.Native.Nat.{bit_or, bit_and}
use construct_protos.Prelude.{
  ℕ, zero, suc, ◌+◌, ◌*◌, ◌/◌, ◌%◌, ◌^◌, ◌≤◌, ◌<◌, ◌≡◌, ◌≢◌, ◌↔◌, ◌∙◌, refl, sym, ap, List, [], ◌∷◌,
  ◌++◌, Bool, true, Option, none, some, arith, ltb, length, drop, All, append_assoc,
  append_nil_right, length-append, length-drop, drop_prefix, Bool-cases, inl, inr,
}
use construct_protos.Prelude.Result.{ok, err, Raises, ok_injective, Result-cases, err_ne_ok}
use construct_protos.Bytes.{Bytes}
use construct_protos.Bytes.Bits.{three_bits}
use construct_protos.Proto.{varint, key, p_bytes}
use construct_protos.Proto.Varint.{varint_loop_last, varint_lem}
use construct_protos.History.Media.{
  read_length, numbers_loop, in_order, answer, media_fields_in_order,
}
use construct_protos.History.Media.Sorting.{Increasing, in_order_iff}
use construct_protos.History.Media.Reading.{read_length-varint}

-- A field number whose key is one byte, and a value whose length is one of 64 bits.
abbrev pub IsField : ℕ × Bytes → Type 0
IsField (field, value) = (field < 16) × (length value < 2 ^ 64)

abbrev pub field_bytes : List (ℕ × Bytes) → Bytes
field_bytes [] = []
field_bytes ((field, value) ∷ fs) = p_bytes field value ++ field_bytes fs

abbrev pub field_numbers : List (ℕ × Bytes) → List ℕ
field_numbers [] = []
field_numbers ((field, value) ∷ fs) = field ∷ field_numbers fs

small : (n : ℕ) → n < 128 → varint n ≡ n ∷ []
small n h =
    let same : n % 2 ^ 64 ≡ n = omega arith in
    varint_lem n ∙ varint_loop_last (n % 2 ^ 64) _ (omega arith) ∙ ap (λ t. t ∷ []) same

key_byte : (field : ℕ) → field < 16 → key field 2 ≡ (field * 8 + 2) ∷ []
key_byte field h =
    unfold key in rw (three_bits field 2 (omega arith)) (small (field * 8 + 2) (omega arith))

p_bytes_lem :
    (field : ℕ) (value : Bytes)
    → field < 16
    → p_bytes field value ≡ (field * 8 + 2) ∷ (varint (length value) ++ value)
p_bytes_lem field value h = unfold p_bytes in rw (key_byte field h)

-- One round of the loop on a field that was written.
field_round :
    (fuel field : ℕ) (value rest : Bytes) (numbers : List ℕ)
    → field < 16
    → length value < 2 ^ 64
    → numbers_loop (suc fuel) (p_bytes field value ++ rest) numbers
      ≡ numbers_loop fuel rest (numbers ++ (field ∷ []))
field_round fuel field value rest numbers hf hv =
    let number : (field * 8 + 2) / 8 ≡ field = omega arith in
    rw (p_bytes_lem field value hf, append_assoc (varint (length value)) value rest)
      (unfold numbers_loop in
        rw (read_length-varint (length value) (value ++ rest) hv) (λ k.
          numbers_loop fuel (drop_prefix (length value) value rest refl k)
            (numbers ++ (number k ∷ []))))

length-p_bytes :
    (field : ℕ) (value rest : Bytes)
    → field < 16
    → length rest < length (p_bytes field value ++ rest)
length-p_bytes field value rest h = rw (p_bytes_lem field value h) (
    omega (
      arith,
      length-append {0} (varint (length value) ++ value) rest,
      length-append {0} (varint (length value)) value,
    ))

numbers_loop-field_bytes :
    (fuel : ℕ) (fs : List (ℕ × Bytes)) (numbers : List ℕ)
    → All IsField fs
    → length (field_bytes fs) ≤ fuel
    → numbers_loop fuel (field_bytes fs) numbers ≡ some (ok (numbers ++ field_numbers fs))
numbers_loop-field_bytes fuel [] numbers h f = unfold numbers_loop in rw append_nil_right
numbers_loop-field_bytes zero ((field, value) ∷ fs) numbers h f =
    absurd (omega (arith, length-p_bytes field value (field_bytes fs) h.0.0))
numbers_loop-field_bytes (suc fuel) ((field, value) ∷ fs) numbers h f =
    field_round fuel field value (field_bytes fs) numbers h.0.0 h.0.1
    ∙ numbers_loop-field_bytes fuel fs (numbers ++ (field ∷ [])) h.1
        (omega (arith, length-p_bytes field value (field_bytes fs) h.0.0))
    ∙ ap (λ t. some (ok t)) (append_assoc numbers (field ∷ []) (field_numbers fs))

checked :
    (fs : List (ℕ × Bytes))
    → All IsField fs
    → media_fields_in_order (field_bytes fs) ≡ some (ok (in_order (field_numbers fs)))
checked fs h =
    unfold media_fields_in_order in
    ap answer (numbers_loop-field_bytes (length (field_bytes fs)) fs [] h (omega arith))

result_of : {a b : Bool} → ◌≡◌ {A = Option (Raises Bool)} (some (ok a)) (some (ok b)) → a ≡ b
result_of e = cc

-- Of a payload that the generator's encoder writes, with field numbers below 16 and values of a
-- length of 64 bits: the checker accepts it exactly if each field number is below all later ones,
-- whether or not they are the numbers 1, 2 and 3 that the docstring asks for.
pub media_fields_iff :
    (fs : List (ℕ × Bytes))
    → All IsField fs
    → (media_fields_in_order (field_bytes fs) ≡ some (ok true)) ↔ Increasing (field_numbers fs)
media_fields_iff fs h = (
  λ e. (in_order_iff (field_numbers fs)).0 (result_of (sym (checked fs h) ∙ e)),
  λ k. checked fs h ∙ ap (λ b. some (ok b)) ((in_order_iff (field_numbers fs)).1 k),
)

-- A length takes bytes off the front of a payload.
read_length-shorter :
    (rest : Bytes) (value shift : ℕ) {r : ℕ × Bytes}
    → read_length rest value shift ≡ ok r
    → length r.1 < length rest
unfolding read_length
read_length-shorter [] value shift e = absurd (err_ne_ok e)
read_length-shorter (b ∷ rest) value shift e = elim (Bool-cases (ltb b 0x80)) [
  | inl last ↦ omega (arith, ap (λ o. length o.1) (ok_injective (rw last at e)))
  | inr more ↦
      let step = bit_or value (bit_and b 0x7f * 2 ^ shift) in
      omega (arith, read_length-shorter rest step (shift + 7) (rw more at e))
]

numbers_loop-ne-none :
    (fuel : ℕ) (payload : Bytes) (numbers : List ℕ)
    → length payload ≤ fuel
    → numbers_loop fuel payload numbers ≢ none
unfolding numbers_loop
numbers_loop-ne-none fuel [] numbers h = λ e. cc
numbers_loop-ne-none zero (b ∷ rest) numbers h = absurd (omega arith)
numbers_loop-ne-none (suc fuel) (b ∷ rest) numbers h = elim (Result-cases (read_length rest 0 0)) [
  | inl (r, e) ↦ rw e (
      numbers_loop-ne-none fuel (drop r.0 r.1) (numbers ++ (b / 8 ∷ []))
        (omega (arith, read_length-shorter rest 0 0 e, length-drop r.0 r.1)))
  | inr (x, e) ↦ rw e (λ p. cc)
]

answer-ne-none : (o : Option (Raises (List ℕ))) → o ≢ none → answer o ≢ none
answer-ne-none none h = absurd (h refl)
answer-ne-none (some (ok ns)) h = λ e. cc
answer-ne-none (some (err x)) h = λ e. cc

-- The check of a payload ends on every input, with an answer or an IndexError.
pub media_fields-ne-none : (payload : Bytes) → media_fields_in_order payload ≢ none
unfolding media_fields_in_order
media_fields-ne-none payload =
    answer-ne-none (numbers_loop (length payload) payload [])
      (numbers_loop-ne-none (length payload) payload [] (omega arith))
