-- ===== src/Bytes/Hex.antt =====
-- bytes.hex, bytes.fromhex and the text of a UUID.
use construct_protos.Prelude.{
  ℕ, ◌+◌, ◌-◌, ◌*◌, ◌/◌, ◌%◌, ◌<◌, ◌≡◌, ◌∙◌, refl, List, [], ◌∷◌, ◌++◌, Bool, false, ◌&&◌, ◌||◌,
  arith, Option, none, some, leb, ltb, ◌==◌, if◌then◌else◌, slice, length, All, ap, subst,
  Bool-cases, inl, inr,
}
use construct_protos.Prelude.Result.{
  ok, err, value_error, Raises, ◌>>=◌, ok_injective, err_ne_ok, bind_ok,
}
use construct_protos.Bytes.{Bytes, IsByte}

unfoldable pub hex_digit : ℕ → ℕ
hex_digit d = if ltb d 10 then 48 + d else 87 + d

unfoldable pub hex : Bytes → List ℕ
unfolding hex_digit
hex [] = []
hex (b ∷ bs) = hex_digit (b / 16) ∷ hex_digit (b % 16) ∷ hex bs

-- The value of a hexadecimal digit, in either case.
unfoldable pub digit_value : ℕ → Option ℕ
digit_value c =
    if leb 48 c && leb c 57
    then some (c - 48)
    else if leb 97 c && leb c 102
    then some (c - 87)
    else if leb 65 c && leb c 70
    then some (c - 55)
    else none

unfoldable pub is_space : ℕ → Bool
is_space c = c == 32 || leb 9 c && leb c 13

pair_value : Option ℕ → Option ℕ → Raises ℕ
pair_value (some h) (some l) = ok (h * 16 + l)
pair_value (some h) none = err value_error
pair_value none l = err value_error

-- bytes.fromhex: pairs of digits, with white space allowed between pairs
unfoldable pub fromhex : List ℕ → Raises Bytes
unfolding digit_value is_space pair_value
fromhex [] = ok []
fromhex (c ∷ []) = if is_space c then ok [] else err value_error
fromhex (c ∷ d ∷ cs) =
    let skip = fromhex (d ∷ cs) in
    let rest = fromhex cs in
    if is_space c
    then skip
    else (do b ← pair_value (digit_value c) (digit_value d); bs ← rest; ok (b ∷ bs))

-- str(uuid.UUID(bytes=b))
unfoldable pub uuid_text : Bytes → List ℕ
unfolding hex
uuid_text b =
    let h = hex b in
    slice 0 8 h
    ++ (b'-' ∷ slice 8 12 h)
    ++ (b'-' ∷ slice 12 16 h)
    ++ (b'-' ∷ slice 16 20 h)
    ++ (b'-' ∷ slice 20 32 h)

pub length-hex : (bs : Bytes) → length (hex bs) ≡ 2 * length bs
unfolding hex
length-hex [] = refl
length-hex (b ∷ bs) = omega (arith, length-hex bs)

pub digit_value-hex_digit : (d : ℕ) → d < 16 → digit_value (hex_digit d) ≡ some d
unfolding digit_value hex_digit
digit_value-hex_digit d h = ground arith

is_space-hex_digit : (d : ℕ) → d < 16 → is_space (hex_digit d) ≡ false
unfolding is_space hex_digit
is_space-hex_digit d h = ground arith

-- One pair of digits, before whatever the rest of the text says.
fromhex_pair :
    (c d h l : ℕ) (cs : List ℕ) (bs : Bytes)
    → is_space c ≡ false
    → digit_value c ≡ some h
    → digit_value d ≡ some l
    → fromhex cs ≡ ok bs
    → fromhex (c ∷ d ∷ cs) ≡ ok ((h * 16 + l) ∷ bs)
unfolding fromhex pair_value
fromhex_pair c d h l cs bs e p q r = rw (e, p, q, r)

-- Reading the digits that `hex` wrote gives the bytes back.
pub fromhex-hex : (bs : Bytes) → All IsByte bs → fromhex (hex bs) ≡ ok bs
unfolding hex
fromhex-hex [] h = unfold fromhex in refl
fromhex-hex (b ∷ bs) h =
    fromhex_pair _ _ (b / 16) (b % 16) (hex bs) bs
      (is_space-hex_digit (b / 16) (omega (arith, h.0)))
      (digit_value-hex_digit (b / 16) (omega (arith, h.0)))
      (digit_value-hex_digit (b % 16) (omega arith)) (fromhex-hex bs h.1)
    ∙ ap (λ n. ok (n ∷ bs)) (omega arith)

abbrev IsDigit : Option ℕ → Type 0
IsDigit none = Unit
IsDigit (some d) = d < 16

digit_value-IsDigit : (c : ℕ) → IsDigit (digit_value c)
unfolding digit_value
digit_value-IsDigit c = ground arith

pair_value-IsByte :
    (o p : Option ℕ) {b : ℕ} → IsDigit o → IsDigit p → pair_value o p ≡ ok b → IsByte b
unfolding pair_value
pair_value-IsByte (some h) (some l) s t e = omega (arith, ok_injective e)
pair_value-IsByte (some h) none s t e = absurd (err_ne_ok e)
pair_value-IsByte none p s t e = absurd (err_ne_ok e)

-- What `fromhex` reads are bytes.
pub fromhex-IsByte : (cs : List ℕ) {bs : Bytes} → fromhex cs ≡ ok bs → All IsByte bs
unfolding fromhex
fromhex-IsByte [] e = subst (All IsByte) (ok_injective e) tt
fromhex-IsByte (c ∷ []) e = elim (Bool-cases (is_space c)) [
  | inl k ↦ subst (All IsByte) (ok_injective (rw k at e)) tt
  | inr k ↦ absurd (err_ne_ok (rw k at e))
]
fromhex-IsByte (c ∷ d ∷ cs) e = elim (Bool-cases (is_space c)) [
  | inl k ↦ fromhex-IsByte (d ∷ cs) (rw k at e)
  | inr k ↦
      let (b, x, e₁) = bind_ok (pair_value (digit_value c) (digit_value d)) _ (rw k at e) in
      let (bs, y, e₂) = bind_ok (fromhex cs) _ e₁ in
      subst (All IsByte) (ok_injective e₂) (
        pair_value-IsByte (digit_value c) (digit_value d) (digit_value-IsDigit c)
            (digit_value-IsDigit d) x,
        fromhex-IsByte cs y,
      )
]
