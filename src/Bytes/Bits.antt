-- ===== src/Bytes/Bits.antt =====
-- `&` with a mask of seven bits, and `|` of a low and a high part, as arithmetic.
use Prim.Native.Nat.{
  ℕ, zero, suc, ◌+◌, ◌*◌, ◌/◌, ◌%◌, ◌^◌, ◌≤◌, ◌<◌, min, max, bit_and, bit_or, digits,
  bit_and-bitwise, bit_or-bitwise,
}
use native.Mathlib.Nat.{pow-suc}
use construct_protos.Prelude.{◌≡◌, refl, ap, ◌∙◌, arith}

-- What the native operations stand for computes a digit in each step; the fuel plays no part.
module _ (rest : ℕ → ℕ) (digit : ℕ → ℕ → ℕ) where
  enough : (n m a b : ℕ) → a ≤ n → a ≤ m → digits rest digit n a b ≡ digits rest digit m a b
  enough zero zero a b h k = refl
  enough zero (suc m) zero b h k = refl
  enough zero (suc m) (suc a) b h k = absurd (omega arith)
  enough (suc n) zero zero b h k = refl
  enough (suc n) zero (suc a) b h k = absurd (omega arith)
  enough (suc n) (suc m) zero b h k = refl
  enough (suc n) (suc m) (suc a) b h k =
      ap (λ t. t * 2 + digit (suc a % 2) (b % 2))
        (enough n m (suc a / 2) (b / 2) (omega arith) (omega arith))

or_digit : (a b : ℕ) → bit_or a b ≡ bit_or (a / 2) (b / 2) * 2 + max (a % 2) (b % 2)
or_digit zero b = omega (arith, bit_or-bitwise 0 b, bit_or-bitwise 0 (b / 2))
or_digit (suc a) b = omega (
  arith,
  bit_or-bitwise (suc a) b,
  bit_or-bitwise (suc a / 2) (b / 2),
  enough (λ y. y) max a (suc a / 2) (suc a / 2) (b / 2) (omega arith) (omega arith),
)

and_digit : (a b : ℕ) → bit_and a b ≡ bit_and (a / 2) (b / 2) * 2 + min (a % 2) (b % 2)
and_digit zero b = omega (arith, bit_and-bitwise 0 b, bit_and-bitwise 0 (b / 2))
and_digit (suc a) b = omega (
  arith,
  bit_and-bitwise (suc a) b,
  bit_and-bitwise (suc a / 2) (b / 2),
  enough (λ y. 0) min a (suc a / 2) (suc a / 2) (b / 2) (omega arith) (omega arith),
)

or_none : (n a : ℕ) → a ≤ n → bit_or a 0 ≡ a
or_none n zero h = refl
or_none zero (suc a) h = absurd (omega arith)
or_none (suc n) (suc a) h = omega (arith, or_digit (suc a) 0, or_none n (suc a / 2) (omega arith))

and_none : (n a : ℕ) → a ≤ n → bit_and a 0 ≡ 0
and_none n zero h = refl
and_none zero (suc a) h = absurd (omega arith)
and_none (suc n) (suc a) h =
    omega (arith, and_digit (suc a) 0, and_none n (suc a / 2) (omega arith))

and_one : (a : ℕ) → bit_and a 1 ≡ a % 2
and_one a = omega (arith, and_digit a 1, and_none (a / 2) (a / 2) (omega arith))

and_fifteen : (a : ℕ) → bit_and a 15 ≡ a % 16
and_fifteen a =
    omega
      (arith, and_digit a 15, and_digit (a / 2) 7, and_digit (a / 2 / 2) 3, and_one (a / 2 / 2 / 2))

-- x & 0x7F
pub seven_bits : (a : ℕ) → bit_and a 0x7f ≡ a % 128
seven_bits a = omega (
  arith,
  and_digit a 127,
  and_digit (a / 2) 63,
  and_digit (a / 2 / 2) 31,
  and_fifteen (a / 2 / 2 / 2),
)

or_even : (q l : ℕ) → bit_or (q * 2) l ≡ bit_or q (l / 2) * 2 + l % 2
or_even q l = let half : q * 2 / 2 ≡ q = omega arith in or_digit (q * 2) l ∙ rw half (omega arith)

even_or : (l q : ℕ) → bit_or l (q * 2) ≡ bit_or (l / 2) q * 2 + l % 2
even_or l q = let half : q * 2 / 2 ≡ q = omega arith in or_digit l (q * 2) ∙ rw half (omega arith)

none_or : (a : ℕ) → bit_or 0 a ≡ a
none_or a = bit_or-bitwise 0 a

-- low | high << k
pub low_or_high : (k low high : ℕ) → low < 2 ^ k → bit_or low (high * 2 ^ k) ≡ low + high * 2 ^ k
low_or_high zero low high h =
    let empty : low ≡ 0 = omega arith in rw empty (none_or (high * 2 ^ 0) ∙ omega arith)
low_or_high (suc k) low high h =
    let more : high * 2 ^ suc k ≡ (high * 2 ^ k) * 2 =
      omega (arith, ap (λ (t : ℕ). high * t) (pow-suc 2 k)) in
    rw more (
      omega (
        arith,
        even_or low (high * 2 ^ k),
        low_or_high k (low / 2) high (omega (arith, pow-suc 2 k)),
      ))

-- high << 3 | low
pub three_bits : (high low : ℕ) → low < 8 → bit_or (high * 8) low ≡ high * 8 + low
three_bits high low h =
    let split : high * 8 ≡ high * 2 * 2 * 2 = omega arith in
    rw split (
      omega (
        arith,
        or_even (high * 2 * 2) low,
        or_even (high * 2) (low / 2),
        or_even high (low / 2 / 2),
        ap (bit_or high) (zero_of (low / 2 / 2 / 2) (omega arith)),
        or_none high high (omega arith),
      ))
  where
    zero_of : (x : ℕ) → x < 1 → x ≡ 0
    zero_of x k = omega arith

-- low | 0x80
pub top_bit : (low : ℕ) → low < 128 → bit_or low 0x80 ≡ low + 128
top_bit low h = low_or_high 7 low 1 h
