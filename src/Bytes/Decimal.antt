-- ===== src/Bytes/Decimal.antt =====
-- str(n) of a number, and what its digits say.
use mathlib.Core.Logic.{dite, dif_pos, dif_neg}
use mathlib.Core.WellFounded.{Acc}
use native.Mathlib.Decide.{dec_lt}
use construct_protos.Prelude.{
  ℕ, zero, suc, ◌+◌, ◌-◌, ◌*◌, ◌/◌, ◌%◌, ◌≤◌, ◌<◌, ◌≡◌, ◌∙◌, refl, sym, ap, List, [], ◌∷◌, ◌++◌,
  arith, All, All-append,
}
use native.Mathlib.Bridge.{le_prop}
use construct_protos.Prelude.Order.{lt_wf}

pub tenth : (n : ℕ) → 9 < n → n / 10 < n
tenth n h = omega arith

decimal_loop : (n : ℕ) → Acc ◌<◌ n → List ℕ
unfolding dec_lt
decimal_loop n (Acc.intro _ smaller) =
    dite (dec_lt 9 n)
      (λ more. decimal_loop (n / 10) (smaller (n / 10) (tenth n more)) ++ (48 + n % 10) ∷ [])
      (λ _. (48 + n) ∷ [])

unfoldable pub decimal : ℕ → List ℕ
unfolding decimal_loop lt_wf
decimal n = decimal_loop n (lt_wf.apply n)

abbrev pub IsDigit : ℕ → Type 0
IsDigit c = (48 ≤ c) × (c < 58)

-- The number that digits stand for, behind `acc`.
unfoldable pub value_from : ℕ → List ℕ → ℕ
value_from acc [] = acc
value_from acc (c ∷ cs) = value_from (acc * 10 + (c - 48)) cs

value_from-append :
    (acc : ℕ) (xs ys : List ℕ) → value_from acc (xs ++ ys) ≡ value_from (value_from acc xs) ys
unfolding value_from
value_from-append acc [] ys = refl
value_from-append acc (x ∷ xs) ys = value_from-append (acc * 10 + (x - 48)) xs ys

loop_digits : (k n : ℕ) (w : Acc ◌<◌ n) → n ≤ k → All IsDigit (decimal_loop n w)
unfolding decimal_loop
loop_digits zero n (Acc.intro _ smaller) h = rw (dif_neg (dec_lt 9 n) (omega arith)) (omega arith)
loop_digits (suc k) n (Acc.intro _ smaller) h = elim (dec_lt 9 n) [
  | yes p ↦ rw (dif_pos (dec_lt 9 n) le_prop p) (
      All-append IsDigit (decimal_loop (n / 10) (smaller (n / 10) (tenth n p))) ((48 + n % 10) ∷ [])
        (loop_digits k (n / 10) (smaller (n / 10) (tenth n p)) (omega arith)) (omega arith))
  | no p ↦ rw (dif_neg (dec_lt 9 n) p) (omega arith)
]

loop_value : (k n : ℕ) (w : Acc ◌<◌ n) → n ≤ k → value_from 0 (decimal_loop n w) ≡ n
unfolding decimal_loop value_from
loop_value zero n (Acc.intro _ smaller) h = rw (dif_neg (dec_lt 9 n) (omega arith)) (omega arith)
loop_value (suc k) n (Acc.intro _ smaller) h = elim (dec_lt 9 n) [
  | yes p ↦
      let front = decimal_loop (n / 10) (smaller (n / 10) (tenth n p)) in
      rw (dif_pos (dec_lt 9 n) le_prop p) (
        value_from-append 0 front ((48 + n % 10) ∷ [])
        ∙ ap (λ v. v * 10 + (48 + n % 10 - 48))
            (loop_value k (n / 10) (smaller (n / 10) (tenth n p)) (omega arith))
        ∙ omega arith)
  | no p ↦ rw (dif_neg (dec_lt 9 n) p) (omega arith)
]

pub decimal-IsDigit : (n : ℕ) → All IsDigit (decimal n)
unfolding decimal
decimal-IsDigit n = loop_digits n n (lt_wf.apply n) (omega arith)

pub value_from-decimal : (n : ℕ) → value_from 0 (decimal n) ≡ n
unfolding decimal
value_from-decimal n = loop_value n n (lt_wf.apply n) (omega arith)

pub decimal_injective : {m n : ℕ} → decimal m ≡ decimal n → m ≡ n
decimal_injective {m} {n} e =
    sym (value_from-decimal m) ∙ ap (value_from 0) e ∙ value_from-decimal n
