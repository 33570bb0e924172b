-- ===== src/Prelude/Lists.antt =====
-- Lists measured and cut by native numbers, under the library's names, and their laws.
use Prim.Native.Nat.{ℕ, zero, suc, ◌+◌, ◌-◌, ◌≤◌, ◌<◌, min}
use mathlib.Core.Path.{◌≡◌, refl, ap, sym, ◌∙◌}
use mathlib.Core.List.{List, [], ◌∷◌, ◌++◌, map}
use mathlib.Core.Option.{Option, none, some}
use native.Mathlib.Omega.{arith}

module _ {ℓ} {A : Type ℓ} where
  abbrev pub length : List A → ℕ
  length [] = 0
  length (x ∷ xs) = suc (length xs)

  abbrev pub get_elem? : List A → ℕ → Option A
  get_elem? [] i = none
  get_elem? (x ∷ xs) zero = some x
  get_elem? (x ∷ xs) (suc i) = get_elem? xs i

  abbrev pub get_or : List A → ℕ → A → A
  get_or [] i d = d
  get_or (x ∷ xs) zero d = x
  get_or (x ∷ xs) (suc i) d = get_or xs i d

  abbrev pub take : ℕ → List A → List A
  take zero xs = []
  take (suc n) [] = []
  take (suc n) (x ∷ xs) = x ∷ take n xs

  abbrev pub drop : ℕ → List A → List A
  drop zero xs = xs
  drop (suc n) [] = []
  drop (suc n) (x ∷ xs) = drop n xs

  abbrev pub replicate : ℕ → A → List A
  replicate zero a = []
  replicate (suc n) a = a ∷ replicate n a

  abbrev pub All {κ} : (A → Type κ) → List A → Type κ
  All P [] = Unit {κ}
  All P (x ∷ xs) = P x × All P xs

-- data[a:b], for 0 ≤ a and 0 ≤ b
abbrev pub slice {ℓ} : {A : Type ℓ} → ℕ → ℕ → List A → List A
slice a b xs = take (b - a) (drop a xs)

-- b"".join, "".join and the like
abbrev pub concat {ℓ} : {A : Type ℓ} → List (List A) → List A
concat [] = []
concat (xs ∷ xss) = xs ++ concat xss

module _ {ℓ} {A : Type ℓ} where
  pub length-append : (xs ys : List A) → length (xs ++ ys) ≡ length xs + length ys
  length-append [] ys = omega arith
  length-append (x ∷ xs) ys = omega (arith, length-append xs ys)

  pub take-append-drop : (n : ℕ) (xs : List A) → take n xs ++ drop n xs ≡ xs
  take-append-drop zero xs = refl
  take-append-drop (suc n) [] = refl
  take-append-drop (suc n) (x ∷ xs) = rw (take-append-drop n xs)

  pub length-take : (n : ℕ) (xs : List A) → length (take n xs) ≡ min n (length xs)
  length-take zero xs = omega arith
  length-take (suc n) [] = omega arith
  length-take (suc n) (x ∷ xs) = omega (arith, length-take n xs)

  pub length-drop : (n : ℕ) (xs : List A) → length (drop n xs) ≡ length xs - n
  length-drop zero xs = omega arith
  length-drop (suc n) [] = omega arith
  length-drop (suc n) (x ∷ xs) = omega (arith, length-drop n xs)

  pub length-replicate : (n : ℕ) (a : A) → length (replicate n a) ≡ n
  length-replicate zero a = refl
  length-replicate (suc n) a = ap suc (length-replicate n a)

  -- A prefix of known length is what `take` and `drop` cut off.
  pub take_prefix : (n : ℕ) (xs ys : List A) → length xs ≡ n → take n (xs ++ ys) ≡ xs
  take_prefix zero [] ys h = refl
  take_prefix zero (x ∷ xs) ys h = absurd (omega arith)
  take_prefix (suc n) [] ys h = absurd (omega arith)
  take_prefix (suc n) (x ∷ xs) ys h = ap (λ t. x ∷ t) (take_prefix n xs ys (omega arith))

  pub drop_prefix : (n : ℕ) (xs ys : List A) → length xs ≡ n → drop n (xs ++ ys) ≡ ys
  drop_prefix zero [] ys h = refl
  drop_prefix zero (x ∷ xs) ys h = absurd (omega arith)
  drop_prefix (suc n) [] ys h = absurd (omega arith)
  drop_prefix (suc n) (x ∷ xs) ys h = drop_prefix n xs ys (omega arith)

  pub take_all : (n : ℕ) (xs : List A) → length xs ≤ n → take n xs ≡ xs
  take_all zero [] h = refl
  take_all zero (x ∷ xs) h = absurd (omega arith)
  take_all (suc n) [] h = refl
  take_all (suc n) (x ∷ xs) h = ap (λ t. x ∷ t) (take_all n xs (omega arith))

  pub drop_all : (n : ℕ) (xs : List A) → length xs ≤ n → drop n xs ≡ []
  drop_all zero [] h = refl
  drop_all zero (x ∷ xs) h = absurd (omega arith)
  drop_all (suc n) [] h = refl
  drop_all (suc n) (x ∷ xs) h = drop_all n xs (omega arith)

  pub drop-nil : (n : ℕ) → drop {A = A} n [] ≡ []
  drop-nil zero = refl
  drop-nil (suc n) = refl

  pub drop-drop : (n m : ℕ) (xs : List A) → drop m (drop n xs) ≡ drop (n + m) xs
  drop-drop zero m xs = ap (λ k. drop k xs) (omega arith)
  drop-drop (suc n) m [] = drop-nil m ∙ sym (drop-nil (suc n + m))
  drop-drop (suc n) m (x ∷ xs) =
      let shift : suc (n + m) ≡ suc n + m = omega arith in
      drop-drop n m xs ∙ ap (λ k. drop k (x ∷ xs)) shift

  pub drop-cons :
      (n : ℕ) (d : A) (xs : List A) → n < length xs → drop n xs ≡ get_or xs n d ∷ drop (suc n) xs
  drop-cons n d [] h = absurd (omega arith)
  drop-cons zero d (x ∷ xs) h = refl
  drop-cons (suc n) d (x ∷ xs) h = drop-cons n d xs (omega arith)

  -- What stands behind position `a` is the slice up to `b`, then what stands behind `b`.
  pub drop-slice : (a b : ℕ) (xs : List A) → a ≤ b → drop a xs ≡ slice a b xs ++ drop b xs
  drop-slice a b xs h =
      sym (take-append-drop (b - a) (drop a xs))
      ∙ ap (λ t. slice a b xs ++ t) (drop-drop a (b - a) xs ∙ ap (λ k. drop k xs) (omega arith))

  pub length-slice : (a b : ℕ) (xs : List A) → b ≤ length xs → length (slice a b xs) ≡ b - a
  length-slice a b xs h = length-take (b - a) (drop a xs) ∙ omega (arith, length-drop a xs)

  pub take-nil : (n : ℕ) → take {A = A} n [] ≡ []
  take-nil zero = refl
  take-nil (suc n) = refl

  pub take-add : (a b : ℕ) (xs : List A) → take (a + b) xs ≡ take a xs ++ take b (drop a xs)
  take-add zero b xs = let none' : 0 + b ≡ b = omega arith in ap (λ k. take k xs) none'
  take-add (suc a) b [] = take-nil (suc a + b) ∙ sym (take-nil b)
  take-add (suc a) b (x ∷ xs) =
      let shift : suc a + b ≡ suc (a + b) = omega arith in
      ap (λ k. take k (x ∷ xs)) shift ∙ ap (λ t. x ∷ t) (take-add a b xs)

  pub length_zero : (xs : List A) → length xs ≡ 0 → xs ≡ []
  length_zero [] h = refl
  length_zero (x ∷ xs) h = absurd (omega arith)

  pub append_nil_right : (xs : List A) → xs ++ [] ≡ xs
  append_nil_right [] = refl
  append_nil_right (x ∷ xs) = ap (λ t. x ∷ t) (append_nil_right xs)

-- Every value of a list has a property.
module _ {ℓ κ} {A : Type ℓ} (P : A → Type κ) where
  pub All-append : (xs ys : List A) → All P xs → All P ys → All P (xs ++ ys)
  All-append [] ys h k = k
  All-append (x ∷ xs) ys h k = (h.0, All-append xs ys h.1 k)

  pub All-take : (n : ℕ) (xs : List A) → All P xs → All P (take n xs)
  All-take zero xs h = tt
  All-take (suc n) [] h = tt
  All-take (suc n) (x ∷ xs) h = (h.0, All-take n xs h.1)

  pub All-drop : (n : ℕ) (xs : List A) → All P xs → All P (drop n xs)
  All-drop zero xs h = h
  All-drop (suc n) [] h = tt
  All-drop (suc n) (x ∷ xs) h = All-drop n xs h.1

  pub All-slice : (a b : ℕ) (xs : List A) → All P xs → All P (slice a b xs)
  All-slice a b xs h = All-take (b - a) (drop a xs) (All-drop a xs h)

-- The counterpart of `take_prefix`: equal lists with prefixes of one length have equal parts.
pub append_split {ℓ} :
    {A : Type ℓ} (n : ℕ) (xs xs' ys ys' : List A)
    → length xs ≡ n
    → length xs' ≡ n
    → xs ++ ys ≡ xs' ++ ys'
    → (xs ≡ xs') × (ys ≡ ys')
append_split n xs xs' ys ys' h h' e = (
  sym (take_prefix n xs ys h) ∙ ap (take n) e ∙ take_prefix n xs' ys' h',
  sym (drop_prefix n xs ys h) ∙ ap (drop n) e ∙ drop_prefix n xs' ys' h',
)

pub length-map {ℓ κ} :
    {A : Type ℓ} {B : Type κ} (xs : List A) (f : A → B) → length (map f xs) ≡ length xs
length-map [] f = refl
length-map (x ∷ xs) f = ap suc (length-map xs f)
