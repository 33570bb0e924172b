-- ===== src/Bytes/Struct.antt =====
-- The laws of packed numbers: their length, and that unpacking undoes packing and the reverse.
use construct_protos.Prelude.{
  ℕ, zero, suc, ◌+◌, ◌*◌, ◌/◌, ◌%◌, ◌^◌, ◌≤◌, ◌<◌, ◌≡◌, ◌↔◌, refl, sym, ap, ◌∙◌, List, [], ◌∷◌,
  ◌++◌, true, arith, length, get_or, take, length-take, All-take, length-append, All, All-append,
  lt→ltb,
}
use construct_protos.Prelude.Result.{ok}
use construct_protos.Bytes.{
  Bytes, IsByte, bytes_eq, be, le, of_be, of_be_from, of_le, pack_be, pack_le, bytes_of,
}
use native.Mathlib.Nat.{pow-suc}
use mathlib.Core.List.{reverse, reverse-append, reverse-reverse}

pub bytes_eq_refl : (xs : Bytes) → bytes_eq xs xs ≡ true
bytes_eq_refl [] = refl
bytes_eq_refl (x ∷ xs) = ground (arith, bytes_eq_refl xs)

pub bytes_eq→eq : (xs ys : Bytes) → bytes_eq xs ys ≡ true → xs ≡ ys
bytes_eq→eq [] [] h = refl
bytes_eq→eq [] (y ∷ ys) h = cc
bytes_eq→eq (x ∷ xs) [] h = cc
bytes_eq→eq (x ∷ xs) (y ∷ ys) h = ground (arith, bytes_eq→eq xs ys)

pub bytes_eq_iff : (xs ys : Bytes) → (bytes_eq xs ys ≡ true) ↔ (xs ≡ ys)
bytes_eq_iff xs ys = (bytes_eq→eq xs ys, λ e. rw e (bytes_eq_refl ys))

pub pow_suc : (w : ℕ) → 256 ^ suc w ≡ 256 * 256 ^ w
pow_suc w = omega (arith, pow-suc 256 w)

div_lt : (n p : ℕ) → n < 256 * p → n / 256 < p
div_lt n p h = omega arith

pub length-be : (w n : ℕ) → length (be w n) ≡ w
unfolding be
length-be zero n = refl
length-be (suc w) n =
    omega (arith, length-append {0} (be w (n / 256)) (n % 256 ∷ []), length-be w (n / 256))

pub length-le : (w n : ℕ) → length (le w n) ≡ w
unfolding le
length-le zero n = refl
length-le (suc w) n = ap suc (length-le w (n / 256))

pub le-IsByte : (w n : ℕ) → All IsByte (le w n)
unfolding le
le-IsByte zero n = tt
le-IsByte (suc w) n = (omega arith, le-IsByte w (n / 256))

pub be-IsByte : (w n : ℕ) → All IsByte (be w n)
unfolding be
be-IsByte zero n = tt
be-IsByte (suc w) n =
    All-append IsByte (be w (n / 256)) (n % 256 ∷ []) (be-IsByte w (n / 256)) (omega arith, tt)

pub of_le-le : (w n : ℕ) → n < 256 ^ w → of_le (le w n) ≡ n
unfolding of_le le
of_le-le zero n h = omega arith
of_le-le (suc w) n h =
    omega (arith, of_le-le w (n / 256) (div_lt n (256 ^ w) (omega (arith, pow_suc w))))

pub le-of_le : (bs : Bytes) → All IsByte bs → le (length bs) (of_le bs) ≡ bs
unfolding of_le le
le-of_le [] h = refl
le-of_le (b ∷ bs) h =
    let byte : (b + 256 * of_le bs) % 256 ≡ b = omega (arith, h.0) in
    let more : (b + 256 * of_le bs) / 256 ≡ of_le bs = omega (arith, h.0) in
    rw (byte, more, le-of_le bs h.1)

pub of_le-lt : (bs : Bytes) → All IsByte bs → of_le bs < 256 ^ length bs
unfolding of_le
of_le-lt [] h = omega arith
of_le-lt (b ∷ bs) h = rw pow_suc (omega (arith, of_le-lt bs h.1))

of_be_from-append :
    (acc : ℕ) (xs ys : Bytes) → of_be_from acc (xs ++ ys) ≡ of_be_from (of_be_from acc xs) ys
unfolding of_be_from
of_be_from-append acc [] ys = refl
of_be_from-append acc (x ∷ xs) ys = of_be_from-append (acc * 256 + x) xs ys

pub of_be-be : (w n : ℕ) → n < 256 ^ w → of_be (be w n) ≡ n
unfolding of_be be of_be_from
of_be-be zero n h = omega arith
of_be-be (suc w) n h =
    of_be_from-append 0 (be w (n / 256)) (n % 256 ∷ [])
    ∙ omega (arith, of_be-be w (n / 256) (div_lt n (256 ^ w) (omega (arith, pow_suc w))))

-- Big-endian is little-endian backwards.
be-eq-reverse : (w n : ℕ) → be w n ≡ reverse (le w n)
unfolding be le
be-eq-reverse zero n = refl
be-eq-reverse (suc w) n =
    rw (be-eq-reverse w (n / 256)) (sym (reverse-append (n % 256 ∷ []) (le w (n / 256))))

of_be-reverse : (bs : Bytes) → of_be (reverse bs) ≡ of_le bs
unfolding of_be of_be_from of_le
of_be-reverse [] = refl
of_be-reverse (b ∷ bs) =
    ap (of_be_from 0) (reverse-append (b ∷ []) bs)
    ∙ of_be_from-append 0 (reverse bs) (b ∷ [])
    ∙ omega (arith, of_be-reverse bs)

of_be-eq-of_le : (bs : Bytes) → of_be bs ≡ of_le (reverse bs)
of_be-eq-of_le bs = ap of_be (sym (reverse-reverse bs)) ∙ of_be-reverse (reverse bs)

length-reverse : (bs : Bytes) → length (reverse bs) ≡ length bs
length-reverse [] = refl
length-reverse (b ∷ bs) =
    ap length (reverse-append (b ∷ []) bs)
    ∙ omega (arith, length-append {0} (reverse bs) (b ∷ []), length-reverse bs)

reverse-IsByte : (bs : Bytes) → All IsByte bs → All IsByte (reverse bs)
reverse-IsByte [] h = tt
reverse-IsByte (b ∷ bs) h =
    rw (reverse-append (b ∷ []) bs)
      (All-append IsByte (reverse bs) (b ∷ []) (reverse-IsByte bs h.1) (h.0, tt))

pub of_be-lt : (bs : Bytes) → All IsByte bs → of_be bs < 256 ^ length bs
of_be-lt bs h =
    rw (of_be-eq-of_le bs, ← length-reverse bs) (of_le-lt (reverse bs) (reverse-IsByte bs h))

pub be-of_be : (bs : Bytes) → All IsByte bs → be (length bs) (of_be bs) ≡ bs
be-of_be bs h =
    rw (of_be-eq-of_le bs, be-eq-reverse, ← length-reverse bs)
      (ap reverse (le-of_le (reverse bs) (reverse-IsByte bs h)) ∙ reverse-reverse bs)

-- pack either raises or writes the number that unpack reads
pub pack_be_fits : (w n : ℕ) → n < 256 ^ w → pack_be w n ≡ ok (be w n)
unfolding pack_be
pack_be_fits w n h = rw (lt→ltb n (256 ^ w) h)

pub pack_le_fits : (w n : ℕ) → n < 256 ^ w → pack_le w n ≡ ok (le w n)
unfolding pack_le
pack_le_fits w n h = rw (lt→ltb n (256 ^ w) h)

-- Bytes that were unpacked are packed to the same bytes.
pub pack_be-of_be :
    (w : ℕ) (bs : Bytes) → length bs ≡ w → All IsByte bs → pack_be w (of_be bs) ≡ ok bs
pack_be-of_be w bs e h =
    pack_be_fits w (of_be bs) (rw (← e) (of_be-lt bs h)) ∙ ap ok (rw (← e) (be-of_be bs h))

pub bytes_of_fits : (ns : List ℕ) → All IsByte ns → bytes_of ns ≡ ok ns
unfolding bytes_of
bytes_of_fits [] h = refl
bytes_of_fits (n ∷ ns) h = rw (bytes_of_fits ns h.1, lt→ltb n 256 h.0)

-- A default that is a byte reads as one.
pub get_or-IsByte : (d : Bytes) (i : ℕ) → All IsByte d → get_or d i 0 < 256
get_or-IsByte [] i h = omega arith
get_or-IsByte (x ∷ xs) zero h = h.0
get_or-IsByte (x ∷ xs) (suc i) h = get_or-IsByte xs i h.1

-- The first `w` bytes are what packing the number that they say writes.
pub take-of_le :
    (w : ℕ) (bs : Bytes) → w ≤ length bs → All IsByte bs → take w bs ≡ le w (of_le (take w bs))
take-of_le w bs h b =
    let size : length (take w bs) ≡ w = omega (arith, length-take w bs) in
    sym (le-of_le (take w bs) (All-take IsByte w bs b)) ∙ ap (λ k. le k (of_le (take w bs))) size
