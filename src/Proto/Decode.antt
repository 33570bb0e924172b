-- ===== src/Proto/Decode.antt =====
-- `.decode()` of bytes: the code points of UTF-8, and that it reads what `.encode()` writes.
use construct_protos.Prelude.{
  ℕ, zero, suc, ◌+◌, ◌-◌, ◌*◌, ◌/◌, ◌%◌, ◌≤◌, ◌<◌, ◌≡◌, inl, inr, ◌∙◌, refl, ap, List, [], ◌∷◌,
  ◌++◌, Bool, true, ◌&&◌, ◌||◌, ltb, leb, Bool-cases, ltb→lt, ltb_false→le, if◌then◌else◌, All,
  arith,
}
use construct_protos.Prelude.Result.{ok, err, Raises, value_error, ◌>>=◌}
use construct_protos.Bytes.{Bytes}
use construct_protos.Proto.{utf8, utf8_char}

-- Between two bytes: how many bytes of a code point are to come, the bits that were read, and the
-- lowest code point that needs so many bytes.
pub record Partial : Type 0 where
  pub left : ℕ
  pub bits : ℕ
  pub lowest : ℕ

abbrev pub between : Partial
between = record { left = 0; bits = 0; lowest = 0 }

abbrev partial : ℕ → ℕ → ℕ → Partial
partial left bits lowest = record { left = left; bits = bits; lowest = lowest }

-- A code point that UTF-8 has: no surrogate, and not above U+10FFFF.
abbrev pub is_scalar : ℕ → Bool
is_scalar c = ltb c 0xd800 || leb 0xe000 c && ltb c 0x11_0000

-- A first byte: the code point that it is, or what it begins. UnicodeDecodeError is a ValueError.
unfoldable pub first_byte : ℕ → Raises (Partial × List ℕ)
first_byte b =
    if ltb b 0x80
    then ok (between, b ∷ [])
    else if ltb b 0xc0
    then err value_error
    else if ltb b 0xe0
    then ok (partial 1 (b - 0xc0) 0x80, [])
    else if ltb b 0xf0
    then ok (partial 2 (b - 0xe0) 0x800, [])
    else if ltb b 0xf8
    then ok (partial 3 (b - 0xf0) 0x1_0000, [])
    else err value_error

-- A later byte.
unfoldable pub later_byte : Partial → ℕ → Raises (Partial × List ℕ)
later_byte p b =
    let bits = p.bits * 64 + (b - 0x80) in
    if ltb b 0x80 || leb 0xc0 b
    then err value_error
    else if ltb 1 p.left
    then ok (partial (p.left - 1) bits p.lowest, [])
    else if leb p.lowest bits && is_scalar bits
    then ok (between, bits ∷ [])
    else err value_error

-- A byte, where `left` are to come.
abbrev pub next_byte : ℕ → Partial → ℕ → Raises (Partial × List ℕ)
next_byte zero p b = first_byte b
next_byte (suc left) p b = later_byte p b

abbrev pub at_end : ℕ → Raises (List ℕ)
at_end zero = ok []
at_end (suc left) = err value_error

unfoldable pub decode_loop : Partial → Bytes → Raises (List ℕ)
unfolding first_byte later_byte
decode_loop p [] = at_end p.left
decode_loop p (b ∷ bs) = do
  one ← next_byte p.left p b
  rest ← decode_loop one.0 bs
  ok (one.1 ++ rest)

unfoldable pub utf8_decode : Bytes → Raises (List ℕ)
unfolding decode_loop
utf8_decode bs = decode_loop between bs

-- The bytes of a code point in front of others.
first_step :
    (b : ℕ) (p : Partial) (out : List ℕ) (bs : Bytes)
    → first_byte b ≡ ok (p, out)
    → decode_loop between (b ∷ bs) ≡ (decode_loop p bs >>= (λ rest. ok (out ++ rest)))
unfolding decode_loop
first_step b p out bs e = rw e refl

later_step :
    (left bits lowest b : ℕ) (p : Partial) (out : List ℕ) (bs : Bytes)
    → later_byte (partial (suc left) bits lowest) b ≡ ok (p, out)
    → decode_loop (partial (suc left) bits lowest) (b ∷ bs)
      ≡ (decode_loop p bs >>= (λ rest. ok (out ++ rest)))
unfolding decode_loop
later_step left bits lowest b p out bs e = rw e refl

one_byte : (c : ℕ) → c < 0x80 → first_byte c ≡ ok (between, c ∷ [])
unfolding first_byte
one_byte c h = ground arith

first_of_two : (c : ℕ) → c < 32 → first_byte (0xc0 + c) ≡ ok (partial 1 c 0x80, [])
unfolding first_byte
first_of_two c h = let same : 0xc0 + c - 0xc0 ≡ c = omega arith in ground (arith, same)

first_of_three : (c : ℕ) → c < 16 → first_byte (0xe0 + c) ≡ ok (partial 2 c 0x800, [])
unfolding first_byte
first_of_three c h = let same : 0xe0 + c - 0xe0 ≡ c = omega arith in ground (arith, same)

first_of_four : (c : ℕ) → c < 8 → first_byte (0xf0 + c) ≡ ok (partial 3 c 0x1_0000, [])
unfolding first_byte
first_of_four c h = let same : 0xf0 + c - 0xf0 ≡ c = omega arith in ground (arith, same)

last_byte :
    (bits lowest d c : ℕ)
    → d < 64
    → bits * 64 + d ≡ c
    → lowest ≤ c
    → is_scalar c ≡ true
    → later_byte (partial 1 bits lowest) (0x80 + d) ≡ ok (between, c ∷ [])
unfolding later_byte
last_byte bits lowest d c h e low scalar =
    let same : bits * 64 + (0x80 + d - 0x80) ≡ c = omega (arith, e) in
    rw (same, scalar) (ground (arith, h, low))

middle_byte :
    (left bits lowest d : ℕ)
    → d < 64
    → later_byte (partial (suc (suc left)) bits lowest) (0x80 + d)
      ≡ ok (partial (suc left) (bits * 64 + d) lowest, [])
unfolding later_byte
middle_byte left bits lowest d h =
    let same : 0x80 + d - 0x80 ≡ d = omega arith in rw same (ground (arith, h))

-- What is read of a code point and what is behind it.
abbrev then_rest : ℕ → Bytes → Raises (List ℕ)
then_rest c bs = decode_loop between bs >>= (λ rest. ok (c ∷ rest))

bind_nothing : (r : Raises (List ℕ)) → r >>= (λ rest. ok ([] ++ rest)) ≡ r
bind_nothing (ok a) = refl
bind_nothing (err e) = refl

-- A first byte of more, and a byte in the middle, only change what is to come.
first_more :
    (b : ℕ) (p : Partial) (bs : Bytes)
    → first_byte b ≡ ok (p, [])
    → decode_loop between (b ∷ bs) ≡ decode_loop p bs
first_more b p bs e = first_step b p [] bs e ∙ bind_nothing (decode_loop p bs)

middle_more :
    (left bits lowest d : ℕ) (bs : Bytes)
    → d < 64
    → decode_loop (partial (suc (suc left)) bits lowest) ((0x80 + d) ∷ bs)
      ≡ decode_loop (partial (suc left) (bits * 64 + d) lowest) bs
middle_more left bits lowest d bs h =
    later_step (suc left) bits lowest (0x80 + d) _ [] bs (middle_byte left bits lowest d h)
    ∙ bind_nothing _

last_more :
    (bits lowest d c : ℕ) (bs : Bytes)
    → d < 64
    → bits * 64 + d ≡ c
    → lowest ≤ c
    → is_scalar c ≡ true
    → decode_loop (partial 1 bits lowest) ((0x80 + d) ∷ bs) ≡ then_rest c bs
last_more bits lowest d c bs h e low scalar =
    later_step 0 bits lowest (0x80 + d) between (c ∷ []) bs
      (last_byte bits lowest d c h e low scalar)

char-decoded :
    (c : ℕ) (bs : Bytes)
    → is_scalar c ≡ true
    → decode_loop between (utf8_char c ++ bs) ≡ then_rest c bs
char-decoded c bs scalar = elim (Bool-cases (ltb c 0x80)) [
  | inl k ↦ rw k (first_step c between (c ∷ []) bs (one_byte c (ltb→lt c 0x80 k)))
  | inr k ↦ elim (Bool-cases (ltb c 0x800)) [
    | inl l ↦
        let small = ltb→lt c 0x800 l in
        let large = ltb_false→le c 0x80 k in
        rw (k, l)
          (first_more (0xc0 + c / 64) _ _ (first_of_two (c / 64) (omega (arith, small)))
            ∙ last_more (c / 64) 0x80 (c % 64) c bs (omega arith) (omega arith) large scalar)
    | inr l ↦ elim (Bool-cases (ltb c 0x1_0000)) [
      | inl m ↦
          let small = ltb→lt c 0x1_0000 m in
          let large = ltb_false→le c 0x800 l in
          rw (k, l, m)
            (first_more (0xe0 + c / 4096) _ _ (first_of_three (c / 4096) (omega (arith, small)))
              ∙ middle_more 0 (c / 4096) 0x800 (c / 64 % 64) _ (omega arith)
              ∙ last_more (c / 4096 * 64 + c / 64 % 64) 0x800 (c % 64) c bs (omega arith)
                  (omega arith) large scalar)
      | inr m ↦
          let small = scalar_small c scalar in
          let large = ltb_false→le c 0x1_0000 m in
          rw (k, l, m)
            (first_more (0xf0 + c / 262144) _ _ (first_of_four (c / 262144) (omega (arith, small)))
              ∙ middle_more 1 (c / 262144) 0x1_0000 (c / 4096 % 64) _ (omega arith)
              ∙ middle_more 0 (c / 262144 * 64 + c / 4096 % 64) 0x1_0000 (c / 64 % 64) _
                  (omega arith)
              ∙ last_more ((c / 262144 * 64 + c / 4096 % 64) * 64 + c / 64 % 64) 0x1_0000 (c % 64) c
                  bs (omega arith) (omega arith) large scalar)
    ]
  ]
]
  where
    scalar_small : (c : ℕ) → is_scalar c ≡ true → c < 0x11_0000
    scalar_small c h = ground (arith, h)

-- Every text without surrogates is read back.
pub utf8_decode-utf8 : (s : List ℕ) → All (λ c. is_scalar c ≡ true) s → utf8_decode (utf8 s) ≡ ok s
unfolding utf8_decode utf8
utf8_decode-utf8 [] h = unfold decode_loop in refl
utf8_decode-utf8 (c ∷ cs) h =
    char-decoded c (utf8 cs) h.0 ∙ ap (λ r. r >>= (λ rest. ok (c ∷ rest))) (utf8_decode-utf8 cs h.1)
