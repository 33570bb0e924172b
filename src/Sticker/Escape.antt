-- ===== src/Sticker/Escape.antt =====
-- Reading escaped bytes back: what the scripts write in a text for protoc, and what protoc prints in
-- the same forms.
use construct_protos.Prelude.{
  ℕ, suc, ◌+◌, ◌-◌, ◌*◌, ◌/◌, ◌%◌, ◌<◌, ◌≡◌, ◌∙◌, refl, ap, List, [], ◌∷◌, ◌++◌, true, length, All,
  arith, take_prefix, length-append, lt→ltb,
}
use construct_protos.Prelude.Result.{ok}
use construct_protos.Bytes.{Bytes, IsByte}
use construct_protos.Bytes.Hex.{hex_digit, digit_value-hex_digit}
use construct_protos.Sticker.{
  is_octal, append_byte, octal_digits, int_16, escape_at, piece, unescape_loop, unescape,
}
use construct_protos.Sticker.Pack.{esc}
use construct_protos.Profile.Cases.{octal}

byte_appended : (n b : ℕ) → n ≡ b → b < 256 → append_byte n ≡ ok (b ∷ [])
byte_appended n b e h = rw (e, lt→ltb b 256 h) refl

piece_hex :
    (b : ℕ) (cs : List ℕ)
    → b < 256
    → piece 92 (b'x' ∷ hex_digit (b / 16) ∷ hex_digit (b % 16) ∷ cs) ≡ ok (b ∷ [], 3)
unfolding piece escape_at int_16
piece_hex b cs h =
    rw
      (
        digit_value-hex_digit (b / 16) (omega (arith, h)),
        digit_value-hex_digit (b % 16) (omega arith),
        byte_appended (b / 16 * 16 + b % 16) b (omega arith) h,
      )
      refl

octal_true : (d : ℕ) → d < 8 → is_octal (48 + d) ≡ true
octal_true d h = ground arith

octal_step :
    (left acc d : ℕ) (cs : List ℕ)
    → d < 8
    → octal_digits (suc left) acc ((48 + d) ∷ cs)
      ≡ ((octal_digits left (acc * 8 + d) cs).0, (octal_digits left (acc * 8 + d) cs).1 + 1)
unfolding octal_digits
octal_step left acc d cs h =
    let same : 48 + d - 48 ≡ d = omega arith in rw (octal_true d h, same) refl

-- Three digits are read, whatever stands behind them.
octal_three :
    (b : ℕ) (cs : List ℕ)
    → b < 256
    → octal_digits 3 0 ((48 + b / 64) ∷ (48 + b / 8 % 8) ∷ (48 + b % 8) ∷ cs) ≡ (b, 3)
octal_three b cs h =
    let sum : ((0 * 8 + b / 64) * 8 + b / 8 % 8) * 8 + b % 8 ≡ b = omega arith in
    rw
      (
        octal_step 2 0 (b / 64) ((48 + b / 8 % 8) ∷ (48 + b % 8) ∷ cs) (omega (arith, h)),
        octal_step 1 (0 * 8 + b / 64) (b / 8 % 8) ((48 + b % 8) ∷ cs) (omega arith),
        octal_step 0 ((0 * 8 + b / 64) * 8 + b / 8 % 8) (b % 8) cs (omega arith),
      )
      (unfold octal_digits in ap (λ n. (n, 3)) sum)

pub piece_octal :
    (b : ℕ) (cs : List ℕ)
    → b < 256
    → piece 92 ((48 + b / 64) ∷ (48 + b / 8 % 8) ∷ (48 + b % 8) ∷ cs) ≡ ok (b ∷ [], 3)
unfolding piece escape_at
piece_octal b cs h =
    rw (octal_true (b / 64) (omega (arith, h)), octal_three b cs h, byte_appended b b refl h) refl

-- One escape of four characters, in front of text that is read.
pub loop_escape :
    (b p q r : ℕ) (cs : List ℕ) (bs : Bytes)
    → piece 92 (p ∷ q ∷ r ∷ cs) ≡ ok (b ∷ [], 3)
    → unescape_loop 0 cs ≡ ok bs
    → unescape_loop 0 (92 ∷ p ∷ q ∷ r ∷ cs) ≡ ok (b ∷ bs)
unfolding unescape_loop
loop_escape b p q r cs bs e f = rw (e, f) refl

loop-esc : (bs : Bytes) → All IsByte bs → unescape_loop 0 (esc bs) ≡ ok bs
unfolding esc
loop-esc [] h = unfold unescape_loop in refl
loop-esc (b ∷ bs) h =
    loop_escape b b'x' (hex_digit (b / 16)) (hex_digit (b % 16)) (esc bs) bs
      (piece_hex b (esc bs) h.0) (loop-esc bs h.1)

loop-octal : (bs : Bytes) → All IsByte bs → unescape_loop 0 (octal bs) ≡ ok bs
unfolding octal
loop-octal [] h = unfold unescape_loop in refl
loop-octal (b ∷ bs) h =
    loop_escape b (48 + b / 64) (48 + b / 8 % 8) (48 + b % 8) (octal bs) bs
      (piece_octal b (octal bs) h.0) (loop-octal bs h.1)

-- A text between quotes.
abbrev pub quoted : List ℕ → List ℕ
quoted t = 34 ∷ t ++ (34 ∷ [])

pub unescape-quoted : (t : List ℕ) → unescape (quoted t) ≡ unescape_loop 0 t
unfolding unescape
unescape-quoted t = ap (unescape_loop 0) (
    take_prefix (suc (length (t ++ (34 ∷ []))) - 1 - 1) t (34 ∷ [])
      (omega (arith, length-append t (34 ∷ []))))

-- Bytes that the pack script escapes for protoc are read back by the reference script's reader.
pub unescape-esc : (bs : Bytes) → All IsByte bs → unescape (quoted (esc bs)) ≡ ok bs
unescape-esc bs h = unescape-quoted (esc bs) ∙ loop-esc bs h

-- Bytes in octal escapes of three digits, as the profile script writes a key, are read back by the
-- same reader.
pub unescape-octal : (bs : Bytes) → All IsByte bs → unescape (quoted (octal bs)) ≡ ok bs
unescape-octal bs h = unescape-quoted (octal bs) ∙ loop-octal bs h
