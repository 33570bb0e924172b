-- ===== src/Sticker/Spelled.antt =====
-- How protoc's text format spells bytes between its quotes: printable ASCII stands for itself, but for
-- the quotes and the backslash, which have a backslash in front; a line feed, a return and a tab have a
-- letter, and any byte may have three octal digits. `unescape` of conformance/check_sticker_ref.py
-- reads such texts.
use construct_protos.Prelude.{
  ℕ, ◌+◌, ◌/◌, ◌%◌, ◌<◌, ◌≤◌, ◌≡◌, ◌≢◌, ◌∙◌, refl, List, [], ◌∷◌, All, arith, ne→==_false,
}
use construct_protos.Prelude.Result.{ok}
use construct_protos.Bytes.{Bytes}
use construct_protos.Proto.{utf8}
use construct_protos.Sticker.{escape_at, piece, unescape_loop, unescape}
use construct_protos.Sticker.Escape.{quoted, piece_octal, loop_escape, unescape-quoted}

pub data Spelled : Bytes → List ℕ → Type 0 where
  spelled_end : Spelled [] []
  plain :
      {c : ℕ} {bs : Bytes} {t : List ℕ}
      → 32 ≤ c
      → c < 127
      → c ≢ 34
      → c ≢ 39
      → c ≢ 92
      → Spelled bs t
      → Spelled (c ∷ bs) (c ∷ t)
  three_digits :
      {b : ℕ} {bs : Bytes} {t : List ℕ}
      → b < 256
      → Spelled bs t
      → Spelled (b ∷ bs) (92 ∷ (48 + b / 64) ∷ (48 + b / 8 % 8) ∷ (48 + b % 8) ∷ t)
  line_feed : {bs : Bytes} {t : List ℕ} → Spelled bs t → Spelled (10 ∷ bs) (92 ∷ b'n' ∷ t)
  carriage_return : {bs : Bytes} {t : List ℕ} → Spelled bs t → Spelled (13 ∷ bs) (92 ∷ b'r' ∷ t)
  tab : {bs : Bytes} {t : List ℕ} → Spelled bs t → Spelled (9 ∷ bs) (92 ∷ b't' ∷ t)
  double_quote : {bs : Bytes} {t : List ℕ} → Spelled bs t → Spelled (34 ∷ bs) (92 ∷ 34 ∷ t)
  single_quote : {bs : Bytes} {t : List ℕ} → Spelled bs t → Spelled (39 ∷ bs) (92 ∷ 39 ∷ t)
  backslash : {bs : Bytes} {t : List ℕ} → Spelled bs t → Spelled (92 ∷ bs) (92 ∷ 92 ∷ t)

loop_plain :
    (c : ℕ) (cs : List ℕ) (bs : Bytes)
    → c < 127
    → c ≢ 92
    → unescape_loop 0 cs ≡ ok bs
    → unescape_loop 0 (c ∷ cs) ≡ ok (c ∷ bs)
unfolding unescape_loop piece utf8
loop_plain c cs bs h k e = rw (ne→==_false c 92 k, e) (ground (arith, h))

-- One escape of two characters.
loop_two :
    (b p : ℕ) (cs : List ℕ) (bs : Bytes)
    → piece 92 (p ∷ cs) ≡ ok (b ∷ [], 1)
    → unescape_loop 0 cs ≡ ok bs
    → unescape_loop 0 (92 ∷ p ∷ cs) ≡ ok (b ∷ bs)
unfolding unescape_loop
loop_two b p cs bs e f = rw (e, f) refl

loop-Spelled : {bs : Bytes} {t : List ℕ} → Spelled bs t → unescape_loop 0 t ≡ ok bs
unfolding piece escape_at unescape_loop
loop-Spelled spelled_end = refl
loop-Spelled (plain {c} {bs} {t} l h q r k s) = loop_plain c t bs h k (loop-Spelled s)
loop-Spelled (three_digits {b} {bs} {t} h s) =
    loop_escape b (48 + b / 64) (48 + b / 8 % 8) (48 + b % 8) t bs (piece_octal b t h)
      (loop-Spelled s)
loop-Spelled (line_feed {bs} {t} s) = loop_two 10 b'n' t bs refl (loop-Spelled s)
loop-Spelled (carriage_return {bs} {t} s) = loop_two 13 b'r' t bs refl (loop-Spelled s)
loop-Spelled (tab {bs} {t} s) = loop_two 9 b't' t bs refl (loop-Spelled s)
loop-Spelled (double_quote {bs} {t} s) = loop_two 34 34 t bs refl (loop-Spelled s)
loop-Spelled (single_quote {bs} {t} s) = loop_two 39 39 t bs refl (loop-Spelled s)
loop-Spelled (backslash {bs} {t} s) = loop_two 92 92 t bs refl (loop-Spelled s)

pub unescape-Spelled : {bs : Bytes} {t : List ℕ} → Spelled bs t → unescape (quoted t) ≡ ok bs
unescape-Spelled {bs} {t} s = unescape-quoted t ∙ loop-Spelled s

-- No character of such a text ends the line.
pub Spelled-one_line : {bs : Bytes} {t : List ℕ} → Spelled bs t → All (λ c. c ≢ 10) t
Spelled-one_line spelled_end = tt
Spelled-one_line (plain l h q r k s) = (omega (arith, l), Spelled-one_line s)
Spelled-one_line (three_digits h s) =
    (omega arith, (omega arith, (omega arith, (omega arith, Spelled-one_line s))))
Spelled-one_line (line_feed s) = (omega arith, (omega arith, Spelled-one_line s))
Spelled-one_line (carriage_return s) = (omega arith, (omega arith, Spelled-one_line s))
Spelled-one_line (tab s) = (omega arith, (omega arith, Spelled-one_line s))
Spelled-one_line (double_quote s) = (omega arith, (omega arith, Spelled-one_line s))
Spelled-one_line (single_quote s) = (omega arith, (omega arith, Spelled-one_line s))
Spelled-one_line (backslash s) = (omega arith, (omega arith, Spelled-one_line s))
