-- ===== src/Sticker/Reference/Printed.antt =====
-- The text that protoc prints of a sticker, and what the searches find in it.
use construct_protos.Prelude.{
  ℕ, zero, suc, ◌+◌, ◌-◌, ◌*◌, ◌≡◌, ◌≢◌, ◌∙◌, refl, ap, List, [], ◌∷◌, ◌++◌, true, false, ◌==◌, All,
  arith, ne→==_false,
}
use construct_protos.Prelude.Result.{ok}
use construct_protos.Bytes.{codes}
use construct_protos.Bytes.Decimal.{
  decimal, decimal-IsDigit, IsDigit, value_from, value_from-decimal,
}
use construct_protos.Sticker.{is_blank}
use construct_protos.Sticker.Escape.{quoted}
use construct_protos.Sticker.Reference.{lines, lstrip, digits_of, rstrip, int_of}

-- No character ends the line.
abbrev pub IsLine : List ℕ → Type 0
IsLine l = All (λ c. c ≢ 10) l

-- An index of zero is not printed.
abbrev pub index_line : ℕ → List ℕ → List ℕ
index_line zero rest = rest
index_line (suc n) rest = codes "  index: " ++ (decimal (suc n) ++ (10 ∷ rest))

-- A sticker as protoc prints it, of its texts for the pack id and the emoji.
abbrev pub printed : List ℕ → ℕ → List ℕ → List ℕ
printed pack index emoji =
    codes "sticker {"
    ++ (10 ∷ codes "  pack_id: "
        ++ (quoted pack
            ++ (10
                ∷ index_line index (codes "  emoji: " ++ (quoted emoji ++ (10 ∷ 125 ∷ 10 ∷ []))))))

lines_step : (l t : List ℕ) → IsLine l → lines (l ++ (10 ∷ t)) ≡ l ∷ lines t
unfolding lines
lines_step [] t h = refl
lines_step (c ∷ l) t h = rw (ne→==_false c 10 h.0, lines_step l t h.1) refl

digits-IsLine : (ds : List ℕ) → All IsDigit ds → IsLine ds
digits-IsLine [] h = tt
digits-IsLine (d ∷ ds) h = (omega (arith, h.0.0), digits-IsLine ds h.1)

IsLine-append : (a b : List ℕ) → IsLine a → IsLine b → IsLine (a ++ b)
IsLine-append [] b h k = k
IsLine-append (c ∷ a) b h k = (h.0, IsLine-append a b h.1 k)

quoted-IsLine : (t : List ℕ) → IsLine t → IsLine (quoted t)
quoted-IsLine t h = (omega arith, IsLine-append t (34 ∷ []) h (omega arith, tt))

abbrev pub index_lines : ℕ → List (List ℕ) → List (List ℕ)
index_lines zero rest = rest
index_lines (suc n) rest = (codes "  index: " ++ decimal (suc n)) ∷ rest

abbrev pub end_lines : List ℕ → List (List ℕ)
end_lines emoji = (codes "  emoji: " ++ quoted emoji) ∷ (125 ∷ []) ∷ [] ∷ []

lines_end :
    (emoji : List ℕ)
    → IsLine emoji
    → lines (codes "  emoji: " ++ (quoted emoji ++ (10 ∷ 125 ∷ 10 ∷ []))) ≡ end_lines emoji
lines_end emoji h =
    lines_step (codes "  emoji: " ++ quoted emoji) (125 ∷ 10 ∷ [])
      (IsLine-append (codes "  emoji: ") (quoted emoji) (omega arith) (quoted-IsLine emoji h))
    ∙ (unfold lines in refl)

lines_index : (n : ℕ) (rest : List ℕ) → lines (index_line n rest) ≡ index_lines n (lines rest)
lines_index zero rest = refl
lines_index (suc n) rest = lines_step (codes "  index: " ++ decimal (suc n)) rest (
    IsLine-append (codes "  index: ") (decimal (suc n)) (omega arith)
      (digits-IsLine (decimal (suc n)) (decimal-IsDigit (suc n))))

-- The lines of a sticker.
pub lines-printed :
    (pack : List ℕ) (index : ℕ) (emoji : List ℕ)
    → IsLine pack
    → IsLine emoji
    → lines (printed pack index emoji)
      ≡ codes "sticker {"
        ∷ (codes "  pack_id: " ++ quoted pack)
        ∷ index_lines index (end_lines emoji)
lines-printed pack index emoji h k =
    let emoji_text = codes "  emoji: " ++ (quoted emoji ++ (10 ∷ 125 ∷ 10 ∷ [])) in
    lines_step (codes "sticker {") _ (omega arith)
    ∙ ap (λ ls. codes "sticker {" ∷ ls)
        (lines_step (codes "  pack_id: " ++ quoted pack) (index_line index emoji_text)
            (IsLine-append (codes "  pack_id: ") (quoted pack) (omega arith) (quoted-IsLine pack h))
          ∙ ap (λ ls. (codes "  pack_id: " ++ quoted pack) ∷ ls)
              (lines_index index emoji_text ∙ ap (index_lines index) (lines_end emoji k)))

-- The digits of a number that is not zero.
pub decimal-suc : (n : ℕ) → (c : ℕ) × (cs : List ℕ) × (decimal (suc n) ≡ c ∷ cs)
unfolding value_from
decimal-suc n = go (decimal (suc n)) (value_from-decimal (suc n))
  where
    go : (ds : List ℕ) → value_from 0 ds ≡ suc n → (c : ℕ) × (cs : List ℕ) × (ds ≡ c ∷ cs)
    go [] e = absurd (omega (arith, e))
    go (c ∷ cs) e = (c, cs, refl)

digits_value :
    (acc : ℕ) (ds : List ℕ) → All IsDigit ds → digits_of true acc ds ≡ ok (value_from acc ds)
unfolding digits_of value_from
digits_value acc [] h = refl
digits_value acc (d ∷ ds) h =
    let rest = digits_value (acc * 10 + (d - 48)) ds h.1 in ground (arith, rest, h.0)

first_digit :
    (d : ℕ) (ds : List ℕ)
    → All IsDigit (d ∷ ds)
    → digits_of false 0 (d ∷ ds) ≡ ok (value_from 0 (d ∷ ds))
unfolding digits_of value_from
first_digit d ds h = let rest = digits_value (0 * 10 + (d - 48)) ds h.1 in ground (arith, rest, h.0)

digit_not_blank : (d : ℕ) → IsDigit d → is_blank d ≡ false
unfolding is_blank
digit_not_blank d h = ground (arith, h)

lstrip_digits : (ds : List ℕ) → All IsDigit ds → lstrip ds ≡ ds
unfolding lstrip
lstrip_digits [] h = refl
lstrip_digits (d ∷ ds) h = rw (digit_not_blank d h.0) refl

rstrip_digits : (ds : List ℕ) → All IsDigit ds → rstrip ds ≡ ds
unfolding rstrip
rstrip_digits [] h = refl
rstrip_digits (d ∷ []) h = rw (digit_not_blank d h.0) refl
rstrip_digits (d ∷ e ∷ ds) h = rw (rstrip_digits (e ∷ ds) h.1) refl

pub int_digits :
    (d : ℕ) (ds : List ℕ)
    → All IsDigit (d ∷ ds)
    → int_of (d ∷ ds) ≡ ok (false, value_from 0 (d ∷ ds))
unfolding int_of
int_digits d ds h =
    let no_minus : (d == b'-') ≡ false = ground (arith, h.0) in
    let no_plus : (d == b'+') ≡ false = ground (arith, h.0) in
    rw (lstrip_digits (d ∷ ds) h, rstrip_digits (d ∷ ds) h, no_minus, no_plus, first_digit d ds h)
      refl
