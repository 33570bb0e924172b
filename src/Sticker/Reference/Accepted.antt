-- ===== src/Sticker/Reference/Accepted.antt =====
-- What the script finds wrong in a vector whose bytes protoc decodes to a sticker.
use construct_protos.Prelude.{
  ℕ, zero, suc, ◌≡◌, ◌↔◌, ◌∙◌, refl, sym, ap, subst, List, [], ◌∷◌, ◌++◌, true, false, ◌&&◌, some,
  ◌==◌, All, arith,
}
use construct_protos.Prelude.Result.{ok, Raises, ok_injective}
use construct_protos.Prelude.Checks.{check, check-nil, append-nil_iff}
use construct_protos.Bytes.{Bytes, bytes_eq, codes}
use construct_protos.Bytes.Struct.{bytes_eq_iff}
use construct_protos.Bytes.Decimal.{IsDigit, decimal-IsDigit, value_from, value_from-decimal}
use construct_protos.Bytes.Hex.{hex, fromhex}
use construct_protos.Proto.{utf8}
use construct_protos.Proto.Decode.{utf8_decode, utf8_decode-utf8, is_scalar}
use construct_protos.Sticker.{is_blank, unescape}
use construct_protos.Sticker.Escape.{quoted}
use construct_protos.Sticker.Spelled.{Spelled, unescape-Spelled, Spelled-one_line}
use construct_protos.Sticker.Reference.{
  lstrip, behind, first_match, field, index_of, Vector, Mistake, wrong_pack_id, wrong_index,
  wrong_emoji, is_sticker, check_text, check_vector,
}
use construct_protos.Sticker.Reference.Printed.{
  IsLine, printed, index_lines, end_lines, lines-printed, decimal-suc, int_digits,
}

found_pack :
    (pack : List ℕ) (rest : List (List ℕ))
    → first_match
        (codes "pack_id" ++ codes ": ")
        (codes "sticker {" ∷ (codes "  pack_id: " ++ quoted pack) ∷ rest)
      ≡ some (quoted pack)
unfolding first_match lstrip behind is_blank
found_pack pack rest = refl

found_emoji :
    (pack : List ℕ) (index : ℕ) (emoji : List ℕ)
    → first_match (codes "emoji" ++ codes ": ") (
        codes "sticker {"
        ∷ (codes "  pack_id: " ++ quoted pack)
        ∷ index_lines index (end_lines emoji))
      ≡ some (quoted emoji)
unfolding first_match lstrip behind is_blank
found_emoji pack zero emoji = refl
found_emoji pack (suc n) emoji = refl

-- The index that is found, or none for zero.
found_index :
    (pack : List ℕ) (index : ℕ) (emoji : List ℕ)
    → index_of (
        first_match (codes "index" ++ codes ": ") (
          codes "sticker {"
          ∷ (codes "  pack_id: " ++ quoted pack)
          ∷ index_lines index (end_lines emoji)))
      ≡ ok (false, index)
unfolding first_match lstrip behind is_blank
found_index pack zero emoji = refl
found_index pack (suc n) emoji =
    let (c, cs, e) = decimal-suc n in
    rw e (
      int_digits c cs (subst (All IsDigit) e (decimal-IsDigit (suc n)))
      ∙ ap (λ m. ok (false, m)) (ap (value_from 0) (sym e) ∙ value_from-decimal (suc n)))

starts : (pack : List ℕ) (index : ℕ) (emoji : List ℕ) → is_sticker (printed pack index emoji) ≡ true
unfolding is_sticker lstrip behind is_blank
starts pack index emoji = refl

index_eq_iff : (m n : ℕ) → ((true && m == n) ≡ true) ↔ (n ≡ m)
index_eq_iff m n = (λ e. ground (arith, e), λ e. ground (arith, e))

-- The three comparisons.
mistakes-nil :
    (v : Vector) (pack emoji : List ℕ) (index : ℕ)
    → (check (bytes_eq (hex pack) v.pack_id_hex) wrong_pack_id
          ++ (check (true && index == v.index) wrong_index
              ++ check (bytes_eq emoji v.emoji) wrong_emoji)
        ≡ [])
      ↔ ((v.pack_id_hex ≡ hex pack) × (v.index ≡ index) × (v.emoji ≡ emoji))
mistakes-nil v pack emoji index =
    let pack_eq = bytes_eq_iff (hex pack) v.pack_id_hex in
    let emoji_eq = bytes_eq_iff emoji v.emoji in
    let same = index_eq_iff index v.index in
    (
      λ e.
          let (p, q) = (append-nil_iff _ _).0 e in
          let (i, m) = (append-nil_iff _ _).0 q in
          (
            sym (pack_eq.0 ((check-nil _ _).0 p)),
            same.0 ((check-nil _ _).0 i),
            sym (emoji_eq.0 ((check-nil _ _).0 m)),
          ),
      λ (p, i, m). (append-nil_iff _ _).1 (
        (check-nil _ _).1 (pack_eq.1 (sym p)),
        (append-nil_iff _ _).1
            ((check-nil _ _).1 (same.1 i), (check-nil _ _).1 (emoji_eq.1 (sym m))),
      ),
    )

-- What the body of the loop makes of what is found.
checked_of :
    (v : Vector) (text : List ℕ) {pack_text emoji_text pack emoji : List ℕ} {index : ℕ}
    → field text (codes "pack_id") ≡ some pack_text
    → index_of (field text (codes "index")) ≡ ok (false, index)
    → field text (codes "emoji") ≡ some emoji_text
    → unescape pack_text ≡ ok pack
    → unescape emoji_text ≡ ok (utf8 emoji)
    → utf8_decode (utf8 emoji) ≡ ok emoji
    → check_text v text
      ≡ ok (
          check (bytes_eq (hex pack) v.pack_id_hex) wrong_pack_id
          ++ (check (true && index == v.index) wrong_index
              ++ check (bytes_eq emoji v.emoji) wrong_emoji))
unfolding check_text
checked_of v text a b c d e f = rw (a, b, c, d, e, f) refl

module _ (pack : List ℕ) (index : ℕ) (emoji : List ℕ) (h : IsLine pack) (k : IsLine emoji) where
  field-pack : field (printed pack index emoji) (codes "pack_id") ≡ some (quoted pack)
  unfolding field
  field-pack =
      ap (first_match (codes "pack_id" ++ codes ": ")) (lines-printed pack index emoji h k)
      ∙ found_pack pack (index_lines index (end_lines emoji))

  field-index : index_of (field (printed pack index emoji) (codes "index")) ≡ ok (false, index)
  unfolding field
  field-index =
      ap (λ ls. index_of (first_match (codes "index" ++ codes ": ") ls))
        (lines-printed pack index emoji h k)
      ∙ found_index pack index emoji

  field-emoji : field (printed pack index emoji) (codes "emoji") ≡ some (quoted emoji)
  unfolding field
  field-emoji =
      ap (first_match (codes "emoji" ++ codes ": ")) (lines-printed pack index emoji h k)
      ∙ found_emoji pack index emoji

vector_checked :
    (protoc : Bytes → Raises (List ℕ)) (v : Vector) {raw text : List ℕ} {found : List Mistake}
    → fromhex v.message_content_hex ≡ ok raw
    → protoc raw ≡ ok text
    → is_sticker text ≡ true
    → check_text v text ≡ ok found
    → check_vector protoc v ≡ ok found
unfolding check_vector
vector_checked protoc v r d s c = rw (r, d, s, c) refl

-- A vector whose bytes protoc decodes to a sticker, printed with its lines for the pack id, for an index
-- that is not zero, and for the emoji, where the texts of the first and the last spell the pack id and
-- the UTF-8 of the emoji in protoc's text format, and the emoji has no surrogates: the script finds
-- nothing wrong exactly if the vector states the pack id, the index and the emoji of the sticker.
pub check_vector-nil_iff :
    (protoc : Bytes → Raises (List ℕ)) (v : Vector) (raw pack_text emoji_text : List ℕ) (index : ℕ)
    (pack emoji : List ℕ)
    → fromhex v.message_content_hex ≡ ok raw
    → protoc raw ≡ ok (printed pack_text index emoji_text)
    → Spelled pack pack_text
    → Spelled (utf8 emoji) emoji_text
    → All (λ c. is_scalar c ≡ true) emoji
    → (check_vector protoc v ≡ ok [])
      ↔ ((v.pack_id_hex ≡ hex pack) × (v.index ≡ index) × (v.emoji ≡ emoji))
check_vector-nil_iff protoc v raw pack_text emoji_text index pack emoji r d p e s =
    let agree = mistakes-nil v pack emoji index in
    let h = Spelled-one_line p in
    let k = Spelled-one_line e in
    let checked = vector_checked protoc v r d (starts pack_text index emoji_text) (
      checked_of v (printed pack_text index emoji_text) (field-pack pack_text index emoji_text h k)
        (field-index pack_text index emoji_text h k) (field-emoji pack_text index emoji_text h k)
        (unescape-Spelled p) (unescape-Spelled e) (utf8_decode-utf8 emoji s)) in
    (λ same. agree.0 (ok_injective (sym checked ∙ same)), λ same. checked ∙ ap ok (agree.1 same))
