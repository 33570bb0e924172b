-- ===== src/Sticker/Reference.antt =====
-- conformance/check_sticker_ref.py: `field` and `main`, with the loop over the vectors. `protoc --decode`
-- is a parameter; what it prints is ASCII. The lines that `field` searches are those of the text.
pub mod Printed
pub mod Accepted
pub mod Passing
mod Tests
use construct_protos.Prelude.{
  ℕ, ◌+◌, ◌-◌, ◌*◌, List, [], ◌∷◌, ◌++◌, Bool, true, false, not, ◌&&◌, Option, none, some, leb,
  ◌==◌, if◌then◌else◌,
}
use construct_protos.Prelude.Result.{ok, err, Raises, value_error, ◌>>=◌}
use construct_protos.Prelude.Checks.{check}
use construct_protos.Bytes.{Bytes, bytes_eq, codes}
use construct_protos.Bytes.Hex.{hex, fromhex}
use construct_protos.Proto.Decode.{utf8_decode}
use construct_protos.Sticker.{is_blank, unescape, Rules, Case, cases_agree}

abbrev pub cons_line : ℕ → List (List ℕ) → List (List ℕ)
cons_line c [] = (c ∷ []) ∷ []
cons_line c (l ∷ ls) = (c ∷ l) ∷ ls

-- The lines of a text, where ^ and $ of a search with re.M stand.
unfoldable pub lines : List ℕ → List (List ℕ)
lines [] = [] ∷ []
lines (c ∷ cs) = let rest = lines cs in if c == 10 then [] ∷ rest else cons_line c rest

-- text.lstrip(), and the \s* of the search
unfoldable pub lstrip : List ℕ → List ℕ
unfolding is_blank
lstrip [] = []
lstrip (c ∷ cs) = let rest = lstrip cs in if is_blank c then rest else c ∷ cs

-- What stands behind a prefix.
unfoldable pub behind : List ℕ → List ℕ → Option (List ℕ)
behind [] t = some t
behind (p ∷ ps) [] = none
behind (p ∷ ps) (c ∷ cs) = let rest = behind ps cs in if p == c then rest else none

-- (.+) takes one character at least; a line without is passed over.
abbrev pub group_or : Option (List ℕ) → Option (List ℕ) → Option (List ℕ)
group_or none rest = rest
group_or (some []) rest = rest
group_or (some (c ∷ cs)) rest = some (c ∷ cs)

unfoldable pub first_match : List ℕ → List (List ℕ) → Option (List ℕ)
unfolding lstrip behind
first_match label [] = none
first_match label (l ∷ ls) = group_or (behind label (lstrip l)) (first_match label ls)

unfoldable pub field : List ℕ → List ℕ → Option (List ℕ)
unfolding first_match lines
field text name = first_match (name ++ codes ": ") (lines text)

-- field(...) or ...
abbrev pub or_text : Option (List ℕ) → List ℕ → List ℕ
or_text none t = t
or_text (some u) t = u

-- The digits of an integer, with single underscores between them.
unfoldable pub digits_of : Bool → ℕ → List ℕ → Raises ℕ
digits_of seen acc [] = if seen then ok acc else err value_error
digits_of seen acc (c ∷ cs) =
    let more = digits_of true (acc * 10 + (c - 48)) cs in
    let behind_underscore = digits_of false acc cs in
    if leb 48 c && leb c 57
    then more
    else if seen && c == b'_'
    then behind_underscore
    else err value_error

abbrev pub put_front : ℕ → List ℕ → List ℕ
put_front c [] = if is_blank c then [] else c ∷ []
put_front c (d ∷ ds) = c ∷ d ∷ ds

unfoldable pub rstrip : List ℕ → List ℕ
unfolding is_blank
rstrip [] = []
rstrip (c ∷ cs) = put_front c (rstrip cs)

-- int(...) of a text: whether it is negated, and the number. Zero is never taken as negated.
abbrev pub signed : List ℕ → Raises (Bool × ℕ)
signed [] = err value_error
signed (c ∷ cs) =
    if c == b'-'
    then (do n ← digits_of false 0 cs; ok (not (n == 0), n))
    else if c == b'+'
    then (do n ← digits_of false 0 cs; ok (false, n))
    else (do n ← digits_of false 0 (c ∷ cs); ok (false, n))

unfoldable pub int_of : List ℕ → Raises (Bool × ℕ)
unfolding digits_of lstrip rstrip
int_of t = signed (rstrip (lstrip t))

-- int(field(...) or 0)
abbrev pub index_of : Option (List ℕ) → Raises (Bool × ℕ)
index_of none = ok (false, 0)
index_of (some t) = int_of t

-- A dict of `vectors`.
pub record Vector : Type 0 where
  pub message_content_hex : List ℕ
  pub pack_id_hex : List ℕ
  pub index : ℕ
  pub emoji : List ℕ

-- The texts that the loop over the vectors adds to the errors.
pub data Mistake : Type 0 where
  no_sticker wrong_pack_id wrong_index wrong_emoji : Mistake

-- text.lstrip().startswith("sticker {")
abbrev pub is_found : Option (List ℕ) → Bool
is_found none = false
is_found (some t) = true

unfoldable pub is_sticker : List ℕ → Bool
unfolding lstrip behind
is_sticker text = is_found (behind (codes "sticker {") (lstrip text))

-- The body of the loop, of the decoded text.
unfoldable pub check_text : Vector → List ℕ → Raises (List Mistake)
unfolding field int_of unescape utf8_decode
check_text v text = do
  got_pack ← unescape (or_text (field text (codes "pack_id")) (34 ∷ 34 ∷ []))
  got_index ← index_of (field text (codes "index"))
  emoji_bytes ← unescape (or_text (field text (codes "emoji")) (34 ∷ 34 ∷ []))
  got_emoji ← utf8_decode emoji_bytes
  ok (
      check (bytes_eq (hex got_pack) v.pack_id_hex) wrong_pack_id
      ++ (check (not got_index.0 && got_index.1 == v.index) wrong_index
          ++ check (bytes_eq got_emoji v.emoji) wrong_emoji))

abbrev pub is_empty : List Mistake → Bool
is_empty [] = true
is_empty (m ∷ ms) = false

module _ (protoc : Bytes → Raises (List ℕ)) where
  unfoldable pub check_vector : Vector → Raises (List Mistake)
  unfolding is_sticker check_text
  check_vector v = do
    raw ← fromhex v.message_content_hex
    text ← protoc raw
    if is_sticker text then check_text v text else ok (no_sticker ∷ [])

  unfoldable pub check_vectors : List Vector → Raises (List Mistake)
  unfolding check_vector
  check_vectors [] = ok []
  check_vectors (v ∷ vs) = do found ← check_vector v; rest ← check_vectors vs; ok (found ++ rest)

  -- Whether `main` returns 0.
  unfoldable pub passes : Rules → List Vector → List Case → Raises Bool
  unfolding check_vectors cases_agree
  passes rules vectors cases = do
    found ← check_vectors vectors
    agree ← cases_agree rules cases
    ok (is_empty found && agree)
