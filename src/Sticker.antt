-- ===== src/Sticker.antt =====
-- conformance/check_sticker_ref.py and conformance/check_sticker_pack.py: `unescape`, which reads the
-- bytes that protoc prints, `esc`, which writes bytes for it, and the rules of both scripts. A text is
-- the list of its code points; protoc itself is a parameter where it is called.
pub mod Pack
pub mod Escape
pub mod Spelled
pub mod Entries
pub mod Reference
mod Tests
use construct_protos.Prelude.{
  ℕ, zero, suc, ◌+◌, ◌-◌, ◌*◌, ◌/◌, ◌%◌, List, [], ◌∷◌, ◌++◌, Bool, true, false, not, ◌&&◌, ◌||◌,
  Option, none, some, ltb, leb, ◌==◌, if◌then◌else◌, slice, length, map,
}
use construct_protos.Prelude.Result.{ok, err, Raises, value_error, index_error, key_error, ◌>>=◌}
use construct_protos.Bytes.{Bytes, codes}
use construct_protos.Bytes.Hex.{hex_digit, digit_value, fromhex}
use construct_protos.Proto.{utf8}

-- nxt in "01234567"
abbrev pub is_octal : ℕ → Bool
is_octal c = leb 48 c && ltb c 56

-- out.append(n): a number out of range(256) is a ValueError
abbrev pub append_byte : ℕ → Raises Bytes
append_byte n = if ltb n 256 then ok (n ∷ []) else err value_error

-- The octal digits of a text, three at most: their value behind `acc`, and how many they are.
unfoldable pub octal_digits : ℕ → ℕ → List ℕ → ℕ × ℕ
octal_digits zero acc cs = (acc, 0)
octal_digits (suc left) acc [] = (acc, 0)
octal_digits (suc left) acc (c ∷ cs) =
    let more = octal_digits left (acc * 8 + (c - 48)) cs in
    if is_octal c then (more.0, more.1 + 1) else (acc, 0)

-- The white space that `int` strips.
unfoldable pub is_blank : ℕ → Bool
is_blank c = c == 32 || leb 9 c && leb c 13 || leb 28 c && leb c 31

abbrev pub digit_or_error : Option ℕ → Raises ℕ
digit_or_error none = err value_error
digit_or_error (some d) = ok d

-- int(..., 16) of two characters that are no two digits: a sign or a blank may stand with one digit. A
-- negative number is out of range for `append`, which raises the same exception.
unfoldable pub int_odd : ℕ → ℕ → Raises ℕ
int_odd c d =
    if is_blank d
    then digit_or_error (digit_value c)
    else if is_blank c || c == b'+'
    then digit_or_error (digit_value d)
    else if c == b'-' && d == b'0'
    then ok 0
    else err value_error

unfoldable pub int_pair : Option ℕ → Option ℕ → ℕ → ℕ → Raises ℕ
unfolding int_odd
int_pair (some h) (some l) c d = ok (h * 16 + l)
int_pair (some h) none c d = int_odd c d
int_pair none l c d = int_odd c d

-- int(body[i + 2:i + 4], 16), of ASCII text
unfoldable pub int_16 : List ℕ → Raises ℕ
unfolding int_pair
int_16 [] = err value_error
int_16 (c ∷ []) = digit_or_error (digit_value c)
int_16 (c ∷ d ∷ cs) = int_pair (digit_value c) (digit_value d) c d

-- The table of the last branch: a letter that is not in it is a KeyError.
abbrev pub simple : ℕ → Raises ℕ
simple c =
    if c == b'n'
    then ok 10
    else if c == b'r'
    then ok 13
    else if c == b't'
    then ok 9
    else if c == 92 || (c == 34 || c == 39)
    then ok c
    else err key_error

-- What stands behind a backslash: its bytes, and by how many characters `i` moves on.
unfoldable pub escape_at : List ℕ → Raises (Bytes × ℕ)
unfolding int_16
escape_at [] = err index_error
escape_at (nxt ∷ cs) =
    if is_octal nxt
    then (do
      b ← append_byte (octal_digits 3 0 (nxt ∷ cs)).0
      ok (b, (octal_digits 3 0 (nxt ∷ cs)).1))
    else if nxt == b'x'
    then (do n ← int_16 (slice 0 2 cs); b ← append_byte n; ok (b, 3))
    else (do n ← simple nxt; ok (n ∷ [], 1))

-- One round of the loop, at the character `c` with `cs` behind it.
unfoldable pub piece : ℕ → List ℕ → Raises (Bytes × ℕ)
unfolding escape_at
piece c cs = if c == 92 then escape_at cs else ok (utf8 (c ∷ []), 0)

-- The loop, with the number of characters of `body` to pass over before the next round.
unfoldable pub unescape_loop : ℕ → List ℕ → Raises Bytes
unfolding piece
unescape_loop skip [] = ok []
unescape_loop (suc skip) (c ∷ cs) = unescape_loop skip cs
unescape_loop zero (c ∷ cs) = do one ← piece c cs; rest ← unescape_loop one.1 cs; ok (one.0 ++ rest)

-- protoc_string[1:-1] is the body.
unfoldable pub unescape : List ℕ → Raises Bytes
unfolding unescape_loop
unescape protoc_string = unescape_loop 0 (slice 1 (length protoc_string - 1) protoc_string)

-- The dict `rules`.
pub record Rules : Type 0 where
  pub pack_id_bytes : ℕ
  pub emoji_min_bytes : ℕ
  pub emoji_max_bytes : ℕ

-- A dict of `cases`.
pub record Case : Type 0 where
  pub pack_id_hex : List ℕ
  pub emoji : List ℕ
  pub valid : Bool

-- `computed`
unfoldable pub computed : Rules → List ℕ → List ℕ → Raises Bool
computed rules pack_id_hex emoji = do
  pack_id ← fromhex pack_id_hex
  ok (
      length pack_id == rules.pack_id_bytes
      && (leb rules.emoji_min_bytes (length (utf8 emoji))
          && leb (length (utf8 emoji)) rules.emoji_max_bytes))

abbrev pub same : Bool → Bool → Bool
same true b = b
same false b = not b

-- The loop over the cases: whether each one says what the rules say.
unfoldable pub cases_agree : Rules → List Case → Raises Bool
unfolding computed
cases_agree rules [] = ok true
cases_agree rules (c ∷ cs) = do
  says ← computed rules c.pack_id_hex c.emoji
  rest ← cases_agree rules cs
  ok (same says c.valid && rest)
