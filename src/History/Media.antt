-- ===== src/History/Media.antt =====
-- conformance/check_history_snapshot.py, `media_fields_in_order`: the field numbers of a
-- HistoryMediaBlob payload, read off its keys and lengths, must increase.
pub mod Sorting
pub mod Reading
pub mod Fields
pub mod Varints
use Prim.Native.Nat.{bit_and, bit_or}
use construct_protos.Prelude.{
  ℕ, zero, suc, ◌+◌, ◌*◌, ◌/◌, ◌^◌, List, [], ◌∷◌, ◌++◌, Bool, true, false, ◌&&◌, Option, none,
  some, ltb, leb, ◌==◌, if◌then◌else◌, drop, length,
}
use construct_protos.Prelude.Result.{ok, err, Raises, ◌>>=◌, index_error}
use construct_protos.Bytes.{Bytes, bytes_eq}

-- The loop over a length, from `payload[i:]`: the length and what is behind it. A payload that ends
-- inside a length is an IndexError.
unfoldable pub read_length : Bytes → ℕ → ℕ → Raises (ℕ × Bytes)
read_length [] value shift = err index_error
read_length (b ∷ rest) value shift =
    let value' = bit_or value (bit_and b 0x7f * 2 ^ shift) in
    let more = read_length rest value' (shift + 7) in if ltb b 0x80 then ok (value', rest) else more

-- What goes on behind a call that may raise, in a loop on fuel.
abbrev pub behind {ℓ κ} :
    {A : Type ℓ} {B : Type κ} → Raises A → (A → Option (Raises B)) → Option (Raises B)
behind (ok a) f = f a
behind (err e) f = some (err e)

-- Each round takes two bytes at least, so as many rounds as there are bytes are enough; `none` is
-- the end of the fuel. A field that runs past the payload ends the loop.
unfoldable pub numbers_loop : ℕ → Bytes → List ℕ → Option (Raises (List ℕ))
numbers_loop fuel [] numbers = some (ok numbers)
numbers_loop zero (key ∷ rest) numbers = none
numbers_loop (suc fuel) (key ∷ rest) numbers =
    behind (read_length rest 0 0)
      (λ r. numbers_loop fuel (drop r.0 r.1) (numbers ++ (key / 8 ∷ [])))

-- sorted(numbers)
unfoldable pub insert : ℕ → List ℕ → List ℕ
insert n [] = n ∷ []
insert n (m ∷ ms) = if leb n m then n ∷ m ∷ ms else m ∷ insert n ms

unfoldable pub sorted : List ℕ → List ℕ
unfolding insert
sorted [] = []
sorted (n ∷ ns) = insert n (sorted ns)

unfoldable pub is_in : ℕ → List ℕ → Bool
is_in n [] = false
is_in n (m ∷ ms) = if n == m then true else is_in n ms

-- len(set(numbers))
unfoldable pub distinct_count : List ℕ → ℕ
unfolding is_in
distinct_count [] = 0
distinct_count (n ∷ ns) = if is_in n ns then distinct_count ns else suc (distinct_count ns)

unfoldable pub in_order : List ℕ → Bool
unfolding sorted distinct_count
in_order numbers = bytes_eq numbers (sorted numbers) && distinct_count numbers == length numbers

-- The answer of the last line, of the numbers if there are any.
abbrev pub answer : Option (Raises (List ℕ)) → Option (Raises Bool)
answer none = none
answer (some (ok numbers)) = some (ok (in_order numbers))
answer (some (err e)) = some (err e)

unfoldable pub media_fields_in_order : Bytes → Option (Raises Bool)
media_fields_in_order payload = answer (numbers_loop (length payload) payload [])
