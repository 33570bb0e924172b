-- ===== src/Bytes.antt =====
-- Python's `bytes` as lists of numbers below 256, and what the scripts use of the modules
-- `struct` and `uuid`, of `bytes.hex` and of `bytes.fromhex`.
pub mod Struct
pub mod Hex
pub mod Decimal
pub mod Made
pub mod Bits
use construct_protos.Prelude.{
  ℕ, zero, suc, ◌+◌, ◌*◌, ◌/◌, ◌%◌, ◌^◌, ◌<◌, List, [], ◌∷◌, ◌++◌, Bool, true, false, ◌&&◌, String,
  ltb, ◌==◌, if◌then◌else◌, take, drop, length,
}
use construct_protos.Prelude.Result.{ok, err, struct_error, value_error, Raises, ◌>>=◌}
use Prim.Native.Char.{code}

abbrev pub Bytes : Type 0
Bytes = List ℕ

abbrev pub IsByte : ℕ → Type 0
IsByte b = b < 256

-- The code points of a text; for ASCII text they are also its UTF-8 bytes.
abbrev pub codes : String → List ℕ
codes String.[] = []
codes (String.◌∷◌ c s) = code c ∷ codes s

-- `a == b` on bytes
abbrev pub bytes_eq : Bytes → Bytes → Bool
bytes_eq [] [] = true
bytes_eq [] (y ∷ ys) = false
bytes_eq (x ∷ xs) [] = false
bytes_eq (x ∷ xs) (y ∷ ys) = x == y && bytes_eq xs ys

-- The `w` low bytes of a number, most significant first.
unfoldable pub be : ℕ → ℕ → Bytes
be zero n = []
be (suc w) n = be w (n / 256) ++ (n % 256 ∷ [])

-- The `w` low bytes of a number, least significant first.
unfoldable pub le : ℕ → ℕ → Bytes
le zero n = []
le (suc w) n = n % 256 ∷ le w (n / 256)

-- struct.unpack of one unsigned number, `acc` being what the bytes before it say
unfoldable pub of_be_from : ℕ → Bytes → ℕ
of_be_from acc [] = acc
of_be_from acc (b ∷ bs) = of_be_from (acc * 256 + b) bs

unfoldable pub of_be : Bytes → ℕ
unfolding of_be_from
of_be bs = of_be_from 0 bs

unfoldable pub of_le : Bytes → ℕ
of_le [] = 0
of_le (b ∷ bs) = b + 256 * of_le bs

-- struct.pack of one unsigned number: out of range is struct.error
unfoldable pub pack_be : ℕ → ℕ → Raises Bytes
unfolding be
pack_be w n = if ltb n (256 ^ w) then ok (be w n) else err struct_error

unfoldable pub pack_le : ℕ → ℕ → Raises Bytes
unfolding le
pack_le w n = if ltb n (256 ^ w) then ok (le w n) else err struct_error

-- bytes([...]): a number out of range(256) is a ValueError
unfoldable pub bytes_of : List ℕ → Raises Bytes
bytes_of [] = ok []
bytes_of (n ∷ ns) = do rest ← bytes_of ns; if ltb n 256 then ok (n ∷ rest) else err value_error

-- bytes(range(first, first + n))
unfoldable pub byte_range : ℕ → ℕ → Bytes
byte_range first zero = []
byte_range first (suc n) = first ∷ byte_range (first + 1) n
