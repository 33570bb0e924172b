-- ===== src/Card/Reading.antt =====
-- What a reader of contact cards reads of the fields that check_contact_card.py writes.
use construct_protos.Prelude.{ℕ, ◌<◌, ◌^◌, ◌≡◌, [], ◌∷◌, ◌++◌, Option, none, some, length}
use construct_protos.Prelude.Result.{ok, Raises, ◌>>=◌}
use construct_protos.Bytes.{Bytes}
use construct_protos.Proto.{card_field, varint_field, varint}
use construct_protos.Card.Reader.{Read, take_value}

-- The optional parts of a payload.
abbrev pub field_part : ℕ → Option Bytes → Raises Bytes
field_part tag none = ok []
field_part tag (some value) = card_field tag value

abbrev pub number_part : Option ℕ → Raises Bytes
number_part none = ok []
number_part (some n) = varint_field 0x18 n

abbrev pub payload_of : Option Bytes → Option Bytes → Option ℕ → Raises Bytes
payload_of k a g = do
  key ← field_part 0x0a k
  addr ← field_part 0x12 a
  generation ← number_part g
  ok (key ++ (addr ++ generation))

abbrev pub IsSized : Option Bytes → Type 0
IsSized none = Unit
IsSized (some b) = length b ≡ 32

abbrev pub IsWord : Option ℕ → Type 0
IsWord none = Unit
IsWord (some n) = n < 2 ^ 64

abbrev bytes_part : ℕ → Option Bytes → Bytes
bytes_part tag none = []
bytes_part tag (some b) = tag ∷ length b ∷ b

abbrev varint_part : Option ℕ → Bytes
varint_part none = []
varint_part (some n) = 0x18 ∷ varint n

abbrev with_field : ℕ → Option Bytes → Read → Read
with_field tag none r = r
with_field tag (some b) r = take_value tag b r

abbrev written : Option Bytes → Option Bytes → Option ℕ → Bytes
written k a g = bytes_part 0x0a k ++ (bytes_part 0x12 a ++ varint_part g)
