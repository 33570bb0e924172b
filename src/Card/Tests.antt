-- ===== src/Card/Tests.antt =====
-- Runs of the cases of check_contact_card.py.
use construct_protos.Prelude.{true, false, Bool, Option, none, ◌≡◌, refl, some, ◌∷◌, []}
use construct_protos.Prelude.Result.{ok, Raises, ◌>>=◌}
use construct_protos.Bytes.{Bytes, codes, bytes_of}
use construct_protos.Card.{
  intake_key, address, Seen, build, first_wrong, check_case, compare_case, generation_differs, Case,
  card,
}
use construct_protos.Card.Reader.{Read, read_card, read_fields}
use construct_protos.Bytes.Hex.{fromhex, hex}
use construct_protos.Proto.{card_field, varint_field}
use construct_protos.History.Media.{read_length}

abbrev found : Option Bytes → Bool
found none = false
found (some b) = true

abbrev seen_of : Option (Raises Read) → Raises Seen
seen_of none = ok (record { key_present = false; address_present = false; generation = none })
seen_of (some r) = do
  c ← r
  ok (record {
    key_present = found c.key;
    address_present = found c.addr;
    generation = some c.generation;
  })

-- The reader, in the place of protoc, agrees with all cases of the script.
cases_agree : (build >>= first_wrong (λ p. seen_of (read_card p))) ≡ ok none
unfolding build first_wrong check_case compare_case read_card read_fields intake_key address
    card_field bytes_of varint_field fromhex hex read_length
cases_agree = refl

abbrev one_byte : Bytes → Raises Seen
one_byte p = ok (record { key_present = true; address_present = true; generation = some 172 })

abbrev with_generation : Case
with_generation = record {
  name = [];
  payload = codes "1801";
  reads_as = card;
  stated_key = some [];
  stated_address = some [];
  intake_generation = 300;
}

one_byte_refused : first_wrong one_byte (with_generation ∷ []) ≡ ok (some generation_differs)
unfolding first_wrong check_case compare_case fromhex
one_byte_refused = refl
