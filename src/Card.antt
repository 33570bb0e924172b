-- ===== src/Card.antt =====
-- conformance/check_contact_card.py: the cases that `build` makes, and the tests that `main` makes of
-- each one. What `protoc --decode` prints, as the three searches of `main` read it, is a parameter.
pub mod Reader
pub mod Reading
mod Tests
use construct_protos.Prelude.{
  ℕ, List, [], ◌∷◌, ◌++◌, Bool, true, false, not, ◌&&◌, Option, none, some, ◌==◌, if◌then◌else◌,
}
use construct_protos.Prelude.Result.{ok, err, Raises, ◌>>=◌}
use construct_protos.Bytes.{Bytes, byte_range, codes}
use construct_protos.Bytes.Hex.{hex, fromhex}
use construct_protos.Proto.{card_field, varint_field}

-- KEY
unfoldable pub intake_key : Bytes
unfolding byte_range
intake_key = byte_range 0x10 32

-- ADDR
unfoldable pub address : Bytes
unfolding byte_range
address = byte_range 0xa0 32

pub data ReadsAs : Type 0 where
  card legacy_intake_key : ReadsAs

-- A dict of `cases`.
pub record Case : Type 0 where
  pub name : List ℕ
  pub payload : List ℕ
  pub reads_as : ReadsAs
  pub stated_key : Option (List ℕ)
  pub stated_address : Option (List ℕ)
  pub intake_generation : ℕ

unfoldable pub build : Raises (List Case)
unfolding intake_key address
build = do
  key ← card_field 0x0a intake_key
  addr ← card_field 0x12 address
  generation ← varint_field 0x18 300
  ok (
      record {
        name = codes "key_and_address";
        payload = hex (key ++ addr);
        reads_as = card;
        stated_key = some (hex intake_key);
        stated_address = some (hex address);
        intake_generation = 0;
      }
      ∷ record {
        name = codes "key_address_generation";
        payload = hex (key ++ (addr ++ generation));
        reads_as = card;
        stated_key = some (hex intake_key);
        stated_address = some (hex address);
        intake_generation = 300;
      }
      ∷ record {
        name = codes "address_only";
        payload = hex addr;
        reads_as = card;
        stated_key = none;
        stated_address = some (hex address);
        intake_generation = 0;
      }
      ∷ record {
        name = codes "key_only";
        payload = hex key;
        reads_as = card;
        stated_key = some (hex intake_key);
        stated_address = none;
        intake_generation = 0;
      }
      ∷ record {
        name = codes "legacy_bare_key";
        payload = hex intake_key;
        reads_as = legacy_intake_key;
        stated_key = some (hex intake_key);
        stated_address = none;
        intake_generation = 0;
      }
      ∷ [])

-- What the searches find in the decoded text.
pub record Seen : Type 0 where
  pub key_present : Bool
  pub address_present : Bool
  pub generation : Option ℕ

pub data Wrong : Type 0 where
  key_presence address_presence generation_differs : Wrong

abbrev is_some : Option (List ℕ) → Bool
is_some none = false
is_some (some t) = true

-- a != b of two Booleans
abbrev differ : Bool → Bool → Bool
differ true b = not b
differ false b = b

abbrev pub or_zero : Option ℕ → ℕ
or_zero none = 0
or_zero (some n) = n

unfoldable pub compare_case : Case → Seen → Option Wrong
compare_case c s =
    if differ s.key_present (is_some c.stated_key)
    then some key_presence
    else if differ s.address_present (is_some c.stated_address)
    then some address_presence
    else if or_zero s.generation == c.intake_generation
    then none
    else some generation_differs

module _ (decode : Bytes → Raises Seen) where
  -- A case that reads as a card is decoded and compared; any other one is passed over.
  unfoldable pub check_case : Case → ReadsAs → Raises (Option Wrong)
  unfolding compare_case
  check_case c card = do
    payload ← fromhex c.payload
    seen ← decode payload
    ok (compare_case c seen)
  check_case c legacy_intake_key = ok none

  abbrev or_next : Option Wrong → Raises (Option Wrong) → Raises (Option Wrong)
  or_next none rest = rest
  or_next (some w) rest = ok (some w)

  -- The loop of `main`, which ends at the first case that disagrees.
  unfoldable pub first_wrong : List Case → Raises (Option Wrong)
  unfolding check_case
  first_wrong [] = ok none
  first_wrong (c ∷ cs) = do found ← check_case c c.reads_as; or_next found (first_wrong cs)
