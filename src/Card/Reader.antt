-- ===== src/Card/Reader.antt =====
-- A reader of contact cards, written from the text at the head of check_contact_card.py and of its
-- vectors.
use construct_protos.Prelude.{
  ℕ, zero, suc, [], ◌∷◌, Option, none, some, ◌==◌, if◌then◌else◌, take, drop, length,
}
use construct_protos.Prelude.Result.{ok, Raises}
use construct_protos.Bytes.{Bytes}
use construct_protos.History.Media.{read_length, behind}

-- A card as it is read. A field of the wrong length is ignored; no generation is 0.
pub record Read : Type 0 where
  pub key : Option Bytes
  pub addr : Option Bytes
  pub generation : ℕ

abbrev pub nothing : Read
nothing = record { key = none; addr = none; generation = 0 }

abbrev pub take_value : ℕ → Bytes → Read → Read
take_value tag value r =
    if tag == 0x0a
    then (if length value == 32 then record r { key = some value } else r)
    else if tag == 0x12
    then (if length value == 32 then record r { addr = some value } else r)
    else r

-- One field at a time: the tag, then a number, which for a field of bytes is its length. `none` is the
-- end of the fuel.
unfoldable pub read_fields : ℕ → Bytes → Read → Option (Raises Read)
read_fields fuel [] r = some (ok r)
read_fields zero (tag ∷ rest) r = none
read_fields (suc fuel) (tag ∷ rest) r = behind (read_length rest 0 0) (λ p.
    read_fields fuel (if tag == 0x18 then p.1 else drop p.0 p.1)
      (if tag == 0x18 then record r { generation = p.0 } else take_value tag (take p.0 p.1) r))

-- A payload; there are fewer fields than bytes, and three kinds of them.
unfoldable pub read_card : Bytes → Option (Raises Read)
read_card p = read_fields (suc (suc (suc (length p)))) p nothing
