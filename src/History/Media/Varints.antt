-- ===== src/History/Media/Varints.antt =====
-- The three codecs of varints, together: `_varint` of the generator, the encoder of
-- conformance/check_contact_card.py and the checker's loop over a length.
use construct_protos.Prelude.{ℕ, ◌^◌, ◌≤◌, ◌<◌, ◌≡◌, ◌∷◌, ◌++◌, length}
use construct_protos.Prelude.Result.{ok}
use construct_protos.Bytes.{Bytes}
use construct_protos.Proto.{varint, varint_field}
use construct_protos.Proto.Varint.{varint_field-eq-varint, varint_shape}
use construct_protos.History.Media.{read_length}
use construct_protos.History.Media.Reading.{read_length-varint}

-- On a number of 64 bits and a tag of one byte: the contact card's encoder writes the tag and then what
-- the generator's `_varint` writes, which is at most ten bytes; and the checker's loop over a length
-- reads from these bytes, whatever stands behind them, the number, and leaves what stands behind.
pub varint_codecs :
    (tag n : ℕ) (rest : Bytes)
    → tag < 256
    → n < 2 ^ 64
    → (varint_field tag n ≡ ok (tag ∷ varint n))
      × (length (varint n) ≤ 10)
      × (read_length (varint n ++ rest) 0 0 ≡ ok (n, rest))
varint_codecs tag n rest ht hn =
    (varint_field-eq-varint tag n ht hn, (varint_shape n).2, read_length-varint n rest hn)
