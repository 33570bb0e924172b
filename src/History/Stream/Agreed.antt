-- ===== src/History/Stream/Agreed.antt =====
-- The three readers of a stream on the same bytes: `parse_cth1` and `media_payloads` of the checker, and
-- `parse_record_types` of the generator.
use construct_protos.Prelude.{ℕ, ◌≡◌, [], ◌∷◌, ◌++◌, List, some, All}
use construct_protos.Prelude.Result.{ok}
use construct_protos.Bytes.{Bytes, IsByte}
use construct_protos.History.Stream.{parse_cth1, Record, stream, parse_record_types, media_payloads}
use construct_protos.History.Stream.Steps.{record_types, record_lens}
use construct_protos.History.Stream.RoundTrip.{stream-parse_cth1}
use construct_protos.History.Stream.Payloads.{
  media_of, parse_record_types-parse_cth1, media_payloads-stream,
}

-- Where the checker accepts bytes, the readers agree on the records that the generator writes as these
-- bytes: the checker returns their types, then End, and their payload lengths; the generator's own
-- reader returns the same types; and the checker takes the payloads of the MediaBlob records, all of
-- them, whole and in order.
pub readers_agree :
    (d : Bytes) (types lens : List ℕ)
    → All IsByte d
    → parse_cth1 d ≡ ok (types, lens)
    → (rs : List Record) × (stream rs ≡ ok d)
      × (types ≡ record_types rs ++ (0 ∷ []))
      × (lens ≡ record_lens rs)
      × (parse_record_types d ≡ some (ok types))
      × (media_payloads d ≡ some (ok (media_of rs)))
readers_agree d types lens bytes e =
    let (rs, good, made, shape, sizes) = stream-parse_cth1 d types lens bytes e in
    (
      rs,
      made,
      shape,
      sizes,
      parse_record_types-parse_cth1 d types lens bytes e,
      media_payloads-stream rs good made,
    )
