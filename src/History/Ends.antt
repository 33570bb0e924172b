-- ===== src/History/Ends.antt =====
-- The loops of check_history_snapshot.py and of the generator's reader, which take fuel here.
use construct_protos.Prelude.{◌≢◌, none}
use construct_protos.Prelude.Result.{err}
use construct_protos.Bytes.{Bytes}
use construct_protos.History.Stream.{parse_cth1, parse_record_types, media_payloads, out_of_fuel}
use construct_protos.History.Stream.Total.{readers_end}
use construct_protos.History.Media.{media_fields_in_order}
use construct_protos.History.Media.Fields.{media_fields-ne-none}
use construct_protos.History.Sealed.{chunk_frames, out_of_fuel as no_fuel}
use construct_protos.History.Sealed.Layout.{chunk_frames-ne-out_of_fuel}

-- The five loops over bytes end on every input: `parse_cth1` returns or raises a ValueError,
-- `parse_record_types` and `media_payloads` return or raise, the check of a payload's fields has an
-- answer or raises, and the reading of the framing returns the frames or a complaint.
pub loops_end :
    (d : Bytes)
    → (parse_cth1 d ≢ err out_of_fuel)
      × (parse_record_types d ≢ none)
      × (media_payloads d ≢ none)
      × (media_fields_in_order d ≢ none)
      × (chunk_frames d ≢ err no_fuel)
loops_end d =
    let (a, b, c) = readers_end d in
    (a, b, c, media_fields-ne-none d, chunk_frames-ne-out_of_fuel d)
