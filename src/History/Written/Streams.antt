-- ===== src/History/Written/Streams.antt =====
-- The rows of the streams.
use construct_protos.Prelude.{
  ◌≤◌, ◌≡◌, ◌≢◌, ◌∙◌, refl, List, [], ◌∷◌, some, All, arith, length, map,
}
use construct_protos.Prelude.Result.{ok, Raises, ◌>>=◌}
use construct_protos.Bytes.{Bytes}
use construct_protos.Bytes.Made.{AreBytes}
use construct_protos.Bytes.Hex.{hex, fromhex-hex}
use construct_protos.History.Keys.{Hmac}
use construct_protos.History.Stream.RoundTrip.{parse_cth1-stream}
use construct_protos.History.Stream.Content.{
  IsKept, kept-IsStorable, stream-AreBytes, length-stream,
}
use construct_protos.History.Records.Vectors.{Vector}
use construct_protos.History.Rows.{Row, cth1_stream, check_stream}
use construct_protos.History.Rows.Kinds.{stream_row, check_kind}
use construct_protos.History.Rows.Accepted.{verdict, check_stream-stream}
use construct_protos.History.Rows.Dict.{ids}
use construct_protos.History.Written.{stream_rows}
use construct_protos.History.Written.Good.{IsGood, Makes, full, vec-full, payload-IsGood}

-- What makes the row of a vector a good one.
pub record IsReady (v : Vector) : Type 0 where
  pub kept : All IsKept v.written
  pub accepted : verdict v ≡ some (ok [])
  pub other : v.vid ≢ 23

read_lem :
    (row : Row) (d : Bytes)
    → AreBytes d
    → 6 ≤ length d
    → stream_row row (some (hex d)) ≡ check_stream row d
read_lem row [] h long = absurd (omega (arith, long))
read_lem row (b ∷ bs) h long = let read = fromhex-hex (b ∷ bs) h.all in unfold hex in rw read refl

vector_row :
    (hmac : Hmac) (v23 : Bytes) (v : Vector)
    → IsReady v
    → Makes hmac v23 v.vid (construct_protos.History.Written.stream_row v)
unfolding construct_protos.History.Written.stream_row check_kind
vector_row hmac v23 v h =
    let (d, made, read) = parse_cth1-stream v.written (kept-IsStorable v.written h.kept) in
    let bytes = stream-AreBytes v.written h.kept made in
    let size = length-stream v.written h.kept made in
    let row = full v.vid cth1_stream v.expect d (some v.records) (some v.phase) in
    (
      row,
      rw made
          (vec-full v.vid cth1_stream v.expect d (some v.records) (some v.phase) (λ r. r) bytes),
      refl,
      payload-IsGood d bytes refl refl
          (λ has.
            read_lem row d bytes (omega (arith, size))
            ∙ check_stream-stream row v.written (kept-IsStorable v.written h.kept) made
            ∙ h.accepted)
          (λ e. absurd (h.other e)),
    )

rows_step :
    {m : Raises Row} {ms : Raises (List Row)} {row : Row} {rows : List Row}
    → m ≡ ok row
    → ms ≡ ok rows
    → m >>= (λ r. ms >>= (λ rs. ok (r ∷ rs))) ≡ ok (row ∷ rows)
rows_step p q = rw (p, q) refl

-- Vectors that are ready have good rows.
pub stream_rows-IsGood :
    (hmac : Hmac) (v23 : Bytes) (vs : List Vector)
    → All IsReady vs
    → (rows : List Row) × (stream_rows vs ≡ ok rows)
      × (ids rows ≡ map (λ v. v.vid) vs)
      × All (IsGood hmac v23) rows
unfolding stream_rows
stream_rows-IsGood hmac v23 [] h = ([], refl, refl, tt)
stream_rows-IsGood hmac v23 (v ∷ vs) (first, more) =
    let (row, made, id, good) = vector_row hmac v23 v first in
    let (rows, all_made, all_ids, all_good) = stream_rows-IsGood hmac v23 vs more in
    (row ∷ rows, rows_step made all_made, rw (id, all_ids) refl, (good, all_good))
