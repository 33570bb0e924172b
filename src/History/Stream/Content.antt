-- ===== src/History/Stream/Content.antt =====
-- A stream of payloads that are bytes is bytes, and how long it is.
use construct_protos.Prelude.{
  ℕ, ◌+◌, ◌<◌, ◌≡◌, ◌≢◌, ◌∙◌, sym, ap, subst, List, [], ◌∷◌, ◌++◌, All, arith, length,
  length-append,
}
use construct_protos.Prelude.Result.{ok, ok_injective}
use construct_protos.Bytes.{Bytes, le}
use construct_protos.Bytes.Struct.{length-le, le-IsByte}
use construct_protos.Bytes.Made.{AreBytes, ◌&◌}
use construct_protos.Proto.Payload.{IsPayload}
use construct_protos.History.Stream.{magic, version, Record, stream}
use construct_protos.History.Stream.Steps.{IsStorable, encoded, stream_lem}

-- No payload that is written here is longer.
abbrev pub longest : ℕ
longest = 80_000

abbrev pub IsKept : Record → Type 0
IsKept (rtype, payload) = (rtype ≢ 0) × (rtype < 256) × IsPayload longest payload

pub kept-IsStorable : (rs : List Record) → All IsKept rs → All IsStorable rs
kept-IsStorable [] h = tt
kept-IsStorable ((rtype, payload) ∷ rs) ((nonzero, small, p), more) =
    ((nonzero, small, omega (arith, p.short)), kept-IsStorable rs more)

one-AreBytes : (n : ℕ) → n < 256 → AreBytes (n ∷ [])
one-AreBytes n h = record { all = (h, tt) }

le-AreBytes : (w n : ℕ) → AreBytes (le w n)
le-AreBytes w n = record { all = le-IsByte w n }

encoded-AreBytes : (rs : List Record) → All IsKept rs → AreBytes (encoded rs (0 ∷ []))
encoded-AreBytes [] h = one-AreBytes 0 (omega arith)
encoded-AreBytes ((rtype, payload) ∷ rs) ((nonzero, small, p), more) =
    one-AreBytes rtype small
    & (le-AreBytes 8 (length payload) & (p.bytes & encoded-AreBytes rs more))

head-AreBytes : AreBytes (magic ++ (version ∷ []))
head-AreBytes = record { all = omega arith }

pub stream-AreBytes : (rs : List Record) {d : Bytes} → All IsKept rs → stream rs ≡ ok d → AreBytes d
stream-AreBytes rs h e =
    subst AreBytes (ok_injective (sym (stream_lem rs (kept-IsStorable rs h)) ∙ e))
      (head-AreBytes & encoded-AreBytes rs h)

-- The bytes of the payloads, with nine more for each record.
abbrev pub total : List Record → ℕ
total [] = 0
total ((rtype, payload) ∷ rs) = 9 + length payload + total rs

length-encoded : (rs : List Record) → length (encoded rs (0 ∷ [])) ≡ total rs + 1
length-encoded [] = omega arith
length-encoded ((rtype, payload) ∷ rs) =
    let size = le 8 (length payload) in
    let rest = encoded rs (0 ∷ []) in
    omega (
      arith,
      length-append size (payload ++ rest),
      length-append payload rest,
      length-le 8 (length payload),
      length-encoded rs,
    )

pub length-stream :
    (rs : List Record) {d : Bytes} → All IsKept rs → stream rs ≡ ok d → length d ≡ 6 + total rs
length-stream rs h e =
    ap length (ok_injective (sym e ∙ stream_lem rs (kept-IsStorable rs h)))
    ∙ omega (arith, length-encoded rs)
