-- ===== src/History/Stream/Steps.antt =====
-- One round of each reader on a record that was written, and the bytes of a whole stream.
use construct_protos.Prelude.{
  ℕ, suc, ◌+◌, ◌≤◌, ◌<◌, ◌≡◌, ◌≢◌, ◌∙◌, refl, sym, ap, List, [], ◌∷◌, ◌++◌, false, ltb, ◌==◌,
  if◌then◌else◌, take, drop, length, All, arith, append_assoc, length-append, take_prefix,
  drop_prefix, le→ltb_false, ne→==_false, drop-drop,
}
use construct_protos.Prelude.Result.{ok}
use construct_protos.Bytes.{Bytes, le, of_le}
use construct_protos.Bytes.Struct.{length-le, of_le-le, pack_le_fits, bytes_of_fits}
use construct_protos.History.Stream.{
  magic, version, max_record_bytes, parse_loop, Record, records_bytes, stream, types_loop,
  payloads_loop,
}

-- A record that may be written: a type of one byte other than End, a payload within the cap.
abbrev pub IsStorable : Record → Type 0
IsStorable (rtype, payload) = (rtype ≢ 0) × (rtype < 256) × (length payload ≤ max_record_bytes)

-- The bytes of the records, before a tail.
abbrev pub encoded : List Record → Bytes → Bytes
encoded [] tail = tail
encoded ((rtype, payload) ∷ rs) tail =
    rtype ∷ (le 8 (length payload) ++ (payload ++ encoded rs tail))

abbrev pub record_types : List Record → List ℕ
record_types [] = []
record_types ((rtype, payload) ∷ rs) = rtype ∷ record_types rs

abbrev pub record_lens : List Record → List ℕ
record_lens [] = []
record_lens ((rtype, payload) ∷ rs) = length payload ∷ record_lens rs

records_bytes_lem : (rs : List Record) → All IsStorable rs → records_bytes rs ≡ ok (encoded rs [])
unfolding records_bytes
records_bytes_lem [] h = refl
records_bytes_lem ((rtype, payload) ∷ rs) h =
    rw
      (
        bytes_of_fits (rtype ∷ []) (h.0.1, tt),
        pack_le_fits 8 (length payload) (omega (arith, h.0.2)),
        records_bytes_lem rs h.1,
      )
      (ap ok (ap (λ t. rtype ∷ t) (append_assoc (le 8 (length payload)) payload (encoded rs []))))

encoded-append : (rs : List Record) (tail : Bytes) → encoded rs [] ++ tail ≡ encoded rs tail
encoded-append [] tail = refl
encoded-append ((rtype, payload) ∷ rs) tail =
    ap (λ t. rtype ∷ t)
      (append_assoc (le 8 (length payload)) (payload ++ encoded rs []) tail
        ∙ ap (λ t. le 8 (length payload) ++ t)
            (append_assoc payload (encoded rs []) tail
              ∙ ap (λ t. payload ++ t) (encoded-append rs tail)))

pub stream_lem :
    (rs : List Record)
    → All IsStorable rs
    → stream rs ≡ ok (magic ++ (version ∷ encoded rs (0 ∷ [])))
unfolding stream
stream_lem rs h =
    rw (records_bytes_lem rs h) (ap (λ t. ok (magic ++ (version ∷ t))) (encoded-append rs (0 ∷ [])))

module _ (rtype : ℕ) (payload rest : Bytes) (h : IsStorable (rtype, payload)) where
  abbrev written : Bytes
  written = le 8 (length payload) ++ (payload ++ rest)

  size_read : of_le (take 8 written) ≡ length payload
  size_read =
      ap of_le
        (take_prefix 8 (le 8 (length payload)) (payload ++ rest) (length-le 8 (length payload)))
      ∙ of_le-le 8 (length payload) (omega (arith, h.2))

  payload_read : drop 8 written ≡ payload ++ rest
  payload_read =
      drop_prefix 8 (le 8 (length payload)) (payload ++ rest) (length-le 8 (length payload))

  long_enough : ltb (length written) 8 ≡ false
  long_enough = le→ltb_false (length written) 8 (
      omega (
        arith,
        length-append {0} (le 8 (length payload)) (payload ++ rest),
        length-le 8 (length payload),
      ))

  pub parse_step :
      (fuel : ℕ) (types lens : List ℕ)
      → parse_loop (suc fuel) (rtype ∷ written) types lens
        ≡ parse_loop fuel rest (types ++ (rtype ∷ [])) (lens ++ (length payload ∷ []))
  unfolding parse_loop
  parse_step fuel types lens =
      rw
        (
          ne→==_false rtype 0 h.0,
          long_enough,
          size_read,
          le→ltb_false max_record_bytes (length payload) h.2,
          payload_read,
          le→ltb_false (length (payload ++ rest)) (length payload)
              (omega (arith, length-append {0} payload rest)),
        )
        (ap (λ t. parse_loop fuel t (types ++ (rtype ∷ [])) (lens ++ (length payload ∷ [])))
          (drop_prefix (length payload) payload rest refl))

  behind : drop (8 + length payload) written ≡ rest
  behind =
      sym (drop-drop 8 (length payload) written)
      ∙ ap (drop (length payload)) payload_read
      ∙ drop_prefix (length payload) payload rest refl

  pub types_step :
      (fuel : ℕ) (types : List ℕ)
      → types_loop (suc fuel) (rtype ∷ written) types ≡ types_loop fuel rest (types ++ (rtype ∷ []))
  unfolding types_loop
  types_step fuel types = rw (ne→==_false rtype 0 h.0, long_enough, size_read, behind)

  pub payloads_step :
      (fuel : ℕ) (out : List Bytes)
      → payloads_loop (suc fuel) (rtype ∷ written) out
        ≡ payloads_loop fuel rest (if rtype == 8 then out ++ (payload ∷ []) else out)
  unfolding payloads_loop
  payloads_step fuel out = rw (
    ne→==_false rtype 0 h.0,
    long_enough,
    size_read,
    behind,
    payload_read,
    take_prefix (length payload) payload rest refl,
  )

pub length-encoded :
    (rtype : ℕ) (payload rest : Bytes)
    → length rest < length (rtype ∷ (le 8 (length payload) ++ (payload ++ rest)))
length-encoded rtype payload rest = omega (
  arith,
  length-append {0} (le 8 (length payload)) (payload ++ rest),
  length-append {0} payload rest,
)
