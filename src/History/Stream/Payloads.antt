-- ===== src/History/Stream/Payloads.antt =====
-- What the two other readers find in a stream: the MediaBlob payloads, and the record types.
use construct_protos.Prelude.{
  ℕ, zero, suc, ◌≤◌, ◌≡◌, ◌∙◌, refl, sym, ap, List, [], ◌∷◌, ◌++◌, some, ◌==◌, if◌then◌else◌,
  length, All, arith, append_assoc, append_nil_right, Bool-cases, inl, inr,
}
use construct_protos.Prelude.Result.{ok, ok_injective}
use construct_protos.Bytes.{Bytes, IsByte}
use construct_protos.History.Stream.{
  magic, version, parse_cth1, Record, stream, types_loop, parse_record_types, payloads_loop,
  media_payloads,
}
use construct_protos.History.Stream.Steps.{
  IsStorable, encoded, record_types, stream_lem, types_step, payloads_step, length-encoded,
}
use construct_protos.History.Stream.RoundTrip.{stream-parse_cth1}

-- The payloads of the records of type 8, MediaBlob.
abbrev pub media_of : List Record → List Bytes
media_of [] = []
media_of ((rtype, payload) ∷ rs) = if rtype == 8 then payload ∷ media_of rs else media_of rs

types_loop-encoded :
    (fuel : ℕ) (rs : List Record) (types : List ℕ)
    → All IsStorable rs
    → length (encoded rs (0 ∷ [])) ≤ fuel
    → types_loop fuel (encoded rs (0 ∷ [])) types
      ≡ some (ok (types ++ (record_types rs ++ (0 ∷ []))))
types_loop-encoded zero [] types h f = absurd (omega arith)
types_loop-encoded zero ((rtype, payload) ∷ rs) types h f = absurd (omega arith)
types_loop-encoded (suc fuel) [] types h f = unfold types_loop in refl
types_loop-encoded (suc fuel) ((rtype, payload) ∷ rs) types h f =
    let tail = encoded rs (0 ∷ []) in
    types_step rtype payload tail h.0 fuel types
    ∙ types_loop-encoded fuel rs (types ++ (rtype ∷ [])) h.1
        (omega (arith, length-encoded rtype payload tail))
    ∙ rw (append_assoc types (rtype ∷ []) (record_types rs ++ (0 ∷ [])))

-- Where the checker accepts, the generator's own reader returns the same record types.
pub parse_record_types-parse_cth1 :
    (d : Bytes) (types lens : List ℕ)
    → All IsByte d
    → parse_cth1 d ≡ ok (types, lens)
    → parse_record_types d ≡ some (ok types)
unfolding parse_record_types
parse_record_types-parse_cth1 d types lens bytes e =
    let (rs, good, made, shape, sizes) = stream-parse_cth1 d types lens bytes e in
    let same : magic ++ (version ∷ encoded rs (0 ∷ [])) ≡ d =
      ok_injective (sym (stream_lem rs good) ∙ made) in
    rw (← same, shape)
      (types_loop-encoded (length (magic ++ (version ∷ encoded rs (0 ∷ [])))) rs [] good
        (omega arith))

collect :
    (rtype : ℕ) (payload : Bytes) (rs : List Record) (out : List Bytes)
    → (if rtype == 8 then out ++ (payload ∷ []) else out) ++ media_of rs
      ≡ out ++ media_of ((rtype, payload) ∷ rs)
collect rtype payload rs out = elim (Bool-cases (rtype == 8)) [
  | inl e ↦ rw e (append_assoc out (payload ∷ []) (media_of rs))
  | inr e ↦ rw e
]

payloads_loop-encoded :
    (fuel : ℕ) (rs : List Record) (out : List Bytes)
    → All IsStorable rs
    → length (encoded rs (0 ∷ [])) ≤ fuel
    → payloads_loop fuel (encoded rs (0 ∷ [])) out ≡ some (ok (out ++ media_of rs))
payloads_loop-encoded zero [] out h f = absurd (omega arith)
payloads_loop-encoded zero ((rtype, payload) ∷ rs) out h f = absurd (omega arith)
payloads_loop-encoded (suc fuel) [] out h f = unfold payloads_loop in rw append_nil_right
payloads_loop-encoded (suc fuel) ((rtype, payload) ∷ rs) out h f =
    let tail = encoded rs (0 ∷ []) in
    payloads_step rtype payload tail h.0 fuel out
    ∙ payloads_loop-encoded fuel rs (if rtype == 8 then out ++ (payload ∷ []) else out) h.1
        (omega (arith, length-encoded rtype payload tail))
    ∙ ap (λ t. some (ok t)) (collect rtype payload rs out)

-- From a stream that was written, the checker takes the payloads of the MediaBlob records, all of
-- them, whole and in order.
pub media_payloads-stream :
    (rs : List Record) {d : Bytes}
    → All IsStorable rs
    → stream rs ≡ ok d
    → media_payloads d ≡ some (ok (media_of rs))
unfolding media_payloads
media_payloads-stream rs h e = rw (← ok_injective (sym (stream_lem rs h) ∙ e)) (
    payloads_loop-encoded (length (magic ++ (version ∷ encoded rs (0 ∷ [])))) rs [] h (omega arith))
