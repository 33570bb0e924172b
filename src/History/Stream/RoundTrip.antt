-- ===== src/History/Stream/RoundTrip.antt =====
-- The checker accepts exactly the streams that the generator writes.
use construct_protos.Prelude.{
  ℕ, zero, suc, ◌≤◌, ◌≡◌, ◌≢◌, ◌∙◌, refl, sym, ap, List, [], ◌∷◌, ◌++◌, not, ltb, ◌==◌, take, drop,
  length, get_or, All, arith, append_assoc, append_nil_right, ltb_false→le, ne→==_false,
  le→ltb_false, take-append-drop, length-take, All-drop, drop-cons,
}
use native.Mathlib.Decide.{ℕ_discrete}
use construct_protos.Prelude.Result.{ok, guard_inv, ok_injective, err_ne_ok}
use construct_protos.Bytes.{Bytes, IsByte, le, of_le, bytes_eq}
use construct_protos.Bytes.Struct.{take-of_le, bytes_eq→eq}
use construct_protos.History.Stream.{
  magic, version, max_record_bytes, parse_loop, parse_cth1, Record, stream,
}
use construct_protos.History.Stream.Steps.{
  IsStorable, encoded, record_types, record_lens, stream_lem, parse_step, length-encoded,
}

-- What the loop makes of the records, of the End byte and of nothing behind it.
parse_loop-encoded :
    (fuel : ℕ) (rs : List Record) (types lens : List ℕ)
    → All IsStorable rs
    → length (encoded rs (0 ∷ [])) ≤ fuel
    → parse_loop fuel (encoded rs (0 ∷ [])) types lens
      ≡ ok (types ++ (record_types rs ++ (0 ∷ [])), lens ++ record_lens rs)
parse_loop-encoded zero [] types lens h f = absurd (omega arith)
parse_loop-encoded zero ((rtype, payload) ∷ rs) types lens h f = absurd (omega arith)
parse_loop-encoded (suc fuel) [] types lens h f = unfold parse_loop in rw append_nil_right
parse_loop-encoded (suc fuel) ((rtype, payload) ∷ rs) types lens h f =
    let tail = encoded rs (0 ∷ []) in
    parse_step rtype payload tail h.0 fuel types lens
    ∙ parse_loop-encoded fuel rs (types ++ (rtype ∷ [])) (lens ++ (length payload ∷ [])) h.1
        (omega (arith, length-encoded rtype payload tail))
    ∙ rw (
      append_assoc types (rtype ∷ []) (record_types rs ++ (0 ∷ [])),
      append_assoc lens (length payload ∷ []) (record_lens rs),
    )

encoded_any : (rs : List Record) → 1 ≤ length (encoded rs (0 ∷ []))
encoded_any [] = omega arith
encoded_any ((rtype, payload) ∷ rs) = omega arith

-- Records of a type of one byte other than End and with payloads within the cap are written, and
-- the checker reads their types, then End, and the lengths of their payloads.
pub parse_cth1-stream :
    (rs : List Record)
    → All IsStorable rs
    → (d : Bytes) × (stream rs ≡ ok d)
      × (parse_cth1 d ≡ ok (record_types rs ++ (0 ∷ []), record_lens rs))
unfolding parse_cth1
parse_cth1-stream rs h =
    let d : Bytes = magic ++ (version ∷ encoded rs (0 ∷ [])) in
    (
      d,
      stream_lem rs h,
      rw (le→ltb_false (length d) 6 (omega (arith, encoded_any rs)))
          (parse_loop-encoded (length d) rs [] [] h (omega arith)),
    )

module _ (fuel : ℕ) (rtype : ℕ) (rest : Bytes) (types lens : List ℕ) {out : List ℕ × List ℕ} where
  -- Where a round goes on, the record is whole and within the cap.
  round_inv :
      parse_loop (suc fuel) (rtype ∷ rest) types lens ≡ ok out
      → rtype ≢ 0
      → (8 ≤ length rest)
        × (of_le (take 8 rest) ≤ max_record_bytes)
        × (of_le (take 8 rest) ≤ length (drop 8 rest))
        × (parse_loop fuel
              (drop (of_le (take 8 rest)) (drop 8 rest))
              (types ++ (rtype ∷ []))
              (lens ++ (of_le (take 8 rest) ∷ []))
            ≡ ok out)
  unfolding parse_loop
  round_inv e h =
      let plen = of_le (take 8 rest) in
      let body = drop 8 rest in
      let more = parse_loop fuel (drop plen body) (types ++ (rtype ∷ [])) (lens ++ (plen ∷ [])) in
      let (sized, e₁) = guard_inv (ltb (length rest) 8) _ _ (rw (ne→==_false rtype 0 h) at e) in
      let (capped, e₂) = guard_inv (ltb max_record_bytes plen) _ _ e₁ in
      let (whole, e₃) = guard_inv (ltb (length body) plen) _ more e₂ in
      (ltb_false→le _ _ sized, ltb_false→le _ _ capped, ltb_false→le _ _ whole, e₃)

end_inv :
    (fuel rtype : ℕ) (rest : Bytes) (types lens : List ℕ) {out : List ℕ × List ℕ}
    → rtype ≡ 0
    → parse_loop (suc fuel) (rtype ∷ rest) types lens ≡ ok out
    → (rest ≡ []) × ((types ++ (0 ∷ []), lens) ≡ out)
unfolding parse_loop
end_inv fuel rtype [] types lens z e = (refl, ok_injective (rw z at e))
end_inv fuel rtype (b ∷ bs) types lens z e = absurd (err_ne_ok (rw z at e))

-- The records that a stretch of bytes stands for, as the loop reads it.
abbrev Spells : Bytes → List ℕ → List ℕ → List ℕ × List ℕ → Type 0
Spells rest types lens out =
    (rs : List Record) × All IsStorable rs
    × (rest ≡ encoded rs (0 ∷ []))
    × (out ≡ (types ++ (record_types rs ++ (0 ∷ [])), lens ++ record_lens rs))

-- One more record in front of those that the rest spells.
Spells-record :
    (rtype : ℕ) (rest : Bytes) (types lens : List ℕ) {out : List ℕ × List ℕ}
    → IsByte rtype
    → All IsByte rest
    → rtype ≢ 0
    → 8 ≤ length rest
    → of_le (take 8 rest) ≤ max_record_bytes
    → of_le (take 8 rest) ≤ length (drop 8 rest)
    → Spells
        (drop (of_le (take 8 rest)) (drop 8 rest))
        (types ++ (rtype ∷ []))
        (lens ++ (of_le (take 8 rest) ∷ []))
        out
    → Spells (rtype ∷ rest) types lens out
Spells-record rtype rest types lens hb bytes h sized capped whole (rs, good, shape, result) =
    let plen = of_le (take 8 rest) in
    let payload = take plen (drop 8 rest) in
    let size : length payload ≡ plen = omega (arith, length-take plen (drop 8 rest)) in
    (
      (rtype, payload) ∷ rs,
      ((h, hb, omega arith), good),
      ap (λ t. rtype ∷ t)
          (sym (take-append-drop 8 rest) ∙ (λ k.
            (take-of_le 8 rest sized bytes ∙ ap (le 8) (sym size)) k
            ++ (sym (take-append-drop plen (drop 8 rest)) ∙ ap (λ t. payload ++ t) shape) k)),
      result
          ∙ rw (
            append_assoc types (rtype ∷ []) (record_types rs ++ (0 ∷ [])),
            append_assoc lens (plen ∷ []) (record_lens rs),
            size,
          ),
    )

parse_loop_inv :
    (fuel : ℕ) (rest : Bytes) (types lens : List ℕ) {out : List ℕ × List ℕ}
    → All IsByte rest
    → parse_loop fuel rest types lens ≡ ok out
    → Spells rest types lens out
parse_loop_inv fuel [] types lens bytes e = unfold parse_loop in cc
parse_loop_inv zero (rtype ∷ rest) types lens bytes e = unfold parse_loop in cc
parse_loop_inv (suc fuel) (rtype ∷ rest) types lens bytes e = elim (ℕ_discrete rtype 0) [
  | yes z ↦
      let (empty, out) = end_inv fuel rtype rest types lens z e in
      ([], tt, (λ k. z k ∷ empty k), sym out ∙ rw append_nil_right)
  | no h ↦
      let (sized, capped, whole, more) = round_inv fuel rtype rest types lens e h in
      Spells-record rtype rest types lens bytes.0 bytes.1 h sized capped whole (
        parse_loop_inv fuel (drop (of_le (take 8 rest)) (drop 8 rest)) (types ++ (rtype ∷ []))
          (lens ++ (of_le (take 8 rest) ∷ []))
          (All-drop IsByte _ (drop 8 rest) (All-drop IsByte 8 rest bytes.1)) more)
]

header_inv :
    (d : Bytes) {out : List ℕ × List ℕ}
    → parse_cth1 d ≡ ok out
    → (take 4 d ≡ magic)
      × (6 ≤ length d)
      × (get_or d 4 0 ≡ version)
      × (parse_loop (length d) (drop 5 d) [] [] ≡ ok out)
unfolding parse_cth1
header_inv d e =
    let (m, e₁) = guard_inv (not (bytes_eq (take 4 d) magic)) _ _ e in
    let (l, e₂) = guard_inv (ltb (length d) 6) _ _ e₁ in
    let (v, e₃) = guard_inv (not (get_or d 4 0 == version)) _ _ e₂ in
    (bytes_eq→eq (take 4 d) magic (ground (arith, m)), ltb_false→le _ _ l, ground (arith, v), e₃)

-- Bytes that the checker accepts are a stream: there are records, each of a type other than End and
-- with a payload within the cap, that the generator writes as those bytes, and whose types, then
-- End, and payload lengths are what the checker returns.
pub stream-parse_cth1 :
    (d : Bytes) (types lens : List ℕ)
    → All IsByte d
    → parse_cth1 d ≡ ok (types, lens)
    → (rs : List Record) × All IsStorable rs
      × (stream rs ≡ ok d)
      × (types ≡ record_types rs ++ (0 ∷ []))
      × (lens ≡ record_lens rs)
stream-parse_cth1 d types lens bytes e =
    let (m, long, v, run) = header_inv d e in
    let (rs, good, shape, out) =
      parse_loop_inv (length d) (drop 5 d) [] [] (All-drop IsByte 5 d bytes) run in
    let whole : magic ++ (version ∷ encoded rs (0 ∷ [])) ≡ d =
      (λ k. sym m k ++ (sym v k ∷ sym shape k))
      ∙ ap (λ t. take 4 d ++ t) (sym (drop-cons 4 0 d (omega arith)))
      ∙ take-append-drop 4 d in
    (rs, good, stream_lem rs good ∙ ap ok whole, ap (λ o. o.0) out, ap (λ o. o.1) out)
