-- ===== src/History/Sealed/Framed.antt =====
-- The framing of a file that `chunk_frames` reads, written as a predicate on the bytes.
use construct_protos.Prelude.{
  ℕ, zero, suc, ◌+◌, ◌≤◌, ◌<◌, ◌≡◌, ◌↔◌, ◌∙◌, refl, sym, ap, subst, List, [], ◌∷◌, ◌++◌, ◌||◌,
  false, ltb, ◌==◌, take, drop, length, replicate, All, All-drop, arith, append_assoc,
  length-append, length-take, length-drop, Bool-cases, inl, inr, ltb_false→le, append_nil_right,
  take-append-drop, take_all, drop-drop,
}
use construct_protos.Prelude.Result.{ok, err_ne_ok, ok_injective}
use construct_protos.Bytes.{Bytes, IsByte, le, of_le}
use construct_protos.Bytes.Struct.{length-le, take-of_le}
use construct_protos.History.Sealed.{cthf_header_len, max_sealed_chunk, frames_loop, chunk_frames}
use construct_protos.History.Sealed.Layout.{frame_round, eof_round}

-- From offset `i` on: for each frame its length in four bytes and as many bytes, of a length that a
-- writer produces, and then four zeros and no more.
abbrev pub Framed : ℕ → Bytes → List (ℕ × ℕ) → Type 0
Framed i d [] = d ≡ replicate 4 0
Framed i d ((j, n) ∷ fs) =
    (j ≡ i)
    × (29 ≤ n)
    × (n ≤ max_sealed_chunk)
    × ((chunk : Bytes) × (rest : Bytes) × (length chunk ≡ n)
        × (d ≡ le 4 n ++ (chunk ++ rest))
        × Framed (i + (4 + n)) rest fs)

Framed-long : (i : ℕ) (d : Bytes) (fs : List (ℕ × ℕ)) → Framed i d fs → 4 ≤ length d
Framed-long i d [] h = omega (arith, ap length h)
Framed-long i d ((j, n) ∷ fs) (place, low, high, (chunk, rest, size, whole, more)) =
    omega (arith, ap length whole, length-append {0} (le 4 n) (chunk ++ rest), length-le 4 n)

-- The checker reads what is framed.
frames_loop-Framed :
    (fuel i : ℕ) (d : Bytes) (frames fs : List (ℕ × ℕ))
    → length d < fuel
    → Framed i d fs
    → frames_loop fuel i d frames ≡ ok (frames ++ fs)
frames_loop-Framed zero i d frames fs f h = absurd (omega arith)
frames_loop-Framed (suc fuel) i d frames [] f h =
    ap (λ t. frames_loop (suc fuel) i t frames) h
    ∙ eof_round fuel i frames
    ∙ ap ok (sym (append_nil_right frames))
frames_loop-Framed (suc fuel) i d frames ((j, n) ∷ fs) f
      (place, low, high, (chunk, rest, size, whole, more)) =
    ap (λ t. frames_loop (suc fuel) i t frames) whole
    ∙ frame_round fuel i n chunk rest frames size low high
    ∙ frames_loop-Framed fuel (i + (4 + n)) rest (frames ++ ((i, n) ∷ [])) fs
        (omega (
          arith,
          ap length whole,
          length-append {0} (le 4 n) (chunk ++ rest),
          length-le 4 n,
          length-append {0} chunk rest,
        ))
        more
    ∙ ap ok (append_assoc frames ((i, n) ∷ []) fs)
    ∙ ap (λ k. ok (frames ++ ((k, n) ∷ fs))) (sym place)

-- The end of a file.
ends : (d : Bytes) → All IsByte d → length d ≡ 4 → of_le (take 4 d) ≡ 0 → d ≡ replicate 4 0
unfolding le
ends d b size none' =
    sym (take_all 4 d (omega (arith, size)))
    ∙ take-of_le 4 d (omega (arith, size)) b
    ∙ ap (le 4) none'

-- A chunk, where what follows it is framed.
cut_chunk :
    (i : ℕ) (d : Bytes) (fs : List (ℕ × ℕ))
    → All IsByte d
    → 4 ≤ length d
    → Framed (i + (4 + of_le (take 4 d))) (drop (4 + of_le (take 4 d)) d) fs
    → (chunk : Bytes) × (rest : Bytes) × (length chunk ≡ of_le (take 4 d))
      × (d ≡ le 4 (of_le (take 4 d)) ++ (chunk ++ rest))
      × Framed (i + (4 + of_le (take 4 d))) rest fs
cut_chunk i d fs b long h =
    let n = of_le (take 4 d) in
    let behind = drop 4 d in
    let far = Framed-long (i + (4 + n)) (drop (4 + n) d) fs h in
    (
      take n behind,
      drop n behind,
      omega (arith, length-take n behind, length-drop 4 d, length-drop (4 + n) d),
      sym (take-append-drop 4 d)
          ∙ ap (λ t. t ++ behind) (take-of_le 4 d long b)
          ∙ ap (λ t. le 4 n ++ t) (sym (take-append-drop n behind)),
      subst (λ t. Framed (i + (4 + n)) t fs) (sym (drop-drop 4 n d)) h,
    )

bounds :
    (n : ℕ)
    → (n == 0) ≡ false
    → (ltb max_sealed_chunk n || ltb n 29) ≡ false
    → (29 ≤ n) × (n ≤ max_sealed_chunk)
bounds n h k = ground arith

-- What the checker reads is framed.
Framed-frames_loop :
    (fuel i : ℕ) (d : Bytes) (frames : List (ℕ × ℕ)) {out : List (ℕ × ℕ)}
    → All IsByte d
    → frames_loop fuel i d frames ≡ ok out
    → (fs : List (ℕ × ℕ)) × (out ≡ frames ++ fs) × Framed i d fs
unfolding frames_loop
Framed-frames_loop zero i d frames b e = absurd (err_ne_ok e)
Framed-frames_loop (suc fuel) i d frames b e = elim (Bool-cases (ltb (length d) 4)) [
  | inl short ↦ absurd (err_ne_ok (rw short at e))
  | inr long ↦
      let e₁ = rw long at e in
      let n = of_le (take 4 d) in
      elim (Bool-cases (n == 0)) [
        | inl eof ↦
            let e₂ = rw eof at e₁ in
            elim (Bool-cases (length d == 4)) [
              | inr more ↦ absurd (err_ne_ok (rw more at e₂))
              | inl last ↦ (
                [],
                sym (ok_injective (rw last at e₂)) ∙ sym (append_nil_right frames),
                ends d b (ground arith) (ground arith),
              )
            ]
        | inr some' ↦
            let e₂ = rw some' at e₁ in
            elim (Bool-cases (ltb max_sealed_chunk n || ltb n 29)) [
              | inl bad ↦ absurd (err_ne_ok (rw bad at e₂))
              | inr good ↦
                  let (fs, made, framed) =
                    Framed-frames_loop fuel (i + (4 + n)) (drop (4 + n) d) (frames ++ ((i, n) ∷ []))
                      (All-drop IsByte (4 + n) d b) (rw good at e₂) in
                  let (low, high) = bounds n some' good in
                  (
                    (i, n) ∷ fs,
                    made ∙ append_assoc frames ((i, n) ∷ []) fs,
                    (refl, low, high, cut_chunk i d fs b (ltb_false→le (length d) 4 long) framed),
                  )
            ]
      ]
]

-- Of bytes: the checker returns these frames exactly if behind the header stand, for each frame and
-- from its offset on, its length and as many bytes, of a length that a writer produces, one behind
-- the other, and then the four zeros of the end and nothing more.
pub chunk_frames_iff :
    (d : Bytes) (fs : List (ℕ × ℕ))
    → All IsByte d
    → (chunk_frames d ≡ ok fs) ↔ Framed cthf_header_len (drop cthf_header_len d) fs
unfolding chunk_frames
chunk_frames_iff d fs b = (
  λ e.
      let behind = drop cthf_header_len d in
      let (gs, made, framed) =
        Framed-frames_loop (suc (length d)) cthf_header_len behind []
          (All-drop IsByte cthf_header_len d b) e in
      subst (Framed cthf_header_len behind) (sym made) framed,
  frames_loop-Framed (suc (length d)) cthf_header_len (drop cthf_header_len d) [] fs
      (omega (arith, length-drop cthf_header_len d)),
)
