-- ===== src/History/Stream/Total.antt =====
-- No reader of a stream runs out of fuel, whatever bytes it is given.
use construct_protos.Prelude.{
  ℕ, zero, suc, ◌+◌, ◌≤◌, ◌≢◌, List, [], ◌∷◌, ◌++◌, none, ltb, ◌==◌, if◌then◌else◌, length, arith,
  drop, take, length-drop, if_ne, get_or, not,
}
use construct_protos.Prelude.Result.{err}
use construct_protos.Bytes.{Bytes, bytes_eq, of_le}
use construct_protos.History.Stream.{
  magic, version, max_record_bytes, out_of_fuel, finish, parse_loop, parse_cth1, types_loop,
  parse_record_types, payloads_loop, media_payloads,
}

finish-ne-out_of_fuel :
    (rest : Bytes) (types lens : List ℕ) → finish rest types lens ≢ err out_of_fuel
unfolding finish
finish-ne-out_of_fuel [] types lens e = cc
finish-ne-out_of_fuel (b ∷ bs) types lens e = cc

parse_loop-ne-out_of_fuel :
    (fuel : ℕ) (rest : Bytes) (types lens : List ℕ)
    → length rest ≤ fuel
    → parse_loop fuel rest types lens ≢ err out_of_fuel
unfolding parse_loop
parse_loop-ne-out_of_fuel fuel [] types lens h = λ e. cc
parse_loop-ne-out_of_fuel zero (rtype ∷ rest) types lens h = absurd (omega arith)
parse_loop-ne-out_of_fuel (suc fuel) (rtype ∷ rest) types lens h =
    let plen = of_le (take 8 rest) in
    if_ne (rtype == 0) (finish-ne-out_of_fuel rest (types ++ (0 ∷ [])) lens) (
      if_ne (ltb (length rest) 8) (λ e. cc)
        (if_ne (ltb max_record_bytes plen) (λ e. cc)
          (if_ne (ltb (length (drop 8 rest)) plen) (λ e. cc)
            (parse_loop-ne-out_of_fuel fuel (drop plen (drop 8 rest)) (types ++ (rtype ∷ []))
              (lens ++ (plen ∷ []))
              (omega (arith, length-drop plen (drop 8 rest), length-drop 8 rest))))))

parse_cth1-ne-out_of_fuel : (d : Bytes) → parse_cth1 d ≢ err out_of_fuel
unfolding parse_cth1
parse_cth1-ne-out_of_fuel d =
    if_ne (not (bytes_eq (take 4 d) magic)) (λ e. cc)
      (if_ne (ltb (length d) 6) (λ e. cc)
        (if_ne (not (get_or d 4 0 == version)) (λ e. cc)
          (parse_loop-ne-out_of_fuel (length d) (drop 5 d) [] [] (omega (arith, length-drop 5 d)))))

types_loop-ne-none :
    (fuel : ℕ) (rest : Bytes) (types : List ℕ)
    → length rest ≤ fuel
    → types_loop fuel rest types ≢ none
unfolding types_loop
types_loop-ne-none fuel [] types h = λ e. cc
types_loop-ne-none zero (rtype ∷ rest) types h = absurd (omega arith)
types_loop-ne-none (suc fuel) (rtype ∷ rest) types h =
    let plen = of_le (take 8 rest) in
    if_ne (rtype == 0) (λ e. cc)
      (if_ne (ltb (length rest) 8) (λ e. cc)
        (types_loop-ne-none fuel (drop (8 + plen) rest) (types ++ (rtype ∷ []))
          (omega (arith, length-drop (8 + plen) rest))))

payloads_loop-ne-none :
    (fuel : ℕ) (rest : Bytes) (out : List Bytes)
    → length rest ≤ fuel
    → payloads_loop fuel rest out ≢ none
unfolding payloads_loop
payloads_loop-ne-none fuel [] out h = λ e. cc
payloads_loop-ne-none zero (rtype ∷ rest) out h = absurd (omega arith)
payloads_loop-ne-none (suc fuel) (rtype ∷ rest) out h =
    let plen = of_le (take 8 rest) in
    if_ne (rtype == 0) (λ e. cc)
      (if_ne (ltb (length rest) 8) (λ e. cc)
        (payloads_loop-ne-none fuel (drop (8 + plen) rest)
          (if rtype == 8 then out ++ (take plen (drop 8 rest) ∷ []) else out)
          (omega (arith, length-drop (8 + plen) rest))))

-- The loops of the three readers end on every input: `parse_cth1` returns or raises a ValueError,
-- and the two others return or raise.
pub readers_end :
    (d : Bytes)
    → (parse_cth1 d ≢ err out_of_fuel) × (parse_record_types d ≢ none) × (media_payloads d ≢ none)
unfolding parse_record_types media_payloads
readers_end d = (
  parse_cth1-ne-out_of_fuel d,
  if_ne (bytes_eq (take 4 d) magic)
      (types_loop-ne-none (length d) (drop 5 d) [] (omega (arith, length-drop 5 d))) (λ e. cc),
  payloads_loop-ne-none (length d) (drop 5 d) [] (omega (arith, length-drop 5 d)),
)
