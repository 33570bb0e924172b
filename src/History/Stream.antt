-- ===== src/History/Stream.antt =====
-- A CTH1 stream of records. The generator writes it (`record`, `stream`, `parse_record_types` of
-- gen_history_snapshot_vectors.py), the checker reads it (`parse_cth1`, `media_payloads` of
-- check_history_snapshot.py). A reader's `data[i:]` is the list that it still has to read, and its
-- `while` takes fuel: the number of bytes is enough, since each round takes nine at least.
pub mod Steps
pub mod RoundTrip
pub mod Payloads
pub mod Agreed
pub mod Total
pub mod Content
use construct_protos.Prelude.{
  ℕ, zero, suc, ◌+◌, ◌*◌, List, [], ◌∷◌, ◌++◌, Bool, Option, none, some, not, ltb, ◌==◌,
  if◌then◌else◌, take, drop, length, get_or,
}
use construct_protos.Prelude.Result.{Result, ok, err, Raises, ◌>>=◌, struct_error, assertion_error}
use construct_protos.Bytes.{Bytes, bytes_eq, of_le, pack_le, bytes_of, codes}

-- MAGIC
abbrev pub magic : Bytes
magic = codes "CTH1"

-- VERSION
abbrev pub version : ℕ
version = 1

-- MAX_RECORD_BYTES
abbrev pub max_record_bytes : ℕ
max_record_bytes = 512 * 1024 * 1024

-- The reasons of the ValueErrors that `parse_cth1` raises. `out_of_fuel` is none of them.
pub data Malformed : Type 0 where
  missing_magic truncated_after_magic truncated_payload_len truncated_payload no_end trailing :
      Malformed
  bad_version over_cap : ℕ → Malformed
  out_of_fuel : Malformed

-- behind the `break`
unfoldable pub finish : Bytes → List ℕ → List ℕ → Result Malformed (List ℕ × List ℕ)
finish [] types lens = ok (types, lens)
finish (b ∷ bs) types lens = err trailing

unfoldable pub parse_loop : ℕ → Bytes → List ℕ → List ℕ → Result Malformed (List ℕ × List ℕ)
unfolding finish
parse_loop fuel [] types lens = err no_end
parse_loop zero (rtype ∷ rest) types lens = err out_of_fuel
parse_loop (suc fuel) (rtype ∷ rest) types lens =
    let plen = of_le (take 8 rest) in
    let body = drop 8 rest in
    let more = parse_loop fuel (drop plen body) (types ++ (rtype ∷ [])) (lens ++ (plen ∷ [])) in
    if rtype == 0
    then finish rest (types ++ (0 ∷ [])) lens
    else if ltb (length rest) 8
    then err truncated_payload_len
    else if ltb max_record_bytes plen
    then err (over_cap plen)
    else if ltb (length body) plen
    then err truncated_payload
    else more

unfoldable pub parse_cth1 : Bytes → Result Malformed (List ℕ × List ℕ)
unfolding parse_loop
parse_cth1 d =
    if not (bytes_eq (take 4 d) magic)
    then err missing_magic
    else if ltb (length d) 6
    then err truncated_after_magic
    else if not (get_or d 4 0 == version)
    then err (bad_version (get_or d 4 0))
    else parse_loop (length d) (drop 5 d) [] []

-- A record type and a payload.
abbrev pub Record : Type 0
Record = ℕ × Bytes

unfoldable pub record_bytes : ℕ → Bytes → Raises Bytes
record_bytes rtype payload = do
  tag ← bytes_of (rtype ∷ [])
  size ← pack_le 8 (length payload)
  ok (tag ++ (size ++ payload))

unfoldable pub records_bytes : List Record → Raises Bytes
unfolding record_bytes
records_bytes [] = ok []
records_bytes ((rtype, payload) ∷ rs) = do
  r ← record_bytes rtype payload
  rest ← records_bytes rs
  ok (r ++ rest)

unfoldable pub stream : List Record → Raises Bytes
unfolding records_bytes
stream rs = do body ← records_bytes rs; ok (magic ++ (version ∷ (body ++ (0 ∷ []))))

-- The generator's own reader. It checks neither the cap nor that a payload is whole; `none` is no
-- result of it, but the end of the fuel.
unfoldable pub types_loop : ℕ → Bytes → List ℕ → Option (Raises (List ℕ))
types_loop fuel [] types = some (ok types)
types_loop zero (rtype ∷ rest) types = none
types_loop (suc fuel) (rtype ∷ rest) types =
    let more = types_loop fuel (drop (8 + of_le (take 8 rest)) rest) (types ++ (rtype ∷ [])) in
    if rtype == 0
    then some (ok (types ++ (0 ∷ [])))
    else if ltb (length rest) 8
    then some (err struct_error)
    else more

unfoldable pub parse_record_types : Bytes → Option (Raises (List ℕ))
unfolding types_loop
parse_record_types d =
    if bytes_eq (take 4 d) magic
    then types_loop (length d) (drop 5 d) []
    else some (err assertion_error)

-- `unpack_from` raises where fewer than eight bytes are left.
unfoldable pub payloads_loop : ℕ → Bytes → List Bytes → Option (Raises (List Bytes))
payloads_loop fuel [] out = some (ok out)
payloads_loop zero (rtype ∷ rest) out = none
payloads_loop (suc fuel) (rtype ∷ rest) out =
    let plen = of_le (take 8 rest) in
    let payload = take plen (drop 8 rest) in
    let more =
      payloads_loop fuel (drop (8 + plen) rest)
        (if rtype == 8 then out ++ (payload ∷ []) else out) in
    if rtype == 0
    then some (ok out)
    else if ltb (length rest) 8
    then some (err struct_error)
    else more

unfoldable pub media_payloads : Bytes → Option (Raises (List Bytes))
unfolding payloads_loop
media_payloads d = payloads_loop (length d) (drop 5 d) []
