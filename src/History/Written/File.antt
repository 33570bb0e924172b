-- ===== src/History/Written/File.antt =====
-- The row of the sealed file.
use construct_protos.Prelude.{
  Bool, ℕ, zero, suc, ◌+◌, ◌≤◌, ◌<◌, ◌≡◌, refl, ap, subst, List, [], ◌∷◌, ◌++◌, Option, none, some,
  String, All, arith, length, replicate, ==_refl, take_prefix,
}
use construct_protos.Prelude.Result.{ok, Raises, ◌>>=◌, bind_ok, ok_injective}
use construct_protos.Bytes.{Bytes, pack_le}
use construct_protos.Bytes.Struct.{bytes_eq_refl}
use construct_protos.Bytes.Made.{AreBytes, ◌&◌, pack_le-AreBytes}
use construct_protos.Bytes.Hex.{hex, fromhex, fromhex-hex}
use construct_protos.History.Keys.{Hmac}
use construct_protos.History.Stream.{stream}
use construct_protos.History.Stream.Steps.{stream_lem}
use construct_protos.History.Stream.Content.{IsKept, kept-IsStorable, length-stream, total}
use construct_protos.History.Sealed.{
  Aead, cthf_header_len, chunk_count, chunk_frames, seal_chunks, seal_stream,
}
use construct_protos.History.Sealed.Layout.{sealed_len, layout, chunk_frames-seal_stream}
use construct_protos.History.Records.Vectors.{counts}
use construct_protos.History.Records.Sized.{
  IsDeviceText, text_message-IsPayload, manifest-IsPayload, split_media-IsPayload,
}
use construct_protos.History.Rows.{Row, decode_ok, cthf_file}
use construct_protos.History.Rows.Kinds.{check_kind, check_file, check_whole_file}
use construct_protos.History.Written.{Printed, file_records, file_row}
use construct_protos.History.Written.Good.{Makes, full, vec-full, payload-IsGood}
use construct_protos.History.Written.Vectors.{one-IsKept}

length-layout : (left size at index : ℕ) → length (layout size at index left) ≡ left
length-layout zero size at index = refl
length-layout (suc left) size at index =
    ap suc (length-layout left size (at + (4 + sealed_len size index)) (index + 1))

pub zeros-AreBytes : (n : ℕ) → AreBytes (replicate n 0)
zeros-AreBytes zero = record { all = tt }
zeros-AreBytes (suc n) = record { all = (omega arith, (zeros-AreBytes n).all) }

module _ (aead : Aead)
    (encrypt-AreBytes : (key nonce text aad : Bytes)
      → AreBytes (aead.encrypt key nonce text aad)) where
  seal_chunks-AreBytes :
      (key text : Bytes) (index left : ℕ) {d : Bytes}
      → seal_chunks aead key text index left ≡ ok d
      → AreBytes d
  unfolding seal_chunks
  seal_chunks-AreBytes key text index zero e = subst AreBytes (ok_injective e) (record { all = tt })
  seal_chunks-AreBytes key text index (suc left) e =
      let (number, a, e₁) = bind_ok (pack_le 4 index) _ e in
      let (size, b, e₂) = bind_ok (pack_le 4 _) _ e₁ in
      let (rest, c, e₃) = bind_ok (seal_chunks aead key text (index + 1) left) _ e₂ in
      subst AreBytes (ok_injective e₃) (
        pack_le-AreBytes 4 _ b
        & (((pack_le-AreBytes 4 _ a & zeros-AreBytes 8) & encrypt-AreBytes key _ _ _)
            & seal_chunks-AreBytes key text (index + 1) left c))

  seal_stream-AreBytes :
      (key text : Bytes) {d : Bytes} → seal_stream aead key text ≡ ok d → AreBytes d
  unfolding seal_stream
  seal_stream-AreBytes key text e =
      let (chunks, a, e₁) =
        bind_ok (seal_chunks aead key text 0 (chunk_count (length text)))
          (λ chunks. ok (chunks ++ replicate 4 0)) e in
      subst AreBytes (ok_injective e₁)
        (seal_chunks-AreBytes key text 0 (chunk_count (length text)) a & zeros-AreBytes 4)

file_records-IsKept : (t : List ℕ) → IsDeviceText t → All IsKept (file_records t)
unfolding file_records
file_records-IsKept t h = (
  one-IsKept 1 (cc) (omega arith) (manifest-IsPayload 3 t (counts 1 0 1 1) h),
  (
    one-IsKept 4 (cc) (omega arith) text_message-IsPayload,
    ((cc, omega arith, split_media-IsPayload.0), tt),
  ),
)

-- The stream of the file is longer than a chunk, and far below the cap.
file_size :
    (t : List ℕ)
    → IsDeviceText t
    → (65_536 < total (file_records t)) × (total (file_records t) < 200_000)
unfolding file_records
file_size t h =
    let split = split_media-IsPayload in
    let small = (manifest-IsPayload 3 t (counts 1 0 1 1) h).short in
    let message = text_message-IsPayload.short in
    (omega (arith, split.1), omega (arith, split.0.short, small, message))

-- The branch of a file, on the header of V23 and as many chunks as the row says, two at least.
check_file-sealed :
    (v23 out : Bytes) (row : Row) (count : ℕ) (has : ℕ → Bool) {frames : List (ℕ × ℕ)}
    → AreBytes v23
    → AreBytes out
    → length v23 ≡ cthf_header_len
    → row.hex ≡ some (hex (v23 ++ out))
    → row.chunk_count ≡ some count
    → chunk_frames (v23 ++ out) ≡ ok frames
    → length frames ≡ count
    → 2 ≤ count
    → check_file row (ok (hex v23)) has none ≡ ok []
unfolding check_file check_whole_file
check_file-sealed v23 out row count has h k size at counted read same two =
    rw
      (
        at,
        fromhex-hex (v23 ++ out) (h & k).all,
        fromhex-hex v23 h.all,
        take_prefix cthf_header_len v23 out size,
        bytes_eq_refl v23,
        read,
        counted,
        same,
        ==_refl count,
      )
      (ground (arith, two))

abbrev names : Option (List String)
names = some ("manifest" ∷ "message" ∷ "media" ∷ "end" ∷ [])

abbrev file_full : Bytes → ℕ → Row
file_full d count = record (full 27 cthf_file decode_ok d names (some 3)) {
  chunk_count = some count;
}

file_made :
    {k text : Raises Bytes} {a b c : Bytes} (seal : Bytes → Bytes → Raises Bytes)
    (row : Bytes → Bytes → Raises Row) {made : Row}
    → k ≡ ok a
    → text ≡ ok b
    → seal a b ≡ ok c
    → row b c ≡ ok made
    → k >>= (λ x. text >>= (λ y. seal x y >>= (λ z. row y z))) ≡ ok made
file_made seal row p q r s = rw (p, q, r, s) refl

-- V27 is made of the header, and good.
pub file-Makes :
    (hmac : Hmac) (aead : Aead) (p : Printed) (t : List ℕ) (v23 key : Bytes)
    → ((key nonce text aad : Bytes) → AreBytes (aead.encrypt key nonce text aad))
    → fromhex p.file_channel_key ≡ ok key
    → IsDeviceText t
    → AreBytes v23
    → length v23 ≡ cthf_header_len
    → Makes hmac v23 27 (file_row aead p t v23)
unfolding file_row check_kind
file-Makes hmac aead p t v23 key enc key_read h bytes size =
    let kept = file_records-IsKept t h in
    let (large, small) = file_size t h in
    let (text, made) : (d : Bytes) × (stream (file_records t) ≡ ok d) =
      (_, stream_lem (file_records t) (kept-IsStorable (file_records t) kept)) in
    let long = length-stream (file_records t) kept made in
    let count = chunk_count (length text) in
    let (out, sealed, read) =
      chunk_frames-seal_stream aead key text v23 size (omega (arith, long, small)) in
    let whole : AreBytes (v23 ++ out) = bytes & seal_stream-AreBytes aead enc key text sealed in
    let row = file_full (v23 ++ out) count in
    (
      row,
      file_made (seal_stream aead) _ key_read made sealed (
          vec-full 27 cthf_file decode_ok (v23 ++ out) names (some 3)
            (λ r. record r { chunk_count = some count }) whole),
      refl,
      payload-IsGood (v23 ++ out) whole refl refl
          (λ has. ap some (
            check_file-sealed v23 out row count has bytes
              (seal_stream-AreBytes aead enc key text sealed) size refl refl read
              (length-layout count (length text) cthf_header_len 0) (omega (arith, long, large))))
          (λ e. absurd (omega (arith, e))),
    )
