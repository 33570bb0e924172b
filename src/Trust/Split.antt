-- ===== src/Trust/Split.antt =====
-- Values that conformance/check_server_trust.py packs, in front of some bytes: the bytes fix both.
use construct_protos.Prelude.{
  ℕ, ◌+◌, ◌<◌, ◌^◌, ◌≡◌, ◌∙◌, sym, ap, ◌++◌, ltb, take, drop, length, arith, append_split,
  Bool-cases, inl, inr, ltb→lt,
}
use construct_protos.Prelude.Result.{ok, ok_injective, err_ne_ok}
use construct_protos.Bytes.{Bytes, be, of_be, pack_be}
use construct_protos.Bytes.Struct.{length-be, of_be-be}
use construct_protos.Trust.{lp, pack_time}
use construct_protos.Trust.Layout.{lp_reads}

-- A value behind its length, in front of some bytes: these fix both.
pub lp_split :
    (b b' rest rest' : Bytes) {d d' : Bytes}
    → lp b ≡ ok d
    → lp b' ≡ ok d'
    → d ++ rest ≡ d' ++ rest'
    → (b ≡ b') × (rest ≡ rest')
lp_split b b' rest rest' {d} {d'} e e' same =
    let (h, size, value, behind) = lp_reads b rest e in
    let (h', size', value', behind') = lp_reads b' rest' e' in
    let sizes : length b ≡ length b' = sym size ∙ ap (λ t. of_be (take 2 t)) same ∙ size' in
    (
      sym value
          ∙ ap (λ t. take (length b) (drop 2 t)) same
          ∙ ap (λ n. take n (drop 2 (d' ++ rest'))) sizes
          ∙ value',
      sym behind
          ∙ ap (drop (2 + length b)) same
          ∙ ap (λ n. drop (2 + n) (d' ++ rest')) sizes
          ∙ behind',
    )

-- A number of a fixed width, in front of some bytes.
be_split :
    (w n n' : ℕ) (rest rest' : Bytes)
    → n < 256 ^ w
    → n' < 256 ^ w
    → be w n ++ rest ≡ be w n' ++ rest'
    → (n ≡ n') × (rest ≡ rest')
be_split w n n' rest rest' h h' same =
    let (number, behind) =
      append_split w (be w n) (be w n') rest rest' (length-be w n) (length-be w n') same in
    (sym (of_be-be w n h) ∙ ap of_be number ∙ of_be-be w n' h', behind)

pack_time_inv : (n : ℕ) {d : Bytes} → pack_time n ≡ ok d → (n < 256 ^ 8) × (d ≡ be 8 n)
unfolding pack_time
pack_time_inv n e = elim (Bool-cases (ltb n (2 ^ 63))) [
  | inl k ↦ (omega (arith, ltb→lt n (2 ^ 63) k), sym (ok_injective (rw k at e)))
  | inr k ↦ absurd (err_ne_ok (rw k at e))
]

pack_be_inv : (w n : ℕ) {d : Bytes} → pack_be w n ≡ ok d → (n < 256 ^ w) × (d ≡ be w n)
unfolding pack_be
pack_be_inv w n e = elim (Bool-cases (ltb n (256 ^ w))) [
  | inl k ↦ (ltb→lt n (256 ^ w) k, sym (ok_injective (rw k at e)))
  | inr k ↦ absurd (err_ne_ok (rw k at e))
]

pub time_split :
    (n n' : ℕ) (rest rest' : Bytes) {d d' : Bytes}
    → pack_time n ≡ ok d
    → pack_time n' ≡ ok d'
    → d ++ rest ≡ d' ++ rest'
    → (n ≡ n') × (rest ≡ rest')
time_split n n' rest rest' e e' same =
    let (h, k) = pack_time_inv n e in
    let (h', k') = pack_time_inv n' e' in
    be_split 8 n n' rest rest' h h' (ap (λ t. t ++ rest) (sym k) ∙ same ∙ ap (λ t. t ++ rest') k')

pub size_split :
    (n n' : ℕ) (rest rest' : Bytes) {d d' : Bytes}
    → pack_be 8 n ≡ ok d
    → pack_be 8 n' ≡ ok d'
    → d ++ rest ≡ d' ++ rest'
    → (n ≡ n') × (rest ≡ rest')
size_split n n' rest rest' e e' same =
    let (h, k) = pack_be_inv 8 n e in
    let (h', k') = pack_be_inv 8 n' e' in
    be_split 8 n n' rest rest' h h' (ap (λ t. t ++ rest) (sym k) ∙ same ∙ ap (λ t. t ++ rest') k')
