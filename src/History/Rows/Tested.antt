-- ===== src/History/Rows/Tested.antt =====
-- Lists of errors next to what their tests say, for the body of the loop of
-- check_history_snapshot.py's `main`.
use construct_protos.Prelude.{
  ℕ, ◌≡◌, ◌≢◌, ◌↔◌, ◌⊎◌, inl, inr, refl, List, [], ◌∷◌, ◌++◌, Bool, true, false, All, ◌==◌, ◌&&◌,
  arith, Bool-cases, and_inv,
}
use construct_protos.Prelude.Checks.{check, check-nil, append-nil_iff}
use construct_protos.Bytes.{Bytes}
use construct_protos.History.Rows.{
  Expect, Complaint, malformed, verify_fail, verify_ok_with_tag, kem_key_id_mismatch,
  chunk_open_failed,
}
use construct_protos.History.Rows.Kinds.{
  is_malformed, is_verify_fail, is_ok_with_tag, is_mismatch, is_open_failed, when, all_zeros,
}

is_malformed_inv : (e : Expect) → is_malformed e ≡ true → e ≡ malformed
is_malformed_inv malformed h = refl
is_malformed_inv e h = cc

module _ {ℓ κ} {A : Type ℓ} {B : Type κ} {xs ys : List Complaint} where
  pub both_nil : (xs ≡ []) ↔ A → (ys ≡ []) ↔ B → (xs ++ ys ≡ []) ↔ (A × B)
  both_nil f g = (
    λ e. let (p, q) = (append-nil_iff xs ys).0 e in (f.0 p, g.0 q),
    λ (a, b). (append-nil_iff xs ys).1 (f.1 a, g.1 b),
  )

pub check_iff {ℓ} :
    {A : Type ℓ} (b : Bool) (what : Complaint) → (b ≡ true) ↔ A → (check b what ≡ []) ↔ A
check_iff b what f = (λ e. f.0 ((check-nil b what).0 e), λ a. (check-nil b what).1 (f.1 a))

pub false-ne-true : false ≢ true
false-ne-true e = cc

pub num_iff : (m n : ℕ) → ((m == n) ≡ true) ↔ (m ≡ n)
num_iff m n = (λ e. ground (arith, e), λ e. ground (arith, e))

pub when_iff {ℓ} :
    {A : Type ℓ} {cs : List Complaint} (m n : ℕ)
    → (cs ≡ []) ↔ A
    → (when (m == n) cs ≡ []) ↔ ((m ≢ n) ⊎ A)
when_iff {A = A} {cs = cs} m n f = elim (Bool-cases (m == n)) [
  | inl k ↦ rw k (
    λ e. inr (f.0 e),
    λ h. elim h [ inl other ↦ absurd (other ((num_iff m n).0 k)) | inr a ↦ f.1 a ],
  )
  | inr k ↦ rw k (λ e. inl (λ same. absurd (ground (arith, k, same))), λ h. refl)
]

pub is_malformed_iff : (e : Expect) → (is_malformed e ≡ true) ↔ (e ≡ malformed)
is_malformed_iff e = (is_malformed_inv e, λ h. rw h refl)

pub is_verify_fail_iff : (e : Expect) → (is_verify_fail e ≡ true) ↔ (e ≡ verify_fail)
is_verify_fail_iff e = (inv e, λ h. rw h refl)
  where
    inv : (e : Expect) → is_verify_fail e ≡ true → e ≡ verify_fail
    inv verify_fail h = refl
    inv e h = cc

pub is_ok_with_tag_iff : (e : Expect) → (is_ok_with_tag e ≡ true) ↔ (e ≡ verify_ok_with_tag)
is_ok_with_tag_iff e = (inv e, λ h. rw h refl)
  where
    inv : (e : Expect) → is_ok_with_tag e ≡ true → e ≡ verify_ok_with_tag
    inv verify_ok_with_tag h = refl
    inv e h = cc

pub is_mismatch_iff : (e : Expect) → (is_mismatch e ≡ true) ↔ (e ≡ kem_key_id_mismatch)
is_mismatch_iff e = (inv e, λ h. rw h refl)
  where
    inv : (e : Expect) → is_mismatch e ≡ true → e ≡ kem_key_id_mismatch
    inv kem_key_id_mismatch h = refl
    inv e h = cc

pub is_open_failed_iff : (e : Expect) → (is_open_failed e ≡ true) ↔ (e ≡ chunk_open_failed)
is_open_failed_iff e = (inv e, λ h. rw h refl)
  where
    inv : (e : Expect) → is_open_failed e ≡ true → e ≡ chunk_open_failed
    inv chunk_open_failed h = refl
    inv e h = cc

pub and_iff : (a b : Bool) → ((a && b) ≡ true) ↔ ((a ≡ true) × (b ≡ true))
and_iff a b = (and_inv a b, λ (p, q). rw (p, q) refl)

pub all_zeros_iff : (d : Bytes) → (all_zeros d ≡ true) ↔ All (λ b. b ≡ 0) d
unfolding all_zeros
all_zeros_iff [] = (λ e. tt, λ h. refl)
all_zeros_iff (b ∷ d) = (
  λ e. let (p, q) = and_inv (b == 0) (all_zeros d) e in ((num_iff b 0).0 p, (all_zeros_iff d).0 q),
  λ h. rw ((num_iff b 0).1 h.0, (all_zeros_iff d).1 h.1) refl,
)
