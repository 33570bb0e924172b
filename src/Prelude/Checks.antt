-- ===== src/Prelude/Checks.antt =====
-- A script's list of errors: what its checks append to it, in order, and when it stays empty.
use mathlib.Core.Path.{◌≡◌, refl, ap, ◌∙◌}
use mathlib.Core.Logic.{◌≢◌, ◌↔◌, ◌⊎◌, inl, inr}
use mathlib.Core.Bool.{Bool, true, false, ◌||◌, not}
use mathlib.Core.List.{List, [], ◌∷◌, ◌++◌, map}
use native.Mathlib.Omega.{arith}
use construct_protos.Prelude.Lists.{All, concat}
use construct_protos.Prelude.Result.{ok, Raises, ◌>>=◌, bind_ok, ok_injective}

-- if not cond: errors.append(what)
abbrev pub check {ℓ} : {E : Type ℓ} → Bool → E → List E
check true what = []
check false what = what ∷ []

-- Such statements in a row, each with its condition and its text.
unfoldable pub checks {ℓ} : {E : Type ℓ} → List (Bool × E) → List E
checks [] = []
checks ((cond, what) ∷ cs) = check cond what ++ checks cs

pub cons-ne-nil {ℓ} : {A : Type ℓ} (x : A) (xs : List A) → x ∷ xs ≢ []
cons-ne-nil x xs e = cc

pub append-nil_iff {ℓ} : {A : Type ℓ} (xs ys : List A) → (xs ++ ys ≡ []) ↔ ((xs ≡ []) × (ys ≡ []))
append-nil_iff [] ys = (λ e. (refl, e), λ h. h.1)
append-nil_iff (x ∷ xs) ys =
    (λ e. absurd (cons-ne-nil x (xs ++ ys) e), λ h. absurd (cons-ne-nil x xs h.0))

pub check-nil {ℓ} : {E : Type ℓ} (b : Bool) (what : E) → (check b what ≡ []) ↔ (b ≡ true)
check-nil true what = (λ e. refl, λ e. refl)
check-nil false what = (λ e. absurd (cons-ne-nil what [] e), λ e. cc)

-- No error is left exactly if every condition holds.
pub checks-nil {ℓ} :
    {E : Type ℓ} (cs : List (Bool × E)) → (checks cs ≡ []) ↔ All (λ c. c.0 ≡ true) cs
unfolding checks
checks-nil [] = (λ e. tt, λ h. refl)
checks-nil ((cond, what) ∷ cs) = (
  λ e.
      let (front, behind) = (append-nil_iff (check cond what) (checks cs)).0 e in
      ((check-nil cond what).0 front, (checks-nil cs).0 behind),
  λ h.
      (append-nil_iff (check cond what) (checks cs)).1
        ((check-nil cond what).1 h.0, (checks-nil cs).1 h.1),
)

-- Errors of each item, one after the other, are none exactly if no item has any.
pub concat-map-nil {ℓ κ} :
    {A : Type ℓ} {E : Type κ} (f : A → List E) (xs : List A)
    → (concat (map f xs) ≡ []) ↔ All (λ x. f x ≡ []) xs
concat-map-nil f [] = (λ e. tt, λ h. refl)
concat-map-nil f (x ∷ xs) = (
  λ e.
      let (front, behind) = (append-nil_iff (f x) (concat (map f xs))).0 e in
      (front, (concat-map-nil f xs).0 behind),
  λ h. (append-nil_iff (f x) (concat (map f xs))).1 (h.0, (concat-map-nil f xs).1 h.1),
)

-- "not a or b" reads as an implication, here as a choice.
pub not-or_iff : (a b : Bool) → ((not a || b) ≡ true) ↔ ((a ≡ false) ⊎ (b ≡ true))
not-or_iff true b = (λ e. inr e, λ h. ground arith)
not-or_iff false b = (λ e. inl refl, λ h. refl)

pub not-true_iff : (a : Bool) → (not a ≡ true) ↔ (a ≡ false)
not-true_iff a = ground arith

module _ {ℓ κ μ} {A : Type ℓ} {P : A → Type κ} {Q : A → Type μ} where
  pub All-map_iff : ((x : A) → P x ↔ Q x) → (xs : List A) → All P xs ↔ All Q xs
  All-map_iff f [] = (λ h. tt, λ h. tt)
  All-map_iff f (x ∷ xs) =
      (λ h. ((f x).0 h.0, (All-map_iff f xs).0 h.1), λ h. ((f x).1 h.0, (All-map_iff f xs).1 h.1))

-- A loop whose body may raise, with the errors of every round in a row.
unfoldable pub each {ℓ κ} :
    {A : Type ℓ} {E : Type κ} → (A → Raises (List E)) → List A → Raises (List E)
each f [] = ok []
each f (x ∷ xs) = do found ← f x; more ← each f xs; ok (found ++ more)

-- It ends with no errors exactly if no round raises or has any.
pub each-nil {ℓ κ} :
    {A : Type ℓ} {E : Type κ} (f : A → Raises (List E)) (xs : List A)
    → (each f xs ≡ ok []) ↔ All (λ x. f x ≡ ok []) xs
unfolding each
each-nil f [] = (λ e. tt, λ h. refl)
each-nil f (x ∷ xs) = (
  λ e.
      let (found, one, e') = bind_ok (f x) (λ a. each f xs >>= (λ b. ok (a ++ b))) e in
      let (more, rest, e'') = bind_ok (each f xs) (λ b. ok (found ++ b)) e' in
      let (p, q) = (append-nil_iff found more).0 (ok_injective e'') in
      (one ∙ ap ok p, (each-nil f xs).0 (rest ∙ ap ok q)),
  λ h. rw (h.0, (each-nil f xs).1 h.1) refl,
)
