-- ===== src/ContentTypes/Dict.antt =====
-- The sorted dictionary: what it holds is the last value of each key, and each key stands in it once.
use construct_protos.Prelude.{
  ℕ, ◌<◌, ◌≤◌, subst, ◌≡◌, ◌∙◌, refl, sym, ap, ◌↔◌, inl, inr, List, [], ◌∷◌, Option, none, some,
  ◌==◌, if◌then◌else◌, All, arith, Bool-cases, ==_refl,
}
use construct_protos.ContentTypes.{put, put_all, sorted_dict, get}

module _ {ℓ} {V : Type ℓ} where
  -- The value that the last pair of a key has, or else one that was there before.
  abbrev pub last_or : ℕ → Option V → List (ℕ × V) → Option V
  last_or k o [] = o
  last_or k o ((j, w) ∷ kvs) = last_or k (if k == j then some w else o) kvs

  get-put :
      (k j : ℕ) (v : V) (d : List (ℕ × V))
      → get k (put j v d) ≡ (if k == j then some v else get k d)
  unfolding get put
  get-put k j v [] = refl
  get-put k j v ((i, w) ∷ d) = ground (arith, get-put k j v d)

  get-put_all : (k : ℕ) (d kvs : List (ℕ × V)) → get k (put_all d kvs) ≡ last_or k (get k d) kvs
  unfolding put_all
  get-put_all k d [] = refl
  get-put_all k d ((j, v) ∷ kvs) =
      get-put_all k (put j v d) kvs ∙ ap (λ o. last_or k o kvs) (get-put k j v d)

  pub get-sorted_dict : (k : ℕ) (kvs : List (ℕ × V)) → get k (sorted_dict kvs) ≡ last_or k none kvs
  unfolding sorted_dict get
  get-sorted_dict k kvs = get-put_all k [] kvs

  -- The keys increase, all being above a bound, which the first key need not have.
  abbrev IsAbove : ℕ → List (ℕ × V) → Type 0
  IsAbove k [] = Unit
  IsAbove k ((j, w) ∷ d) = (k < j) × IsAbove j d

  abbrev Increasing : List (ℕ × V) → Type 0
  Increasing [] = Unit
  Increasing ((j, w) ∷ d) = IsAbove j d

  put-IsAbove : (m k : ℕ) (v : V) (d : List (ℕ × V)) → IsAbove m d → m < k → IsAbove m (put k v d)
  unfolding put
  put-IsAbove m k v [] h lt = (lt, tt)
  put-IsAbove m k v ((j, w) ∷ d) h lt = ground (arith, put-IsAbove j k v d h.1)

  put-Increasing : (k : ℕ) (v : V) (d : List (ℕ × V)) → Increasing d → Increasing (put k v d)
  unfolding put
  put-Increasing k v [] h = tt
  put-Increasing k v ((j, w) ∷ d) h = ground (arith, put-IsAbove j k v d h)

  put_all-Increasing : (d kvs : List (ℕ × V)) → Increasing d → Increasing (put_all d kvs)
  unfolding put_all
  put_all-Increasing d [] h = h
  put_all-Increasing d ((k, v) ∷ kvs) h =
      put_all-Increasing (put k v d) kvs (put-Increasing k v d h)

  pub sorted_dict-Increasing : (kvs : List (ℕ × V)) → Increasing (sorted_dict kvs)
  unfolding sorted_dict
  sorted_dict-Increasing kvs = put_all-Increasing [] kvs tt

  -- A key that is not above the bound is not there.
  get_above : (m k : ℕ) (d : List (ℕ × V)) → IsAbove m d → k ≤ m → get k d ≡ none
  unfolding get
  get_above m k [] h le = refl
  get_above m k ((j, w) ∷ d) h le = ground (arith, get_above j k d h.1)

  -- A property of the value that a key has, if it has one.
  abbrev pub At {κ} : (ℕ → V → Type κ) → ℕ → Option V → Type κ
  At P k none = Unit
  At P k (some v) = P k v

  module _ {κ} (P : ℕ → V → Type κ) where
    At-tail :
        (j k : ℕ) (w : V) (d : List (ℕ × V))
        → IsAbove j d
        → At P k (get k ((j, w) ∷ d))
        → At P k (get k d)
    unfolding get
    At-tail j k w d h a = elim (Bool-cases (k == j)) [
      | inl e ↦ let here = get_above j k d h (ground arith) in subst (At P k) (sym here) tt
      | inr e ↦ subst (λ b. At P k (if b then some w else get k d)) e a
    ]

    At-cons :
        (j k : ℕ) (w : V) (d : List (ℕ × V))
        → P j w
        → At P k (get k d)
        → At P k (get k ((j, w) ∷ d))
    unfolding get
    At-cons j k w d p a = elim (Bool-cases (k == j)) [
      | inl e ↦
          let same : j ≡ k = ground arith in
          subst (λ b. At P k (if b then some w else get k d)) (sym e) (subst (λ i. P i w) same p)
      | inr e ↦ subst (λ b. At P k (if b then some w else get k d)) (sym e) a
    ]

    at_head : (j : ℕ) (w : V) (d : List (ℕ × V)) → At P j (get j ((j, w) ∷ d)) → P j w
    unfolding get
    at_head j w d a = subst (λ b. At P j (if b then some w else get j d)) (==_refl j) a

    below_Increasing : (m : ℕ) (d : List (ℕ × V)) → IsAbove m d → Increasing d
    below_Increasing m [] h = tt
    below_Increasing m ((j, w) ∷ d) h = h.1

    -- What holds of each entry holds of the value of each key, and the reverse.
    pub entries_iff :
        (d : List (ℕ × V)) → Increasing d → All (λ e. P e.0 e.1) d ↔ ((k : ℕ) → At P k (get k d))
    unfolding get
    entries_iff [] h = (λ a k. tt, λ a. tt)
    entries_iff ((j, w) ∷ d) h = (
      λ a k. At-cons j k w d a.0 ((entries_iff d (below_Increasing j d h)).0 a.1 k),
      λ a. (
        at_head j w d (a j),
        (entries_iff d (below_Increasing j d h)).1 (λ k. At-tail j k w d h (a k)),
      ),
    )
