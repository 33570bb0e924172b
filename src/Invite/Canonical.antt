-- ===== src/Invite/Canonical.antt =====
-- The canonical text of an invite, and reading its fields off it again.
use construct_protos.Prelude.{
  ℕ, ◌≡◌, ◌≢◌, ◌∙◌, refl, sym, ap, List, [], ◌∷◌, ◌++◌, ◌==◌, if◌then◌else◌, All, arith, get_or,
  ne→==_false,
}
use construct_protos.Bytes.Decimal.{IsDigit, decimal, decimal-IsDigit, decimal_injective}
use construct_protos.Invite.{Text, Fields, lower_char, lower, un_of, join_bar, parts, canonical}

abbrev push : ℕ → List Text → List Text
push c [] = (c ∷ []) ∷ []
push c (t ∷ ts) = (c ∷ t) ∷ ts

-- The texts between the bars.
split_bar : Text → List Text
split_bar [] = [] ∷ []
split_bar (c ∷ cs) = let rest = split_bar cs in if c == b'|' then [] ∷ rest else push c rest

-- No bar in a text.
abbrev pub IsPlain : Text → Type 0
IsPlain t = All (λ c. c ≢ b'|') t

split_plain : (t : Text) → IsPlain t → split_bar t ≡ t ∷ []
unfolding split_bar
split_plain [] h = refl
split_plain (c ∷ t) h = rw (ne→==_false c b'|' h.0, split_plain t h.1) refl

split_at_bar : (t r : Text) → IsPlain t → split_bar (t ++ (b'|' ∷ r)) ≡ t ∷ split_bar r
unfolding split_bar
split_at_bar [] r h = refl
split_at_bar (c ∷ t) r h = rw (ne→==_false c b'|' h.0, split_at_bar t r h.1) refl

split-join_bar :
    (t : Text) (ts : List Text) → All IsPlain (t ∷ ts) → split_bar (join_bar (t ∷ ts)) ≡ t ∷ ts
unfolding join_bar
split-join_bar t [] h = split_plain t h.0
split-join_bar t (u ∷ ts) h =
    split_at_bar t (join_bar (u ∷ ts)) h.0 ∙ ap (λ us. t ∷ us) (split-join_bar u ts h.1)

digits_IsPlain : (t : Text) → All IsDigit t → IsPlain t
digits_IsPlain [] h = tt
digits_IsPlain (c ∷ t) h = (λ e. omega (arith, h.0), digits_IsPlain t h.1)

lower_char-ne : (c : ℕ) → c ≢ b'|' → lower_char c ≢ b'|'
unfolding lower_char
lower_char-ne c h = ground arith

lower-IsPlain : (t : Text) → IsPlain t → IsPlain (lower t)
unfolding lower
lower-IsPlain [] h = tt
lower-IsPlain (c ∷ t) h = (lower_char-ne c h.0, lower-IsPlain t h.1)

-- No text of an invite has a bar in it.
pub record IsBarless (f : Fields) : Type 0 where
  pub jti : IsPlain f.jti
  pub uuid : IsPlain f.uuid
  pub device_id : IsPlain f.device_id
  pub server : IsPlain f.server
  pub un : IsPlain (un_of f.un)
  pub addr : IsPlain f.addr

parts-IsPlain : (f : Fields) → IsBarless f → All IsPlain (parts f)
unfolding parts
parts-IsPlain f h = (
  digits_IsPlain (decimal f.v) (decimal-IsDigit f.v),
  (
    lower-IsPlain f.jti h.jti,
    (
      lower-IsPlain f.uuid h.uuid,
      (
        h.device_id,
        (
          h.server,
          (
            digits_IsPlain (decimal f.ts) (decimal-IsDigit f.ts),
            (h.un, (digits_IsPlain (decimal f.ttl) (decimal-IsDigit f.ttl), (h.addr, tt))),
          ),
        ),
      ),
    ),
  ),
)

split-canonical : (f : Fields) → IsBarless f → split_bar (canonical f) ≡ parts f
unfolding canonical parts
split-canonical f h = split-join_bar _ _ (parts-IsPlain f h)

-- Two invites with no bar in a text and with the same canonical text have the same version, times,
-- device id, server, username and address, and the same identifiers but for upper case: what is
-- signed fixes them all. A username that is absent counts as an empty one.
pub canonical_injective :
    (f g : Fields)
    → IsBarless f
    → IsBarless g
    → canonical f ≡ canonical g
    → (f.v ≡ g.v)
      × (lower f.jti ≡ lower g.jti)
      × (lower f.uuid ≡ lower g.uuid)
      × (f.device_id ≡ g.device_id)
      × (f.server ≡ g.server)
      × (f.ts ≡ g.ts)
      × (un_of f.un ≡ un_of g.un)
      × (f.ttl ≡ g.ttl)
      × (f.addr ≡ g.addr)
unfolding parts
canonical_injective f g hf hg e =
    let same : parts f ≡ parts g =
      sym (split-canonical f hf) ∙ ap split_bar e ∙ split-canonical g hg in
    let nth = λ (i : ℕ) (ts : List Text). get_or ts i [] in
    (
      decimal_injective (ap (nth 0) same),
      ap (nth 1) same,
      ap (nth 2) same,
      ap (nth 3) same,
      ap (nth 4) same,
      decimal_injective (ap (nth 5) same),
      ap (nth 6) same,
      decimal_injective (ap (nth 7) same),
      ap (nth 8) same,
    )
