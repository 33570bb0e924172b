-- ===== src/Profile/Rule.antt =====
-- The rule of check_profile_share.py next to what its text says.
use construct_protos.Prelude.{
  ℕ, ◌≡◌, ◌↔◌, ◌≤◌, ◌<◌, ◌⊎◌, inl, inr, refl, true, false, ◌&&◌, Option, none, some, if◌then◌else◌,
  arith, Bool-cases, lt→ltb, le→ltb_false, ltb→lt, ltb_false→le, and_inv, subst,
}
use construct_protos.Profile.{
  Avatar, set, removed, unchanged, Action, download, clear, keep, Answer, apply, ignore, Case,
  newer, action_of, is_apply, is_action, is_ignored, check_apply,
}

-- A profile is newer if none is held, or if its time is above the time held.
abbrev pub Newer : Option ℕ → ℕ → Type 0
Newer held edited = (held ≡ none) ⊎ (h : ℕ) × (held ≡ some h) × (h < edited)

-- What becomes of an avatar: one that is set is downloaded, one that is removed is cleared, and one
-- that is unchanged is kept.
abbrev pub Treats : Avatar → Option Action → Type 0
Treats set done = done ≡ some download
Treats removed done = done ≡ some clear
Treats unchanged done = done ≡ some keep

-- What a receiver does: it applies a newer profile and treats the avatar by its kind, and it leaves
-- alone one that is not newer.
abbrev pub Does : Case → Type 0
Does c =
    Newer c.held_edited_at_ms c.edited_at_ms × (c.result ≡ apply) × Treats c.avatar c.avatar_action
    ⊎ (h : ℕ) × (c.held_edited_at_ms ≡ some h)
      × (c.edited_at_ms ≤ h)
      × (c.result ≡ ignore)
      × (c.avatar_action ≡ none)

is_action-some : (o : Option Action) (a : Action) → (is_action o a ≡ true) ↔ (o ≡ some a)
is_action-some none a = (λ e. cc, λ e. cc)
is_action-some (some download) download = (λ e. refl, λ e. refl)
is_action-some (some download) clear = (λ e. cc, λ e. cc)
is_action-some (some download) keep = (λ e. cc, λ e. cc)
is_action-some (some clear) download = (λ e. cc, λ e. cc)
is_action-some (some clear) clear = (λ e. refl, λ e. refl)
is_action-some (some clear) keep = (λ e. cc, λ e. cc)
is_action-some (some keep) download = (λ e. cc, λ e. cc)
is_action-some (some keep) clear = (λ e. cc, λ e. cc)
is_action-some (some keep) keep = (λ e. refl, λ e. refl)

is_action-Treats :
    (v : Avatar) (o : Option Action) → (is_action o (action_of v) ≡ true) ↔ Treats v o
is_action-Treats set o = is_action-some o download
is_action-Treats removed o = is_action-some o clear
is_action-Treats unchanged o = is_action-some o keep

is_apply_inv : (r : Answer) → is_apply r ≡ true → r ≡ apply
is_apply_inv apply e = refl
is_apply_inv ignore e = ground arith

is_ignored_inv :
    (r : Answer) (o : Option Action) → is_ignored r o ≡ true → (r ≡ ignore) × (o ≡ none)
is_ignored_inv ignore none e = (refl, refl)
is_ignored_inv ignore (some a) e = ground arith
is_ignored_inv apply o e = ground arith

newer-true : (held : Option ℕ) (edited : ℕ) → newer held edited ≡ true → Newer held edited
newer-true none edited e = inl refl
newer-true (some h) edited e = inr (h, refl, ltb→lt h edited e)

newer-Newer : (held : Option ℕ) (edited : ℕ) → Newer held edited → newer held edited ≡ true
newer-Newer held edited (inl e) = rw e refl
newer-Newer held edited (inr (h, e, k)) = rw e (lt→ltb h edited k)

newer-false :
    (held : Option ℕ) (edited : ℕ)
    → newer held edited ≡ false
    → (h : ℕ) × (held ≡ some h) × (edited ≤ h)
newer-false none edited e = ground arith
newer-false (some h) edited e = (h, refl, ltb_false→le h edited e)

-- The checker passes a case exactly if its result and its avatar action are what a receiver does: a
-- profile is applied if none is held or if it is strictly newer, and its avatar is then downloaded if
-- it is set, cleared if it is removed and kept if it is unchanged; any other profile is ignored, with
-- no action.
pub check_apply_iff : (c : Case) → (check_apply c ≡ true) ↔ Does c
unfolding check_apply
check_apply_iff c = (passed, does)
  where
    passed : check_apply c ≡ true → Does c
    passed e = elim (Bool-cases (newer c.held_edited_at_ms c.edited_at_ms)) [
      | inl k ↦
          let (a, b) =
            and_inv (is_apply c.result) (is_action c.avatar_action (action_of c.avatar)) (
              subst
                (λ t.
                  (if t
                    then is_apply c.result && is_action c.avatar_action (action_of c.avatar)
                    else is_ignored c.result c.avatar_action)
                  ≡ true)
                k e) in
          inl (
            newer-true c.held_edited_at_ms c.edited_at_ms k,
            is_apply_inv c.result a,
            (is_action-Treats c.avatar c.avatar_action).0 b,
          )
      | inr k ↦
          let (h, x, y) = newer-false c.held_edited_at_ms c.edited_at_ms k in
          let (a, b) = is_ignored_inv c.result c.avatar_action (
            subst
              (λ t.
                (if t
                  then is_apply c.result && is_action c.avatar_action (action_of c.avatar)
                  else is_ignored c.result c.avatar_action)
                ≡ true)
              k e) in
          inr (h, x, y, a, b)
    ]

    does : Does c → check_apply c ≡ true
    does (inl (n, r, a)) =
        rw (newer-Newer c.held_edited_at_ms c.edited_at_ms n, r)
          ((is_action-Treats c.avatar c.avatar_action).1 a)
    does (inr (h, x, y, r, a)) = rw (x, le→ltb_false h c.edited_at_ms y, r, a) refl
