-- ===== src/Profile.antt =====
-- conformance/check_profile_share.py, `check_apply`: what a receiver does with a profile, given the
-- time of the one that it holds.
pub mod Rule
pub mod Cases
mod Tests
use construct_protos.Prelude.{ℕ, Bool, true, false, ◌&&◌, Option, none, some, ltb, if◌then◌else◌}

pub data Avatar : Type 0 where
  set removed unchanged : Avatar

pub data Action : Type 0 where
  download clear keep : Action

pub data Answer : Type 0 where
  apply ignore : Answer

-- A dict of the `apply` cases.
pub record Case : Type 0 where
  pub held_edited_at_ms : Option ℕ
  pub edited_at_ms : ℕ
  pub avatar : Avatar
  pub result : Answer
  pub avatar_action : Option Action

abbrev pub newer : Option ℕ → ℕ → Bool
newer none edited = true
newer (some held) edited = ltb held edited

abbrev pub action_of : Avatar → Action
action_of set = download
action_of removed = clear
action_of unchanged = keep

-- == on the texts of a result and of an action
abbrev pub is_apply : Answer → Bool
is_apply apply = true
is_apply ignore = false

abbrev pub is_action : Option Action → Action → Bool
is_action none a = false
is_action (some download) download = true
is_action (some download) clear = false
is_action (some download) keep = false
is_action (some clear) download = false
is_action (some clear) clear = true
is_action (some clear) keep = false
is_action (some keep) download = false
is_action (some keep) clear = false
is_action (some keep) keep = true

abbrev pub is_ignored : Answer → Option Action → Bool
is_ignored ignore none = true
is_ignored ignore (some a) = false
is_ignored apply a = false

unfoldable pub check_apply : Case → Bool
check_apply case =
    if newer case.held_edited_at_ms case.edited_at_ms
    then is_apply case.result && is_action case.avatar_action (action_of case.avatar)
    else is_ignored case.result case.avatar_action
