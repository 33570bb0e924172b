-- ===== src/Profile/Tests.antt =====
-- The rule of a profile share at the case removed_clears.
use construct_protos.Prelude.{◌≡◌, ◌↔◌, true, some}
use construct_protos.Profile.{Case, removed, clear, apply, check_apply}
use construct_protos.Profile.Rule.{Does, check_apply_iff}

abbrev removed_clears : Case
removed_clears = record {
  held_edited_at_ms = some 11;
  edited_at_ms = 12;
  avatar = removed;
  result = apply;
  avatar_action = some clear;
}

check_apply_iff_example : (check_apply removed_clears ≡ true) ↔ Does removed_clears
check_apply_iff_example = check_apply_iff removed_clears
