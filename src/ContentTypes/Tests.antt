-- ===== src/ContentTypes/Tests.antt =====
-- A row of the file next to the enum that names it, and rows that do not fit.
use construct_protos.Prelude.{ℕ, ◌≡◌, refl, List, [], ◌∷◌, true, false, none, some}
use construct_protos.Prelude.Checks.{checks}
use construct_protos.Bytes.{codes}
use construct_protos.ContentTypes.{
  Text, Row, not_in_proto, not_in_byte5, errors, sorted_dict, get, put_all, put, check_row, is_in,
}

abbrev read_sync : Row
read_sync = record {
  value = 30;
  name = codes "CONTENT_TYPE_READ_SYNC";
  disposition = codes "silent_control";
  routing_kind = codes "SENDER_SYNC";
  session_control_op = none;
  framed_side_channel = some (codes "read_sync");
  knst_byte5 = true;
  own_devices_only = some true;
  sealed_inner_content_type = false;
}

abbrev pairs : List (ℕ × Text)
pairs = (30, codes "CONTENT_TYPE_READ_SYNC") ∷ []

agreeing : errors pairs (read_sync ∷ []) ≡ []
unfolding errors sorted_dict put_all put get check_row is_in checks
agreeing = refl

unknown : errors [] (read_sync ∷ []) ≡ not_in_proto ∷ []
unfolding errors sorted_dict put_all put get check_row is_in checks
unknown = refl

not_framed : errors pairs (record read_sync { knst_byte5 = false } ∷ []) ≡ not_in_byte5 ∷ []
unfolding errors sorted_dict put_all put get check_row is_in checks
not_framed = refl
