-- ===== src/ContentTypes.antt =====
-- conformance/check_content_types.py: the rows that say what clients do with a content type, and what
-- `main` finds wrong in them. The pairs that `re.findall` reads out of the enum of envelope.proto are
-- an argument; a text is the list of its code points, and a row has every key that `main` subscripts.
pub mod Dict
pub mod Legal
mod Tests
use construct_protos.Prelude.{
  ℕ, List, [], ◌∷◌, ◌++◌, Bool, true, false, not, ◌&&◌, ◌||◌, Option, none, some, map, concat, ltb,
  ◌==◌, if◌then◌else◌,
}
use construct_protos.Prelude.Checks.{check, checks}
use construct_protos.Bytes.{bytes_eq, codes}

abbrev pub Text : Type 0
Text = List ℕ

-- A row; `own_devices_only` is none if it is absent or no Boolean.
pub record Row : Type 0 where
  pub value : ℕ
  pub name : Text
  pub disposition : Text
  pub routing_kind : Text
  pub session_control_op : Option Text
  pub framed_side_channel : Option Text
  pub knst_byte5 : Bool
  pub own_devices_only : Option Bool
  pub sealed_inner_content_type : Bool

-- DISPOSITIONS
abbrev pub dispositions : List Text
dispositions =
    codes "transcript_incoming"
    ∷ codes "transcript_own_device"
    ∷ codes "silent_control"
    ∷ codes "not_carried"
    ∷ []

-- ROUTING_KINDS
abbrev pub routing_kinds : List Text
routing_kinds =
    codes "DIRECT_MESSAGE"
    ∷ codes "CONTROL_MESSAGE"
    ∷ codes "SENDER_SYNC"
    ∷ codes "SESSION_RESET_INIT"
    ∷ []

-- SESSION_OPS, but for None
abbrev pub session_ops : List Text
session_ops = codes "PING" ∷ codes "READY" ∷ codes "RESET_INIT" ∷ codes "END" ∷ []

-- SIDE_CHANNELS, but for None
abbrev pub side_channels : List Text
side_channels =
    codes "call_signal"
    ∷ codes "delivery_receipt"
    ∷ codes "contact_card"
    ∷ codes "profile"
    ∷ codes "read_sync"
    ∷ []

unfoldable pub is_in : Text → List Text → Bool
is_in t [] = false
is_in t (u ∷ us) = bytes_eq t u || is_in t us

-- `in` of a set that has None
abbrev pub is_none_or_in : Option Text → List Text → Bool
is_none_or_in none us = true
is_none_or_in (some t) us = is_in t us

-- The truth of a field that may be None: an empty text is false.
abbrev pub is_true : Option Text → Bool
is_true none = false
is_true (some []) = false
is_true (some (c ∷ t)) = true

-- {key: value}: a key that comes again keeps its place and takes the new value. The place is the one
-- that `sorted` gives it.
unfoldable pub put {ℓ} : {V : Type ℓ} → ℕ → V → List (ℕ × V) → List (ℕ × V)
put k v [] = (k, v) ∷ []
put k v ((j, w) ∷ d) =
    let rest = put k v d in
    if ltb k j then (k, v) ∷ (j, w) ∷ d else if k == j then (k, v) ∷ d else (j, w) ∷ rest

unfoldable pub put_all {ℓ} : {V : Type ℓ} → List (ℕ × V) → List (ℕ × V) → List (ℕ × V)
put_all d [] = d
put_all d ((k, v) ∷ kvs) = put_all (put k v d) kvs

-- sorted({...}.items())
unfoldable pub sorted_dict {ℓ} : {V : Type ℓ} → List (ℕ × V) → List (ℕ × V)
unfolding put_all
sorted_dict kvs = put_all [] kvs

-- d.get(key)
unfoldable pub get {ℓ} : {V : Type ℓ} → ℕ → List (ℕ × V) → Option V
get k [] = none
get k ((j, w) ∷ d) = let rest = get k d in if k == j then some w else rest

-- The texts that `main` adds to its errors.
pub data Mistake : Type 0 where
  no_row not_in_proto bad_disposition bad_routing_kind bad_session_control_op : Mistake
  bad_framed_side_channel not_in_byte5 own_devices_only_unset not_sender_sync on_peer_path : Mistake
  not_carried_in_byte5 : Mistake
  other_name : Text → Mistake

abbrev pub check_name : Text → Option Row → List Mistake
check_name name none = no_row ∷ []
check_name name (some row) = check (bytes_eq row.name name) (other_name row.name)

-- The first loop, over the proto.
abbrev pub check_proto : List (ℕ × Row) → ℕ × Text → List Mistake
check_proto rows (value, name) = check_name name (get value rows)

abbrev pub is_some : Option Text → Bool
is_some none = false
is_some (some t) = true

-- The second loop, over the rows.
abbrev pub check_value : List (ℕ × Text) → ℕ × Row → List Mistake
check_value proto (value, row) = check (is_some (get value proto)) not_in_proto

-- The tests of `own_devices_only`, which is a Boolean or an error.
abbrev pub check_own : Row → Option Bool → List Mistake
check_own row none = own_devices_only_unset ∷ []
check_own row (some false) = []
check_own row (some true) = checks (
    (bytes_eq row.routing_kind (codes "SENDER_SYNC"), not_sender_sync)
    ∷ (not row.sealed_inner_content_type, on_peer_path)
    ∷ [])

-- The third loop, over the rows again.
unfoldable pub check_row : Row → List Mistake
check_row row =
    checks (
      (is_in row.disposition dispositions, bad_disposition)
      ∷ (is_in row.routing_kind routing_kinds, bad_routing_kind)
      ∷ (is_none_or_in row.session_control_op session_ops, bad_session_control_op)
      ∷ (is_none_or_in row.framed_side_channel side_channels, bad_framed_side_channel)
      ∷ (not (is_true row.framed_side_channel) || row.knst_byte5, not_in_byte5)
      ∷ [])
    ++ (check_own row row.own_devices_only
        ++ check (not (bytes_eq row.disposition (codes "not_carried")) || not row.knst_byte5)
            not_carried_in_byte5)

-- Of the pairs of the enum and the rows of the file: the errors of `main`.
unfoldable pub errors : List (ℕ × Text) → List Row → List Mistake
errors pairs types =
    let proto = sorted_dict pairs in
    let rows = sorted_dict (map (λ row. (row.value, row)) types) in
    concat (map (check_proto rows) proto)
    ++ (concat (map (check_value proto) rows) ++ concat (map (λ r. check_row r.1) rows))
