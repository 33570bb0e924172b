-- ===== src/ContentTypes/Legal.antt =====
-- When the script finds nothing wrong: what the proto and the rows must have in common, and what a row
-- must say.
use construct_protos.Prelude.{ℕ, ◌≡◌, ◌≢◌, ◌⊎◌, List, [], ◌∷◌, true, false, Option, none, some, map}
use construct_protos.Bytes.{codes}
use construct_protos.ContentTypes.{
  Text, Row, dispositions, routing_kinds, session_ops, side_channels, is_true,
}

-- One of some texts.
abbrev pub OneOf : Text → List Text → Type 0
OneOf t [] = ⊥
OneOf t (u ∷ us) = (t ≡ u) ⊎ OneOf t us

abbrev pub NoneOrOneOf : Option Text → List Text → Type 0
NoneOrOneOf none us = Unit
NoneOrOneOf (some t) us = OneOf t us

-- What a row must say. Its texts are among the known ones; a side channel stands in byte 5; a type for
-- own devices only is routed as SENDER_SYNC and never named to a peer; one that is not carried is
-- not in byte 5.
pub record IsLegal (row : Row) : Type 0 where
  pub disposition : OneOf row.disposition dispositions
  pub routing_kind : OneOf row.routing_kind routing_kinds
  pub session_control_op : NoneOrOneOf row.session_control_op session_ops
  pub framed_side_channel : NoneOrOneOf row.framed_side_channel side_channels
  pub framed : (is_true row.framed_side_channel ≡ false) ⊎ (row.knst_byte5 ≡ true)
  pub own :
      (row.own_devices_only ≡ some false)
      ⊎ (row.own_devices_only ≡ some true)
        × (row.routing_kind ≡ codes "SENDER_SYNC")
        × (row.sealed_inner_content_type ≡ false)
  pub carried : (row.disposition ≢ codes "not_carried") ⊎ (row.knst_byte5 ≡ false)

-- The name of a row, if there is one.
abbrev pub named : Option Row → Option Text
named none = none
named (some row) = some row.name

-- The rows of the file, by value; the last row of a value counts.
abbrev pub rows_of : List Row → List (ℕ × Row)
rows_of types = map (λ row. (row.value, row)) types
