-- ===== src/Markers/Cases.antt =====
-- conformance/check_read_markers.py: the cases that `build` makes and what `check` says of a file of
-- cases. `protoc --encode`, as `encode` calls it, is a parameter.
use construct_protos.Prelude.{
  ℕ, List, [], ◌∷◌, ◌++◌, Bool, true, false, not, ◌&&◌, Option, none, some, ◌==◌, concat, map,
  length,
}
use construct_protos.Prelude.Result.{ok, Raises, ◌>>=◌}
use construct_protos.Prelude.Checks.{check}
use construct_protos.Bytes.{Bytes, bytes_eq, codes}
use construct_protos.Bytes.Hex.{hex}
use construct_protos.Bytes.Decimal.{decimal}
use construct_protos.Markers.{Marker, Verdict, drop, apply, ignore, want_apply, want_covers}

abbrev pub Text : Type 0
Text = List ℕ

-- ALICE, BOB, M1 and M2
abbrev alice : Text
alice = codes "14f28d31-0c4e-4b7a-9f3e-2a5d6c7b8e90"

abbrev bob : Text
bob = codes "7d0a9b1c-3e2f-4a5b-8c6d-9e0f1a2b3c4d"

abbrev pub m1 : Text
m1 = codes "a3f1c2d4-5b6e-4f70-8a91-b2c3d4e5f607"

abbrev pub m2 : Text
m2 = codes "b4e2d3c5-6c7f-4081-9ba2-c3d4e5f60718"

unfoldable pub marker_text : Text → Text → ℕ → Text
unfolding decimal
marker_text partner message_id sent_at = concat (
    codes "markers { partner_user_id: \""
    ∷ partner
    ∷ codes "\" last_read_message_id: \""
    ∷ message_id
    ∷ codes "\" last_read_sent_at_ms: "
    ∷ decimal sent_at
    ∷ codes " }"
    ∷ [])

-- A dict of the `markers` of a decode case.
pub record Stated : Type 0 where
  pub partner_user_id : Text
  pub last_read_message_id : Text
  pub last_read_sent_at_ms : ℕ

pub record DecodeCase : Type 0 where
  pub name : Text
  pub markers : List Stated
  pub payload : Text

pub record ApplyCase : Type 0 where
  pub name : Text
  pub held : Option Marker
  pub marker : Marker
  pub from_own_account : Bool
  pub result : Verdict

pub record CoversCase : Type 0 where
  pub name : Text
  pub boundary : Marker
  pub message : Marker
  pub read : Bool

pub record Vectors : Type 0 where
  pub decode : List DecodeCase
  pub apply_cases : List ApplyCase
  pub covers : List CoversCase

-- `apply` and `covers` of `build`
unfoldable pub built_apply : List ApplyCase
built_apply =
    record {
      name = codes "first_marker";
      held = none;
      marker = (100, m1);
      from_own_account = true;
      result = apply;
    }
    ∷ record {
      name = codes "later_time";
      held = some (100, m2);
      marker = (101, m1);
      from_own_account = true;
      result = apply;
    }
    ∷ record {
      name = codes "earlier_time";
      held = some (101, m1);
      marker = (100, m2);
      from_own_account = true;
      result = ignore;
    }
    ∷ record {
      name = codes "same_time_greater_id";
      held = some (100, m1);
      marker = (100, m2);
      from_own_account = true;
      result = apply;
    }
    ∷ record {
      name = codes "same_time_smaller_id";
      held = some (100, m2);
      marker = (100, m1);
      from_own_account = true;
      result = ignore;
    }
    ∷ record {
      name = codes "same_marker_again";
      held = some (100, m1);
      marker = (100, m1);
      from_own_account = true;
      result = ignore;
    }
    ∷ record {
      name = codes "from_a_contact";
      held = none;
      marker = (100, m1);
      from_own_account = false;
      result = drop;
    }
    ∷ []

unfoldable pub built_covers : List CoversCase
built_covers =
    record {
      name = codes "the_message_itself";
      boundary = (100, m1);
      message = (100, m1);
      read = true;
    }
    ∷ record { name = codes "earlier"; boundary = (100, m1); message = (99, m2); read = true }
    ∷ record { name = codes "later"; boundary = (100, m1); message = (101, m1); read = false }
    ∷ record {
      name = codes "same_time_smaller_id";
      boundary = (100, m2);
      message = (100, m1);
      read = true;
    }
    ∷ record {
      name = codes "same_time_greater_id";
      boundary = (100, m1);
      message = (100, m2);
      read = false;
    }
    ∷ []

-- == of two cases of `decode`
unfoldable pub stated_eq : List Stated → List Stated → Bool
stated_eq [] [] = true
stated_eq [] (t ∷ ts) = false
stated_eq (s ∷ ss) [] = false
stated_eq (s ∷ ss) (t ∷ ts) =
    bytes_eq s.partner_user_id t.partner_user_id
    && (bytes_eq s.last_read_message_id t.last_read_message_id
        && (s.last_read_sent_at_ms == t.last_read_sent_at_ms && stated_eq ss ts))

unfoldable pub decode_eq : DecodeCase → DecodeCase → Bool
unfolding stated_eq
decode_eq a b =
    bytes_eq a.name b.name && (stated_eq a.markers b.markers && bytes_eq a.payload b.payload)

abbrev pub verdict_eq : Verdict → Verdict → Bool
verdict_eq drop drop = true
verdict_eq apply apply = true
verdict_eq ignore ignore = true
verdict_eq _ _ = false

abbrev pub bool_eq : Bool → Bool → Bool
bool_eq true b = b
bool_eq false b = not b

-- Which check fails; the case and the rule stand in its text.
pub data Mistake : Type 0 where
  decode_differs : Text → Mistake
  case_count : Mistake
  apply_says covers_says : Text → Mistake

-- The loop over zip(vectors["decode"], built["decode"])
unfoldable pub check_decode : List DecodeCase → List DecodeCase → List Mistake
unfolding decode_eq
check_decode [] built = []
check_decode (a ∷ as') [] = []
check_decode (a ∷ as') (b ∷ bs) =
    check (decode_eq a b) (decode_differs a.name) ++ check_decode as' bs

unfoldable pub check_apply : ApplyCase → List Mistake
check_apply c =
    check (verdict_eq c.result (want_apply c.from_own_account c.held c.marker)) (apply_says c.name)

unfoldable pub check_covers : CoversCase → List Mistake
check_covers c = check (bool_eq c.read (want_covers c.boundary c.message)) (covers_says c.name)

-- The dict of `build`, with what protoc encodes the two texts as
unfoldable pub vectors_of : Bytes → Bytes → Vectors
unfolding built_apply built_covers
vectors_of two empty = record {
  decode =
      record {
        name = codes "two_chats";
        markers =
            record {
              partner_user_id = alice;
              last_read_message_id = m1;
              last_read_sent_at_ms = 1760500000000;
            }
            ∷ record {
              partner_user_id = bob;
              last_read_message_id = m2;
              last_read_sent_at_ms = 1760500001000;
            }
            ∷ [];
        payload = hex two;
      }
      ∷ record { name = codes "empty"; markers = []; payload = hex empty }
      ∷ [];
  apply_cases = built_apply;
  covers = built_covers;
}

module _ (encode : Text → Raises Bytes) where
  unfoldable pub build : Raises Vectors
  unfolding marker_text vectors_of
  build = do
    two ←
        encode
          (marker_text alice m1 1760500000000 ++ (codes " " ++ marker_text bob m2 1760500001000))
    empty ← encode []
    ok (vectors_of two empty)

  -- check(vectors)
  unfoldable pub errors : Vectors → Raises (List Mistake)
  unfolding build check_decode check_apply check_covers
  errors vectors = do
    built ← build
    ok (
        check_decode vectors.decode built.decode
        ++ (check (length vectors.decode == length built.decode) case_count
            ++ (concat (map check_apply vectors.apply_cases)
                ++ concat (map check_covers vectors.covers))))
